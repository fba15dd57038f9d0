-- ===== src/Result.antt =====
-- What a run of the C code ends in. A fault is either an error that the code raises or a
-- behaviour that C leaves undefined.
use plmuggin.Base.{◌≡◌, refl}

pub data Fault : Type 0 where
  -- LOG_ERROR inside the extension: `log_error` of plmuggin.c is `elog(ERROR, …)`, which leaves
  -- the function and does not come back
  raised : Fault
  -- a read or a write outside of an array
  out_of_bounds : Fault
  -- a read of memory that was allocated and never written
  uninitialised : Fault
  -- a read through a pointer into memory that was freed
  dangling_pointer : Fault
  -- a signed product or a pointer that leaves its range
  overflow : Fault
  -- `% 0`
  division_by_zero : Fault
  -- a loop that never ends
  endless : Fault
  -- the fuel of a recursion in the model ran out; theorems show that this does not happen
  out_of_fuel : Fault

pub data Result {ℓ} (A : Type ℓ) : Type ℓ where
  ok : A → Result A
  fail : Fault → Result A

infixl 5 ◌>>=◌
abbrev pub ◌>>=◌ {ℓ κ} : {S : Type ℓ} {T : Type κ} → Result S → (S → Result T) → Result T
run >>= next = elim run [ ok s ↦ next s | fail e ↦ fail e ]

-- The run ends normally, in a value that satisfies `P`.
abbrev pub Returns {ℓ κ} : {A : Type ℓ} → Result A → (A → Type κ) → Type (ℓ ⊔ κ)
Returns {A} r P = (a : A) × (r ≡ ok a) × P a

pub bind-eq-ok {ℓ κ} :
    {S : Type ℓ} {T : Type κ} (run : Result S) (next : S → Result T) {t : T}
    → (run >>= next) ≡ ok t
    → Returns run (λ s. next s ≡ ok t)
bind-eq-ok (ok s) next h = (s, refl, h)
bind-eq-ok (fail e) next h = cc
