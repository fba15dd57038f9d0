-- ===== src/Parser/Safety/Rules.antt =====
-- What every parsing function of muggin.c keeps of its context, and the rules for their chains.
use plmuggin.Base.{◌≤◌, ◌<◌, ◌≡◌, ◌≢◌, refl, ◌∙◌, Option, none, some, [], ◌∷◌, arith, Bytes, length}
use plmuggin.Parser.Monad.{
  Ctx, M, muggin_use_constant, muggin_use_name, ParseError, parse_error, on_option,
}
use plmuggin.Pool.Empty.{string_pool_use_nil}
use plmuggin.Pool.Intern.{string_pool_use_bounds}
use plmuggin.Pool.Slots.{IsPool}
use plmuggin.Pool.{count}
use plmuggin.Result.{Fault, Result, ok, fail, raised, uninitialised, endless}

-- The faults that a template can provoke in the parser: an error raised on purpose, the write
-- through the unset pointer of a text node, and the endless search for the end of a value.
abbrev pub IsAllowed : Fault → Type 0
IsAllowed raised = Unit
IsAllowed uninitialised = Unit
IsAllowed endless = Unit
IsAllowed _ = ⊥

-- The run ends in an allowed fault, or returns what `Q` says.
pub data Meets {A : Type 0} (Q : A → Ctx → Type 0) : Result (A × Ctx) → Type 0 where
  returns : {a : A} {c : Ctx} → Q a c → Meets Q (ok (a, c))
  faults : {e : Fault} → IsAllowed e → Meets Q (fail e)

pub Meets-bind :
    {A B : Type 0} {Q : A → Ctx → Type 0} {R : B → Ctx → Type 0} {r : Result (A × Ctx)}
    (f : A → M B)
    → Meets Q r
    → ((a : A) (c : Ctx) → Q a c → Meets R (f a c))
    → Meets R (elim r [ ok (a, c) ↦ f a c | fail e ↦ fail e ])
Meets-bind f (returns {a} {c} q) k = k a c q
Meets-bind f (faults e) k = faults e

pub Meets-weaken :
    {A : Type 0} {Q R : A → Ctx → Type 0} {r : Result (A × Ctx)}
    → Meets Q r
    → ((a : A) (c : Ctx) → Q a c → R a c)
    → Meets R r
Meets-weaken (returns {a} {c} q) k = returns (k a c q)
Meets-weaken (faults e) k = faults e

pub on_option-Meets :
    {A B : Type 0} {R : B → Ctx → Type 0} (missing : M B) (found : A → M B) (o : Option A) (c : Ctx)
    → Meets R (missing c)
    → ((a : A) → o ≡ some a → Meets R (found a c))
    → Meets R (on_option missing found o c)
unfolding on_option
on_option-Meets missing found none c m f = m
on_option-Meets missing found (some a) c m f = f a refl

pub some_cancel {ℓ} : {A : Type ℓ} {x y : A} → some x ≡ some y → x ≡ y
some_cancel e = cc

-- The pools of a context are well formed.
pub record IsCtx (c : Ctx) : Type 0 where
  pub constants : IsPool c.constants
  pub names : IsPool c.names

-- `c'` comes after `c` in a run: no id is lost, no input comes back, and the indent is as it was.
pub record Later (c c' : Ctx) : Type 0 where
  pub valid : IsCtx c'
  pub constants_le : count c.constants ≤ count c'.constants
  pub names_le : count c.names ≤ count c'.names
  pub shorter : length c'.input ≤ length c.input
  pub level : c'.indent ≡ c.indent

pub Later-refl : {c : Ctx} → IsCtx c → Later c c
Later-refl v = record {
  valid = v;
  constants_le = omega arith;
  names_le = omega arith;
  shorter = omega arith;
  level = refl;
}

pub Later-trans : {a b c : Ctx} → Later a b → Later b c → Later a c
Later-trans h k = record {
  valid = k.valid;
  constants_le = omega (arith, h.constants_le, k.constants_le);
  names_le = omega (arith, h.names_le, k.names_le);
  shorter = omega (arith, h.shorter, k.shorter);
  level = k.level ∙ h.level;
}

pub Later-input :
    {c c' : Ctx} (s : Bytes)
    → Later c c'
    → length s ≤ length c.input
    → Later c (record c' { input = s })
Later-input s h k = record {
  valid = record { constants = h.valid.constants; names = h.valid.names };
  constants_le = h.constants_le;
  names_le = h.names_le;
  shorter = k;
  level = h.level;
}

-- PARSE_ERROR leaves the way of `false`.
pub parse_error-Meets :
    {A : Type 0} {Q : Option A → Ctx → Type 0} (e : ParseError) (c : Ctx)
    → Q none (record c { error = some (e, c.input) })
    → Meets Q (parse_error e c)
unfolding parse_error
parse_error-Meets e c q = returns q

pub Later-error :
    {c c' : Ctx} (e : Option (ParseError × Bytes)) → Later c c' → Later c (record c' { error = e })
Later-error e h = record {
  valid = record { constants = h.valid.constants; names = h.valid.names };
  constants_le = h.constants_le;
  names_le = h.names_le;
  shorter = h.shorter;
  level = h.level;
}

pub muggin_use_constant-Meets :
    (s : Bytes) (c : Ctx)
    → IsCtx c
    → s ≢ []
    → Meets
        (λ id c'. Later c c' × (c'.input ≡ c.input) × (id < count c'.constants))
        (muggin_use_constant s c)
unfolding muggin_use_constant
muggin_use_constant-Meets s c v ne =
    let ((id, p), run, (inv, lt, le)) = string_pool_use_bounds c.constants s v.constants ne in
    rw (run, muggin_use_constant)
      (returns (
        record {
          valid = record { constants = inv; names = v.names };
          constants_le = le;
          names_le = omega arith;
          shorter = omega arith;
          level = refl;
        },
        refl,
        lt,
      ))

pub muggin_use_name-Meets :
    (s : Bytes) (c : Ctx)
    → IsCtx c
    → Meets
        (λ id c'. Later c c' × (c'.input ≡ c.input) × (id < count c'.names))
        (muggin_use_name s c)
unfolding muggin_use_name
muggin_use_name-Meets [] c v = rw (string_pool_use_nil c.names v.names, muggin_use_name) (faults tt)
muggin_use_name-Meets (x ∷ s) c v =
    let ((id, p), run, (inv, lt, le)) = string_pool_use_bounds c.names (x ∷ s) v.names (cc) in
    rw (run, muggin_use_name)
      (returns (
        record {
          valid = record { constants = v.constants; names = inv };
          constants_le = omega arith;
          names_le = le;
          shorter = omega arith;
          level = refl;
        },
        refl,
        lt,
      ))
