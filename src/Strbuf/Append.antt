-- ===== src/Strbuf/Append.antt =====
-- Appending to a buffer of str.h stays within its capacity and adds the bytes at its end.
use plmuggin.Base.{
  ℕ, ◌+◌, ◌≤◌, ◌≡◌, refl, Bool, true, false, [], ◌∷◌, ◌++◌, arith, Bytes, length, length-append, ap,
}
use plmuggin.Result.{Returns}
use plmuggin.Strbuf.{Strbuf, strbuf_ensure, write, append, strbuf_append_str, strbuf_append_char}

-- The text fits its memory.
abbrev pub IsValid : Strbuf → Type 0
IsValid b = length b.text ≤ b.capacity

pub strbuf_ensure_room :
    (alloc : ℕ → Bool) (b : Strbuf) (n : ℕ)
    → (strbuf_ensure alloc b n).0 ≡ true
    → length b.text + n ≤ (strbuf_ensure alloc b n).1.capacity
unfolding strbuf_ensure
strbuf_ensure_room alloc b n h = ground arith

pub strbuf_ensure-text :
    (alloc : ℕ → Bool) (b : Strbuf) (n : ℕ) → (strbuf_ensure alloc b n).1.text ≡ b.text
unfolding strbuf_ensure
strbuf_ensure-text alloc b n = ground arith

pub strbuf_ensure-IsValid :
    (alloc : ℕ → Bool) (b : Strbuf) (n : ℕ) → IsValid b → IsValid (strbuf_ensure alloc b n).1
unfolding strbuf_ensure
strbuf_ensure-IsValid alloc b n v = ground arith

pub strbuf_ensure_palloc : (b : Strbuf) (n : ℕ) → (strbuf_ensure (λ _. true) b n).0 ≡ true
unfolding strbuf_ensure
strbuf_ensure_palloc b n = ground arith

-- What an append of `bytes` to `b` leaves, with the memory that there is: the flag says whether
-- the bytes were added, and without them the text is as it was.
pub record Appends (b : Strbuf) (bytes : Bytes) (r : Bool × Strbuf) : Type 0 where
  pub valid : IsValid r.1
  pub added : r.0 ≡ true → r.1.text ≡ b.text ++ bytes
  pub refused : r.0 ≡ false → r.1.text ≡ b.text

pub append-Appends :
    (b : Strbuf) (bytes : Bytes) (r : Bool × Strbuf)
    → IsValid r.1
    → r.1.text ≡ b.text
    → (r.0 ≡ true → length r.1.text + length bytes ≤ r.1.capacity)
    → Returns (append bytes r) (λ q. Appends b bytes q × (q.0 ≡ r.0))
unfolding append write
append-Appends b bytes (true, r) v e room = (
  (true, record r { text = r.text ++ bytes }),
  ground (arith, room refl),
  (
    record {
      valid = omega (arith, room refl, length-append r.text bytes);
      added = λ _. ground arith;
      refused = λ h. cc;
    },
    refl,
  ),
)
append-Appends b bytes (false, r) v e room =
    ((false, r), refl, (record { valid = v; added = λ h. cc; refused = λ _. e }, refl))

module _ (alloc : ℕ → Bool) (b : Strbuf) (valid : IsValid b) where
  ensured :
      (bytes : Bytes) (n : ℕ)
      → length bytes ≤ n
      → let r = strbuf_ensure alloc b n in
        Returns (append bytes r) (λ q. Appends b bytes q × (q.0 ≡ r.0))
  ensured bytes n h =
      append-Appends b bytes (strbuf_ensure alloc b n) (strbuf_ensure-IsValid alloc b n valid)
        (strbuf_ensure-text alloc b n)
        (λ t.
          omega (arith, strbuf_ensure_room alloc b n t, ap length (strbuf_ensure-text alloc b n)))

  -- On a buffer that its text fits, strbuf_append_str writes within the buffer, whatever memory it
  -- gets, and adds all of its bytes or none.
  pub strbuf_append_str-Appends :
      (bytes : Bytes) → Returns (strbuf_append_str alloc b bytes) (Appends b bytes)
  unfolding strbuf_append_str
  strbuf_append_str-Appends bytes =
      let (q, run, (a, _)) = ensured bytes (length bytes) (omega arith) in (q, run, a)

  pub strbuf_append_char-Appends :
      (ch : ℕ) → Returns (strbuf_append_char alloc b ch) (Appends b (ch ∷ []))
  unfolding strbuf_append_char
  strbuf_append_char-Appends ch =
      let (q, run, (a, _)) = ensured (ch ∷ []) 1 (omega arith) in (q, run, a)
