-- ===== src/Mugshot/Sha1/Feed.antt =====
-- The bytes that SHA1_Update of mugshot/mugshot.c takes, one after the other, and the buffer that it keeps them in.
use plmuggin.Base.{
  ℕ, zero, suc, ◌+◌, ◌*◌, ◌%◌, ◌≤◌, ◌<◌, ◌≡◌, refl, sym, ap, ◌∙◌, true, false, [], ◌∷◌, ◌++◌,
  append_assoc, append-nil, arith, leb, ◌==◌, if◌then◌else◌, Bytes, length, take, drop,
  length-append, length-take, length-drop, take-append-drop, take-append, Bool-cases, inl, inr,
}
use plmuggin.Mugshot.Sha1.{HashState, Context, sha1_transform, put_at, full_blocks}

-- A state with the bytes that do not fill a block yet.
pub record Absorbed : Type 0 where
  pub state : HashState
  pub pending : Bytes

-- One byte more: a full block goes into the state.
unfoldable pub feed : Absorbed → ℕ → Absorbed
feed x byte =
    if length x.pending == 63
    then record { state = sha1_transform x.state (x.pending ++ byte ∷ []); pending = [] }
    else record { state = x.state; pending = x.pending ++ byte ∷ [] }

unfoldable pub feed_all : Absorbed → Bytes → Absorbed
feed_all x [] = x
feed_all x (byte ∷ bytes) = feed_all (feed x byte) bytes

pub feed_all-append : (x : Absorbed) (s t : Bytes) → feed_all x (s ++ t) ≡ feed_all (feed_all x s) t
unfolding feed_all
feed_all-append x [] t = refl
feed_all-append x (b ∷ s) t = feed_all-append (feed x b) s t

-- Bytes that do not fill the block wait.
pub feed_all_short :
    (s : HashState) (p bytes : Bytes)
    → length p + length bytes < 64
    → feed_all (record { state = s; pending = p }) bytes
      ≡ record { state = s; pending = p ++ bytes }
unfolding feed_all feed
feed_all_short s p [] h = rw append-nil refl
feed_all_short s p (b ∷ bytes) h =
    let open_block : (length p == 63) ≡ false = ground arith in
    rw open_block (
      feed_all_short s (p ++ b ∷ []) bytes (omega (arith, length-append p (b ∷ [])))
      ∙ ap (λ w. record { state = s; pending = w }) (append_assoc p (b ∷ []) bytes))

-- Bytes that fill the block are transformed with what waited.
pub feed_all_block :
    (s : HashState) (p bytes : Bytes)
    → length p < 64
    → length p + length bytes ≡ 64
    → feed_all (record { state = s; pending = p }) bytes
      ≡ record { state = sha1_transform s (p ++ bytes); pending = [] }
unfolding feed_all feed
feed_all_block s p [] lt h = absurd (omega arith)
feed_all_block s p (b ∷ []) lt h = let full : (length p == 63) ≡ true = ground arith in rw full refl
feed_all_block s p (b ∷ c ∷ bytes) lt h =
    let open_block : (length p == 63) ≡ false = ground arith in
    rw open_block (
      feed_all_block s (p ++ b ∷ []) (c ∷ bytes) (omega (arith, length-append p (b ∷ [])))
        (omega (arith, length-append p (b ∷ [])))
      ∙ ap (λ w. record { state = sha1_transform s w; pending = [] })
          (append_assoc p (b ∷ []) (c ∷ bytes)))

-- What a context stands for: the pending bytes are at the front of its buffer.
pub record Holds (ctx : Context) (x : Absorbed) : Type 0 where
  pub state : ctx.state ≡ x.state
  pub pending : take (length x.pending) ctx.buffer ≡ x.pending
  pub room : length x.pending < 64
  pub count : ctx.count % 512 ≡ 8 * length x.pending
  pub size : length ctx.buffer ≡ 64

-- The blocks of a text, from a state with nothing pending.
pub full_blocks-feed_all :
    (fuel : ℕ) (s : HashState) (bytes : Bytes)
    → length bytes ≤ fuel
    → (feed_all (record { state = s; pending = [] }) bytes
        ≡ record { state = (full_blocks fuel s bytes).0; pending = (full_blocks fuel s bytes).1 })
      × (length (full_blocks fuel s bytes).1 < 64)
      × (length (full_blocks fuel s bytes).1 ≡ length bytes % 64)
unfolding full_blocks feed_all
full_blocks-feed_all zero s [] h = (refl, omega arith, omega arith)
full_blocks-feed_all zero s (b ∷ bytes) h = absurd (omega arith)
full_blocks-feed_all (suc fuel) s bytes h = elim (Bool-cases (leb 64 (length bytes))) [
  | inl full ↦
      let le : 64 ≤ length bytes = ground arith in
      let cut : length (take 64 bytes) ≡ 64 = omega (arith, length-take 64 bytes) in
      let (run, lt, eq) =
        full_blocks-feed_all fuel (sha1_transform s (take 64 bytes)) (drop 64 bytes)
          (omega (arith, length-drop 64 bytes)) in
      rw full (
        ap (feed_all (record { state = s; pending = [] })) (sym (take-append-drop 64 bytes))
            ∙ feed_all-append (record { state = s; pending = [] }) (take 64 bytes) (drop 64 bytes)
            ∙ ap (λ x. feed_all x (drop 64 bytes))
                (feed_all_block s [] (take 64 bytes) (omega arith) (omega (arith, cut)))
            ∙ run,
        lt,
        omega (arith, eq, length-drop 64 bytes),
      )
  | inr short ↦
      let lt : length bytes < 64 = ground arith in
      rw short (feed_all_short s [] bytes (omega arith), lt, omega arith)
]

pub drop_all : (n : ℕ) (s : Bytes) → length s ≤ n → drop n s ≡ []
drop_all zero [] h = refl
drop_all zero (x ∷ s) h = absurd (omega arith)
drop_all (suc n) [] h = refl
drop_all (suc n) (x ∷ s) h = drop_all n s (omega arith)

pub length-put_at :
    (j : ℕ) (bytes buffer : Bytes)
    → j + length bytes ≤ length buffer
    → length (put_at j bytes buffer) ≡ length buffer
unfolding put_at
length-put_at j bytes buffer h = omega (
  arith,
  length-append (take j buffer) (bytes ++ drop (j + length bytes) buffer),
  length-append bytes (drop (j + length bytes) buffer),
  length-take j buffer,
  length-drop (j + length bytes) buffer,
)

pub take-put_at :
    (j : ℕ) (p bytes buffer : Bytes)
    → length p ≡ j
    → take j buffer ≡ p
    → take (j + length bytes) (put_at j bytes buffer) ≡ p ++ bytes
unfolding put_at
take-put_at j p bytes buffer n e =
    let m : j + length bytes ≡ length (p ++ bytes) = omega (arith, length-append p bytes) in
    rw e (
      ap (λ k. take k (p ++ (bytes ++ drop (j + length bytes) buffer))) m
      ∙ ap (take (length (p ++ bytes)))
          (sym (append_assoc p bytes (drop (j + length bytes) buffer)))
      ∙ take-append (p ++ bytes) (drop (j + length bytes) buffer))
