-- ===== src/Mugshot/Sha1.antt =====
-- SHA1 of mugshot/mugshot.c. Words of 32 bits and the count of 64 bits wrap.
pub mod Feed
pub mod Stream
pub mod Reference
use Prim.Native.Nat.{bit_and, bit_or, bit_xor}
use plmuggin.Base.{
  ℕ, zero, suc, ◌+◌, ◌-◌, ◌*◌, ◌/◌, ◌%◌, ◌^◌, Bool, true, false, List, [], ◌∷◌, ◌++◌, ltb, leb,
  ◌==◌, if◌then◌else◌, Bytes, length, take, drop, replicate,
}

-- the five words of the state
pub record HashState : Type 0 where
  pub a : ℕ
  pub b : ℕ
  pub c : ℕ
  pub d : ℕ
  pub e : ℕ

-- SHA1_CTX
pub record Context : Type 0 where
  pub state : HashState
  pub count : ℕ
  pub buffer : Bytes

-- ROL
unfoldable pub rol : ℕ → ℕ → ℕ
rol value bits = bit_or ((value * 2 ^ bits) % 2 ^ 32) (value / 2 ^ (32 - bits))

-- `~value`
unfoldable pub complement : ℕ → ℕ
complement value = 2 ^ 32 - 1 - value

unfoldable pub sha1_init : Context
sha1_init = record {
  state = record { a = 0x67452301; b = 0xEFCDAB89; c = 0x98BADCFE; d = 0x10325476; e = 0xC3D2E1F0 };
  count = 0;
  buffer = replicate 64 0;
}

-- the words of a block, the last one first
unfoldable pub words : List ℕ → Bytes → List ℕ
words w (b₃ ∷ b₂ ∷ b₁ ∷ b₀ ∷ block) =
    words ((b₃ * 2 ^ 24 + b₂ * 2 ^ 16 + b₁ * 2 ^ 8 + b₀) ∷ w) block
words w _ = w

-- the word `i` places before the next one
unfoldable pub word_before : List ℕ → ℕ → ℕ
word_before [] i = 0
word_before (x ∷ w) zero = 0
word_before (x ∷ w) (suc zero) = x
word_before (x ∷ w) (suc (suc i)) = word_before w (suc i)

-- `n` further words of the schedule
unfoldable pub expand : ℕ → List ℕ → List ℕ
unfolding rol word_before
expand zero w = w
expand (suc n) w = expand n (
    rol
      (bit_xor (bit_xor (bit_xor (word_before w 3) (word_before w 8)) (word_before w 14))
        (word_before w 16))
      1
    ∷ w)

-- the function and the constant of round `i`
unfoldable pub mix : ℕ → HashState → ℕ
unfolding complement
mix i s =
    if ltb i 20
    then bit_or (bit_and s.b s.c) (bit_and (complement s.b) s.d) + 0x5A827999
    else if ltb i 40
    then bit_xor (bit_xor s.b s.c) s.d + 0x6ED9EBA1
    else if ltb i 60
    then bit_or (bit_or (bit_and s.b s.c) (bit_and s.b s.d)) (bit_and s.c s.d) + 0x8F1BBCDC
    else bit_xor (bit_xor s.b s.c) s.d + 0xCA62C1D6

unfoldable pub round : ℕ → HashState → ℕ → HashState
unfolding rol mix
round i s w = record {
  a = (rol s.a 5 + mix i s + s.e + w) % 2 ^ 32;
  b = s.a;
  c = rol s.b 30;
  d = s.c;
  e = s.d;
}

-- the main loop, on the schedule with its first word first
unfoldable pub rounds : ℕ → HashState → List ℕ → HashState
unfolding round
rounds i s [] = s
rounds i s (w ∷ ws) = rounds (i + 1) (round i s w) ws

unfoldable pub onto : List ℕ → List ℕ → List ℕ
onto [] ys = ys
onto (x ∷ xs) ys = onto xs (x ∷ ys)

unfoldable pub sha1_transform : HashState → Bytes → HashState
unfolding words expand rounds onto
sha1_transform s block =
    let t = rounds 0 s (onto (expand 64 (words [] block)) []) in
    record {
      a = (s.a + t.a) % 2 ^ 32;
      b = (s.b + t.b) % 2 ^ 32;
      c = (s.c + t.c) % 2 ^ 32;
      d = (s.d + t.d) % 2 ^ 32;
      e = (s.e + t.e) % 2 ^ 32;
    }

-- memcpy to place `j` of a buffer
unfoldable pub put_at : ℕ → Bytes → Bytes → Bytes
put_at j bytes buffer = take j buffer ++ (bytes ++ drop (j + length bytes) buffer)

-- the loop over the full blocks, with the bytes that it leaves
unfoldable pub full_blocks : ℕ → HashState → Bytes → HashState × Bytes
full_blocks zero s bytes = (s, bytes)
full_blocks (suc fuel) s bytes =
    let rest = full_blocks fuel (sha1_transform s (take 64 bytes)) (drop 64 bytes) in
    if leb 64 (length bytes) then rest else (s, bytes)

-- the blocks of `bytes`, and then the rest to place `j` of the buffer
unfoldable pub store_rest : HashState → ℕ → ℕ → Bytes → Bytes → Context
store_rest s count j buffer bytes =
    let (s', rest) = full_blocks (length bytes) s bytes in
    record { state = s'; count = count; buffer = put_at j rest buffer }

-- SHA1_Update from place `j` of the buffer
unfoldable pub update_at : HashState → ℕ → ℕ → Bytes → Bytes → Context
update_at s count j buffer bytes =
    let filled = put_at j (take (64 - j) bytes) buffer in
    if leb 64 (j + length bytes)
    then store_rest (sha1_transform s filled) count 0 filled (drop (64 - j) bytes)
    else store_rest s count j buffer bytes

unfoldable pub sha1_update : Context → Bytes → Context
unfolding update_at
sha1_update ctx bytes =
    update_at ctx.state ((ctx.count + length bytes * 8) % 2 ^ 64) (ctx.count / 8 % 64) ctx.buffer
      bytes

-- the count in big-endian order
unfoldable pub final_count : ℕ → Bytes
final_count n =
    n / 2 ^ 56 % 2 ^ 8
    ∷ n / 2 ^ 48 % 2 ^ 8
    ∷ n / 2 ^ 40 % 2 ^ 8
    ∷ n / 2 ^ 32 % 2 ^ 8
    ∷ n / 2 ^ 24 % 2 ^ 8
    ∷ n / 2 ^ 16 % 2 ^ 8
    ∷ n / 2 ^ 8 % 2 ^ 8
    ∷ n % 2 ^ 8
    ∷ []

-- the loop that pads with zeros; 64 rounds are enough
unfoldable pub pad_zeros : ℕ → Context → Context
pad_zeros zero ctx = ctx
pad_zeros (suc fuel) ctx =
    let more = pad_zeros fuel (sha1_update ctx (0 ∷ [])) in
    if ctx.count % 512 == 448 then ctx else more

unfoldable pub word_bytes : ℕ → Bytes
word_bytes w = w / 2 ^ 24 % 2 ^ 8 ∷ w / 2 ^ 16 % 2 ^ 8 ∷ w / 2 ^ 8 % 2 ^ 8 ∷ w % 2 ^ 8 ∷ []

unfoldable pub digest : HashState → Bytes
unfolding word_bytes
digest s =
    word_bytes s.a ++ (word_bytes s.b ++ (word_bytes s.c ++ (word_bytes s.d ++ word_bytes s.e)))

unfoldable pub sha1_final : Context → Bytes
sha1_final ctx =
    digest (sha1_update (pad_zeros 64 (sha1_update ctx (0x80 ∷ []))) (final_count ctx.count)).state

unfoldable pub sha1 : Bytes → Bytes
sha1 bytes = sha1_final (sha1_update sha1_init bytes)
