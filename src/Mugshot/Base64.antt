-- ===== src/Mugshot/Base64.antt =====
-- base64_encode and base64_decode_mut of mugshot/mugshot.c. A C string stands as its bytes before
-- the NUL.
use plmuggin.Base.{
  ℕ, zero, suc, ◌+◌, ◌-◌, ◌*◌, ◌/◌, ◌%◌, ◌^◌, ◌<◌, ◌≡◌, refl, ap, subst, ◌∙◌, Bool, true, false,
  not, ◌&&◌, ◌||◌, Option, none, some, [], ◌∷◌, ◌++◌, arith, ltb, leb, ◌==◌, ==_iff, if◌then◌else◌,
  Bytes, codes, length, All, Bool-cases, inl, inr,
}
use plmuggin.Str.{char_at}

abbrev pub base64_enc : Bytes
base64_enc = codes "ABCDEFGHIJKLMNOPQRSTUVWXYZabcdefghijklmnopqrstuvwxyz0123456789+/"

abbrev pub base64_dec : Bytes
base64_dec =
    62 ∷ 64 ∷ 64 ∷ 64 ∷ 63 ∷ 52 ∷ 53 ∷ 54 ∷ 55 ∷ 56 ∷ 57 ∷ 58 ∷ 59 ∷ 60 ∷ 61 ∷ 64 ∷ 64 ∷ 64 ∷ 64
    ∷ 64 ∷ 64 ∷ 64 ∷ 0 ∷ 1 ∷ 2 ∷ 3 ∷ 4 ∷ 5 ∷ 6 ∷ 7 ∷ 8 ∷ 9 ∷ 10 ∷ 11 ∷ 12 ∷ 13 ∷ 14 ∷ 15 ∷ 16 ∷ 17
    ∷ 18 ∷ 19 ∷ 20 ∷ 21 ∷ 22 ∷ 23 ∷ 24 ∷ 25 ∷ 64 ∷ 64 ∷ 64 ∷ 64 ∷ 64 ∷ 64 ∷ 26 ∷ 27 ∷ 28 ∷ 29 ∷ 30
    ∷ 31 ∷ 32 ∷ 33 ∷ 34 ∷ 35 ∷ 36 ∷ 37 ∷ 38 ∷ 39 ∷ 40 ∷ 41 ∷ 42 ∷ 43 ∷ 44 ∷ 45 ∷ 46 ∷ 47 ∷ 48 ∷ 49
    ∷ 50 ∷ 51 ∷ []

unfoldable pub symbol : ℕ → ℕ
unfolding char_at
symbol n = char_at base64_enc n

-- the groups of up to three octets, each as four symbols; `=` stands for a missing octet
unfoldable pub encode_groups : Bytes → Bytes
unfolding symbol
encode_groups [] = []
encode_groups (a ∷ []) = symbol (a / 4) ∷ symbol (a % 4 * 16) ∷ b'=' ∷ b'=' ∷ []
encode_groups (a ∷ b ∷ []) =
    symbol (a / 4) ∷ symbol (a % 4 * 16 + b / 16) ∷ symbol (b % 16 * 4) ∷ b'=' ∷ []
encode_groups (a ∷ b ∷ c ∷ s) =
    symbol (a / 4)
    ∷ symbol (a % 4 * 16 + b / 16)
    ∷ symbol (b % 16 * 4 + c / 64)
    ∷ symbol (c % 64)
    ∷ encode_groups s

-- base64_encode, with pointers that are not NULL: false, as `none`, where the input is empty or the
-- output has no room for the text and its NUL
unfoldable pub base64_encode : Bytes → ℕ → Option Bytes
unfolding encode_groups
base64_encode input output_len =
    let text = encode_groups input in
    if length input == 0 || output_len == 0
    then none
    else if ltb (length text) output_len
    then some text
    else none

-- the bytes that the decoder takes
unfoldable pub allowed : ℕ → Bool
allowed ch = leb b'+' ch && leb ch b'z'

-- `base64_dec[in[i]]`
unfoldable pub sextet : ℕ → ℕ
unfolding char_at
sextet ch = char_at base64_dec (if ch == b'=' then 0 else ch - b'+')

-- what a symbol adds to the count of those that are no padding
abbrev pub counts : ℕ → ℕ
counts ch = if ch == b'=' then 0 else 1

-- the switch on that count
unfoldable pub decode_group : ℕ → ℕ → ℕ → ℕ → ℕ → Option Bytes
decode_group n a b c d =
    if n == 2
    then some ((a * 4 + b / 16) % 2 ^ 8 ∷ [])
    else if n == 3
    then some ((a * 4 + b / 16) % 2 ^ 8 ∷ (b % 16 * 16 + c / 4) % 2 ^ 8 ∷ [])
    else if n == 4
    then some
        ((a * 4 + b / 16) % 2 ^ 8 ∷ (b % 16 * 16 + c / 4) % 2 ^ 8 ∷ (c % 4 * 64 + d) % 2 ^ 8 ∷ [])
    else none

-- four symbols, as their octets
unfoldable pub decode_four : ℕ → ℕ → ℕ → ℕ → Option Bytes
unfolding allowed sextet decode_group
decode_four w x y z =
    if allowed w && allowed x && allowed y && allowed z
    then decode_group (counts w + counts x + counts y + counts z) (sextet w) (sextet x) (sextet y)
        (sextet z)
    else none

-- base64_decode_mut: what it leaves in place of its input, or `none` for false. Each group writes
-- at most three bytes where four were read, so no byte is overwritten before it is read. Where a
-- group lacks symbols, the NUL is met in their place, and it is not allowed.
unfoldable pub base64_decode_mut : Bytes → Option Bytes
unfolding decode_four
base64_decode_mut [] = some []
base64_decode_mut (w ∷ x ∷ y ∷ z ∷ s) =
    let rest = base64_decode_mut s in
    elim (decode_four w x y z) [
      | none ↦ none
      | some out ↦ elim rest [ none ↦ none | some more ↦ some (out ++ more) ]
    ]
base64_decode_mut _ = none

-- Every number below `n` passes the test.
all_below : ℕ → (ℕ → Bool) → Bool
all_below zero f = true
all_below (suc n) f = f n && all_below n f

all_below_lem : (n : ℕ) (f : ℕ → Bool) (i : ℕ) → all_below n f ≡ true → i < n → f i ≡ true
unfolding all_below
all_below_lem zero f i h lt = absurd (omega arith)
all_below_lem (suc n) f i h lt = elim (Bool-cases (i == n)) [
  | inl e ↦ ap f ((==_iff i n).0 e) ∙ ground arith
  | inr e ↦ all_below_lem n f i (ground arith) (ground (arith, (==_iff i n).1))
]

good : ℕ → Bool
unfolding allowed symbol sextet
good n = allowed (symbol n) && not (symbol n == b'=') && (sextet (symbol n) == n)

all_good : all_below 64 good ≡ true
unfolding all_below good allowed symbol sextet
all_good = refl

-- A symbol of the encoder is one of the decoder, no padding, with the same value.
record Decodes (n : ℕ) : Type 0 where
  allowed_symbol : allowed (symbol n) ≡ true
  no_padding : (symbol n == b'=') ≡ false
  value : sextet (symbol n) ≡ n

symbol-Decodes : (n : ℕ) → n < 64 → Decodes n
unfolding good
symbol-Decodes n lt =
    let h : good n ≡ true = all_below_lem 64 good n all_good lt in
    record {
      allowed_symbol = ground arith;
      no_padding = ground arith;
      value = (==_iff (sextet (symbol n)) n).0 (ground arith);
    }

four_symbols :
    {i j k l : ℕ}
    → Decodes i
    → Decodes j
    → Decodes k
    → Decodes l
    → decode_four (symbol i) (symbol j) (symbol k) (symbol l) ≡ decode_group 4 i j k l
unfolding decode_four
four_symbols p q r s =
    let a = p.value in
    let b = q.value in
    let c = r.value in
    let d = s.value in
    rw
      (
        p.allowed_symbol, q.allowed_symbol, r.allowed_symbol, s.allowed_symbol, p.no_padding,
        q.no_padding, r.no_padding, s.no_padding,
      )
      (cc)

three_symbols :
    {i j k : ℕ}
    → Decodes i
    → Decodes j
    → Decodes k
    → decode_four (symbol i) (symbol j) (symbol k) b'=' ≡ decode_group 3 i j k (sextet b'=')
unfolding decode_four allowed
three_symbols p q r =
    let a = p.value in
    let b = q.value in
    let c = r.value in
    rw
      (
        p.allowed_symbol, q.allowed_symbol, r.allowed_symbol, p.no_padding, q.no_padding,
        r.no_padding,
      )
      (cc)

two_symbols :
    {i j : ℕ}
    → Decodes i
    → Decodes j
    → decode_four (symbol i) (symbol j) b'=' b'=' ≡ decode_group 2 i j (sextet b'=') (sextet b'=')
unfolding decode_four allowed
two_symbols p q =
    let a = p.value in
    let b = q.value in rw (p.allowed_symbol, q.allowed_symbol, p.no_padding, q.no_padding) (cc)

base64_decode_mut-encode_groups :
    (s : Bytes) → All (λ c. c < 2 ^ 8) s → base64_decode_mut (encode_groups s) ≡ some s
unfolding base64_decode_mut encode_groups decode_group
base64_decode_mut-encode_groups [] h = refl
base64_decode_mut-encode_groups (a ∷ []) (ha, h) =
    let run =
      two_symbols (symbol-Decodes (a / 4) (omega arith))
        (symbol-Decodes (a % 4 * 16) (omega arith)) in
    let first : (a / 4 * 4 + a % 4 * 16 / 16) % 2 ^ 8 ≡ a = omega arith in
    rw (run, base64_decode_mut, first) refl
base64_decode_mut-encode_groups (a ∷ b ∷ []) (ha, (hb, h)) =
    let run =
      three_symbols (symbol-Decodes (a / 4) (omega arith))
        (symbol-Decodes (a % 4 * 16 + b / 16) (omega arith))
        (symbol-Decodes (b % 16 * 4) (omega arith)) in
    let first : (a / 4 * 4 + (a % 4 * 16 + b / 16) / 16) % 2 ^ 8 ≡ a = omega arith in
    let second : ((a % 4 * 16 + b / 16) % 16 * 16 + b % 16 * 4 / 4) % 2 ^ 8 ≡ b = omega arith in
    rw (run, base64_decode_mut, first, second) refl
base64_decode_mut-encode_groups (a ∷ b ∷ c ∷ s) (ha, (hb, (hc, h))) =
    let run =
      four_symbols (symbol-Decodes (a / 4) (omega arith))
        (symbol-Decodes (a % 4 * 16 + b / 16) (omega arith))
        (symbol-Decodes (b % 16 * 4 + c / 64) (omega arith))
        (symbol-Decodes (c % 64) (omega arith)) in
    let first : (a / 4 * 4 + (a % 4 * 16 + b / 16) / 16) % 2 ^ 8 ≡ a = omega arith in
    let second : ((a % 4 * 16 + b / 16) % 16 * 16 + (b % 16 * 4 + c / 64) / 4) % 2 ^ 8 ≡ b =
      omega arith in
    let third : ((b % 16 * 4 + c / 64) % 4 * 64 + c % 64) % 2 ^ 8 ≡ c = omega arith in
    rw (run, base64_decode_mut, base64_decode_mut-encode_groups s h, first, second, third) refl

-- What base64_encode leaves for an input of octets, where it returns true, base64_decode_mut turns
-- back into that input.
pub base64_decode_mut-base64_encode :
    (input : Bytes) (output_len : ℕ) {out : Bytes}
    → All (λ c. c < 2 ^ 8) input
    → base64_encode input output_len ≡ some out
    → base64_decode_mut out ≡ some input
unfolding base64_encode
base64_decode_mut-base64_encode input output_len {out} octets h =
    let e : encode_groups input ≡ out = ground arith in
    subst (λ w. base64_decode_mut w ≡ some input) e (base64_decode_mut-encode_groups input octets)

length-encode_groups : (s : Bytes) → length (encode_groups s) ≡ (length s + 2) / 3 * 4
unfolding encode_groups
length-encode_groups [] = refl
length-encode_groups (a ∷ []) = refl
length-encode_groups (a ∷ b ∷ []) = refl
length-encode_groups (a ∷ b ∷ c ∷ s) = omega (arith, length-encode_groups s)

-- base64_encode returns true where the input is not empty and the output has room for four symbols
-- for each three octets begun, and a NUL. The symbols are then as many.
pub base64_encode_room :
    (input : Bytes) (output_len : ℕ)
    → 0 < length input
    → (length input + 2) / 3 * 4 < output_len
    → (out : Bytes) × (base64_encode input output_len ≡ some out)
      × (length out ≡ (length input + 2) / 3 * 4)
unfolding base64_encode
base64_encode_room input output_len h room =
    (encode_groups input, ground (arith, length-encode_groups input), length-encode_groups input)
