-- ===== src/Str/Url.antt =====
-- str_urldecode and str_urldecode_to of str.h.
use plmuggin.Base.{
  ℕ, zero, suc, ◌+◌, ◌-◌, ◌*◌, ◌/◌, ◌%◌, ◌^◌, ◌≤◌, ◌<◌, ◌≡◌, refl, false, not, ◌&&◌, ◌||◌, Option,
  none, some, [], ◌∷◌, ◌++◌, arith, ltb, leb, ◌==◌, if◌then◌else◌, Bytes, length, length-append,
  All, Bool-cases, inl, inr,
}
use plmuggin.Str.{char_at, str_drop}

-- the value of a hexadecimal digit, or `none` for the way to `fail`
unfoldable pub hex_digit : ℕ → Option ℕ
hex_digit d =
    if leb b'0' d && leb d b'9'
    then some (d - b'0')
    else if leb b'a' d && leb d b'f'
    then some (10 + (d - b'a'))
    else if leb b'A' d && leb d b'F'
    then some (10 + (d - b'A'))
    else none

-- the byte that two digits stand for; behind the end of the text there is no digit
unfoldable pub hex_byte : Bytes → Option ℕ
unfolding hex_digit char_at
hex_byte s = elim (hex_digit (char_at s 0)) [
  | none ↦ none
  | some n₁ ↦ elim (hex_digit (char_at s 1)) [ none ↦ none | some n₂ ↦ some (n₁ * 16 + n₂) ]
]

-- str_urldecode_to, with the room that the output has. A `char` is signed, so that bytes from 128
-- on are below 32.
unfoldable pub str_urldecode_to : ℕ → Bytes → Option Bytes
unfolding hex_byte str_drop
str_urldecode_to zero s = some []
str_urldecode_to (suc room) [] = some []
str_urldecode_to (suc room) (c ∷ s) =
    if c == b'%'
    then elim (hex_byte s) [
      | none ↦ none
      | some b ↦ elim (str_urldecode_to room (str_drop s 2)) [
        | none ↦ none
        | some out ↦ some (b ∷ out)
      ]
    ]
    else if ltb c 32 || leb 128 c
    then none
    else elim (str_urldecode_to room s) [ none ↦ none | some out ↦ some (c ∷ out) ]

-- str_urldecode, in place: each byte is written where it or an earlier one was read
unfoldable pub str_urldecode : Bytes → Option Bytes
unfolding str_urldecode_to
str_urldecode s = str_urldecode_to (length s) s

-- Percent encoding: a digit, a byte, and a text.
unfoldable pub digit : ℕ → ℕ
digit n = if ltb n 10 then n + b'0' else n - 10 + b'A'

abbrev pub percent : ℕ → Bytes
percent c =
    if leb 32 c && ltb c 128 && not (c == b'%')
    then c ∷ []
    else b'%' ∷ digit (c / 16) ∷ digit (c % 16) ∷ []

abbrev pub urlencode : Bytes → Bytes
urlencode [] = []
urlencode (c ∷ s) = percent c ++ urlencode s

hex_digit-digit : (n : ℕ) → n < 16 → hex_digit (digit n) ≡ some n
unfolding hex_digit digit
hex_digit-digit n lt = ground arith

hex_byte-digit :
    (c : ℕ) (s : Bytes) → c < 2 ^ 8 → hex_byte (digit (c / 16) ∷ digit (c % 16) ∷ s) ≡ some c
unfolding hex_byte char_at
hex_byte-digit c s lt =
    let whole : c / 16 * 16 + c % 16 ≡ c = omega arith in
    rw
      (
        hex_digit-digit (c / 16) (omega arith),
        hex_byte,
        hex_digit-digit (c % 16) (omega arith),
        whole,
      )
      refl

drop_two : (a b : ℕ) (s : Bytes) → str_drop (a ∷ b ∷ s) 2 ≡ s
unfolding str_drop
drop_two a b s = ground arith

str_urldecode_to-urlencode :
    (room : ℕ) (s : Bytes)
    → All (λ c. c < 2 ^ 8) s
    → length s ≤ room
    → str_urldecode_to room (urlencode s) ≡ some s
unfolding str_urldecode_to
str_urldecode_to-urlencode zero [] h le = refl
str_urldecode_to-urlencode zero (c ∷ s) h le = absurd (omega arith)
str_urldecode_to-urlencode (suc room) [] h le = refl
str_urldecode_to-urlencode (suc room) (c ∷ s) (hc, h) le =
    let rest = str_urldecode_to-urlencode room s h (omega arith) in
    elim (Bool-cases (leb 32 c && ltb c 128 && not (c == b'%'))) [
      | inl e ↦
          let a : (c == b'%') ≡ false = ground arith in
          let b : (ltb c 32 || leb 128 c) ≡ false = ground arith in rw (e, a, b, rest) refl
      | inr e ↦
          rw
            (
              e,
              hex_byte-digit c (urlencode s) hc,
              drop_two (digit (c / 16)) (digit (c % 16)) (urlencode s),
              rest,
            )
            refl
    ]

length-urlencode : (s : Bytes) → length s ≤ length (urlencode s)
length-urlencode [] = omega arith
length-urlencode (c ∷ s) =
    ground (arith, length-urlencode s, length-append (percent c) (urlencode s))

-- What percent encoding makes of a text of bytes, control characters and bytes from 128 on
-- included, str_urldecode turns back into that text.
pub str_urldecode-urlencode :
    (s : Bytes) → All (λ c. c < 2 ^ 8) s → str_urldecode (urlencode s) ≡ some s
unfolding str_urldecode
str_urldecode-urlencode s h =
    str_urldecode_to-urlencode (length (urlencode s)) s h (length-urlencode s)
