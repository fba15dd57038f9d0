-- ===== src/Str.antt =====
-- The string slices of str.h. A `str` is the list of its bytes: its length is the length of the
-- list. `char` is the signed char of x86-64, so that a byte from 128 up is negative.
pub mod Url
pub mod Split
pub mod Equality
pub mod Trim
use plmuggin.Base.{
  ℕ, zero, suc, ◌+◌, ◌-◌, ◌*◌, ◌%◌, ◌^◌, Bool, true, false, ◌&&◌, ◌||◌, Option, none, some, List,
  [], ◌∷◌, ◌++◌, ltb, leb, ◌==◌, if◌then◌else◌, Bytes, length, take, drop, get_elem?,
}

-- str_char_at: the NUL byte out of range
unfoldable pub char_at : Bytes → ℕ → ℕ
char_at [] i = 0
char_at (c ∷ s) zero = c
char_at (c ∷ s) (suc i) = char_at s i

-- str_drop: the slice behind the first `n` bytes, the empty slice if there are fewer
unfoldable pub str_drop : Bytes → ℕ → Bytes
str_drop s n = if ltb (length s) n then [] else drop n s

-- str_take: the first `n` bytes, or all
unfoldable pub str_take : Bytes → ℕ → Bytes
str_take s n = if ltb (length s) n then s else take n s

-- `strncmp(a, b, n) == 0`: bytes behind a NUL byte are not compared; `n` is not above either length
unfoldable pub strncmp_eq : ℕ → Bytes → Bytes → Bool
strncmp_eq zero a b = true
strncmp_eq (suc n) (x ∷ a) (y ∷ b) = x == y && (x == 0 || strncmp_eq n a b)
strncmp_eq (suc n) _ _ = false

unfoldable pub str_eq : Bytes → Bytes → Bool
unfolding strncmp_eq
str_eq a b = if length a == length b then strncmp_eq (length a) a b else false

unfoldable pub str_startswith : Bytes → Bytes → Bool
unfolding strncmp_eq
str_startswith haystack needle =
    if ltb (length haystack) (length needle)
    then false
    else strncmp_eq (length needle) haystack needle

-- str_indexof, with `none` for -1; `n` is the position reached
index_from : ℕ → Bytes → ℕ → Option ℕ
index_from n [] ch = none
index_from n (c ∷ s) ch = if c == ch then some n else index_from (n + 1) s ch

unfoldable pub str_indexof : Bytes → ℕ → Option ℕ
unfolding index_from
str_indexof s ch = index_from 0 s ch

-- the inner loop of str_splitat
abbrev pub any_of : Bytes → ℕ → Bool
any_of [] c = false
any_of (x ∷ chars) c = c == x || any_of chars c

-- the outer loop: the bytes before the place `at`, and those from it on
split_from : Bytes → Bytes → Bytes → Bytes × Bytes
split_from chars before [] = (before, [])
split_from chars before (c ∷ s) =
    let later = split_from chars (before ++ c ∷ []) s in
    if any_of chars c then (before, s) else later

-- str_splitat: *split and *rest, or `none` for false
unfoldable pub str_splitat : Bytes → Bytes → Option (Bytes × Bytes)
unfolding split_from
str_splitat [] chars = none
str_splitat (c ∷ s) chars = some (split_from chars [] (c ∷ s))

-- str_each_line: *line and the remaining *lines. The branch behind the call of str_splitat is
-- reached only with no lines, where the function has returned.
unfoldable pub str_each_line : Bytes → Option (Bytes × Bytes)
unfolding str_splitat
str_each_line [] = none
str_each_line (c ∷ s) = str_splitat (c ∷ s) (b'\n' ∷ [])

unfoldable pub is_space : ℕ → Bool
is_space ch = ch == b' ' || ch == b'\t' || ch == b'\n'

unfoldable pub str_ltrim : Bytes → Bytes
unfolding is_space
str_ltrim [] = []
str_ltrim (c ∷ s) = let shorter = str_ltrim s in if is_space c then shorter else c ∷ s

-- the length that the loop of str_rtrim leaves
rtrim_length : ℕ → Bytes → ℕ
unfolding is_space char_at
rtrim_length zero s = 0
rtrim_length (suc n) s =
    let shorter = rtrim_length n s in if is_space (char_at s n) then shorter else suc n

unfoldable pub str_rtrim : Bytes → Bytes
unfolding rtrim_length
str_rtrim s = take (rtrim_length (length s) s) s

unfoldable pub str_trim : Bytes → Bytes
unfolding str_ltrim str_rtrim
str_trim s = str_ltrim (str_rtrim s)

abbrev pub is_digit : ℕ → Bool
is_digit c = leb b'0' c && leb c b'9'

-- str_to_long; the accumulator wraps at 64 bits (in C an overflow of `long` is undefined)
to_long_from : ℕ → Bytes → Option ℕ
to_long_from l [] = some l
to_long_from l (c ∷ s) =
    let rest = to_long_from ((l * 10 + (c - 48)) % 2 ^ 64) s in if is_digit c then rest else none

unfoldable pub str_to_long : Bytes → Option ℕ
unfolding to_long_from
str_to_long [] = none
str_to_long (c ∷ s) = to_long_from 0 (c ∷ s)

-- a signed char widened to uint64_t
abbrev pub sign_extend : ℕ → ℕ
sign_extend c = if ltb c 128 then c else 2 ^ 64 - 256 + c

hash_from : ℕ → Bytes → ℕ
hash_from hash [] = hash
hash_from hash (c ∷ s) = hash_from (((hash * 2 ^ 5) % 2 ^ 64 + hash + sign_extend c) % 2 ^ 64) s

-- str_hash, djb2
unfoldable pub str_hash : Bytes → ℕ
unfolding hash_from
str_hash s = hash_from 5381 s
