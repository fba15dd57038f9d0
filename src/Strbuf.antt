-- ===== src/Strbuf.antt =====
-- The growing string buffer of str.h. `alloc n` says whether REALLOC gets `n` bytes: palloc always
-- does (it raises an error where it cannot), malloc may not.
pub mod Append
pub mod Escape
pub mod Palloc
use plmuggin.Base.{
  ℕ, zero, suc, ◌+◌, ◌-◌, ◌*◌, ◌/◌, ◌%◌, Bool, true, false, Option, none, some, [], ◌∷◌, ◌++◌, ltb,
  leb, ◌==◌, if◌then◌else◌, Bytes, codes, length,
}
use plmuggin.Result.{Result, ok, fail, out_of_bounds, ◌>>=◌}

-- `strbuf`: the length of its `str` is that of `text`
pub record Strbuf : Type 0 where
  pub capacity : ℕ
  pub text : Bytes

-- `c * 1.618` in double arithmetic, cut to an integer; the two agree for every c below 2 ^ 32
abbrev pub golden : ℕ → ℕ
golden c = c * 1618 / 1000

abbrev pub strbuf_initial_size : ℕ
strbuf_initial_size = 256

-- the size of the struct on x86-64
abbrev sizeof_strbuf : ℕ
sizeof_strbuf = 24

unfoldable pub strbuf_new : (ℕ → Bool) → Option Strbuf
strbuf_new alloc =
    if alloc sizeof_strbuf
    then (if alloc strbuf_initial_size
        then some (record { capacity = strbuf_initial_size; text = [] })
        else none)
    else none

-- false where the memory is refused; the buffer is then as it was
unfoldable pub strbuf_ensure : (ℕ → Bool) → Strbuf → ℕ → Bool × Strbuf
strbuf_ensure alloc buf space_needed =
    let min_capacity = length buf.text + space_needed in
    let grown = golden buf.capacity in
    let new_capacity = if ltb grown min_capacity then min_capacity else grown in
    if ltb buf.capacity min_capacity
    then (if alloc new_capacity
        then (true, record buf { capacity = new_capacity })
        else (false, buf))
    else (true, buf)

-- memcpy to the end of the text, which writes out of bounds where the capacity is exceeded
unfoldable pub write : Strbuf → Bytes → Result Strbuf
write buf bytes =
    if leb (length buf.text + length bytes) buf.capacity
    then ok (record buf { text = buf.text ++ bytes })
    else fail out_of_bounds

pub append : Bytes → Bool × Strbuf → Result (Bool × Strbuf)
unfolding write
append bytes (true, buf) = do buf' ← write buf bytes; ok (true, buf')
append bytes (false, buf) = ok (false, buf)

unfoldable pub strbuf_append_str : (ℕ → Bool) → Strbuf → Bytes → Result (Bool × Strbuf)
unfolding append strbuf_ensure
strbuf_append_str alloc buf bytes = append bytes (strbuf_ensure alloc buf (length bytes))

unfoldable pub strbuf_append_char : (ℕ → Bool) → Strbuf → ℕ → Result (Bool × Strbuf)
unfolding append strbuf_ensure
strbuf_append_char alloc buf ch = append (ch ∷ []) (strbuf_ensure alloc buf 1)

-- the switch of strbuf_append_str_escaped: what is written for one byte
unfoldable pub entity : ℕ → Bytes
entity c =
    if c == b'&'
    then codes "&amp;"
    else if c == b'<'
    then codes "&lt;"
    else if c == b'>'
    then codes "&gt;"
    else if c == b'"'
    then codes "&quot;"
    else if c == b'\''
    then codes "&#39;"
    else c ∷ []

-- one round of the loop, with the room made for the longest entity. On a valid buffer, where
-- the text is no longer than the capacity, `-` is the subtraction of C.
unfoldable pub escape_byte : (ℕ → Bool) → Strbuf → ℕ → Result (Bool × Strbuf)
unfolding append strbuf_ensure
escape_byte alloc buf c =
    append (entity c)
      (if ltb (buf.capacity - length buf.text) 6 then strbuf_ensure alloc buf 16 else (true, buf))

unfoldable pub escape_rest : (ℕ → Bool) → Bytes → Strbuf → Result (Bool × Strbuf)
unfolding escape_byte
escape_rest alloc [] buf = ok (true, buf)
escape_rest alloc (c ∷ s) buf = do
  (more, buf') ← escape_byte alloc buf c
  let rest = escape_rest alloc s buf'
  if more then rest else ok (false, buf')

-- the result of the first strbuf_ensure is not looked at
unfoldable pub strbuf_append_str_escaped : (ℕ → Bool) → Strbuf → Bytes → Result (Bool × Strbuf)
unfolding escape_rest strbuf_ensure
strbuf_append_str_escaped alloc buf bytes =
    escape_rest alloc bytes (strbuf_ensure alloc buf (length bytes)).1

-- the decimal digits of `i`, for at most `fuel` digits, in front of `s`
unfoldable pub decimal_from : ℕ → ℕ → Bytes → Bytes
decimal_from zero i s = s
decimal_from (suc fuel) i s =
    let more = decimal_from fuel (i / 10) ((i % 10 + b'0') ∷ s) in
    if ltb i 10 then (i + b'0') ∷ s else more

-- strbuf_append_int for an `int` that is not negative, below 2 ^ 31, which has 10 digits at most
unfoldable pub strbuf_append_int : (ℕ → Bool) → Strbuf → ℕ → Result (Bool × Strbuf)
unfolding append strbuf_ensure decimal_from
strbuf_append_int alloc buf i = append (decimal_from 10 i []) (strbuf_ensure alloc buf 12)
