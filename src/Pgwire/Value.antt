-- ===== src/Pgwire/Value.antt =====
-- Reading the fields of a row: pg_value of mugshot/pgwire.c, with get_i16 and get_i32 of
-- mugshot/pgwire.h. `text` is the buffer of the connection before buf_pos.
use plmuggin.Base.{
  ℕ, zero, suc, ◌+◌, ◌-◌, ◌*◌, ◌%◌, ◌^◌, Bool, true, false, ◌||◌, Option, none, some, ltb, leb,
  ◌==◌, if◌then◌else◌, Bytes,
}
use plmuggin.Pool.{at}
use plmuggin.Result.{Result, ok, ◌>>=◌}

-- PgVal, where it is a success
pub record PgVal : Type 0 where
  pub is_null : Bool
  pub len : ℕ
  pub buf_pos : ℕ

-- ntohs of the bytes at `pos`
unfoldable pub get_i16 : Bytes → ℕ → Result ℕ
unfolding at
get_i16 text pos = do b₁ ← at text pos; b₀ ← at text (pos + 1); ok (b₁ * 2 ^ 8 + b₀)

-- ntohl of the bytes at `pos`
unfoldable pub get_i32 : Bytes → ℕ → Result ℕ
unfolding get_i16
get_i32 text pos = do
  high ← get_i16 text pos
  low ← get_i16 text (pos + 2)
  ok (high * 2 ^ 16 + low)

-- an `int` widened to size_t
abbrev pub to_size : ℕ → ℕ
to_size n = if ltb n (2 ^ 31) then n else 2 ^ 64 - 2 ^ 32 + n

-- one round of the loop: the value at `pos`, and the position behind it
unfoldable pub read_value : Bytes → ℕ → Result (PgVal × ℕ)
unfolding get_i32
read_value text pos = do
  len ← get_i32 text pos
  if len == 2 ^ 32 - 1
      then ok (record { is_null = true; len = 0; buf_pos = 0 }, pos + 4)
      else ok (
        record { is_null = false; len = to_size len; buf_pos = pos + 4 },
        (pos + 4 + to_size len) % 2 ^ 64,
      )

-- the loop, with as many rounds behind the first as `more` says
unfoldable pub read_values : ℕ → Bytes → ℕ → Result PgVal
unfolding read_value
read_values zero text pos = do r ← read_value text pos; ok (r.0)
read_values (suc more) text pos = do r ← read_value text pos; read_values more text (r.1)

-- pg_value, for a field number that is not negative; `none` is a row_start of -1, and the result
-- with success false. The count of the fields is a `short`.
unfoldable pub pg_value : Bytes → Option ℕ → ℕ → Result (Option PgVal)
unfolding get_i16 read_values
pg_value text none field = ok none
pg_value text (some pos) field = do
  fields ← get_i16 text pos
  if leb (2 ^ 15) fields || leb fields field
      then ok none
      else do v ← read_values field text (pos + 2); ok (some v)
