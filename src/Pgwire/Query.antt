-- ===== src/Pgwire/Query.antt =====
-- Queries and their results: pg_send, pg_sync, pg_read_result, pg_query, pg_field and the readers of
-- values of mugshot/pgwire.c.
pub mod Rows
use plmuggin.Base.{
  ℕ, zero, suc, ◌+◌, ◌*◌, ◌^◌, Bool, true, false, ◌||◌, Option, none, some, List, [], ◌∷◌, ◌-◌, ltb,
  leb, ◌==◌, if◌then◌else◌, Bytes, codes, drop, take,
}
use plmuggin.Pgwire.Read.{PgMessage, read_msg}
use plmuggin.Pgwire.Session.{PgConn, System, Replied, strlen, expect_msg, expect_simple}
use plmuggin.Pgwire.Value.{PgVal, get_i16, get_i32}
use plmuggin.Pgwire.{Conn, put_sync, pg_put_query}
use plmuggin.Render.{c_string}
use plmuggin.Result.{Result, ok, ◌>>=◌}
use plmuggin.Strbuf.{decimal_from}

-- PgResult, with `none` for a row_start of -1; the `short` of its fields as 16 bits
pub record PgResult : Type 0 where
  pub success : Bool
  pub row_description_start : ℕ
  pub fields : ℕ
  pub row_start : Option ℕ

-- the result of `goto fail`, which empties the buffer
abbrev pub failed_result : PgConn → Bytes → PgResult × PgConn × Bytes
failed_result c socket = (
  record { success = false; row_description_start = 0; fields = 0; row_start = some 0 },
  record c { conn = record c.conn { text = [] } },
  socket,
)

-- what pg_send does with the result of `write`: 0 is a failure, and neither -1 nor a part of the text is
unfoldable pub after_write : Option ℕ → PgConn → Bool × PgConn
after_write (some zero) c = (false, c)
after_write _ c = (true, record c { conn = record c.conn { text = [] } })

unfoldable pub pg_send : System → PgConn → Bool × PgConn
pg_send sys c = after_write (sys.write_result c.conn.text) c

-- pg_sync, with what it hands to `write`
unfoldable pub pg_sync : System → PgConn → Result (Bool × PgConn × Bytes)
pg_sync sys c = do
  (put, conn) ← put_sync sys.alloc c.conn
  let (flag, c') = pg_send sys (record c { conn = conn })
  ok (if put then (flag, c', conn.text) else (false, record c { conn = conn }, []))

-- the row description that read_msg has read
unfoldable pub describe : PgMessage → PgConn → Bytes → Result (PgResult × PgConn × Bytes)
describe m c socket = do
  fields ← get_i16 c.conn.text m.payload
  ok (
    record { success = true; row_description_start = m.payload; fields = fields; row_start = none },
    c,
    socket,
  )

-- the part of pg_read_result behind BindComplete; what read_msg has taken where it fails is not
-- kept, as in pg_next_row
unfoldable pub read_description : ℕ → System → PgConn → Bytes → Result (PgResult × PgConn × Bytes)
read_description fuel sys c socket = elim (read_msg sys.alloc c.conn socket) [
  | none ↦ ok (failed_result c socket)
  | some (m, conn, rest) ↦
      let c' : PgConn = record c { conn = conn } in
      if m.type == b'n'
      then (do
        (complete, c'', rest') ← expect_msg fuel sys b'C' none c' rest
        if complete
            then ok (
              record { success = true; row_description_start = 0; fields = 0; row_start = some 0 },
              c'',
              rest',
            )
            else ok (failed_result c'' rest'))
      else if m.type == b'T'
      then (if ltb m.len 2 then ok (failed_result c' rest) else describe m c' rest)
      else ok (failed_result c' rest)
]

unfoldable pub pg_read_result : ℕ → System → PgConn → Bytes → Result (PgResult × PgConn × Bytes)
pg_read_result fuel sys c socket = do
  (parsed, c₁, rest₁) ← expect_simple fuel sys b'1' c socket
  if parsed
      then (do
        (bound, c₂, rest₂) ← expect_simple fuel sys b'2' c₁ rest₁
        if bound then read_description fuel sys c₂ rest₂ else ok (failed_result c₂ rest₂))
      else ok (failed_result c₁ rest₁)

abbrev pub handing : Bytes → PgResult × PgConn × Bytes → Bytes × PgResult × PgConn × Bytes
handing text (res, c, socket) = (text, res, c, socket)

-- pg_query, with what it hands to `write`
unfoldable pub pg_query :
    ℕ
    → System
    → Bytes
    → List ℕ
    → List Bytes
    → PgConn
    → Bytes
    → Result (Bytes × PgResult × PgConn × Bytes)
pg_query fuel sys sql param_oids param_data c socket = do
  (put, conn) ← pg_put_query sys.alloc sql param_oids param_data c.conn
  if put
      then (do
        (synced, conn') ← put_sync sys.alloc conn
        let (flag, c') = pg_send sys (record c { conn = conn' })
        if synced
            then (if flag
                then (do r ← pg_read_result fuel sys c' socket; ok (handing conn'.text r))
                else ok (handing conn'.text (failed_result c' socket)))
            else ok (handing [] (failed_result (record c { conn = conn' }) socket)))
      else ok (handing [] (failed_result (record c { conn = conn }) socket))

-- one round of the loop of pg_field: the type and the name of the field at `pos`, and the position
-- behind it
unfoldable pub read_field : Bytes → ℕ → Result ((ℕ × Bytes) × ℕ)
read_field text pos = do
  len ← strlen (drop pos text)
  let at_tbl = pos + len + 1
  oid ← get_i32 text (at_tbl + 6)
  fmt ← get_i16 text (at_tbl + 16)
  ok ((oid, take len (drop pos text)), at_tbl + 18)

unfoldable pub read_field_number : ℕ → Bytes → ℕ → Result (ℕ × Bytes)
read_field_number zero text pos = do r ← read_field text pos; ok (r.0)
read_field_number (suc more) text pos = do
  r ← read_field text pos
  read_field_number more text (r.1)

-- pg_field, for a field number that is not negative, with `none` where it returns false. It reads from position 2 on, whatever
-- row_description_start is.
unfoldable pub pg_field : PgConn → PgResult → ℕ → Result (Option (ℕ × Bytes))
pg_field c res field_num =
    if leb (2 ^ 15) res.fields || leb res.fields field_num
    then ok none
    else (do r ← read_field_number field_num c.conn.text 2; ok (some r))

-- pg_value_str: the empty string for NULL
unfoldable pub pg_value_str : Bytes → PgVal → Bytes
pg_value_str buf v = if v.is_null then [] else take v.len (drop v.buf_pos buf)

-- PgArray, with the position of its data
pub record PgArray : Type 0 where
  pub ndim : ℕ
  pub has_null : ℕ
  pub element_type : ℕ
  pub dim_size : ℕ
  pub lower_bound : ℕ
  pub array_data : ℕ

unfoldable pub pg_value_arr : Bytes → PgVal → Result PgArray
pg_value_arr buf v = do
  ndim ← get_i32 buf v.buf_pos
  has_null ← get_i32 buf (v.buf_pos + 4)
  element_type ← get_i32 buf (v.buf_pos + 8)
  dim_size ← get_i32 buf (v.buf_pos + 12)
  lower_bound ← get_i32 buf (v.buf_pos + 16)
  ok (record {
    ndim = ndim;
    has_null = has_null;
    element_type = element_type;
    dim_size = dim_size;
    lower_bound = lower_bound;
    array_data = v.buf_pos + 20;
  })

abbrev pub oid_bool : ℕ
oid_bool = 16

abbrev pub oid_int8 : ℕ
oid_int8 = 20

abbrev pub oid_int2 : ℕ
oid_int2 = 21

abbrev pub oid_int4 : ℕ
oid_int4 = 23

abbrev pub oid_text : ℕ
oid_text = 25

abbrev pub oid_oid : ℕ
oid_oid = 26

-- pg_oid_name of an `int`, given by its 32 bits; a number of at most 11 characters fits its buffer
unfoldable pub pg_oid_name : ℕ → Bytes
pg_oid_name oid =
    if oid == oid_text
    then codes "text"
    else if oid == oid_bool
    then codes "bool"
    else if oid == oid_int2
    then codes "int2"
    else if oid == oid_int4
    then codes "int4"
    else if oid == oid_int8
    then codes "int8"
    else if oid == oid_oid
    then codes "oid"
    else if ltb oid (2 ^ 31)
    then decimal_from 10 oid []
    else b'-' ∷ decimal_from 10 (2 ^ 32 - oid) []
