-- ===== src/Pgwire/Session.antt =====
-- A connection of mugshot/pgwire.c and the replies that it waits for: handle_notice, read_error,
-- expect_msg, expect_ready, pg_ready and pg_clear.
pub mod Fields
pub mod Messages
pub mod Replies
pub mod Handled
pub mod Termination
use plmuggin.Base.{
  ℕ, zero, suc, ◌+◌, ◌-◌, ◌*◌, ◌^◌, Bool, true, false, not, ◌&&◌, ◌||◌, Option, none, some, List,
  [], ◌∷◌, ltb, leb, ◌==◌, if◌then◌else◌, Bytes, codes, length, take, drop, min,
}
use plmuggin.Pgwire.Read.{ntohl}
use plmuggin.Pgwire.{Conn, pg_ensure_buf, min_buffer_size}
use plmuggin.Render.{c_string}
use plmuggin.Result.{Result, ok, fail, out_of_bounds, uninitialised, out_of_fuel, ◌>>=◌}
use plmuggin.Str.{char_at, str_drop, str_startswith}

pub data PgErrorSeverity : Type 0 where
  err_none err_error err_fatal err_panic : PgErrorSeverity

pub record PgError : Type 0 where
  pub message : Bytes
  pub severity : PgErrorSeverity

-- PgConn, with its buffer in `conn`; the socket stands apart, as the bytes that are still to come from it
pub record PgConn : Type 0 where
  pub conn : Conn
  pub pid : ℕ
  pub secret_key : ℕ
  pub error : PgError
  pub close : Bool

abbrev pub err_size : ℕ
err_size = 256

-- What the operating system decides: whether realloc gets memory, how many bytes a `read` of so
-- many gives of those that are to come, which may be fewer than there are, and what `write` returns, with
-- `none` for -1.
pub record System : Type 0 where
  pub alloc : ℕ → Bool
  pub read_bytes : Bytes → ℕ → ℕ
  pub write_result : Bytes → Option ℕ

-- how many bytes `read` gives
abbrev pub read_count : System → Bytes → ℕ → ℕ
read_count sys socket bytes = min (sys.read_bytes socket bytes) (min bytes (length socket))

-- `read(…, bytes) != bytes` where the first is false; the bytes, and what is to come behind them
unfoldable pub read : System → ℕ → Bytes → Bool × Bytes × Bytes
read sys bytes socket =
    let n = read_count sys socket bytes in (n == bytes, take n socket, drop n socket)

-- the length of a C string, which has to end within the bytes: what stands behind them in the
-- buffer is left from earlier
unfoldable pub strlen : Bytes → Result ℕ
strlen [] = fail uninitialised
strlen (zero ∷ s) = ok 0
strlen (suc c ∷ s) = do n ← strlen s; ok (suc n)

-- the loop over the fields of a notice, which it prints; the fuel is the count of its bytes
unfoldable pub scan_notice : ℕ → Bytes → Result Bool
scan_notice fuel [] = fail uninitialised
scan_notice fuel (zero ∷ notice) = ok true
scan_notice zero (suc field ∷ notice) = fail out_of_fuel
scan_notice (suc fuel) (suc field ∷ notice) = do
  len ← strlen notice
  scan_notice fuel (drop (len + 1) notice)

-- The buffer and the socket behind it, with the flag of a function that returns one.
abbrev pub Replied : Type 0
Replied = Bool × PgConn × Bytes

-- The payload of a message, read to the room behind the text. `int size` counts the four bytes of
-- itself.
unfoldable pub read_rest : System → ℕ → PgConn → Bytes → Bool × Bytes × PgConn × Bytes
read_rest sys bytes c socket =
    let (room, conn) = pg_ensure_buf sys.alloc c.conn bytes in
    let (whole, payload, rest) = read sys bytes socket in
    if room
    then (whole, payload, record c { conn = conn }, rest)
    else (false, [], record c { conn = conn }, socket)

-- handle_notice; of a size below 4 or from 2 ^ 31 on, `read` would be asked for more bytes than it takes
unfoldable pub handle_notice : System → ℕ → PgConn → Bytes → Result Replied
handle_notice sys size c socket =
    if ltb size 4 || leb (2 ^ 31) size then fail out_of_bounds else (do
      let (whole, notice, c', rest) = read_rest sys (size - 4) c socket
      if whole
          then (do done ← scan_notice (length notice) notice; ok (true, c', rest))
          else ok (false, c', rest))

-- the switch over the first byte of an error field
unfoldable pub error_field : Bytes → PgError → PgError
error_field field e =
    if char_at field 0 == b'V'
    then (if str_startswith field (codes "VERROR")
        then record e { severity = err_error }
        else if str_startswith field (codes "VFATAL")
        then record e { severity = err_fatal }
        else if str_startswith field (codes "VPANIC")
        then record e { severity = err_panic }
        else e)
    else if char_at field 0 == b'M'
    then record e { message = take (err_size - 1) (c_string (drop 1 field)) }
    else e

-- the loop over the fields of an ErrorResponse, whose fuel is the count of its bytes
unfoldable pub error_fields : ℕ → Bytes → PgError → Result PgError
error_fields fuel [] e = ok e
error_fields zero (ch ∷ s) e = fail out_of_fuel
error_fields (suc fuel) (ch ∷ s) e = do
  len ← strlen (ch ∷ s)
  error_fields fuel (str_drop (ch ∷ s) (len + 1)) (error_field (ch ∷ s) e)

-- the fields of an ErrorResponse of so many bytes, which is not below 4, read into `c->error`
unfoldable pub read_fields : System → ℕ → PgConn → Bytes → Result Replied
read_fields sys size c socket =
    if leb size 4 || leb (2 ^ 31) size then ok (true, c, socket) else (do
      let (whole, payload, c', rest) = read_rest sys (size - 4) c socket
      if whole
          then (do
            e ← error_fields (length payload) payload c'.error
            ok (true, record c' { error = e }, rest))
          else ok (false, c', rest))

-- the rest of expect_msg, for a message that is no notice and no error
unfoldable pub take_message : System → ℕ → Option ℕ → ℕ → ℕ → PgConn → Bytes → Replied
take_message sys msg expected_size type size c socket =
    let (whole, payload, c', rest) = read_rest sys (size - 4) c socket in
    if not (msg == type)
    then (false, c, socket)
    else if elim expected_size [ none ↦ false | some n ↦ not (size == n) ]
    then (false, c, socket)
    else if leb size 4 || leb (2 ^ 31) size
    then (true, c, socket)
    else (whole, c', rest)

-- The messages that expect_msg looks at.
pub data Header : Type 0 where
  notice_header error_header other_header : Header

abbrev pub header_of : ℕ → Header
header_of type =
    if type == b'N' then notice_header else if type == b'E' then error_header else other_header

-- expect_msg behind the header of a message. `again` is expect_msg for what is still to come: the
-- jump to `start`, and the wait for ReadyForQuery in read_error, which stands in the case of its
-- header. What read_error returns is not looked at.
unfoldable pub on_message :
    (ℕ → Option ℕ → PgConn → Bytes → Result Replied)
    → System
    → ℕ
    → Option ℕ
    → ℕ
    → ℕ
    → PgConn
    → Bytes
    → Result Replied
on_message again sys msg expected_size type size c socket = elim (header_of type) [
  | notice_header ↦ do
    (handled, c', rest) ← handle_notice sys size c socket
    if handled then again msg expected_size c' rest else ok (false, c', rest)
  | error_header ↦ do
    (whole, c', rest) ← read_fields sys size c socket
    if whole
        then (do
          (ready, c'', rest') ← again b'Z' (some 5) c' rest
          ok (false, record c'' { close = not ready }, rest'))
        else ok (false, c', rest)
  | other_header ↦ ok (take_message sys msg expected_size type size c socket)
]

-- expect_msg, with `none` for an expected size of -1. Each round takes five bytes from the socket,
-- so that as much fuel as bytes to come is enough.
unfoldable pub expect_msg : ℕ → System → ℕ → Option ℕ → PgConn → Bytes → Result Replied
expect_msg zero sys msg expected_size c socket = fail out_of_fuel
expect_msg (suc fuel) sys msg expected_size c socket =
    let (whole, hdr, rest) = read sys 5 socket in
    let again = expect_msg fuel sys in
    if whole
    then on_message again sys msg expected_size (char_at hdr 0) (ntohl (drop 1 hdr)) c rest
    else ok (false, c, rest)

unfoldable pub expect_simple : ℕ → System → ℕ → PgConn → Bytes → Result Replied
expect_simple fuel sys msg c socket = expect_msg fuel sys msg (some 4) c socket

unfoldable pub expect_ready : ℕ → System → PgConn → Bytes → Result Replied
expect_ready fuel sys c socket = expect_msg fuel sys b'Z' (some 5) c socket

unfoldable pub pg_ready : ℕ → System → PgConn → Bytes → Result Replied
pg_ready fuel sys c socket = expect_ready fuel sys c socket

-- pg_clear of a connection whose socket is open. The realloc to a smaller size is taken to
-- succeed.
unfoldable pub pg_clear : PgConn → PgConn
pg_clear c = record c {
  conn = record {
    buf_size =
        if ltb (10 * min_buffer_size) c.conn.buf_size then min_buffer_size else c.conn.buf_size;
    text = [];
  };
  error = record { message = []; severity = err_none };
}
