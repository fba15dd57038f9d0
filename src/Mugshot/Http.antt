-- ===== src/Mugshot/Http.antt =====
-- HTTP connections of mugshot/mugshot.c: their data, the scans of the received bytes, and what is
-- sent. A header buffer is the list of the bytes that are still to be read; a line that was taken
-- from it is a C string, which ends at its first NUL byte.
pub mod Line
pub mod Reader
pub mod Headers
pub mod Target
pub mod Pieces
pub mod Request
pub mod Reach
pub mod Outcome
pub mod Refusal
use plmuggin.Base.{
  ℕ, ◌+◌, Bool, true, false, ◌&&◌, Option, none, some, List, [], ◌∷◌, ◌++◌, ltb, leb, ◌==◌,
  if◌then◌else◌, Bytes, codes,
}
use plmuggin.Strbuf.{decimal_from}

-- mugshot_http_method
pub data Method : Type 0 where
  get head post put delete options patch : Method

-- mugshot_http_content_type
pub data HttpContentType : Type 0 where
  text_html text_css application_json text_plain application_octet_stream : HttpContentType
  application_form_urlencoded : HttpContentType

-- mugshot_conn_state
pub data ConnState : Type 0 where
  req_start req_headers req_body req_done : ConnState
  res_status res_body_started res_done : ConnState
  ws_handshake ws_idle ws_read ws_write ws_closed : ConnState
  err : ConnState

-- What realloc does for a block: it gives no memory, it leaves the block where it is, or it moves
-- the block and frees the memory that it had.
pub data Realloc : Type 0 where
  no_memory in_place moved : Realloc

-- mugshot_conn, less the buffer; `headers_size` is the length of `headers`, `behind` the memory
-- behind the received header, and `sent` what was written to the socket. `path`, `query_parameters`
-- and `headers` point into the buffer; `dangling` says that the buffer has moved since they were
-- set.
pub record HttpConn : Type 0 where
  pub method : Method
  pub path : Bytes
  pub query_parameters : Bytes
  pub headers : List (Bytes × Bytes)
  pub content_length : ℕ
  pub body_start : ℕ
  pub body_type : HttpContentType
  pub state : ConnState
  pub buf_capacity : ℕ
  pub behind : Bytes
  pub dangling : Bool
  pub sent : Bytes

-- a line as the C string that it becomes
unfoldable pub as_c_string : Bytes → Bytes
as_c_string [] = []
as_c_string (c ∷ s) = let rest = as_c_string s in if c == 0 then [] else c ∷ rest

-- _mugshot_http_getch, with `none` for -1, on the bytes from read_pos to buf_len
unfoldable pub http_getch : Bytes → Option (ℕ × Bytes)
http_getch [] = none
http_getch (c ∷ s) = some (c, s)

-- a byte in front of a slice that was read
unfoldable pub behind_byte : ℕ → Option (Bytes × Bytes) → Option (Bytes × Bytes)
behind_byte c none = none
behind_byte c (some (slice, rest)) = some (c ∷ slice, rest)

-- _mugshot_http_read_until: the slice and the bytes behind `endch`
unfoldable pub http_read_until : ℕ → Bytes → Option (Bytes × Bytes)
unfolding behind_byte
http_read_until endch [] = none
http_read_until endch (c ∷ s) =
    let later = http_read_until endch s in if c == endch then some ([], s) else behind_byte c later

-- _mugshot_http_read_line: the line and the bytes behind its end
unfoldable pub http_read_line : Bytes → Option (Bytes × Bytes)
unfolding behind_byte
http_read_line [] = none
http_read_line (c ∷ []) = none
http_read_line (c ∷ d ∷ s) =
    let later = http_read_line (d ∷ s) in
    if c == b'\r' && d == b'\n' then some ([], s) else behind_byte c later

-- out_constant and out_str
abbrev pub out : HttpConn → Bytes → HttpConn
out r s = record r { sent = r.sent ++ s }

-- `\r\n`
abbrev pub crlf : Bytes
crlf = b'\r' ∷ b'\n' ∷ []

-- _mugshot_http_fail, for a message that its buffer has room for
unfoldable pub http_fail : HttpConn → ℕ → Bytes → HttpConn
unfolding decimal_from
http_fail r status msg =
    out (record r { state = err })
      (codes "HTTP/1.1 "
        ++ (decimal_from 20 status []
            ++ (b' ' ∷ (msg ++ (crlf ++ (codes "Connection: close" ++ (crlf ++ crlf)))))))

-- mugshot_http_ok
unfoldable pub http_ok : HttpConn → HttpConn
http_ok r = out r (codes "HTTP/1.1 200 OK" ++ crlf)

-- mugshot_http_header
unfoldable pub http_header : HttpConn → Bytes → Bytes → HttpConn
http_header r header value = out (out (out (out r header) (codes ": ")) value) crlf

-- mugshot_http_header_sz
unfoldable pub http_header_sz : HttpConn → Bytes → ℕ → HttpConn
unfolding decimal_from
http_header_sz r header value =
    out (out (out (out r header) (codes ": ")) (decimal_from 20 value [])) crlf

-- mugshot_http_body
unfoldable pub http_body : HttpConn → Bytes → HttpConn
http_body r body = out (out r crlf) body
