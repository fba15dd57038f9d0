-- ===== src/Mugshot/Worker/Serve.antt =====
-- mugshot_serve_pg of mugshot/mugshot.c: the queries for a request, what the database answers, and the
-- answer to the client.
pub mod Response
pub mod Answer
pub mod Refusal
use plmuggin.Base.{
  ℕ, ◌+◌, Bool, true, false, not, ◌&&◌, ◌||◌, Option, none, some, List, [], ◌∷◌, ◌++◌, ltb, leb,
  ◌==◌, if◌then◌else◌, Bytes, codes, take, map,
}
use plmuggin.Mugshot.Endpoint.{value_or_zero}
use plmuggin.Mugshot.Http.{
  HttpContentType, text_html, text_css, application_json, text_plain, application_octet_stream,
  application_form_urlencoded, HttpConn, out, crlf, http_fail, http_header, http_header_sz,
  http_body,
}
use plmuggin.Mugshot.Worker.Sql.{serve_sql}
use plmuggin.Mugshot.Worker.{EndpointArg, Endpoint}
use plmuggin.Pgwire.NextRow.{pg_next_row}
use plmuggin.Pgwire.Query.{PgResult, pg_sync, pg_read_result, pg_value_str}
use plmuggin.Pgwire.Session.{PgConn, PgErrorSeverity, err_none, System, pg_ready, pg_clear}
use plmuggin.Pgwire.Value.{PgVal, pg_value}
use plmuggin.Pgwire.{Put, ◌>>>◌, pg_put_query}
use plmuggin.Result.{Result, ok, fail, out_of_bounds, ◌>>=◌}
use plmuggin.Str.{str_eq, strncmp_eq}

-- mugshot_http_content_type_str, which has no entry for the type of forms
unfoldable pub content_type_str : HttpContentType → Result Bytes
content_type_str text_html = ok (codes "text/html")
content_type_str text_css = ok (codes "text/css")
content_type_str application_json = ok (codes "application/json")
content_type_str text_plain = ok (codes "text/plain")
content_type_str application_octet_stream = ok (codes "application/octet-stream")
content_type_str application_form_urlencoded = fail out_of_bounds

-- the tests of mugshot_http_status
unfoldable pub reason_phrase : Bytes → Bytes
reason_phrase status =
    if str_eq status (codes "200")
    then codes " OK"
    else if str_eq status (codes "204")
    then codes " No Content"
    else if str_eq status (codes "404")
    then codes " Not Found"
    else if str_eq status (codes "403")
    then codes " Forbidden"
    else if str_eq status (codes "400")
    then codes " Bad Request"
    else if str_eq status (codes "409")
    then codes " Conflict"
    else codes " Done"

-- mugshot_http_status, of the text of the setting
unfoldable pub http_status : HttpConn → Bytes → HttpConn
http_status r status = out (out (out r (codes "HTTP/1.1 ")) status) (reason_phrase status ++ crlf)

abbrev pub set_status_sql : Bytes
set_status_sql = codes "SET mugshot.http_status TO '200'"

abbrev pub get_status_sql : Bytes
get_status_sql = codes "SELECT current_setting('mugshot.http_status')"

-- the three queries of a request
unfoldable pub put_queries : (ℕ → Bool) → Bytes → List ℕ → List Bytes → Put
put_queries alloc sql argtypes argvals =
    pg_put_query alloc set_status_sql [] []
    >>> (pg_put_query alloc sql argtypes argvals >>> pg_put_query alloc get_status_sql [] [])

-- A state of the exchange, with what a step gives; `none` is the way to `fail`.
abbrev pub Exchanged : Type 0 → Type 0
Exchanged A = Option A × PgConn × Bytes

-- pg_next_row, on the buffer of the connection
unfoldable pub next_row :
    ℕ → System → PgConn → Bytes → Result (Bool × Bool × Option ℕ × PgConn × Bytes)
next_row fuel sys c socket = do
  (row, conn, rest) ← pg_next_row fuel sys.alloc c.conn socket
  ok (row.success, row.has_row, row.row_start, record c { conn = conn }, rest)

-- The result of the function: one row, of which the first value is the response.
unfoldable pub read_response : ℕ → System → PgConn → Bytes → Result (Exchanged PgVal)
read_response fuel sys c socket = do
  (res, c₁, rest₁) ← pg_read_result fuel sys c socket
  if not res.success then ok (none, c₁, rest₁) else (do
    (success, has_row, start, c₂, rest₂) ← next_row fuel sys c₁ rest₁
    if not has_row then ok (none, c₂, rest₂) else (do
      response ← pg_value c₂.conn.text start 0
      (success', has_row', start', c₃, rest₃) ← next_row fuel sys c₂ rest₂
      if not success' || has_row'
          then ok (none, c₃, rest₃)
          else ok (some (value_or_zero response), c₃, rest₃)))

-- The result of the query for the status, of which only another row is refused.
unfoldable pub read_status : ℕ → System → PgConn → Bytes → Result (Exchanged PgVal)
read_status fuel sys c socket = do
  (res, c₁, rest₁) ← pg_read_result fuel sys c socket
  if not res.success then ok (none, c₁, rest₁) else (do
    (success, has_row, start, c₂, rest₂) ← next_row fuel sys c₁ rest₁
    if not has_row then ok (none, c₂, rest₂) else (do
      status ← pg_value c₂.conn.text start 0
      (success', has_row', start', c₃, rest₃) ← next_row fuel sys c₂ rest₂
      if has_row' then ok (none, c₃, rest₃) else ok (some (value_or_zero status), c₃, rest₃)))

-- The results of the three queries.
unfoldable pub read_results : ℕ → System → PgConn → Bytes → Result (Exchanged (PgVal × PgVal))
read_results fuel sys c socket = do
  (res, c₁, rest₁) ← pg_read_result fuel sys c socket
  if not res.success then ok (none, c₁, rest₁) else (do
    (response, c₂, rest₂) ← read_response fuel sys c₁ rest₁
    elim response [
      | none ↦ ok (none, c₂, rest₂)
      | some value ↦ do
        (status, c₃, rest₃) ← read_status fuel sys c₂ rest₂
        elim status [ none ↦ ok (none, c₃, rest₃) | some code ↦ ok (some (value, code), c₃, rest₃) ]
    ])

-- The answer from the two values, where they stand in the buffer.
unfoldable pub respond : Endpoint → HttpConn → Bytes → PgVal → PgVal → Result HttpConn
respond e client buf response status = do
  type ← content_type_str e.content_type
  let started = http_status client (pg_value_str buf status)
  let typed = http_header started (codes "Content-Type") type
  let measured = http_header_sz typed (codes "Content-Length") response.len
  let closing = http_header measured (codes "Connection") (codes "close")
  ok (http_body closing (pg_value_str buf response))

abbrev pub is_none : PgErrorSeverity → Bool
is_none err_none = true
is_none _ = false

-- the message of `fail`, with its last signs in UTF-8
abbrev pub internal_error : Bytes
internal_error =
    codes "Internal server error "
    ++ (0xc2 ∷ 0xaf ∷ 0x5c ∷ 0x5f ∷ 0x28 ∷ 0xe3 ∷ 0x83 ∷ 0x84 ∷ 0x29 ∷ 0x5f ∷ 0x2f ∷ 0xc2 ∷ 0xaf
        ∷ [])

-- the code at `fail`: 400 where the database could not parse a value, otherwise 501
unfoldable pub serve_fail : HttpConn → PgConn → HttpConn × PgConn
serve_fail client c = (
  if not (is_none c.error.severity)
        && strncmp_eq 20 (c.error.message ++ 0 ∷ []) (codes "invalid input syntax")
      then http_fail client 400 (codes "Bad request")
      else http_fail client 501 internal_error,
  pg_clear c,
)

-- What a request leaves: the client, the connection, what was handed to `write`, and the rest on the socket.
pub record Served : Type 0 where
  pub client : HttpConn
  pub connection : PgConn
  pub written : Bytes
  pub left : Bytes

abbrev pub served : Bytes → Bytes → HttpConn × PgConn → Served
served written left (client, c) = record {
  client = client;
  connection = c;
  written = written;
  left = left;
}

-- the part behind the answer. Where ReadyForQuery does not come, pg_close frees the connection, and
-- pg_clear reads it then.
unfoldable pub finish : ℕ → System → HttpConn → PgConn → Bytes → Bytes → Result Served
finish fuel sys client c written socket = do
  (ready, c', rest) ← pg_ready fuel sys c socket
  if ready then ok (served written rest (client, pg_clear c')) else fail out_of_bounds

-- the part behind pg_sync
unfoldable pub exchange : ℕ → System → Endpoint → HttpConn → PgConn → Bytes → Bytes → Result Served
exchange fuel sys e client c written socket = do
  (values, c', rest) ← read_results fuel sys c socket
  elim values [
    | none ↦ ok (served written rest (serve_fail client c'))
    | some (response, status) ↦ do
      answered ← respond e client c'.conn.text response status
      finish fuel sys answered c' written rest
  ]

unfoldable pub mugshot_serve_pg :
    ℕ → System → Endpoint → HttpConn → PgConn → List Bytes → Bytes → Result Served
mugshot_serve_pg fuel sys e client c argvals socket = do
  sql ← serve_sql e
  (put, conn) ← put_queries sys.alloc sql (map (λ a. a.oid) e.args) argvals c.conn
  (synced, c', written) ← pg_sync sys (record c { conn = conn })
  if put
      then (if synced
          then exchange fuel sys e client c' written socket
          else ok (served written socket (serve_fail client c')))
      else ok (served [] socket (serve_fail client (record c { conn = conn })))
