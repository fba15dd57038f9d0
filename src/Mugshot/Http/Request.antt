-- ===== src/Mugshot/Http/Request.antt =====
-- _mugshot_http_read of mugshot/mugshot.c reads a printed request back, from the request line to the
-- body.
use plmuggin.Base.{
  ℕ, suc, ◌+◌, ◌≤◌, ◌<◌, ◌≡◌, refl, ap, ◌∙◌, false, Option, none, List, [], ◌∷◌, ◌++◌, append_assoc,
  append-nil, arith, Bytes, codes, length, length-append, All, lacks-Lacks,
}
use plmuggin.Mugshot.Http.Headers.{
  method_string, IsText, IsText-append, IsHeader, length_in, type_in, header_text, add, declare,
  read_lines-line, read_lines-headers, read_lines-none,
}
use plmuggin.Mugshot.Http.Line.{handle_line, end_of_headers, max_headers}
use plmuggin.Mugshot.Http.Reader.{finish_read, http_read, body, read_lines}
use plmuggin.Mugshot.Http.{
  Realloc, in_place, Method, application_octet_stream, req_start, req_headers, req_done, HttpConn,
  http_read_line, crlf,
}
use plmuggin.Result.{Returns, ◌>>=◌}
use plmuggin.Mugshot.Http.Target.{
  target_text, query_text, IsPath, IsQuery, request_line-text, method_string-IsText, space-IsText,
  target_text-IsText,
}
use plmuggin.Mugshot.Http.Pieces.{finish_read-piece}

abbrev pub request_text :
    Method → Bytes → Option Bytes → Bytes → List (Bytes × Bytes) → Bytes → Bytes
request_text m path query version hs content =
    (method_string m ++ (b' ' ∷ target_text path query (codes "HTTP/" ++ version)))
    ++ (crlf ++ header_text hs content)

-- What the connection holds once the request is read.
pub record IsRead (m : Method) (p : Bytes) (q : Option Bytes) (hs : List (Bytes × Bytes))
    (content : Bytes) (x : HttpConn × Bytes) : Type 0 where
  pub method : x.0.method ≡ m
  pub path : x.0.path ≡ p
  pub query_parameters : x.0.query_parameters ≡ query_text q
  pub headers : x.0.headers ≡ hs
  pub body_type : x.0.body_type ≡ type_in application_octet_stream hs
  pub state : x.0.state ≡ req_done
  pub dangling : x.0.dangling ≡ false
  pub body : body x.0 x.1 ≡ content

declare-fields :
    (hs : List (Bytes × Bytes)) (r : HttpConn)
    → declare r hs ≡ record r {
      headers = r.headers ++ hs;
      content_length = length_in r.content_length hs;
      body_type = type_in r.body_type hs;
    }
declare-fields [] r = rw append-nil refl
declare-fields (h ∷ hs) r =
    declare-fields hs (add r h)
    ∙ ap
        (λ l. record r {
          headers = l;
          content_length = length_in r.content_length (h ∷ hs);
          body_type = type_in r.body_type (h ∷ hs);
        })
        (append_assoc r.headers (h ∷ []) hs)

-- The connection that the lines of a request leave, but for the state and the start of the body.
abbrev pub asked : HttpConn → Method → Bytes → Option Bytes → List (Bytes × Bytes) → HttpConn
asked r m path query hs = record r {
  method = m;
  path = path;
  query_parameters = query_text query;
  headers = r.headers ++ hs;
  content_length = length_in 0 hs;
  body_start = 0;
  body_type = type_in application_octet_stream hs;
  state = req_headers;
}

pub read_lines-request :
    (pos : ℕ) (r : HttpConn) (m : Method) (path : Bytes) (query : Option Bytes) (version : Bytes)
    (hs : List (Bytes × Bytes)) (content : Bytes)
    → r.state ≡ req_start
    → r.headers ≡ []
    → IsPath path
    → IsQuery query
    → IsText version
    → All IsHeader hs
    → length hs ≤ max_headers
    → (at f : ℕ) × (read_lines
          (suc (length (request_text m path query version hs content)))
          pos
          (request_text m path query version hs content)
          (record r { content_length = 0; body_start = 0; body_type = application_octet_stream })
        ≡ read_lines (suc f) at content (end_of_headers at (asked r m path query hs)))
unfolding handle_line
read_lines-request pos r m path query version hs content start fresh p q v hh room =
    let target : Bytes = target_text path query (codes "HTTP/" ++ version) in
    let line : Bytes = method_string m ++ (b' ' ∷ target) in
    let opened : HttpConn = record r {
      content_length = 0;
      body_start = 0;
      body_type = application_octet_stream;
    } in
    let named : HttpConn = record opened {
      method = m;
      path = path;
      query_parameters = query_text query;
      state = req_headers;
    } in
    let printed =
      IsText-append (codes "HTTP/") version
        (lacks-Lacks 0 (codes "HTTP/") refl, lacks-Lacks b'\r' (codes "HTTP/") refl) v in
    let text = IsText-append (method_string m) (b' ' ∷ target) (method_string-IsText m) (
      space-IsText target b' ' refl refl
        (target_text-IsText path query (codes "HTTP/" ++ version) p q printed)) in
    let accepted =
      ap (λ s. handle_line s (pos + length line + 2) opened line) start
      ∙ request_line-text opened m path query version p q in
    let step =
      read_lines-line (length (request_text m path query version hs content)) pos line
        (header_text hs content) opened {r' = named} text accepted in
    let (at, f, run) =
      read_lines-headers (length (request_text m path query version hs content))
        (pos + length line + 2) hs content named hh refl (omega (arith, ap length fresh))
        (omega (arith, length-append line (crlf ++ header_text hs content))) in
    (
      at,
      f,
      step
          ∙ run
          ∙ ap (λ d. read_lines (suc f) at content (end_of_headers at d)) (declare-fields hs named),
    )

-- A printed request, with at most 64 headers that declare the length of its body, is read back: the
-- method, the path, the query parameters, the headers and the body are those of the request, and the
-- request is done. The body may have come with the header up to any point where it shows no line end,
-- and the rest arrives at once. Where the buffer has no room for the body, realloc leaves it in
-- place: no pointer of the request dangles.
pub http_read-request :
    (realloc : ℕ → Realloc) (pos : ℕ) (r : HttpConn) (m : Method) (path : Bytes)
    (query : Option Bytes) (version : Bytes) (hs : List (Bytes × Bytes)) (first second : Bytes)
    → r.state ≡ req_start
    → r.headers ≡ []
    → r.dangling ≡ false
    → IsPath path
    → IsQuery query
    → IsText version
    → All IsHeader hs
    → length hs ≤ max_headers
    → http_read_line first ≡ none
    → length first + length second ≡ length_in 0 hs
    → ((n : ℕ) → r.buf_capacity < n → realloc n ≡ in_place)
    → Returns
        (http_read realloc (second ∷ []) pos (request_text m path query version hs first) r)
        (IsRead m path query hs (first ++ second))
unfolding http_read
http_read-request realloc pos r m path query version hs first second start fresh still p q v hh room
      e size granted =
    let (at, f, run) =
      read_lines-request pos r m path query version hs first start fresh p q v hh room in
    let read = run ∙ read_lines-none f at first (end_of_headers at (asked r m path query hs)) e in
    let (x, done, c) =
      finish_read-piece realloc at (asked r m path query hs) first second granted size in
    (
      x,
      ap (λ l. l >>= λ y. finish_read realloc (second ∷ []) y.0.state y) read ∙ done,
      record {
        method = c.method;
        path = c.path;
        query_parameters = c.query_parameters;
        headers = c.headers ∙ ap (λ l. l ++ hs) fresh;
        body_type = c.body_type;
        state = c.state;
        dangling = c.dangling ∙ still;
        body = c.body;
      },
    )
