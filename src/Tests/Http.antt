-- ===== src/Tests/Http.antt =====
-- Runs of the HTTP reader and of the worker on concrete inputs, and their theorems applied to them.
use plmuggin.Base.{
  ◌≡◌, refl, false, [], ◌∷◌, ◌++◌, Option, none, some, List, Bytes, codes, replicate, arith,
  lacks-Lacks, All, ◌⊎◌,
}
use plmuggin.Mugshot.Http.{
  HttpConn, in_place, as_c_string, get, post, req_start, text_html, crlf, http_read_line, err,
}
use plmuggin.Mugshot.Http.Headers.{IsText, IsHeader}
use plmuggin.Mugshot.Http.Line.{handle_line, atoi, leading, strcasecmp_eq}
use plmuggin.Mugshot.Http.Outcome.{Outcome, IsBounded, http_read-IsBounded}
use plmuggin.Mugshot.Http.Reader.{http_read, body, bad_request}
use plmuggin.Mugshot.Http.Refusal.{http_read-line_behind}
use plmuggin.Mugshot.Http.Target.{IsPath, IsQuery}
use plmuggin.Mugshot.Http.Request.{IsRead, request_text, http_read-request}
use plmuggin.Mugshot.Worker.{Endpoint}
use plmuggin.Mugshot.Worker.Sql.{print_sql, print_args, serve_sql, serve_sql-call_text}
use plmuggin.Result.{Result, ok, fail, out_of_bounds, Returns}
use plmuggin.Strbuf.{decimal_from}

abbrev accepted : HttpConn
accepted = record {
  method = get;
  path = [];
  query_parameters = [];
  headers = [];
  content_length = 0;
  body_start = 0;
  body_type = text_html;
  state = req_start;
  buf_capacity = 8192;
  behind = [];
  dangling = false;
  sent = [];
}

abbrev posted : Bytes
posted =
    codes "POST /todos?list=1 HTTP/1.1"
    ++ (crlf ++ (codes "Content-Length: 7" ++ (crlf ++ (crlf ++ codes "tit"))))

abbrev summary : Result (HttpConn × Bytes) → Option (Bytes × Bytes × Bytes × Bytes)
summary r = elim r [
  | ok (c, u) ↦ some (c.path, c.query_parameters, body c u, c.sent)
  | fail e ↦ none
]

read_posted :
    summary (http_read (λ n. in_place) ((codes "le=a") ∷ []) 0 posted accepted)
    ≡ some (codes "/todos", codes "list=1", codes "title=a", [])
unfolding http_read handle_line body http_read_line as_c_string
read_posted = refl

read_posted_in_parts :
    summary (http_read (λ n. in_place) ((codes "le") ∷ (codes "=a") ∷ []) 0 posted accepted)
    ≡ some (codes "/todos", codes "list=1", codes "tit=a", [])
unfolding http_read handle_line body http_read_line as_c_string
read_posted_in_parts = refl

abbrev headers : List (Bytes × Bytes)
headers = (codes "Content-Length", codes "7") ∷ []

headers-IsHeader : All IsHeader headers
unfolding atoi leading
headers-IsHeader = (
  (
    (lacks-Lacks 0 (codes "Content-Length") refl, lacks-Lacks b'\r' (codes "Content-Length") refl),
    (lacks-Lacks 0 (codes "7") refl, lacks-Lacks b'\r' (codes "7") refl),
    lacks-Lacks b':' (codes "Content-Length") refl,
    (λ e. omega arith),
  ),
  tt,
)

todos-IsPath : IsPath (codes "/todos")
todos-IsPath = (
  (lacks-Lacks 0 (codes "/todos") refl, lacks-Lacks b'\r' (codes "/todos") refl),
  lacks-Lacks b' ' (codes "/todos") refl,
  lacks-Lacks b'?' (codes "/todos") refl,
)

list-IsQuery : IsQuery (some (codes "list=1"))
list-IsQuery = (
  (lacks-Lacks 0 (codes "list=1") refl, lacks-Lacks b'\r' (codes "list=1") refl),
  lacks-Lacks b' ' (codes "list=1") refl,
)

version-IsText : IsText (codes "1.1")
version-IsText = (lacks-Lacks 0 (codes "1.1") refl, lacks-Lacks b'\r' (codes "1.1") refl)

http_read-request_example :
    Returns
      (http_read
        (λ n. in_place)
        (codes "le=a" ∷ [])
        0
        (request_text post
          (codes "/todos")
          (some (codes "list=1"))
          (codes "1.1")
          headers
          (codes "tit"))
        accepted)
      (IsRead post (codes "/todos") (some (codes "list=1")) headers (codes "title=a"))
unfolding http_read_line strcasecmp_eq atoi
http_read-request_example =
    http_read-request (λ n. in_place) 0 accepted post (codes "/todos") (some (codes "list=1"))
      (codes "1.1") headers (codes "tit") (codes "le=a") refl refl refl todos-IsPath list-IsQuery
      version-IsText headers-IsHeader (omega arith) refl refl (λ n lt. refl)

http_read-line_behind_example :
    Returns
      (http_read
        (λ n. in_place)
        []
        0
        (request_text post
          (codes "/todos")
          (some (codes "list=1"))
          (codes "1.1")
          headers
          (codes "ti" ++ (crlf ++ codes "tle")))
        accepted)
      (λ x. (x.0.state ≡ err) × (x.0.sent ≡ (bad_request accepted).sent))
unfolding http_read_line
http_read-line_behind_example =
    http_read-line_behind (λ n. in_place) [] 0 accepted post (codes "/todos")
      (some (codes "list=1")) (codes "1.1") headers (codes "ti" ++ (crlf ++ codes "tle"))
      (codes "ti") (codes "tle") refl refl todos-IsPath list-IsQuery version-IsText headers-IsHeader
      (omega arith) refl

http_read-IsBounded_example :
    Returns (http_read (λ n. in_place) (codes "le=a" ∷ []) 0 posted accepted) (λ x.
      IsBounded x.0
      × ((x.0.sent ≡ []) ⊎ ((x.0.state ≡ err) × (x.0.sent ≡ (bad_request accepted).sent))))
http_read-IsBounded_example =
    http_read-IsBounded (λ n. in_place) (codes "le=a" ∷ []) 0 posted accepted ((λ e. cc), tt)
      (omega arith)

abbrev endpoint : Bytes → Bytes → Endpoint
endpoint name path = record {
  method = get;
  name = name;
  schema = codes "api";
  path = path;
  content_type = text_html;
  args = record { name = codes "list"; oid = 23; path = false } ∷ [];
}

serve_sql-call_text_example :
    serve_sql (endpoint (codes "todos") (codes "/todos"))
    ≡ ok (codes "SELECT \"api\".\"todos\"($1);")
unfolding decimal_from
serve_sql-call_text_example =
    serve_sql-call_text (endpoint (codes "todos") (codes "/todos")) (omega arith)

long_name : serve_sql (endpoint (replicate 600 b'n') (codes "/")) ≡ fail out_of_bounds
unfolding serve_sql print_args print_sql
long_name = refl
