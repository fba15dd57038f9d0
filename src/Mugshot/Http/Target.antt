-- ===== src/Mugshot/Http/Target.antt =====
-- The request line, in _mugshot_http_read of mugshot/mugshot.c: what the scans do on a printed one.
use plmuggin.Base.{
  ℕ, ◌≡◌, refl, true, false, ◌||◌, Option, none, some, [], ◌∷◌, ◌++◌, arith, ◌==◌, Bytes, codes,
  All, Lacks, lacks, lacks-Lacks,
}
use plmuggin.Mugshot.Http.Headers.{
  method_string, IsText, IsText-append, scan-append, method_of-string,
}
use plmuggin.Mugshot.Http.Line.{request_line, target_of, query_of}
use plmuggin.Mugshot.Http.{
  Method, get, head, post, put, delete, options, patch, req_headers, HttpConn,
}

-- The rest of the request line behind the method.
abbrev pub target_text : Bytes → Option Bytes → Bytes → Bytes
target_text path none version = path ++ (b' ' ∷ version)
target_text path (some query) version = path ++ (b'?' ∷ (query ++ (b' ' ∷ version)))

abbrev pub query_text : Option Bytes → Bytes
query_text none = []
query_text (some query) = query

-- A path and query parameters that can stand in a request line.
abbrev pub IsPath : Bytes → Type 0
IsPath path = IsText path × Lacks b' ' path × Lacks b'?' path

abbrev pub IsQuery : Option Bytes → Type 0
IsQuery none = Unit
IsQuery (some query) = IsText query × Lacks b' ' query

IsPath-stop :
    (path : Bytes)
    → Lacks b' ' path
    → Lacks b'?' path
    → All (λ c. (c == b' ' || c == b'?') ≡ false) path
IsPath-stop [] s q = tt
IsPath-stop (c ∷ path) (s, ss) (q, qs) = (ground (arith, s, q), IsPath-stop path ss qs)

Lacks-stop : (k : ℕ) (s : Bytes) → Lacks k s → All (λ c. (c == k) ≡ false) s
Lacks-stop k [] l = tt
Lacks-stop k (c ∷ s) (l, ls) = (ground (arith, l), Lacks-stop k s ls)

target_of-text :
    (path : Bytes) (query : Option Bytes) (version : Bytes)
    → IsPath path
    → IsQuery query
    → target_of (target_text path query version) ≡ some (path, query_text query, version)
unfolding target_of query_of
target_of-text path none version (t, s, q) none_given =
    rw
      (
        target_of,
        scan-append (λ c. c == b' ' || c == b'?') path b' ' version (IsPath-stop path s q) refl,
      )
      refl
target_of-text path (some query) version (t, s, q) (u, v) =
    rw
      (
        target_of,
        scan-append (λ c. c == b' ' || c == b'?') path b'?' (query ++ (b' ' ∷ version))
            (IsPath-stop path s q) refl,
        scan-append (λ c. c == b' ') query b' ' version (Lacks-stop b' ' query v) refl,
      )
      refl

pub request_line-text :
    (r : HttpConn) (m : Method) (path : Bytes) (query : Option Bytes) (version : Bytes)
    → IsPath path
    → IsQuery query
    → request_line r (method_string m ++ (b' ' ∷ target_text path query (codes "HTTP/" ++ version)))
      ≡ some (record r {
        method = m;
        path = path;
        query_parameters = query_text query;
        state = req_headers;
      })
unfolding request_line
request_line-text r m path query version p q =
    rw
      (
        request_line,
        method_of-string m (target_text path query (codes "HTTP/" ++ version)),
        target_of-text path query (codes "HTTP/" ++ version) p q,
      )
      refl

pub method_string-IsText : (m : Method) → IsText (method_string m)
method_string-IsText get = (lacks-Lacks 0 (codes "GET") refl, lacks-Lacks b'\r' (codes "GET") refl)
method_string-IsText head =
    (lacks-Lacks 0 (codes "HEAD") refl, lacks-Lacks b'\r' (codes "HEAD") refl)
method_string-IsText post =
    (lacks-Lacks 0 (codes "POST") refl, lacks-Lacks b'\r' (codes "POST") refl)
method_string-IsText put = (lacks-Lacks 0 (codes "PUT") refl, lacks-Lacks b'\r' (codes "PUT") refl)
method_string-IsText delete =
    (lacks-Lacks 0 (codes "DELETE") refl, lacks-Lacks b'\r' (codes "DELETE") refl)
method_string-IsText options =
    (lacks-Lacks 0 (codes "OPTIONS") refl, lacks-Lacks b'\r' (codes "OPTIONS") refl)
method_string-IsText patch =
    (lacks-Lacks 0 (codes "PATCH") refl, lacks-Lacks b'\r' (codes "PATCH") refl)

pub space-IsText :
    (s : Bytes) (k : ℕ)
    → lacks 0 (k ∷ []) ≡ true
    → lacks b'\r' (k ∷ []) ≡ true
    → IsText s
    → IsText (k ∷ s)
space-IsText s k e f t =
    (((lacks-Lacks 0 (k ∷ []) e).0, t.0), ((lacks-Lacks b'\r' (k ∷ []) f).0, t.1))

pub target_text-IsText :
    (path : Bytes) (query : Option Bytes) (version : Bytes)
    → IsPath path
    → IsQuery query
    → IsText version
    → IsText (target_text path query version)
target_text-IsText path none version (t, s, q) given v =
    IsText-append path (b' ' ∷ version) t (space-IsText version b' ' refl refl v)
target_text-IsText path (some query) version (t, s, q) (u, w) v =
    IsText-append path (b'?' ∷ (query ++ (b' ' ∷ version))) t (
      space-IsText (query ++ (b' ' ∷ version)) b'?' refl refl
        (IsText-append query (b' ' ∷ version) u (space-IsText version b' ' refl refl v)))
