-- ===== src/Mugshot/Http/Headers.antt =====
-- The lines of a request, in _mugshot_http_read of mugshot/mugshot.c: what the scans and the loop over
-- the headers do on printed lines.
use plmuggin.Base.{
  ℕ, zero, suc, ◌+◌, ◌^◌, ◌≤◌, ◌<◌, ◌≡◌, ◌≢◌, refl, ap, ◌∙◌, Bool, true, false, none, some, List,
  [], ◌∷◌, ◌++◌, arith, ltb, leb, ◌==◌, if◌then◌else◌, Bytes, codes, length, length-append, All,
  All-append, Lacks, Bool-cases, inl, inr,
}
use plmuggin.Mugshot.Http.Line.{
  handle_line, header_line, method_of, scan, split_header, body_header, named_type, add_header,
  end_of_headers, strcasecmp_eq, atoi, max_headers, max_body,
}
use plmuggin.Mugshot.Http.Reader.{read_lines}
use plmuggin.Mugshot.Http.{
  Method, get, head, post, put, delete, options, patch, HttpContentType, application_json,
  application_form_urlencoded, req_headers, HttpConn, as_c_string, http_read_line, crlf,
}
use plmuggin.Result.{ok}
use plmuggin.Str.{str_eq}

-- mugshot_http_method_string
abbrev pub method_string : Method → Bytes
method_string get = codes "GET"
method_string head = codes "HEAD"
method_string post = codes "POST"
method_string put = codes "PUT"
method_string delete = codes "DELETE"
method_string options = codes "OPTIONS"
method_string patch = codes "PATCH"

-- A text that can stand in a line.
abbrev pub IsText : Bytes → Type 0
IsText s = Lacks 0 s × Lacks b'\r' s

-- The length of the body after a header, and its type.
abbrev pub length_after : ℕ → Bytes × Bytes → ℕ
length_after n (name, value) = if strcasecmp_eq name (codes "Content-Length") then atoi value else n

abbrev pub type_after : HttpContentType → Bytes × Bytes → HttpContentType
type_after t (name, value) =
    if strcasecmp_eq name (codes "Content-Length")
    then t
    else if strcasecmp_eq name (codes "Content-Type")
    then (if str_eq value (codes "application/x-www-form-urlencoded")
        then application_form_urlencoded
        else if str_eq value (codes "application/json")
        then application_json
        else t)
    else t

-- The length and the type that the headers declare: the last one counts.
abbrev pub length_in : ℕ → List (Bytes × Bytes) → ℕ
length_in n [] = n
length_in n (h ∷ hs) = length_in (length_after n h) hs

abbrev pub type_in : HttpContentType → List (Bytes × Bytes) → HttpContentType
type_in t [] = t
type_in t (h ∷ hs) = type_in (type_after t h) hs

-- A header that can be printed, and a length that is not too large.
abbrev pub IsHeader : Bytes × Bytes → Type 0
IsHeader (name, value) =
    IsText name
    × IsText value
    × Lacks b':' name
    × (strcasecmp_eq name (codes "Content-Length") ≡ true → atoi value ≤ max_body)

-- The header lines, the empty line, and what follows.
abbrev pub header_text : List (Bytes × Bytes) → Bytes → Bytes
header_text [] content = crlf ++ content
header_text ((name, value) ∷ hs) content =
    (name ++ (codes ": " ++ value)) ++ (crlf ++ header_text hs content)

pub http_read_line-append :
    (line rest : Bytes)
    → Lacks b'\r' line
    → http_read_line (line ++ (crlf ++ rest)) ≡ some (line, rest)
unfolding http_read_line
http_read_line-append [] rest l = refl
http_read_line-append (c ∷ []) rest (l, ls) =
    let ne : (c == b'\r') ≡ false = ground (arith, l) in rw ne refl
http_read_line-append (c ∷ d ∷ line) rest (l, ls) =
    let ne : (c == b'\r') ≡ false = ground (arith, l) in
    rw (ne, http_read_line-append (d ∷ line) rest ls) refl

pub as_c_string-Lacks : (s : Bytes) → Lacks 0 s → as_c_string s ≡ s
unfolding as_c_string
as_c_string-Lacks [] l = refl
as_c_string-Lacks (c ∷ s) (l, ls) =
    let ne : (c == 0) ≡ false = ground (arith, l) in rw ne (ap (◌∷◌ c) (as_c_string-Lacks s ls))

pub scan-append :
    (stop : ℕ → Bool) (s : Bytes) (c : ℕ) (rest : Bytes)
    → All (λ x. stop x ≡ false) s
    → stop c ≡ true
    → scan stop (s ++ (c ∷ rest)) ≡ some (s, c, rest)
unfolding scan
scan-append stop [] c rest l e = rw e refl
scan-append stop (x ∷ s) c rest (l, ls) e = rw (l, scan-append stop s c rest ls e) refl

pub method_of-string :
    (m : Method) (target : Bytes)
    → method_of (method_string m ++ (b' ' ∷ target)) ≡ some (m, target)
unfolding method_of
method_of-string get target = refl
method_of-string head target = refl
method_of-string post target = refl
method_of-string put target = refl
method_of-string delete target = refl
method_of-string options target = refl
method_of-string patch target = refl

pub split_header-append :
    (name value : Bytes)
    → Lacks b':' name
    → split_header (name ++ (codes ": " ++ value)) ≡ some (name, value)
unfolding split_header
split_header-append [] value l = refl
split_header-append (c ∷ []) value (l, ls) =
    let ne : (c == b':') ≡ false = ground (arith, l) in rw ne refl
split_header-append (c ∷ d ∷ name) value (l, ls) =
    let ne : (c == b':') ≡ false = ground (arith, l) in
    rw (ne, split_header-append (d ∷ name) value ls) refl

body_header-after :
    (r : HttpConn) (name value : Bytes)
    → (strcasecmp_eq name (codes "Content-Length") ≡ true → atoi value ≤ max_body)
    → body_header r name value
      ≡ some (record r {
        content_length = length_after r.content_length (name, value);
        body_type = type_after r.body_type (name, value);
      })
unfolding body_header named_type
body_header-after r name value small =
    elim (Bool-cases (strcasecmp_eq name (codes "Content-Length"))) [
      | inl e ↦
          let le : atoi value ≤ max_body = small e in
          let positive : leb (2 ^ 31) (atoi value) ≡ false = ground arith in
          let fits : ltb max_body (atoi value) ≡ false = ground arith in rw (e, positive, fits) refl
      | inr e ↦ elim (Bool-cases (strcasecmp_eq name (codes "Content-Type"))) [
        | inl f ↦ elim (Bool-cases (str_eq value (codes "application/x-www-form-urlencoded"))) [
          | inl g ↦ rw (e, f, g) refl
          | inr g ↦ elim (Bool-cases (str_eq value (codes "application/json"))) [
            | inl k ↦ rw (e, f, g, k) refl
            | inr k ↦ rw (e, f, g, k) refl
          ]
        ]
        | inr f ↦ rw (e, f) refl
      ]
    ]

-- The connection after one header, and after all of them.
abbrev pub add : HttpConn → Bytes × Bytes → HttpConn
add r h = record r {
  headers = r.headers ++ (h ∷ []);
  content_length = length_after r.content_length h;
  body_type = type_after r.body_type h;
}

abbrev pub declare : HttpConn → List (Bytes × Bytes) → HttpConn
declare r [] = r
declare r (h ∷ hs) = declare (add r h) hs

header_line-split :
    (pos : ℕ) (r : HttpConn) (line name value : Bytes)
    → line ≢ []
    → split_header line ≡ some (name, value)
    → length r.headers < max_headers
    → (strcasecmp_eq name (codes "Content-Length") ≡ true → atoi value ≤ max_body)
    → header_line pos r line ≡ some (add r (name, value))
unfolding header_line add_header
header_line-split pos r [] name value ne e lt small = absurd (ne refl)
header_line-split pos r (c ∷ line) name value ne e lt small =
    let room : (length r.headers == max_headers) ≡ false = ground arith in
    rw (header_line, e, room, body_header-after r name value small) refl

pair_ne_nil : (name value : Bytes) → name ++ (codes ": " ++ value) ≢ []
pair_ne_nil [] value e = cc
pair_ne_nil (c ∷ name) value e = cc

pub IsText-append : (s t : Bytes) → IsText s → IsText t → IsText (s ++ t)
IsText-append s t a b = (All-append _ s t a.0 b.0, All-append _ s t a.1 b.1)

pair-IsText :
    (name value : Bytes) → IsText name → IsText value → IsText (name ++ (codes ": " ++ value))
pair-IsText name value n v = IsText-append name (codes ": " ++ value) n (
  ((λ e. omega arith), ((λ e. omega arith), v.0)),
  ((λ e. omega arith), ((λ e. omega arith), v.1)),
)

-- One line that is accepted.
pub read_lines-line :
    (fuel pos : ℕ) (line rest : Bytes) (r : HttpConn) {r' : HttpConn}
    → IsText line
    → handle_line r.state (pos + length line + 2) r line ≡ some r'
    → read_lines (suc fuel) pos (line ++ (crlf ++ rest)) r
      ≡ read_lines fuel (pos + length line + 2) rest r'
unfolding read_lines
read_lines-line fuel pos line rest r t e =
    rw (read_lines, http_read_line-append line rest t.1, as_c_string-Lacks line t.0, e) refl

pub read_lines-none :
    (fuel pos : ℕ) (rest : Bytes) (r : HttpConn)
    → http_read_line rest ≡ none
    → read_lines (suc fuel) pos rest r ≡ ok (r, rest)
unfolding read_lines
read_lines-none fuel pos rest r e = rw (read_lines, e) refl

-- The header lines and the empty line are read one after the other.
pub read_lines-headers :
    (fuel pos : ℕ) (hs : List (Bytes × Bytes)) (content : Bytes) (r : HttpConn)
    → All IsHeader hs
    → r.state ≡ req_headers
    → length r.headers + length hs ≤ max_headers
    → length (header_text hs content) < fuel
    → (p f : ℕ) × (read_lines fuel pos (header_text hs content) r
        ≡ read_lines (suc f) p content (end_of_headers p (declare r hs)))
unfolding handle_line header_line
read_lines-headers zero pos hs content r hh s room lt = absurd (omega arith)
read_lines-headers (suc zero) pos [] content r hh s room lt = absurd (omega arith)
read_lines-headers (suc (suc fuel)) pos [] content r hh s room lt = (
  pos + 0 + 2,
  fuel,
  read_lines-line (suc fuel) pos [] content r (tt, tt)
      (ap (λ st. handle_line st (pos + 0 + 2) r []) s),
)
read_lines-headers (suc fuel) pos ((name, value) ∷ hs) content r ((n, v, l, small), hh) s room lt =
    let line : Bytes = name ++ (codes ": " ++ value) in
    let accepted =
      read_lines-line fuel pos line (header_text hs content) r {r' = add r (name, value)}
        (pair-IsText name value n v)
        (ap (λ st. handle_line st (pos + length line + 2) r line) s
          ∙ (header_line-split (pos + length line + 2) r line name value (pair_ne_nil name value)
              (split_header-append name value l) (omega arith) small)) in
    let (p, f, run) =
      read_lines-headers fuel (pos + length line + 2) hs content (add r (name, value)) hh s
        (omega (arith, length-append r.headers ((name, value) ∷ [])))
        (omega (arith, length-append line (crlf ++ header_text hs content))) in
    (p, f, accepted ∙ run)
