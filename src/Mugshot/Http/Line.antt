-- ===== src/Mugshot/Http/Line.antt =====
-- The two kinds of lines of a request, in _mugshot_http_read of mugshot/mugshot.c. `none` is the
-- jump to `fail`; what the code has set before it jumps is not kept, since nothing reads a request
-- that failed.
use plmuggin.Base.{
  ℕ, ◌+◌, ◌-◌, ◌*◌, ◌%◌, ◌^◌, min, Bool, true, false, ◌&&◌, ◌||◌, Option, none, some, [], ◌∷◌, ◌++◌,
  ltb, leb, ◌==◌, if◌then◌else◌, Bytes, codes, length, drop,
}
use plmuggin.Mugshot.Http.{
  Method, get, head, post, put, delete, options, patch, HttpContentType, application_json,
  application_form_urlencoded, ConnState, req_start, req_headers, req_body, req_done, HttpConn,
}
use plmuggin.Str.{strncmp_eq, str_eq, is_digit}

-- `strncmp(line, word, length of word)`, and what stands behind the word
unfoldable pub after : Bytes → Bytes → Option Bytes
unfolding strncmp_eq
after word line =
    if strncmp_eq (length word) line word then some (drop (length word) line) else none

unfoldable pub with_method : Method → Option Bytes → Option (Method × Bytes)
with_method method none = none
with_method method (some target) = some (method, target)

-- the switch on the first byte, with what follows the method and its space
unfoldable pub method_of : Bytes → Option (Method × Bytes)
unfolding after with_method
method_of [] = none
method_of (c ∷ line) =
    if c == b'G'
    then with_method get (after (codes "ET ") line)
    else if c == b'P'
    then method_of_p line
    else if c == b'H'
    then with_method head (after (codes "EAD ") line)
    else if c == b'D'
    then with_method delete (after (codes "ELETE ") line)
    else if c == b'O'
    then with_method options (after (codes "PTIONS ") line)
    else none
  where
    method_of_p : Bytes → Option (Method × Bytes)
    method_of_p [] = none
    method_of_p (c ∷ line) =
        if c == b'O'
        then with_method post (after (codes "ST ") line)
        else if c == b'U'
        then with_method put (after (codes "T ") line)
        else if c == b'A'
        then with_method patch (after (codes "TCH ") line)
        else none

unfoldable pub before_stop : ℕ → Option (Bytes × ℕ × Bytes) → Option (Bytes × ℕ × Bytes)
before_stop c none = none
before_stop c (some (s, stop, rest)) = some (c ∷ s, stop, rest)

-- the loops on `space`: the bytes before a stop, the stop, and the bytes behind it
unfoldable pub scan : (ℕ → Bool) → Bytes → Option (Bytes × ℕ × Bytes)
unfolding before_stop
scan stop [] = none
scan stop (c ∷ s) =
    let later = scan stop s in if stop c then some ([], c, s) else before_stop c later

-- the query parameters and what stands behind them
unfoldable pub query_of : ℕ → Bytes → Option (Bytes × Bytes)
unfolding scan
query_of stop rest =
    if stop == b'?'
    then elim (scan (λ c. c == b' ') rest) [
      | none ↦ none
      | some (query, _, version) ↦ some (query, version)
    ]
    else some ([], rest)

-- the path, the query parameters and the version
unfoldable pub target_of : Bytes → Option (Bytes × Bytes × Bytes)
unfolding scan query_of
target_of target = elim (scan (λ c. c == b' ' || c == b'?') target) [
  | none ↦ none
  | some (path, stop, rest) ↦ elim (query_of stop rest) [
    | none ↦ none
    | some (query, version) ↦ some (path, query, version)
  ]
]

-- the request line
unfoldable pub request_line : HttpConn → Bytes → Option HttpConn
unfolding method_of target_of strncmp_eq
request_line r line = elim (method_of line) [
  | none ↦ none
  | some (method, target) ↦ elim (target_of target) [
    | none ↦ none
    | some (path, query, version) ↦
        if strncmp_eq 5 version (codes "HTTP/")
        then some (record r {
          method = method;
          path = path;
          query_parameters = query;
          state = req_headers;
        })
        else none
  ]
]

abbrev pub lower : ℕ → ℕ
lower c = if leb b'A' c && leb c b'Z' then c + 32 else c

-- `strcasecmp(a, b) == 0`
unfoldable pub strcasecmp_eq : Bytes → Bytes → Bool
strcasecmp_eq [] [] = true
strcasecmp_eq (x ∷ a) (y ∷ b) = lower x == lower y && strcasecmp_eq a b
strcasecmp_eq _ _ = false

-- the value of the leading digits
unfoldable pub leading : ℕ → Bytes → ℕ
leading n [] = n
leading n (c ∷ s) = let rest = leading (n * 10 + (c - b'0')) s in if is_digit c then rest else n

-- the white space of the C locale
abbrev pub isspace : ℕ → Bool
isspace c = c == b' ' || (leb 9 c && leb c 13)

-- atoi, as the 32 bits of the int: strtol, which stops at the ends of long, converted to int
unfoldable pub atoi : Bytes → ℕ
unfolding leading
atoi [] = 0
atoi (c ∷ s) =
    let later = atoi s in
    if isspace c
    then later
    else if c == b'-'
    then (2 ^ 64 - min (leading 0 s) (2 ^ 63)) % 2 ^ 32
    else if c == b'+'
    then min (leading 0 s) (2 ^ 63 - 1) % 2 ^ 32
    else min (leading 0 (c ∷ s)) (2 ^ 63 - 1) % 2 ^ 32

unfoldable pub split_behind : ℕ → Option (Bytes × Bytes) → Option (Bytes × Bytes)
split_behind c none = none
split_behind c (some (name, value)) = some (c ∷ name, value)

-- `strstr(line, ": ")`: the name before it and the value behind it
unfoldable pub split_header : Bytes → Option (Bytes × Bytes)
unfolding split_behind
split_header [] = none
split_header (c ∷ []) = none
split_header (c ∷ d ∷ s) =
    let later = split_header (d ∷ s) in
    if c == b':' && d == b' ' then some ([], s) else split_behind c later

-- MUGSHOT_MAX_HEADERS and MUGSHOT_MAX_BODY
abbrev pub max_headers : ℕ
max_headers = 64

abbrev pub max_body : ℕ
max_body = 2 ^ 23

-- the type with the name, or the type as it was
unfoldable pub named_type : HttpContentType → Bytes → HttpContentType
unfolding str_eq
named_type t value =
    if str_eq value (codes "application/x-www-form-urlencoded")
    then application_form_urlencoded
    else if str_eq value (codes "application/json")
    then application_json
    else t

-- what the header means for the body; an int from 2 ^ 31 up is negative
unfoldable pub body_header : HttpConn → Bytes → Bytes → Option HttpConn
unfolding strcasecmp_eq atoi named_type
body_header r name value =
    if strcasecmp_eq name (codes "Content-Length")
    then (if leb (2 ^ 31) (atoi value) || ltb max_body (atoi value)
        then none
        else some (record r { content_length = atoi value }))
    else if strcasecmp_eq name (codes "Content-Type")
    then some (record r { body_type = named_type r.body_type value })
    else some r

unfoldable pub add_header : Bytes → Bytes → Option HttpConn → Option HttpConn
add_header name value none = none
add_header name value (some r) = some (record r { headers = r.headers ++ ((name, value) ∷ []) })

-- the empty line behind the headers, with the position behind it
unfoldable pub end_of_headers : ℕ → HttpConn → HttpConn
end_of_headers read_pos r =
    if r.content_length == 0
    then record r { state = req_done }
    else record r { state = req_body; body_start = read_pos }

-- a line in the headers
unfoldable pub header_line : ℕ → HttpConn → Bytes → Option HttpConn
unfolding end_of_headers split_header body_header add_header
header_line read_pos r [] = some (end_of_headers read_pos r)
header_line read_pos r (c ∷ line) = elim (split_header (c ∷ line)) [
  | none ↦ none
  | some (name, value) ↦
      if length r.headers == max_headers
      then none
      else add_header name value (body_header r name value)
]

-- the switch on the state
unfoldable pub handle_line : ConnState → ℕ → HttpConn → Bytes → Option HttpConn
unfolding request_line header_line
handle_line req_start read_pos r line = request_line r line
handle_line req_headers read_pos r line = header_line read_pos r line
handle_line _ read_pos r line = none
