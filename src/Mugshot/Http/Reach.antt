-- ===== src/Mugshot/Http/Reach.antt =====
-- The states of a connection while _mugshot_http_read of mugshot/mugshot.c reads a request, as a step
-- relation: one step for each line that is accepted.
use plmuggin.Base.{
  ℕ, zero, suc, ◌+◌, ◌^◌, ◌≤◌, ◌<◌, ◌≡◌, refl, sym, ap, subst, ◌&&◌, ◌||◌, some, [], ◌∷◌, ◌++◌,
  arith, ltb, leb, ◌==◌, Bytes, codes, length, length-append, Bool-cases, Option-cases, inl, inr,
  ◌⊎◌,
}
use plmuggin.Mugshot.Http.Line.{
  handle_line, header_line, request_line, method_of, target_of, split_header, body_header,
  add_header, end_of_headers, strcasecmp_eq, atoi, max_headers, max_body,
}
use plmuggin.Mugshot.Http.Reader.{bad_request, read_lines}
use plmuggin.Mugshot.Http.{
  Method, HttpContentType, ConnState, req_start, req_headers, req_body, req_done, HttpConn,
  as_c_string, http_read_line, behind_byte,
}
use plmuggin.Result.{Returns}
use plmuggin.Str.{strncmp_eq}

pub data Step : HttpConn → HttpConn → Type 0 where
  request :
      (r : HttpConn) (m : Method) (path query : Bytes)
      → r.state ≡ req_start
      → Step r (record r { method = m; path = path; query_parameters = query; state = req_headers })
  header :
      (r : HttpConn) (h : Bytes × Bytes) (n : ℕ) (t : HttpContentType)
      → r.state ≡ req_headers
      → length r.headers < max_headers
      → (n ≤ max_body) ⊎ (n ≡ r.content_length)
      → Step r (record r { headers = r.headers ++ (h ∷ []); content_length = n; body_type = t })
  complete :
      (r : HttpConn)
      → r.state ≡ req_headers
      → r.content_length ≡ 0
      → Step r (record r { state = req_done })
  announce :
      (r : HttpConn) (pos : ℕ)
      → r.state ≡ req_headers
      → 0 < r.content_length
      → Step r (record r { state = req_body; body_start = pos })

pub data Reach : HttpConn → HttpConn → Type 0 where
  here : (r : HttpConn) → Reach r r
  there : {r s t : HttpConn} → Step r s → Reach s t → Reach r t

some-injective : {A : Type 0} {x y : A} → some x ≡ some y → x ≡ y
some-injective e = cc

request_line-Step :
    (r : HttpConn) (line : Bytes) {r' : HttpConn}
    → r.state ≡ req_start
    → request_line r line ≡ some r'
    → Step r r'
unfolding request_line
request_line-Step r line s h = elim (Option-cases (method_of line)) [
  | inl n ↦ let h₁ = rw (request_line, n) at h in cc
  | inr ((m, target), e) ↦ elim (Option-cases (target_of target)) [
    | inl n ↦ let h₁ = rw (request_line, e, n) at h in cc
    | inr ((path, query, version), f) ↦ elim (Bool-cases (strncmp_eq 5 version (codes "HTTP/"))) [
      | inl g ↦
          let h₁ = rw (request_line, e, f, g) at h in
          subst (Step r) (some-injective h₁) (request r m path query s)
      | inr g ↦ let h₁ = rw (request_line, e, f, g) at h in cc
    ]
  ]
]

-- What a header does to the length and the type.
body_header-bounded :
    (r : HttpConn) (name value : Bytes) {r' : HttpConn}
    → body_header r name value ≡ some r'
    → (n : ℕ) × (t : HttpContentType) × ((n ≤ max_body) ⊎ (n ≡ r.content_length))
      × (r' ≡ record r { content_length = n; body_type = t })
unfolding body_header
body_header-bounded r name value h =
    elim (Bool-cases (strcasecmp_eq name (codes "Content-Length"))) [
      | inl e ↦ elim (Bool-cases (leb (2 ^ 31) (atoi value) || ltb max_body (atoi value))) [
        | inl bad ↦ let h₁ = rw (e, bad) at h in cc
        | inr good ↦
            let h₁ = rw (e, good) at h in
            (atoi value, r.body_type, inl (ground arith), sym (some-injective h₁))
      ]
      | inr e ↦ elim (Bool-cases (strcasecmp_eq name (codes "Content-Type"))) [
        | inl f ↦
            let h₁ = rw (e, f) at h in (r.content_length, _, inr refl, sym (some-injective h₁))
        | inr f ↦
            let h₁ = rw (e, f) at h in
            (r.content_length, r.body_type, inr refl, sym (some-injective h₁))
      ]
    ]

header_line-Step :
    (pos : ℕ) (r : HttpConn) (line : Bytes) {r' : HttpConn}
    → r.state ≡ req_headers
    → length r.headers ≤ max_headers
    → header_line pos r line ≡ some r'
    → Step r r'
unfolding header_line end_of_headers
header_line-Step pos r [] s room h = elim (Bool-cases (r.content_length == 0)) [
  | inl e ↦
      let h₁ = rw (header_line, e) at h in
      subst (Step r) (some-injective h₁) (complete r s (ground arith))
  | inr e ↦
      let h₁ = rw (header_line, e) at h in
      subst (Step r) (some-injective h₁) (announce r pos s (ground arith))
]
header_line-Step pos r (c ∷ line) s room h = elim (Option-cases (split_header (c ∷ line))) [
  | inl n ↦ let h₁ = rw (header_line, n) at h in cc
  | inr ((name, value), e) ↦ elim (Bool-cases (length r.headers == max_headers)) [
    | inl full ↦ let h₁ = rw (header_line, e, full) at h in cc
    | inr open_place ↦ elim (Option-cases (body_header r name value)) [
      | inl n ↦ let h₁ = rw (header_line, e, open_place, n, add_header) at h in cc
      | inr (q, f) ↦
          let h₁ = rw (header_line, e, open_place, f, add_header) at h in
          let (n, t, bounded, same) = body_header-bounded r name value f in
          let h₂ = rw same at h₁ in
          subst (Step r) (some-injective h₂) (header r (name, value) n t s (ground arith) bounded)
    ]
  ]
]

handle_line-Step :
    (s : ConnState) (pos : ℕ) (r : HttpConn) (line : Bytes) {r' : HttpConn}
    → r.state ≡ s
    → length r.headers ≤ max_headers
    → handle_line s pos r line ≡ some r'
    → Step r r'
unfolding handle_line
handle_line-Step req_start pos r line e room h = request_line-Step r line e h
handle_line-Step req_headers pos r line e room h = header_line-Step pos r line e room h
handle_line-Step _ pos r line e room h = cc

Step-headers :
    {r s : HttpConn} → Step r s → length r.headers ≤ max_headers → length s.headers ≤ max_headers
Step-headers (request r m path query e) room = room
Step-headers (header r h n t e lt b) room = omega (arith, length-append r.headers (h ∷ []))
Step-headers (complete r e z) room = room
Step-headers (announce r pos e z) room = room

http_read_line-length :
    (s : Bytes) {line rest : Bytes}
    → http_read_line s ≡ some (line, rest)
    → length line + length rest + 2 ≡ length s
unfolding http_read_line behind_byte
http_read_line-length [] h = cc
http_read_line-length (c ∷ []) h = cc
http_read_line-length (c ∷ d ∷ s) {line} {rest} h = elim (Bool-cases (c == b'\r' && d == b'\n')) [
  | inl e ↦
      let h₁ = rw (http_read_line, e) at h in
      let cut : [] ≡ line = cc in
      let left : s ≡ rest = cc in omega (arith, ap length cut, ap length left)
  | inr e ↦ elim (Option-cases (http_read_line (d ∷ s))) [
    | inl n ↦ let h₁ = rw (http_read_line, e, n) at h in cc
    | inr ((l, u), f) ↦
        let h₁ = rw (http_read_line, e, f) at h in
        let cut : c ∷ l ≡ line = cc in
        let left : u ≡ rest = cc in
        omega (arith, http_read_line-length (d ∷ s) f, ap length cut, ap length left)
  ]
]

pub Reach-trans : {r s t : HttpConn} → Reach r s → Reach s t → Reach r t
Reach-trans (here r) b = b
Reach-trans (there e a) b = there e (Reach-trans a b)

-- How the loop over the lines ends: it waits for more, or a line is refused.
pub data Ending (r : HttpConn) : HttpConn → Type 0 where
  reading : {q : HttpConn} → Reach r q → Ending r q
  refused : {q : HttpConn} → Reach r q → Ending r (bad_request q)

there-Ending : {r s t : HttpConn} → Step r s → Ending s t → Ending r t
there-Ending e (reading a) = reading (there e a)
there-Ending e (refused a) = refused (there e a)

-- The loop over the lines ends on all bytes, and goes by steps up to the line that is refused.
pub read_lines-Ending :
    (fuel pos : ℕ) (unread : Bytes) (r : HttpConn)
    → length unread < fuel
    → length r.headers ≤ max_headers
    → Returns (read_lines fuel pos unread r) (λ x. Ending r x.0)
unfolding read_lines
read_lines-Ending zero pos unread r lt room = absurd (omega arith)
read_lines-Ending (suc fuel) pos unread r lt room = elim (Option-cases (http_read_line unread)) [
  | inl n ↦ rw (read_lines, n) (_, refl, reading (here r))
  | inr ((line, rest), e) ↦
      let at = pos + length line + 2 in
      elim (Option-cases (handle_line r.state at r (as_c_string line))) [
        | inl n ↦ rw (read_lines, e, n) (_, refl, refused (here r))
        | inr (q, f) ↦
            let step = handle_line-Step r.state at r (as_c_string line) refl room f in
            let (x, run, ending) =
              read_lines-Ending fuel at rest q (omega (arith, http_read_line-length unread e))
                (Step-headers step room) in
            rw (read_lines, e, f) (x, run, there-Ending step ending)
      ]
]
