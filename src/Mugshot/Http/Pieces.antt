-- ===== src/Mugshot/Http/Pieces.antt =====
-- The body, in _mugshot_http_read of mugshot/mugshot.c: it came with the header, or its rest arrives at once.
use plmuggin.Base.{
  ℕ, suc, ◌+◌, ◌-◌, ◌<◌, ◌≡◌, refl, sym, ap, ◌∙◌, false, some, [], ◌∷◌, ◌++◌, append-nil, arith,
  ltb, ◌==◌, Bytes, length, take, length-append, take-append, Bool-cases, inl, inr,
}
use plmuggin.Mugshot.Http.Line.{end_of_headers}
use plmuggin.Mugshot.Http.Reader.{recv_body, received, grow_buffer, read_body, finish_read, body}
use plmuggin.Mugshot.Http.{Realloc, in_place, req_body, req_done, HttpConn}
use plmuggin.Result.{ok, Returns}

length-zero : (s : Bytes) → length s ≡ 0 → s ≡ []
length-zero [] e = refl
length-zero (c ∷ s) e = absurd (omega arith)

take-length : (s : Bytes) → take (length s) s ≡ s
take-length s = ap (take (length s)) (sym (append-nil s)) ∙ take-append s []

-- The piece that was missing arrives.
recv_body-piece : (piece : Bytes) → recv_body (piece ∷ []) (length piece) [] ≡ ok (some piece)
unfolding recv_body
recv_body-piece [] = refl
recv_body-piece (c ∷ piece) =
    let n = length piece in
    let more : (suc n == 0) ≡ false = ground arith in
    let whole : take n piece ≡ piece = take-length piece in
    let over : suc n - suc n ≡ 0 = omega arith in rw (more, whole, over, append-nil) refl

read_body-piece :
    (realloc : ℕ → Realloc) (r : HttpConn) (first second : Bytes)
    → ((n : ℕ) → r.buf_capacity < n → realloc n ≡ in_place)
    → length first + length second ≡ r.content_length
    → Returns (read_body realloc (second ∷ []) r first) (λ r'.
      (capacity : ℕ) × (r'
        ≡ record r { behind = second; state = req_done; buf_capacity = capacity }))
unfolding read_body received grow_buffer
read_body-piece realloc r first second granted e =
    let missing : r.content_length - length first ≡ length second = omega arith in
    elim (Bool-cases (ltb r.buf_capacity (r.body_start + r.content_length))) [
      | inl grow ↦
          let stays : realloc (r.body_start + r.content_length) ≡ in_place =
            granted (r.body_start + r.content_length) (ground arith) in
          rw (grow, stays, missing, recv_body-piece second) (_, refl, (_, refl))
      | inr fits ↦ rw (fits, missing, recv_body-piece second) (_, refl, (_, refl))
    ]

-- The connection `x` is `r` with the body read.
pub record Completes (r : HttpConn) (content : Bytes) (x : HttpConn × Bytes) : Type 0 where
  pub method : x.0.method ≡ r.method
  pub path : x.0.path ≡ r.path
  pub query_parameters : x.0.query_parameters ≡ r.query_parameters
  pub headers : x.0.headers ≡ r.headers
  pub body_type : x.0.body_type ≡ r.body_type
  pub state : x.0.state ≡ req_done
  pub dangling : x.0.dangling ≡ r.dangling
  pub body : body x.0 x.1 ≡ content

-- A body of the declared length is complete, where nothing was missing or one more piece came.
pub finish_read-piece :
    (realloc : ℕ → Realloc) (p : ℕ) (r : HttpConn) (first second : Bytes)
    → ((n : ℕ) → r.buf_capacity < n → realloc n ≡ in_place)
    → length first + length second ≡ r.content_length
    → Returns
        (finish_read realloc (second ∷ []) (end_of_headers p r).state (end_of_headers p r, first))
        (Completes r (first ++ second))
unfolding finish_read end_of_headers body
finish_read-piece realloc p r first second granted e = elim (Bool-cases (r.content_length == 0)) [
  | inl z ↦
      let none_left : r.content_length ≡ 0 = ground arith in
      let nothing : take r.content_length (first ++ r.behind) ≡ first ++ second =
        ap (λ n. take n (first ++ r.behind)) none_left
        ∙ sym (length-zero (first ++ second) (omega (arith, length-append first second))) in
      rw z (
        _,
        refl,
        record {
          method = refl;
          path = refl;
          query_parameters = refl;
          headers = refl;
          body_type = refl;
          state = refl;
          dangling = refl;
          body = nothing;
        },
      )
  | inr some_left ↦
      let (r', run, (capacity, same)) =
        read_body-piece realloc (record r { state = req_body; body_start = p }) first second granted
          e in
      let whole : take r.content_length (first ++ second) ≡ first ++ second =
        ap (λ n. take n (first ++ second)) (omega (arith, length-append first second))
        ∙ take-length (first ++ second) in
      rw (some_left, run, same)
        (
          _,
          refl,
          record {
            method = refl;
            path = refl;
            query_parameters = refl;
            headers = refl;
            body_type = refl;
            state = refl;
            dangling = refl;
            body = whole;
          },
        )
]
