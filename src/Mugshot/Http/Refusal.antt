-- ===== src/Mugshot/Http/Refusal.antt =====
-- The requests that _mugshot_http_read of mugshot/mugshot.c refuses because of what stands behind their
-- header.
use plmuggin.Base.{
  ℕ, suc, ◌≤◌, ◌≡◌, refl, ap, ◌∙◌, Option, none, some, List, [], Bytes, length, All, Bool-cases,
  inl, inr, ◌==◌,
}
use plmuggin.Mugshot.Http.Headers.{IsText, IsHeader}
use plmuggin.Mugshot.Http.Line.{handle_line, end_of_headers, max_headers}
use plmuggin.Mugshot.Http.Reader.{read_lines, finish_read, http_read, bad_request}
use plmuggin.Mugshot.Http.Target.{IsPath, IsQuery}
use plmuggin.Mugshot.Http.Request.{request_text, asked, read_lines-request}
use plmuggin.Mugshot.Http.{
  Realloc, Method, req_start, err, HttpConn, as_c_string, http_read_line, http_fail,
}
use plmuggin.Result.{ok, Returns, ◌>>=◌}

handle_line-ended :
    (pos at : ℕ) (r : HttpConn) (line : Bytes)
    → handle_line (end_of_headers pos r).state at (end_of_headers pos r) line ≡ none
unfolding handle_line end_of_headers
handle_line-ended pos at r line = elim (Bool-cases (r.content_length == 0)) [
  | inl e ↦ rw e refl
  | inr e ↦ rw e refl
]

end_of_headers-sent : (pos : ℕ) (r : HttpConn) → (end_of_headers pos r).sent ≡ r.sent
unfolding end_of_headers
end_of_headers-sent pos r = elim (Bool-cases (r.content_length == 0)) [
  | inl e ↦ rw e refl
  | inr e ↦ rw e refl
]

-- A printed request is refused, with state and answer of an error, where the bytes that came with its
-- header go on with a whole line: the body is then read as if it was a header.
pub http_read-line_behind :
    (realloc : ℕ → Realloc) (arrivals : List Bytes) (pos : ℕ) (r : HttpConn) (m : Method)
    (path : Bytes) (query : Option Bytes) (version : Bytes) (hs : List (Bytes × Bytes))
    (content line rest : Bytes)
    → r.state ≡ req_start
    → r.headers ≡ []
    → IsPath path
    → IsQuery query
    → IsText version
    → All IsHeader hs
    → length hs ≤ max_headers
    → http_read_line content ≡ some (line, rest)
    → Returns
        (http_read realloc arrivals pos (request_text m path query version hs content) r)
        (λ x. (x.0.state ≡ err) × (x.0.sent ≡ (bad_request r).sent))
unfolding http_read http_fail read_lines finish_read
http_read-line_behind realloc arrivals pos r m path query version hs content line rest start fresh p
      q v hh room e =
    let (at, f, run) =
      read_lines-request pos r m path query version hs content start fresh p q v hh room in
    let ended = end_of_headers at (asked r m path query hs) in
    let refused : read_lines (suc f) at content ended ≡ ok (bad_request ended, rest) =
      rw (read_lines, e, handle_line-ended at _ (asked r m path query hs) (as_c_string line))
        refl in
    (
      _,
      ap (λ l. l >>= λ y. finish_read realloc arrivals y.0.state y) (run ∙ refused),
      (refl, rw (end_of_headers-sent at (asked r m path query hs)) refl),
    )
