-- ===== src/Mugshot/Http/Outcome.antt =====
-- How a call of _mugshot_http_read of mugshot/mugshot.c ends, on all bytes and with everything that can
-- arrive later.
use plmuggin.Base.{
  ℕ, zero, suc, ◌+◌, ◌-◌, ◌≤◌, ◌<◌, ◌≡◌, ◌≢◌, refl, ◌∙◌, Bool, true, false, Option, none, some,
  List, [], ◌∷◌, arith, ltb, ◌==◌, Bytes, length, length-append, All, Bool-cases, inl, inr, ◌⊎◌,
}
use plmuggin.Mugshot.Http.Line.{max_headers, max_body}
use plmuggin.Mugshot.Http.Reach.{
  Step, request, header, complete, announce, Reach, here, there, Ending, reading, refused,
  read_lines-Ending,
}
use plmuggin.Mugshot.Http.Reader.{
  bad_request, recv_body, received, grow_buffer, read_body, finish_read, http_read,
}
use plmuggin.Mugshot.Http.{
  Realloc, no_memory, in_place, moved, application_octet_stream, ConnState, req_start, req_headers,
  req_body, req_done, res_status, res_body_started, res_done, ws_handshake, ws_idle, ws_read,
  ws_write, ws_closed, err, HttpConn, http_fail,
}
use plmuggin.Result.{ok, Returns}

-- recv_body ends where the peer does not close the connection.
recv_body-Returns :
    (arrivals : List Bytes) (n : ℕ) (behind : Bytes)
    → All (λ a. a ≢ []) arrivals
    → (o : Option Bytes) × (recv_body arrivals n behind ≡ ok o)
unfolding recv_body
recv_body-Returns arrivals zero behind h = (_, refl)
recv_body-Returns [] (suc n) behind h = (_, refl)
recv_body-Returns ([] ∷ arrivals) (suc n) behind (h, hs) = absurd (h refl)
recv_body-Returns ((c ∷ a) ∷ arrivals) (suc n) behind (h, hs) =
    let some_came : (suc (length a) == 0) ≡ false = ground arith in
    rw some_came (recv_body-Returns arrivals _ _ hs)

-- A connection from which a request is read.
abbrev pub cleared : HttpConn → HttpConn
cleared r = record r { content_length = 0; body_start = 0; body_type = application_octet_stream }

-- What a call leaves of the connection `r`.
pub data Outcome (r : HttpConn) : HttpConn → Type 0 where
  -- the header is not complete, or there is no body
  without_body : {q : HttpConn} → Reach (cleared r) q → q.state ≢ req_body → Outcome r q
  -- the body is in the buffer, which has room for it
  with_body :
      {q : HttpConn} (capacity : ℕ) (dangling : Bool) (bytes : Bytes)
      → Reach (cleared r) q
      → q.state ≡ req_body
      → q.body_start + q.content_length ≤ capacity
      → (q.dangling ≡ dangling) ⊎ (q.buf_capacity < capacity)
      → Outcome r (record q {
        behind = bytes;
        state = req_done;
        buf_capacity = capacity;
        dangling = dangling;
      })
  -- a line was refused, or the body could not be read
  failed :
      {q : HttpConn} (capacity : ℕ) (dangling : Bool)
      → Reach (cleared r) q
      → Outcome r (bad_request (record q { buf_capacity = capacity; dangling = dangling }))

received-Outcome :
    (r q : HttpConn) (capacity : ℕ) (dangling : Bool) (o : Option Bytes)
    → Reach (cleared r) q
    → q.state ≡ req_body
    → q.body_start + q.content_length ≤ capacity
    → (q.dangling ≡ dangling) ⊎ (q.buf_capacity < capacity)
    → Returns
        (received (record q { buf_capacity = capacity; dangling = dangling }) (ok o))
        (Outcome r)
unfolding received
received-Outcome r q capacity dangling none a s le moves = (_, refl, failed capacity dangling a)
received-Outcome r q capacity dangling (some bytes) a s le moves =
    (_, refl, with_body capacity dangling bytes a s le moves)

grow_buffer-Outcome :
    (given : Realloc) (r q : HttpConn) (size : ℕ) (o : Option Bytes)
    → Reach (cleared r) q
    → q.state ≡ req_body
    → q.body_start + q.content_length ≤ size
    → q.buf_capacity < size
    → Returns (grow_buffer given q size (ok o)) (Outcome r)
unfolding grow_buffer
grow_buffer-Outcome no_memory r q size o a s le lt = (_, refl, failed size q.dangling a)
grow_buffer-Outcome in_place r q size o a s le lt =
    received-Outcome r q size q.dangling o a s le (inl refl)
grow_buffer-Outcome moved r q size o a s le lt = received-Outcome r q size true o a s le (inr lt)

read_body-Outcome :
    (realloc : ℕ → Realloc) (arrivals : List Bytes) (r q : HttpConn) (unread : Bytes)
    → All (λ a. a ≢ []) arrivals
    → Reach (cleared r) q
    → q.state ≡ req_body
    → Returns (read_body realloc arrivals q unread) (Outcome r)
unfolding read_body
read_body-Outcome realloc arrivals r q unread open_peer a s =
    let size = q.body_start + q.content_length in
    let (o, run) = recv_body-Returns arrivals (q.content_length - length unread) [] open_peer in
    elim (Bool-cases (ltb q.buf_capacity size)) [
      | inl grow ↦
          rw (grow, run)
            (grow_buffer-Outcome (realloc size) r q size o a s (omega arith) (ground arith))
      | inr fits ↦
          rw (fits, run)
            (received-Outcome r q q.buf_capacity q.dangling o a s (ground arith) (inl refl))
    ]

finish_read-state :
    (realloc : ℕ → Realloc) (arrivals : List Bytes) (r q : HttpConn) (unread : Bytes)
    (s : ConnState)
    → All (λ a. a ≢ []) arrivals
    → Reach (cleared r) q
    → q.state ≡ s
    → Returns (finish_read realloc arrivals s (q, unread)) (λ x. Outcome r x.0)
unfolding finish_read
finish_read-state realloc arrivals r q unread req_body open_peer a e =
    let (q', run, outcome) = read_body-Outcome realloc arrivals r q unread open_peer a e in
    rw run (_, refl, outcome)
finish_read-state realloc arrivals r q unread req_start open_peer a e =
    (_, refl, without_body a (λ f. cc))
finish_read-state realloc arrivals r q unread req_headers open_peer a e =
    (_, refl, without_body a (λ f. cc))
finish_read-state realloc arrivals r q unread req_done open_peer a e =
    (_, refl, without_body a (λ f. cc))
finish_read-state realloc arrivals r q unread res_status open_peer a e =
    (_, refl, without_body a (λ f. cc))
finish_read-state realloc arrivals r q unread res_body_started open_peer a e =
    (_, refl, without_body a (λ f. cc))
finish_read-state realloc arrivals r q unread res_done open_peer a e =
    (_, refl, without_body a (λ f. cc))
finish_read-state realloc arrivals r q unread ws_handshake open_peer a e =
    (_, refl, without_body a (λ f. cc))
finish_read-state realloc arrivals r q unread ws_idle open_peer a e =
    (_, refl, without_body a (λ f. cc))
finish_read-state realloc arrivals r q unread ws_read open_peer a e =
    (_, refl, without_body a (λ f. cc))
finish_read-state realloc arrivals r q unread ws_write open_peer a e =
    (_, refl, without_body a (λ f. cc))
finish_read-state realloc arrivals r q unread ws_closed open_peer a e =
    (_, refl, without_body a (λ f. cc))
finish_read-state realloc arrivals r q unread err open_peer a e =
    (_, refl, without_body a (λ f. cc))

finish_read-Outcome :
    (realloc : ℕ → Realloc) (arrivals : List Bytes) (r q : HttpConn) (unread : Bytes)
    → All (λ a. a ≢ []) arrivals
    → Ending (cleared r) q
    → Returns (finish_read realloc arrivals q.state (q, unread)) (λ x. Outcome r x.0)
unfolding finish_read http_fail
finish_read-Outcome realloc arrivals r q unread open_peer (reading a) =
    finish_read-state realloc arrivals r q unread q.state open_peer a refl
finish_read-Outcome realloc arrivals r _ unread open_peer (refused {q} a) =
    (_, refl, failed q.buf_capacity q.dangling a)

pub http_read-Outcome :
    (realloc : ℕ → Realloc) (arrivals : List Bytes) (pos : ℕ) (unread : Bytes) (r : HttpConn)
    → All (λ a. a ≢ []) arrivals
    → length r.headers ≤ max_headers
    → Returns (http_read realloc arrivals pos unread r) (λ x. Outcome r x.0)
unfolding http_read
http_read-Outcome realloc arrivals pos unread r open_peer room =
    let ((q, rest), run, ending) =
      read_lines-Ending (suc (length unread)) pos unread (cleared r) (omega arith) room in
    rw run (finish_read-Outcome realloc arrivals r q rest open_peer ending)

-- The bounds of a request.
pub record IsBounded (r : HttpConn) : Type 0 where
  pub headers : length r.headers ≤ max_headers
  pub content_length : r.content_length ≤ max_body

Step-IsBounded : {r s : HttpConn} → Step r s → IsBounded r → IsBounded s
Step-IsBounded (request r m path query e) b = record {
  headers = b.headers;
  content_length = b.content_length;
}
Step-IsBounded (header r h n t e lt (inl small)) b = record {
  headers = omega (arith, length-append r.headers (h ∷ []));
  content_length = small;
}
Step-IsBounded (header r h n t e lt (inr same)) b = record {
  headers = omega (arith, length-append r.headers (h ∷ []));
  content_length = omega (arith, b.content_length);
}
Step-IsBounded (complete r e z) b = record {
  headers = b.headers;
  content_length = b.content_length;
}
Step-IsBounded (announce r pos e z) b = record {
  headers = b.headers;
  content_length = b.content_length;
}

Step-sent : {r s : HttpConn} → Step r s → s.sent ≡ r.sent
Step-sent (request r m path query e) = refl
Step-sent (header r h n t e lt b) = refl
Step-sent (complete r e z) = refl
Step-sent (announce r pos e z) = refl

Reach-IsBounded : {r s : HttpConn} → Reach r s → IsBounded r → IsBounded s
Reach-IsBounded (here r) b = b
Reach-IsBounded (there e a) b = Reach-IsBounded a (Step-IsBounded e b)

Reach-sent : {r s : HttpConn} → Reach r s → s.sent ≡ r.sent
Reach-sent (here r) = refl
Reach-sent (there e a) = Reach-sent a ∙ Step-sent e

-- Every outcome is within the bounds, and answers at most once.
Outcome-IsBounded :
    (r q : HttpConn)
    → Outcome r q
    → length r.headers ≤ max_headers
    → IsBounded q × ((q.sent ≡ r.sent) ⊎ ((q.state ≡ err) × (q.sent ≡ (bad_request r).sent)))
unfolding http_fail
Outcome-IsBounded r q (without_body a s) room = (
  Reach-IsBounded a (record { headers = room; content_length = omega arith }),
  inl (Reach-sent a),
)
Outcome-IsBounded r _ (with_body capacity dangling bytes a s le moves) room =
    let b = Reach-IsBounded a (record { headers = room; content_length = omega arith }) in
    (record { headers = b.headers; content_length = b.content_length }, inl (Reach-sent a))
Outcome-IsBounded r _ (failed {q} capacity dangling a) room =
    let b = Reach-IsBounded a (record { headers = room; content_length = omega arith }) in
    (
      record { headers = b.headers; content_length = b.content_length },
      inr (refl, rw (Reach-sent a) refl),
    )

-- What _mugshot_http_read leaves has at most 64 headers and a body of at most 2 ^ 23 bytes, whatever
-- arrives from a peer that does not close the connection. It has sent nothing, or the one answer of a
-- refused request, and then the state is that of an error.
pub http_read-IsBounded :
    (realloc : ℕ → Realloc) (arrivals : List Bytes) (pos : ℕ) (unread : Bytes) (r : HttpConn)
    → All (λ a. a ≢ []) arrivals
    → length r.headers ≤ max_headers
    → Returns (http_read realloc arrivals pos unread r) (λ x.
      IsBounded x.0
      × ((x.0.sent ≡ r.sent) ⊎ ((x.0.state ≡ err) × (x.0.sent ≡ (bad_request r).sent))))
http_read-IsBounded realloc arrivals pos unread r open_peer room =
    let (x, run, outcome) = http_read-Outcome realloc arrivals pos unread r open_peer room in
    (x, run, Outcome-IsBounded r x.0 outcome room)
