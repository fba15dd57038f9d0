-- ===== src/Mugshot/Http/Reader.antt =====
-- _mugshot_http_read of mugshot/mugshot.c: the loop over the lines, and then the body.
use plmuggin.Base.{
  ℕ, zero, suc, ◌+◌, ◌-◌, true, Option, none, some, List, [], ◌∷◌, ◌++◌, ltb, ◌==◌, if◌then◌else◌,
  Bytes, codes, length, take, drop,
}
use plmuggin.Mugshot.Http.Line.{handle_line}
use plmuggin.Mugshot.Http.{
  application_octet_stream, Realloc, no_memory, in_place, moved, ConnState, req_body, req_done,
  HttpConn, as_c_string, http_read_line, http_fail,
}
use plmuggin.Result.{Result, ok, fail, endless, out_of_fuel, ◌>>=◌}

abbrev pub bad_request : HttpConn → HttpConn
bad_request r = http_fail r 400 (codes "Bad Request")

-- the `while` loop: the connection and the bytes that are left
unfoldable pub read_lines : ℕ → ℕ → Bytes → HttpConn → Result (HttpConn × Bytes)
read_lines zero read_pos unread r = fail out_of_fuel
read_lines (suc fuel) read_pos unread r = elim (http_read_line unread) [
  | none ↦ ok (r, unread)
  | some (line, rest) ↦
      let pos = read_pos + length line + 2 in
      elim (handle_line r.state pos r (as_c_string line)) [
        | none ↦ ok (bad_request r, rest)
        | some r' ↦ read_lines fuel pos rest r'
      ]
]

-- The loop of recv over what arrives at the socket, one list for each time that data is there; with
-- none left recv gives -1. Every call writes to the same place. A recv of 0 bytes, the end of the
-- stream, is what every later call gives as well.
unfoldable pub recv_body : List Bytes → ℕ → Bytes → Result (Option Bytes)
recv_body arrivals zero behind = ok (some behind)
recv_body [] (suc n) behind = ok none
recv_body (chunk ∷ arrivals) (suc n) behind =
    let got = take (suc n) chunk in
    let rest = recv_body arrivals (suc n - length got) (got ++ drop (length got) behind) in
    if length chunk == 0 then fail endless else rest

unfoldable pub received : HttpConn → Result (Option Bytes) → Result HttpConn
received r (fail e) = fail e
received r (ok none) = ok (bad_request r)
received r (ok (some bytes)) = ok (record r { behind = bytes; state = req_done })

-- the buffer where realloc was called for it, with what the loop of recv then gives; the pointers
-- into the buffer are not set anew
unfoldable pub grow_buffer : Realloc → HttpConn → ℕ → Result (Option Bytes) → Result HttpConn
unfolding received
grow_buffer no_memory r size arrived = ok (bad_request (record r { buf_capacity = size }))
grow_buffer in_place r size arrived = received (record r { buf_capacity = size }) arrived
grow_buffer moved r size arrived =
    received (record r { buf_capacity = size; dangling = true }) arrived

-- the body, with the bytes of it that came with the header; `realloc` says what happens to a block
-- that is to have a size
unfoldable pub read_body : (ℕ → Realloc) → List Bytes → HttpConn → Bytes → Result HttpConn
unfolding recv_body received grow_buffer
read_body realloc arrivals r unread =
    let size = r.body_start + r.content_length in
    let missing = r.content_length - length unread in
    if ltb r.buf_capacity size
    then grow_buffer (realloc size) r size (recv_body arrivals missing [])
    else received r (recv_body arrivals missing [])

unfoldable pub finish_read :
    (ℕ → Realloc) → List Bytes → ConnState → HttpConn × Bytes → Result (HttpConn × Bytes)
unfolding read_body
finish_read realloc arrivals req_body (r, unread) =
    read_body realloc arrivals r unread >>= λ r'. ok (r', unread)
finish_read realloc arrivals _ (r, unread) = ok (r, unread)

-- _mugshot_http_read on the bytes from read_pos to buf_len
unfoldable pub http_read :
    (ℕ → Realloc) → List Bytes → ℕ → Bytes → HttpConn → Result (HttpConn × Bytes)
unfolding read_lines finish_read
http_read realloc arrivals read_pos unread r =
    read_lines (suc (length unread)) read_pos unread
      (record r { content_length = 0; body_start = 0; body_type = application_octet_stream })
    >>= λ x. finish_read realloc arrivals x.0.state x

-- the content of the body in the buffer, the slice from body_start on
unfoldable pub body : HttpConn → Bytes → Bytes
body r unread = take r.content_length (unread ++ r.behind)
