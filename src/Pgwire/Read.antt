-- ===== src/Pgwire/Read.antt =====
-- Reading messages from the server: read_to, read_buf and read_msg of mugshot/pgwire.c. The socket is
-- the bytes that are still to come from it.
use plmuggin.Base.{
  ℕ, ◌+◌, ◌-◌, ◌*◌, ◌%◌, ◌^◌, ◌<◌, ◌≡◌, refl, ap, ◌∙◌, Bool, true, Option, none, some, ◌∷◌, ◌++◌,
  arith, leb, if◌then◌else◌, Bytes, length, length-append, take, drop, take-append, drop-append,
}
use plmuggin.Pgwire.Frames.{message, pg_ensure_buf_granted, pg_ensure_buf-text}
use plmuggin.Pgwire.{Conn, pg_ensure_buf, htonl}
use plmuggin.Str.{char_at}

-- PgMessage; `payload` is its `data`, where `read` begins too
pub record PgMessage : Type 0 where
  pub type : ℕ
  pub len : ℕ
  pub payload : ℕ

-- `recv` with MSG_WAITALL: the bytes and the rest, or `none` where the socket gives fewer
unfoldable pub read_to : ℕ → Bytes → Option (Bytes × Bytes)
read_to bytes socket =
    if leb bytes (length socket) then some (take bytes socket, drop bytes socket) else none

unfoldable pub read_buf : (ℕ → Bool) → ℕ → Conn → Bytes → Option (Conn × Bytes)
unfolding read_to pg_ensure_buf
read_buf alloc bytes c socket =
    let (room, c') = pg_ensure_buf alloc c bytes in
    if room
    then elim (read_to bytes socket) [
      | none ↦ none
      | some (s, rest) ↦ some (record c' { text = c'.text ++ s }, rest)
    ]
    else none

-- ntohl of four bytes
abbrev pub ntohl : Bytes → ℕ
ntohl s = ((char_at s 0 * 2 ^ 8 + char_at s 1) * 2 ^ 8 + char_at s 2) * 2 ^ 8 + char_at s 3

-- the payload of a message, of which the header is read
unfoldable pub read_payload : (ℕ → Bool) → Conn → ℕ → ℕ → Bytes → Option (PgMessage × Conn × Bytes)
unfolding read_buf
read_payload alloc c type len socket = elim (read_buf alloc len c socket) [
  | none ↦ none
  | some (c', rest) ↦ some (record { type = type; len = len; payload = length c.text }, c', rest)
]

-- read_msg; the length is an uint32_t
unfoldable pub read_msg : (ℕ → Bool) → Conn → Bytes → Option (PgMessage × Conn × Bytes)
unfolding read_to read_payload
read_msg alloc c socket = elim (read_to 5 socket) [
  | none ↦ none
  | some (hdr, rest) ↦
      read_payload alloc c (char_at hdr 0) ((ntohl (drop 1 hdr) + 2 ^ 32 - 4) % 2 ^ 32) rest
]

pub ntohl-htonl : (n : ℕ) → n < 2 ^ 32 → ntohl (htonl n) ≡ n
unfolding char_at
ntohl-htonl n h = omega arith

read_to-append : (s rest : Bytes) → read_to (length s) (s ++ rest) ≡ some (s, rest)
unfolding read_to
read_to-append s rest =
    let enough : leb (length s) (length (s ++ rest)) ≡ true =
      ground (arith, length-append s rest) in
    rw (enough, take-append s rest, drop-append s rest) refl

read_buf-append :
    (alloc : ℕ → Bool) (c : Conn) (s rest : Bytes)
    → ((n : ℕ) → alloc n ≡ true)
    → (size : ℕ) × (read_buf alloc (length s) c (s ++ rest)
        ≡ some (record { buf_size = size; text = c.text ++ s }, rest))
unfolding read_buf
read_buf-append alloc c s rest granted = (
  (pg_ensure_buf alloc c (length s)).1.buf_size,
  rw
      (
        pg_ensure_buf_granted alloc c (length s) granted,
        read_to-append s rest,
        pg_ensure_buf-text alloc c (length s),
      )
      refl,
)

read_payload-append :
    (alloc : ℕ → Bool) (c : Conn) (type : ℕ) (s rest : Bytes)
    → ((n : ℕ) → alloc n ≡ true)
    → (size : ℕ) × (read_payload alloc c type (length s) (s ++ rest)
        ≡ some (
          record { type = type; len = length s; payload = length c.text },
          record { buf_size = size; text = c.text ++ s },
          rest,
        ))
unfolding read_payload
read_payload-append alloc c type s rest granted =
    let (size, run) = read_buf-append alloc c s rest granted in (size, rw (run, read_payload) refl)

-- What a message was put as is read back, if its length fits 32 bits and no memory is
-- refused: read_msg gives its type, the length of its payload and the place where the
-- payload stands behind the text of the buffer, and takes no more from the socket.
pub read_msg-message :
    (alloc : ℕ → Bool) (c : Conn) (type : ℕ) (payload rest : Bytes)
    → ((n : ℕ) → alloc n ≡ true)
    → length payload + 4 < 2 ^ 32
    → (size : ℕ) × (read_msg alloc c (message type payload ++ rest)
        ≡ some (
          record { type = type; len = length payload; payload = length c.text },
          record { buf_size = size; text = c.text ++ payload },
          rest,
        ))
unfolding read_msg char_at
read_msg-message alloc c type payload rest granted short =
    let (size, run) = read_payload-append alloc c type payload rest granted in
    let hdr : read_to 5 (message type payload ++ rest)
        ≡ some (type ∷ htonl (4 + length payload), payload ++ rest) =
      read_to-append (type ∷ htonl (4 + length payload)) (payload ++ rest) in
    let len : (ntohl (htonl (4 + length payload)) + 2 ^ 32 - 4) % 2 ^ 32 ≡ length payload =
      omega (arith, ntohl-htonl (4 + length payload) (omega arith)) in
    (size, rw (hdr, read_msg) (ap (λ n. read_payload alloc c type n (payload ++ rest)) len ∙ run))
