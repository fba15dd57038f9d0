-- ===== src/Pgwire/Session/Messages.antt =====
-- One message for expect_msg of mugshot/pgwire.c, from a server that answers whole: a notice, an error, or
-- the message that is waited for.
use plmuggin.Base.{
  ℕ, suc, ◌+◌, ◌-◌, ◌^◌, ◌≤◌, ◌<◌, ◌≡◌, ◌≢◌, ◌⊎◌, refl, ap, ◌∙◌, true, false, not, ◌||◌, Option,
  none, some, List, [], ◌∷◌, ◌++◌, arith, ltb, leb, ◌==◌, Bytes, length, length-append, take-append,
  drop-append, inl, inr,
}
use plmuggin.Pgwire.Frames.{message, pg_ensure_buf-text, pg_ensure_buf_granted}
use plmuggin.Pgwire.Read.{ntohl-htonl}
use plmuggin.Pgwire.Session.{
  PgConn, System, read_count, read, read_rest, handle_notice, read_fields, take_message, on_message,
  expect_msg,
}
use plmuggin.Pgwire.{htonl, pg_ensure_buf}
use plmuggin.Result.{ok, ◌>>=◌}
use plmuggin.Str.{char_at}
use plmuggin.Pgwire.Session.Fields.{
  Field, fields_text, AreFields, report, scan_notice-fields_text, error_fields-report,
  length-fields_text,
}

expected_size_lem :
    (expected_size : Option ℕ) (size : ℕ)
    → (expected_size ≡ none) ⊎ (expected_size ≡ some size)
    → elim expected_size [ none ↦ false | some n ↦ not (size == n) ] ≡ false
expected_size_lem expected_size size (inl e) = rw e refl
expected_size_lem expected_size size (inr e) =
    let same : (size == size) ≡ true = ground arith in rw (e, same) refl

-- A system that gives all the memory, and all the bytes that a read asks for and that are to come.
pub record IsPrompt (sys : System) : Type 0 where
  pub granted : (n : ℕ) → sys.alloc n ≡ true
  pub whole : (socket : Bytes) (n : ℕ) → n ≤ sys.read_bytes socket n

module _ (sys : System) (prompt : IsPrompt sys) where
  read-append : (s rest : Bytes) → read sys (length s) (s ++ rest) ≡ (true, s, rest)
  unfolding read
  read-append s rest =
      let n : read_count sys (s ++ rest) (length s) ≡ length s =
        ground (arith, prompt.whole (s ++ rest) (length s), length-append s rest) in
      let same : (length s == length s) ≡ true = ground arith in
      rw (n, same, take-append s rest, drop-append s rest) refl

  read_rest-append :
      (s : Bytes) (c : PgConn) (rest : Bytes)
      → (size : ℕ) × (read_rest sys (length s) c (s ++ rest)
          ≡ (true, s, record c { conn = record { buf_size = size; text = c.conn.text } }, rest))
  unfolding read_rest
  read_rest-append s c rest = (
    (pg_ensure_buf sys.alloc c.conn (length s)).1.buf_size,
    rw (read-append s rest, pg_ensure_buf_granted sys.alloc c.conn (length s) prompt.granted)
        (ap
          (λ t. (
            true,
            s,
            record c {
              conn = record {
                buf_size = (pg_ensure_buf sys.alloc c.conn (length s)).1.buf_size;
                text = t;
              };
            },
            rest,
          ))
          (pg_ensure_buf-text sys.alloc c.conn (length s))),
  )

  -- the five bytes of a header
  header-message :
      (type : ℕ) (payload rest : Bytes)
      → read sys 5 (message type payload ++ rest)
        ≡ (true, type ∷ htonl (4 + length payload), payload ++ rest)
  header-message type payload rest =
      read-append (type ∷ htonl (4 + length payload)) (payload ++ rest)

  handle_notice-fields_text :
      (fs : List Field) (c : PgConn) (rest : Bytes)
      → AreFields fs
      → (size : ℕ) × (handle_notice sys (4 + length (fields_text fs)) c (fields_text fs ++ rest)
          ≡ ok (true, record c { conn = record { buf_size = size; text = c.conn.text } }, rest))
  unfolding handle_notice
  handle_notice-fields_text fs c rest (h, short) =
      let (size, run) = read_rest-append (fields_text fs) c rest in
      let bounds : (ltb (4 + length (fields_text fs)) 4
            || leb (2 ^ 31) (4 + length (fields_text fs)))
          ≡ false =
        ground arith in
      let less : 4 + length (fields_text fs) - 4 ≡ length (fields_text fs) = omega arith in
      (
        size,
        rw (bounds, less, run, scan_notice-fields_text fs (length (fields_text fs)) h (omega arith))
            refl,
      )

  read_fields-fields_text :
      (fs : List Field) (c : PgConn) (rest : Bytes)
      → AreFields fs
      → (size : ℕ) × (read_fields sys (4 + length (fields_text fs)) c (fields_text fs ++ rest)
          ≡ ok (
            true,
            record c {
              conn = record { buf_size = size; text = c.conn.text };
              error = report fs c.error;
            },
            rest,
          ))
  unfolding read_fields
  read_fields-fields_text fs c rest (h, short) =
      let (size, run) = read_rest-append (fields_text fs) c rest in
      let bounds : (leb (4 + length (fields_text fs)) 4
            || leb (2 ^ 31) (4 + length (fields_text fs)))
          ≡ false =
        ground (arith, length-fields_text fs) in
      let less : 4 + length (fields_text fs) - 4 ≡ length (fields_text fs) = omega arith in
      (
        size,
        rw
            (
              bounds,
              less,
              run,
              error_fields-report fs (length (fields_text fs)) c.error h (omega arith),
            )
            refl,
      )

  -- A message that expect_msg waits for, whatever its type but those of notices and errors.
  take_message-message :
      (type : ℕ) (expected_size : Option ℕ) (payload : Bytes) (c : PgConn) (rest : Bytes)
      → length payload + 4 < 2 ^ 31
      → (expected_size ≡ none) ⊎ (expected_size ≡ some (4 + length payload))
      → (size : ℕ) × (take_message sys type expected_size type
            (4 + length payload)
            c
            (payload ++ rest)
          ≡ (true, record c { conn = record { buf_size = size; text = c.conn.text } }, rest))
  unfolding take_message
  take_message-message type expected_size [] c rest short h =
      let same : (type == type) ≡ true = ground arith in
      (c.conn.buf_size, rw (same, expected_size_lem expected_size 4 h) refl)
  take_message-message type expected_size (x ∷ s) c rest short h =
      let same : (type == type) ≡ true = ground arith in
      let (size, run) = read_rest-append (x ∷ s) c rest in
      let bounds : (leb (4 + length (x ∷ s)) 4 || leb (2 ^ 31) (4 + length (x ∷ s))) ≡ false =
        ground arith in
      let less : 4 + length (x ∷ s) - 4 ≡ length (x ∷ s) = omega arith in
      (
        size,
        rw (same, expected_size_lem expected_size (4 + length (x ∷ s)) h, bounds, less, run) refl,
      )

  module _ (fuel msg : ℕ) (expected_size : Option ℕ) where
    expect_msg-header :
        (type : ℕ) (payload : Bytes) (c : PgConn) (rest : Bytes)
        → length payload + 4 < 2 ^ 31
        → expect_msg (suc fuel) sys msg expected_size c (message type payload ++ rest)
          ≡ on_message
              (expect_msg fuel sys)
              sys
              msg
              expected_size
              type
              (4 + length payload)
              c
              (payload ++ rest)
    unfolding expect_msg char_at
    expect_msg-header type payload c rest short = rw (header-message type payload rest) (
        ap (λ n. on_message (expect_msg fuel sys) sys msg expected_size type n c (payload ++ rest))
          (ntohl-htonl (4 + length payload) (omega arith)))

    -- A notice is printed and passed over.
    pub expect_msg-notice :
        (fs : List Field) (c : PgConn) (rest : Bytes)
        → AreFields fs
        → (size : ℕ) × (expect_msg
              (suc fuel)
              sys
              msg
              expected_size
              c
              (message b'N' (fields_text fs) ++ rest)
            ≡ expect_msg fuel sys msg expected_size
                (record c { conn = record { buf_size = size; text = c.conn.text } })
                rest)
    unfolding on_message
    expect_msg-notice fs c rest h =
        let (size, run) = handle_notice-fields_text fs c rest h in
        (
          size,
          expect_msg-header b'N' (fields_text fs) c rest (omega (arith, h.1))
              ∙ rw (on_message, run) refl,
        )

    -- An error is read, and ReadyForQuery behind it.
    pub expect_msg-error_message :
        (fs : List Field) (c : PgConn) (rest : Bytes)
        → AreFields fs
        → (size : ℕ) × (expect_msg
              (suc fuel)
              sys
              msg
              expected_size
              c
              (message b'E' (fields_text fs) ++ rest)
            ≡ (expect_msg fuel sys b'Z'
                  (some 5)
                  (record c {
                    conn = record { buf_size = size; text = c.conn.text };
                    error = report fs c.error;
                  })
                  rest
                >>= λ r. ok (false, record r.1 { close = not (r.0) }, r.2)))
    unfolding on_message
    expect_msg-error_message fs c rest h =
        let (size, run) = read_fields-fields_text fs c rest h in
        (
          size,
          expect_msg-header b'E' (fields_text fs) c rest (omega (arith, h.1))
              ∙ rw (on_message, run) refl,
        )

    pub expect_msg-message :
        (payload : Bytes) (c : PgConn) (rest : Bytes)
        → msg ≢ b'N'
        → msg ≢ b'E'
        → length payload + 4 < 2 ^ 31
        → (expected_size ≡ none) ⊎ (expected_size ≡ some (4 + length payload))
        → (size : ℕ) × (expect_msg (suc fuel) sys msg expected_size c (message msg payload ++ rest)
            ≡ ok (true, record c { conn = record { buf_size = size; text = c.conn.text } }, rest))
    unfolding on_message
    expect_msg-message payload c rest hn he short h =
        let (size, run) = take_message-message msg expected_size payload c rest short h in
        let n : (msg == b'N') ≡ false = ground arith in
        let e : (msg == b'E') ≡ false = ground arith in
        (size, expect_msg-header msg payload c rest short ∙ rw (on_message, n, e, run) refl)
