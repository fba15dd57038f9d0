-- ===== src/Pgwire/Session/Replies.antt =====
-- What expect_msg of mugshot/pgwire.c makes of the replies of a server that answers whole.
use plmuggin.Base.{
  ℕ, suc, ◌+◌, ◌-◌, ◌^◌, ◌<◌, ◌≡◌, ◌≢◌, ◌⊎◌, refl, ap, ◌∙◌, true, false, Option, none, some, List,
  [], ◌∷◌, ◌++◌, arith, Bytes, length, All, inr,
}
use plmuggin.Pgwire.Frames.{message}
use plmuggin.Pgwire.Session.{PgConn, System, expect_msg}
use plmuggin.Result.{ok}
use plmuggin.Pgwire.Session.Fields.{Field, fields_text, AreFields, notices_of, report}
use plmuggin.Pgwire.Session.Messages.{
  IsPrompt, expect_msg-notice, expect_msg-error_message, expect_msg-message,
}

module _ (sys : System) (prompt : IsPrompt sys) where
  -- Where the server answers whole, expect_msg passes over the notices that come first.
  pub expect_msg-notices_of :
      (ns : List (List Field)) (fuel msg : ℕ) (expected_size : Option ℕ) (c : PgConn) (rest : Bytes)
      → All AreFields ns
      → (size : ℕ) × (expect_msg (length ns + fuel) sys msg expected_size c (notices_of ns rest)
          ≡ expect_msg fuel sys msg expected_size
              (record c { conn = record { buf_size = size; text = c.conn.text } })
              rest)
  expect_msg-notices_of [] fuel msg expected_size c rest h =
      (c.conn.buf_size, ap (λ k. expect_msg k sys msg expected_size c rest) (omega arith))
  expect_msg-notices_of (n ∷ ns) fuel msg expected_size c rest (h, hs) =
      let (size, run) =
        expect_msg-notice sys prompt (length ns + fuel) msg expected_size n c (notices_of ns rest)
          h in
      let (size', run') =
        expect_msg-notices_of ns fuel msg expected_size
          (record c { conn = record { buf_size = size; text = c.conn.text } }) rest hs in
      let one : length (n ∷ ns) + fuel ≡ suc (length ns + fuel) = omega arith in
      (
        size',
        ap (λ k. expect_msg k sys msg expected_size c (notices_of (n ∷ ns) rest)) one ∙ run ∙ run',
      )

  -- The reply that expect_msg waits for, behind any notices: true, with all of the reply taken from
  -- the socket and the text of the buffer as it was.
  pub expect_msg-reply :
      (ns : List (List Field)) (fuel msg : ℕ) (expected_size : Option ℕ) (payload : Bytes)
      (c : PgConn) (rest : Bytes)
      → All AreFields ns
      → msg ≢ b'N'
      → msg ≢ b'E'
      → length payload + 4 < 2 ^ 31
      → (expected_size ≡ none) ⊎ (expected_size ≡ some (4 + length payload))
      → length ns < fuel
      → (size : ℕ) × (expect_msg fuel sys msg expected_size c
            (notices_of ns (message msg payload ++ rest))
          ≡ ok (true, record c { conn = record { buf_size = size; text = c.conn.text } }, rest))
  expect_msg-reply ns fuel msg expected_size payload c rest hs hn he short h lt =
      let more = fuel - suc (length ns) in
      let enough : fuel ≡ length ns + suc more = omega arith in
      let (size, run) =
        expect_msg-notices_of ns (suc more) msg expected_size c (message msg payload ++ rest) hs in
      let (size', run') =
        expect_msg-message sys prompt more msg expected_size payload
          (record c { conn = record { buf_size = size; text = c.conn.text } }) rest hn he short h in
      (
        size',
        ap (λ k. expect_msg k sys msg expected_size c (notices_of ns (message msg payload ++ rest)))
              enough
            ∙ run
            ∙ run',
      )

  -- An error from a server that answers whole, behind any notices, where expect_msg waits for a message: false,
  -- with the severity and the first 255 bytes of the message that its fields report in the connection, which stays
  -- open where ReadyForQuery follows, behind any notices.
  pub expect_msg-error :
      (ns ms : List (List Field)) (fuel msg status : ℕ) (expected_size : Option ℕ) (fs : List Field)
      (c : PgConn) (rest : Bytes)
      → All AreFields ns
      → All AreFields ms
      → AreFields fs
      → length ns + length ms + 1 < fuel
      → (size : ℕ) × (expect_msg fuel sys msg expected_size c (
            notices_of ns
              (message b'E' (fields_text fs) ++ notices_of ms (message b'Z' (status ∷ []) ++ rest)))
          ≡ ok (
            false,
            record c {
              conn = record { buf_size = size; text = c.conn.text };
              error = report fs c.error;
              close = false;
            },
            rest,
          ))
  expect_msg-error ns ms fuel msg status expected_size fs c rest hs ks h lt =
      let more = fuel - suc (length ns) in
      let enough : fuel ≡ length ns + suc more = omega arith in
      let ready = notices_of ms (message b'Z' (status ∷ []) ++ rest) in
      let (size, run) =
        expect_msg-notices_of ns (suc more) msg expected_size c
          (message b'E' (fields_text fs) ++ ready) hs in
      let (size', run') =
        expect_msg-error_message sys prompt more msg expected_size fs
          (record c { conn = record { buf_size = size; text = c.conn.text } }) ready h in
      let (size'', run'') =
        expect_msg-reply ms more b'Z' (some 5) (status ∷ [])
          (record c {
            conn = record { buf_size = size'; text = c.conn.text };
            error = report fs c.error;
          })
          rest ks (omega arith) (omega arith) (omega arith) (inr refl) (omega arith) in
      (
        size'',
        ap
              (λ k.
                expect_msg k sys msg expected_size c
                  (notices_of ns (message b'E' (fields_text fs) ++ ready)))
              enough
            ∙ run
            ∙ run'
            ∙ rw run'' refl,
      )
