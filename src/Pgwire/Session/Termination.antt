-- ===== src/Pgwire/Session/Termination.antt =====
-- expect_msg of mugshot/pgwire.c returns on what a server may send, however the bytes arrive and
-- wherever they break off.
use plmuggin.Base.{
  ℕ, zero, suc, ◌+◌, ◌^◌, ◌≤◌, ◌<◌, ◌≡◌, ◌≢◌, refl, sym, ap, subst, true, false, Option, List, [],
  ◌∷◌, ◌++◌, arith, ◌==◌, Bytes, length, length-append, length-drop, take, drop, Bool-cases, inl,
  inr,
}
use plmuggin.Pgwire.Frames.{message}
use plmuggin.Pgwire.Read.{ntohl, ntohl-htonl}
use plmuggin.Pgwire.Session.Fields.{Field, fields_text, AreFields}
use plmuggin.Pgwire.Session.Handled.{
  Shrinks, length-read, read-whole, handle_notice-Handles, read_fields-Handles, handle_notice_cut,
  read_fields_cut, on_message-notice, on_message-error, on_message-other,
}
use plmuggin.Pgwire.Session.{PgConn, System, Replied, read, on_message, expect_msg}
use plmuggin.Pgwire.{htonl}
use plmuggin.Result.{Result, Returns}
use plmuggin.Str.{char_at}

-- What may be to come from a server while expect_msg waits: notices and errors whose fields end in
-- NUL bytes, then a message of another type with anything behind it, or an end of the bytes, in
-- the header or the payload of a message.
pub data Sent : Bytes → Type 0 where
  notice :
      (fs : List Field) {s : Bytes}
      → AreFields fs
      → Sent s
      → Sent (message b'N' (fields_text fs) ++ s)
  error :
      (fs : List Field) {s : Bytes}
      → AreFields fs
      → Sent s
      → Sent (message b'E' (fields_text fs) ++ s)
  reply : {s : Bytes} → char_at s 0 ≢ b'N' → char_at s 0 ≢ b'E' → Sent s
  in_header : {s : Bytes} → length s < 5 → Sent s
  in_payload :
      {s : Bytes}
      → 4 < ntohl (drop 1 (take 5 s))
      → ntohl (drop 1 (take 5 s)) < 2 ^ 31
      → length s < ntohl (drop 1 (take 5 s)) + 1
      → Sent s

Returns-mono :
    (s socket : Bytes) {run : Result Replied}
    → length s ≤ length socket
    → Returns run (Shrinks s)
    → Returns run (Shrinks socket)
Returns-mono s socket le (r, e, shrinks) = (r, e, omega arith)

char_at-take : (s : Bytes) → char_at (take 5 s) 0 ≡ char_at s 0
unfolding char_at
char_at-take [] = refl
char_at-take (x ∷ s) = refl

module _ (sys : System) where
  -- A round, where its header is read.
  module _ (fuel msg : ℕ) (expected_size : Option ℕ) (c : PgConn) where
    expect_msg-header :
        (socket : Bytes)
        → (read sys 5 socket).0 ≡ true
        → expect_msg (suc fuel) sys msg expected_size c socket
          ≡ on_message
              (expect_msg fuel sys)
              sys
              msg
              expected_size
              (char_at socket 0)
              (ntohl (drop 1 (take 5 socket)))
              c
              (drop 5 socket)
    unfolding expect_msg
    expect_msg-header socket whole =
        let (le, all) = read-whole sys 5 socket whole in
        rw (expect_msg, all)
          (ap
            (λ t.
              on_message (expect_msg fuel sys) sys msg expected_size t
                (ntohl (drop 1 (take 5 socket))) c (drop 5 socket))
            (char_at-take socket))

  -- What a round does with each of the things that may be to come, where the next round returns.
  module _ (again : ℕ → Option ℕ → PgConn → Bytes → Result Replied) (msg : ℕ)
      (expected_size : Option ℕ) (c : PgConn) where
    notice_round :
        (fs : List Field) (s : Bytes)
        → AreFields fs
        → ((m : ℕ) (e : Option ℕ) (d : PgConn) → Returns (again m e d s) (Shrinks s))
        → Returns
            (on_message again sys msg expected_size b'N'
              (ntohl (htonl (4 + length (fields_text fs))))
              c
              (fields_text fs ++ s))
            (Shrinks (fields_text fs ++ s))
    notice_round fs s h next =
        subst
          (λ n.
            Returns (on_message again sys msg expected_size b'N' n c (fields_text fs ++ s))
              (Shrinks (fields_text fs ++ s)))
          (sym (ntohl-htonl (4 + length (fields_text fs)) (omega (arith, h.1))))
          (on_message-notice sys again msg expected_size (4 + length (fields_text fs)) c
            (fields_text fs ++ s) s (handle_notice-Handles sys fs c s h)
            (λ m e d.
              Returns-mono s (fields_text fs ++ s) (omega (arith, length-append (fields_text fs) s))
                (next m e d)))

    error_round :
        (fs : List Field) (s : Bytes)
        → AreFields fs
        → ((m : ℕ) (e : Option ℕ) (d : PgConn) → Returns (again m e d s) (Shrinks s))
        → Returns
            (on_message again sys msg expected_size b'E'
              (ntohl (htonl (4 + length (fields_text fs))))
              c
              (fields_text fs ++ s))
            (Shrinks (fields_text fs ++ s))
    error_round fs s h next =
        subst
          (λ n.
            Returns (on_message again sys msg expected_size b'E' n c (fields_text fs ++ s))
              (Shrinks (fields_text fs ++ s)))
          (sym (ntohl-htonl (4 + length (fields_text fs)) (omega (arith, h.1))))
          (on_message-error sys again msg expected_size (4 + length (fields_text fs)) c
            (fields_text fs ++ s) s (read_fields-Handles sys fs c s h)
            (λ m e d.
              Returns-mono s (fields_text fs ++ s) (omega (arith, length-append (fields_text fs) s))
                (next m e d)))

    -- The header of a notice or an error whose bytes break off has no round behind it that matters.
    cut_round :
        (type size : ℕ) (s : Bytes)
        → 4 < size
        → size < 2 ^ 31
        → length s + 4 < size
        → ((m : ℕ) (e : Option ℕ) (d : PgConn) → Returns (again m e d []) (Shrinks []))
        → Returns (on_message again sys msg expected_size type size c s) (Shrinks s)
    cut_round type size s lo hi cut next =
        let next' =
          λ (m : ℕ) (e : Option ℕ) (d : PgConn). Returns-mono [] s (omega arith) (next m e d) in
        elim (Bool-cases (type == b'N')) [
          | inl n ↦
              let same : type ≡ b'N' = ground arith in
              rw same (
                on_message-notice sys again msg expected_size size c s []
                  (handle_notice_cut sys size c s [] lo hi cut) next')
          | inr not_n ↦ elim (Bool-cases (type == b'E')) [
            | inl e ↦
                let same : type ≡ b'E' = ground arith in
                rw same (
                  on_message-error sys again msg expected_size size c s []
                    (read_fields_cut sys size c s [] lo hi cut) next')
            | inr not_e ↦
                on_message-other sys again msg expected_size size c s [] type (ground arith)
                  (ground arith)
          ]
        ]

    round :
        {socket : Bytes}
        → Sent socket
        → 5 ≤ length socket
        → ((m : ℕ) (e : Option ℕ) (d : PgConn) (s : Bytes)
            → Sent s
            → length s < length socket
            → Returns (again m e d s) (Shrinks s))
        → Returns
            (on_message again sys msg expected_size
              (char_at socket 0)
              (ntohl (drop 1 (take 5 socket)))
              c
              (drop 5 socket))
            (Shrinks socket)
    unfolding char_at
    round (notice fs {s} h sent) le next =
        Returns-mono (fields_text fs ++ s) (message b'N' (fields_text fs) ++ s) (omega arith) (
          notice_round fs s h
            (λ m e d. next m e d s sent (omega (arith, length-append (fields_text fs) s))))
    round (error fs {s} h sent) le next =
        Returns-mono (fields_text fs ++ s) (message b'E' (fields_text fs) ++ s) (omega arith) (
          error_round fs s h
            (λ m e d. next m e d s sent (omega (arith, length-append (fields_text fs) s))))
    round (reply {s} hn he) le next = Returns-mono (drop 5 s) s (omega (arith, length-drop 5 s)) (
        on_message-other sys again msg expected_size (ntohl (drop 1 (take 5 s))) c (drop 5 s) []
          (char_at s 0) hn he)
    round (in_header lt) le next = absurd (omega arith)
    round (in_payload {s} lo hi cut) le next =
        Returns-mono (drop 5 s) s (omega (arith, length-drop 5 s)) (
          cut_round (char_at s 0) (ntohl (drop 1 (take 5 s))) (drop 5 s) lo hi
            (omega (arith, length-drop 5 s))
            (λ m e d. next m e d [] (in_header (omega arith)) (omega arith)))

  -- Where the server sends notices and errors whose fields end in NUL bytes, and then a message of
  -- another type or nothing more, in the middle of a message as well, expect_msg returns, with true
  -- or false, and with no more to come than before: however few bytes a `read` gives, and whether
  -- or not there is memory. Its fuel is more than the bytes that are to come.
  pub expect_msg-Returns :
      (fuel msg : ℕ) (expected_size : Option ℕ) (c : PgConn) (socket : Bytes)
      → Sent socket
      → length socket < fuel
      → Returns (expect_msg fuel sys msg expected_size c socket) (Shrinks socket)
  unfolding expect_msg
  expect_msg-Returns zero msg expected_size c socket sent lt = absurd (omega arith)
  expect_msg-Returns (suc fuel) msg expected_size c socket sent lt =
      elim (Bool-cases (read sys 5 socket).0) [
        | inl whole ↦
            let (le, all) = read-whole sys 5 socket whole in
            rw (expect_msg-header fuel msg expected_size c socket whole) (
              round (expect_msg fuel sys) msg expected_size c sent le
                (λ m e d s sent' lt'. expect_msg-Returns fuel m e d s sent' (omega arith)))
        | inr short ↦ (
          (false, c, (read sys 5 socket).2),
          rw (expect_msg, short) refl,
          length-read sys 5 socket,
        )
      ]
