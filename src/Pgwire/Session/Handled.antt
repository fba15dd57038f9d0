-- ===== src/Pgwire/Session/Handled.antt =====
-- The parts of a round of expect_msg of mugshot/pgwire.c return, however the bytes of a message
-- arrive and wherever they break off.
use plmuggin.Base.{
  ℕ, ◌+◌, ◌-◌, ◌^◌, ◌≤◌, ◌<◌, ◌≡◌, ◌≢◌, refl, ap, ◌∙◌, true, false, not, ◌||◌, Option, some, List,
  ◌++◌, arith, ltb, leb, ◌==◌, if◌then◌else◌, Bytes, length, length-drop, take, drop, take-append,
  drop-append, Bool-cases, inl, inr,
}
use plmuggin.Pgwire.Session.Fields.{
  Field, fields_text, AreFields, report, scan_notice-fields_text, error_fields-report,
  length-fields_text,
}
use plmuggin.Pgwire.Session.{
  PgConn, System, Replied, read, read_count, read_rest, handle_notice, read_fields, take_message,
  on_message,
}
use plmuggin.Pgwire.{pg_ensure_buf}
use plmuggin.Result.{Result, ok, ◌>>=◌, Returns}

-- The socket behind a reply is no longer than the one before it.
abbrev pub Shrinks : Bytes → Replied → Type 0
Shrinks socket r = length r.2 ≤ length socket

-- A part of the work on a message: it returns true with `rest` to come, or false.
abbrev pub Handles : Bytes → Bytes → Result Replied → Type 0
Handles socket rest run = Returns run (λ r. (r.0 ≡ true → r.2 ≡ rest) × Shrinks socket r)

-- What follows a part that has returned.
continue_or :
    (socket rest : Bytes) (run : Result Replied) (next : PgConn → Bytes → Result Replied)
    → Handles socket rest run
    → ((c : PgConn) → Returns (next c rest) (Shrinks socket))
    → Returns (run >>= λ x. if x.0 then next x.1 x.2 else ok (false, x.1, x.2)) (Shrinks socket)
continue_or socket rest run next ((handled, c, s), e, (same, shrinks)) h =
    elim (Bool-cases handled) [
      | inl yes' ↦
          let (q, run', small) = h c in (q, rw (e, yes') (ap (next c) (same yes') ∙ run'), small)
      | inr no' ↦ ((false, c, s), rw (e, no') refl, shrinks)
    ]

module _ (sys : System) where
  pub length-read : (n : ℕ) (s : Bytes) → length (read sys n s).2 ≤ length s
  unfolding read
  length-read n s = omega (arith, length-drop (read_count sys s n) s)

  pub read-whole :
      (n : ℕ) (s : Bytes)
      → (read sys n s).0 ≡ true
      → (n ≤ length s) × (read sys n s ≡ (true, take n s, drop n s))
  unfolding read
  read-whole n s h =
      let count : read_count sys s n ≡ n = ground arith in
      let same : (n == n) ≡ true = ground arith in (omega (arith, count), rw (count, same) refl)

  length-read_rest : (n : ℕ) (c : PgConn) (s : Bytes) → length (read_rest sys n c s).3 ≤ length s
  unfolding read_rest
  length-read_rest n c s = elim (Bool-cases (pg_ensure_buf sys.alloc c.conn n).0) [
    | inl e ↦ rw e (length-read n s)
    | inr e ↦ rw e (omega arith)
  ]

  read_rest-whole :
      (n : ℕ) (c : PgConn) (s : Bytes)
      → (read_rest sys n c s).0 ≡ true
      → (n ≤ length s) × ((read_rest sys n c s).1 ≡ take n s) × ((read_rest sys n c s).3 ≡ drop n s)
  unfolding read_rest
  read_rest-whole n c s = elim (Bool-cases (pg_ensure_buf sys.alloc c.conn n).0) [
    | inl e ↦
        rw e (λ h. let (le, all) = read-whole n s h in (le, ap (λ x. x.1) all, ap (λ x. x.2) all))
    | inr e ↦ rw e (λ h. cc)
  ]

  pub handle_notice-Handles :
      (fs : List Field) (c : PgConn) (rest : Bytes)
      → AreFields fs
      → Handles
          (fields_text fs ++ rest)
          rest
          (handle_notice sys (4 + length (fields_text fs)) c (fields_text fs ++ rest))
  unfolding handle_notice
  handle_notice-Handles fs c rest (h, short) =
      let n = length (fields_text fs) in
      let s = fields_text fs ++ rest in
      let bounds : (ltb (4 + n) 4 || leb (2 ^ 31) (4 + n)) ≡ false = ground arith in
      let less : 4 + n - 4 ≡ n = omega arith in
      elim (Bool-cases (read_rest sys n c s).0) [
        | inl whole ↦
            let (le, payload, left) = read_rest-whole n c s whole in
            let text : (read_rest sys n c s).1 ≡ fields_text fs =
              payload ∙ take-append (fields_text fs) rest in
            (
              (true, (read_rest sys n c s).2, (read_rest sys n c s).3),
              rw
                  (
                    handle_notice,
                    bounds,
                    less,
                    whole,
                    text,
                    scan_notice-fields_text fs n h (omega arith),
                  )
                  refl,
              ((λ e. left ∙ drop-append (fields_text fs) rest), length-read_rest n c s),
            )
        | inr broken ↦ (
          (false, (read_rest sys n c s).2, (read_rest sys n c s).3),
          rw (handle_notice, bounds, less, broken) refl,
          ((λ e. cc), length-read_rest n c s),
        )
      ]

  pub read_fields-Handles :
      (fs : List Field) (c : PgConn) (rest : Bytes)
      → AreFields fs
      → Handles
          (fields_text fs ++ rest)
          rest
          (read_fields sys (4 + length (fields_text fs)) c (fields_text fs ++ rest))
  unfolding read_fields
  read_fields-Handles fs c rest (h, short) =
      let n = length (fields_text fs) in
      let s = fields_text fs ++ rest in
      let bounds : (leb (4 + n) 4 || leb (2 ^ 31) (4 + n)) ≡ false =
        ground (arith, length-fields_text fs) in
      let less : 4 + n - 4 ≡ n = omega arith in
      elim (Bool-cases (read_rest sys n c s).0) [
        | inl whole ↦
            let (le, payload, left) = read_rest-whole n c s whole in
            let text : (read_rest sys n c s).1 ≡ fields_text fs =
              payload ∙ take-append (fields_text fs) rest in
            (
              (
                true,
                record (read_rest sys n c s).2 { error = report fs (read_rest sys n c s).2.error },
                (read_rest sys n c s).3,
              ),
              rw
                  (
                    read_fields,
                    bounds,
                    less,
                    whole,
                    text,
                    error_fields-report fs n (read_rest sys n c s).2.error h (omega arith),
                  )
                  refl,
              ((λ e. left ∙ drop-append (fields_text fs) rest), length-read_rest n c s),
            )
        | inr broken ↦ (
          (false, (read_rest sys n c s).2, (read_rest sys n c s).3),
          rw (read_fields, bounds, less, broken) refl,
          ((λ e. cc), length-read_rest n c s),
        )
      ]

  -- Where the bytes end in the payload, the rest of the message is not read.
  pub handle_notice_cut :
      (size : ℕ) (c : PgConn) (s rest : Bytes)
      → 4 < size
      → size < 2 ^ 31
      → length s + 4 < size
      → Handles s rest (handle_notice sys size c s)
  unfolding handle_notice
  handle_notice_cut size c s rest lo hi cut =
      let n = size - 4 in
      let bounds : (ltb size 4 || leb (2 ^ 31) size) ≡ false = ground arith in
      elim (Bool-cases (read_rest sys n c s).0) [
        | inl whole ↦ absurd (omega (arith, (read_rest-whole n c s whole).0))
        | inr broken ↦ (
          (false, (read_rest sys n c s).2, (read_rest sys n c s).3),
          rw (handle_notice, bounds, broken) refl,
          ((λ e. cc), length-read_rest n c s),
        )
      ]

  pub read_fields_cut :
      (size : ℕ) (c : PgConn) (s rest : Bytes)
      → 4 < size
      → size < 2 ^ 31
      → length s + 4 < size
      → Handles s rest (read_fields sys size c s)
  unfolding read_fields
  read_fields_cut size c s rest lo hi cut =
      let n = size - 4 in
      let bounds : (leb size 4 || leb (2 ^ 31) size) ≡ false = ground arith in
      elim (Bool-cases (read_rest sys n c s).0) [
        | inl whole ↦ absurd (omega (arith, (read_rest-whole n c s whole).0))
        | inr broken ↦ (
          (false, (read_rest sys n c s).2, (read_rest sys n c s).3),
          rw (read_fields, bounds, broken) refl,
          ((λ e. cc), length-read_rest n c s),
        )
      ]

  take_message-Shrinks :
      (msg : ℕ) (expected_size : Option ℕ) (type size : ℕ) (c : PgConn) (s : Bytes)
      → Shrinks s (take_message sys msg expected_size type size c s)
  unfolding take_message
  take_message-Shrinks msg expected_size type size c s =
      ground (arith, length-read_rest (size - 4) c s)

  -- on_message, by the type of the message, where the round after it returns.
  module _ (again : ℕ → Option ℕ → PgConn → Bytes → Result Replied) (msg : ℕ)
      (expected_size : Option ℕ) (size : ℕ) (c : PgConn) (s rest : Bytes) where
    pub on_message-notice :
        Handles s rest (handle_notice sys size c s)
        → ((m : ℕ) (e : Option ℕ) (d : PgConn) → Returns (again m e d rest) (Shrinks s))
        → Returns (on_message again sys msg expected_size b'N' size c s) (Shrinks s)
    unfolding on_message
    on_message-notice h next =
        continue_or s rest (handle_notice sys size c s) (again msg expected_size) h
          (next msg expected_size)

    pub on_message-error :
        Handles s rest (read_fields sys size c s)
        → ((m : ℕ) (e : Option ℕ) (d : PgConn) → Returns (again m e d rest) (Shrinks s))
        → Returns (on_message again sys msg expected_size b'E' size c s) (Shrinks s)
    unfolding on_message
    on_message-error h next =
        continue_or s rest (read_fields sys size c s)
          (λ d t. again b'Z' (some 5) d t >>= λ r. ok (false, record r.1 { close = not r.0 }, r.2))
          h
          (λ d.
            let (q, run, small) = next b'Z' (some 5) d in
            ((false, record q.1 { close = not q.0 }, q.2), rw run refl, small))

    pub on_message-other :
        (type : ℕ)
        → type ≢ b'N'
        → type ≢ b'E'
        → Returns (on_message again sys msg expected_size type size c s) (Shrinks s)
    unfolding on_message
    on_message-other type hn he =
        let n : (type == b'N') ≡ false = ground arith in
        let e : (type == b'E') ≡ false = ground arith in
        (
          take_message sys msg expected_size type size c s,
          rw (on_message, n, e) refl,
          take_message-Shrinks msg expected_size type size c s,
        )
