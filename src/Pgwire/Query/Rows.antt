-- ===== src/Pgwire/Query/Rows.antt =====
-- The result of a query as it comes from a server that answers whole: pg_read_result of mugshot/pgwire.c, the
-- first row that pg_next_row reads, and the errors.
use plmuggin.Base.{
  ℕ, ◌+◌, ◌/◌, ◌%◌, ◌^◌, ◌<◌, ◌≡◌, inl, inr, append-nil, refl, ap, ◌∙◌, Bool, true, false,
  if◌then◌else◌, Option, none, some, List, [], ◌∷◌, ◌++◌, arith, ltb, Bytes, length, length-append,
  get_elem?, All,
}
use plmuggin.Pgwire.Frames.{message}
use plmuggin.Pgwire.Query.{failed_result, describe, read_description, pg_read_result}
use plmuggin.Pgwire.Read.{read_msg-message}
use plmuggin.Pgwire.NextRow.{texts, pg_next_row, pg_next_row-pg_value}
use plmuggin.Pgwire.Row.{row_bytes, Shows, get_i16-append}
use plmuggin.Pgwire.Session.Fields.{Field, fields_text, AreFields, notices_of, report}
use plmuggin.Pgwire.Session.Replies.{expect_msg-reply, expect_msg-error}
use plmuggin.Pgwire.Session.Messages.{IsPrompt}
use plmuggin.Pgwire.Session.{PgConn, System, expect_simple}
use plmuggin.Pgwire.Value.{PgVal, get_i16, pg_value}
use plmuggin.Pgwire.{htons}
use plmuggin.Result.{ok, Returns}

-- ParseComplete and BindComplete, each behind notices.
abbrev pub completes : List (List Field) → List (List Field) → Bytes → Bytes
completes ns ms rest = notices_of ns (message b'1' [] ++ notices_of ms (message b'2' [] ++ rest))

module _ (sys : System) (prompt : IsPrompt sys) (fuel : ℕ) where
  pg_read_result-completes :
      (ns ms : List (List Field)) (c : PgConn) (rest : Bytes)
      → All AreFields ns
      → All AreFields ms
      → length ns < fuel
      → length ms < fuel
      → (size : ℕ) × (pg_read_result fuel sys c (completes ns ms rest)
          ≡ read_description fuel sys
              (record c { conn = record { buf_size = size; text = c.conn.text } })
              rest)
  unfolding pg_read_result expect_simple
  pg_read_result-completes ns ms c rest hs ks lt lt' =
      let (size, run) =
        expect_msg-reply sys prompt ns fuel b'1' (some 4) [] c
          (notices_of ms (message b'2' [] ++ rest)) hs (omega arith) (omega arith) (omega arith)
          (inr refl) lt in
      let (size', run') =
        expect_msg-reply sys prompt ms fuel b'2' (some 4) []
          (record c { conn = record { buf_size = size; text = c.conn.text } }) rest ks (omega arith)
          (omega arith) (omega arith) (inr refl) lt' in
      (size', rw (pg_read_result, run, run') refl)

  read_description-message :
      (n : ℕ) (fields : Bytes) (c : PgConn) (rest : Bytes)
      → n < 2 ^ 16
      → length fields + 6 < 2 ^ 31
      → (size : ℕ) × (read_description fuel sys c (message b'T' (htons n ++ fields) ++ rest)
          ≡ ok (
            record {
              success = true;
              row_description_start = length c.conn.text;
              fields = n;
              row_start = none;
            },
            record c {
              conn = record { buf_size = size; text = c.conn.text ++ (htons n ++ fields) };
            },
            rest,
          ))
  unfolding read_description describe
  read_description-message n fields c rest lt short =
      let (size, run) =
        read_msg-message sys.alloc c.conn b'T' (htons n ++ fields) rest prompt.granted
          (omega arith) in
      let two : ltb (length (htons n ++ fields)) 2 ≡ false = ground arith in
      let count : get_i16 (c.conn.text ++ (htons n ++ fields)) (length c.conn.text) ≡ ok n =
        get_i16-append c.conn.text (n / 2 ^ 8 % 2 ^ 8) (n % 2 ^ 8) fields ∙ ap ok (omega arith) in
      (size, rw (read_description, run, two, count) refl)

  pub pg_read_result-description :
      (ns ms : List (List Field)) (n : ℕ) (columns : Bytes) (c : PgConn) (rest : Bytes)
      → All AreFields ns
      → All AreFields ms
      → length ns < fuel
      → length ms < fuel
      → n < 2 ^ 16
      → length columns + 6 < 2 ^ 31
      → (size : ℕ) × (pg_read_result fuel sys c
            (completes ns ms (message b'T' (htons n ++ columns) ++ rest))
          ≡ ok (
            record {
              success = true;
              row_description_start = length c.conn.text;
              fields = n;
              row_start = none;
            },
            record c {
              conn = record { buf_size = size; text = c.conn.text ++ (htons n ++ columns) };
            },
            rest,
          ))
  pg_read_result-description ns ms n columns c rest hs js lt lt' small short =
      let (size, run) =
        pg_read_result-completes ns ms c (message b'T' (htons n ++ columns) ++ rest) hs js lt lt' in
      let (size', run') =
        read_description-message n columns
          (record c { conn = record { buf_size = size; text = c.conn.text } }) rest small short in
      (size', run ∙ run')

  -- A query without rows.
  pub pg_read_result-no_data :
      (ns ms ls : List (List Field)) (tag : Bytes) (c : PgConn) (rest : Bytes)
      → All AreFields ns
      → All AreFields ms
      → All AreFields ls
      → length ns < fuel
      → length ms < fuel
      → length ls < fuel
      → length tag + 4 < 2 ^ 31
      → (size : ℕ) × (pg_read_result fuel sys c
            (completes ns ms (message b'n' [] ++ notices_of ls (message b'C' tag ++ rest)))
          ≡ ok (
            record { success = true; row_description_start = 0; fields = 0; row_start = some 0 },
            record c { conn = record { buf_size = size; text = c.conn.text } },
            rest,
          ))
  unfolding read_description
  pg_read_result-no_data ns ms ls tag c rest hs js ks lt lt' lt'' short =
      let done = notices_of ls (message b'C' tag ++ rest) in
      let (size, run) = pg_read_result-completes ns ms c (message b'n' [] ++ done) hs js lt lt' in
      let c' : PgConn = record c { conn = record { buf_size = size; text = c.conn.text } } in
      let (size', run') =
        read_msg-message sys.alloc c'.conn b'n' [] done prompt.granted (omega arith) in
      let (size'', run'') =
        expect_msg-reply sys prompt ls fuel b'C' none tag
          (record c { conn = record { buf_size = size'; text = c.conn.text ++ [] } }) rest ks
          (omega arith) (omega arith) short (inl refl) lt'' in
      (
        size'',
        run
            ∙ rw (read_description, run', run'')
                (ap
                  (λ t. ok (
                    record {
                      success = true;
                      row_description_start = 0;
                      fields = 0;
                      row_start = some 0;
                    },
                    record c { conn = record { buf_size = size''; text = t } },
                    rest,
                  ))
                  (append-nil c.conn.text)),
      )

  -- The answer of a server that answers whole to a query with rows, behind notices, each with fields
  -- that end in NUL bytes: pg_read_result
  -- succeeds with the count of the columns, pg_next_row on what is left finds the first row, and
  -- pg_value each of its fields. The row has fewer than 2 ^ 15 fields, the buffer stays below
  -- 2 ^ 31 bytes, and there are fewer notices than the fuel.
  pub pg_read_result-pg_value :
      (ns ms : List (List Field)) (n : ℕ) (columns : Bytes) (ks : List (List Field)) (c : PgConn)
      (fs : List (Option Bytes)) (rest : Bytes) (k : ℕ) (f : Option Bytes)
      → All AreFields ns
      → All AreFields ms
      → All AreFields ks
      → length ns < fuel
      → length ms < fuel
      → length ks < fuel
      → n < 2 ^ 16
      → get_elem? fs k ≡ some f
      → length fs < 2 ^ 15
      → length (((c.conn.text ++ (htons n ++ columns)) ++ texts ks) ++ row_bytes fs) + 6 < 2 ^ 31
      → Returns
          (pg_read_result fuel sys c (
            completes ns ms (
              message b'T' (htons n ++ columns)
              ++ notices_of ks (message b'D' (row_bytes fs) ++ rest))))
          (λ x.
            (x.0.success ≡ true)
            × (x.0.fields ≡ n)
            × Returns (pg_next_row fuel sys.alloc x.1.conn x.2) (λ y.
              (y.0.has_row ≡ true)
              × (y.2 ≡ rest)
              × Returns
                  (pg_value y.1.text y.0.row_start k)
                  (λ o. (v : PgVal) × (o ≡ some v) × Shows y.1.text f v)))
  pg_read_result-pg_value ns ms n columns ks c fs rest k f hs js ls lt lt' lt'' small h few short =
      let rows = notices_of ks (message b'D' (row_bytes fs) ++ rest) in
      let description : Bytes = htons n ++ columns in
      let n₁ = length-append ((c.conn.text ++ description) ++ texts ks) (row_bytes fs) in
      let n₂ = length-append (c.conn.text ++ description) (texts ks) in
      let n₃ = length-append c.conn.text description in
      let (size, run) =
        pg_read_result-description ns ms n columns c rows hs js lt lt' small
          (omega (arith, n₁, n₂, n₃)) in
      (
        _,
        run,
        (
          refl,
          refl,
          pg_next_row-pg_value ks fuel sys.alloc
              (record { buf_size = size; text = c.conn.text ++ description }) fs rest k f
              prompt.granted ls lt'' h few (omega arith),
        ),
      )

  -- An error of a server that answers whole, instead of ParseComplete or BindComplete, behind
  -- notices and before ReadyForQuery: pg_read_result fails with an empty buffer, the connection
  -- has the severity and the message of the error and stays open, and the next query's answer is
  -- what is left on the socket.
  pub pg_read_result-error :
      (parsed : Bool) (ls ns ms : List (List Field)) (status : ℕ) (fs : List Field) (c : PgConn)
      (rest : Bytes)
      → All AreFields ls
      → All AreFields ns
      → All AreFields ms
      → AreFields fs
      → length ls + length ns + length ms + 1 < fuel
      → (size : ℕ) × (pg_read_result fuel sys c (
            let failing : Bytes = notices_of ns (
              message b'E' (fields_text fs)
              ++ notices_of ms (message b'Z' (status ∷ []) ++ rest)) in
            if parsed then notices_of ls (message b'1' [] ++ failing) else failing)
          ≡ ok (
              failed_result
                (record c {
                  conn = record { buf_size = size; text = c.conn.text };
                  error = report fs c.error;
                  close = false;
                })
                rest))
  unfolding pg_read_result expect_simple
  pg_read_result-error false ls ns ms status fs c rest hl hs ks h lt =
      let (size, run) =
        expect_msg-error sys prompt ns ms fuel b'1' status (some 4) fs c rest hs ks h
          (omega arith) in
      (size, rw (pg_read_result, run) refl)
  pg_read_result-error true ls ns ms status fs c rest hl hs ks h lt =
      let failing : Bytes =
        notices_of ns
          (message b'E' (fields_text fs) ++ notices_of ms (message b'Z' (status ∷ []) ++ rest)) in
      let (size, run) =
        expect_msg-reply sys prompt ls fuel b'1' (some 4) [] c failing hl (omega arith)
          (omega arith) (omega arith) (inr refl) (omega arith) in
      let (size', run') =
        expect_msg-error sys prompt ns ms fuel b'2' status (some 4) fs
          (record c { conn = record { buf_size = size; text = c.conn.text } }) rest hs ks h
          (omega arith) in
      (size', rw (pg_read_result, run, run') refl)
