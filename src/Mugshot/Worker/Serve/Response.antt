-- ===== src/Mugshot/Worker/Serve/Response.antt =====
-- The answer to a client, from what the database answers to the queries of mugshot_serve_pg of
-- mugshot/mugshot.c.
use plmuggin.Base.{
  ℕ, suc, ◌+◌, ◌-◌, ◌^◌, ◌<◌, ◌≡◌, refl, sym, ap, ◌∙◌, true, false, none, some, [], ◌∷◌, ◌++◌,
  append_assoc, arith, ltb, ◌==◌, Bytes, codes, length, length-append, take, drop,
}
use plmuggin.Mugshot.Endpoint.{value_or_zero}
use plmuggin.Mugshot.Worker.Serve.{reason_phrase, next_row, read_response, read_status}
use plmuggin.Pgwire.Frames.{message}
use plmuggin.Pgwire.NextRow.{pg_next_row-data, pg_next_row_complete}
use plmuggin.Pgwire.Query.Rows.{completes, pg_read_result-description}
use plmuggin.Pgwire.Query.{pg_read_result}
use plmuggin.Pgwire.Row.{row_bytes, drop_to, get_i16-append, get_i32-append}
use plmuggin.Pgwire.Session.Messages.{IsPrompt}
use plmuggin.Pgwire.Session.{PgConn, System}
use plmuggin.Pgwire.Value.{PgVal, get_i16, get_i32, read_value, read_values, pg_value}
use plmuggin.Pgwire.{htons, htonl}
use plmuggin.Result.{ok}
use plmuggin.Strbuf.{decimal_from}

-- A result of one row with one value, as the server sends it.
abbrev pub one_value : Bytes → Bytes → Bytes → Bytes → Bytes
one_value columns v tag rest = completes [] [] (
    message b'T' (htons 1 ++ columns)
    ++ (message b'D' (row_bytes (some v ∷ [])) ++ (message b'C' tag ++ rest)))

-- What the buffer holds behind it.
abbrev pub one_value_text : Bytes → Bytes → Bytes → Bytes
one_value_text columns v tag = (htons 1 ++ columns) ++ (row_bytes (some v ∷ []) ++ tag)

-- The value of the field, where the row begins.
abbrev pub shown : ℕ → Bytes → PgVal
shown start v = record { is_null = false; len = length v; buf_pos = start + 2 + 4 }

pg_value-one :
    (before v : Bytes)
    → length v < 2 ^ 31
    → pg_value (before ++ row_bytes (some v ∷ [])) (some (length before)) 0
      ≡ ok (some (shown (length before) v))
unfolding pg_value read_values read_value
pg_value-one before v short =
    let count : get_i16 (before ++ row_bytes (some v ∷ [])) (length before) ≡ ok 1 =
      get_i16-append before 0 1 ((htonl (length v) ++ v) ++ []) in
    let len : get_i32 (before ++ row_bytes (some v ∷ [])) (length before + 2) ≡ ok (length v) =
      ap (λ t. get_i32 t (length before + 2))
        (sym (append_assoc before (htons 1) ((htonl (length v) ++ v) ++ [])))
      ∙ ap (get_i32 ((before ++ htons 1) ++ ((htonl (length v) ++ v) ++ [])))
          (sym (length-append before (htons 1)))
      ∙ get_i32-append (before ++ htons 1) (length v) (v ++ []) (omega arith) in
    let some_value : (length v == 2 ^ 32 - 1) ≡ false = ground arith in
    let positive : ltb (length v) (2 ^ 31) ≡ true = ground arith in
    rw (count, len, some_value, positive) refl

-- The value stands in the buffer, also when more has come behind it.
pub value_in_buffer :
    (before v behind : Bytes)
    → take (length v) (drop (length before + 2 + 4) (before ++ (row_bytes (some v ∷ []) ++ behind)))
      ≡ v
value_in_buffer before v behind =
    let head : Bytes = htons 1 ++ htonl (length v) in
    ap (λ t. take (length v) (drop (length before + 2 + 4) t))
      (ap (λ t. before ++ (head ++ t)) (append_assoc v [] behind)
        ∙ sym (append_assoc before head (v ++ behind)))
    ∙ drop_to (before ++ head) v behind (omega (arith, length-append before head))

-- What mugshot_serve_pg answers: the status, the type of the endpoint, and the value as the body.
abbrev pub response_text : Bytes → Bytes → Bytes → Bytes
response_text status type v =
    codes "HTTP/1.1 "
    ++ (status
        ++ (reason_phrase status
            ++ (codes "\r\nContent-Type: "
                ++ (type
                    ++ (codes "\r\nContent-Length: "
                        ++ (decimal_from 20 (length v) []
                            ++ (codes "\r\nConnection: close\r\n\r\n" ++ v)))))))

module _ (sys : System) (prompt : IsPrompt sys) (fuel : ℕ) (columns v tag : Bytes) (c : PgConn)
    (rest : Bytes) where
  abbrev pub described : Bytes
  described = c.conn.text ++ (htons 1 ++ columns)

  abbrev pub row : Bytes
  row = row_bytes (some v ∷ [])

  -- The connection with another buffer.
  abbrev pub with_buffer : ℕ → Bytes → PgConn
  with_buffer size text = record c { conn = record { buf_size = size; text = text } }

  -- The steps over a result of one value.
  record OneValue : Type 0 where
    size₁ : ℕ
    size₂ : ℕ
    size₃ : ℕ
    result :
        pg_read_result (suc fuel) sys c (one_value columns v tag rest)
        ≡ ok (
          record {
            success = true;
            row_description_start = length c.conn.text;
            fields = 1;
            row_start = none;
          },
          with_buffer size₁ described,
          message b'D' row ++ (message b'C' tag ++ rest),
        )
    first :
        next_row
          (suc fuel)
          sys
          (with_buffer size₁ described)
          (message b'D' row ++ (message b'C' tag ++ rest))
        ≡ ok (
          true,
          true,
          some (length described),
          with_buffer size₂ (described ++ row),
          message b'C' tag ++ rest,
        )
    value :
        pg_value (described ++ row) (some (length described)) 0
        ≡ ok (some (shown (length described) v))
    last :
        next_row (suc fuel) sys (with_buffer size₂ (described ++ row)) (message b'C' tag ++ rest)
        ≡ ok (
          true,
          false,
          none,
          with_buffer size₃ (c.conn.text ++ one_value_text columns v tag),
          rest,
        )

  module _ (h₁ : length columns + 6 < 2 ^ 31) (h₂ : length v + 10 < 2 ^ 31)
      (h₃ : length tag + 4 < 2 ^ 31) where
    one_value-steps : OneValue
    unfolding next_row
    one_value-steps =
        let complete : Bytes = message b'C' tag ++ rest in
        let n = length-append v [] in
        let (size₁, run₁) =
          pg_read_result-description sys prompt (suc fuel) [] [] 1 columns c
            (message b'D' row ++ complete) tt tt (omega arith) (omega arith) (omega arith) h₁ in
        let (size₂, run₂) =
          pg_next_row-data fuel sys.alloc (record { buf_size = size₁; text = described }) row
            complete prompt.granted (omega (arith, n)) in
        let (size₃, run₃) =
          pg_next_row_complete fuel sys.alloc (record { buf_size = size₂; text = described ++ row })
            tag rest prompt.granted (omega arith) in
        let text : (described ++ row) ++ tag ≡ c.conn.text ++ one_value_text columns v tag =
          append_assoc described row tag
          ∙ append_assoc c.conn.text (htons 1 ++ columns) (row ++ tag) in
        record {
          size₁ = size₁;
          size₂ = size₂;
          size₃ = size₃;
          result = run₁;
          first = rw run₂ refl;
          value = pg_value-one described v (omega arith);
          last = rw run₃ (ap (λ t. ok (true, false, none, with_buffer size₃ t, rest)) text);
        }

    pub read_response-one_value :
        (size : ℕ) × (read_response (suc fuel) sys c (one_value columns v tag rest)
          ≡ ok (
            some (shown (length described) v),
            with_buffer size (c.conn.text ++ one_value_text columns v tag),
            rest,
          ))
    unfolding read_response value_or_zero
    read_response-one_value =
        let steps = one_value-steps in
        (steps.size₃, rw (read_response, steps.result, steps.first, steps.value, steps.last) refl)

    pub read_status-one_value :
        (size : ℕ) × (read_status (suc fuel) sys c (one_value columns v tag rest)
          ≡ ok (
            some (shown (length described) v),
            with_buffer size (c.conn.text ++ one_value_text columns v tag),
            rest,
          ))
    unfolding read_status value_or_zero
    read_status-one_value =
        let steps = one_value-steps in
        (steps.size₃, rw (read_status, steps.result, steps.first, steps.value, steps.last) refl)
