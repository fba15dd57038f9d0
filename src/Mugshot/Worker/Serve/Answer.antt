-- ===== src/Mugshot/Worker/Serve/Answer.antt =====
-- mugshot_serve_pg of mugshot/mugshot.c from end to end: the queries that it sends, and the answer to its
-- client.
use plmuggin.Base.{
  ℕ, suc, ◌+◌, ◌^◌, ◌<◌, ◌≡◌, ◌≢◌, refl, sym, ap, ◌∙◌, Bool, true, some, inr, List, [], ◌∷◌, ◌++◌,
  append_assoc, arith, Bytes, length, map,
}
use plmuggin.Mugshot.Http.{HttpConn, http_header, http_header_sz, http_body}
use plmuggin.Mugshot.Worker.Serve.Response.{
  one_value, one_value_text, shown, value_in_buffer, response_text, read_response-one_value,
  read_status-one_value,
}
use plmuggin.Mugshot.Worker.Serve.{
  content_type_str, http_status, set_status_sql, get_status_sql, put_queries, read_results, respond,
  finish, exchange, mugshot_serve_pg,
}
use plmuggin.Mugshot.Worker.Sql.{serve_sql}
use plmuggin.Mugshot.Worker.{Endpoint}
use plmuggin.Pgwire.Connect.Startup.{after_write-true}
use plmuggin.Pgwire.Frames.{message, query_messages, Puts, Puts-then, put-Puts, pg_put_query-Puts}
use plmuggin.Pgwire.Query.Rows.{completes, pg_read_result-no_data}
use plmuggin.Pgwire.Query.{pg_send, pg_sync, pg_value_str}
use plmuggin.Pgwire.Row.{row_bytes}
use plmuggin.Pgwire.Session.Replies.{expect_msg-reply}
use plmuggin.Pgwire.Session.Messages.{IsPrompt}
use plmuggin.Pgwire.Session.{PgConn, System, pg_ready, expect_ready, pg_clear}
use plmuggin.Pgwire.Value.{PgVal}
use plmuggin.Pgwire.{htons, htonl, put_sync, put_ch, put_i32}
use plmuggin.Result.{ok, Returns}

-- The messages of the three queries and Sync.
abbrev pub queries_messages : Bytes → List ℕ → List Bytes → Bytes
queries_messages sql argtypes argvals =
    query_messages set_status_sql [] []
    ++ (query_messages sql argtypes argvals ++ query_messages get_status_sql [] [])

abbrev pub request_messages : Bytes → List ℕ → List Bytes → Bytes
request_messages sql argtypes argvals = queries_messages sql argtypes argvals ++ (b'S' ∷ htonl 4)

put_queries-Puts :
    (alloc : ℕ → Bool) (sql : Bytes) (argtypes : List ℕ) (argvals : List Bytes)
    → Puts alloc (put_queries alloc sql argtypes argvals) (queries_messages sql argtypes argvals)
unfolding put_queries
put_queries-Puts alloc sql argtypes argvals =
    Puts-then (pg_put_query-Puts alloc set_status_sql [] []) (
      Puts-then (pg_put_query-Puts alloc sql argtypes argvals)
        (pg_put_query-Puts alloc get_status_sql [] []))

put_sync-Puts : (alloc : ℕ → Bool) → Puts alloc (put_sync alloc) (b'S' ∷ htonl 4)
unfolding put_sync put_ch put_i32
put_sync-Puts alloc = Puts-then (put-Puts alloc (b'S' ∷ [])) (put-Puts alloc (htonl 4))

regroup : (x d r t s : Bytes) → (x ++ (d ++ (r ++ t))) ++ s ≡ (x ++ d) ++ (r ++ (t ++ s))
regroup x d r t s = simp append_assoc

-- The queries are written, and the rest is the exchange.
pub mugshot_serve_pg-exchange :
    (sys : System) (prompt : IsPrompt sys) (fuel : ℕ) (e : Endpoint) (client : HttpConn)
    (c : PgConn) (argvals : List Bytes) (sql socket : Bytes)
    → serve_sql e ≡ ok sql
    → c.conn.text ≡ []
    → sys.write_result (request_messages sql (map (λ p. p.oid) e.args) argvals) ≢ some 0
    → (size : ℕ) × (mugshot_serve_pg fuel sys e client c argvals socket
        ≡ exchange fuel sys e client
            (record c { conn = record { buf_size = size; text = [] } })
            (request_messages sql (map (λ p. p.oid) e.args) argvals)
            socket)
unfolding mugshot_serve_pg pg_sync pg_send
mugshot_serve_pg-exchange sys prompt fuel e client c argvals sql socket s empty written =
    let oids : List ℕ = map (λ p. p.oid) e.args in
    let ((flag, d), run, h) =
      put_queries-Puts sys.alloc sql oids argvals c.conn (omega (arith, ap length empty)) in
    let up : flag ≡ true = h.granted prompt.granted in
    let ((flag', d'), run', h') = put_sync-Puts sys.alloc d (omega (arith, h.fits up)) in
    let up' : flag' ≡ true = h'.granted prompt.granted in
    let all : d'.text ≡ request_messages sql oids argvals =
      h'.text up'
      ∙ ap (λ w. w ++ (b'S' ∷ htonl 4))
          (h.text up ∙ ap (λ w. w ++ queries_messages sql oids argvals) empty) in
    let out =
      after_write-true (sys.write_result d'.text) (record c { conn = d' })
        (λ z. written (ap sys.write_result (sym all) ∙ z)) in
    (
      d'.buf_size,
      rw (mugshot_serve_pg, s, run, run', up, up', out)
          (ap
            (λ w.
              exchange fuel sys e client
                (record c { conn = record { buf_size = d'.buf_size; text = [] } }) w socket)
            all),
    )

-- The value with its place in the buffer is the value.
pg_value_str-shown :
    (before v behind : Bytes)
    → pg_value_str (before ++ (row_bytes (some v ∷ []) ++ behind)) (shown (length before) v) ≡ v
unfolding pg_value_str
pg_value_str-shown before v behind = value_in_buffer before v behind

-- What is written to the client, piece by piece, is the response.
respond-response_text :
    (e : Endpoint) (client : HttpConn) (buf : Bytes) (response status : PgVal) (type v code : Bytes)
    → content_type_str e.content_type ≡ ok type
    → pg_value_str buf response ≡ v
    → response.len ≡ length v
    → pg_value_str buf status ≡ code
    → respond e client buf response status
      ≡ ok (record client { sent = client.sent ++ response_text code type v })
unfolding respond http_status http_header http_header_sz http_body
respond-response_text e client buf response status type v code t h n k =
    rw (t, h, n, k) (simp append_assoc)

-- What the database answers: to SET, to the call of the function with its value, and to the query for
-- the status; and ReadyForQuery.
pub record Answers : Type 0 where
  pub set_tag : Bytes
  pub columns : Bytes
  pub value : Bytes
  pub tag : Bytes
  pub status_columns : Bytes
  pub status : Bytes
  pub status_tag : Bytes
  pub ready : ℕ

abbrev pub answers_text : Answers → Bytes → Bytes
answers_text a rest = completes [] [] (
    message b'n' []
    ++ (message b'C' a.set_tag
        ++ one_value a.columns a.value a.tag (
            one_value a.status_columns a.status a.status_tag
              (message b'Z' (a.ready ∷ []) ++ rest))))

abbrev pub AreShort : Answers → Type 0
AreShort a =
    length a.set_tag
      + (length a.columns
          + (length a.value
              + (length a.tag
                  + (length a.status_columns + (length a.status + length a.status_tag)))))
      + 64
    < 2 ^ 31

module _ (sys : System) (prompt : IsPrompt sys) (fuel : ℕ) (a : Answers) (short : AreShort a) where
  -- The two values, as they are found.
  abbrev first_value : PgConn → PgVal
  first_value c = shown (length (c.conn.text ++ (htons 1 ++ a.columns))) a.value

  abbrev behind_first : PgConn → Bytes
  behind_first c = c.conn.text ++ one_value_text a.columns a.value a.tag

  abbrev second_value : PgConn → PgVal
  second_value c = shown (length (behind_first c ++ (htons 1 ++ a.status_columns))) a.status

  read_results-answers_text :
      (c : PgConn) (rest : Bytes)
      → (size : ℕ) × (read_results (suc fuel) sys c (answers_text a rest)
          ≡ ok (
            some (first_value c, second_value c),
            record c {
              conn = record {
                buf_size = size;
                text = behind_first c ++ one_value_text a.status_columns a.status a.status_tag;
              };
            },
            message b'Z' (a.ready ∷ []) ++ rest,
          ))
  unfolding read_results
  read_results-answers_text c rest =
      let end : Bytes = message b'Z' (a.ready ∷ []) ++ rest in
      let later : Bytes = one_value a.status_columns a.status a.status_tag end in
      let (size₀, run₀) =
        pg_read_result-no_data sys prompt (suc fuel) [] [] [] a.set_tag c
          (one_value a.columns a.value a.tag later) tt tt tt (omega arith) (omega arith)
          (omega arith) (omega arith) in
      let (size₁, run₁) =
        read_response-one_value sys prompt fuel a.columns a.value a.tag
          (record c { conn = record { buf_size = size₀; text = c.conn.text } }) later (omega arith)
          (omega arith) (omega arith) in
      let (size₂, run₂) =
        read_status-one_value sys prompt fuel a.status_columns a.status a.status_tag
          (record c { conn = record { buf_size = size₁; text = behind_first c } }) end (omega arith)
          (omega arith) (omega arith) in
      (size₂, rw (read_results, run₀, run₁, run₂) refl)

  -- The answer, and the connection that is left.
  exchange-answers_text :
      (e : Endpoint) (client : HttpConn) (c : PgConn) (written type rest : Bytes)
      → content_type_str e.content_type ≡ ok type
      → Returns (exchange (suc fuel) sys e client c written (answers_text a rest)) (λ x.
        (x.client ≡ record client { sent = client.sent ++ response_text a.status type a.value })
        × (x.connection.conn.text ≡ [])
        × (x.written ≡ written)
        × (x.left ≡ rest))
  unfolding exchange finish pg_ready expect_ready pg_clear
  exchange-answers_text e client c written type rest t =
      let (size, run) = read_results-answers_text c rest in
      let status_text : Bytes = one_value_text a.status_columns a.status a.status_tag in
      let buf : Bytes = behind_first c ++ status_text in
      let c' : PgConn = record c { conn = record { buf_size = size; text = buf } } in
      let v : pg_value_str buf (first_value c) ≡ a.value =
        ap (λ b. pg_value_str b (first_value c))
          (regroup c.conn.text (htons 1 ++ a.columns) (row_bytes (some a.value ∷ [])) a.tag
            status_text)
        ∙ pg_value_str-shown (c.conn.text ++ (htons 1 ++ a.columns)) a.value
            (a.tag ++ status_text) in
      let k : pg_value_str buf (second_value c) ≡ a.status =
        ap (λ b. pg_value_str b (second_value c))
          (sym (
            append_assoc (behind_first c) (htons 1 ++ a.status_columns)
              (row_bytes (some a.status ∷ []) ++ a.status_tag)))
        ∙ pg_value_str-shown (behind_first c ++ (htons 1 ++ a.status_columns)) a.status
            a.status_tag in
      let answered =
        respond-response_text e client buf (first_value c) (second_value c) type a.value a.status t
          v refl k in
      let (size', run') =
        expect_msg-reply sys prompt [] (suc fuel) b'Z' (some 5) (a.ready ∷ []) c' rest tt
          (omega arith) (omega arith) (omega arith) (inr refl) (omega arith) in
      (
        record {
          client = record client { sent = client.sent ++ response_text a.status type a.value };
          connection = pg_clear (record c { conn = record { buf_size = size'; text = buf } });
          written = written;
          left = rest;
        },
        rw (exchange, run, answered, run') refl,
        (refl, refl, refl, refl),
      )

  -- A request whose function gives one row with a value, where the database answers whole and the
  -- query fits its buffer: mugshot_serve_pg writes its three queries and Sync, answers the client
  -- with the status that was set, the content type of the endpoint, the length of the value and the
  -- value as the body, and leaves the connection with an empty buffer, at the end of what the
  -- database has answered. The answers are together shorter than 2 ^ 31 bytes, the buffer is empty
  -- before, and write does not return 0.
  pub mugshot_serve_pg-response_text :
      (e : Endpoint) (client : HttpConn) (c : PgConn) (argvals : List Bytes) (sql type rest : Bytes)
      → serve_sql e ≡ ok sql
      → content_type_str e.content_type ≡ ok type
      → c.conn.text ≡ []
      → sys.write_result (request_messages sql (map (λ p. p.oid) e.args) argvals) ≢ some 0
      → Returns (mugshot_serve_pg (suc fuel) sys e client c argvals (answers_text a rest)) (λ x.
        (x.client ≡ record client { sent = client.sent ++ response_text a.status type a.value })
        × (x.connection.conn.text ≡ [])
        × (x.written ≡ request_messages sql (map (λ p. p.oid) e.args) argvals)
        × (x.left ≡ rest))
  mugshot_serve_pg-response_text e client c argvals sql type rest s t empty written =
      let (size, run) =
        mugshot_serve_pg-exchange sys prompt (suc fuel) e client c argvals sql (answers_text a rest)
          s empty written in
      let (x, run', result) =
        exchange-answers_text e client (record c { conn = record { buf_size = size; text = [] } })
          (request_messages sql (map (λ p. p.oid) e.args) argvals) type rest t in
      (x, run ∙ run', result)
