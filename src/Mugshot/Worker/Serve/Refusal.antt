-- ===== src/Mugshot/Worker/Serve/Refusal.antt =====
-- What a client gets where the database refuses the call of the function: the errors of
-- mugshot_serve_pg of mugshot/mugshot.c.
use plmuggin.Base.{
  ℕ, ◌+◌, ◌^◌, ◌<◌, ◌≡◌, ◌≢◌, refl, ◌∙◌, Bool, false, not, ◌&&◌, some, List, [], ◌∷◌, ◌++◌, arith,
  Bytes, codes, length, map, lacks-Lacks, if◌then◌else◌,
}
use plmuggin.Mugshot.Http.{HttpConn, http_fail}
use plmuggin.Mugshot.Worker.Serve.Answer.{request_messages, mugshot_serve_pg-exchange}
use plmuggin.Mugshot.Worker.Serve.{
  is_none, internal_error, serve_fail, read_response, read_results, exchange, mugshot_serve_pg,
}
use plmuggin.Mugshot.Worker.Sql.{serve_sql}
use plmuggin.Mugshot.Worker.{Endpoint}
use plmuggin.Pgwire.Frames.{message}
use plmuggin.Pgwire.Query.Rows.{completes, pg_read_result-no_data, pg_read_result-error}
use plmuggin.Pgwire.Session.Fields.{
  Field, fields_text, AreFields, report, starts, strncmp_eq-starts,
}
use plmuggin.Pgwire.Session.Messages.{IsPrompt}
use plmuggin.Pgwire.Session.{PgConn, System, PgError, err_none, pg_clear}
use plmuggin.Result.{ok, Returns}

-- The answer to SET, and an error in place of ParseComplete or BindComplete of the call.
abbrev pub refusal_text : Bytes → Bool → List Field → ℕ → Bytes → Bytes
refusal_text set_tag parsed fs ready rest = completes [] [] (
    message b'n' []
    ++ (message b'C' set_tag
        ++ (let failing : Bytes =
              message b'E' (fields_text fs) ++ (message b'Z' (ready ∷ []) ++ rest) in
            if parsed then message b'1' [] ++ failing else failing)))

-- The answer to the client, by the error that the database reports.
abbrev pub refusal : PgError → HttpConn → HttpConn
refusal e client =
    if not (is_none e.severity) && starts e.message (codes "invalid input syntax")
    then http_fail client 400 (codes "Bad request")
    else http_fail client 501 internal_error

module _ (sys : System) (prompt : IsPrompt sys) (fuel : ℕ) (set_tag : Bytes) (parsed : Bool)
    (fs : List Field) (ready : ℕ) where
  -- An error of the database to the call of the function, at its ParseComplete or BindComplete: the client is
  -- answered 400 where the error has a severity and its message begins with "invalid input
  -- syntax", and 501 otherwise; the connection is left open, with an empty buffer and no error, at
  -- the end of what the database has answered. The query fits its buffer, the buffer is empty before,
  -- the database answers whole, and write does not return 0.
  pub mugshot_serve_pg-refusal :
      (e : Endpoint) (client : HttpConn) (c : PgConn) (argvals : List Bytes) (sql rest : Bytes)
      → length set_tag + 4 < 2 ^ 31
      → AreFields fs
      → 1 < fuel
      → serve_sql e ≡ ok sql
      → c.conn.text ≡ []
      → sys.write_result (request_messages sql (map (λ p. p.oid) e.args) argvals) ≢ some 0
      → Returns
          (mugshot_serve_pg fuel sys e client c argvals (refusal_text set_tag parsed fs ready rest))
          (λ x.
            (x.client ≡ refusal (report fs c.error) client)
            × (x.connection.conn.text ≡ [])
            × (x.connection.error.severity ≡ err_none)
            × (x.connection.close ≡ false)
            × (x.left ≡ rest))
  unfolding exchange read_results read_response serve_fail pg_clear
  mugshot_serve_pg-refusal e client c argvals sql rest short h lt s empty written =
      let (size, run) =
        mugshot_serve_pg-exchange sys prompt fuel e client c argvals sql
          (refusal_text set_tag parsed fs ready rest) s empty written in
      let failing : Bytes = message b'E' (fields_text fs) ++ (message b'Z' (ready ∷ []) ++ rest) in
      let (size₀, run₀) =
        pg_read_result-no_data sys prompt fuel [] [] [] set_tag
          (record c { conn = record { buf_size = size; text = [] } })
          (if parsed then message b'1' [] ++ failing else failing) tt tt tt (omega arith)
          (omega arith) (omega arith) short in
      let (size₁, run₁) =
        pg_read_result-error sys prompt fuel parsed [] [] [] ready fs
          (record c { conn = record { buf_size = size₀; text = [] } }) rest tt tt tt h
          (omega arith) in
      let message' =
        strncmp_eq-starts (report fs c.error).message (codes "invalid input syntax")
          (lacks-Lacks 0 (codes "invalid input syntax") refl) in
      (
        record {
          client = refusal (report fs c.error) client;
          connection = pg_clear (record c {
            conn = record { buf_size = size₁; text = [] };
            error = report fs c.error;
            close = false;
          });
          written = request_messages sql (map (λ p. p.oid) e.args) argvals;
          left = rest;
        },
        run ∙ rw (exchange, read_results, run₀, read_response, run₁, serve_fail, message') refl,
        (refl, refl, refl, refl, refl),
      )
