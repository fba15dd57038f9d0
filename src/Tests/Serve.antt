-- ===== src/Tests/Serve.antt =====
-- Routes with parameters, and requests that a worker hands to the database, and the theorems on their answers.
use plmuggin.Base.{List, some, ◌≡◌, refl, true, false, [], ◌∷◌, arith, Bytes, codes}
use plmuggin.Mugshot.Http.{HttpConn, get, text_html, req_done}
use plmuggin.Mugshot.Route.Parameters.{Segment, literal, parameter, mugshot_path_match-slashes}
use plmuggin.Mugshot.Route.{mugshot_path_match}
use plmuggin.Mugshot.Worker.Serve.Answer.{
  Answers, answers_text, request_messages, mugshot_serve_pg-response_text,
}
use plmuggin.Mugshot.Worker.Serve.Refusal.{refusal, refusal_text, mugshot_serve_pg-refusal}
use plmuggin.Mugshot.Worker.Serve.Response.{response_text}
use plmuggin.Mugshot.Worker.Serve.{reason_phrase, http_status, mugshot_serve_pg}
use plmuggin.Mugshot.Worker.{EndpointArg, Endpoint}
use plmuggin.Pgwire.Connect.{fresh_connection}
use plmuggin.Pgwire.Session.Fields.{report}
use plmuggin.Pgwire.Session.{err_none}
use plmuggin.Result.{ok, Returns}
use plmuggin.Tests.Session.{calm_system, calm_system-IsPrompt, syntax_error, syntax_error-AreFields}

abbrev asking : HttpConn
asking = record {
  method = get;
  path = codes "/hi";
  query_parameters = [];
  headers = [];
  content_length = 0;
  body_start = 0;
  body_type = text_html;
  state = req_done;
  buf_capacity = 8192;
  behind = [];
  dangling = false;
  sent = [];
}

abbrev hello : Endpoint
hello = record {
  method = get;
  name = codes "hello";
  schema = codes "api";
  path = codes "/hi";
  content_type = text_html;
  args = record { name = codes "who"; oid = 25; path = false } ∷ [];
}

abbrev hello_sql : Bytes
hello_sql = codes "SELECT \"api\".\"hello\"($1);"

abbrev hello_answers : Answers
hello_answers = record {
  set_tag = codes "SET";
  columns = [];
  value = codes "hi you";
  tag = codes "SELECT 1";
  status_columns = [];
  status = codes "200";
  status_tag = codes "SELECT 1";
  ready = b'I';
}

mugshot_serve_pg-response_text_example :
    Returns
      (mugshot_serve_pg 9 calm_system hello asking fresh_connection
        (codes "you" ∷ [])
        (answers_text hello_answers []))
      (λ x.
        (x.client ≡ record asking {
          sent = response_text (codes "200") (codes "text/html") (codes "hi you");
        })
        × (x.connection.conn.text ≡ [])
        × (x.written ≡ request_messages hello_sql (25 ∷ []) (codes "you" ∷ []))
        × (x.left ≡ []))
unfolding plmuggin.Mugshot.Worker.Serve.content_type_str plmuggin.Mugshot.Worker.Sql.serve_sql
    plmuggin.Mugshot.Worker.Sql.print_args plmuggin.Mugshot.Worker.Sql.print_sql
    plmuggin.Strbuf.decimal_from
mugshot_serve_pg-response_text_example =
    mugshot_serve_pg-response_text calm_system calm_system-IsPrompt 8 hello_answers (omega arith)
      hello asking fresh_connection (codes "you" ∷ []) hello_sql (codes "text/html") [] refl refl
      refl (λ e. cc)

-- the text of that answer
hello_response :
    response_text (codes "200") (codes "text/html") (codes "hi you")
    ≡ codes
        "HTTP/1.1 200 OK\r\nContent-Type: text/html\r\nContent-Length: 6\r\nConnection: close\r\n\r\nhi you"
unfolding reason_phrase plmuggin.Str.str_eq plmuggin.Strbuf.decimal_from
hello_response = refl

mugshot_serve_pg-refusal_example :
    Returns
      (mugshot_serve_pg 9 calm_system hello asking fresh_connection
        (codes "you" ∷ [])
        (refusal_text (codes "SET") true syntax_error b'I' []))
      (λ x.
        (x.client ≡ refusal (report syntax_error fresh_connection.error) asking)
        × (x.connection.conn.text ≡ [])
        × (x.connection.error.severity ≡ err_none)
        × (x.connection.close ≡ false)
        × (x.left ≡ []))
unfolding plmuggin.Mugshot.Worker.Sql.serve_sql plmuggin.Mugshot.Worker.Sql.print_args
    plmuggin.Mugshot.Worker.Sql.print_sql plmuggin.Strbuf.decimal_from
mugshot_serve_pg-refusal_example =
    mugshot_serve_pg-refusal calm_system calm_system-IsPrompt 9 (codes "SET") true syntax_error b'I'
      hello asking fresh_connection (codes "you" ∷ []) hello_sql [] (omega arith)
      syntax_error-AreFields (omega arith) refl refl (λ e. cc)

-- the route `/todo/:id/done` and the path `/todo/7/done`
abbrev todo_done : List Segment
todo_done =
    literal []
    ∷ literal (codes "todo")
    ∷ parameter (codes "id") b'7' []
    ∷ literal (codes "done")
    ∷ []

mugshot_path_match-slashes_example :
    mugshot_path_match (codes "/todo/:id/done") (codes "id" ∷ []) (codes "/todo/7/done")
    ≡ ok (true, some (codes "7") ∷ [])
unfolding plmuggin.Mugshot.Route.find_arg plmuggin.Str.str_eq
mugshot_path_match-slashes_example = mugshot_path_match-slashes (codes "id" ∷ []) todo_done (
  tt,
  (
    tt,
    (
      ((λ e. absurd (omega (arith, e))), (refl, tt), (refl, (refl, (refl, tt))), (0, refl)),
      (tt, tt),
    ),
  ),
)
