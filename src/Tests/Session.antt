-- ===== src/Tests/Session.antt =====
-- Connections, queries and errors with a server that answers whole, and their theorems applied to
-- them.
use plmuggin.Base.{
  ℕ, ◌≡◌, refl, true, false, Option, none, some, List, [], ◌∷◌, ◌++◌, arith, ◌==◌, Bytes, codes,
  All, length, lacks-Lacks, if◌then◌else◌,
}
use plmuggin.Mugshot.Worker.Connection.{IsSleep, ensure_connection, ensure_connection-replicate}
use plmuggin.Pgwire.Connect.Startup.{startup_bytes, pg_connect-greetings}
use plmuggin.Pgwire.Connect.Greeting.{Greeting, authentication, key_data, greeting, greetings}
use plmuggin.Pgwire.Connect.{ConnInfo, fresh_connection, pg_connect, extract_val}
use plmuggin.Pgwire.Frames.{message}
use plmuggin.Pgwire.NextRow.{pg_next_row}
use plmuggin.Pgwire.Query.Rows.{completes, pg_read_result-pg_value, pg_read_result-error}
use plmuggin.Pgwire.Query.{failed_result, pg_read_result, pg_oid_name}
use plmuggin.Pgwire.Row.{row_bytes, Shows}
use plmuggin.Pgwire.Session.Fields.{Field, AreFields, fields_text, notices_of, report}
use plmuggin.Pgwire.Session.Messages.{IsPrompt}
use plmuggin.Pgwire.Session.Handled.{Shrinks}
use plmuggin.Pgwire.Session.Termination.{notice, error, reply, expect_msg-Returns}
use plmuggin.Pgwire.Session.{System, err_error, expect_msg, pg_clear}
use plmuggin.Pgwire.Value.{PgVal, pg_value}
use plmuggin.Pgwire.{htons}
use plmuggin.Result.{ok, Returns}

-- a system that grants and gives whatever is asked for
abbrev pub calm_system : System
calm_system = record {
  alloc = λ n. true;
  read_bytes = λ s n. n;
  write_result = λ s. some (length s);
}

pub calm_system-IsPrompt : IsPrompt calm_system
calm_system-IsPrompt = record { granted = λ n. refl; whole = λ s n. omega arith }

abbrev pub field_of : ℕ → Bytes → Field
field_of code text = record { code = code; text = text }

-- a syntax error, as its fields
abbrev pub syntax_error : List Field
syntax_error =
    field_of b'S' (codes "ERROR")
    ∷ field_of b'V' (codes "ERROR")
    ∷ field_of b'M' (codes "syntax error")
    ∷ []

pub syntax_error-AreFields : AreFields syntax_error
syntax_error-AreFields = (
  (
    ((λ e. absurd (omega (arith, e))), lacks-Lacks 0 (codes "ERROR") refl),
    (
      ((λ e. absurd (omega (arith, e))), lacks-Lacks 0 (codes "ERROR") refl),
      (((λ e. absurd (omega (arith, e))), lacks-Lacks 0 (codes "syntax error") refl), tt),
    ),
  ),
  omega arith,
)

-- what the connection keeps of it
reported :
    report syntax_error fresh_connection.error
    ≡ record { message = codes "syntax error"; severity = err_error }
reported = refl

pg_read_result-error_example :
    (size : ℕ) × (pg_read_result 9 calm_system fresh_connection
        (message b'E' (fields_text syntax_error) ++ (message b'Z' (b'I' ∷ []) ++ []))
      ≡ ok (
          failed_result
            (record fresh_connection {
              conn = record { buf_size = size; text = [] };
              error = report syntax_error fresh_connection.error;
              close = false;
            })
            []))
pg_read_result-error_example =
    pg_read_result-error calm_system calm_system-IsPrompt 9 false [] [] [] b'I' syntax_error
      fresh_connection [] tt tt tt syntax_error-AreFields (omega arith)

abbrev small_notice : List Field
small_notice = field_of b'S' (codes "NOTICE") ∷ field_of b'M' (codes "a") ∷ []

small_notice-AreFields : AreFields small_notice
small_notice-AreFields = (
  (
    ((λ e. absurd (omega (arith, e))), lacks-Lacks 0 (codes "NOTICE") refl),
    (((λ e. absurd (omega (arith, e))), lacks-Lacks 0 (codes "a") refl), tt),
  ),
  omega arith,
)

-- one column, and a row with the value `hi` behind a notice
abbrev hello_row : List (Option Bytes)
hello_row = some (codes "hi") ∷ []

pg_read_result-pg_value_example :
    Returns
      (pg_read_result 9 calm_system fresh_connection (
        completes [] [] (
          message b'T' (htons 1 ++ [])
          ++ notices_of (small_notice ∷ []) (message b'D' (row_bytes hello_row) ++ []))))
      (λ x.
        (x.0.success ≡ true)
        × (x.0.fields ≡ 1)
        × Returns (pg_next_row 9 calm_system.alloc x.1.conn x.2) (λ y.
          (y.0.has_row ≡ true)
          × (y.2 ≡ [])
          × Returns
              (pg_value y.1.text y.0.row_start 0)
              (λ o. (v : PgVal) × (o ≡ some v) × Shows y.1.text (some (codes "hi")) v)))
pg_read_result-pg_value_example =
    pg_read_result-pg_value calm_system calm_system-IsPrompt 9 [] [] 1 [] (small_notice ∷ [])
      fresh_connection hello_row [] 0 (some (codes "hi")) tt tt (small_notice-AreFields, tt)
      (omega arith) (omega arith) (omega arith) (omega arith) refl (omega arith) (omega arith)

-- a notice, an error, and ReadyForQuery of which the last byte is missing
abbrev broken_off : Bytes
broken_off =
    message b'N' (fields_text small_notice)
    ++ (message b'E' (fields_text syntax_error) ++ (b'Z' ∷ 0 ∷ 0 ∷ 0 ∷ 5 ∷ []))

expect_msg-Returns_example :
    Returns
      (expect_msg 100 calm_system b'1' (some 4) fresh_connection broken_off)
      (Shrinks broken_off)
unfolding plmuggin.Str.char_at
expect_msg-Returns_example =
    expect_msg-Returns calm_system 100 b'1' (some 4) fresh_connection broken_off
      (notice small_notice small_notice-AreFields (
        error syntax_error syntax_error-AreFields
          (reply (λ e. absurd (omega (arith, e))) (λ e. absurd (omega (arith, e))))))
      (omega arith)

-- a connection string, and the greetings of its server
abbrev small_pairs : List (Bytes × Bytes)
small_pairs = (codes "user", codes "me") ∷ (codes "port", codes "81") ∷ []

abbrev small_info : ConnInfo
small_info = record { address = 0; port = 81; database = []; user = codes "me"; password = [] }

abbrev small_greetings : List Greeting
small_greetings = authentication 0 ∷ greeting b'S' (codes "x") ∷ key_data 7 9 ∷ []

pg_connect-greetings_example :
    (size : ℕ) × (pg_connect 9 calm_system
        (λ s. none)
        (λ a p. if p == 81 then some (greetings small_greetings b'I' []) else none)
        0
        (codes "user=me port=81")
      ≡ ok (
          some (
            startup_bytes small_info,
            record fresh_connection {
              conn = record { buf_size = size; text = [] };
              pid = 7;
              secret_key = 9;
            },
            [],
          )))
unfolding plmuggin.Pgwire.Connect.set_field plmuggin.Str.str_eq plmuggin.Str.str_to_long
pg_connect-greetings_example =
    pg_connect-greetings calm_system calm_system-IsPrompt (λ s. none)
      (λ a p. if p == 81 then some (greetings small_greetings b'I' []) else none) small_pairs
      small_info small_greetings 9 0 b'I' []
      ((
        (
          (refl, (refl, (refl, (refl, tt)))),
          (refl, (refl, (refl, (refl, tt)))),
          (refl, (refl, tt)),
        ),
        (
          (
            (refl, (refl, (refl, (refl, tt)))),
            (refl, (refl, (refl, (refl, tt)))),
            (refl, (refl, tt)),
          ),
          tt,
        ),
      ))
      refl refl (cc)
      (
        omega arith,
        (
          (
            (λ e. absurd (omega (arith, e))),
            (λ e. absurd (omega (arith, e))),
            (λ e. absurd (omega (arith, e))),
            omega arith,
          ),
          ((omega arith, omega arith), tt),
        ),
      )
      refl (omega arith) (omega arith)

cleared : (pg_clear fresh_connection).conn.text ≡ []
unfolding pg_clear
cleared = refl

negative_oid : pg_oid_name 4294967295 ≡ codes "-1"
unfolding pg_oid_name plmuggin.Strbuf.decimal_from
negative_oid = refl

one_value : extract_val (codes "me  port" ++ 0 ∷ []) ≡ ok (codes "me", codes "port" ++ 0 ∷ [])
unfolding extract_val plmuggin.Pgwire.Connect.skip_blanks
one_value = refl

ensure_connection-replicate_example :
    (slept : List ℕ) × (ensure_connection none (none ∷ none ∷ some fresh_connection ∷ [])
      ≡ some (fresh_connection, slept))
    × (length slept ≡ 2)
    × All IsSleep slept
ensure_connection-replicate_example = ensure_connection-replicate none 2 fresh_connection [] tt

two_failures :
    ensure_connection none (none ∷ none ∷ some fresh_connection ∷ [])
    ≡ some (fresh_connection, 5 ∷ 10 ∷ [])
unfolding ensure_connection plmuggin.Mugshot.Worker.Connection.connect_again
    plmuggin.Mugshot.Worker.Connection.next_sleep
two_failures = refl
