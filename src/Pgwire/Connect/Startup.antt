-- ===== src/Pgwire/Connect/Startup.antt =====
-- A connection is set up: the startup message that pg_connect of mugshot/pgwire.c sends, and what it makes of
-- the greeting of the server.
use plmuggin.Base.{
  ℕ, zero, suc, ◌+◌, ◌<◌, ◌≡◌, ◌≢◌, refl, sym, ap, ◌∙◌, Bool, true, false, Option, none, some, List,
  [], ◌∷◌, ◌++◌, arith, ◌==◌, Bytes, codes, length, All,
}
use plmuggin.Pgwire.Connect.Info.{IsPair, pairs_text, set_fields, connection_info-pairs_text}
use plmuggin.Pgwire.Connect.{
  ConnInfo, default_info, Resolver, Dial, put_nul_str, put_parameter, put_startup, fresh_connection,
  start_up, pg_connect,
}
use plmuggin.Pgwire.Frames.{Puts, put-Puts, Puts-then, Puts-nil, counted-HasRoom}
use plmuggin.Pgwire.Query.{after_write, pg_send}
use plmuggin.Pgwire.Session.Messages.{IsPrompt}
use plmuggin.Pgwire.Session.{PgConn, System}
use plmuggin.Pgwire.{Conn, htonl, min_buffer_size, put_i32, put_string, put_ch}
use plmuggin.Result.{ok}
use plmuggin.Pgwire.Connect.Greeting.{
  Greeting, IsGreeting, greetings, is_accepted, keys, read_startup_messages-greetings,
}

-- The startup message: its length, the version 3.0 of the protocol, the parameters that are not
-- empty, and a NUL byte.
abbrev pub parameter_bytes : Bytes → Bytes → Bytes
parameter_bytes name [] = []
parameter_bytes name (x ∷ s) = (name ++ 0 ∷ []) ++ ((x ∷ s) ++ 0 ∷ [])

abbrev pub startup_payload : ConnInfo → Bytes
startup_payload info =
    htonl 196608
    ++ (parameter_bytes (codes "user") info.user
        ++ (parameter_bytes (codes "database") info.database
            ++ (parameter_bytes (codes "password") info.password ++ (0 ∷ []))))

abbrev pub startup_bytes : ConnInfo → Bytes
startup_bytes info = htonl (4 + length (startup_payload info)) ++ startup_payload info

put_parameter-Puts :
    (alloc : ℕ → Bool) (name value : Bytes)
    → Puts alloc (put_parameter alloc name value) (parameter_bytes name value)
unfolding put_parameter put_string put_nul_str
put_parameter-Puts alloc name [] = Puts-nil alloc
put_parameter-Puts alloc name (x ∷ s) =
    Puts-then (put-Puts alloc (name ++ 0 ∷ [])) (put-Puts alloc ((x ∷ s) ++ 0 ∷ []))

put_startup-startup_bytes :
    (alloc : ℕ → Bool) (info : ConnInfo)
    → ((n : ℕ) → alloc n ≡ true)
    → (d : Conn) × (put_startup alloc info fresh_connection.conn ≡ ok (true, d))
      × (d.text ≡ startup_bytes info)
unfolding put_startup put_i32 put_ch
put_startup-startup_bytes alloc info granted =
    let ((flag, d), run, a) =
      counted-HasRoom fresh_connection.conn
        (Puts-then (put-Puts alloc (htonl 196608)) (
          Puts-then (put_parameter-Puts alloc (codes "user") info.user) (
            Puts-then (put_parameter-Puts alloc (codes "database") info.database) (
              Puts-then (put_parameter-Puts alloc (codes "password") info.password)
                (put-Puts alloc (0 ∷ []))))))
        (omega arith) in
    let e : flag ≡ true = a.granted granted in (d, run ∙ ap (λ b. ok (b, d)) e, a.text e)

pub after_write-true :
    (o : Option ℕ) (c : PgConn)
    → o ≢ some 0
    → after_write o c ≡ (true, record c { conn = record c.conn { text = [] } })
unfolding after_write
after_write-true none c n = refl
after_write-true (some zero) c n = absurd (n refl)
after_write-true (some (suc k)) c n = refl

module _ (sys : System) (prompt : IsPrompt sys) where
  -- A connection to a server that accepts it: the connection string names the server by fields
  -- that pg_connect knows, the server is there, and greets with a successful authentication and
  -- ReadyForQuery among whatever else. Then pg_connect has written the startup message with the
  -- user, the database and the password of the string, and gives a connection with an empty buffer
  -- and the last data to cancel a query with; what came behind ReadyForQuery is still to be read.
  -- The type that stands in the unset message is not that of ReadyForQuery, write does not return 0, and no memory
  -- is refused.
  pub pg_connect-greetings :
      (resolve : Resolver) (dial : Dial) (ps : List (Bytes × Bytes)) (info : ConnInfo)
      (gs : List Greeting) (fuel type status : ℕ) (rest : Bytes)
      → All IsPair ps
      → set_fields resolve ps default_info ≡ some info
      → dial info.address info.port ≡ some (greetings gs status rest)
      → sys.write_result (startup_bytes info) ≢ some 0
      → All IsGreeting gs
      → is_accepted gs false ≡ true
      → type ≢ b'Z'
      → length gs + 1 < fuel
      → (size : ℕ) × (pg_connect fuel sys resolve dial type (pairs_text ps)
          ≡ ok (
              some (
                startup_bytes info,
                record fresh_connection {
                  conn = record { buf_size = size; text = [] };
                  pid = (keys gs (0, 0)).0;
                  secret_key = (keys gs (0, 0)).1;
                },
                rest,
              )))
  unfolding pg_connect start_up pg_send
  pg_connect-greetings resolve dial ps info gs fuel type status rest hp set there written h welcome
        nz lt =
      let (d, put, text) = put_startup-startup_bytes sys.alloc info prompt.granted in
      let parsed =
        connection_info-pairs_text resolve ps (length (pairs_text ps) + 1) default_info hp
          (omega arith) in
      let typed : (type == b'Z') ≡ false = ground arith in
      let out : after_write (sys.write_result d.text) (record fresh_connection { conn = d })
          ≡ (true, record fresh_connection { conn = record d { text = [] } }) =
        after_write-true (sys.write_result d.text) _
          (λ e. written (ap sys.write_result (sym text) ∙ e)) in
      let (size, run) =
        read_startup_messages-greetings sys prompt gs fuel type status
          (record fresh_connection { conn = record d { text = [] } }) rest h typed lt in
      (
        size,
        rw (pg_connect, parsed, set, there, prompt.granted min_buffer_size, put, out, run, welcome)
            (ap
              (λ t. ok (
                some (
                  t,
                  record fresh_connection {
                    conn = record { buf_size = size; text = [] };
                    pid = (keys gs (0, 0)).0;
                    secret_key = (keys gs (0, 0)).1;
                  },
                  rest,
                )))
              text),
      )
