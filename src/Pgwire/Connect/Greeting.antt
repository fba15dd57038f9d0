-- ===== src/Pgwire/Connect/Greeting.antt =====
-- The greeting of a server, and what read_startup_messages of mugshot/pgwire.c makes of it.
use plmuggin.Base.{
  ℕ, zero, suc, ◌+◌, ◌^◌, ◌<◌, ◌≡◌, ◌≢◌, refl, sym, ap, ◌∙◌, Bool, true, false, some, List, [], ◌∷◌,
  ◌++◌, append_assoc, arith, ◌==◌, if◌then◌else◌, Bytes, length, length-append, take, take-append,
  All,
}
use plmuggin.Pgwire.Connect.{startup_message, startup_loop, read_startup_messages}
use plmuggin.Pgwire.Frames.{message}
use plmuggin.Pgwire.Read.{read_msg-message}
use plmuggin.Pgwire.Row.{get_i32-append}
use plmuggin.Pgwire.Session.Messages.{IsPrompt}
use plmuggin.Pgwire.Session.{PgConn, System}
use plmuggin.Pgwire.Value.{get_i32}
use plmuggin.Pgwire.{Conn, htonl}
use plmuggin.Result.{ok}

-- What a server says before it is ready: the result of the authentication, the data to cancel a
-- query with, or anything else.
pub data Greeting : Type 0 where
  authentication : ℕ → Greeting
  key_data : ℕ → ℕ → Greeting
  greeting : ℕ → Bytes → Greeting

abbrev pub IsGreeting : Greeting → Type 0
IsGreeting (authentication status) = status < 2 ^ 32
IsGreeting (key_data pid key) = (pid < 2 ^ 32) × (key < 2 ^ 32)
IsGreeting (greeting type payload) =
    (type ≢ b'R') × (type ≢ b'K') × (type ≢ b'Z') × (length payload + 4 < 2 ^ 32)

abbrev pub greeting_text : Greeting → Bytes
greeting_text (authentication status) = htonl status
greeting_text (key_data pid key) = htonl pid ++ htonl key
greeting_text (greeting type payload) = payload

abbrev pub greeting_type : Greeting → ℕ
greeting_type (authentication status) = b'R'
greeting_type (key_data pid key) = b'K'
greeting_type (greeting type payload) = type

-- The greetings, and ReadyForQuery behind them.
abbrev pub greetings : List Greeting → ℕ → Bytes → Bytes
greetings [] status rest = message b'Z' (status ∷ []) ++ rest
greetings (g ∷ gs) status rest =
    message (greeting_type g) (greeting_text g) ++ greetings gs status rest

-- Whether one of the greetings is a successful authentication.
abbrev accepts : Greeting → Bool → Bool
accepts (authentication status) b = if status == 0 then true else b
accepts _ b = b

abbrev pub is_accepted : List Greeting → Bool → Bool
is_accepted [] b = b
is_accepted (g ∷ gs) b = is_accepted gs (accepts g b)

-- The data to cancel a query with, which the last such greeting sets.
abbrev key_of : Greeting → ℕ × ℕ → ℕ × ℕ
key_of (key_data pid key) k = (pid, key)
key_of _ k = k

abbrev pub keys : List Greeting → ℕ × ℕ → ℕ × ℕ
keys [] k = k
keys (g ∷ gs) k = keys gs (key_of g k)

module _ (sys : System) (prompt : IsPrompt sys) where
  -- One greeting.
  startup_message-greeting :
      (g : Greeting) (auth_ok : Bool) (c : PgConn) (size : ℕ)
      → IsGreeting g
      → startup_message
          (record {
            type = greeting_type g;
            len = length (greeting_text g);
            payload = length c.conn.text;
          })
          auth_ok
          (record c { conn = record { buf_size = size; text = c.conn.text ++ greeting_text g } })
        ≡ ok (
          accepts g auth_ok,
          record c {
            conn = record { buf_size = size; text = c.conn.text ++ greeting_text g };
            pid = (key_of g (c.pid, c.secret_key)).0;
            secret_key = (key_of g (c.pid, c.secret_key)).1;
          },
        )
  unfolding startup_message
  startup_message-greeting (authentication status) auth_ok c size h =
      rw (get_i32-append c.conn.text status [] h) refl
  startup_message-greeting (key_data pid key) auth_ok c size (h, k) =
      let second : get_i32 (c.conn.text ++ (htonl pid ++ htonl key)) (length c.conn.text + 4)
          ≡ ok key =
        ap (λ t. get_i32 t (length c.conn.text + 4))
          (sym (append_assoc c.conn.text (htonl pid) (htonl key)))
        ∙ ap (get_i32 ((c.conn.text ++ htonl pid) ++ htonl key))
            (sym (length-append c.conn.text (htonl pid)))
        ∙ get_i32-append (c.conn.text ++ htonl pid) key [] k in
      rw (get_i32-append c.conn.text pid (htonl key) h, second) refl
  startup_message-greeting (greeting type payload) auth_ok c size (r, k, z, short) =
      let nr : (type == b'R') ≡ false = ground arith in
      let nk : (type == b'K') ≡ false = ground arith in rw (nr, nk) refl

  greeting-type : (g : Greeting) → IsGreeting g → (greeting_type g == b'Z') ≡ false
  greeting-type (authentication status) h = refl
  greeting-type (key_data pid key) h = refl
  greeting-type (greeting type payload) (r, k, z, short) = ground arith

  greeting-short : (g : Greeting) → IsGreeting g → length (greeting_text g) + 4 < 2 ^ 32
  greeting-short (authentication status) h = omega arith
  greeting-short (key_data pid key) h = omega arith
  greeting-short (greeting type payload) (r, k, z, short) = short

  startup_loop-greeting :
      (fuel type : ℕ) (auth_ok : Bool) (g : Greeting) (c : PgConn) (rest : Bytes)
      → (type == b'Z') ≡ false
      → IsGreeting g
      → (size : ℕ) × (startup_loop
            (suc fuel)
            sys
            type
            auth_ok
            c
            (message (greeting_type g) (greeting_text g) ++ rest)
          ≡ startup_loop fuel sys
              (greeting_type g)
              (accepts g auth_ok)
              (record c {
                conn = record { buf_size = size; text = c.conn.text ++ greeting_text g };
                pid = (key_of g (c.pid, c.secret_key)).0;
                secret_key = (key_of g (c.pid, c.secret_key)).1;
              })
              rest)
  unfolding startup_loop
  startup_loop-greeting fuel type auth_ok g c rest nz h =
      let (size, run) =
        read_msg-message sys.alloc c.conn (greeting_type g) (greeting_text g) rest prompt.granted
          (greeting-short g h) in
      (size, rw (startup_loop, nz, run, startup_message-greeting g auth_ok c size h) refl)

  startup_loop-ready :
      (fuel type : ℕ) (auth_ok : Bool) (status : ℕ) (c : PgConn) (rest : Bytes)
      → (type == b'Z') ≡ false
      → (size : ℕ) × (startup_loop
            (suc (suc fuel))
            sys
            type
            auth_ok
            c
            (message b'Z' (status ∷ []) ++ rest)
          ≡ ok (
              some (
                auth_ok,
                record c { conn = record { buf_size = size; text = c.conn.text ++ status ∷ [] } },
                rest,
              )))
  unfolding startup_loop startup_message
  startup_loop-ready fuel type auth_ok status c rest nz =
      let (size, run) =
        read_msg-message sys.alloc c.conn b'Z' (status ∷ []) rest prompt.granted (omega arith) in
      (size, rw (startup_loop, nz, run) refl)

  -- The loop over all of the greetings.
  startup_loop-greetings :
      (gs : List Greeting) (fuel type : ℕ) (auth_ok : Bool) (status : ℕ) (c : PgConn) (rest : Bytes)
      → All IsGreeting gs
      → (type == b'Z') ≡ false
      → length gs + 1 < fuel
      → (conn : Conn) × (more : Bytes) × (conn.text ≡ c.conn.text ++ more)
        × (startup_loop fuel sys type auth_ok c (greetings gs status rest)
            ≡ ok (
                some (
                  is_accepted gs auth_ok,
                  record c {
                    conn = conn;
                    pid = (keys gs (c.pid, c.secret_key)).0;
                    secret_key = (keys gs (c.pid, c.secret_key)).1;
                  },
                  rest,
                )))
  startup_loop-greetings gs zero type auth_ok status c rest h nz lt = absurd (omega arith)
  startup_loop-greetings gs (suc zero) type auth_ok status c rest h nz lt = absurd (omega arith)
  startup_loop-greetings [] (suc (suc fuel)) type auth_ok status c rest h nz lt =
      let (size, run) = startup_loop-ready fuel type auth_ok status c rest nz in
      (record { buf_size = size; text = c.conn.text ++ status ∷ [] }, status ∷ [], refl, run)
  startup_loop-greetings (g ∷ gs) (suc (suc fuel)) type auth_ok status c rest (h, hs) nz lt =
      let (size, run) =
        startup_loop-greeting (suc fuel) type auth_ok g c (greetings gs status rest) nz h in
      let (conn, more, text, run') =
        startup_loop-greetings gs (suc fuel) (greeting_type g) (accepts g auth_ok) status
          (record c {
            conn = record { buf_size = size; text = c.conn.text ++ greeting_text g };
            pid = (key_of g (c.pid, c.secret_key)).0;
            secret_key = (key_of g (c.pid, c.secret_key)).1;
          })
          rest hs (greeting-type g h) (omega arith) in
      (
        conn,
        greeting_text g ++ more,
        text ∙ append_assoc c.conn.text (greeting_text g) more,
        run ∙ run',
      )

  pub read_startup_messages-greetings :
      (gs : List Greeting) (fuel type status : ℕ) (c : PgConn) (rest : Bytes)
      → All IsGreeting gs
      → (type == b'Z') ≡ false
      → length gs + 1 < fuel
      → (size : ℕ) × (read_startup_messages fuel sys type c (greetings gs status rest)
          ≡ ok (
            is_accepted gs false,
            record c {
              conn = record { buf_size = size; text = c.conn.text };
              pid = (keys gs (c.pid, c.secret_key)).0;
              secret_key = (keys gs (c.pid, c.secret_key)).1;
            },
            rest,
          ))
  unfolding read_startup_messages
  read_startup_messages-greetings gs fuel type status c rest h nz lt =
      let (conn, more, text, run) =
        startup_loop-greetings gs fuel type false status c rest h nz lt in
      let cut : take (length c.conn.text) conn.text ≡ c.conn.text =
        ap (take (length c.conn.text)) text ∙ take-append c.conn.text more in
      (conn.buf_size, rw (read_startup_messages, run, cut) refl)
