-- ===== src/Pgwire/Connect.antt =====
-- Connecting to the server: pg_connect, read_startup_messages and extract_val of mugshot/pgwire.c. The name
-- service and the socket are the operating system's.
pub mod Info
pub mod Greeting
pub mod Startup
use plmuggin.Base.{
  ℕ, zero, suc, ◌+◌, ◌%◌, ◌^◌, Bool, true, false, Option, none, some, [], ◌∷◌, ◌++◌, ◌==◌,
  if◌then◌else◌, Bytes, codes, length, take,
}
use plmuggin.Pgwire.Query.{pg_send}
use plmuggin.Pgwire.Read.{PgMessage, read_msg}
use plmuggin.Pgwire.Session.{PgConn, err_none, System, Replied}
use plmuggin.Pgwire.Value.{get_i32}
use plmuggin.Pgwire.{Conn, Put, ◌>>>◌, put, put_ch, put_i32, put_string, counted, min_buffer_size}
use plmuggin.Render.{c_string}
use plmuggin.Result.{Result, ok, fail, uninitialised, out_of_fuel, ◌>>=◌}
use plmuggin.Str.{str_splitat, str_eq, str_to_long}

-- where to connect, and the parameters of the startup message
pub record ConnInfo : Type 0 where
  pub address : ℕ
  pub port : ℕ
  pub database : Bytes
  pub user : Bytes
  pub password : Bytes

abbrev pub default_info : ConnInfo
default_info = record { address = 0; port = 5432; database = []; user = []; password = [] }

-- gethostbyname: the IPv4 address of a name, `none` where there is none or one of another type
abbrev pub Resolver : Type 0
Resolver = Bytes → Option ℕ

-- socket and connect: the bytes to come from the server, `none` where one of them fails
abbrev pub Dial : Type 0
Dial = ℕ → ℕ → Option Bytes

abbrev pub set_address : Option ℕ → ConnInfo → Option ConnInfo
set_address none info = none
set_address (some address) info = some (record info { address = address })

-- htons of a long
abbrev pub set_info_port : Option ℕ → ConnInfo → Option ConnInfo
set_info_port none info = none
set_info_port (some port) info = some (record info { port = port % 2 ^ 16 })

-- the tests of the key; `none` is the way to `return NULL`. The name of a host is cut to 127 bytes.
unfoldable pub set_field : Resolver → Bytes → Bytes → ConnInfo → Option ConnInfo
set_field resolve key value info =
    if str_eq key (codes "host")
    then set_address (resolve (take 127 (c_string value))) info
    else if str_eq key (codes "port")
    then set_info_port (str_to_long value) info
    else if str_eq key (codes "database")
    then some (record info { database = value })
    else if str_eq key (codes "user")
    then some (record info { user = value })
    else if str_eq key (codes "password")
    then some (record info { password = value })
    else none

-- the loop over the fields; each takes a byte at least. Of an empty field the key is not set.
unfoldable pub connection_info : ℕ → Resolver → Bytes → ConnInfo → Result (Option ConnInfo)
connection_info zero resolve ci info = fail out_of_fuel
connection_info (suc fuel) resolve ci info = elim (str_splitat ci (codes " ")) [
  | none ↦ ok (some info)
  | some (field, rest) ↦ elim (str_splitat field (codes "=")) [
    | none ↦ fail uninitialised
    | some (key, value) ↦ elim (set_field resolve key value info) [
      | none ↦ ok none
      | some info' ↦ connection_info fuel resolve rest info'
    ]
  ]
]

-- put_str
unfoldable pub put_nul_str : (ℕ → Bool) → Bytes → Put
put_nul_str alloc s = put alloc (s ++ 0 ∷ [])

-- a parameter, where it is not empty
unfoldable pub put_parameter : (ℕ → Bool) → Bytes → Bytes → Put
put_parameter alloc name [] c = ok (true, c)
put_parameter alloc name (x ∷ s) c = (put_string alloc name >>> put_nul_str alloc (x ∷ s)) c

-- the startup message
unfoldable pub put_startup : (ℕ → Bool) → ConnInfo → Put
put_startup alloc info = counted (
    put_i32 alloc 196608
    >>> (put_parameter alloc (codes "user") info.user
        >>> (put_parameter alloc (codes "database") info.database
            >>> (put_parameter alloc (codes "password") info.password >>> put_ch alloc 0))))

-- the switch over the type of a startup message
unfoldable pub startup_message : PgMessage → Bool → PgConn → Result (Bool × PgConn)
startup_message m auth_ok c =
    if m.type == b'R'
    then (do status ← get_i32 c.conn.text m.payload; ok (if status == 0 then true else auth_ok, c))
    else if m.type == b'K'
    then (do
      pid ← get_i32 c.conn.text m.payload
      secret_key ← get_i32 c.conn.text (m.payload + 4)
      ok (auth_ok, record c { pid = pid; secret_key = secret_key }))
    else ok (auth_ok, c)

-- the loop, which tests the type of the last message; `none` is the way to `return false` where
-- read_msg fails
unfoldable pub startup_loop :
    ℕ → System → ℕ → Bool → PgConn → Bytes → Result (Option (Bool × PgConn × Bytes))
startup_loop zero sys type auth_ok c socket = fail out_of_fuel
startup_loop (suc fuel) sys type auth_ok c socket = elim (type == b'Z') [
  | true ↦ ok (some (auth_ok, c, socket))
  | false ↦ elim (read_msg sys.alloc c.conn socket) [
    | none ↦ ok none
    | some (m, conn, rest) ↦ do
      (auth_ok', c') ← startup_message m auth_ok (record c { conn = conn })
      startup_loop fuel sys m.type auth_ok' c' rest
  ]
]

-- read_startup_messages. `type` is what m.type holds before the first message, which nothing has
-- set. Where read_msg fails the connection is given up.
unfoldable pub read_startup_messages : ℕ → System → ℕ → PgConn → Bytes → Result Replied
read_startup_messages fuel sys type c socket = do
  read ← startup_loop fuel sys type false c socket
  elim read [
    | none ↦ ok (false, c, socket)
    | some (auth_ok, c', rest) ↦ ok (
      auth_ok,
      record c' { conn = record c'.conn { text = take (length c.conn.text) c'.conn.text } },
      rest,
    )
  ]

-- the connection before its first message; pid and secret_key, which are not set, stand as 0
abbrev pub fresh_connection : PgConn
fresh_connection = record {
  conn = record { buf_size = min_buffer_size; text = [] };
  pid = 0;
  secret_key = 0;
  error = record { message = []; severity = err_none };
  close = false;
}

-- pg_connect behind `connect`; `none` is NULL. With the connection it gives what was handed to
-- `write`.
unfoldable pub start_up :
    ℕ → System → ℕ → ConnInfo → Bytes → Result (Option (Bytes × PgConn × Bytes))
start_up fuel sys type info socket =
    if sys.alloc min_buffer_size
    then (do
      (put', conn) ← put_startup sys.alloc info fresh_connection.conn
      let (sent', c) = pg_send sys (record fresh_connection { conn = conn })
      if put'
          then (if sent'
              then (do
                (auth_ok, c', rest) ← read_startup_messages fuel sys type c socket
                ok (if auth_ok then some (conn.text, c', rest) else none))
              else ok none)
          else ok none)
    else ok none

unfoldable pub pg_connect :
    ℕ → System → Resolver → Dial → ℕ → Bytes → Result (Option (Bytes × PgConn × Bytes))
pg_connect fuel sys resolve dial type ci = do
  info ← connection_info (length ci + 1) resolve ci default_info
  elim info [
    | none ↦ ok none
    | some i ↦ elim (dial i.address i.port) [
      | none ↦ ok none
      | some socket ↦ start_up fuel sys type i socket
    ]
  ]

-- extract_val, which no code calls: the value up to a NUL byte or a blank, and what stands behind the
-- blanks
unfoldable pub skip_blanks : Bytes → Result Bytes
skip_blanks [] = fail uninitialised
skip_blanks (c ∷ s) = let rest = skip_blanks s in if c == b' ' then rest else ok (c ∷ s)

unfoldable pub extract_val : Bytes → Result (Bytes × Bytes)
extract_val [] = fail uninitialised
extract_val (c ∷ s) =
    let later = extract_val s in
    if c == 0
    then ok ([], c ∷ s)
    else if c == b' '
    then (do rest ← skip_blanks s; ok ([], rest))
    else (do (value, rest) ← later; ok (c ∷ value, rest))
