-- ===== src/Mugshot/Worker.antt =====
-- What a worker of mugshot/mugshot.c does with a request that was read: the choice of the endpoint and the
-- values of its arguments.
pub mod Dispatch
pub mod Sql
pub mod Serve
pub mod Connection
use plmuggin.Base.{
  ℕ, zero, suc, ◌+◌, Bool, true, false, ◌||◌, Option, none, some, List, [], ◌∷◌, ◌++◌, ltb, leb,
  ◌==◌, if◌then◌else◌, Bytes, codes, length, drop, take,
}
use plmuggin.Mugshot.Http.{
  Realloc, Method, HttpContentType, application_form_urlencoded, ConnState, req_start, req_done,
  HttpConn, http_fail,
}
use plmuggin.Mugshot.Http.Reader.{body, http_read}
use plmuggin.Mugshot.Route.{get_form_parameter, mugshot_path_match}
use plmuggin.Result.{Result, ok, fail, dangling_pointer, ◌>>=◌}
use plmuggin.Str.Url.{hex_byte, str_urldecode}
use plmuggin.Str.{str_drop}

-- mugshot_endpoint_arg
pub record EndpointArg : Type 0 where
  pub name : Bytes
  pub oid : ℕ
  pub path : Bool

-- mugshot_endpoint
pub record Endpoint : Type 0 where
  pub method : Method
  pub name : Bytes
  pub schema : Bytes
  pub path : Bytes
  pub content_type : HttpContentType
  pub args : List EndpointArg

abbrev pub arg_names : List EndpointArg → List Bytes
arg_names [] = []
arg_names (a ∷ args) = a.name ∷ arg_names args

-- the second half of mugshot_request_parameter, where the query parameters do not have the name
unfoldable pub form_parameter : HttpContentType → Bytes → Bytes → Result (Option Bytes)
form_parameter application_form_urlencoded form name = get_form_parameter form name
form_parameter _ form name = ok none

-- mugshot_request_parameter, with the received bytes behind the header
unfoldable pub mugshot_request_parameter : HttpConn → Bytes → Bytes → Result (Option Bytes)
unfolding form_parameter
mugshot_request_parameter r unread name = get_form_parameter r.query_parameters name >>= λ value.
    elim value [ some v ↦ ok (some v) | none ↦ form_parameter r.body_type (body r unread) name ]

-- the value that the path gives, or that of the parameter
unfoldable pub resolve_arg : HttpConn → Bytes → Bytes → Option Bytes → Result (Option Bytes)
unfolding mugshot_request_parameter
resolve_arg r unread name (some value) = ok (some value)
resolve_arg r unread name none = mugshot_request_parameter r unread name

-- the loop over the arguments, with `none` for the way to `not_found`
unfoldable pub resolve_args :
    HttpConn → Bytes → List Bytes → List (Option Bytes) → Result (Option (List Bytes))
unfolding resolve_arg
resolve_args r unread (name ∷ names) (given ∷ rest) = resolve_arg r unread name given >>= λ value.
    elim value [
      | none ↦ ok none
      | some v ↦ resolve_args r unread names rest >>= λ values. elim values [
        | none ↦ ok none
        | some vs ↦ ok (some (v ∷ vs))
      ]
    ]
resolve_args r unread _ _ = ok (some [])

-- what str_urldecode has written where it fails
unfoldable pub urldecode_written : ℕ → Bytes → Bytes
unfolding hex_byte
urldecode_written zero s = []
urldecode_written (suc room) [] = []
urldecode_written (suc room) (c ∷ s) =
    let plain = urldecode_written room s in
    let escaped = urldecode_written room (str_drop s 2) in
    if c == b'%'
    then elim (hex_byte s) [ none ↦ [] | some b ↦ b ∷ escaped ]
    else if ltb c 32 || leb 128 c
    then []
    else c ∷ plain

-- a value after `str_urldecode(&values[i])`, whose result is not looked at
unfoldable pub decode_value : Bytes → Bytes
unfolding urldecode_written
decode_value s = elim (str_urldecode s) [
  | some decoded ↦ decoded
  | none ↦ let written = urldecode_written (length s) s in written ++ drop (length written) s
]

abbrev pub decode_values : List Bytes → List Bytes
decode_values [] = []
decode_values (s ∷ values) = decode_value s ∷ decode_values values

-- What the worker goes on to: a call of mugshot_serve_pg, the answer 404 and the end of the connection, or
-- the next connection, with this one neither answered nor closed.
pub data Decision : Type 0 where
  serve : Endpoint → List Bytes → Decision
  not_found : Decision
  left_open : Decision

unfoldable pub decide : Endpoint → Option (List Bytes) → Result Decision
unfolding decode_value
decide e none = ok not_found
decide e (some values) = ok (serve e (decode_values values))

-- the loop over the routes
unfoldable pub dispatch : List Endpoint → HttpConn → Bytes → Result Decision
unfolding resolve_args decide
dispatch [] r unread = ok not_found
dispatch (e ∷ routes) r unread =
    let later = dispatch routes r unread in
    mugshot_path_match e.path (arg_names e.args) r.path >>= λ m.
    if m.0
    then (resolve_args r unread (arg_names e.args) m.1 >>= λ values. decide e values)
    else later

-- the branch at `read_ok`, which compares the path that the request points to
unfoldable pub handle_request : ConnState → List Endpoint → HttpConn → Bytes → Result Decision
unfolding dispatch
handle_request req_done routes r unread =
    if r.dangling then fail dangling_pointer else dispatch routes r unread
handle_request _ routes r unread = ok left_open

-- a connection as accept leaves it: what its pointers pointed to is not read again
abbrev pub accepted : HttpConn → HttpConn
accepted r = record r { state = req_start; headers = []; dangling = false }

-- The round of a worker, from the bytes of the first recv, which fit in the buffer, to its decision
unfoldable pub worker_round :
    (ℕ → Realloc) → List Endpoint → Bytes → List Bytes → HttpConn → Result (HttpConn × Decision)
unfolding handle_request
worker_round realloc routes chunk arrivals r =
    http_read realloc arrivals 0 chunk (accepted r) >>= λ x.
    handle_request x.0.state routes x.0 x.1 >>= λ d. ok (x.0, d)
