-- ===== src/Mugshot/Worker/Dispatch.antt =====
-- The worker of mugshot/mugshot.c calls the endpoint of a path with the values of the query.
use plmuggin.Base.{
  ◌^◌, ◌<◌, ◌≡◌, ◌≢◌, refl, ap, ◌∙◌, Bool, true, false, Option, none, some, List, [], ◌∷◌, ◌++◌,
  Bytes, length, replicate, All, Lacks, Bool-cases, inl, inr,
}
use plmuggin.Mugshot.Http.{HttpConn}
use plmuggin.Mugshot.Route.{
  form, lookup, IsPlain, get_form_parameter, get_form_parameter-lookup, mugshot_path_match,
  mugshot_path_match-literal,
}
use plmuggin.Mugshot.Worker.{
  Endpoint, arg_names, mugshot_request_parameter, resolve_arg, resolve_args, decode_value,
  decode_values, serve, decide, dispatch,
}
use plmuggin.Result.{ok, Returns}
use plmuggin.Str.Url.{urlencode, str_urldecode-urlencode}

-- The fields have a value for each name, percent encoded.
abbrev pub Gives : List (Bytes × Bytes) → List Bytes → List Bytes → Type 0
Gives ps [] [] = Unit
Gives ps (name ∷ names) (v ∷ values) =
    (lookup ps name ≡ some (urlencode v)) × All (λ c. c < 2 ^ 8) v × Gives ps names values
Gives ps _ _ = ⊥

abbrev pub encoded : List Bytes → List Bytes
encoded [] = []
encoded (v ∷ values) = urlencode v ∷ encoded values

resolve_args-query :
    (r : HttpConn) (unread : Bytes) (ps : List (Bytes × Bytes)) (names values : List Bytes)
    → All IsPlain ps
    → r.query_parameters ≡ form ps
    → Gives ps names values
    → resolve_args r unread names (replicate (length names) none) ≡ ok (some (encoded values))
unfolding resolve_args resolve_arg mugshot_request_parameter
resolve_args-query r unread ps [] [] plain q g = refl
resolve_args-query r unread ps [] (v ∷ values) plain q g = absurd g
resolve_args-query r unread ps (name ∷ names) [] plain q g = absurd g
resolve_args-query r unread ps (name ∷ names) (v ∷ values) plain q (here, bytes, there) =
    let found : get_form_parameter r.query_parameters name ≡ ok (some (urlencode v)) =
      ap (λ s. get_form_parameter s name) q
      ∙ get_form_parameter-lookup ps name plain
      ∙ ap ok here in
    rw (found, resolve_args-query r unread ps names values plain q there) refl

decode_values-encoded :
    (ps : List (Bytes × Bytes)) (names values : List Bytes)
    → Gives ps names values
    → decode_values (encoded values) ≡ values
unfolding decode_value
decode_values-encoded ps [] [] g = refl
decode_values-encoded ps [] (v ∷ values) g = absurd g
decode_values-encoded ps (name ∷ names) [] g = absurd g
decode_values-encoded ps (name ∷ names) (v ∷ values) (here, bytes, there) =
    rw (decode_value, str_urldecode-urlencode v bytes, decode_values-encoded ps names values there)
      refl

-- A literal route is chosen for its path.
path_match-same :
    (route : Bytes) (names : List Bytes) (path : Bytes)
    → Lacks b':' route
    → path ≡ route
    → mugshot_path_match route names path ≡ ok (true, replicate (length names) none)
path_match-same route names path l e =
    let (m, run, ((to, from), kept)) = mugshot_path_match-literal route names path l in
    run ∙ ap ok (pair m (from e) kept)
  where
    pair :
        (m : Bool × List (Option Bytes)) {b : Bool} {v : List (Option Bytes)}
        → m.0 ≡ b
        → m.1 ≡ v
        → m ≡ (b, v)
    pair (x, y) e f = rw (e, f) refl

path_match-other :
    (route : Bytes) (names : List Bytes) (path : Bytes)
    → Lacks b':' route
    → path ≢ route
    → Returns (mugshot_path_match route names path) (λ m. m.0 ≡ false)
path_match-other route names path l ne =
    let (m, run, ((to, from), kept)) = mugshot_path_match-literal route names path l in
    elim (Bool-cases m.0) [ inl hit ↦ absurd (ne (to hit)) | inr miss ↦ (m, run, miss) ]

-- The endpoint whose literal path is asked for first is called, with the values that the query has for
-- its arguments, decoded.
pub dispatch-query :
    (before : List Endpoint) (e : Endpoint) (behind : List Endpoint) (r : HttpConn) (unread : Bytes)
    (ps : List (Bytes × Bytes)) (values : List Bytes)
    → All (λ o. Lacks b':' o.path × r.path ≢ o.path) before
    → Lacks b':' e.path
    → r.path ≡ e.path
    → All IsPlain ps
    → r.query_parameters ≡ form ps
    → Gives ps (arg_names e.args) values
    → dispatch (before ++ (e ∷ behind)) r unread ≡ ok (serve e values)
unfolding dispatch decide
dispatch-query [] e behind r unread ps values hb l same plain q g =
    rw
      (
        path_match-same e.path (arg_names e.args) r.path l same,
        resolve_args-query r unread ps (arg_names e.args) values plain q g,
        decode_values-encoded ps (arg_names e.args) values g,
      )
      refl
dispatch-query (o ∷ before) e behind r unread ps values ((lo, ne), hb) l same plain q g =
    let (m, run, miss) = path_match-other o.path (arg_names o.args) r.path lo ne in
    rw (run, miss) (dispatch-query before e behind r unread ps values hb l same plain q g)
