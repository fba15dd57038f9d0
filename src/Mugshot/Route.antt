-- ===== src/Mugshot/Route.antt =====
-- The parameters of a request and the match of its path: get_form_parameter and mugshot_path_match
-- of mugshot/mugshot.c.
pub mod Parameters
use plmuggin.Base.{
  ℕ, zero, suc, ◌+◌, ◌<◌, ◌≡◌, ◌≢◌, refl, sym, ap, ap₂, ◌∙◌, ◌↔◌, ==_iff, Bool, true, false, Option,
  none, some, List, [], ◌∷◌, ◌++◌, arith, ◌==◌, if◌then◌else◌, Bytes, length, length-append, set,
  replicate, All, Lacks, Bool-cases, inl, inr, Option-cases,
}
use plmuggin.Result.{Result, ok, fail, out_of_fuel, Returns}
use plmuggin.Str.Split.{
  Avoids, str_splitat-at, str_splitat-whole, str_splitat-Splits, length-Splits,
}
use plmuggin.Str.{str_splitat, str_eq, str_drop}

-- the value of one `name=value`, if it is that of `name`
unfoldable pub value_of : Bytes → Bytes → Option Bytes
unfolding str_splitat str_eq
value_of parameter name = elim (str_splitat parameter (b'=' ∷ [])) [
  | none ↦ none
  | some (n, val) ↦ if str_eq n name then some val else none
]

unfoldable pub get_form_from : ℕ → Bytes → Bytes → Result (Option Bytes)
unfolding value_of
get_form_from zero rest name = fail out_of_fuel
get_form_from (suc fuel) rest name = elim (str_splitat rest (b'&' ∷ [])) [
  | none ↦ ok none
  | some (parameter, rest') ↦ elim (value_of parameter name) [
    | some val ↦ ok (some val)
    | none ↦ get_form_from fuel rest' name
  ]
]

-- get_form_parameter: *value, or `none` for false
unfoldable pub get_form_parameter : Bytes → Bytes → Result (Option Bytes)
unfolding get_form_from
get_form_parameter parameters name = get_form_from (suc (length parameters)) parameters name

-- the index of the argument with a name
unfoldable pub find_arg : List Bytes → Bytes → Option ℕ
unfolding str_eq
find_arg [] name = none
find_arg (a ∷ as') name =
    if str_eq a name
    then some 0
    else elim (find_arg as' name) [ none ↦ none | some i ↦ some (suc i) ]

-- the argument with the index, if there is one, gets the value
unfoldable pub bind_arg :
    Bytes
    → Bytes
    → Bytes
    → List (Option Bytes)
    → Option ℕ
    → Option (Bytes × Bytes × List (Option Bytes))
bind_arg route path value args none = none
bind_arg route path value args (some arg) = some (route, path, set args arg (some value))

-- a segment of the route with its name, and the one of the path with its value
unfoldable pub match_segment :
    List Bytes
    → List (Option Bytes)
    → Option (Bytes × Bytes)
    → Option (Bytes × Bytes)
    → Option (Bytes × Bytes × List (Option Bytes))
unfolding bind_arg find_arg str_drop
match_segment names args none path = none
match_segment names args (some s) none = none
match_segment names args (some (name, route)) (some (value, path)) =
    if length value == 0
    then none
    else bind_arg route path value args (find_arg names (str_drop name 1))

-- the branch of a parameter: the route and path that are left, and the arguments, or `none` for
-- false
unfoldable pub match_parameter :
    List Bytes → Bytes → Bytes → List (Option Bytes) → Option (Bytes × Bytes × List (Option Bytes))
unfolding str_splitat match_segment
match_parameter names route path args =
    match_segment names args (str_splitat route (b'/' ∷ [])) (str_splitat path (b'/' ∷ []))

-- the loop of mugshot_path_match, with its result and the arguments that have a value
unfoldable pub match_from :
    ℕ → List Bytes → Bytes → Bytes → List (Option Bytes) → Result (Bool × List (Option Bytes))
unfolding match_parameter
match_from zero names route path args = fail out_of_fuel
match_from (suc fuel) names [] path args = ok (length path == 0, args)
match_from (suc fuel) names (ch ∷ route) [] args = ok (false, args)
match_from (suc fuel) names (ch ∷ route) (c ∷ path) args =
    let next = match_from fuel names route path args in
    if c == ch
    then next
    else if ch == b':'
    then elim (match_parameter names (ch ∷ route) (c ∷ path) args) [
      | none ↦ ok (false, args)
      | some (route', path', args') ↦ match_from fuel names route' path' args'
    ]
    else ok (false, args)

-- mugshot_path_match, for the path of an endpoint and the names of its arguments
unfoldable pub mugshot_path_match : Bytes → List Bytes → Bytes → Result (Bool × List (Option Bytes))
unfolding match_from
mugshot_path_match route names path =
    match_from (suc (length path)) names route path (replicate (length names) none)

-- A list of named values as a form writes it.
abbrev pub form : List (Bytes × Bytes) → Bytes
form [] = []
form ((n, v) ∷ []) = n ++ (b'=' ∷ v)
form ((n, v) ∷ p ∷ ps) = (n ++ (b'=' ∷ v)) ++ (b'&' ∷ form (p ∷ ps))

-- The first value under a name.
abbrev pub lookup : List (Bytes × Bytes) → Bytes → Option Bytes
lookup [] name = none
lookup ((n, v) ∷ ps) name = if str_eq n name then some v else lookup ps name

-- Neither names nor values have a `&`, nor names a `=`.
abbrev pub IsPlain : Bytes × Bytes → Type 0
IsPlain (n, v) = Avoids (b'=' ∷ []) n × Avoids (b'&' ∷ []) (n ++ (b'=' ∷ v))

value_of-pair :
    (n v name : Bytes)
    → Avoids (b'=' ∷ []) n
    → value_of (n ++ (b'=' ∷ v)) name ≡ (if str_eq n name then some v else none)
unfolding value_of
value_of-pair n v name h = rw (str_splitat-at (b'=' ∷ []) n b'=' v h refl, value_of) refl

pair_ne_nil : (n v : Bytes) → n ++ (b'=' ∷ v) ≢ []
pair_ne_nil [] v e = cc
pair_ne_nil (x ∷ n) v e = cc

get_form_from-lookup :
    (fuel : ℕ) (ps : List (Bytes × Bytes)) (name : Bytes)
    → All IsPlain ps
    → length (form ps) < fuel
    → get_form_from fuel (form ps) name ≡ ok (lookup ps name)
unfolding get_form_from str_splitat
get_form_from-lookup zero ps name h lt = absurd (omega arith)
get_form_from-lookup (suc fuel) [] name h lt = refl
get_form_from-lookup (suc fuel) ((n, v) ∷ []) name ((hn, hp), hs) lt =
    let cut = str_splitat-whole (b'&' ∷ []) (n ++ (b'=' ∷ v)) (pair_ne_nil n v) hp in
    let rest =
      get_form_from-lookup fuel [] name tt (omega (arith, lt, length-append n (b'=' ∷ v))) in
    elim (Bool-cases (str_eq n name)) [
      | inl e ↦ rw (cut, get_form_from, value_of-pair n v name hn, e) refl
      | inr e ↦ rw (cut, get_form_from, value_of-pair n v name hn, e) rest
    ]
get_form_from-lookup (suc fuel) ((n, v) ∷ p ∷ ps) name ((hn, hp), hs) lt =
    let cut = str_splitat-at (b'&' ∷ []) (n ++ (b'=' ∷ v)) b'&' (form (p ∷ ps)) hp refl in
    let rest =
      get_form_from-lookup fuel (p ∷ ps) name hs
        (omega (arith, lt, length-append (n ++ (b'=' ∷ v)) (b'&' ∷ form (p ∷ ps)))) in
    elim (Bool-cases (str_eq n name)) [
      | inl e ↦ rw (cut, get_form_from, value_of-pair n v name hn, e) refl
      | inr e ↦ rw (cut, get_form_from, value_of-pair n v name hn, e) rest
    ]

-- In the text of a form whose names have no `=` and no `&` and whose values have no `&`,
-- get_form_parameter ends and finds the value of the first field with the name, if there is one.
pub get_form_parameter-lookup :
    (ps : List (Bytes × Bytes)) (name : Bytes)
    → All IsPlain ps
    → get_form_parameter (form ps) name ≡ ok (lookup ps name)
unfolding get_form_parameter
get_form_parameter-lookup ps name h =
    get_form_from-lookup (suc (length (form ps))) ps name h (omega arith)

match_segment-lt :
    (names : List Bytes) (args : List (Option Bytes)) (route : Option (Bytes × Bytes))
    (value path : Bytes) {r q : Bytes} {as' : List (Option Bytes)}
    → match_segment names args route (some (value, path)) ≡ some (r, q, as')
    → length q < length value + length path
unfolding match_segment bind_arg
match_segment-lt names args none value path h = cc
match_segment-lt names args (some (name, route)) value path {q} h =
    elim (Bool-cases (length value == 0)) [
      | inl z ↦ let h₁ = rw z at h in cc
      | inr nz ↦ elim (Option-cases (find_arg names (str_drop name 1))) [
        | inl miss ↦ let h₁ = rw (nz, miss) at h in cc
        | inr (arg, hit) ↦
            let h₁ = rw (nz, hit) at h in let e : path ≡ q = cc in ground (arith, ap length e)
      ]
    ]

match_parameter-lt :
    (names : List Bytes) (route : Bytes) (c : ℕ) (path : Bytes) (args : List (Option Bytes))
    {r q : Bytes} {as' : List (Option Bytes)}
    → match_parameter names route (c ∷ path) args ≡ some (r, q, as')
    → length q < length (c ∷ path)
unfolding match_parameter
match_parameter-lt names route c path args {r} {q} {as'} h =
    let (value, path', run, cut) = str_splitat-Splits (c ∷ path) (b'/' ∷ []) (cc) in
    let h₁ : match_segment names args (str_splitat route (b'/' ∷ [])) (some (value, path'))
        ≡ some (r, q, as') =
      ap (match_segment names args (str_splitat route (b'/' ∷ []))) (sym run) ∙ h in
    omega (
      arith,
      length-Splits (cc) cut,
      match_segment-lt names args (str_splitat route (b'/' ∷ [])) value path' h₁,
    )

match_from-Returns :
    (fuel : ℕ) (names : List Bytes) (route path : Bytes) (args : List (Option Bytes))
    → length path < fuel
    → (r : Bool × List (Option Bytes)) × (match_from fuel names route path args ≡ ok r)
unfolding match_from
match_from-Returns zero names route path args lt = absurd (omega arith)
match_from-Returns (suc fuel) names [] path args lt = (_, refl)
match_from-Returns (suc fuel) names (ch ∷ route) [] args lt = (_, refl)
match_from-Returns (suc fuel) names (ch ∷ route) (c ∷ path) args lt = elim (Bool-cases (c == ch)) [
  | inl e ↦ rw e (match_from-Returns fuel names route path args (omega arith))
  | inr e ↦ elim (Bool-cases (ch == b':')) [
    | inl f ↦ elim (Option-cases (match_parameter names (ch ∷ route) (c ∷ path) args)) [
      | inl none_left ↦ rw (e, f, none_left) (_, refl)
      | inr ((route', path', args'), step) ↦
          rw (e, f, step)
            (match_from-Returns fuel names route' path' args'
              (omega (arith, match_parameter-lt names (ch ∷ route) c path args step)))
    ]
    | inr f ↦ rw (e, f) (_, refl)
  ]
]

match_from-literal :
    (fuel : ℕ) (names : List Bytes) (route path : Bytes) (args : List (Option Bytes))
    → Lacks b':' route
    → length path < fuel
    → Returns
        (match_from fuel names route path args)
        (λ r. ((r.0 ≡ true) ↔ (path ≡ route)) × (r.1 ≡ args))
unfolding match_from
match_from-literal zero names route path args h lt = absurd (omega arith)
match_from-literal (suc fuel) names [] [] args h lt = (_, refl, (((λ e. refl), (λ e. refl)), refl))
match_from-literal (suc fuel) names [] (c ∷ path) args h lt =
    (_, refl, (((λ e. ground arith), (λ e. cc)), refl))
match_from-literal (suc fuel) names (ch ∷ route) [] args h lt =
    (_, refl, (((λ e. cc), (λ e. cc)), refl))
match_from-literal (suc fuel) names (ch ∷ route) (c ∷ path) args (l, ls) lt =
    elim (Bool-cases (c == ch)) [
      | inl e ↦
          let (r, run, ((to, from), kept)) =
            match_from-literal fuel names route path args ls (omega arith) in
          let same : c ≡ ch = (==_iff c ch).0 e in
          (r, rw e run, (((λ t. ap₂ ◌∷◌ same (to t)), (λ f. from (cc))), kept))
      | inr e ↦
          let named : (ch == b':') ≡ false = ground (arith, l) in
          (
            (false, args),
            rw (e, named) refl,
            (((λ t. cc), (λ f. let same : c ≡ ch = cc in ground arith)), refl),
          )
    ]

-- mugshot_path_match ends on every route and path, with true or false.
pub mugshot_path_match-Returns :
    (route : Bytes) (names : List Bytes) (path : Bytes)
    → (r : Bool × List (Option Bytes)) × (mugshot_path_match route names path ≡ ok r)
unfolding mugshot_path_match
mugshot_path_match-Returns route names path =
    match_from-Returns (suc (length path)) names route path (replicate (length names) none)
      (omega arith)

-- A route with no `:` matches the path that it is, and no other, and gives no argument a value.
pub mugshot_path_match-literal :
    (route : Bytes) (names : List Bytes) (path : Bytes)
    → Lacks b':' route
    → Returns
        (mugshot_path_match route names path)
        (λ r. ((r.0 ≡ true) ↔ (path ≡ route)) × (r.1 ≡ replicate (length names) none))
unfolding mugshot_path_match
mugshot_path_match-literal route names path h =
    match_from-literal (suc (length path)) names route path (replicate (length names) none) h
      (omega arith)
