-- ===== src/Mugshot/Route/Parameters.antt =====
-- Routes with parameters: what mugshot_path_match of mugshot/mugshot.c takes from a path.
use plmuggin.Base.{
  ℕ, zero, suc, ◌<◌, ◌≡◌, ◌≢◌, refl, sym, ap, ap₂, ◌∙◌, true, false, Option, none, some, List, [],
  ◌∷◌, ◌++◌, append-nil, arith, ◌==◌, ltb, Bytes, length, length-append, set, replicate, All,
}
use plmuggin.Mugshot.Route.{
  find_arg, match_parameter, match_segment, bind_arg, match_from, mugshot_path_match,
}
use plmuggin.Result.{ok}
use plmuggin.Str.Split.{Avoids, str_splitat-at, str_splitat-whole}
use plmuggin.Str.{str_drop, str_splitat}

-- A segment of a route, with the value that the path has in its place.
pub data Segment : Type 0 where
  literal : Bytes → Segment
  parameter : Bytes → ℕ → Bytes → Segment

abbrev pub segment_route : Segment → Bytes
segment_route (literal s) = s
segment_route (parameter name first value) = b':' ∷ name

abbrev pub segment_path : Segment → Bytes
segment_path (literal s) = s
segment_path (parameter name first value) = first ∷ value

-- The segments with a slash between them.
abbrev pub slashes : (Segment → Bytes) → List Segment → Bytes
slashes text [] = []
slashes text (s ∷ []) = text s
slashes text (s ∷ t ∷ ss) = text s ++ (b'/' ∷ slashes text (t ∷ ss))

-- A parameter is an argument of the endpoint, and its value, which has a first byte, has no slash and
-- does not begin with a colon.
abbrev pub IsSegment : List Bytes → Segment → Type 0
IsSegment names (literal s) = Unit
IsSegment names (parameter name first value) =
    (first ≢ b':')
    × Avoids (b'/' ∷ []) (first ∷ value)
    × Avoids (b'/' ∷ []) (b':' ∷ name)
    × ((i : ℕ) × (find_arg names name ≡ some i))

-- The values of the arguments, set from the parameters one after the other.
abbrev pub bind_segment : List Bytes → Segment → List (Option Bytes) → List (Option Bytes)
bind_segment names (literal s) args = args
bind_segment names (parameter name first value) args = elim (find_arg names name) [
  | none ↦ args
  | some i ↦ set args i (some (first ∷ value))
]

abbrev pub bind_segments : List Bytes → List Segment → List (Option Bytes) → List (Option Bytes)
bind_segments names [] args = args
bind_segments names (s ∷ ss) args = bind_segments names ss (bind_segment names s args)

str_drop-colon : (name : Bytes) → str_drop (b':' ∷ name) 1 ≡ name
unfolding str_drop
str_drop-colon name =
    let inside : ltb (length (b':' ∷ name)) 1 ≡ false = ground arith in rw inside refl

module _ (names : List Bytes) where
  -- What is the same in the route and in the path is passed over.
  match_from-same :
      (s route path : Bytes) (fuel : ℕ) (args : List (Option Bytes))
      → length (s ++ path) < fuel
      → (more : ℕ) × (length path < more)
        × (match_from fuel names (s ++ route) (s ++ path) args
            ≡ match_from more names route path args)
  unfolding match_from
  match_from-same s route path zero args lt = absurd (omega arith)
  match_from-same [] route path (suc fuel) args lt = (suc fuel, lt, refl)
  match_from-same (c ∷ s) route path (suc fuel) args lt =
      let (more, lt', run) = match_from-same s route path fuel args (omega arith) in
      let same : (c == c) ≡ true = ground arith in (more, lt', rw same run)

  match_segment-parameter :
      (name : Bytes) (first : ℕ) (value route path : Bytes) (args : List (Option Bytes))
      → IsSegment names (parameter name first value)
      → match_segment names args (some (b':' ∷ name, route)) (some (first ∷ value, path))
        ≡ some (route, path, bind_segment names (parameter name first value) args)
  unfolding match_segment bind_arg
  match_segment-parameter name first value route path args (ne, v, n, (i, here)) =
      let dropped : str_drop (b':' ∷ name) 1 ≡ name = str_drop-colon name in
      let filled : (length (first ∷ value) == 0) ≡ false = ground arith in
      rw (filled, dropped, bind_segment, here) refl

  match_parameter-segment :
      (name : Bytes) (first : ℕ) (value route path r p : Bytes) (args : List (Option Bytes))
      → IsSegment names (parameter name first value)
      → str_splitat (b':' ∷ r) (b'/' ∷ []) ≡ some (b':' ∷ name, route)
      → str_splitat (first ∷ p) (b'/' ∷ []) ≡ some (first ∷ value, path)
      → match_parameter names (b':' ∷ r) (first ∷ p) args
        ≡ some (route, path, bind_segment names (parameter name first value) args)
  unfolding match_parameter
  match_parameter-segment name first value route path r p args h cut cut' =
      ap₂ (match_segment names args) cut cut'
      ∙ match_segment-parameter name first value route path args h

  -- A parameter takes its value, whatever stands behind the slash.
  match_from-parameter :
      (name : Bytes) (first : ℕ) (value route path r p : Bytes) (fuel : ℕ)
      (args : List (Option Bytes))
      → IsSegment names (parameter name first value)
      → str_splitat (b':' ∷ r) (b'/' ∷ []) ≡ some (b':' ∷ name, route)
      → str_splitat (first ∷ p) (b'/' ∷ []) ≡ some (first ∷ value, path)
      → match_from (suc fuel) names (b':' ∷ r) (first ∷ p) args
        ≡ match_from fuel names route path (bind_segment names (parameter name first value) args)
  unfolding match_from
  match_from-parameter name first value route path r p fuel args h cut cut' =
      let differs : (first == b':') ≡ false = ground (arith, h.0) in
      rw
        (
          match_from,
          differs,
          match_parameter-segment name first value route path r p args h cut cut',
        )
        refl

  match_from-nil :
      (fuel : ℕ) (args : List (Option Bytes))
      → 0 < fuel
      → match_from fuel names [] [] args ≡ ok (true, args)
  unfolding match_from
  match_from-nil zero args lt = absurd (omega arith)
  match_from-nil (suc fuel) args lt = refl

  match_from-slashes :
      (ss : List Segment) (fuel : ℕ) (args : List (Option Bytes))
      → All (IsSegment names) ss
      → length (slashes segment_path ss) < fuel
      → match_from fuel names (slashes segment_route ss) (slashes segment_path ss) args
        ≡ ok (true, bind_segments names ss args)
  match_from-slashes ss zero args h lt = absurd (omega arith)
  match_from-slashes [] (suc fuel) args h lt = match_from-nil (suc fuel) args (omega arith)
  match_from-slashes (literal s ∷ []) (suc fuel) args h lt =
      let whole = append-nil s in
      let (more, left, run) =
        match_from-same s [] [] (suc fuel) args (omega (arith, ap length whole)) in
      ap₂ (λ r p. match_from (suc fuel) names r p args) (sym whole) (sym whole)
      ∙ run
      ∙ match_from-nil more args (omega arith)
  match_from-slashes (literal s ∷ t ∷ ss) (suc fuel) args (h, hs) lt =
      let route = slashes segment_route (t ∷ ss) in
      let path = slashes segment_path (t ∷ ss) in
      let (more, left, run) =
        match_from-same s (b'/' ∷ route) (b'/' ∷ path) (suc fuel) args (omega arith) in
      let (more', left', run') = match_from-same (b'/' ∷ []) route path more args (omega arith) in
      run ∙ run' ∙ match_from-slashes (t ∷ ss) more' args hs (omega arith)
  match_from-slashes (parameter name first value ∷ []) (suc fuel) args (h, hs) lt =
      match_from-parameter name first value [] [] name value fuel args h
        (str_splitat-whole (b'/' ∷ []) (b':' ∷ name) (λ e. cc) h.2)
        (str_splitat-whole (b'/' ∷ []) (first ∷ value) (λ e. cc) h.1)
      ∙ match_from-slashes [] fuel (bind_segment names (parameter name first value) args) tt
          (omega arith)
  match_from-slashes (parameter name first value ∷ t ∷ ss) (suc fuel) args (h, hs) lt =
      let route = slashes segment_route (t ∷ ss) in
      let path = slashes segment_path (t ∷ ss) in
      match_from-parameter name first value route path (name ++ (b'/' ∷ route))
        (value ++ (b'/' ∷ path)) fuel args h
        (str_splitat-at (b'/' ∷ []) (b':' ∷ name) b'/' route h.2 refl)
        (str_splitat-at (b'/' ∷ []) (first ∷ value) b'/' path h.1 refl)
      ∙ match_from-slashes (t ∷ ss) fuel (bind_segment names (parameter name first value) args) hs
          (omega (arith, length-append value (b'/' ∷ path)))

  -- A path that fills the parameters of a route, segment by segment, matches it, and the arguments
  -- with the names of the parameters have their values: each parameter is an argument, and its value is
  -- not empty, has no slash and does not begin with a colon.
  pub mugshot_path_match-slashes :
      (ss : List Segment)
      → All (IsSegment names) ss
      → mugshot_path_match (slashes segment_route ss) names (slashes segment_path ss)
        ≡ ok (true, bind_segments names ss (replicate (length names) none))
  unfolding mugshot_path_match
  mugshot_path_match-slashes ss h =
      match_from-slashes ss (suc (length (slashes segment_path ss))) (replicate (length names) none)
        h (omega arith)
