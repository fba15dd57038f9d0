-- ===== src/Pgwire/Connect/Info.antt =====
-- The loop of pg_connect of mugshot/pgwire.c over the fields of its connection string.
use plmuggin.Base.{
  ℕ, zero, suc, ◌<◌, ◌≡◌, refl, ap, ◌∙◌, Option, none, some, List, [], ◌∷◌, ◌++◌, arith, Bytes,
  codes, length, length-append, All, All-append, Option-cases, inl, inr,
}
use plmuggin.Pgwire.Connect.{ConnInfo, Resolver, set_field, connection_info}
use plmuggin.Result.{ok}
use plmuggin.Str.Split.{Avoids, str_splitat-at, str_splitat-whole}
use plmuggin.Str.{str_splitat}

-- A field of a connection string: a key, which has no blank and no `=`, and a value, which has no blank.
abbrev pub IsPair : Bytes × Bytes → Type 0
IsPair p = Avoids (codes "=") p.0 × Avoids (codes " ") p.0 × Avoids (codes " ") p.1

abbrev pub pair_text : Bytes × Bytes → Bytes
pair_text p = p.0 ++ (b'=' ∷ p.1)

-- The fields with a blank between them.
abbrev pub pairs_text : List (Bytes × Bytes) → Bytes
pairs_text [] = []
pairs_text (p ∷ []) = pair_text p
pairs_text (p ∷ q ∷ ps) = pair_text p ++ (b' ' ∷ pairs_text (q ∷ ps))

-- What the fields set, one after the other, until one is refused.
abbrev pub set_fields : Resolver → List (Bytes × Bytes) → ConnInfo → Option ConnInfo
set_fields resolve [] info = some info
set_fields resolve (p ∷ ps) info = elim (set_field resolve p.0 p.1 info) [
  | none ↦ none
  | some info' ↦ set_fields resolve ps info'
]

pair_text-Avoids : (p : Bytes × Bytes) → IsPair p → Avoids (codes " ") (pair_text p)
pair_text-Avoids p (e, k, v) = All-append _ p.0 (b'=' ∷ p.1) k (refl, v)

pair_text-nonempty : (p : Bytes × Bytes) → 0 < length (pair_text p)
pair_text-nonempty p = omega (arith, length-append p.0 (b'=' ∷ p.1))

module _ (resolve : Resolver) where
  connection_info-nil :
      (fuel : ℕ) (info : ConnInfo) → connection_info (suc fuel) resolve [] info ≡ ok (some info)
  unfolding connection_info str_splitat
  connection_info-nil fuel info = refl

  -- One field, of which the rest of the text is known.
  connection_info-pair :
      (fuel : ℕ) (p : Bytes × Bytes) (ci rest : Bytes) (info : ConnInfo)
      → IsPair p
      → str_splitat ci (codes " ") ≡ some (pair_text p, rest)
      → connection_info (suc fuel) resolve ci info ≡ elim (set_field resolve p.0 p.1 info) [
        | none ↦ ok none
        | some info' ↦ connection_info fuel resolve rest info'
      ]
  unfolding connection_info
  connection_info-pair fuel p ci rest info (e, k, v) cut =
      rw (connection_info, cut, str_splitat-at (codes "=") p.0 b'=' p.1 e refl) refl

  -- pg_connect finds the fields of a connection string, and sets them one after the other.
  pub connection_info-pairs_text :
      (ps : List (Bytes × Bytes)) (fuel : ℕ) (info : ConnInfo)
      → All IsPair ps
      → length (pairs_text ps) < fuel
      → connection_info fuel resolve (pairs_text ps) info ≡ ok (set_fields resolve ps info)
  unfolding connection_info
  connection_info-pairs_text ps zero info h lt = absurd (omega arith)
  connection_info-pairs_text [] (suc fuel) info h lt = connection_info-nil fuel info
  connection_info-pairs_text (p ∷ []) (suc fuel) info (h, hs) lt =
      let cut =
        str_splitat-whole (codes " ") (pair_text p)
          (λ e. absurd (omega (arith, ap length e, pair_text-nonempty p))) (pair_text-Avoids p h) in
      elim (Option-cases (set_field resolve p.0 p.1 info)) [
        | inl refused ↦
            connection_info-pair fuel p (pair_text p) [] info h cut ∙ rw (set_fields, refused) refl
        | inr (info', set) ↦
            let rest =
              connection_info-pairs_text [] fuel info' tt (omega (arith, pair_text-nonempty p)) in
            connection_info-pair fuel p (pair_text p) [] info h cut ∙ rw (set_fields, set) rest
      ]
  connection_info-pairs_text (p ∷ q ∷ ps) (suc fuel) info (h, hs) lt =
      let later = pairs_text (q ∷ ps) in
      let cut = str_splitat-at (codes " ") (pair_text p) b' ' later (pair_text-Avoids p h) refl in
      elim (Option-cases (set_field resolve p.0 p.1 info)) [
        | inl refused ↦
            connection_info-pair fuel p (pair_text p ++ (b' ' ∷ later)) later info h cut
            ∙ rw (set_fields, refused) refl
        | inr (info', set) ↦
            let rest =
              connection_info-pairs_text (q ∷ ps) fuel info' hs
                (omega (arith, length-append (pair_text p) (b' ' ∷ later))) in
            connection_info-pair fuel p (pair_text p ++ (b' ' ∷ later)) later info h cut
            ∙ rw (set_fields, set) rest
      ]
