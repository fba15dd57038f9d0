-- ===== src/Mugshot/Endpoint/Route.antt =====
-- mugshot_read_method of mugshot/mugshot.c cuts the method off the text of a route.
use plmuggin.Base.{
  ℕ, zero, suc, ◌≡◌, refl, ap, ◌∙◌, true, false, some, List, [], ◌∷◌, ◌++◌, arith, ltb, Bytes,
  codes, length, take, get_elem?, All, take, get_elem?, All, length-append, drop-append, Bool-cases,
  inl, inr,
}
use plmuggin.Mugshot.Endpoint.{method_names, read_method_from, mugshot_read_method}
use plmuggin.Mugshot.Http.Headers.{method_string}
use plmuggin.Mugshot.Http.{Method, get, head, post, put, delete, options, patch}
use plmuggin.Str.{str_startswith, str_drop, strncmp_eq}

strncmp_eq-append : (w s : Bytes) → strncmp_eq (length w) (w ++ s) w ≡ true
unfolding strncmp_eq
strncmp_eq-append [] s = refl
strncmp_eq-append (c ∷ w) s = ground (arith, strncmp_eq-append w s)

read_method_from-here :
    (m : Method) (name path : Bytes) (names : List (Method × Bytes))
    → read_method_from ((m, name) ∷ names) (name ++ path) ≡ some (m, path)
unfolding read_method_from str_startswith str_drop
read_method_from-here m name path names =
    let n = length-append name path in
    let long : ltb (length (name ++ path)) (length name) ≡ false = ground (arith, n) in
    rw (long, strncmp_eq-append name path, drop-append name path) refl

read_method_from-there :
    (m : Method) (name route : Bytes) (names : List (Method × Bytes))
    → strncmp_eq (length name) route name ≡ false
    → read_method_from ((m, name) ∷ names) route ≡ read_method_from names route
unfolding read_method_from str_startswith
read_method_from-there m name route names e = elim (Bool-cases (ltb (length route) (length name))) [
  | inl short ↦ rw short refl
  | inr long ↦ rw (long, e) refl
]

-- The method at place `k` is found where no name before it begins the route.
read_method_from-at :
    (k : ℕ) (names : List (Method × Bytes)) (m : Method) (name path : Bytes)
    → get_elem? names k ≡ some (m, name)
    → All (λ o. strncmp_eq (length (o.1)) (name ++ path) (o.1) ≡ false) (take k names)
    → read_method_from names (name ++ path) ≡ some (m, path)
read_method_from-at k [] m name path h before = cc
read_method_from-at zero (o ∷ names) m name path h before =
    let same : o ≡ (m, name) = cc in
    ap (λ q. read_method_from (q ∷ names) (name ++ path)) same
    ∙ read_method_from-here m name path names
read_method_from-at (suc k) ((q, other) ∷ names) m name path h (e, before) =
    read_method_from-there q other (name ++ path) names e
    ∙ read_method_from-at k names m name path h before

-- Behind a method and its name, mugshot_read_method finds the method, and the path is left.
pub mugshot_read_method-method_string :
    (m : Method) (path : Bytes) → mugshot_read_method (method_string m ++ path) ≡ some (m, path)
unfolding mugshot_read_method strncmp_eq
mugshot_read_method-method_string get path =
    read_method_from-at 0 method_names get (codes "GET") path refl tt
mugshot_read_method-method_string head path =
    read_method_from-at 1 method_names head (codes "HEAD") path refl (refl, tt)
mugshot_read_method-method_string post path =
    read_method_from-at 2 method_names post (codes "POST") path refl (refl, (refl, tt))
mugshot_read_method-method_string put path =
    read_method_from-at 3 method_names put (codes "PUT") path refl (refl, (refl, (refl, tt)))
mugshot_read_method-method_string delete path =
    read_method_from-at 4 method_names delete (codes "DELETE") path refl
      (refl, (refl, (refl, (refl, tt))))
mugshot_read_method-method_string options path =
    read_method_from-at 5 method_names options (codes "OPTIONS") path refl
      (refl, (refl, (refl, (refl, (refl, tt)))))
mugshot_read_method-method_string patch path =
    read_method_from-at 6 method_names patch (codes "PATCH") path refl
      (refl, (refl, (refl, (refl, (refl, (refl, tt))))))
