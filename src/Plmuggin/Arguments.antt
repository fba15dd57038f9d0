-- ===== src/Plmuggin/Arguments.antt =====
-- The scope that the language handler of plmuggin.c binds, described by its arguments alone.
use plmuggin.Base.{
  ℕ, zero, suc, ◌<◌, ◌≡◌, ◌≢◌, refl, sym, ap, ap₂, subst, ◌∙◌, true, false, Option, none, some,
  List, [], ◌∷◌, ◌++◌, arith, if◌then◌else◌, Bytes, length, length-append, append_assoc, set,
  replicate, map, length-map, map-append, All, Bool-cases, inl, inr, Lacks, lt→ltb, Option-cases,
}
use plmuggin.Plmuggin.{Procedure, argument_name, bind_arguments}
use plmuggin.Pool.Search.{string_pool_lookup-find_string}
use plmuggin.Pool.Slots.{
  IsPool, view, find_string, find_string-lt, Distinct, Fresh, length-strings, at-append,
}
use plmuggin.Pool.{at}
use plmuggin.Render.{Binding, c_string, muggin_scope_new, muggin_scope_bind, muggin_scope_bind_idx}
use plmuggin.Result.{ok}
use plmuggin.Str.Equality.{str_eq_symm, str_eq_trans}
use plmuggin.Str.{str_eq}
use plmuggin.Template.{Template}

-- An argument of a call: its name, its type and its datum.
pub record Argument : Type 0 where
  pub name : Bytes
  pub oid : ℕ
  pub value : ℕ

-- A name is a C string that is not empty.
abbrev pub IsNamed : Argument → Type 0
IsNamed a = (a.name ≢ []) × Lacks 0 a.name

-- An argument as a variable of the template: it is escaped where it is rendered.
abbrev pub as_binding : Argument → Binding
as_binding a = record { oid = a.oid; value = a.value; need_escape = true }

-- The values of the variables after the arguments: the last argument with a name sets it.
abbrev pub variables : List Argument → (Bytes → Option Binding) → Bytes → Option Binding
variables [] f = f
variables (a ∷ as') f = variables as' (λ n. if str_eq n a.name then some (as_binding a) else f n)

pub c_string-Lacks : (s : Bytes) → Lacks 0 s → c_string s ≡ s
unfolding c_string
c_string-Lacks [] l = refl
c_string-Lacks (zero ∷ s) (n, l) = absurd (n refl)
c_string-Lacks (suc c ∷ s) (n, l) = ap (◌∷◌ (suc c)) (c_string-Lacks s l)

at-map :
    {A B : Type 0} (f : A → B) (before : List A) (a : A) (s : List A)
    → at (map f (before ++ (a ∷ s))) (length before) ≡ ok (f a)
at-map f before a s =
    rw (map-append f before (a ∷ s), ← length-map f before)
      (at-append (map f before) (f a) (map f s))

-- Before the first argument no variable has a value.
abbrev pub unset : Bytes → Option Binding
unset n = none

-- The call of a procedure with these as its arguments.
pub record Takes (p : Procedure) (as' : List Argument) : Type 0 where
  pub numargs : p.numargs ≡ length as'
  pub argnames : p.argnames ≡ some (map (λ a. a.name) as')
  pub proargtypes : p.proargtypes ≡ map (λ a. a.oid) as'

set_variable_miss :
    (f : Bytes → Option Binding) (s : Bytes) (o : Option Binding) (ns : List Bytes)
    → Fresh s ns
    → map (λ n. if str_eq n s then o else f n) ns ≡ map f ns
set_variable_miss f s o [] h = refl
set_variable_miss f s o (n ∷ ns) (h, hs) = rw h (ap (◌∷◌ (f n)) (set_variable_miss f s o ns hs))

-- In a list of distinct strings, those behind one that is `s` are not `s`.
misses_behind :
    (x s : Bytes) (ns : List Bytes)
    → str_eq x s ≡ true
    → All (λ y. str_eq x y ≡ false) ns
    → Fresh s ns
misses_behind x s [] e h = tt
misses_behind x s (y ∷ ns) e (h, hs) = (
  elim (Bool-cases (str_eq y s)) [
    | inl same ↦ let clash : str_eq x y ≡ true = str_eq_trans x s y e (str_eq_symm y s same) in cc
    | inr other ↦ other
  ],
  misses_behind x s ns e hs,
)

set_variable :
    (f : Bytes → Option Binding) (s : Bytes) (o : Option Binding) (ns : List Bytes)
    → Distinct ns
    → elim (find_string ns s) [ none ↦ map f ns | some k ↦ set (map f ns) k o ]
      ≡ map (λ n. if str_eq n s then o else f n) ns
set_variable f s o [] d = refl
set_variable f s o (n ∷ ns) (h, d) = elim (Bool-cases (str_eq n s)) [
  | inl here ↦ rw here (sym (ap (◌∷◌ o) (set_variable_miss f s o ns (misses_behind n s ns here h))))
  | inr later ↦ elim (Option-cases (find_string ns s)) [
    | inl miss ↦
        let rest = set_variable f s o ns d in rw (later, miss) (ap (◌∷◌ (f n)) (rw miss at rest))
    | inr (k, hit) ↦
        let rest = set_variable f s o ns d in rw (later, hit) (ap (◌∷◌ (f n)) (rw hit at rest))
  ]
]

-- muggin_scope_bind sets one variable, or none where the template does not have it.
muggin_scope_bind-variable :
    (t : Template) (f : Bytes → Option Binding) (s : Bytes) (b : Binding)
    → IsPool t.names
    → s ≢ []
    → muggin_scope_bind t (map f (view t.names)) s b
      ≡ ok (map (λ n. if str_eq n s then some b else f n) (view t.names))
unfolding muggin_scope_bind muggin_scope_bind_idx
muggin_scope_bind-variable t f s b inv ne =
    let looked = string_pool_lookup-find_string t.names inv s ne in
    let set' = set_variable f s (some b) (view t.names) inv.distinct in
    elim (Option-cases (find_string (view t.names) s)) [
      | inl miss ↦ rw (looked, miss) (ap ok (rw miss at set'))
      | inr (k, hit) ↦
          let inside : k < length (map f (view t.names)) =
            omega (arith, length-map f (view t.names), find_string-lt (view t.names) s hit) in
          rw (looked, hit, lt→ltb _ _ inside) (ap ok (rw hit at set'))
    ]

module _ (t : Template) (p : Procedure) (inv : IsPool t.names) where
  bind_arguments-append :
      (done as' : List Argument) (f : Bytes → Option Binding)
      → Takes p (done ++ as')
      → All IsNamed as'
      → bind_arguments
          (length as')
          (length done)
          t
          p
          (map (λ a. a.value) (done ++ as'))
          (map f (view t.names))
        ≡ ok (map (variables as' f) (view t.names))
  unfolding bind_arguments argument_name
  bind_arguments-append done [] f takes h = refl
  bind_arguments-append done (a ∷ as') f takes ((ne, l), hs) =
      let type : at p.proargtypes (length done) ≡ ok a.oid =
        rw takes.proargtypes (at-map (λ x. x.oid) done a as') in
      let name : argument_name p (length done) ≡ ok a.name =
        rw (argument_name, takes.argnames, at-map (λ x. x.name) done a as', c_string-Lacks a.name l)
          refl in
      let value = at-map (λ x. x.value) done a as' in
      let bound = muggin_scope_bind-variable t f a.name (as_binding a) inv ne in
      let rest =
        bind_arguments-append (done ++ a ∷ []) as'
          (λ n. if str_eq n a.name then some (as_binding a) else f n)
          (subst (Takes p) (sym (append_assoc done (a ∷ []) as')) takes) hs in
      rw (bind_arguments, type, name, value, bound)
        (rw (append_assoc done (a ∷ []) as', length-append done (a ∷ [])) at rest)

  map-unset : (ns : List Bytes) → replicate (length ns) none ≡ map unset ns
  map-unset [] = refl
  map-unset (n ∷ ns) = ap (◌∷◌ none) (map-unset ns)

  -- The scope of a call: each variable of the template has the last argument with its name.
  pub bind_arguments-variables :
      (as' : List Argument)
      → Takes p as'
      → All IsNamed as'
      → bind_arguments p.numargs 0 t p (map (λ a. a.value) as') (muggin_scope_new t)
        ≡ ok (map (variables as' unset) (view t.names))
  unfolding muggin_scope_new
  bind_arguments-variables as' takes h =
      let scope : muggin_scope_new t ≡ map unset (view t.names) =
        ap (λ n. replicate n none) (sym (length-strings t.names.slots t.names.idx))
        ∙ map-unset (view t.names) in
      ap₂ (λ n vs. bind_arguments n 0 t p (map (λ a. a.value) as') vs) takes.numargs scope
      ∙ bind_arguments-append [] as' unset takes h
