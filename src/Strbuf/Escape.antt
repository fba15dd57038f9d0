-- ===== src/Strbuf/Escape.antt =====
-- strbuf_append_str_escaped of str.h: what it writes, and what can be read off its output.
use plmuggin.Base.{
  ℕ, ◌-◌, ◌≤◌, ◌≡◌, ◌≢◌, refl, sym, ap, ap₂, ◌∙◌, Bool, true, false, [], ◌∷◌, ◌++◌, append_assoc,
  append-nil, arith, ltb, Bytes, length, All, All-append, Bool-cases, inl, inr,
}
use plmuggin.Result.{Returns}
use plmuggin.Strbuf.{
  Strbuf, strbuf_ensure, entity, escape_byte, escape_rest, strbuf_append_str_escaped,
}
use plmuggin.Strbuf.Append.{
  IsValid, Appends, append-Appends, strbuf_ensure-IsValid, strbuf_ensure-text, strbuf_ensure_room,
}

-- The text with each byte replaced as the switch says.
abbrev pub escaped : Bytes → Bytes
escaped [] = []
escaped (c ∷ s) = entity c ++ escaped s

length-entity : (c : ℕ) → length (entity c) ≤ 6
unfolding entity
length-entity c = ground arith

escape_byte-Appends :
    (alloc : ℕ → Bool) (b : Strbuf) (c : ℕ)
    → IsValid b
    → Returns (escape_byte alloc b c) (Appends b (entity c))
unfolding escape_byte
escape_byte-Appends alloc b c v = elim (Bool-cases (ltb (b.capacity - length b.text) 6)) [
  | inl tight ↦
      let (q, run, (a, _)) =
        append-Appends b (entity c) (strbuf_ensure alloc b 16) (strbuf_ensure-IsValid alloc b 16 v)
          (strbuf_ensure-text alloc b 16)
          (λ t. omega (
            arith,
            strbuf_ensure_room alloc b 16 t,
            ap length (strbuf_ensure-text alloc b 16),
            length-entity c,
          )) in
      (q, rw tight run, a)
  | inr roomy ↦
      let (q, run, (a, _)) =
        append-Appends b (entity c) (true, b) v refl (λ _. ground (arith, length-entity c)) in
      (q, rw roomy run, a)
]

-- What an escaping append leaves: the escape of a part of the bytes, the whole of them unless the
-- memory was refused, and a buffer that its text fits.
pub record Escapes (b : Strbuf) (bytes : Bytes) (r : Bool × Strbuf) : Type 0 where
  pub valid : IsValid r.1
  pub written : Bytes
  pub unwritten : Bytes
  pub cut : bytes ≡ written ++ unwritten
  pub adds : r.1.text ≡ b.text ++ escaped written
  pub whole : r.0 ≡ true → unwritten ≡ []

Escapes-stop :
    (b : Strbuf) (s : Bytes) (flag : Bool) (q : Strbuf)
    → IsValid q
    → q.text ≡ b.text
    → (flag ≡ true → s ≡ [])
    → Escapes b s (flag, q)
Escapes-stop b s flag q v e w = record {
  valid = v;
  written = [];
  unwritten = s;
  cut = refl;
  adds = e ∙ sym (append-nil b.text);
  whole = w;
}

Escapes-step :
    (b b' : Strbuf) (c : ℕ) (s : Bytes) (r : Bool × Strbuf)
    → b'.text ≡ b.text ++ entity c
    → Escapes b' s r
    → Escapes b (c ∷ s) r
Escapes-step b b' c s r e x = record {
  valid = x.valid;
  written = c ∷ x.written;
  unwritten = x.unwritten;
  cut = ap (◌∷◌ c) x.cut;
  adds = x.adds ∙ rw e (append_assoc b.text (entity c) (escaped x.written));
  whole = x.whole;
}

escape_rest-Escapes :
    (alloc : ℕ → Bool) (s : Bytes) (b : Strbuf)
    → IsValid b
    → Returns (escape_rest alloc s b) (Escapes b s)
unfolding escape_rest
escape_rest-Escapes alloc [] b v = ((true, b), refl, Escapes-stop b [] true b v refl (λ _. refl))
escape_rest-Escapes alloc (c ∷ s) b v =
    let (q, run, a) = escape_byte-Appends alloc b c v in
    elim (Bool-cases q.0) [
      | inl more ↦
          let (r, run', x) = escape_rest-Escapes alloc s q.1 a.valid in
          (r, rw (run, more) run', Escapes-step b q.1 c s r (a.added more) x)
      | inr stop ↦ (
        (false, q.1),
        rw (run, stop) refl,
        Escapes-stop b (c ∷ s) false q.1 a.valid (a.refused stop) (λ h. cc),
      )
    ]

-- On a valid buffer strbuf_append_str_escaped never writes out of bounds, whatever memory there
-- is, and adds the escape of a part of the bytes; of all of them, if it returns true.
pub strbuf_append_str_escaped-Escapes :
    (alloc : ℕ → Bool) (b : Strbuf) (bytes : Bytes)
    → IsValid b
    → Returns (strbuf_append_str_escaped alloc b bytes) (Escapes b bytes)
unfolding strbuf_append_str_escaped
strbuf_append_str_escaped-Escapes alloc b bytes v =
    let b' = (strbuf_ensure alloc b (length bytes)).1 in
    let (r, run, x) =
      escape_rest-Escapes alloc bytes b' (strbuf_ensure-IsValid alloc b (length bytes) v) in
    (
      r,
      run,
      record {
        valid = x.valid;
        written = x.written;
        unwritten = x.unwritten;
        cut = x.cut;
        adds = x.adds ∙ rw (strbuf_ensure-text alloc b (length bytes));
        whole = x.whole;
      },
    )

-- A byte that HTML gives no meaning in text and in quoted attributes, but `&`.
abbrev pub Inert : ℕ → Type 0
Inert c = (c ≢ b'<') × (c ≢ b'>') × (c ≢ b'"') × (c ≢ b'\'')

entity-Inert : (c : ℕ) → All Inert (entity c)
unfolding entity
entity-Inert c = ground arith

-- No byte of an escaped text is `<`, `>` or a quote.
pub escaped-Inert : (s : Bytes) → All Inert (escaped s)
escaped-Inert [] = tt
escaped-Inert (c ∷ s) = All-append Inert (entity c) (escaped s) (entity-Inert c) (escaped-Inert s)

entity-ne-nil : (c : ℕ) (s : Bytes) → entity c ++ s ≢ []
unfolding entity
entity-ne-nil c s = ground arith

entity_cancel : (c d : ℕ) (s t : Bytes) → entity c ++ s ≡ entity d ++ t → (c ≡ d) × (s ≡ t)
unfolding entity
entity_cancel c d s t h = ground arith

-- Different texts have different escapes.
pub escaped-injective : (s t : Bytes) → escaped s ≡ escaped t → s ≡ t
escaped-injective [] [] h = refl
escaped-injective [] (d ∷ t) h = absurd (entity-ne-nil d _ (sym h))
escaped-injective (c ∷ s) [] h = absurd (entity-ne-nil c _ h)
escaped-injective (c ∷ s) (d ∷ t) h =
    let (e, f) = entity_cancel c d (escaped s) (escaped t) h in ap₂ ◌∷◌ e (escaped-injective s t f)
