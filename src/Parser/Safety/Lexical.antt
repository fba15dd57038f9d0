-- ===== src/Parser/Safety/Lexical.antt =====
-- muggin_check_indent and muggin_read_constant of muggin.c are safe.
use plmuggin.Base.{
  ℕ, ◌+◌, ◌≤◌, ◌<◌, ◌≡◌, ◌≢◌, ap, Bool, true, false, some, [], ◌∷◌, arith, Bytes, length, inl, inr,
  Bool-cases, ltb, ltb→lt, ◌==◌, if◌then◌else◌,
}
use plmuggin.Parser.Lexical.{
  indent_of, muggin_read_indent, muggin_check_indent, span, muggin_read_constant,
}
use plmuggin.Parser.Monad.{Ctx}
use plmuggin.Parser.Safety.Rules.{
  Meets, returns, Meets-bind, IsCtx, Later, Later-refl, Later-trans, Later-input,
  muggin_use_constant-Meets,
}
use plmuggin.Pool.{count}
use plmuggin.Str.Split.{length-str_take}
use plmuggin.Str.{str_take}

length-indent_of : (n : ℕ) (s : Bytes) → length (indent_of n s).1 ≤ length s
unfolding indent_of
length-indent_of n [] = omega arith
length-indent_of n (c ∷ s) = ground (arith, length-indent_of (if c == b' ' then n + 1 else n + 8) s)

pub muggin_check_indent-Meets :
    (n : ℕ) (c : Ctx) → IsCtx c → Meets (λ _ c'. Later c c') (muggin_check_indent n c)
unfolding muggin_check_indent muggin_read_indent
muggin_check_indent-Meets n c v = elim (Bool-cases (n == (indent_of 0 c.input).0)) [
  | inl same ↦ rw same (returns (Later-input _ (Later-refl v) (length-indent_of 0 c.input)))
  | inr other ↦ rw other (returns (Later-input _ (Later-refl v) (omega arith)))
]

-- What muggin_read_constant takes and what it leaves make up the input.
length-span :
    (valid : ℕ → Bool → Bool) (first : Bool) (s : Bytes)
    → (span valid first s).0 + length (span valid first s).1 ≡ length s
unfolding span
length-span valid first [] = omega arith
length-span valid first (c ∷ s) = ground (arith, length-span valid false s)

pub muggin_read_constant-Meets :
    (valid : ℕ → Bool → Bool) (c : Ctx)
    → IsCtx c
    → Meets
        (λ r c'.
          Later c c'
          × ((id : ℕ)
              → r ≡ some id
              → (id < count c'.constants) × (length c'.input < length c.input)))
        (muggin_read_constant valid c)
unfolding muggin_read_constant
muggin_read_constant-Meets valid c v =
    let r = span valid true c.input in
    let sum = length-span valid true c.input in
    let c₁ : Ctx = record c { input = r.1 } in
    let l : Later c c₁ = Later-input r.1 (Later-refl v) (omega (arith, sum)) in
    elim (Bool-cases (ltb 0 r.0)) [
      | inr none_read ↦ rw none_read (returns (l, λ id e. cc))
      | inl read ↦
          let taken = length-str_take c.input r.0 in
          let ne : str_take c.input r.0 ≢ [] =
            λ z. absurd (omega (arith, taken, ap length z, ltb→lt 0 r.0 read, sum)) in
          rw read (
            Meets-bind _ (muggin_use_constant-Meets _ c₁ l.valid ne) (λ id c₂ (l₂, e, lt). returns (
              Later-trans l l₂,
              λ id' e'.
                  let same : id ≡ id' = cc in
                  (omega (arith, same, lt), omega (arith, ap length e, sum, ltb→lt 0 r.0 read)),
            )))
    ]
