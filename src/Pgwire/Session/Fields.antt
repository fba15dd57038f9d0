-- ===== src/Pgwire/Session/Fields.antt =====
-- The fields of notices and errors, as a server lays them out, and what the loops of
-- mugshot/pgwire.c over them make of them.
use plmuggin.Base.{
  ℕ, zero, suc, ◌+◌, ◌^◌, ◌≤◌, ◌<◌, ◌≡◌, ◌≢◌, refl, sym, ap, ap₂, ◌∙◌, Bool, true, false, ◌&&◌,
  List, [], ◌∷◌, ◌++◌, append_assoc, arith, ltb, ◌==◌, if◌then◌else◌, Bytes, codes, length,
  length-append, take, drop, drop-append, Lacks, lacks-Lacks, All, Bool-cases, inl, inr,
}
use plmuggin.Pgwire.Frames.{message}
use plmuggin.Pgwire.Session.{
  PgErrorSeverity, err_error, err_fatal, err_panic, PgError, strlen, scan_notice, error_field,
  error_fields,
}
use plmuggin.Render.{c_string}
use plmuggin.Result.{ok}
use plmuggin.Str.{char_at, str_drop, str_startswith, strncmp_eq}

-- A field of a notice or an error, and a message of such fields, which a NUL byte ends.
pub record Field : Type 0 where
  pub code : ℕ
  pub text : Bytes

abbrev pub IsField : Field → Type 0
IsField f = (f.code ≢ 0) × Lacks 0 f.text

abbrev pub field_text : Field → Bytes
field_text f = f.code ∷ f.text ++ 0 ∷ []

abbrev pub fields_text : List Field → Bytes
fields_text [] = 0 ∷ []
fields_text (f ∷ fs) = f.code ∷ (f.text ++ 0 ∷ fields_text fs)

abbrev pub AreFields : List Field → Type 0
AreFields fs = All IsField fs × (length (fields_text fs) + 4 < 2 ^ 31)

-- Notices on their way.
abbrev pub notices_of : List (List Field) → Bytes → Bytes
notices_of [] rest = rest
notices_of (n ∷ ns) rest = message b'N' (fields_text n) ++ notices_of ns rest

-- `w` stands at the start of `s`.
abbrev pub starts : Bytes → Bytes → Bool
starts s [] = true
starts [] (y ∷ w) = false
starts (x ∷ s) (y ∷ w) = x == y && starts s w

-- The severity that a text names.
abbrev pub severity_of : Bytes → PgErrorSeverity → PgErrorSeverity
severity_of text before =
    if starts text (codes "ERROR")
    then err_error
    else if starts text (codes "FATAL")
    then err_fatal
    else if starts text (codes "PANIC")
    then err_panic
    else before

-- What the fields of an error report: the severity in its field V and the message in its field M, of
-- which 255 bytes are kept.
abbrev pub report_field : Field → PgError → PgError
report_field f e =
    if f.code == b'V'
    then record e { severity = severity_of f.text e.severity }
    else if f.code == b'M'
    then record e { message = take 255 f.text }
    else e

abbrev pub report : List Field → PgError → PgError
report [] e = e
report (f ∷ fs) e = report fs (report_field f e)

str_startswith-starts : (s w : Bytes) → Lacks 0 w → str_startswith s w ≡ starts s w
unfolding str_startswith strncmp_eq
str_startswith-starts s [] l = ground arith
str_startswith-starts [] (y ∷ w) l = ground arith
str_startswith-starts (x ∷ s) (y ∷ w) (n, l) =
    let rest = str_startswith-starts s w l in ground arith

pub strncmp_eq-starts :
    (s w : Bytes) → Lacks 0 w → strncmp_eq (length w) (s ++ 0 ∷ []) w ≡ starts s w
unfolding strncmp_eq
strncmp_eq-starts s [] l = refl
strncmp_eq-starts [] (y ∷ w) (n, l) = ground arith
strncmp_eq-starts (x ∷ s) (y ∷ w) (n, l) = let rest = strncmp_eq-starts s w l in ground arith

starts-nul : (s w rest : Bytes) → Lacks 0 w → starts (s ++ 0 ∷ rest) w ≡ starts s w
starts-nul s [] rest l = refl
starts-nul [] (y ∷ w) rest (n, l) = ground arith
starts-nul (x ∷ s) (y ∷ w) rest (n, l) = ap (λ b. x == y && b) (starts-nul s w rest l)

field_startswith :
    (s w rest : Bytes) (c : ℕ)
    → c ≢ 0
    → Lacks 0 w
    → str_startswith (c ∷ (s ++ 0 ∷ rest)) (c ∷ w) ≡ starts s w
field_startswith s w rest c ne l =
    str_startswith-starts (c ∷ (s ++ 0 ∷ rest)) (c ∷ w) (ne, l)
    ∙ ground (arith, starts-nul s w rest l)

pub strlen-nul : (s rest : Bytes) → Lacks 0 s → strlen (s ++ 0 ∷ rest) ≡ ok (length s)
unfolding strlen
strlen-nul [] rest l = refl
strlen-nul (zero ∷ s) rest (n, l) = absurd (n refl)
strlen-nul (suc c ∷ s) rest (n, l) = rw (strlen-nul s rest l) refl

c_string-append : (s rest : Bytes) → Lacks 0 s → c_string (s ++ 0 ∷ rest) ≡ s
unfolding c_string
c_string-append [] rest l = refl
c_string-append (zero ∷ s) rest (n, l) = absurd (n refl)
c_string-append (suc c ∷ s) rest (n, l) = ap (◌∷◌ (suc c)) (c_string-append s rest l)

pub drop-nul : (s rest : Bytes) → drop (length s + 1) (s ++ 0 ∷ rest) ≡ rest
drop-nul s rest =
    ap (λ n. drop n (s ++ 0 ∷ rest)) (sym (length-append s (0 ∷ [])))
    ∙ ap (drop (length (s ++ 0 ∷ []))) (sym (append_assoc s (0 ∷ []) rest))
    ∙ drop-append (s ++ 0 ∷ []) rest

str_drop-nul : (s rest : Bytes) → str_drop (s ++ 0 ∷ rest) (length s + 1) ≡ rest
unfolding str_drop
str_drop-nul s rest =
    let inside : ltb (length (s ++ 0 ∷ rest)) (length s + 1) ≡ false =
      ground (arith, length-append s (0 ∷ rest)) in
    rw inside (drop-nul s rest)

scan_notice-field :
    (c : ℕ) (s rest : Bytes) (fuel : ℕ)
    → c ≢ 0
    → Lacks 0 s
    → scan_notice (suc fuel) (c ∷ (s ++ 0 ∷ rest)) ≡ scan_notice fuel rest
unfolding scan_notice
scan_notice-field zero s rest fuel ne l = absurd (ne refl)
scan_notice-field (suc c) s rest fuel ne l =
    rw (strlen-nul s rest l) (ap (scan_notice fuel) (drop-nul s rest))

-- The fields of a notice are read to their end.
pub scan_notice-fields_text :
    (fs : List Field) (fuel : ℕ)
    → All IsField fs
    → length (fields_text fs) ≤ fuel
    → scan_notice fuel (fields_text fs) ≡ ok true
unfolding scan_notice
scan_notice-fields_text [] fuel h le = refl
scan_notice-fields_text (f ∷ fs) zero h le = absurd (omega arith)
scan_notice-fields_text (f ∷ fs) (suc fuel) ((ne, l), hs) le =
    scan_notice-field f.code f.text (fields_text fs) fuel ne l
    ∙ scan_notice-fields_text fs fuel hs (omega (arith, length-append f.text (0 ∷ fields_text fs)))

choose_severity :
    (b₁ b₂ b₃ : Bool) (e : PgError)
    → (if b₁
        then record e { severity = err_error }
        else if b₂
        then record e { severity = err_fatal }
        else if b₃
        then record e { severity = err_panic }
        else e)
      ≡ record e {
        severity =
            if b₁
            then err_error
            else if b₂
            then err_fatal
            else if b₃
            then err_panic
            else e.severity;
      }
choose_severity true b₂ b₃ e = refl
choose_severity false true b₃ e = refl
choose_severity false false true e = refl
choose_severity false false false e = refl

error_field-report :
    (f : Field) (rest : Bytes) (e : PgError)
    → IsField f
    → error_field (f.code ∷ (f.text ++ 0 ∷ rest)) e ≡ report_field f e
unfolding error_field char_at
error_field-report f rest e (ne, l) = elim (Bool-cases (f.code == b'V')) [
  | inl v ↦
      let code : f.code ≡ b'V' = ground arith in
      let named : (w : Bytes)
          → Lacks 0 w
          → str_startswith (f.code ∷ (f.text ++ 0 ∷ rest)) (b'V' ∷ w) ≡ starts f.text w =
        λ w lw.
          ap (λ c. str_startswith (c ∷ (f.text ++ 0 ∷ rest)) (b'V' ∷ w)) code
          ∙ field_startswith f.text w rest b'V' (omega arith) lw in
      let e₁ = named (codes "ERROR") (lacks-Lacks 0 (codes "ERROR") refl) in
      let e₂ = named (codes "FATAL") (lacks-Lacks 0 (codes "FATAL") refl) in
      let e₃ = named (codes "PANIC") (lacks-Lacks 0 (codes "PANIC") refl) in
      rw (v, e₁, e₂, e₃)
        (choose_severity (starts f.text (codes "ERROR")) (starts f.text (codes "FATAL"))
          (starts f.text (codes "PANIC")) e)
  | inr other ↦ elim (Bool-cases (f.code == b'M')) [
    | inl m ↦ rw (other, m, c_string-append f.text rest l) refl
    | inr neither ↦ rw (other, neither) refl
  ]
]

error_fields-nil : (fuel : ℕ) (e : PgError) → error_fields (suc fuel) (0 ∷ []) e ≡ ok e
unfolding error_fields strlen error_field str_drop char_at
error_fields-nil fuel e = refl

pub error_fields-report :
    (fs : List Field) (fuel : ℕ) (e : PgError)
    → All IsField fs
    → length (fields_text fs) ≤ fuel
    → error_fields fuel (fields_text fs) e ≡ ok (report fs e)
unfolding error_fields
error_fields-report [] zero e h le = absurd (omega arith)
error_fields-report (f ∷ fs) zero e h le = absurd (omega arith)
error_fields-report [] (suc fuel) e h le = error_fields-nil fuel e
error_fields-report (f ∷ fs) (suc fuel) e ((ne, l), hs) le =
    let len = strlen-nul (f.code ∷ f.text) (fields_text fs) (ne, l) in
    let cut = str_drop-nul (f.code ∷ f.text) (fields_text fs) in
    let n = length-append f.text (0 ∷ fields_text fs) in
    let rest = error_fields-report fs fuel (report_field f e) hs (omega (arith, n)) in
    rw len (ap₂ (error_fields fuel) cut (error_field-report f (fields_text fs) e (ne, l)) ∙ rest)

pub length-fields_text : (fs : List Field) → 0 < length (fields_text fs)
length-fields_text [] = omega arith
length-fields_text (f ∷ fs) = omega arith
