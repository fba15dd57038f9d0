-- ===== src/Pgwire/Row.antt =====
-- pg_value of mugshot/pgwire.c finds the fields of a row as the server lays them out.
use plmuggin.Base.{
  ℕ, zero, suc, ◌+◌, ◌-◌, ◌*◌, ◌/◌, ◌%◌, ◌^◌, ◌<◌, ◌≡◌, refl, sym, ap, subst, ◌∙◌, true, false,
  ◌||◌, Option, none, some, List, [], ◌∷◌, ◌++◌, append_assoc, arith, ltb, leb, ◌==◌, Bytes, length,
  take, drop, get_elem?, length-append, take-append, drop-append, lt_of_get_elem?,
}
use plmuggin.Pgwire.Value.{PgVal, get_i16, get_i32, read_value, read_values, pg_value}
use plmuggin.Pgwire.{htons, htonl}
use plmuggin.Pool.Slots.{at-append}
use plmuggin.Pool.{at}
use plmuggin.Result.{ok, Returns, ◌>>=◌}

-- A field as the server sends it: its length and its bytes, or the length -1 for NULL.
abbrev pub field_bytes : Option Bytes → Bytes
field_bytes none = htonl (2 ^ 32 - 1)
field_bytes (some v) = htonl (length v) ++ v

abbrev pub fields_bytes : List (Option Bytes) → Bytes
fields_bytes [] = []
fields_bytes (f ∷ fs) = field_bytes f ++ fields_bytes fs

-- The data of a row: the count of its fields, and the fields.
abbrev pub row_bytes : List (Option Bytes) → Bytes
row_bytes fs = htons (length fs) ++ fields_bytes fs

-- The value stands for the field, in the buffer that it points into.
abbrev pub Shows : Bytes → Option Bytes → PgVal → Type 0
Shows text none v = v.is_null ≡ true
Shows text (some s) v = (v.is_null ≡ false) × (take v.len (drop v.buf_pos text) ≡ s)

pub get_i16-append :
    (before : Bytes) (b₁ b₀ : ℕ) (s : Bytes)
    → get_i16 (before ++ (b₁ ∷ b₀ ∷ s)) (length before) ≡ ok (b₁ * 2 ^ 8 + b₀)
unfolding get_i16
get_i16-append before b₁ b₀ s =
    let second : at (before ++ (b₁ ∷ b₀ ∷ s)) (length before + 1) ≡ ok b₀ =
      ap (λ t. at t (length before + 1)) (sym (append_assoc before (b₁ ∷ []) (b₀ ∷ s)))
      ∙ ap (at ((before ++ (b₁ ∷ [])) ++ (b₀ ∷ s))) (sym (length-append before (b₁ ∷ [])))
      ∙ at-append (before ++ (b₁ ∷ [])) b₀ s in
    rw (at-append before b₁ (b₀ ∷ s), second) refl

pub get_i32-append :
    (before : Bytes) (n : ℕ) (s : Bytes)
    → n < 2 ^ 32
    → get_i32 (before ++ (htonl n ++ s)) (length before) ≡ ok n
unfolding get_i32
get_i32-append before n s lt =
    let a = n / 2 ^ 24 % 2 ^ 8 in
    let b = n / 2 ^ 16 % 2 ^ 8 in
    let low : get_i16 (before ++ (htonl n ++ s)) (length before + 2)
        ≡ ok (n / 2 ^ 8 % 2 ^ 8 * 2 ^ 8 + n % 2 ^ 8) =
      ap (λ t. get_i16 t (length before + 2))
        (sym (append_assoc before (a ∷ b ∷ []) (n / 2 ^ 8 % 2 ^ 8 ∷ n % 2 ^ 8 ∷ s)))
      ∙ ap (get_i16 ((before ++ (a ∷ b ∷ [])) ++ (n / 2 ^ 8 % 2 ^ 8 ∷ n % 2 ^ 8 ∷ s)))
          (sym (length-append before (a ∷ b ∷ [])))
      ∙ get_i16-append (before ++ (a ∷ b ∷ [])) (n / 2 ^ 8 % 2 ^ 8) (n % 2 ^ 8) s in
    rw (get_i16-append before a b (n / 2 ^ 8 % 2 ^ 8 ∷ n % 2 ^ 8 ∷ s), low) (ap ok (omega arith))

pub drop_to :
    (before x s : Bytes) {n : ℕ}
    → length before ≡ n
    → take (length x) (drop n (before ++ (x ++ s))) ≡ x
drop_to before x s e =
    ap (λ k. take (length x) (drop k (before ++ (x ++ s)))) (sym e)
    ∙ ap (take (length x)) (drop-append before (x ++ s))
    ∙ take-append x s

-- One field, and the position behind it.
read_value-field :
    (before : Bytes) (f : Option Bytes) (s : Bytes)
    → length (before ++ field_bytes f) < 2 ^ 31
    → (v : PgVal) × (read_value (before ++ (field_bytes f ++ s)) (length before)
        ≡ ok (v, length (before ++ field_bytes f)))
      × Shows (before ++ (field_bytes f ++ s)) f v
unfolding read_value
read_value-field before none s lt =
    rw
      (
        get_i32-append before (2 ^ 32 - 1) s (omega arith),
        length-append before (htonl (2 ^ 32 - 1)),
      )
      (_, refl, refl)
read_value-field before (some x) s lt =
    let n = length-append before (htonl (length x) ++ x) in
    let m : length (htonl (length x) ++ x) ≡ 4 + length x = omega arith in
    let read : get_i32 (before ++ ((htonl (length x) ++ x) ++ s)) (length before) ≡ ok (length x) =
      ap (λ t. get_i32 (before ++ t) (length before)) (append_assoc (htonl (length x)) x s)
      ∙ get_i32-append before (length x) (x ++ s) (omega arith) in
    let positive : (length x == 2 ^ 32 - 1) ≡ false = ground (arith, lt, n) in
    let small : ltb (length x) (2 ^ 31) ≡ true = ground (arith, lt, n) in
    let next : (length before + 4 + length x) % 2 ^ 64
        ≡ length (before ++ (htonl (length x) ++ x)) =
      omega arith in
    let shown : take (length x)
          (drop (length before + 4) (before ++ (htonl (length x) ++ (x ++ s))))
        ≡ x =
      ap (λ t. take (length x) (drop (length before + 4) t))
        (sym (append_assoc before (htonl (length x)) (x ++ s)))
      ∙ drop_to (before ++ htonl (length x)) x s (length-append before (htonl (length x))) in
    rw (read, positive, small, next) (_, refl, (refl, shown))

field_fits :
    (text before : Bytes) (f : Option Bytes) (s : Bytes)
    → text ≡ before ++ (field_bytes f ++ s)
    → length text < 2 ^ 31
    → length (before ++ field_bytes f) < 2 ^ 31
field_fits text before f s e lt = omega (
  arith,
  ap length e,
  length-append before (field_bytes f ++ s),
  length-append (field_bytes f) s,
  length-append before (field_bytes f),
)

read_values-fields :
    (k : ℕ) (fs : List (Option Bytes)) (text before behind : Bytes) {f : Option Bytes}
    → text ≡ before ++ (fields_bytes fs ++ behind)
    → get_elem? fs k ≡ some f
    → length text < 2 ^ 31
    → Returns (read_values k text (length before)) (Shows text f)
unfolding read_values
read_values-fields k [] text before behind e h lt = cc
read_values-fields zero (g ∷ fs) text before behind {f} e h lt =
    let split : text ≡ before ++ (field_bytes g ++ (fields_bytes fs ++ behind)) =
      e ∙ ap (◌++◌ before) (append_assoc (field_bytes g) (fields_bytes fs) behind) in
    let same : g ≡ f = cc in
    let (v, run, shows) =
      read_value-field before g (fields_bytes fs ++ behind)
        (field_fits text before g (fields_bytes fs ++ behind) split lt) in
    (
      v,
      ap (λ t. read_value t (length before) >>= λ r. ok (r.0)) split
          ∙ ap (λ r. r >>= λ q. ok (q.0)) run,
      subst (λ g'. Shows text g' v) same (subst (λ t. Shows t g v) (sym split) shows),
    )
read_values-fields (suc k) (g ∷ fs) text before behind {f} e h lt =
    let split : text ≡ before ++ (field_bytes g ++ (fields_bytes fs ++ behind)) =
      e ∙ ap (◌++◌ before) (append_assoc (field_bytes g) (fields_bytes fs) behind) in
    let (v, run, shows) =
      read_value-field before g (fields_bytes fs ++ behind)
        (field_fits text before g (fields_bytes fs ++ behind) split lt) in
    let (w, rest, shown) =
      read_values-fields k fs text (before ++ field_bytes g) behind
        (split ∙ sym (append_assoc before (field_bytes g) (fields_bytes fs ++ behind))) h lt in
    (
      w,
      ap (λ t. read_value t (length before) >>= λ r. read_values k text (r.1)) split
          ∙ ap (λ r. r >>= λ q. read_values k text (q.1)) run
          ∙ rest,
      shown,
    )

-- In a buffer with the data of a row at row_start, pg_value gives for each field of the row the value that
-- stands for it: NULL, or the place of its bytes. The row has fewer than 2 ^ 15 fields, and the buffer
-- fewer than 2 ^ 31 bytes.
pub pg_value-row :
    (before : Bytes) (fs : List (Option Bytes)) (behind : Bytes) (k : ℕ) (f : Option Bytes)
    → get_elem? fs k ≡ some f
    → length fs < 2 ^ 15
    → length (before ++ (row_bytes fs ++ behind)) < 2 ^ 31
    → Returns
        (pg_value (before ++ (row_bytes fs ++ behind)) (some (length before)) k)
        (λ o. (v : PgVal) × (o ≡ some v) × Shows (before ++ (row_bytes fs ++ behind)) f v)
unfolding pg_value
pg_value-row before fs behind k f h few lt =
    let text : Bytes = before ++ (row_bytes fs ++ behind) in
    let count : get_i16 text (length before) ≡ ok (length fs) =
      get_i16-append before (length fs / 2 ^ 8 % 2 ^ 8) (length fs % 2 ^ 8)
        (fields_bytes fs ++ behind)
      ∙ ap ok (omega arith) in
    let inside : (leb (2 ^ 15) (length fs) || leb (length fs) k) ≡ false =
      ground (arith, lt_of_get_elem? fs k h) in
    let (v, run, shows) =
      read_values-fields k fs text (before ++ htons (length fs)) behind
        (sym (append_assoc before (htons (length fs)) (fields_bytes fs ++ behind))) h lt in
    let at_fields : length before + 2 ≡ length (before ++ htons (length fs)) =
      omega (arith, length-append before (htons (length fs))) in
    rw (count, inside, at_fields, run) (_, refl, (v, refl, shows))
