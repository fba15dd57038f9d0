-- ===== src/Pgwire/NextRow.antt =====
-- pg_next_row of mugshot/pgwire.c: the rows of a result as they come from the server.
use plmuggin.Base.{
  ℕ, zero, suc, ◌+◌, ◌-◌, ◌%◌, ◌^◌, ◌≤◌, ◌<◌, ◌≡◌, refl, sym, subst, ap₂, ltb, drop, drop-append,
  Lacks, ◌∙◌, Bool, true, false, Option, none, some, List, [], ◌∷◌, ◌++◌, append_assoc, append-nil,
  arith, ◌==◌, if◌then◌else◌, Bytes, length, length-append, get_elem?, All,
}
use plmuggin.Pgwire.Frames.{message}
use plmuggin.Pgwire.Read.{read_msg, read_msg-message}
use plmuggin.Pgwire.Row.{row_bytes, Shows, pg_value-row}
use plmuggin.Pgwire.Session.Fields.{
  Field, IsField, fields_text, AreFields, notices_of, strlen-nul, drop-nul, length-fields_text,
}
use plmuggin.Pgwire.Session.{strlen}
use plmuggin.Pgwire.Value.{PgVal, pg_value}
use plmuggin.Pgwire.{Conn}
use plmuggin.Result.{Result, ok, fail, uninitialised, out_of_fuel, ◌>>=◌, Returns}

-- PgRow, with `none` for a row_start of -1
pub record PgRow : Type 0 where
  pub success : Bool
  pub has_row : Bool
  pub row_start : Option ℕ

-- the result of `goto fail`
abbrev pub failed_row : PgRow
failed_row = record { success = false; has_row = false; row_start = none }

-- The loop over the fields of a notice, with `len` as it counts down: it prints the message, and
-- strlen goes on behind the bytes of the notice where a field has no NUL. As much fuel as bytes is
-- enough.
unfoldable pub print_notice : ℕ → ℕ → Bytes → Result Bool
unfolding strlen
print_notice fuel len [] = if ltb 1 len then fail uninitialised else ok true
print_notice zero len (field ∷ notice) = if ltb 1 len then fail out_of_fuel else ok true
print_notice (suc fuel) len (field ∷ notice) =
    if ltb 1 len
    then (do
      l ← strlen notice
      print_notice fuel ((2 ^ 64 + len - 1 - (l + 1)) % 2 ^ 64) (drop (l + 1) notice))
    else ok true

-- The loop at `message`: the row, the connection and what is still to come from the socket. A
-- notice is printed and stays in the buffer; an error is printed as well. What read_msg has taken
-- where it fails is not kept: the caller gives up then.
unfoldable pub pg_next_row : ℕ → (ℕ → Bool) → Conn → Bytes → Result (PgRow × Conn × Bytes)
unfolding read_msg print_notice
pg_next_row zero alloc c socket = fail out_of_fuel
pg_next_row (suc fuel) alloc c socket = elim (read_msg alloc c socket) [
  | none ↦ ok (failed_row, c, socket)
  | some (m, c', rest) ↦
      let later = pg_next_row fuel alloc c' rest in
      if m.type == b'D'
      then ok (record { success = true; has_row = true; row_start = some m.payload }, c', rest)
      else if m.type == b'C'
      then ok (record { success = true; has_row = false; row_start = none }, c', rest)
      else if m.type == b'N'
      then (do printed ← print_notice m.len m.len (drop m.payload c'.text); later)
      else ok (failed_row, c', rest)
]

-- What notices leave in the buffer.
abbrev pub texts : List (List Field) → Bytes
texts [] = []
texts (n ∷ ns) = fields_text n ++ texts ns

print_notice-field :
    (c : ℕ) (s rest : Bytes) (fuel : ℕ)
    → Lacks 0 s
    → length s + length rest < 2 ^ 32
    → print_notice (suc fuel) (length (c ∷ (s ++ 0 ∷ rest))) (c ∷ (s ++ 0 ∷ rest))
      ≡ print_notice fuel (length rest) rest
unfolding print_notice
print_notice-field c s rest fuel l short =
    let n = length-append s (0 ∷ rest) in
    let more : ltb 1 (length (c ∷ (s ++ 0 ∷ rest))) ≡ true = ground (arith, n) in
    let left : (2 ^ 64 + length (c ∷ (s ++ 0 ∷ rest)) - 1 - (length s + 1)) % 2 ^ 64 ≡ length rest =
      omega (arith, n) in
    rw (print_notice, more, strlen-nul s rest l) (ap₂ (print_notice fuel) left (drop-nul s rest))

-- The fields of a notice are printed, and the scan stops at its end.
print_notice-fields_text :
    (fs : List Field) (fuel : ℕ)
    → All IsField fs
    → length (fields_text fs) ≤ fuel
    → length (fields_text fs) < 2 ^ 32
    → print_notice fuel (length (fields_text fs)) (fields_text fs) ≡ ok true
unfolding print_notice
print_notice-fields_text fs zero h le short = absurd (omega (arith, length-fields_text fs))
print_notice-fields_text [] (suc fuel) h le short = refl
print_notice-fields_text (f ∷ fs) (suc fuel) ((ne, l), hs) le short =
    let n = length-append f.text (0 ∷ fields_text fs) in
    print_notice-field f.code f.text (fields_text fs) fuel l (omega (arith, n))
    ∙ print_notice-fields_text fs fuel hs (omega (arith, n)) (omega (arith, n))

pg_next_row-notice :
    (fuel : ℕ) (alloc : ℕ → Bool) (c : Conn) (n : List Field) (rest : Bytes)
    → ((k : ℕ) → alloc k ≡ true)
    → AreFields n
    → (size : ℕ) × (pg_next_row (suc fuel) alloc c (message b'N' (fields_text n) ++ rest)
        ≡ pg_next_row fuel alloc (record { buf_size = size; text = c.text ++ fields_text n }) rest)
unfolding pg_next_row
pg_next_row-notice fuel alloc c n rest granted (h, short) =
    let (size, run) =
      read_msg-message alloc c b'N' (fields_text n) rest granted (omega (arith, short)) in
    let printed =
      print_notice-fields_text n (length (fields_text n)) h (omega arith) (omega (arith, short)) in
    (size, rw (pg_next_row, run, drop-append c.text (fields_text n), printed) refl)

pub pg_next_row-data :
    (fuel : ℕ) (alloc : ℕ → Bool) (c : Conn) (data_row rest : Bytes)
    → ((k : ℕ) → alloc k ≡ true)
    → length data_row + 4 < 2 ^ 32
    → (size : ℕ) × (pg_next_row (suc fuel) alloc c (message b'D' data_row ++ rest)
        ≡ ok (
          record { success = true; has_row = true; row_start = some (length c.text) },
          record { buf_size = size; text = c.text ++ data_row },
          rest,
        ))
unfolding pg_next_row
pg_next_row-data fuel alloc c data_row rest granted short =
    let (size, run) = read_msg-message alloc c b'D' data_row rest granted short in
    (size, rw (pg_next_row, run) refl)

pub pg_next_row_complete :
    (fuel : ℕ) (alloc : ℕ → Bool) (c : Conn) (tag rest : Bytes)
    → ((k : ℕ) → alloc k ≡ true)
    → length tag + 4 < 2 ^ 32
    → (size : ℕ) × (pg_next_row (suc fuel) alloc c (message b'C' tag ++ rest)
        ≡ ok (
          record { success = true; has_row = false; row_start = none },
          record { buf_size = size; text = c.text ++ tag },
          rest,
        ))
unfolding pg_next_row
pg_next_row_complete fuel alloc c tag rest granted short =
    let (size, run) = read_msg-message alloc c b'C' tag rest granted short in
    (size, rw (pg_next_row, run) refl)

pg_next_row-notices :
    (ns : List (List Field)) (fuel : ℕ) (alloc : ℕ → Bool) (c : Conn) (data_row rest : Bytes)
    → ((k : ℕ) → alloc k ≡ true)
    → All AreFields ns
    → length data_row + 4 < 2 ^ 32
    → length ns < fuel
    → (size : ℕ) × (pg_next_row fuel alloc c (notices_of ns (message b'D' data_row ++ rest))
        ≡ ok (
          record { success = true; has_row = true; row_start = some (length (c.text ++ texts ns)) },
          record { buf_size = size; text = (c.text ++ texts ns) ++ data_row },
          rest,
        ))
pg_next_row-notices ns zero alloc c data_row rest granted hs short lt = absurd (omega arith)
pg_next_row-notices [] (suc fuel) alloc c data_row rest granted hs short lt =
    let (size, run) = pg_next_row-data fuel alloc c data_row rest granted short in
    rw append-nil (size, run)
pg_next_row-notices (n ∷ ns) (suc fuel) alloc c data_row rest granted (h, hs) short lt =
    let (size, run) =
      pg_next_row-notice fuel alloc c n (notices_of ns (message b'D' data_row ++ rest)) granted h in
    let (size', run') =
      pg_next_row-notices ns fuel alloc (record { buf_size = size; text = c.text ++ fields_text n })
        data_row rest granted hs short (omega arith) in
    rw⁻¹ (append_assoc c.text (fields_text n) (texts ns)) (size', run ∙ run')

-- A row that the server sends, behind any notices in the form of the protocol, is the next row, and pg_value gives each of its fields from the
-- buffer: it has fewer than 2 ^ 15 fields, the buffer stays below 2 ^ 31 bytes, and no memory is refused.
pub pg_next_row-pg_value :
    (ns : List (List Field)) (fuel : ℕ) (alloc : ℕ → Bool) (c : Conn) (fs : List (Option Bytes))
    (rest : Bytes) (k : ℕ) (f : Option Bytes)
    → ((n : ℕ) → alloc n ≡ true)
    → All AreFields ns
    → length ns < fuel
    → get_elem? fs k ≡ some f
    → length fs < 2 ^ 15
    → length ((c.text ++ texts ns) ++ row_bytes fs) < 2 ^ 31
    → Returns (pg_next_row fuel alloc c (notices_of ns (message b'D' (row_bytes fs) ++ rest))) (λ x.
      (x.0.has_row ≡ true)
      × (x.2 ≡ rest)
      × Returns
          (pg_value x.1.text x.0.row_start k)
          (λ o. (v : PgVal) × (o ≡ some v) × Shows x.1.text f v))
pg_next_row-pg_value ns fuel alloc c fs rest k f granted hs lt h few small =
    let before : Bytes = c.text ++ texts ns in
    let n = length-append before (row_bytes fs) in
    let (size, run) =
      pg_next_row-notices ns fuel alloc c (row_bytes fs) rest granted hs (omega (arith, n)) lt in
    let value =
      subst
        (λ s.
          Returns (pg_value (before ++ s) (some (length before)) k)
            (λ o. (v : PgVal) × (o ≡ some v) × Shows (before ++ s) f v))
        (append-nil (row_bytes fs))
        (pg_value-row before fs [] k f h few
          (subst (λ s. length (before ++ s) < 2 ^ 31) (sym (append-nil (row_bytes fs))) small)) in
    (_, run, (refl, refl, value))
