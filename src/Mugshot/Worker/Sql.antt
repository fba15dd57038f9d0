-- ===== src/Mugshot/Worker/Sql.antt =====
-- The query that mugshot_serve_pg of mugshot/mugshot.c sends, which it prints into a buffer of 512 bytes.
use plmuggin.Base.{
  ℕ, zero, suc, ◌+◌, ◌-◌, ◌≤◌, ◌<◌, ◌≡◌, refl, ap, ◌∙◌, true, false, List, [], ◌∷◌, ◌++◌,
  append_assoc, append-nil, arith, ltb, ◌==◌, if◌then◌else◌, Bytes, codes, length, take,
  length-append,
}
use plmuggin.Mugshot.Worker.{Endpoint}
use plmuggin.Result.{Result, ok, fail, out_of_bounds, ◌>>=◌}
use plmuggin.Strbuf.{decimal_from}

abbrev cap : ℕ
cap = 512

-- `len += snprintf(&sql[len], cap - len, …)`: the text in the buffer, and `len`, which counts what did not fit as
-- well. Where `len` is above `cap` the size wraps, and the write is outside of the buffer.
unfoldable pub print_sql : Bytes × ℕ → Bytes → Result (Bytes × ℕ)
print_sql (text, len) s =
    if ltb len cap
    then ok (text ++ take (cap - len - 1) s, len + length s)
    else if len == cap
    then ok (text, len + length s)
    else fail out_of_bounds

-- the loop over the arguments
unfoldable pub print_args : ℕ → ℕ → Bytes × ℕ → Result (Bytes × ℕ)
print_args zero a sql = ok sql
print_args (suc n) a sql =
    print_sql sql ((if a == 0 then [] else codes ",") ++ (b'$' ∷ decimal_from 10 (a + 1) []))
    >>= print_args n (a + 1)

-- the text of `sql`, for names with no NUL byte
unfoldable pub serve_sql : Endpoint → Result Bytes
serve_sql e = do
  start ←
      print_sql ([], 0)
        (codes "SELECT \"" ++ (e.schema ++ (codes "\".\"" ++ (e.name ++ codes "\"("))))
  args ← print_args (length e.args) 0 start
  sql ← print_sql args (codes ");")
  ok (sql.0)

-- The parameters `$a`, `$a+1` and so on, and a list with commas.
abbrev pub parameters : ℕ → ℕ → List Bytes
parameters zero a = []
parameters (suc n) a = (b'$' ∷ decimal_from 10 a []) ∷ parameters n (a + 1)

abbrev pub more : List Bytes → Bytes
more [] = []
more (x ∷ xs) = (b',' ∷ x) ++ more xs

abbrev pub commas : List Bytes → Bytes
commas [] = []
commas (x ∷ xs) = x ++ more xs

-- A call of the function with one parameter for each argument.
abbrev pub call_text : Endpoint → Bytes
call_text e =
    (codes "SELECT \"" ++ (e.schema ++ (codes "\".\"" ++ (e.name ++ codes "\"("))))
    ++ (commas (parameters (length e.args) 1) ++ codes ");")

take_all : (n : ℕ) (s : Bytes) → length s ≤ n → take n s ≡ s
take_all zero [] le = refl
take_all zero (c ∷ s) le = absurd (omega arith)
take_all (suc n) [] le = refl
take_all (suc n) (c ∷ s) le = ap (◌∷◌ c) (take_all n s (omega arith))

print_sql-append :
    (text s : Bytes)
    → length text + length s < cap
    → print_sql (text, length text) s ≡ ok (text ++ s, length (text ++ s))
unfolding print_sql
print_sql-append text s lt =
    let room : ltb (length text) cap ≡ true = ground arith in
    rw (room, take_all (cap - length text - 1) s (omega arith), length-append text s) refl

print_args-more :
    (n a : ℕ) (text : Bytes)
    → 0 < a
    → length text + length (more (parameters n (a + 1))) < cap
    → print_args n a (text, length text)
      ≡ ok (text ++ more (parameters n (a + 1)), length (text ++ more (parameters n (a + 1))))
unfolding print_args
print_args-more zero a text positive lt = rw append-nil refl
print_args-more (suc n) a text positive lt =
    let this : Bytes = b',' ∷ (b'$' ∷ decimal_from 10 (a + 1) []) in
    let rest : Bytes = more (parameters n (a + 1 + 1)) in
    let later : (a == 0) ≡ false = ground arith in
    let printed = print_sql-append text this (omega (arith, length-append this rest)) in
    let short : length (text ++ this) + length rest < cap =
      omega (arith, length-append this rest, length-append text this) in
    rw (print_args, later, printed)
      (print_args-more n (a + 1) (text ++ this) (omega arith) short
        ∙ ap (λ t. ok (t, length t)) (append_assoc text this rest))

print_args-commas :
    (n : ℕ) (text : Bytes)
    → length text + length (commas (parameters n 1)) < cap
    → print_args n 0 (text, length text)
      ≡ ok (text ++ commas (parameters n 1), length (text ++ commas (parameters n 1)))
unfolding print_args
print_args-commas zero text lt = rw append-nil refl
print_args-commas (suc n) text lt =
    let this : Bytes = b'$' ∷ decimal_from 10 1 [] in
    let rest : Bytes = more (parameters n 2) in
    let printed = print_sql-append text this (omega (arith, length-append this rest)) in
    let short : length (text ++ this) + length rest < cap =
      omega (arith, length-append this rest, length-append text this) in
    rw (print_args, printed)
      (print_args-more n 1 (text ++ this) (omega arith) short
        ∙ ap (λ t. ok (t, length t)) (append_assoc text this rest))

-- Where the call of the function, with one parameter for each argument, has fewer than 512 bytes, it is the query that
-- is sent.
pub serve_sql-call_text :
    (e : Endpoint) → length (call_text e) < 512 → serve_sql e ≡ ok (call_text e)
unfolding serve_sql
serve_sql-call_text e lt =
    let start : Bytes =
      codes "SELECT \"" ++ (e.schema ++ (codes "\".\"" ++ (e.name ++ codes "\"("))) in
    let args : Bytes = commas (parameters (length e.args) 1) in
    let all = length-append start (args ++ codes ");") in
    let some_args = length-append args (codes ");") in
    let first : print_sql ([], 0) start ≡ ok (start, length start) =
      print_sql-append [] start (omega (arith, all)) in
    let second = print_args-commas (length e.args) start (omega (arith, all, some_args)) in
    let third =
      print_sql-append (start ++ args) (codes ");")
        (omega (arith, all, some_args, length-append start args)) in
    rw (first, second, third) (ap ok (append_assoc start args (codes ");")))
