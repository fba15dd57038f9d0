-- ===== src/Strbuf/Palloc.antt =====
-- The buffer under palloc, which never refuses memory: each append adds all of its bytes.
use plmuggin.Base.{
  ℕ, ◌≡◌, ◌∙◌, ap, Bool, true, [], ◌∷◌, ◌++◌, append-nil, arith, Bytes, length, sym,
}
use plmuggin.Result.{ok, Returns, bind-eq-ok}
use plmuggin.Strbuf.{
  Strbuf, strbuf_ensure, append, write, escape_byte, escape_rest, strbuf_append_str,
  strbuf_append_char, strbuf_append_str_escaped,
}
use plmuggin.Strbuf.Append.{
  IsValid, strbuf_append_str-Appends, strbuf_append_char-Appends, strbuf_ensure_palloc,
}
use plmuggin.Strbuf.Escape.{escaped, strbuf_append_str_escaped-Escapes}

abbrev pub palloc : ℕ → Bool
palloc n = true

-- A buffer that fits its memory and holds the text of `b` with `bytes` behind it.
pub record Extends (b : Strbuf) (bytes : Bytes) (b' : Strbuf) : Type 0 where
  pub valid : IsValid b'
  pub text : b'.text ≡ b.text ++ bytes

append_flag :
    (bytes : Bytes) (r q : Bool × Strbuf) → append bytes r ≡ ok q → r.0 ≡ true → q.0 ≡ true
unfolding append write
append_flag bytes r q h e = ground arith

str_flag :
    (b : Strbuf) (bytes : Bytes) (q : Bool × Strbuf)
    → strbuf_append_str palloc b bytes ≡ ok q
    → q.0 ≡ true
unfolding strbuf_append_str
str_flag b bytes q h =
    append_flag bytes (strbuf_ensure palloc b (length bytes)) q h
      (strbuf_ensure_palloc b (length bytes))

char_flag :
    (b : Strbuf) (ch : ℕ) (q : Bool × Strbuf) → strbuf_append_char palloc b ch ≡ ok q → q.0 ≡ true
unfolding strbuf_append_char
char_flag b ch q h = append_flag (ch ∷ []) (strbuf_ensure palloc b 1) q h (strbuf_ensure_palloc b 1)

byte_flag : (b : Strbuf) (c : ℕ) (q : Bool × Strbuf) → escape_byte palloc b c ≡ ok q → q.0 ≡ true
unfolding escape_byte append write strbuf_ensure
byte_flag b c q h = ground arith

rest_flag :
    (s : Bytes) (b : Strbuf) (q : Bool × Strbuf) → escape_rest palloc s b ≡ ok q → q.0 ≡ true
unfolding escape_rest
rest_flag [] b q h = ground arith
rest_flag (c ∷ s) b q h =
    let (p, run, later) = bind-eq-ok (escape_byte palloc b c) _ h in
    rest_flag s p.1 q (rw (byte_flag b c p run) at later)

module _ (b : Strbuf) (valid : IsValid b) where
  pub append_str-Extends :
      (bytes : Bytes) → Returns (strbuf_append_str palloc b bytes) (λ r. Extends b bytes r.1)
  append_str-Extends bytes =
      let (r, run, a) = strbuf_append_str-Appends palloc b valid bytes in
      (r, run, record { valid = a.valid; text = a.added (str_flag b bytes r run) })

  pub append_char-Extends :
      (ch : ℕ) → Returns (strbuf_append_char palloc b ch) (λ r. Extends b (ch ∷ []) r.1)
  append_char-Extends ch =
      let (r, run, a) = strbuf_append_char-Appends palloc b valid ch in
      (r, run, record { valid = a.valid; text = a.added (char_flag b ch r run) })

  pub append_str_escaped-Extends :
      (bytes : Bytes)
      → Returns (strbuf_append_str_escaped palloc b bytes) (λ r. Extends b (escaped bytes) r.1)
  unfolding strbuf_append_str_escaped
  append_str_escaped-Extends bytes =
      let (r, run, x) = strbuf_append_str_escaped-Escapes palloc b bytes valid in
      let all : r.0 ≡ true = rest_flag bytes _ r run in
      let e : x.written ≡ bytes =
        sym (x.cut ∙ ap (◌++◌ x.written) (x.whole all) ∙ append-nil x.written) in
      (r, run, record { valid = x.valid; text = x.adds ∙ ap (λ w. b.text ++ escaped w) e })
