-- ===== src/Mugshot/Config/Lines.antt =====
-- The lines of a configuration, in the loop of load_config of mugshot/mugshot.c.
use plmuggin.Base.{
  ℕ, suc, ◌+◌, ◌≤◌, ◌<◌, ◌≡◌, refl, sym, ap, ◌∙◌, false, ◌⊎◌, inl, inr, some, [], ◌∷◌, ◌++◌, arith,
  ◌==◌, Bytes, length, length-append, All-append, Lacks, append_assoc,
}
use plmuggin.Mugshot.Config.{
  Config, ConfigError, set_key, key_value, set_pair, read_setting, read_settings,
}
use plmuggin.Result.{ok}
use plmuggin.Str.Split.{Avoids, Splits, at, whole, str_splitat-at, str_indexof-append}
use plmuggin.Str.Trim.{IsTrimmed, str_trim-IsTrimmed}
use plmuggin.Str.{char_at, is_space, str_trim, str_each_line}

pub setting-cases :
    (o : ConfigError ⊎ Config) → ((e : ConfigError) × (o ≡ inl e)) ⊎ ((s : Config) × (o ≡ inr s))
setting-cases (inl e) = inl (e, refl)
setting-cases (inr s) = inr (s, refl)

pub rest_shorter :
    (c : ℕ) (text line rest : Bytes) {fuel : ℕ}
    → Splits (b'\n' ∷ []) (c ∷ text) line rest
    → length (c ∷ text) ≤ fuel
    → length rest < fuel
rest_shorter c text line rest (at d hit h e) le =
    omega (arith, ap length e, length-append line (d ∷ rest))
rest_shorter c text line rest (whole h e f) le = rw f (omega arith)

Lacks-Avoids : (k : ℕ) (s : Bytes) → Lacks k s → Avoids (k ∷ []) s
Lacks-Avoids k [] l = tt
Lacks-Avoids k (c ∷ s) (l, ls) = (ground (arith, l), Lacks-Avoids k s ls)

-- A line `key:value` of the file.
abbrev pub setting : Bytes → Bytes → Bytes
setting key value = key ++ (b':' ∷ value)

key_value-setting :
    (c : ℕ) (key value : Bytes)
    → Lacks b':' (c ∷ key)
    → key_value (setting (c ∷ key) value) ≡ some (c ∷ key, value)
unfolding key_value
key_value-setting c key value l =
    rw (key_value, str_indexof-append (c ∷ key) value b':' l)
      (str_splitat-at (b':' ∷ []) (c ∷ key) b':' value (Lacks-Avoids b':' (c ∷ key) l) refl)

-- One line, which is accepted or not.
pub read_settings-step :
    (fuel n : ℕ) (text line rest : Bytes) (s : Config) {s' : Config}
    → str_each_line text ≡ some (line, rest)
    → read_setting (n + 1) (str_trim line) s ≡ inr s'
    → read_settings (suc fuel) n text s ≡ read_settings fuel (n + 1) rest s'
unfolding read_settings
read_settings-step fuel n text line rest s e f = rw (read_settings, e, f) refl

pub read_settings-stop :
    (fuel n : ℕ) (text line rest : Bytes) (s : Config) {e : ConfigError}
    → str_each_line text ≡ some (line, rest)
    → read_setting (n + 1) (str_trim line) s ≡ inl e
    → read_settings (suc fuel) n text s ≡ ok (inl e)
unfolding read_settings
read_settings-stop fuel n text line rest s e f = rw (read_settings, e, f) refl

setting-IsTrimmed :
    (c : ℕ) (key value : Bytes)
    → is_space c ≡ false
    → IsTrimmed value
    → IsTrimmed (setting (c ∷ key) value)
unfolding char_at
setting-IsTrimmed c key value e (first, t, d, cut, last) = (
  e,
  (c ∷ key) ++ (b':' ∷ t),
  d,
  ap (setting (c ∷ key)) cut ∙ sym (append_assoc (c ∷ key) (b':' ∷ t) (d ∷ [])),
  last,
)

read_setting-setting :
    (n c : ℕ) (key value : Bytes) (s : Config)
    → (c == b'#') ≡ false
    → Lacks b':' (c ∷ key)
    → read_setting n (setting (c ∷ key) value) s ≡ set_key n (str_trim (c ∷ key)) (str_trim value) s
unfolding char_at set_pair read_setting
read_setting-setting n c key value s hash colon =
    let some_text : (length (setting (c ∷ key) value) == 0) ≡ false = ground arith in
    rw (read_setting, some_text, hash, key_value-setting c key value colon) refl

line-read_setting :
    (n c : ℕ) (key value : Bytes) (s : Config)
    → is_space c ≡ false
    → (c == b'#') ≡ false
    → Lacks b':' (c ∷ key)
    → IsTrimmed value
    → read_setting n (str_trim (setting (c ∷ key) value)) s ≡ set_key n (str_trim (c ∷ key)) value s
line-read_setting n c key value s space hash colon trimmed =
    ap (λ l. read_setting n l s)
      (str_trim-IsTrimmed (setting (c ∷ key) value) (setting-IsTrimmed c key value space trimmed))
    ∙ read_setting-setting n c key value s hash colon
    ∙ ap (λ v. set_key n (str_trim (c ∷ key)) v s) (str_trim-IsTrimmed value trimmed)

line-str_each_line :
    (c : ℕ) (key value rest : Bytes)
    → Lacks b'\n' (c ∷ key)
    → Lacks b'\n' value
    → str_each_line (setting (c ∷ key) value ++ (b'\n' ∷ rest))
      ≡ some (setting (c ∷ key) value, rest)
unfolding str_each_line
line-str_each_line c key value rest line line' =
    str_splitat-at (b'\n' ∷ []) (setting (c ∷ key) value) b'\n' rest
      (Lacks-Avoids b'\n' (setting (c ∷ key) value)
        (All-append _ (c ∷ key) (b':' ∷ value) line ((λ e. omega arith), line')))
      refl

-- One line `key:value` of the text.
pub read_settings-line :
    (fuel n c : ℕ) (key value rest : Bytes) (s : Config) {s' : Config}
    → is_space c ≡ false
    → (c == b'#') ≡ false
    → Lacks b':' (c ∷ key)
    → Lacks b'\n' (c ∷ key)
    → Lacks b'\n' value
    → IsTrimmed value
    → set_key (n + 1) (str_trim (c ∷ key)) value s ≡ inr s'
    → read_settings (suc fuel) n (setting (c ∷ key) value ++ (b'\n' ∷ rest)) s
      ≡ read_settings fuel (n + 1) rest s'
unfolding str_each_line
read_settings-line fuel n c key value rest s space hash colon line line' trimmed set =
    read_settings-step fuel n (setting (c ∷ key) value ++ (b'\n' ∷ rest)) (setting (c ∷ key) value)
      rest s (line-str_each_line c key value rest line line')
      (line-read_setting (n + 1) c key value s space hash colon trimmed ∙ set)

-- A line `key:value` whose value is refused.
pub read_settings-line_refused :
    (fuel n c : ℕ) (key value rest : Bytes) (s : Config) {e : ConfigError}
    → is_space c ≡ false
    → (c == b'#') ≡ false
    → Lacks b':' (c ∷ key)
    → Lacks b'\n' (c ∷ key)
    → Lacks b'\n' value
    → IsTrimmed value
    → set_key (n + 1) (str_trim (c ∷ key)) value s ≡ inl e
    → read_settings (suc fuel) n (setting (c ∷ key) value ++ (b'\n' ∷ rest)) s ≡ ok (inl e)
read_settings-line_refused fuel n c key value rest s space hash colon line line' trimmed set =
    read_settings-stop fuel n (setting (c ∷ key) value ++ (b'\n' ∷ rest)) (setting (c ∷ key) value)
      rest s (line-str_each_line c key value rest line line')
      (line-read_setting (n + 1) c key value s space hash colon trimmed ∙ set)

pub read_settings-end : (fuel n : ℕ) (s : Config) → read_settings (suc fuel) n [] s ≡ ok (inr s)
unfolding read_settings str_each_line
read_settings-end fuel n s = refl
