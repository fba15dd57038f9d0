-- ===== src/Mugshot/Config/Settings.antt =====
-- load_config of mugshot/mugshot.c on every text, and on the text of a configuration file.
use plmuggin.Base.{
  ℕ, suc, ◌%◌, ◌^◌, ◌<◌, ◌≡◌, refl, ◌∙◌, true, false, ◌||◌, inl, inr, Option, none, some, [], ◌∷◌,
  ◌++◌, arith, ltb, leb, ◌==◌, Bytes, codes, length, drop, Lacks, lacks-Lacks,
}
use plmuggin.Mugshot.Config.{
  Config, ConfigError, parse_error_on, invalid_port, set_port, set_key, read_settings, load_config,
}
use plmuggin.Result.{ok}
use plmuggin.Str.Trim.{IsTrimmed}
use plmuggin.Str.{is_space, str_eq, str_trim, str_to_long}
use plmuggin.Mugshot.Config.Lines.{
  setting, read_settings-line, read_settings-line_refused, read_settings-end,
}

-- The three keys.
connection_key :
    (n : ℕ) (value : Bytes) (s : Config)
    → set_key n (str_trim (codes "connection")) value s ≡ inr (record s { connection = value })
unfolding set_key str_trim str_eq
connection_key n value s = refl

schema_key :
    (n : ℕ) (value : Bytes) (s : Config)
    → set_key n (str_trim (codes "schema")) value s ≡ inr (record s { schema = value })
unfolding set_key str_trim str_eq
schema_key n value s = refl

port_key :
    (n : ℕ) (value : Bytes) (p : ℕ) (s : Config)
    → str_to_long value ≡ some p
    → 0 < p
    → p < 2 ^ 16
    → set_key n (str_trim (codes "port")) value s ≡ inr (record s { port = p })
unfolding set_key str_trim str_eq set_port
port_key n value p s e positive small =
    let good : (p == 0 || leb (2 ^ 63) p || ltb (2 ^ 16) p) ≡ false = ground arith in
    let same : p % 2 ^ 16 ≡ p = omega arith in rw (e, set_port, good, same) refl

-- The text of a configuration file.
abbrev pub config_text : Bytes → Bytes → Bytes → Bytes
config_text connection schema port =
    setting (codes "connection") connection
    ++ (b'\n'
        ∷ (setting (codes "schema") schema
            ++ (b'\n' ∷ (setting (codes "port") port ++ (b'\n' ∷ [])))))

-- A value that can stand in a line.
abbrev pub IsValue : Bytes → Type 0
IsValue v = Lacks b'\n' v × IsTrimmed v

-- The lines of a configuration up to its port.
load_config-port_line :
    (connection schema port_text : Bytes) (s : Config)
    → IsValue connection
    → IsValue schema
    → IsValue port_text
    → load_config (config_text connection schema port_text) s
      ≡ read_settings
          (suc (length (drop 2 (config_text connection schema port_text))))
          2
          (setting (codes "port") port_text ++ (b'\n' ∷ []))
          (record {
            connection = connection;
            schema = schema;
            port = 3000;
            threads = 1;
            backlog = 10;
          })
unfolding load_config
load_config-port_line connection schema port_text s (lc, tc) (ls, ts) (lp, tp) =
    let s₀ : Config = record s { port = 3000; threads = 1; backlog = 10 } in
    let s₁ : Config = record s₀ { connection = connection } in
    let third : Bytes = setting (codes "port") port_text ++ (b'\n' ∷ []) in
    let second : Bytes = setting (codes "schema") schema ++ (b'\n' ∷ third) in
    let text : Bytes = config_text connection schema port_text in
    let some_text : (length text == 0) ≡ false = ground arith in
    rw some_text (
      read_settings-line (length text) 0 b'c' (codes "onnection") connection second s₀ refl refl
        (lacks-Lacks b':' (codes "connection") refl) (lacks-Lacks b'\n' (codes "connection") refl)
        lc tc (connection_key 1 connection s₀)
      ∙ read_settings-line (length (drop 1 text)) 1 b's' (codes "chema") schema third s₁ refl refl
          (lacks-Lacks b':' (codes "schema") refl) (lacks-Lacks b'\n' (codes "schema") refl) ls ts
          (schema_key 2 schema s₁))

-- A printed configuration, whose values hold no line end and no space around them and whose port is a
-- number from 1 to 65535, is read back, with the defaults of the fields that no key sets.
pub load_config-config_text :
    (connection schema port_text : Bytes) (p : ℕ) (s : Config)
    → IsValue connection
    → IsValue schema
    → IsValue port_text
    → str_to_long port_text ≡ some p
    → 0 < p
    → p < 2 ^ 16
    → load_config (config_text connection schema port_text) s
      ≡ ok (
          inr (record {
            connection = connection;
            schema = schema;
            port = p;
            threads = 1;
            backlog = 10;
          }))
unfolding load_config
load_config-config_text connection schema port_text p s hc hs (lp, tp) e positive small =
    let text : Bytes = config_text connection schema port_text in
    let s₂ : Config = record {
      connection = connection;
      schema = schema;
      port = 3000;
      threads = 1;
      backlog = 10;
    } in
    load_config-port_line connection schema port_text s hc hs (lp, tp)
    ∙ read_settings-line (length (drop 2 text)) 2 b'p' (codes "ort") port_text [] s₂ refl refl
        (lacks-Lacks b':' (codes "port") refl) (lacks-Lacks b'\n' (codes "port") refl) lp tp
        (port_key 3 port_text p s₂ e positive small)
    ∙ read_settings-end (length (drop 3 text)) 3 (record s₂ { port = p })

-- What load_config says of the text of a port: that it is no number, or that the number, in the 64
-- bits of a long, is 0, negative or above 2 ^ 16.
pub data Refuses : Option ℕ → ConfigError → Type 0 where
  no_number : Refuses none (parse_error_on 3)
  below : {p : ℕ} → p ≡ 0 → Refuses (some p) (invalid_port p)
  above : {p : ℕ} → 2 ^ 16 < p → Refuses (some p) (invalid_port p)

bad_port_key :
    (value : Bytes) (s : Config) (v : Option ℕ) {e : ConfigError}
    → str_to_long value ≡ v
    → Refuses v e
    → set_key 3 (str_trim (codes "port")) value s ≡ inl e
unfolding set_key str_trim str_eq set_port
bad_port_key value s none h no_number = rw (h, set_port) refl
bad_port_key value s (some p) h (below z) =
    let bad : (p == 0 || leb (2 ^ 63) p || ltb (2 ^ 16) p) ≡ true = ground arith in
    rw (h, set_port, bad) refl
bad_port_key value s (some p) h (above lt) =
    let bad : (p == 0 || leb (2 ^ 63) p || ltb (2 ^ 16) p) ≡ true = ground arith in
    rw (h, set_port, bad) refl

-- A printed configuration whose port is no number, 0, negative or above 2 ^ 16 is refused: with the
-- number of the port's line where it is no number, and as an invalid port otherwise.
pub load_config-Refuses :
    (connection schema port_text : Bytes) (s : Config) (e : ConfigError)
    → IsValue connection
    → IsValue schema
    → IsValue port_text
    → Refuses (str_to_long port_text) e
    → load_config (config_text connection schema port_text) s ≡ ok (inl e)
unfolding is_space
load_config-Refuses connection schema port_text s e hc hs (lp, tp) h =
    let text : Bytes = config_text connection schema port_text in
    load_config-port_line connection schema port_text s hc hs (lp, tp)
    ∙ read_settings-line_refused (length (drop 2 text)) 2 b'p' (codes "ort") port_text [] _ refl
        refl (lacks-Lacks b':' (codes "port") refl) (lacks-Lacks b'\n' (codes "port") refl) lp tp
        (bad_port_key port_text _ (str_to_long port_text) refl h)
