-- ===== src/Mugshot/Config.antt =====
-- The configuration file of mugshot/mugshot.c, as load_config reads its text.
pub mod Lines
pub mod Settings
use plmuggin.Base.{
  ℕ, zero, suc, ◌+◌, ◌%◌, ◌^◌, Bool, true, false, ◌||◌, ◌⊎◌, inl, inr, Option, none, some, [], ◌∷◌,
  ltb, leb, ◌==◌, if◌then◌else◌, Bytes, codes, length,
}
use plmuggin.Result.{Result, ok, fail, out_of_fuel}
use plmuggin.Str.{char_at, str_eq, str_trim, str_indexof, str_splitat, str_each_line, str_to_long}

-- the fields of mugshot_server that the file can set
pub record Config : Type 0 where
  pub connection : Bytes
  pub schema : Bytes
  pub port : ℕ
  pub threads : ℕ
  pub backlog : ℕ

-- the ways to `exit(1)`
pub data ConfigError : Type 0 where
  empty_file : ConfigError
  parse_error_on : ℕ → ConfigError
  invalid_port : ℕ → ConfigError

-- the value of the key `port`; a long from 2 ^ 63 up is negative
unfoldable pub set_port : ℕ → Option ℕ → Config → ConfigError ⊎ Config
set_port line_number none s = inl (parse_error_on line_number)
set_port line_number (some v) s =
    if v == 0 || leb (2 ^ 63) v || ltb (2 ^ 16) v
    then inl (invalid_port v)
    else inr (record s { port = v % 2 ^ 16 })

-- the tests of the key
unfoldable pub set_key : ℕ → Bytes → Bytes → Config → ConfigError ⊎ Config
unfolding set_port str_eq str_to_long
set_key line_number key value s =
    if str_eq key (codes "connection")
    then inr (record s { connection = value })
    else if str_eq key (codes "schema")
    then inr (record s { schema = value })
    else if str_eq key (codes "port")
    then set_port line_number (str_to_long value) s
    else inr s

-- the key and the value of a line, where the `:` is there and not at its start
unfoldable pub key_value : Bytes → Option (Bytes × Bytes)
unfolding str_indexof str_splitat
key_value line = elim (str_indexof line b':') [
  | none ↦ none
  | some zero ↦ none
  | some (suc i) ↦ str_splitat line (codes ":")
]

unfoldable pub set_pair : ℕ → Option (Bytes × Bytes) → Config → ConfigError ⊎ Config
unfolding set_key str_trim
set_pair line_number none s = inl (parse_error_on line_number)
set_pair line_number (some (key, value)) s = set_key line_number (str_trim key) (str_trim value) s

-- a trimmed line
unfoldable pub read_setting : ℕ → Bytes → Config → ConfigError ⊎ Config
unfolding set_pair key_value char_at
read_setting line_number line s =
    if length line == 0 || char_at line 0 == b'#'
    then inr s
    else set_pair line_number (key_value line) s

-- the loop over the lines
unfoldable pub read_settings : ℕ → ℕ → Bytes → Config → Result (ConfigError ⊎ Config)
unfolding read_setting str_each_line str_trim
read_settings zero line_number text s = fail out_of_fuel
read_settings (suc fuel) line_number text s = elim (str_each_line text) [
  | none ↦ ok (inr s)
  | some (line, rest) ↦ elim (read_setting (line_number + 1) (str_trim line) s) [
    | inl e ↦ ok (inl e)
    | inr s' ↦ read_settings fuel (line_number + 1) rest s'
  ]
]

-- load_config with the text of the file
unfoldable pub load_config : Bytes → Config → Result (ConfigError ⊎ Config)
unfolding read_settings
load_config text s =
    if length text == 0
    then ok (inl empty_file)
    else read_settings (suc (length text)) 0 text
        (record s { port = 3000; threads = 1; backlog = 10 })
