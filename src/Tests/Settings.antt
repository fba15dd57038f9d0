-- ===== src/Tests/Settings.antt =====
-- Runs of load_config on concrete texts, and its theorems applied to them.
use plmuggin.Base.{◌≡◌, ◌++◌, refl, [], ◌∷◌, inl, inr, Bytes, codes, arith, lacks-Lacks}
use plmuggin.Mugshot.Config.{Config, load_config, invalid_port}
use plmuggin.Mugshot.Config.Settings.{
  config_text, above, load_config-config_text, load_config-Refuses,
}
use plmuggin.Result.{ok}
use plmuggin.Str.{
  is_space, str_each_line, str_trim, str_eq, str_indexof, str_splitat, str_to_long, char_at,
}

abbrev unset : Config
unset = record { connection = []; schema = []; port = 0; threads = 0; backlog = 0 }

abbrev commented : Bytes
commented = codes "# server" ++ (b'\n' ∷ (codes " port : 8080 " ++ (b'\n' ∷ [])))

read_commented :
    load_config commented unset
    ≡ ok (inr (record { connection = []; schema = []; port = 8080; threads = 1; backlog = 10 }))
unfolding load_config str_each_line str_trim str_eq str_indexof str_splitat str_to_long char_at
read_commented = refl

port_too_large : load_config (codes "port:65537") unset ≡ ok (inl (invalid_port 65537))
unfolding load_config str_each_line str_trim str_eq str_indexof str_splitat str_to_long char_at
port_too_large = refl

port_that_wraps :
    load_config (codes "port:65536") unset
    ≡ ok (inr (record { connection = []; schema = []; port = 0; threads = 1; backlog = 10 }))
unfolding load_config str_each_line str_trim str_eq str_indexof str_splitat str_to_long char_at
port_that_wraps = refl

load_config-Refuses_example :
    load_config (config_text (codes "host=db") (codes "api") (codes "70000")) unset
    ≡ ok (inl (invalid_port 70000))
unfolding str_to_long char_at is_space
load_config-Refuses_example =
    load_config-Refuses (codes "host=db") (codes "api") (codes "70000") unset (invalid_port 70000)
      (lacks-Lacks b'\n' (codes "host=db") refl, (refl, codes "host=d", b'b', refl, refl))
      (lacks-Lacks b'\n' (codes "api") refl, (refl, codes "ap", b'i', refl, refl))
      (lacks-Lacks b'\n' (codes "70000") refl, (refl, codes "7000", b'0', refl, refl))
      (above (omega arith))

load_config-config_text_example :
    load_config (config_text (codes "host=db") (codes "api") (codes "8080")) unset
    ≡ ok (
        inr (record {
          connection = codes "host=db";
          schema = codes "api";
          port = 8080;
          threads = 1;
          backlog = 10;
        }))
unfolding str_to_long char_at is_space
load_config-config_text_example =
    load_config-config_text (codes "host=db") (codes "api") (codes "8080") 8080 unset
      (lacks-Lacks b'\n' (codes "host=db") refl, (refl, codes "host=d", b'b', refl, refl))
      (lacks-Lacks b'\n' (codes "api") refl, (refl, codes "ap", b'i', refl, refl))
      (lacks-Lacks b'\n' (codes "8080") refl, (refl, codes "808", b'0', refl, refl)) refl
      (omega arith) (omega arith)
