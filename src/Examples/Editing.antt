-- ===== src/Examples/Editing.antt =====
-- `settings_edit` of src/chancfg.rs at small inputs.
use ircbot_rs.Prelude.{ℕ, ◌≡◌, refl, false, some, none, arith, get_or}
use ircbot_rs.Cstr.{Bytes, codes, bytes_eq, is_empty}
use ircbot_rs.ChanCfg.Parse.{split, parse_ll, show}
use ircbot_rs.ChanCfg.Settings.{parse_settings}
use ircbot_rs.ChanCfg.FieldEdit.{settings_edit}
use ircbot_rs.ChanCfg.EditParse.{settings_edit-parse}

abbrev field : Bytes
field = codes "bitch=1,bantime=9,flood join=off"

settings_edit-parse_example :
    (v : ℕ) × (parse_ll (codes "007") ≡ some v)
    × (get_or (parse_settings (codes "bitch=1,flood join=off,bantime=7") false).vals 10 none
        ≡ some v)
unfolding settings_edit bytes_eq parse_ll split is_empty show
settings_edit-parse_example =
    settings_edit-parse field 600 false (codes "bantime") (codes "007")
      (codes "bitch=1,flood join=off,bantime=7") 10 refl refl (omega arith) refl
