-- ===== src/ChanCfg/FieldEdit.antt =====
-- `settings_edit` of src/chancfg.rs: one setting of a settings field is written anew.
use ircbot_rs.Prelude.{
  ℕ, ◌+◌, ◌-◌, Bool, true, false, not, ◌&&◌, ◌||◌, Option, none, some, List, [], ◌∷◌, ◌++◌, ltb,
  leb, ◌==◌, if◌then◌else◌, length, take, get_or, ◌⊎◌, inl, inr,
}
use ircbot_rs.Cstr.{Bytes, codes, bytes_eq, is_empty}
use ircbot_rs.State.{cs_count, fl_chan_count}
use ircbot_rs.ChanCfg.Parse.{parse_ll, show, split}
use ircbot_rs.ChanCfg.Settings.{
  cset_at, cset_named, flood_named, sendq_index, parse_pair, c_settings_max,
}
use ircbot_rs.ChanCfg.Lines.{d_settings_max}

-- The reasons that `settings_edit` gives.
pub data EditError : Type 0 where
  unknown_setting out_of_range bad_flood bad_sendq_value field_full : EditError

pub data Edited : Type 0 where
  edited : Bytes → Edited
  refused : EditError → Edited

abbrev pub cset_item : Bool → ℕ → Option ℕ
cset_item net i = if net || not (cset_at i).net_only then some i else none

abbrev pub flood_item : Bool → Option ℕ → Option ℕ
flood_item net none = none
flood_item net (some i) = if net || ltb i fl_chan_count then some (cs_count + i) else none

-- Settings first, then the floods behind them.
unfoldable pub item_index : Bytes → Bool → Option ℕ
unfolding cset_named flood_named
item_index name net = elim (cset_named name) [
  | some i ↦ cset_item net i
  | none ↦ flood_item net (flood_named name)
]

unfoldable pub setting_is_flag : Bytes → Bool
unfolding item_index cset_at
setting_is_flag name = elim (item_index name true) [
  | none ↦ false
  | some i ↦ ltb i cs_count && (cset_at i).lo == 0 && (cset_at i).hi == 1
]

abbrev pub cset_text : ℕ → Option ℕ → EditError ⊎ Bytes
cset_text i none = inl out_of_range
cset_text i (some v) =
    if leb (cset_at i).lo v && leb v (cset_at i).hi then inr (show v) else inl out_of_range

abbrev pub flood_text : ℕ → Option (ℕ × ℕ) → EditError ⊎ Bytes
flood_text k (some (n, s)) = inr (show n ++ b':' ∷ show s)
flood_text k none = inl (if k == sendq_index then bad_sendq_value else bad_flood)

-- The value as it is written.
unfoldable pub value_text : ℕ → Bytes → EditError ⊎ Bytes
unfolding cset_at parse_pair
value_text idx value =
    if ltb idx cs_count
    then cset_text idx (parse_ll value)
    else if not (idx - cs_count == sendq_index) && bytes_eq value (codes "off")
    then inr (codes "off")
    else flood_text (idx - cs_count) (parse_pair (idx - cs_count) value)

-- Does the token set `name`?
unfoldable pub sets_name : Bytes → Bytes → Bool
sets_name name tok =
    ltb (length name) (length tok)
    && bytes_eq (take (length name) tok) name
    && get_or tok (length name) 0 == b'='

abbrev pub out_cap : ℕ
out_cap = 576

abbrev pub joined : Bytes → Bytes → Bytes
joined acc tok = if is_empty acc then tok else acc ++ b',' ∷ tok

-- `none`: the field is full.
unfoldable pub keep_others : Bytes → Bytes → List Bytes → Option Bytes
unfolding sets_name
keep_others name acc [] = some acc
keep_others name acc (tok ∷ toks) =
    let next =
      keep_others name (if is_empty tok || sets_name name tok then acc else joined acc tok) toks in
    if not (is_empty tok || sets_name name tok) && leb out_cap (length acc + length tok + 2)
    then none
    else next

abbrev pub check_size : ℕ → Bool → Bytes → Edited
check_size cap net s =
    if leb cap (length s) || ltb (if net then d_settings_max else c_settings_max) (length s)
    then refused field_full
    else edited s

abbrev pub append_value : ℕ → Bool → Bytes → Bytes → Bytes → Edited
append_value cap net name value acc =
    let add = (if is_empty acc then [] else b',' ∷ []) ++ (name ++ b'=' ∷ value) in
    if leb out_cap (length acc + length add)
    then refused field_full
    else check_size cap net (acc ++ add)

abbrev pub with_others : ℕ → Bool → Bytes → Option Bytes → Option Bytes → Edited
with_others cap net name value none = refused field_full
with_others cap net name none (some acc) = check_size cap net acc
with_others cap net name (some value) (some acc) = append_value cap net name value acc

abbrev pub edit_value : Bytes → ℕ → Bool → Bytes → EditError ⊎ Bytes → Edited
edit_value settings cap net name (inl e) = refused e
edit_value settings cap net name (inr value) =
    with_others cap net name (some value) (keep_others name [] (split b',' settings))

unfoldable pub settings_edit : Bytes → ℕ → Bool → Bytes → Bytes → Edited
unfolding item_index value_text keep_others
settings_edit settings cap net name value = elim (item_index name net) [
  | none ↦ refused unknown_setting
  | some idx ↦
      if bytes_eq value (codes "default")
      then with_others cap net name none (keep_others name [] (split b',' settings))
      else edit_value settings cap net name (value_text idx value)
]
