-- ===== src/ChanCfg/Lines.antt =====
-- The C| and D| records of src/chancfg.rs: parsed, applied under last-writer-wins, and written.
use ircbot_rs.Prelude.Int.{pos}
use ircbot_rs.Prelude.{
  ℕ, ◌+◌, ◌%◌, ◌^◌, Bool, true, false, not, ◌||◌, Option, none, some, List, [], ◌∷◌, ◌++◌, ltb,
  ◌==◌, if◌then◌else◌, length, set, get_or, get_elem?,
}
use ircbot_rs.Prelude.Int.{pos}
use ircbot_rs.Cstr.{Bytes, codes, bytes_eq}
use ircbot_rs.Lww.{lww_accepts, bytes_lt}
use ircbot_rs.Queue
use ircbot_rs.State.{Chan, no_spec, BotState, sendq}
use ircbot_rs.ChanCfg.Parse.{
  parse_ll, show, plain_text, valid_chan_name, valid_modes_field, pipe, split_pipes,
}
use ircbot_rs.ChanCfg.Settings.{
  parse_settings, c_settings_max, get_flood, sendq_index, sendq_def_burst, sendq_def_interval_ms,
}
use ircbot_rs.Channel

abbrev pub c_line_max : ℕ
c_line_max = 669

abbrev pub d_line_max : ℕ
d_line_max = 603

abbrev pub d_settings_max : ℕ
d_settings_max = 512

unfoldable pub add_op : Bytes → Option Bool
add_op f =
    if bytes_eq f (codes "add")
    then some true
    else if bytes_eq f (codes "del")
    then some false
    else none

abbrev pub op_text : Bool → Bytes
op_text true = codes "add"
op_text false = codes "del"

-- `wrapping_add(1)` of a u32
abbrev pub next_gen : ℕ → ℕ
next_gen g = (g + 1) % 2 ^ 32

-- ---- C| ----

-- What a valid C| line says.
pub record CRecord : Type 0 where
  pub name : Bytes
  pub modes : Bytes
  pub settings : Bytes
  pub active : Bool
  pub ts : ℕ

abbrev c_checked : Bytes → Bytes → Bytes → Option Bool → Option ℕ → Option CRecord
c_checked name modes settings none ts = none
c_checked name modes settings (some add) none = none
c_checked name modes settings (some add) (some ts) =
    if not (valid_chan_name name)
      || not (valid_modes_field modes)
      || ltb c_settings_max (length settings)
      || not (plain_text settings)
      || ts == 0
    then none
    else some (record { name = name; modes = modes; settings = settings; active = add; ts = ts })

abbrev c_fields : List Bytes → Option CRecord
c_fields (name ∷ modes ∷ settings ∷ op ∷ ts ∷ _) =
    c_checked name modes settings (add_op op) (parse_ll ts)
c_fields _ = none

-- The checks of `apply_c_line`, up to the look-up of the channel.
unfoldable pub parse_c : Bytes → Option CRecord
unfolding add_op
parse_c line = if ltb c_line_max (length line) then none else c_fields (split_pipes line 6)

unfoldable pub accepts_c : CRecord → Chan → Bool
unfolding lww_accepts
accepts_c r c = lww_accepts r.ts r.active c.cfg_ts c.cfg_active

unfoldable pub store_c : CRecord → Chan → Chan
store_c r c = record c {
  cfg_modes = r.modes;
  cfg_settings = r.settings;
  cfg_set = parse_settings r.settings false;
  cfg_ts = r.ts;
  cfg_active = r.active;
}

abbrev pub put_c : CRecord → ℕ → BotState → Option Chan → Bool × BotState
put_c r ci st none = (false, st)
put_c r ci st (some c) =
    if accepts_c r c
    then (true, record st { chans = set st.chans ci (store_c r c); cfg_gen = next_gen st.cfg_gen })
    else (false, st)

-- A channel that is made here is held unmanaged, and its own record wins against stamp 0.
abbrev pub unmanaged : Chan → Chan
unmanaged c = record c { is_managed = false; timestamp = pos 0 }

abbrev pub adopt : CRecord → ℕ → BotState → Option Chan → Bool × BotState
adopt r ci st none = (false, st)
adopt r ci st (some c) =
    let st' = record st { chans = set st.chans ci (unmanaged c) } in
    put_c r ci st' (get_elem? st'.chans ci)

abbrev pub made : CRecord → BotState → Option (ℕ × BotState) → Bool × BotState
made r st none = (false, st)
made r st (some (ci, st')) = adopt r ci st' (get_elem? st'.chans ci)

abbrev pub place_c : ℕ → CRecord → BotState → Option ℕ → Bool × BotState
place_c now r st (some ci) = put_c r ci st (get_elem? st.chans ci)
place_c now r st none = if not r.active then (false, st) else made r st (Channel.add now st r.name)

unfoldable pub apply_c_line : ℕ → BotState → Bytes → Bool × BotState
unfolding parse_c accepts_c store_c
apply_c_line now st line = elim (parse_c line) [
  | none ↦ (false, st)
  | some r ↦ place_c now r st (Channel.find st r.name)
]

-- The body of a C| line, without "C|" and the line feed.
abbrev pub c_body : Bytes → Bytes → Bytes → Bool → ℕ → Bytes
c_body name modes settings active ts =
    name ++ (pipe ∷ modes ++ (pipe ∷ settings ++ (pipe ∷ op_text active ++ pipe ∷ show ts)))

-- `some []`: there is no record; `none`: it does not fit the line.
unfoldable pub format_c_line : Chan → Option Bytes
format_c_line c =
    if c.cfg_ts == 0
    then some []
    else (let l =
          codes "C|"
          ++ (c_body c.name c.cfg_modes c.cfg_settings c.cfg_active c.cfg_ts ++ b'\n' ∷ []) in
        if ltb (length l) (c_line_max + 2) then some l else none)

-- ---- D| ----

pub record DRecord : Type 0 where
  pub modes : Bytes
  pub settings : Bytes
  pub ts : ℕ

abbrev d_checked : Bytes → Bytes → Option ℕ → Option DRecord
d_checked modes settings none = none
d_checked modes settings (some ts) =
    if not (valid_modes_field modes)
      || ltb d_settings_max (length settings)
      || not (plain_text settings)
      || ts == 0
    then none
    else some (record { modes = modes; settings = settings; ts = ts })

abbrev d_fields : List Bytes → Option DRecord
d_fields (modes ∷ settings ∷ ts ∷ _) = d_checked modes settings (parse_ll ts)
d_fields _ = none

unfoldable pub parse_d : Bytes → Option DRecord
parse_d line = if ltb d_line_max (length line) then none else d_fields (split_pipes line 3)

abbrev pub d_text : Bytes → Bytes → Bytes
d_text modes settings = modes ++ pipe ∷ settings

-- A newer stamp wins; on a tie the greater text.
unfoldable pub accepts_d : DRecord → BotState → Bool
unfolding bytes_lt
accepts_d r st =
    if ltb r.ts st.net_ts
    then false
    else if r.ts == st.net_ts
    then bytes_lt (d_text st.net_modes st.net_settings) (d_text r.modes r.settings)
    else true

abbrev sendq_limits : Option (ℕ × ℕ) → ℕ × ℕ
sendq_limits none = (sendq_def_burst, sendq_def_interval_ms)
sendq_limits (some l) = l

abbrev with_limits : ℕ × ℕ → BotState → BotState
with_limits (b, i) st = record st {
  output = record st.output { q = Queue.set_limits (pos b) (pos i) st.output.q };
}

-- A bad sendq value keeps the one in force; otherwise the queue takes the new limits.
unfoldable pub store_d : DRecord → BotState → BotState
store_d r st =
    let old_sq = get_or st.net_set.fl sendq_index no_spec in
    let parsed = parse_settings r.settings true in
    let st' = record st {
      net_modes = r.modes;
      net_settings = r.settings;
      net_set = parsed;
      net_ts = r.ts;
      cfg_gen = next_gen st.cfg_gen;
    } in
    if parsed.bad_sendq
    then record st' { net_set = record parsed { fl = set parsed.fl sendq_index old_sq } }
    else with_limits (sendq_limits (get_flood st' none sendq)) st'

unfoldable pub apply_d_line : BotState → Bytes → Bool × BotState
unfolding parse_d accepts_d store_d
apply_d_line st line = elim (parse_d line) [
  | none ↦ (false, st)
  | some r ↦ if accepts_d r st then (true, store_d r st) else (false, st)
]

abbrev pub d_body : Bytes → Bytes → ℕ → Bytes
d_body modes settings ts = modes ++ (pipe ∷ settings ++ pipe ∷ show ts)

unfoldable pub format_d_line : BotState → Option Bytes
format_d_line st =
    if st.net_ts == 0
    then some []
    else (let l = codes "D|" ++ (d_body st.net_modes st.net_settings st.net_ts ++ b'\n' ∷ []) in
        if ltb (length l) (d_line_max + 2) then some l else none)
