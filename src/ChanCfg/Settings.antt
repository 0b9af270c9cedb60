-- ===== src/ChanCfg/Settings.antt =====
-- The settings field of src/chancfg.rs, and the effective value of a setting.
use ircbot_rs.Prelude.{
  ℕ, suc, Bool, true, false, not, ◌&&◌, Option, none, some, List, [], ◌∷◌, String, ltb, leb, ◌==◌,
  if◌then◌else◌, length, take, drop, set, get_or, position,
}
use ircbot_rs.Cstr.{Bytes, codes, bytes_eq, is_empty, find_byte}
use ircbot_rs.State.{
  CsetId, cset_index, FloodKind, flood_index, fl_chan_count, FloodSpec, no_spec, ChanSettings,
  no_settings, Chan, BotState,
}
use ircbot_rs.Queue.{min_burst, max_burst, min_interval_ms, max_interval_ms}
use ircbot_rs.ChanCfg.Parse.{parse_ll, split, split_once}

pub record CsetDef : Type 0 where
  pub name : Bytes
  pub lo : ℕ
  pub hi : ℕ
  pub builtin : ℕ
  pub net_only : Bool

abbrev def : String → ℕ → ℕ → ℕ → Bool → CsetDef
def name lo hi builtin net_only = record {
  name = codes name;
  lo = lo;
  hi = hi;
  builtin = builtin;
  net_only = net_only;
}

unfoldable pub cset : List CsetDef
cset =
    def "enforcemodes" 0 1 0 false
    ∷ def "bitch" 0 1 0 false
    ∷ def "protectops" 0 1 1 false
    ∷ def "revenge" 0 1 0 false
    ∷ def "stopnethack" 0 1 0 false
    ∷ def "enforcebans" 0 1 0 false
    ∷ def "dynamicbans" 0 1 1 false
    ∷ def "dontkickops" 0 1 1 false
    ∷ def "cycle" 0 1 1 false
    ∷ def "dynamiclimit" 0 1 0 false
    ∷ def "bantime" 0 525_600 120 false
    ∷ def "bantype" 0 9 2 false
    ∷ def "banidle" 1 10_080 60 false
    ∷ def "limitgap" 1 1000 5 false
    ∷ def "limitdelay" 10 3600 60 false
    ∷ def "ignoretime" 1 1440 10 true
    ∷ []

-- An index out of the table panics in the source; every caller has one in range.
abbrev no_def : CsetDef
no_def = record { name = []; lo = 0; hi = 0; builtin = 0; net_only = false }

unfoldable pub cset_at : ℕ → CsetDef
unfolding cset
cset_at i = get_or cset i no_def

unfoldable pub fl_name : List Bytes
fl_name =
    codes "flood chan"
    ∷ codes "flood ctcp"
    ∷ codes "flood join"
    ∷ codes "flood nick"
    ∷ codes "flood deop"
    ∷ codes "flood kick"
    ∷ codes "flood ban"
    ∷ codes "bflood cmd"
    ∷ codes "bflood msg"
    ∷ codes "bflood ctcp"
    ∷ codes "sendq"
    ∷ []

abbrev pub sendq_def_burst : ℕ
sendq_def_burst = 10

abbrev pub sendq_def_interval_ms : ℕ
sendq_def_interval_ms = 100

unfoldable pub fl_builtin : List (ℕ × ℕ)
fl_builtin =
    (15, 60)
    ∷ (3, 60)
    ∷ (5, 60)
    ∷ (5, 60)
    ∷ (3, 10)
    ∷ (3, 10)
    ∷ (3, 10)
    ∷ (10, 30)
    ∷ (5, 60)
    ∷ (3, 60)
    ∷ (sendq_def_burst, sendq_def_interval_ms)
    ∷ []

pub record Bounds : Type 0 where
  pub nlo : ℕ
  pub nhi : ℕ
  pub slo : ℕ
  pub shi : ℕ
  pub off_ok : Bool

abbrev pub sendq_index : ℕ
sendq_index = 10

unfoldable pub fl_bounds : ℕ → Bounds
fl_bounds kind =
    if kind == sendq_index
    then record {
      nlo = min_burst;
      nhi = max_burst;
      slo = min_interval_ms;
      shi = max_interval_ms;
      off_ok = false;
    }
    else record { nlo = 1; nhi = 1000; slo = 1; shi = 3600; off_ok = true }

-- `name` and `val` of a token, where it has a name
abbrev pub parts : Bytes → Option ℕ → Option (Bytes × Bytes)
parts tok none = none
parts tok (some e) = if e == 0 then none else some (take e tok, drop (suc e) tok)

abbrev pub put_val : ℕ → Option ℕ → ChanSettings → ChanSettings
put_val i none out = out
put_val i (some v) out =
    if leb (cset_at i).lo v && leb v (cset_at i).hi
    then record out { vals = set out.vals i (some v) }
    else out

unfoldable pub apply_cset : Bool → ℕ → Bytes → ChanSettings → ChanSettings
unfolding cset_at
apply_cset net i val out =
    if (cset_at i).net_only && not net then out else put_val i (parse_ll val) out

abbrev pub in_bounds : Bounds → Option ℕ → Option ℕ → Option (ℕ × ℕ)
in_bounds b none s = none
in_bounds b (some n) none = none
in_bounds b (some n) (some s) =
    if leb b.nlo n && leb n b.nhi && leb b.slo s && leb s b.shi then some (n, s) else none

-- "N:S" within the bounds of the kind
unfoldable pub parse_pair : ℕ → Bytes → Option (ℕ × ℕ)
unfolding fl_bounds
parse_pair i val = elim (split_once b':' val) [
  | none ↦ none
  | some (n, s) ↦ in_bounds (fl_bounds i) (parse_ll n) (parse_ll s)
]

abbrev pub put_pair : ℕ → Option (ℕ × ℕ) → ChanSettings → ChanSettings
put_pair i (some (n, s)) out = record out {
  fl = set out.fl i (record { present = true; off = false; n = n; s = s });
}
put_pair i none out = if i == sendq_index then record out { bad_sendq = true } else out

unfoldable pub apply_flood : Bool → ℕ → Bytes → ChanSettings → ChanSettings
unfolding parse_pair
apply_flood net i val out =
    if leb fl_chan_count i && not net
    then out
    else if (fl_bounds i).off_ok && bytes_eq val (codes "off")
    then record out { fl = set out.fl i (record { present = true; off = true; n = 0; s = 0 }) }
    else put_pair i (parse_pair i val) out

unfoldable pub cset_named : Bytes → Option ℕ
unfolding cset
cset_named name = position (λ d. bytes_eq d.name name) cset

unfoldable pub flood_named : Bytes → Option ℕ
unfolding fl_name
flood_named name = position (λ n. bytes_eq n name) fl_name

abbrev pub by_name : Bool → Bytes → ChanSettings → Option ℕ → Option ℕ → ChanSettings
by_name net val out (some i) f = apply_cset net i val out
by_name net val out none (some i) = apply_flood net i val out
by_name net val out none none = out

abbrev pub by_parts : Bool → ChanSettings → Option (Bytes × Bytes) → ChanSettings
by_parts net out none = out
by_parts net out (some (name, val)) = by_name net val out (cset_named name) (flood_named name)

unfoldable pub parse_token : Bool → ChanSettings → Bytes → ChanSettings
unfolding cset_named flood_named apply_cset apply_flood
parse_token net out tok = by_parts net out (parts tok (find_byte b'=' tok))

unfoldable pub parse_tokens : Bool → ChanSettings → List Bytes → ChanSettings
unfolding parse_token
parse_tokens net out [] = out
parse_tokens net out (tok ∷ toks) = parse_tokens net (parse_token net out tok) toks

abbrev pub c_settings_max : ℕ
c_settings_max = 512

unfoldable pub parse_settings : Bytes → Bool → ChanSettings
unfolding parse_tokens
parse_settings s net =
    if ltb c_settings_max (length s)
    then no_settings
    else parse_tokens net no_settings (split b',' s)

abbrev pub overrides : Chan → Bool
overrides c = c.cfg_active && ltb 0 c.cfg_ts

abbrev pub chan_value : ℕ → Option Chan → Option ℕ
chan_value i none = none
chan_value i (some c) =
    if not (cset_at i).net_only && overrides c then get_or c.cfg_set.vals i none else none

abbrev pub net_value : BotState → ℕ → Option ℕ
net_value st i = if ltb 0 st.net_ts then get_or st.net_set.vals i none else none

abbrev pub first_of_three : Option ℕ → Option ℕ → ℕ → ℕ
first_of_three (some v) w d = v
first_of_three none (some w) d = w
first_of_three none none d = d

-- Effective value: channel override, network default, built-in.
unfoldable pub get : BotState → Option Chan → CsetId → ℕ
unfolding cset_at
get st c id =
    first_of_three (chan_value (cset_index id) c) (net_value st (cset_index id))
      (cset_at (cset_index id)).builtin

abbrev pub chan_spec : ℕ → Option Chan → Option FloodSpec
chan_spec k none = none
chan_spec k (some c) =
    if ltb k fl_chan_count && overrides c && (get_or c.cfg_set.fl k no_spec).present
    then some (get_or c.cfg_set.fl k no_spec)
    else none

abbrev pub net_spec : BotState → ℕ → Option FloodSpec
net_spec st k =
    if ltb 0 st.net_ts && (get_or st.net_set.fl k no_spec).present
    then some (get_or st.net_set.fl k no_spec)
    else none

abbrev pub limits : ℕ → Option FloodSpec → Option FloodSpec → Option (ℕ × ℕ)
limits k (some sp) w = if sp.off then none else some (sp.n, sp.s)
limits k none (some sp) = if sp.off then none else some (sp.n, sp.s)
limits k none none = some (get_or fl_builtin k (0, 0))

-- `none`: the flood is off.
unfoldable pub get_flood : BotState → Option Chan → FloodKind → Option (ℕ × ℕ)
unfolding fl_builtin
get_flood st c kind = let k = flood_index kind in limits k (chan_spec k c) (net_spec st k)

abbrev chan_modes : Option Chan → Option Bytes
chan_modes none = none
chan_modes (some c) = if overrides c && not (is_empty c.cfg_modes) then some c.cfg_modes else none

unfoldable pub get_modes : BotState → Option Chan → Bytes
unfolding is_empty
get_modes st c = elim (chan_modes c) [
  | some m ↦ m
  | none ↦ if ltb 0 st.net_ts && not (is_empty st.net_modes) then st.net_modes else codes "+nt"
]
