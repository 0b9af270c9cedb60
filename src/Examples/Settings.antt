-- ===== src/Examples/Settings.antt =====
-- The records of src/chancfg.rs at small inputs.
use ircbot_rs.Prelude.{
  ◌≤◌, ◌≡◌, refl, inl, true, false, some, List, [], ◌∷◌, arith, Bool-cases, inr,
}
use ircbot_rs.Cstr.{Bytes, codes, bytes_eq}
use ircbot_rs.State.{BotState, Chan, CfgBan, ban_time, out, no_chan, cset_index}
use ircbot_rs.ChanCfg.Parse.{
  parse_ll, show, show_from, decimal, valid_chan_name, valid_modes_field, plain_text,
}
use ircbot_rs.ChanCfg.Settings.{cset_at, parse_settings, get}
use ircbot_rs.ChanCfg.Lines.{CRecord, DRecord, parse_c, c_body, parse_d, d_body, apply_c_line}
use ircbot_rs.ChanCfg.Bans.{parse_b, b_body, apply_b_line, no_controls, has_space, same_ban}
use ircbot_rs.ChanCfg.RoundTrip.{parse_c-c_body, parse_d-d_body}
use ircbot_rs.ChanCfg.RoundTripBan.{parse_b-b_body, IsWritable}
use ircbot_rs.ChanCfg.Caps.{IsCapped, apply_b_line-IsCapped}
use ircbot_rs.ChanCfg.Unique.{IsUnique, apply_b_line-IsUnique}
use ircbot_rs.ChanCfg.Range.{IsInRange, parse_settings-IsInRange, no_settings-IsInRange}
use ircbot_rs.ChanCfg.Effective.{SettingsIn}
use ircbot_rs.ChanCfg.Arrivals.{Arrival, c_line, d_line, arrive, arrive-get}
use ircbot_rs.Examples.Globs.{state_of}

parse_c-c_body_example :
    parse_c (c_body (codes "#a") (codes "+nt") (codes "bantime=5") true 77)
    ≡ some (record {
      name = codes "#a";
      modes = codes "+nt";
      settings = codes "bantime=5";
      active = true;
      ts = 77;
    })
unfolding valid_chan_name valid_modes_field plain_text
parse_c-c_body_example =
    parse_c-c_body (codes "#a") (codes "+nt") (codes "bantime=5") true 77 refl refl refl
      (omega arith) (omega arith) (omega arith)

parse_d-d_body_example :
    parse_d (d_body (codes "+nt") (codes "bantime=5") 77)
    ≡ some (record { modes = codes "+nt"; settings = codes "bantime=5"; ts = 77 })
unfolding valid_modes_field plain_text
parse_d-d_body_example =
    parse_d-d_body (codes "+nt") (codes "bantime=5") 77 refl refl (omega arith) (omega arith)
      (omega arith)

-- A ban with bars in its reason.
abbrev bars : CfgBan
bars = record {
  chan = codes "*";
  mask = codes "*!*@bad";
  flags = codes "k";
  setter = codes "alice";
  reason = codes "a|b|add|5";
  expires = 0;
  ts = 77;
  active = false;
  push_pending = false;
}

bars-IsWritable : IsWritable bars
unfolding plain_text has_space no_controls
bars-IsWritable = (
  inl refl,
  omega arith,
  omega arith,
  refl,
  refl,
  omega arith,
  refl,
  omega arith,
  refl,
  omega arith,
  refl,
  omega arith,
  omega arith,
  omega arith,
  refl,
)

parse_b-b_body_example : parse_b (b_body bars) ≡ some bars
parse_b-b_body_example = parse_b-b_body bars bars-IsWritable

abbrev empty_state : BotState
empty_state = state_of []

empty-IsCapped : IsCapped []
empty-IsCapped = record { size = omega arith; active = λ chan. omega arith }

apply_b_line-IsCapped_example : IsCapped (apply_b_line empty_state (b_body bars)).1.cfg_bans
apply_b_line-IsCapped_example = apply_b_line-IsCapped empty_state (b_body bars) empty-IsCapped

abbrev set_ban : CfgBan
set_ban = record bars { active = true; ts = 99 }

abbrev one_ban : BotState
one_ban = record empty_state { cfg_bans = set_ban ∷ [] }

abbrev lifted : CfgBan
lifted = record set_ban { active = false; ts = 100 }

parse_settings-IsInRange_example :
    IsInRange (parse_settings (codes "bantime=5,banidle=0,flood join=9:99999") false)
parse_settings-IsInRange_example =
    parse_settings-IsInRange (codes "bantime=5,banidle=0,flood join=9:99999") false

abbrev lines : List Arrival
lines = c_line 5 (codes "#a|+nt|bantime=5|add|77") ∷ d_line (codes "+n|bantime=9|78") ∷ []

empty-SettingsIn : SettingsIn empty_state
empty-SettingsIn = record { net = no_settings-IsInRange; channels = tt }

abbrev first_chan : Chan
first_chan = record no_chan {
  name = codes "#a";
  status = out;
  cfg_modes = codes "+nt";
  cfg_settings = codes "bantime=5";
  cfg_set = parse_settings (codes "bantime=5") false;
  cfg_ts = 77;
  cfg_active = true;
}

arrive-get_example :
    ((cset_at (cset_index ban_time)).lo ≤ get (arrive lines empty_state) (some first_chan) ban_time)
    × (get (arrive lines empty_state) (some first_chan) ban_time
        ≤ (cset_at (cset_index ban_time)).hi)
unfolding arrive ircbot_rs.ChanCfg.Lines.apply_c_line ircbot_rs.ChanCfg.Lines.apply_d_line
    ircbot_rs.ChanCfg.Lines.parse_c ircbot_rs.ChanCfg.Lines.parse_d
    ircbot_rs.ChanCfg.Lines.accepts_c ircbot_rs.ChanCfg.Lines.accepts_d
    ircbot_rs.ChanCfg.Lines.store_c ircbot_rs.ChanCfg.Lines.store_d ircbot_rs.ChanCfg.Lines.add_op
    ircbot_rs.Channel.find ircbot_rs.Channel.add ircbot_rs.Cstr.trunc ircbot_rs.Cstr.eq_ic
    ircbot_rs.Cstr.bytes_eq ircbot_rs.Cstr.is_empty ircbot_rs.ChanCfg.Parse.splitn
    ircbot_rs.ChanCfg.Parse.parse_ll ircbot_rs.ChanCfg.Parse.decimal
    ircbot_rs.ChanCfg.Parse.plain_text ircbot_rs.ChanCfg.Parse.valid_chan_name
    ircbot_rs.ChanCfg.Parse.valid_modes_field ircbot_rs.Lww.lww_accepts ircbot_rs.Lww.bytes_lt
    parse_settings ircbot_rs.ChanCfg.Parse.split
arrive-get_example = arrive-get empty_state lines 0 first_chan ban_time empty-SettingsIn refl

one_ban-IsUnique : IsUnique one_ban.cfg_bans
one_ban-IsUnique chan mask = elim (Bool-cases (same_ban chan mask set_ban)) [
  | inl e ↦ ground arith
  | inr e ↦ ground arith
]

apply_b_line-IsUnique_example : IsUnique (apply_b_line one_ban (b_body bars)).1.cfg_bans
apply_b_line-IsUnique_example = apply_b_line-IsUnique one_ban (b_body bars) one_ban-IsUnique
