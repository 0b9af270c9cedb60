-- ===== src/ChanCfg/Effective.antt =====
-- The effective settings of src/chancfg.rs are in range, and C| and D| lines keep them there.
use mathlib.Core.Path.{subst}
use ircbot_rs.Prelude.{
  ℕ, ◌≡◌, refl, sym, Bool, true, false, not, ◌&&◌, Option, none, some, [], ◌∷◌, ◌++◌, arith, set,
  get_or, if_split, ltb, All, All-set, All-append, get_elem?, All-get, if◌then◌else◌,
}
use ircbot_rs.Cstr.{Bytes}
use ircbot_rs.State.{
  enforce_modes, bitch, protect_ops, revenge, stop_net_hack, enforce_bans, dynamic_bans,
  dont_kick_ops, cycle, dynamic_limit, ban_time, ban_type, ban_idle, limit_gap, limit_delay,
  ignore_time, no_spec, Chan, BotState, CsetId, cset_index,
}
use ircbot_rs.ChanCfg.Settings.{
  cset_at, get, overrides, chan_value, net_value, first_of_three, parse_settings, sendq_index,
}
use ircbot_rs.ChanCfg.Lines.{
  CRecord, store_c, accepts_c, apply_c_line, DRecord, store_d, apply_d_line, put_c, place_c, made,
  adopt, unmanaged, parse_c, parse_d, accepts_d,
}
use ircbot_rs.ChanCfg.Range.{
  IsInRange, ValueIn, parse_settings-IsInRange, no_settings-IsInRange, floods-set,
}
use ircbot_rs.Channel

builtin-ValueIn : (id : CsetId) → ValueIn (cset_index id) (some (cset_at (cset_index id)).builtin)
unfolding cset_at
builtin-ValueIn enforce_modes = ground arith
builtin-ValueIn bitch = ground arith
builtin-ValueIn protect_ops = ground arith
builtin-ValueIn revenge = ground arith
builtin-ValueIn stop_net_hack = ground arith
builtin-ValueIn enforce_bans = ground arith
builtin-ValueIn dynamic_bans = ground arith
builtin-ValueIn dont_kick_ops = ground arith
builtin-ValueIn cycle = ground arith
builtin-ValueIn dynamic_limit = ground arith
builtin-ValueIn ban_time = ground arith
builtin-ValueIn ban_type = ground arith
builtin-ValueIn ban_idle = ground arith
builtin-ValueIn limit_gap = ground arith
builtin-ValueIn limit_delay = ground arith
builtin-ValueIn ignore_time = ground arith

first_of_three-ValueIn :
    (i : ℕ) (a b : Option ℕ) (d : ℕ)
    → ValueIn i a
    → ValueIn i b
    → ValueIn i (some d)
    → ValueIn i (some (first_of_three a b d))
first_of_three-ValueIn i (some v) b d ha hb hd = ha
first_of_three-ValueIn i none (some w) d ha hb hd = hb
first_of_three-ValueIn i none none d ha hb hd = hd

abbrev pub ChannelIn : Option Chan → Type 0
ChannelIn none = Unit
ChannelIn (some c) = IsInRange c.cfg_set

chan_value-ValueIn : (i : ℕ) (c : Option Chan) → ChannelIn c → ValueIn i (chan_value i c)
chan_value-ValueIn i none h = tt
chan_value-ValueIn i (some c) h =
    if_split (ValueIn i) (not (cset_at i).net_only && overrides c) (get_or c.cfg_set.vals i none)
      none (λ _. h.values i) (λ _. tt)

net_value-ValueIn : (st : BotState) (i : ℕ) → IsInRange st.net_set → ValueIn i (net_value st i)
net_value-ValueIn st i h =
    if_split (ValueIn i) (ltb 0 st.net_ts) (get_or st.net_set.vals i none) none (λ _. h.values i)
      (λ _. tt)

pub get-ValueIn :
    (st : BotState) (c : Option Chan) (id : CsetId)
    → IsInRange st.net_set
    → ChannelIn c
    → ValueIn (cset_index id) (some (get st c id))
unfolding get
get-ValueIn st c id n h =
    first_of_three-ValueIn (cset_index id) _ _ _ (chan_value-ValueIn (cset_index id) c h)
      (net_value-ValueIn st (cset_index id) n) (builtin-ValueIn id)

abbrev pub ChanIn : Chan → Type 0
ChanIn c = IsInRange c.cfg_set

-- The settings that a state holds, of the network and of every channel, are in range.
pub record SettingsIn (st : BotState) : Type 0 where
  pub net : IsInRange st.net_set
  pub channels : All ChanIn st.chans

store_c-ChanIn : (r : CRecord) (c : Chan) → ChanIn (store_c r c)
unfolding store_c
store_c-ChanIn r c = parse_settings-IsInRange r.settings false

put_c-SettingsIn :
    (r : CRecord) (ci : ℕ) (st : BotState) (c : Option Chan)
    → SettingsIn st
    → SettingsIn (put_c r ci st c).1
put_c-SettingsIn r ci st none h = h
put_c-SettingsIn r ci st (some c) h =
    if_split (λ (p : Bool × BotState). SettingsIn p.1) (accepts_c r c) _ _
      (λ _. record {
        net = h.net;
        channels = All-set ChanIn st.chans ci (store_c r c) h.channels (store_c-ChanIn r c);
      })
      (λ _. h)

add-SettingsIn :
    (now : ℕ) (st : BotState) (name : Bytes) (ci : ℕ) (st' : BotState)
    → Channel.add now st name ≡ some (ci, st')
    → SettingsIn st
    → SettingsIn st'
unfolding Channel.add
add-SettingsIn now st name ci st' e h =
    let same : record st { chans = st.chans ++ Channel.new_chan now name ∷ [] } ≡ st' =
      ground arith in
    subst SettingsIn same (record {
      net = h.net;
      channels =
          All-append ChanIn st.chans (Channel.new_chan now name ∷ []) h.channels
            (no_settings-IsInRange, tt);
    })

adopt-SettingsIn :
    (r : CRecord) (ci : ℕ) (st : BotState) (c : Option Chan)
    → get_elem? st.chans ci ≡ c
    → SettingsIn st
    → SettingsIn (adopt r ci st c).1
adopt-SettingsIn r ci st none e h = h
adopt-SettingsIn r ci st (some c) e h =
    let held : ChanIn (unmanaged c) = All-get ChanIn st.chans ci c h.channels e in
    put_c-SettingsIn r ci _ _
      (record { net = h.net; channels = All-set ChanIn st.chans ci (unmanaged c) h.channels held })

made-SettingsIn :
    (r : CRecord) (st : BotState) (m : Option (ℕ × BotState))
    → SettingsIn st
    → ((ci : ℕ) (st' : BotState) → m ≡ some (ci, st') → SettingsIn st')
    → SettingsIn (made r st m).1
made-SettingsIn r st none h k = h
made-SettingsIn r st (some (ci, st')) h k = adopt-SettingsIn r ci st' _ refl (k ci st' refl)

place_c-SettingsIn :
    (now : ℕ) (r : CRecord) (st : BotState) (found : Option ℕ)
    → SettingsIn st
    → SettingsIn (place_c now r st found).1
place_c-SettingsIn now r st (some ci) h = put_c-SettingsIn r ci st _ h
place_c-SettingsIn now r st none h =
    if_split (λ (p : Bool × BotState). SettingsIn p.1) (not r.active) (false, st)
      (made r st (Channel.add now st r.name)) (λ _. h)
      (λ _.
        made-SettingsIn r st (Channel.add now st r.name) h
          (λ ci st' e. add-SettingsIn now st r.name ci st' e h))

c_applied : ℕ → BotState → Option CRecord → Bool × BotState
c_applied now st none = (false, st)
c_applied now st (some r) = place_c now r st (Channel.find st r.name)

c_applied-SettingsIn :
    (now : ℕ) (st : BotState) (r : Option CRecord)
    → SettingsIn st
    → SettingsIn (c_applied now st r).1
unfolding c_applied
c_applied-SettingsIn now st none h = h
c_applied-SettingsIn now st (some r) h = place_c-SettingsIn now r st (Channel.find st r.name) h

apply_c_line_lem :
    (now : ℕ) (st : BotState) (line : Bytes)
    → apply_c_line now st line ≡ c_applied now st (parse_c line)
unfolding apply_c_line c_applied
apply_c_line_lem now st line =
    elim (parse_c line)
      as (λ (o : Option CRecord).
        elim o [ none ↦ (false, st) | some r ↦ place_c now r st (Channel.find st r.name) ]
        ≡ c_applied now st o) [ none ↦ refl | some r ↦ refl ]

-- A C| record, whatever it holds, keeps every setting in range.
pub apply_c_line-SettingsIn :
    (now : ℕ) (st : BotState) (line : Bytes)
    → SettingsIn st
    → SettingsIn (apply_c_line now st line).1
apply_c_line-SettingsIn now st line h =
    subst (λ (p : Bool × BotState). SettingsIn p.1) (sym (apply_c_line_lem now st line))
      (c_applied-SettingsIn now st (parse_c line) h)

sendq_kept :
    (r : DRecord) (st : BotState)
    → SettingsIn st
    → (st' : BotState) → st'.net_set ≡ parse_settings r.settings true
    → st'.chans ≡ st.chans
    → SettingsIn (record st' {
      net_set = record (parse_settings r.settings true) {
        fl =
            set
              (parse_settings r.settings true).fl
              sendq_index
              (get_or st.net_set.fl sendq_index no_spec);
      };
    })
sendq_kept r st h st' e f =
    let parsed : IsInRange (parse_settings r.settings true) =
      parse_settings-IsInRange r.settings true in
    record {
      net = record {
        values = parsed.values;
        floods =
            floods-set (parse_settings r.settings true).fl sendq_index
              (get_or st.net_set.fl sendq_index no_spec) parsed.floods (h.net.floods sendq_index);
      };
      channels = subst (All ChanIn) (sym f) h.channels;
    }

store_d-SettingsIn : (r : DRecord) (st : BotState) → SettingsIn st → SettingsIn (store_d r st)
unfolding store_d
store_d-SettingsIn r st h =
    if_split SettingsIn (parse_settings r.settings true).bad_sendq _ _
      (λ _. sendq_kept r st h _ refl refl)
      (λ _. record { net = parse_settings-IsInRange r.settings true; channels = h.channels })

d_applied : BotState → Option DRecord → Bool × BotState
d_applied st none = (false, st)
d_applied st (some r) = if accepts_d r st then (true, store_d r st) else (false, st)

d_applied-SettingsIn :
    (st : BotState) (r : Option DRecord) → SettingsIn st → SettingsIn (d_applied st r).1
unfolding d_applied
d_applied-SettingsIn st none h = h
d_applied-SettingsIn st (some r) h =
    if_split (λ (p : Bool × BotState). SettingsIn p.1) (accepts_d r st) _ _
      (λ _. store_d-SettingsIn r st h) (λ _. h)

apply_d_line_lem :
    (st : BotState) (line : Bytes) → apply_d_line st line ≡ d_applied st (parse_d line)
unfolding apply_d_line d_applied
apply_d_line_lem st line =
    elim (parse_d line)
      as (λ (o : Option DRecord).
        elim o [
          | none ↦ (false, st)
          | some r ↦ if accepts_d r st then (true, store_d r st) else (false, st)
        ]
        ≡ d_applied st o) [ none ↦ refl | some r ↦ refl ]

pub apply_d_line-SettingsIn :
    (st : BotState) (line : Bytes) → SettingsIn st → SettingsIn (apply_d_line st line).1
apply_d_line-SettingsIn st line h =
    subst (λ (p : Bool × BotState). SettingsIn p.1) (sym (apply_d_line_lem st line))
      (d_applied-SettingsIn st (parse_d line) h)
