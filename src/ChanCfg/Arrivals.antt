-- ===== src/ChanCfg/Arrivals.antt =====
-- The effective settings of src/chancfg.rs after any sequence of C| and D| lines.
use ircbot_rs.Prelude.{ℕ, ◌≤◌, ◌≡◌, some, List, [], ◌∷◌, get_elem?, All-get}
use ircbot_rs.Cstr.{Bytes}
use ircbot_rs.State.{Chan, BotState, CsetId, cset_index}
use ircbot_rs.ChanCfg.Settings.{cset_at, get}
use ircbot_rs.ChanCfg.Lines.{apply_c_line, apply_d_line}
use ircbot_rs.ChanCfg.Effective.{
  SettingsIn, ChanIn, apply_c_line-SettingsIn, apply_d_line-SettingsIn, get-ValueIn,
}

-- A record that arrives, at its time.
pub data Arrival : Type 0 where
  c_line : ℕ → Bytes → Arrival
  d_line : Bytes → Arrival

unfoldable pub arrive : List Arrival → BotState → BotState
arrive [] st = st
arrive (c_line now line ∷ lines) st = arrive lines (apply_c_line now st line).1
arrive (d_line line ∷ lines) st = arrive lines (apply_d_line st line).1

arrive-SettingsIn :
    (lines : List Arrival) (st : BotState) → SettingsIn st → SettingsIn (arrive lines st)
unfolding arrive
arrive-SettingsIn [] st h = h
arrive-SettingsIn (c_line now line ∷ lines) st h =
    arrive-SettingsIn lines (apply_c_line now st line).1 (apply_c_line-SettingsIn now st line h)
arrive-SettingsIn (d_line line ∷ lines) st h =
    arrive-SettingsIn lines (apply_d_line st line).1 (apply_d_line-SettingsIn st line h)

-- From a state whose settings are in range, whatever C| and D| lines arrive, in any order, the
-- effective value of each setting on each channel lies in the range of its table entry.
pub arrive-get :
    (st : BotState) (lines : List Arrival) (ci : ℕ) (c : Chan) (id : CsetId)
    → SettingsIn st
    → get_elem? (arrive lines st).chans ci ≡ some c
    → ((cset_at (cset_index id)).lo ≤ get (arrive lines st) (some c) id)
      × (get (arrive lines st) (some c) id ≤ (cset_at (cset_index id)).hi)
arrive-get st lines ci c id h at =
    let h' : SettingsIn (arrive lines st) = arrive-SettingsIn lines st h in
    get-ValueIn (arrive lines st) (some c) id h'.net (All-get ChanIn _ ci c h'.channels at)
