-- ===== src/Hub.antt =====
-- src/hub_client.rs: the c| record of a channel, pushed to the hub and taken from it.
pub mod Record
pub mod Sync
pub mod RoundTrip
pub mod Merge
use ircbot_rs.Prelude.{
  ℕ, ◌+◌, ◌-◌, Bool, true, false, not, ◌&&◌, ◌||◌, Option, none, some, List, [], ◌∷◌, ◌++◌, ltb,
  leb, if◌then◌else◌, length, get_elem?, get_or,
}
use ircbot_rs.Prelude.Int.{ℤ, pos}
use ircbot_rs.Cstr.{Bytes, codes, bytes_eq, is_empty, trunc}
use ircbot_rs.Cstr.Scan.{Fmt, Conv, str, num, conv_s, conv_i, sscanf, as_u32, of_u32}
use ircbot_rs.Cstr.Numbers.{show_int}
use ircbot_rs.State.{Chan, BotState}
use ircbot_rs.ChanCfg.Edit.{Hub, frame_max}
use ircbot_rs.ChanCfg.Parse.{show}
use ircbot_rs.Channel.{modify}

abbrev bar : ℕ
bar = b'|'

abbrev pub op_word : Bool → Bytes
op_word managed = if managed then codes "add" else codes "del"

-- A `c|` line from the name on.
abbrev pub chan_body : Bytes → Bytes → ℕ → Bool → ℤ → Bytes
chan_body name key modes managed ts =
    name
    ++ bar
      ∷ (key ++ bar ∷ (show_int (of_u32 modes) ++ bar ∷ (op_word managed ++ bar ∷ show_int ts)))

unfoldable pub chan_line : Chan → Bytes
chan_line c = codes "c|" ++ (chan_body c.name c.key c.modes c.is_managed c.timestamp ++ b'\n' ∷ [])

abbrev pub clear_pending : Chan → Chan
clear_pending c = record c { enf_pending = false }

-- A frame that does not fit, or that is not sent, changes nothing.
abbrev push_line : Hub → ℕ → Bytes → BotState → BotState
push_line hub ci line st =
    if ltb frame_max (length line) || not (hub st.pushed line)
    then st
    else modify clear_pending ci (record st { pushed = st.pushed ++ line ∷ [] })

unfoldable pub push_channel : Hub → ℕ → BotState → BotState
unfolding chan_line
push_channel hub ci st =
    if not st.hub_ready
    then st
    else elim (get_elem? st.chans ci) [ none ↦ st | some c ↦ push_line hub ci (chan_line c) st ]
