-- ===== src/Hub/Sync.antt =====
-- src/hub_client.rs: `sync_channel_line`, a c| record from the hub.
use ircbot_rs.Prelude.{
  ℕ, Bool, true, false, not, ◌&&◌, Option, none, some, ◌∷◌, ◌++◌, if◌then◌else◌, get_elem?,
}
use ircbot_rs.Cstr.{Bytes, codes, bytes_eq, is_empty, trunc}
use ircbot_rs.Cstr.Scan.{as_u32}
use ircbot_rs.Lww.{lww_accepts_i64}
use ircbot_rs.State.{Chan, out, BotState}
use ircbot_rs.Channel.{find, add, is_in, modify}
use ircbot_rs.Channel.Access.{max_key}
use ircbot_rs.Link.{World, irc_printf, eol}
use ircbot_rs.Hub.Record.{HubChan, parse_hub_chan}

abbrev pub is_add : HubChan → Bool
is_add h = bytes_eq h.op (codes "add")

-- The record's values over those of the channel; an empty key leaves the old one.
abbrev pub take_record : HubChan → Bool → Chan → Chan
take_record h managed c = record c {
  key = if is_empty h.key then c.key else trunc h.key max_key;
  modes = as_u32 h.modes;
  is_managed = managed;
  timestamp = h.ts;
}

abbrev pub new_from : HubChan → BotState → Option (ℕ × BotState) → Bool × BotState
new_from h st none = (false, st)
new_from h st (some (ci, st')) = (true, modify (take_record h true) ci st')

abbrev pub part_line : Bytes → Bytes
part_line chan = codes "PART " ++ (chan ++ (codes " :Hub sync" ++ eol))

abbrev pub rejoin_line : Bytes → Bytes → Bytes
rejoin_line chan key =
    if is_empty key
    then codes "JOIN " ++ (chan ++ eol)
    else codes "JOIN " ++ (chan ++ (b' ' ∷ key ++ eol))

abbrev pub leave : Chan → Chan
leave c = record c { status = out }

-- What the change of a channel that was `c` makes the bot do; `st` holds the new values.
abbrev pub follow : World → HubChan → ℕ → Chan → BotState → BotState
follow w h ci c st =
    if c.is_managed && not (is_add h) && is_in c.status
    then modify leave ci (irc_printf w (part_line h.chan) st)
    else if not c.is_managed && is_add h && not (is_in c.status)
    then irc_printf w (rejoin_line h.chan (take_record h true c).key) st
    else st

abbrev pub accepts : HubChan → Chan → Bool
accepts h c = lww_accepts_i64 h.ts (is_add h) c.timestamp c.is_managed

abbrev pub update_chan : World → HubChan → ℕ → Chan → BotState → Bool × BotState
update_chan w h ci c st =
    if accepts h c
    then (true, follow w h ci c (modify (take_record h (is_add h)) ci st))
    else (false, st)

abbrev pub sync_listed : World → HubChan → ℕ → BotState → Option Chan → Bool × BotState
sync_listed w h ci st none = (false, st)
sync_listed w h ci st (some c) = update_chan w h ci c st

abbrev pub sync_at : World → HubChan → BotState → Option ℕ → Bool × BotState
sync_at w h st none = if is_add h then new_from h st (add w.now st h.chan) else (false, st)
sync_at w h st (some ci) = sync_listed w h ci st (get_elem? st.chans ci)

unfoldable pub sync_record : World → HubChan → BotState → Bool × BotState
unfolding lww_accepts_i64
sync_record w h st = sync_at w h st (find st h.chan)

unfoldable pub sync_channel_line : World → Bytes → BotState → Bool × BotState
unfolding parse_hub_chan sync_record
sync_channel_line w data_line st = elim (parse_hub_chan data_line) [
  | none ↦ (false, st)
  | some h ↦ sync_record w h st
]
