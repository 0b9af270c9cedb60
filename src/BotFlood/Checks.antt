-- ===== src/BotFlood/Checks.antt =====
-- The checks of src/botflood.rs on the whole state. The log lines and the console events are left out.
use ircbot_rs.Prelude.{
  ℕ, ◌*◌, Bool, true, false, ◌||◌, Option, none, some, ◌++◌, ◌==◌, if◌then◌else◌,
}
use ircbot_rs.Cstr.{Bytes, is_empty, codes}
use ircbot_rs.State.{
  flood_index, BotFlood, BotState, FloodKind, bot_msg, bot_ctcp, bot_cmd, ignore_time,
}
use ircbot_rs.Auth.{is_authorised}
use ircbot_rs.ChanCfg.Settings.{get, get_flood}
use ircbot_rs.ChanFlood.{src_host}
use ircbot_rs.BotFlood.{
  Bf, ok, drop, ignore, ignore_new, CmdStep, fine, slow_down, flood3x, quiet_at, ignore_find,
  ignore_add, host_hit, cmd_count,
}

unfoldable pub ignore_ms : BotState → ℕ
ignore_ms st = get st none ignore_time * 60_000

abbrev ignore_host : BotState → Bytes → ℕ → Bool × BotFlood → Bf × BotState
ignore_host st host now (false, b) = (ok, record st { flood = b })
ignore_host st host now (true, b) =
    (ignore, record st { flood = (ignore_add b host now (ignore_ms st)).1 })

-- `kind == FloodKind::BotCtcp`
abbrev is_ctcp : FloodKind → Bool
is_ctcp kind = flood_index kind == flood_index bot_ctcp

abbrev limited : BotState → Bytes → FloodKind → ℕ → Option (ℕ × ℕ) → Bf × BotState
limited st host kind now none = (ok, st)
limited st host kind now (some (n, s)) =
    ignore_host st host now (host_hit st.flood host (is_ctcp kind) n s now)

abbrev unquiet : BotState → Bytes → FloodKind → ℕ → Bool × BotFlood → Bf × BotState
unquiet st host kind now (quiet, b) =
    let st' = record st { flood = b } in
    if quiet || ignore_find b host now
    then (ignore, st')
    else limited st' host kind now (get_flood st' none kind)

unfoldable pub host_flood_at : BotState → Bytes → Bool → FloodKind → ℕ → Bf × BotState
unfolding ignore_find quiet_at host_hit ignore_add ignore_ms
host_flood_at st nuh authorised kind now = elim (src_host nuh) [
  | none ↦ (ok, st)
  | some host ↦ if authorised then (ok, st) else unquiet st host kind now (quiet_at st.flood now)
]

unfoldable pub msg_at : BotState → Bytes → Bool → ℕ → Bf × BotState
unfolding host_flood_at
msg_at st nuh authorised now = host_flood_at st nuh authorised bot_msg now

unfoldable pub ctcp_at : BotState → Bytes → Bool → ℕ → Bf × BotState
unfolding host_flood_at
ctcp_at st nuh authorised now = host_flood_at st nuh authorised bot_ctcp now

-- `msg`, `ctcp` and `host_ignored`, with the clock as `now`
unfoldable pub msg : BotState → Bytes → ℕ → Bf × BotState
unfolding msg_at is_authorised
msg st nuh now = msg_at st nuh (is_authorised st nuh) now

unfoldable pub ctcp : BotState → Bytes → ℕ → Bf × BotState
unfolding ctcp_at is_authorised
ctcp st nuh now = ctcp_at st nuh (is_authorised st nuh) now

abbrev is_ignored : BotState → Bytes → ℕ → Bool × BotFlood → Bool × BotState
is_ignored st host now (quiet, b) = (quiet || ignore_find b host now, record st { flood = b })

unfoldable pub host_ignored : BotState → Bytes → ℕ → Bool × BotState
unfolding quiet_at ignore_find is_authorised
host_ignored st nuh now = elim (src_host nuh) [
  | none ↦ (false, st)
  | some host ↦
      if is_authorised st nuh then (false, st) else is_ignored st host now (quiet_at st.flood now)
]

abbrev user_key : Bytes → Bytes
user_key uuid = codes "u:" ++ uuid

-- The verdict, whether the notice is due, and the state.
abbrev verdict : BotState → Bytes → ℕ → CmdStep × BotFlood → Bf × Bool × BotState
verdict st key now (fine, b) = (ok, false, record st { flood = b })
verdict st key now (slow_down notice, b) = (drop, notice, record st { flood = b })
verdict st key now (flood3x, b) =
    (ignore_new, false, record st { flood = (ignore_add b key now (ignore_ms st)).1 })

abbrev cmd_limited : BotState → Bytes → Bytes → ℕ → Option (ℕ × ℕ) → Bf × Bool × BotState
cmd_limited st uuid key now none = (ok, false, st)
cmd_limited st uuid key now (some (n, s)) = verdict st key now (cmd_count st.flood uuid n s now)

unfoldable pub cmd_at : BotState → Bytes → ℕ → Bf × Bool × BotState
unfolding ignore_find cmd_count ignore_add ignore_ms
cmd_at st uuid now =
    if is_empty uuid
    then (ok, false, st)
    else if ignore_find st.flood (user_key uuid) now
    then (ignore, false, st)
    else cmd_limited st uuid (user_key uuid) now (get_flood st none bot_cmd)
