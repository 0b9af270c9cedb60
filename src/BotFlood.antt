-- ===== src/BotFlood.antt =====
-- src/botflood.rs: the floods against the bot itself, the ignore table and quiet mode.
pub mod Checks
pub mod Commands
pub mod Ignores
use ircbot_rs.Prelude.{
  ℕ, zero, suc, ◌+◌, ◌*◌, ◌≤◌, Bool, true, false, not, ◌&&◌, ◌||◌, Option, none, some, List, [],
  ◌∷◌, ◌++◌, ltb, leb, ◌==◌, if◌then◌else◌, get_or, get_elem?, set, any, find,
}
use ircbot_rs.Cstr.{Bytes, bytes_eq, is_empty, codes}
use ircbot_rs.State.{
  flood_index, FloodWindow, no_window, BotFlood, IgnoreEnt, no_ignore, HostFlood, no_host, CmdFlood,
  no_cmd, BotState, FloodKind, bot_msg, bot_ctcp, bot_cmd, ignore_time,
}
use ircbot_rs.Auth.{is_authorised}
use ircbot_rs.ChanCfg.Settings.{get, get_flood}
use ircbot_rs.ChanFlood.{window_hit, src_host, scan, Slots, or_at, or_else, older, index}

pub data Bf : Type 0 where
  ok drop ignore ignore_new : Bf

pub data CmdStep : Type 0 where
  fine : CmdStep
  slow_down : Bool → CmdStep
  flood3x : CmdStep

abbrev pub quiet_mode : BotFlood → Bool
quiet_mode b = not (b.quiet_until_ms == 0)

unfoldable pub quiet_at : BotFlood → ℕ → Bool × BotFlood
quiet_at b now_ms =
    let b' =
      if quiet_mode b && leb b.quiet_until_ms now_ms
      then record b { quiet_until_ms = 0; quiet_logged = false }
      else b in
    (quiet_mode b', b')

abbrev pub ignores : Bytes → ℕ → IgnoreEnt → Bool
ignores key now_ms e = not (is_empty e.key) && ltb now_ms e.until_ms && bytes_eq e.key key

unfoldable pub ignore_find : BotFlood → Bytes → ℕ → Bool
ignore_find b key now_ms = any (ignores key now_ms) b.ignores

-- ---- the ignore table ----

-- What the loop of `ignore_add` leaves: the table, the slot and the oldest entry with its time.
pub record Swept : Type 0 where
  pub table : List IgnoreEnt
  pub slot : Option ℕ
  pub oldest : Option (ℕ × ℕ)

abbrev pub expire : ℕ → IgnoreEnt → IgnoreEnt
expire now_ms e = if not (is_empty e.key) && leb e.until_ms now_ms then record e { key = [] } else e

abbrev pub sweep_rest : IgnoreEnt → Swept → Swept
sweep_rest e r = record r { table = e ∷ r.table }

unfoldable pub sweep : Bytes → ℕ → ℕ → Option ℕ → Option (ℕ × ℕ) → List IgnoreEnt → Swept
sweep key now_ms i slot oldest [] = record { table = []; slot = slot; oldest = oldest }
sweep key now_ms i slot oldest (e ∷ es) =
    let e' = expire now_ms e in
    let slot' = if is_empty e'.key then or_at slot i else slot in
    let oldest' = if is_empty e'.key then oldest else older i e'.since_ms oldest in
    let rest = sweep key now_ms (i + 1) slot' oldest' es in
    if not (is_empty e'.key) && bytes_eq e'.key key
    then record { table = e' ∷ es; slot = some i; oldest = oldest }
    else sweep_rest e' rest

-- `Ok`, or `Err` with whether the log line is due.
pub data Added : Type 0 where
  added : Added
  full : Bool → Added

abbrev pub quiet_fill_ms : ℕ
quiet_fill_ms = 60_000

abbrev pub renewed : Bytes → ℕ → ℕ → IgnoreEnt → IgnoreEnt
renewed key now_ms ignore_ms e = record {
  key = key;
  since_ms = if bytes_eq e.key key then e.since_ms else now_ms;
  until_ms = now_ms + ignore_ms;
}

abbrev pub put_ignore : BotFlood → List IgnoreEnt → Bytes → ℕ → ℕ → ℕ → Added × BotFlood
put_ignore b table key now_ms ignore_ms i = (
  added,
  record b { ignores = set table i (renewed key now_ms ignore_ms (get_or table i no_ignore)) },
)

abbrev pub go_quiet : BotFlood → List IgnoreEnt → ℕ → ℕ → Added × BotFlood
go_quiet b table now_ms ignore_ms = (
  full (not b.quiet_logged),
  record b { ignores = table; quiet_until_ms = now_ms + ignore_ms; quiet_logged = true },
)

abbrev pub add_swept : BotFlood → Bytes → ℕ → ℕ → Swept → Added × BotFlood
add_swept b key now_ms ignore_ms sw = elim sw.slot [
  | some i ↦ put_ignore b sw.table key now_ms ignore_ms i
  | none ↦ elim sw.oldest [
    | none ↦ (full false, record b { ignores = sw.table })
    | some (o, since) ↦
        if leb now_ms (since + quiet_fill_ms)
        then go_quiet b sw.table now_ms ignore_ms
        else put_ignore b sw.table key now_ms ignore_ms o
  ]
]

unfoldable pub ignore_add : BotFlood → Bytes → ℕ → ℕ → Added × BotFlood
unfolding sweep
ignore_add b key now_ms ignore_ms =
    add_swept b key now_ms ignore_ms (sweep key now_ms 0 none none b.ignores)

-- ---- messages and CTCP, per host ----

abbrev put_host : BotFlood → ℕ → HostFlood → ℕ × BotFlood
put_host b i h = (i, record b { host_flood = set b.host_flood i h })

abbrev new_host : Bytes → ℕ → HostFlood
new_host host now_ms = record no_host { host = host; last_ms = now_ms }

abbrev host_at : BotFlood → Bytes → ℕ → Slots → ℕ × BotFlood
host_at b host now_ms sl = elim sl.slot [
  | some i ↦ put_host b i (record (get_or b.host_flood i no_host) { last_ms = now_ms })
  | none ↦ elim (or_else sl.free sl.oldest) [
    | some i ↦ put_host b i (new_host host now_ms)
    | none ↦ put_host b 0 (new_host host now_ms)
  ]
]

unfoldable pub host_slot : BotFlood → Bytes → ℕ → ℕ × BotFlood
unfolding scan
host_slot b host now_ms =
    host_at b host now_ms (scan (λ h. h.host) (λ h. h.last_ms) host 0 none none b.host_flood)

abbrev hit_window : BotFlood → ℕ → HostFlood → Bool → Bool × FloodWindow → Bool × BotFlood
hit_window b i h true (hit, w) = (hit, (put_host b i (record h { ctcp = w })).1)
hit_window b i h false (hit, w) = (hit, (put_host b i (record h { msg = w })).1)

unfoldable pub host_hit : BotFlood → Bytes → Bool → ℕ → ℕ → ℕ → Bool × BotFlood
unfolding host_slot window_hit
host_hit b host in_ctcp n s now_ms =
    let (i, b') = host_slot b host now_ms in
    let h = get_or b'.host_flood i no_host in
    hit_window b' i h in_ctcp (window_hit (if in_ctcp then h.ctcp else h.msg) n s now_ms)

-- ---- commands, per user record ----

abbrev opened_for : CmdFlood → ℕ → ℕ → CmdFlood
opened_for f s now_ms =
    if f.w.count == 0 || leb (f.w.start_ms + s * 1000) now_ms
    then record f { w = record { start_ms = now_ms; count = 0 }; notified = false }
    else f

abbrev recount : CmdFlood → ℕ → CmdFlood
recount f count = record f { w = record f.w { count = count } }

abbrev judged : CmdFlood → ℕ → CmdStep × CmdFlood
judged f n =
    if ltb (3 * n) f.w.count
    then (flood3x, record (recount f 0) { notified = false })
    else if ltb n f.w.count
    then (slow_down (not f.notified), record f { notified = true })
    else (fine, f)

-- One command of the record that holds `f`.
unfoldable pub step_cmd : CmdFlood → ℕ → ℕ → ℕ → CmdStep × CmdFlood
step_cmd f n s now_ms =
    let f' = opened_for (record f { last_ms = now_ms }) s now_ms in
    judged (recount f' (f'.w.count + 1)) n

abbrev put_cmd : BotFlood → ℕ → CmdStep × CmdFlood → CmdStep × BotFlood
put_cmd b i (r, f) = (r, record b { cmd_flood = set b.cmd_flood i f })

abbrev cmd_at_slot : BotFlood → Bytes → ℕ → ℕ → ℕ → Slots → CmdStep × BotFlood
cmd_at_slot b uuid n s now_ms sl = elim sl.slot [
  | some i ↦ put_cmd b i (step_cmd (get_or b.cmd_flood i no_cmd) n s now_ms)
  | none ↦ elim (or_else sl.free sl.oldest) [
    | none ↦ (fine, b)
    | some i ↦ put_cmd b i (step_cmd (record no_cmd { uuid = uuid }) n s now_ms)
  ]
]

unfoldable pub cmd_count : BotFlood → Bytes → ℕ → ℕ → ℕ → CmdStep × BotFlood
unfolding scan step_cmd
cmd_count b uuid n s now_ms =
    cmd_at_slot b uuid n s now_ms (scan (λ f. f.uuid) (λ f. f.last_ms) uuid 0 none none b.cmd_flood)
