-- ===== src/ChanCfg/Edit.antt =====
-- What src/chancfg.rs writes by itself: the bot's own bans and the admin commands' records.
use ircbot_rs.Prelude.{
  ℕ, ◌+◌, ◌*◌, Bool, true, false, not, ◌&&◌, ◌||◌, Option, none, some, List, [], ◌∷◌, ◌++◌, map,
  ltb, leb, ◌==◌, if◌then◌else◌, length, set, get_or, get_elem?, position,
}
use ircbot_rs.Cstr.{Bytes, codes, bytes_eq, is_empty, trunc}
use ircbot_rs.Lww.{lww_next_ts}
use ircbot_rs.State.{CfgBan, Chan, BotState, ban_time}
use ircbot_rs.ChanCfg.Parse.{plain_text, valid_chan_name, max_chan}
use ircbot_rs.ChanCfg.Settings.{get}
use ircbot_rs.ChanCfg.Lines.{
  apply_c_line, apply_d_line, format_c_line, format_d_line, c_body, d_body, c_line_max, d_line_max,
}
use ircbot_rs.ChanCfg.Bans.{
  same_ban, ban_find, ban_store, format_b_line, has_space, ban_mask_max, ban_setter_max,
  ban_reason_max,
}
use ircbot_rs.Channel

-- Does sealing and sending succeed, after the records pushed so far? `crypto` and the socket decide.
abbrev pub Hub : Type 0
Hub = List Bytes → Bytes → Bool

-- MAX_BUFFER - 64
abbrev pub frame_max : ℕ
frame_max = 16320

-- `hub_client::push_lines`
unfoldable pub push_lines : Hub → BotState → Bytes → Bool × BotState
push_lines hub st lines =
    if not st.hub_ready
      || is_empty lines
      || ltb frame_max (length lines)
      || not (hub st.pushed lines)
    then (false, st)
    else (true, record st { pushed = st.pushed ++ lines ∷ [] })

abbrev is_cont : ℕ → Bool
is_cont c = leb 0x80 c && ltb c 0xc0

abbrev add_byte : ℕ → Bytes × List Bytes → Bytes × List Bytes
add_byte c (cs, gs) = if is_cont c then (c ∷ cs, gs) else ([], (c ∷ cs) ∷ gs)

chars_from : Bytes → Bytes × List Bytes
chars_from [] = ([], [])
chars_from (c ∷ s) = add_byte c (chars_from s)

-- `s.chars()`, each as its bytes
unfoldable pub chars : Bytes → List Bytes
unfolding chars_from
chars s = (chars_from s).1

abbrev clean_char : Bytes → Bytes
clean_char [] = []
clean_char (c ∷ cs) = if ltb c 0x20 || c == 0x7f || c == b'|' then b' ' ∷ [] else c ∷ cs

-- `used` is `out.len()`.
unfoldable pub clean_from : ℕ → List Bytes → Bytes
clean_from used [] = []
clean_from used (ch ∷ chs) =
    let more = clean_from (used + length (clean_char ch)) chs in
    if ltb ban_reason_max (used + length ch) then [] else clean_char ch ++ more

unfoldable pub clean_reason_field : Bytes → Bytes
unfolding clean_from chars
clean_reason_field r = clean_from 0 (chars r)

abbrev pub bad_ban : Bytes → Bytes → Bool
bad_ban chan mask =
    is_empty mask
    || ltb ban_mask_max (length mask)
    || not (plain_text mask)
    || has_space mask
    || not (bytes_eq chan (codes "*")) && not (valid_chan_name chan)

abbrev starts_with_chan : Bytes → Bool
starts_with_chan s = get_or s 0 0 == b'#' || get_or s 0 0 == b'&'

abbrev listed : BotState → Option ℕ → Option Chan
listed st none = none
listed st (some ci) = get_elem? st.chans ci

abbrev own : BotState → Bytes → Option Chan
own st chan = if starts_with_chan chan then listed st (Channel.find st chan) else none

abbrev next_stamp : ℕ → Option CfgBan → ℕ
next_stamp now none = now
next_stamp now (some o) = lww_next_ts now o.ts

abbrev text_or : Option Bytes → Bytes
text_or none = []
text_or (some t) = t

-- The tombstone of the bot's own active ban.
abbrev bot_del : ℕ → BotState → Option CfgBan → Option CfgBan
bot_del now st none = none
bot_del now st (some o) =
    if o.active && bytes_eq o.setter st.bot_uuid
    then some (record o { active = false; ts = lww_next_ts now o.ts; push_pending = true })
    else none

abbrev others_ban : BotState → Option CfgBan → Bool
others_ban st none = false
others_ban st (some o) = o.active && not (bytes_eq o.setter st.bot_uuid)

abbrev cap_expiry : ℕ → ℕ → ℕ → ℕ
cap_expiry now bt expires =
    if ltb 0 bt && ltb (now + bt * 60) expires then now + bt * 60 else expires

abbrev bot_add :
    ℕ → BotState → Bytes → Bytes → ℕ → Option Bytes → Option Bytes → Option CfgBan → Option CfgBan
bot_add now st chan mask expires flags reason old =
    if leb expires now || others_ban st old
    then none
    else some (record {
      chan = chan;
      mask = mask;
      flags = trunc (text_or flags) 8;
      setter = trunc st.bot_uuid (ban_setter_max + 1);
      reason = clean_reason_field (text_or reason);
      expires = cap_expiry now (get st (own st chan) ban_time) expires;
      ts = next_stamp now old;
      active = true;
      push_pending = true;
    })

-- The ban to store, or `none` where the call is refused.
unfoldable pub bot_ban_record :
    ℕ → BotState → Bytes → Bytes → ℕ → Option Bytes → Option Bytes → Bool → Option CfgBan
unfolding clean_reason_field
bot_ban_record now st chan mask expires flags reason del =
    if is_empty st.bot_uuid || bad_ban chan mask
    then none
    else (let c = trunc chan max_chan in
        let old = ban_find st.cfg_bans c mask in
        if del then bot_del now st old else bot_add now st c mask expires flags reason old)

abbrev clear_pending : CfgBan → List CfgBan → Option ℕ → List CfgBan
clear_pending b bans none = bans
clear_pending b bans (some i) = elim (get_elem? bans i) [
  | none ↦ bans
  | some x ↦ set bans i (record x { push_pending = false })
]

abbrev after_push : CfgBan → Bool × BotState → BotState
after_push b (false, st) = st
after_push b (true, st) = record st {
  cfg_bans = clear_pending b st.cfg_bans (position (same_ban b.chan b.mask) st.cfg_bans);
}

abbrev push_ban : Hub → CfgBan → BotState → Option Bytes → BotState
push_ban hub b st none = st
push_ban hub b st (some line) = after_push b (push_lines hub st line)

abbrev finish_bot_ban : Hub → CfgBan → Bool × BotState → Bool × BotState
finish_bot_ban hub b (false, st) = (false, st)
finish_bot_ban hub b (true, st) =
    (true, record (push_ban hub b st (format_b_line b)) { config_dirty = true })

unfoldable pub bot_ban :
    Hub → ℕ → BotState → Bytes → Bytes → ℕ → Option Bytes → Option Bytes → Bool → Bool × BotState
unfolding bot_ban_record
bot_ban hub now st chan mask expires flags reason del =
    elim (bot_ban_record now st chan mask expires flags reason del) [
      | none ↦ (false, st)
      | some b ↦ finish_bot_ban hub b (ban_store st b)
    ]

abbrev mark : Chan → Chan
mark c = record c { enf_dirty = true; enf_ops_check = true }

unfoldable pub local_commit : Hub → BotState → Bytes → BotState
unfolding push_lines
local_commit hub st line =
    let st' = if is_empty line then st else (push_lines hub st line).1 in
    record st' { config_dirty = true; chans = map mark st'.chans }

abbrev line_or : Option Bytes → Bytes
line_or none = []
line_or (some l) = l

abbrev format_at : Option Chan → Bytes
format_at none = []
format_at (some c) = line_or (format_c_line c)

abbrev commit_c : Hub → ℕ → Bool × BotState → Bool × BotState
commit_c hub ci (false, st) = (false, st)
commit_c hub ci (true, st) = (true, local_commit hub st (format_at (get_elem? st.chans ci)))

-- The channel's own C| record, stamped past the stored one.
unfoldable pub local_c : Hub → ℕ → BotState → ℕ → Bytes → Bytes → Bool × BotState
unfolding local_commit
local_c hub now st ci modes settings = elim (get_elem? st.chans ci) [
  | none ↦ (false, st)
  | some c ↦
      let line = c_body c.name modes settings true (lww_next_ts now c.cfg_ts) in
      if leb (c_line_max + 2) (length line)
      then (false, st)
      else commit_c hub ci (apply_c_line now st line)
]

abbrev commit_d : Hub → Bool × BotState → Bool × BotState
commit_d hub (false, st) = (false, st)
commit_d hub (true, st) = (true, local_commit hub st (line_or (format_d_line st)))

unfoldable pub local_d : Hub → ℕ → BotState → Bytes → Bytes → Bool × BotState
unfolding local_commit
local_d hub now st modes settings =
    let line = d_body modes settings (lww_next_ts now st.net_ts) in
    if leb (d_line_max + 2) (length line) then (false, st) else commit_d hub (apply_d_line st line)

abbrev local_del : ℕ → Option CfgBan → Option CfgBan
local_del now none = none
local_del now (some o) =
    if o.active
    then some (record o { active = false; ts = lww_next_ts now o.ts; push_pending = false })
    else none

unfoldable pub local_ban_record :
    ℕ → BotState → Bytes → Bytes → ℕ → Bytes → Bytes → Bytes → Bool → Option CfgBan
unfolding clean_reason_field
local_ban_record now st chan mask expires flags setter reason del =
    if bad_ban chan mask
      || is_empty setter
      || ltb ban_setter_max (length setter)
      || not (plain_text setter)
    then none
    else (let old = ban_find st.cfg_bans chan mask in
        if del
        then local_del now old
        else some (record {
          chan = trunc chan max_chan;
          mask = mask;
          flags = trunc flags 8;
          setter = setter;
          reason = clean_reason_field reason;
          expires = expires;
          ts = next_stamp now old;
          active = true;
          push_pending = false;
        }))

abbrev commit_ban : Hub → CfgBan → Bool × BotState → Bool × BotState
commit_ban hub b (false, st) = (false, st)
commit_ban hub b (true, st) = (true, local_commit hub st (line_or (format_b_line b)))

unfoldable pub local_ban :
    Hub → ℕ → BotState → Bytes → Bytes → ℕ → Bytes → Bytes → Bytes → Bool → Bool × BotState
unfolding local_ban_record local_commit
local_ban hub now st chan mask expires flags setter reason del =
    elim (local_ban_record now st chan mask expires flags setter reason del) [
      | none ↦ (false, st)
      | some b ↦ commit_ban hub b (ban_store st b)
    ]
