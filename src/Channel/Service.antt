-- ===== src/Channel/Service.antt =====
-- src/channel.rs: requests of other bots, and a key that another bot hands over.
use ircbot_rs.Prelude.{
  ℕ, ◌+◌, Bool, not, ◌||◌, Option, none, some, [], ◌∷◌, ◌++◌, ltb, leb, ◌==◌, if◌then◌else◌, length,
  get_elem?,
}
use ircbot_rs.Cstr.{Bytes, codes, bytes_eq, is_empty}
use ircbot_rs.Lww.{lww_next_ts_i64}
use ircbot_rs.State.{Chan, ChanReq, BotState, token}
use ircbot_rs.ChanCfg.Parse.{max_chan}
use ircbot_rs.ChanCfg.Edit.{Hub}
use ircbot_rs.Channel.{find, is_in, modify}
use ircbot_rs.Channel.Access.{Frames, send_command, asked_at, max_key, chan_reply_accept_window}
use ircbot_rs.Channel.Unban.{unban_job_start}
use ircbot_rs.Link.{World, irc_printf, eol}
use ircbot_rs.Hub.{push_channel}

abbrev pub cmd_chan_reply : ℕ
cmd_chan_reply = 0x5b

-- `hub_client::send_chan_reply`, whose result is not read
unfoldable pub send_chan_reply :
    Frames → Bytes → Bytes → Bytes → Bytes → Bytes → BotState → BotState
send_chan_reply hub request_id kind channel status text st =
    let payload =
      request_id ++ b'|' ∷ (kind ++ b'|' ∷ (channel ++ b'|' ∷ (status ++ b'|' ∷ text))) in
    if not st.hub_up
      || leb (max_chan + max_key + 96) (length payload)
      || not (hub st.frames (cmd_chan_reply, payload))
    then st
    else record st { frames = st.frames ++ (cmd_chan_reply, payload) ∷ [] }

-- `filter(|h| !h.is_empty())`
abbrev pub given : Option Bytes → Option Bytes
given none = none
given (some s) = if is_empty s then none else some s

abbrev serve_unban : World → Bytes → Chan → Option Bytes → BotState → BotState
serve_unban w channel c none st = st
serve_unban w channel c (some hostmask) st =
    if not c.i_am_opped then st else (unban_job_start w channel hostmask st).1

abbrev serve_invite : World → Bytes → Chan → Option Bytes → BotState → BotState
serve_invite w channel c none st = st
serve_invite w channel c (some nick) st =
    if not c.i_am_opped
    then st
    else irc_printf w (codes "INVITE " ++ (nick ++ b' ' ∷ (channel ++ eol))) st

abbrev key_reply : Frames → Bytes → Bytes → Bytes → Option Bytes → BotState → BotState
key_reply hub request_id channel key (some to) st =
    send_command to (codes "KEYIS " ++ (channel ++ b' ' ∷ key)) st
key_reply hub request_id channel key none st =
    if is_empty request_id
    then st
    else send_chan_reply hub request_id (token ChanReq.key) channel (codes "ok") key st

abbrev pub serve :
    World
    → Frames
    → Bytes
    → ChanReq
    → Bytes
    → Chan
    → Option Bytes
    → Option Bytes
    → Option Bytes
    → BotState
    → BotState
serve w hub request_id ChanReq.unban channel c nick hostmask reply_to st =
    serve_unban w channel c (given hostmask) st
serve w hub request_id ChanReq.invite channel c nick hostmask reply_to st =
    serve_invite w channel c (given nick) st
serve w hub request_id ChanReq.key channel c nick hostmask reply_to st =
    if is_empty c.key then st else key_reply hub request_id channel c.key (given reply_to) st

-- The channel, if it is one we are in.
abbrev pub held_chan : BotState → Option ℕ → Option Chan
held_chan st none = none
held_chan st (some ci) = elim (get_elem? st.chans ci) [
  | none ↦ none
  | some c ↦ if is_in c.status then some c else none
]

unfoldable pub access_service :
    World
    → Frames
    → Bytes
    → ChanReq
    → Bytes
    → Option Bytes
    → Option Bytes
    → Option Bytes
    → BotState
    → BotState
unfolding unban_job_start send_chan_reply
access_service w hub request_id kind channel nick hostmask reply_to st =
    if is_empty channel then st else elim (held_chan st (find st channel)) [
      | none ↦ st
      | some c ↦ serve w hub request_id kind channel c nick hostmask reply_to st
    ]

abbrev learn_key : ℕ → Bytes → Chan → Chan
learn_key now key c = record c { key = key; timestamp = lww_next_ts_i64 now c.timestamp }

abbrev retry_join : Chan → Chan
retry_join c = record c { last_join_attempt = 0 }

-- Is a key for this channel not to be taken?
abbrev pub is_unwanted : ℕ → Bytes → Chan → Bool
is_unwanted now key c =
    not c.is_managed
    || is_in c.status
    || asked_at ChanReq.key c == 0
    || ltb (asked_at ChanReq.key c + chan_reply_accept_window) now
    || bytes_eq c.key key

abbrev accept_at : Hub → ℕ → Bytes → BotState → ℕ → Chan → BotState
accept_at hub now key st ci c =
    if is_unwanted now key c
    then st
    else modify retry_join ci (push_channel hub ci (modify (learn_key now key) ci st))

abbrev accept_found : Hub → ℕ → Bytes → BotState → Option ℕ → BotState
accept_found hub now key st none = st
accept_found hub now key st (some ci) = elim (get_elem? st.chans ci) [
  | none ↦ st
  | some c ↦ accept_at hub now key st ci c
]

-- The configuration file that is written then is left out.
unfoldable pub access_accept_key : Hub → ℕ → Bytes → Bytes → BotState → BotState
unfolding push_channel
access_accept_key hub now channel key st =
    if is_empty key || leb max_key (length key)
    then st
    else accept_found hub now key st (find st channel)
