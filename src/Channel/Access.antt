-- ===== src/Channel/Access.antt =====
-- src/channel.rs: requests to be let into a channel, made and answered.
use ircbot_rs.Prelude.{
  ℕ, zero, suc, ◌+◌, ◌%◌, Bool, true, false, not, ◌&&◌, ◌||◌, Option, none, some, List, [], ◌∷◌,
  ◌++◌, ltb, leb, ◌==◌, if◌then◌else◌, length, get_elem?, get_or, set,
}
use ircbot_rs.Cstr.{Bytes, codes, eq_ic, is_empty, mask_nick}
use ircbot_rs.Lww.{max_nick}
use ircbot_rs.State.{Chan, ChanReq, BotState, TrustedBot, req_index, token}
use ircbot_rs.ChanCfg.Parse.{max_chan}
use ircbot_rs.Channel.{modify}

abbrev pub chan_request_min_interval : ℕ
chan_request_min_interval = 5

abbrev pub chan_request_retry_time : ℕ
chan_request_retry_time = 60

abbrev pub chan_request_max_retries : ℕ
chan_request_max_retries = 5

abbrev pub chan_request_cooloff : ℕ
chan_request_cooloff = 300

abbrev pub chan_reply_accept_window : ℕ
chan_reply_accept_window = 45

abbrev pub max_key : ℕ
max_key = 31

-- Does sealing and sending a frame succeed, after those that went out?
abbrev pub Frames : Type 0
Frames = List (ℕ × Bytes) → ℕ × Bytes → Bool

abbrev pub cmd_chan_request : ℕ
cmd_chan_request = 0x59

-- `hub_client::send_chan_request`; the payload is below the frame's own bound.
unfoldable pub send_chan_request : Frames → Bytes → Bytes → BotState → Bool × BotState
send_chan_request hub kind channel st =
    let payload = kind ++ b'|' ∷ channel in
    if not st.hub_up
      || leb (max_chan + 16) (length payload)
      || not (hub st.frames (cmd_chan_request, payload))
    then (false, st)
    else (true, record st { frames = st.frames ++ (cmd_chan_request, payload) ∷ [] })

-- `bot_comms::send_command`, whose sealing and sending is not modelled: what it is asked to send.
abbrev pub send_command : Bytes → Bytes → BotState → BotState
send_command nick cmd st = record st { told = st.told ++ (nick, cmd) ∷ [] }

abbrev pub nick_of : TrustedBot → Bytes
nick_of tb = mask_nick tb.mask max_nick

abbrev pub fallback_command : ChanReq → Bytes → Bytes → Bytes
fallback_command ChanReq.unban channel nick = codes "UNBAN " ++ channel
fallback_command ChanReq.invite channel nick = codes "INVITE " ++ (channel ++ b' ' ∷ nick)
fallback_command ChanReq.key channel nick = codes "KEY " ++ channel

-- Nothing to invite without a nick the server has accepted.
abbrev pub is_nameless : ChanReq → Bytes → Bool
is_nameless ChanReq.unban nick = false
is_nameless ChanReq.invite nick = is_empty nick
is_nameless ChanReq.key nick = false

-- Is this bot no use to ask: without a nick, or ourselves?
abbrev pub is_passed_over : Bytes → Bytes → Bool
is_passed_over nick own = is_empty nick || not (is_empty own) && eq_ic nick own

abbrev pub advance : ℕ → BotState → BotState
advance n st = record st { chan_req_fallback_idx = (st.chan_req_fallback_idx % n + 1) % n }

abbrev pub nick_at : BotState → ℕ → Bytes
nick_at st n = elim (get_elem? st.trusted_bots (st.chan_req_fallback_idx % n)) [
  | none ↦ []
  | some tb ↦ nick_of tb
]

-- The loop of `access_fallback`, with some rounds to go.
unfoldable pub fallback_from : ℕ → ChanReq → Bytes → BotState → Bool × BotState
unfolding is_empty
fallback_from zero kind channel st = (false, st)
fallback_from (suc rounds) kind channel st =
    let n = length st.trusted_bots in
    let nick = nick_at st n in
    let st' = advance n st in
    let rest = fallback_from rounds kind channel st' in
    if is_passed_over nick st.current_nick
    then rest
    else if is_nameless kind st.current_nick
    then (false, st')
    else (true, send_command nick (fallback_command kind channel st.current_nick) st')

unfoldable pub access_fallback : ChanReq → Bytes → BotState → Bool × BotState
unfolding fallback_from
access_fallback kind channel st = fallback_from (length st.trusted_bots) kind channel st

abbrev pub retries : ChanReq → Chan → ℕ
retries kind c = get_or c.access_retry_count (req_index kind) 0

abbrev pub asked_at : ChanReq → Chan → ℕ
asked_at kind c = get_or c.last_access_request (req_index kind) 0

abbrev pub clear_retries : ChanReq → Chan → Chan
clear_retries kind c = record c { access_retry_count = set c.access_retry_count (req_index kind) 0 }

abbrev pub note_request : ChanReq → ℕ → Chan → Chan
note_request kind now c = record c {
  last_access_request = set c.last_access_request (req_index kind) now;
  access_retry_count = set c.access_retry_count (req_index kind) (retries kind c + 1);
}

-- The request goes to the hub, or to one trusted bot.
abbrev pub or_fallback : ChanReq → Bytes → Bool × BotState → Bool × BotState
or_fallback kind name (true, st) = (true, st)
or_fallback kind name (false, st) = access_fallback kind name st

abbrev pub after_request : ChanReq → ℕ → ℕ → Bool × BotState → Bool × BotState
after_request kind now ci (false, st) = (false, st)
after_request kind now ci (true, st) =
    (true, record (modify (note_request kind now) ci st) { last_chan_request_sent = now })

-- Past the retry count.
abbrev pub request_paced : Frames → ℕ → ℕ → ChanReq → Chan → BotState → Bool × BotState
request_paced hub now ci kind c st =
    if not (asked_at kind c == 0) && ltb now (asked_at kind c + chan_request_retry_time)
    then (false, st)
    else if ltb now (st.last_chan_request_sent + chan_request_min_interval)
    then (false, st)
    else after_request kind now ci
        (or_fallback kind c.name (send_chan_request hub (token kind) c.name st))

abbrev pub request_on : Frames → ℕ → ℕ → ChanReq → Chan → BotState → Bool × BotState
request_on hub now ci kind c st =
    if not c.is_managed || c.join_disabled || not st.authed
    then (false, st)
    else if ltb (retries kind c) chan_request_max_retries
    then request_paced hub now ci kind c st
    else if ltb (asked_at kind c + chan_request_cooloff) now
    then request_paced hub now ci kind (clear_retries kind c) (modify (clear_retries kind) ci st)
    else (false, st)

abbrev pub request_listed : Frames → ℕ → ℕ → ChanReq → BotState → Option Chan → Bool × BotState
request_listed hub now ci kind st none = (false, st)
request_listed hub now ci kind st (some c) = request_on hub now ci kind c st

unfoldable pub access_request : Frames → ℕ → ℕ → ChanReq → BotState → Bool × BotState
unfolding send_chan_request access_fallback
access_request hub now ci kind st = request_listed hub now ci kind st (get_elem? st.chans ci)
