-- ===== src/Link.antt =====
-- src/irc_client.rs: lines on their way to the server.
pub mod Stored
use ircbot_rs.Prelude.{
  ℕ, ◌+◌, ◌-◌, Bool, true, false, not, ◌&&◌, ◌||◌, Option, none, some, List, [], ◌∷◌, ◌++◌, leb,
  ◌==◌, if◌then◌else◌, length, get_or, take, any, all,
}
use ircbot_rs.Cstr.{Bytes, codes, bytes_eq}
use ircbot_rs.Queue.{Output, Socket, enqueue}
use ircbot_rs.State.{BotState}
use ircbot_rs.Channel.{reset_status, isupport_reset}

-- What a call meets: the two clocks (`now` and `mono_ms`), the socket, and the reply of a running
-- command, over DCC or sealed, that takes a PRIVMSG or a NOTICE in place of the server.
pub record World : Type 0 where
  pub now : ℕ
  pub now_ms : ℕ
  pub socket : Socket
  pub divert : Bytes → BotState → Option BotState

abbrev pub max_buffer : ℕ
max_buffer = 16384

unfoldable pub is_single_line : Bytes → Bool
is_single_line b =
    leb 2 (length b)
    && get_or b (length b - 2) 0 == b'\r'
    && get_or b (length b - 1) 0 == b'\n'
    && not (any (λ c. c == b'\r' || c == b'\n' || c == 0) (take (length b - 2) b))

-- `starts_with`
abbrev pub has_prefix : Bytes → Bytes → Bool
has_prefix [] s = true
has_prefix (c ∷ p) [] = false
has_prefix (c ∷ p) (x ∷ s) = c == x && has_prefix p s

-- `a2r_seal_reply` and `dcc::divert_reply` take no other lines.
abbrev pub is_message : Bytes → Bool
is_message line = has_prefix (codes "PRIVMSG ") line || has_prefix (codes "NOTICE ") line

-- The rest of `disconnect`, when a write has failed and emptied the queue.
unfoldable pub lose : BotState → BotState
lose st = reset_status (isupport_reset (record st { authed = false }))

abbrev pub sent_to : BotState → Output → BotState
sent_to st o = if o.connected then record st { output = o } else lose (record st { output = o })

-- `send_line`, for a line that no reply takes.
unfoldable pub send_line : World → Bytes → BotState → BotState
unfolding lose
send_line w line st =
    if not st.output.connected then st else sent_to st (enqueue w.socket w.now_ms line st.output).1

-- A reply that takes the line, or the server.
abbrev pub via : World → Bytes → BotState → Option BotState → BotState
via w line st (some st') = st'
via w line st none = send_line w line st

unfoldable pub irc_printf : World → Bytes → BotState → BotState
unfolding is_single_line send_line
irc_printf w line st =
    if not st.output.connected && not st.replying
    then st
    else if leb max_buffer (length line) || not (is_single_line line)
    then st
    else via w line st (if is_message line then w.divert line st else none)

abbrev pub eol : Bytes
eol = b'\r' ∷ b'\n' ∷ []
