-- ===== src/Link/Stored.antt =====
-- What a line to the server can change: the output, and after a lost connection the volatile state.
use mathlib.Core.Path.{subst}
use ircbot_rs.Prelude.Int.{ℤ}
use ircbot_rs.Prelude.{
  ℕ, ◌≡◌, refl, sym, ap, Bool, false, not, none, List, [], ◌∷◌, map, if_split, ◌&&◌, ◌||◌, leb,
  length, if◌then◌else◌,
}
use ircbot_rs.Cstr.{Bytes}
use ircbot_rs.Queue.{Output}
use ircbot_rs.State.{Chan, BotState}
use ircbot_rs.Channel.{reset_chan, reset_status, isupport_reset}
use ircbot_rs.Link.{
  World, max_buffer, is_single_line, irc_printf, send_line, sent_to, lose, via, is_message,
}

-- The state after the output alone has changed, or after that and a disconnect.
pub data Sent (st : BotState) : BotState → Type 0 where
  kept : (o : Output) → Sent st (record st { output = o })
  lost : (o : Output) → Sent st (lose (record st { output = o }))

sent_to-Sent : (st : BotState) (o : Output) → Sent st (sent_to st o)
sent_to-Sent st o = if_split (Sent st) o.connected _ _ (λ _. kept o) (λ _. lost o)

send_line-Sent : (w : World) (line : Bytes) (st : BotState) → Sent st (send_line w line st)
unfolding send_line
send_line-Sent w line st =
    if_split (Sent st) (not st.output.connected) _ _ (λ _. kept st.output) (λ _. sent_to-Sent st _)

-- A line that is no message never goes to a command's reply.
pub irc_printf-Sent :
    (w : World) (line : Bytes) (st : BotState)
    → is_message line ≡ false
    → Sent st (irc_printf w line st)
unfolding irc_printf
irc_printf-Sent w line st h =
    let through : Sent st (via w line st (if is_message line then w.divert line st else none)) =
      subst (λ b. Sent st (via w line st (if b then w.divert line st else none))) (sym h)
        (send_line-Sent w line st) in
    let refused : Bool = leb max_buffer (length line) || not (is_single_line line) in
    let past : BotState = via w line st (if is_message line then w.divert line st else none) in
    if_split (Sent st) (not st.output.connected && not st.replying) st
      (if refused then st else past) (λ _. kept st.output)
      (λ _. if_split (Sent st) refused st past (λ _. kept st.output) (λ _. through))

-- What a disconnect leaves of a channel.
pub record Held : Type 0 where
  pub name : Bytes
  pub key : Bytes
  pub modes : ℕ
  pub is_managed : Bool
  pub timestamp : ℤ

abbrev pub held : Chan → Held
held c = record {
  name = c.name;
  key = c.key;
  modes = c.modes;
  is_managed = c.is_managed;
  timestamp = c.timestamp;
}

held-reset_chan : (chans : List Chan) → map held (map reset_chan chans) ≡ map held chans
unfolding reset_chan
held-reset_chan [] = refl
held-reset_chan (c ∷ chans) = ap (λ l. held c ∷ l) (held-reset_chan chans)

pub Sent-held : {st st' : BotState} → Sent st st' → map held st'.chans ≡ map held st.chans
unfolding lose reset_status isupport_reset
Sent-held (kept o) = refl
Sent-held {st} (lost o) = held-reset_chan st.chans
