-- ===== src/Channel/Rates.antt =====
-- How often the requests of src/channel.rs leave the bot, over any run of them.
use mathlib.Core.Path.{subst}
use ircbot_rs.Prelude.{ℕ, ◌+◌, ◌≤◌, ◌≡◌, Bool, true, false, List, [], ◌∷◌, arith, length}
use ircbot_rs.State.{Chan, ChanReq, BotState}
use ircbot_rs.Channel.Access.{Frames, access_request, chan_request_min_interval}
use ircbot_rs.Channel.Outcome.{
  Paced, waits, leaves, Outcome, refused, counted, cooled, access_request-Outcome, traffic,
}

-- A call of `access_request`: when, for which channel, and what for.
pub record Ask : Type 0 where
  pub time : ℕ
  pub chan : ℕ
  pub kind : ChanReq

abbrev pub log : Bool → Ask → List Ask → List Ask
log true a rest = a ∷ rest
log false a rest = rest

-- The calls in their order: those that were sent, and the state after them.
unfoldable pub ask_all : Frames → List Ask → BotState → List Ask × BotState
unfolding access_request
ask_all hub [] st = ([], st)
ask_all hub (a ∷ asks) st =
    let (ok, st') = access_request hub a.time a.chan a.kind st in
    let (sent, end) = ask_all hub asks st' in (log ok a sent, end)

-- Requests, five seconds apart at the least, after one at `last`.
abbrev pub Spaced : ℕ → List Ask → Type 0
Spaced last [] = Unit
Spaced last (a ∷ asks) = (last + chan_request_min_interval ≤ a.time) × Spaced a.time asks

-- The run from a state on.
abbrev IsSpaced : BotState → List Ask → BotState → Type 0
IsSpaced st sent end =
    Spaced st.last_chan_request_sent sent × (traffic end ≡ traffic st + length sent)

Paced-IsSpaced :
    {c : Chan} {st : BotState} {r : Bool × BotState} (a : Ask) (sent : List Ask) (end : BotState)
    → Paced a.time a.chan a.kind c st r
    → IsSpaced r.1 sent end
    → IsSpaced st (log r.0 a sent) end
Paced-IsSpaced {st} a sent end (waits st' e l t) h =
    (subst (λ (n : ℕ). Spaced n sent) l h.0, omega (arith, h.1, t))
Paced-IsSpaced {st} a sent end (leaves st' turn e l t) h =
    ((turn.any, subst (λ (n : ℕ). Spaced n sent) l h.0), omega (arith, h.1, t))

outcome-IsSpaced :
    {st : BotState} {r : Bool × BotState} (a : Ask) (sent : List Ask) (end : BotState)
    → Outcome a.time a.chan a.kind st r
    → IsSpaced r.1 sent end
    → IsSpaced st (log r.0 a sent) end
outcome-IsSpaced a sent end refused h = h
outcome-IsSpaced a sent end (counted c at few p) h = Paced-IsSpaced a sent end p h
outcome-IsSpaced a sent end (cooled c at cool p) h = Paced-IsSpaced a sent end p h

-- Whatever the clock says and whatever the calls are, two requests that leave the bot, for whichever
-- channels, have five seconds or more between them, and each is one frame to the hub or one command
-- to a bot.
pub ask_all-Spaced :
    (hub : Frames) (asks : List Ask) (st : BotState)
    → Spaced st.last_chan_request_sent (ask_all hub asks st).0
      × (traffic (ask_all hub asks st).1 ≡ traffic st + length (ask_all hub asks st).0)
unfolding ask_all
ask_all-Spaced hub [] st = (tt, omega arith)
ask_all-Spaced hub (a ∷ asks) st =
    let after : BotState = (access_request hub a.time a.chan a.kind st).1 in
    let run : List Ask × BotState = ask_all hub asks after in
    outcome-IsSpaced a run.0 run.1 (access_request-Outcome hub a.time a.chan a.kind st)
      (ask_all-Spaced hub asks after)
