-- ===== src/Examples/Channels.antt =====
-- Runs of src/channel.rs and src/chanlive.rs on small inputs.
use ircbot_rs.Prelude.{
  ℕ, ◌≡◌, refl, true, false, none, List, [], ◌∷◌, arith, length, ◌+◌, ◌≤◌, ◌≢◌, some, ap,
}
use ircbot_rs.Cstr.{Bytes, codes, eq_ic}
use ircbot_rs.State.{Chan, joined, no_chan, BotState, ChanReq}
use ircbot_rs.Link.{World}
use ircbot_rs.Examples.Globs.{state_of}
use ircbot_rs.Channel.Access.{Frames}
use ircbot_rs.Channel.Unban.{unban_job_start, unban_note_ban, unban_job_find}
use ircbot_rs.Link.{irc_printf}
use ircbot_rs.Channel.{find}
use ircbot_rs.Queue.{enqueue, queue_line, make_room, push_back, set_lane, stored, is_queued}
use ircbot_rs.Queue.Modes.{lane_of}
use ircbot_rs.Glob.{wildcard_match}
use ircbot_rs.Cstr.{trunc, is_empty}
use ircbot_rs.Channel.Jobs.{IsFair}
use ircbot_rs.Channel.Walks.{here, next, begin, off, Walks-IsFair}
use ircbot_rs.Channel.Tally.{free_slot, removed_at}
use ircbot_rs.Channel.Removal.{Noted, unban_note_ban-Noted}
use ircbot_rs.Channel.Rates.{Ask, ask_all, Spaced, ask_all-Spaced}
use ircbot_rs.Channel.Outcome.{traffic}
use ircbot_rs.Channel.Spells.{Rate, times_of}
use ircbot_rs.Channel.Quota.{ask_all-Rate}
use ircbot_rs.ChanLive.Isupport.{isupport_parse}
use ircbot_rs.ChanLive.Sound.{InBounds, isupport_parse-InBounds, no_isupport-IsSound}

abbrev pub chan_a : Bytes
chan_a = codes "#a"

abbrev pub opped_chan : Chan
opped_chan = record no_chan {
  name = chan_a;
  status = joined;
  is_managed = true;
  i_am_opped = true;
  join_disabled = false;
}

abbrev pub in_a : BotState
in_a = record (state_of []) { chans = opped_chan ∷ []; hub_up = true }

abbrev pub world : World
world = record { now = 1000; now_ms = 5; socket = λ taken line. true; divert = λ line st. none }

no_jobs-IsFair : IsFair in_a.unban_jobs
no_jobs-IsFair = record {
  removed = (
    omega arith,
    (
      omega arith,
      (omega arith, (omega arith, (omega arith, (omega arith, (omega arith, (omega arith, tt)))))),
    ),
  );
  single = λ channel. omega arith;
}

abbrev host : Bytes
host = codes "n!u@h"

-- While the queue is held, lines wait in it.
abbrev held_a : BotState
held_a = record in_a { output = record in_a.output { q = record in_a.output.q { hold = 1 } } }

-- A helper, one matching entry of the ban list, and its end.
abbrev started : BotState
started = (unban_job_start world chan_a host held_a).1

abbrev noted : BotState
noted = unban_note_ban world chan_a (codes "*!*@h") started

first_slot : free_slot world.now held_a ≡ some 0
first_slot = refl

begins : (unban_job_start world chan_a host held_a).0 ≡ true
unfolding unban_job_start eq_ic
begins = refl

served : unban_job_find started chan_a ≡ some 0
unfolding unban_job_start unban_job_find eq_ic irc_printf enqueue lane_of queue_line make_room
    push_back set_lane stored trunc is_empty is_queued wildcard_match
served = refl

one_off : removed_at noted.unban_jobs 0 ≡ 1
unfolding unban_note_ban unban_job_start eq_ic irc_printf enqueue lane_of queue_line make_room
    push_back set_lane stored trunc is_empty is_queued wildcard_match find
one_off = refl

none_off : removed_at started.unban_jobs 0 ≡ 0
unfolding unban_job_start eq_ic irc_printf enqueue lane_of queue_line make_room push_back set_lane
    stored trunc is_empty is_queued wildcard_match
none_off = refl

changes_state : noted ≢ started
changes_state =
    λ e. ground (arith, one_off, none_off, ap (λ (st : BotState). removed_at st.unban_jobs 0) e)

Walks-IsFair_example : IsFair noted.unban_jobs × (1 ≤ 6)
Walks-IsFair_example =
    Walks-IsFair
      (next (next here (begin 0 world chan_a host held_a (omega arith) begins first_slot))
        (off 0 world chan_a (codes "*!*@h") started changes_state served))
      no_jobs-IsFair

unban_note_ban-Noted_example : Noted world chan_a (codes "*!*@h") started noted
unban_note_ban-Noted_example = unban_note_ban-Noted world chan_a (codes "*!*@h") started

abbrev frames_go : Frames
frames_go sent frame = true

abbrev ask_at : ℕ → Ask
ask_at time = record { time = time; chan = 0; kind = ChanReq.key }

abbrev asks : List Ask
asks = ask_at 1000 ∷ ask_at 1001 ∷ ask_at 1060 ∷ []

ask_all-Spaced_example :
    Spaced in_a.last_chan_request_sent (ask_all frames_go asks in_a).0
    × (traffic (ask_all frames_go asks in_a).1
        ≡ traffic in_a + length (ask_all frames_go asks in_a).0)
ask_all-Spaced_example = ask_all-Spaced frames_go asks in_a

ask_all-Rate_example : Rate 0 0 (times_of 0 ChanReq.key (ask_all frames_go asks in_a).0)
ask_all-Rate_example =
    ask_all-Rate frames_go asks in_a 1000 0 ChanReq.key opped_chan
      (omega arith, (omega arith, (omega arith, tt)))
      (record { listed = refl; stamps = refl; counts = refl })

abbrev tokens : Bytes
tokens = codes "bot MODES=20 PREFIX=(ohv)@%+ MAXLIST=b:500 NICKLEN=99 :are supported"

isupport_parse-InBounds_example :
    InBounds (isupport_parse tokens in_a).isup
    × ((isupport_parse tokens in_a).output.isup_modes ≡ (isupport_parse tokens in_a).isup.modes)
isupport_parse-InBounds_example = isupport_parse-InBounds tokens in_a no_isupport-IsSound
