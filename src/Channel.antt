-- ===== src/Channel.antt =====
-- src/channel.rs: the channel list, and what a lost connection leaves of it.
pub mod Joins
pub mod Access
pub mod Unban
pub mod Service
pub mod Outcome
pub mod Rates
pub mod Quota
pub mod Watch
pub mod Spells
pub mod Jobs
pub mod Removal
pub mod Tally
pub mod Walks
use ircbot_rs.Prelude.Int.{pos}
use ircbot_rs.Prelude.{
  ℕ, Bool, true, false, Option, none, some, [], ◌∷◌, ◌++◌, length, position, map, replicate, adjust,
}
use ircbot_rs.Cstr.{Bytes, eq_ic, trunc}
use ircbot_rs.State.{
  Chan, no_chan, ChanStatus, no_status, out, joined, BotState, UnbanJob, req_kinds, no_isupport,
  isupport_modes_default,
}
use ircbot_rs.ChanCfg.Parse.{max_chan}

unfoldable pub find : BotState → Bytes → Option ℕ
find st name = position (λ c. eq_ic c.name name) st.chans

-- `now` is the clock.
abbrev pub new_chan : ℕ → Bytes → Chan
new_chan now name = record no_chan {
  name = trunc name max_chan;
  status = out;
  is_managed = true;
  timestamp = pos now;
}

-- The state with the channel, and its index; `none` if it is already listed.
unfoldable pub add : ℕ → BotState → Bytes → Option (ℕ × BotState)
unfolding find
add now st name = elim (find st name) [
  | some _ ↦ none
  | none ↦ some (length st.chans, record st { chans = st.chans ++ new_chan now name ∷ [] })
]

-- `status == ChanStatus::In`
abbrev pub is_in : ChanStatus → Bool
is_in joined = true
is_in no_status = false
is_in out = false

-- `if let Some(c) = state.chans.get_mut(ci)`
abbrev pub modify : (Chan → Chan) → ℕ → BotState → BotState
modify f ci st = record st { chans = adjust f ci st.chans }

-- `chanlive::live_reset`
unfoldable pub live_reset : Chan → Chan
live_reset c = record c {
  bans = [];
  flood = [];
  live_flags = λ letter. false;
  live_key = [];
  live_limit = 0;
  live_known = false;
  live_created = 0;
  ban_list_open = false;
  ban_list_known = false;
  ban_overflow_logged = false;
  who_done = false;
}

unfoldable pub reset_chan : Chan → Chan
unfolding live_reset
reset_chan c = record (live_reset c) {
  status = out;
  last_join_attempt = 0;
  join_disabled = false;
  i_am_opped = false;
  op_request_pending = false;
  op_request_retry_count = 0;
  last_access_request = replicate req_kinds 0;
  access_retry_count = replicate req_kinds 0;
}

abbrev pub stop_job : UnbanJob → UnbanJob
stop_job j = record j { active = false }

unfoldable pub reset_status : BotState → BotState
unfolding reset_chan
reset_status st = record st {
  chans = map reset_chan st.chans;
  unban_jobs = map stop_job st.unban_jobs;
}

-- `chanlive::isupport_reset`; the queue has the limit of changes per line beside it.
unfoldable pub isupport_reset : BotState → BotState
isupport_reset st = record st {
  isup = no_isupport;
  output = record st.output { isup_modes = isupport_modes_default };
}
