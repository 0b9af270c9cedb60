-- ===== src/Channel/Unban.antt =====
-- src/channel.rs: the walk through a ban list that another bot asked for.
use ircbot_rs.Prelude.{
  ℕ, ◌+◌, Bool, true, false, not, ◌&&◌, ◌||◌, Option, none, some, ◌++◌, ltb, leb, if◌then◌else◌,
  position, map, adjust, set, get_elem?,
}
use ircbot_rs.Cstr.{Bytes, codes, eq_ic, is_empty, trunc}
use ircbot_rs.Glob.{wildcard_match}
use ircbot_rs.State.{Chan, BotState, UnbanJob}
use ircbot_rs.ChanCfg.Parse.{max_chan}
use ircbot_rs.Channel.{find, is_in, stop_job}
use ircbot_rs.Link.{World, irc_printf, eol}

abbrev pub unban_job_ttl : ℕ
unban_job_ttl = 30

abbrev pub unban_max_removals : ℕ
unban_max_removals = 6

abbrev pub max_mask_len : ℕ
max_mask_len = 256

abbrev pub serves : Bytes → UnbanJob → Bool
serves channel j = j.active && eq_ic j.channel channel

unfoldable pub unban_job_find : BotState → Bytes → Option ℕ
unban_job_find st channel = position (serves channel) st.unban_jobs

abbrev pub expire_job : ℕ → UnbanJob → UnbanJob
expire_job now j = if j.active && ltb (j.started + unban_job_ttl) now then stop_job j else j

unfoldable pub unban_expire : ℕ → BotState → BotState
unban_expire now st = record st { unban_jobs = map (expire_job now) st.unban_jobs }

abbrev pub new_job : ℕ → Bytes → Bytes → UnbanJob
new_job now channel hostmask = record {
  channel = trunc channel max_chan;
  hostmask = trunc hostmask max_mask_len;
  started = now;
  removed = 0;
  active = true;
}

abbrev pub start_at : World → Bytes → Bytes → BotState → Option ℕ → Bool × BotState
start_at w channel hostmask st none = (false, st)
start_at w channel hostmask st (some slot) = (
  true,
  irc_printf w (codes "MODE " ++ (channel ++ (codes " +b" ++ eol)))
      (record st { unban_jobs = set st.unban_jobs slot (new_job w.now channel hostmask) }),
)

abbrev pub start_unless : World → Bytes → Bytes → BotState → Option ℕ → Bool × BotState
start_unless w channel hostmask st (some _) = (false, st)
start_unless w channel hostmask st none =
    start_at w channel hostmask st (position (λ j. not j.active) st.unban_jobs)

unfoldable pub unban_job_start : World → Bytes → Bytes → BotState → Bool × BotState
unfolding unban_expire unban_job_find
unban_job_start w channel hostmask st =
    start_unless w channel hostmask (unban_expire w.now st)
      (unban_job_find (unban_expire w.now st) channel)

abbrev pub count_removal : UnbanJob → UnbanJob
count_removal j = record j { removed = j.removed + 1 }

-- Are we in the channel, with ops?
abbrev pub is_ruled : Option Chan → Bool
is_ruled none = false
is_ruled (some c) = is_in c.status && c.i_am_opped

abbrev pub rules : BotState → Option ℕ → Bool
rules st none = false
rules st (some ci) = is_ruled (get_elem? st.chans ci)

abbrev pub remove_ban : World → Bytes → Bytes → ℕ → BotState → BotState
remove_ban w channel ban_mask ji st =
    let st' = irc_printf w (codes "MODE " ++ (channel ++ (codes " -b " ++ (ban_mask ++ eol)))) st in
    record st' { unban_jobs = adjust count_removal ji st'.unban_jobs }

-- Is this ban not for this walk to take off?
abbrev pub is_spared : Bytes → Bytes → UnbanJob → BotState → Bool
is_spared ban_mask channel j st =
    is_empty ban_mask
    || leb unban_max_removals j.removed
    || not (wildcard_match ban_mask j.hostmask)
    || not (rules st (find st channel))

abbrev pub note_ban : World → Bytes → Bytes → ℕ → UnbanJob → BotState → BotState
note_ban w channel ban_mask ji j st =
    if is_spared ban_mask channel j st then st else remove_ban w channel ban_mask ji st

abbrev pub on_job : BotState → Option UnbanJob → (UnbanJob → BotState) → BotState
on_job st none f = st
on_job st (some j) f = f j

abbrev pub with_job : BotState → Option ℕ → (ℕ → UnbanJob → BotState) → BotState
with_job st none f = st
with_job st (some ji) f = on_job st (get_elem? st.unban_jobs ji) (f ji)

-- One 367 entry.
unfoldable pub unban_note_ban : World → Bytes → Bytes → BotState → BotState
unfolding unban_job_find
unban_note_ban w channel ban_mask st =
    with_job st (unban_job_find st channel) (λ ji j. note_ban w channel ban_mask ji j st)

unfoldable pub unban_finish : Bytes → BotState → BotState
unfolding unban_job_find
unban_finish channel st =
    with_job st (unban_job_find st channel)
      (λ ji j. record st { unban_jobs = adjust stop_job ji st.unban_jobs })
