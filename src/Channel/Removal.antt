-- ===== src/Channel/Removal.antt =====
-- What one entry of a ban list does in the unban code of src/channel.rs.
use mathlib.Core.Path.{subst}
use ircbot_rs.Prelude.{
  ℕ, ◌+◌, ◌<◌, ◌≡◌, ◌≢◌, refl, sym, ap, ◌∙◌, ◌⊎◌, inl, inr, zero, suc, true, false, Option, none,
  some, adjust, get_elem?, position-some, arith, Bool-cases, List, [], ◌∷◌, ◌++◌, leb,
}
use ircbot_rs.Cstr.{Bytes, codes, eq_ic, is_empty}
use ircbot_rs.Glob.{wildcard_match}
use ircbot_rs.Glob.Pattern.{Matches}
use ircbot_rs.Glob.Match.{wildcard_match_iff}
use ircbot_rs.State.{Chan, BotState, UnbanJob}
use ircbot_rs.Channel.{find, is_in}
use ircbot_rs.Channel.Unban.{
  serves, unban_job_find, unban_note_ban, count_removal, unban_max_removals, remove_ban, is_ruled,
  rules, is_spared, with_job, note_ban,
}
use ircbot_rs.Link.{World, irc_printf}
use ircbot_rs.Link.Stored.{irc_printf-Sent}
use ircbot_rs.Channel.Jobs.{Sent-removed}

-- The bot is in the channel, with ops.
pub record RunsChannel (st : BotState) (channel : Bytes) : Type 0 where
  pub index : ℕ
  pub chan : Chan
  pub listed : find st channel ≡ some index
  pub held : get_elem? st.chans index ≡ some chan
  pub inside : is_in chan.status ≡ true
  pub opped : chan.i_am_opped ≡ true

-- A ban that may come off for the job at an index.
pub record MayRemove (st : BotState) (channel ban_mask : Bytes) (ji : ℕ) : Type 0 where
  pub job : UnbanJob
  pub found : get_elem? st.unban_jobs ji ≡ some job
  pub active : job.active ≡ true
  pub some_mask : is_empty ban_mask ≡ false
  pub asked : eq_ic job.channel channel ≡ true
  pub room : job.removed < unban_max_removals
  pub hit : Matches ban_mask job.hostmask
  pub ours : RunsChannel st channel

rules_chan :
    (st : BotState) (channel : Bytes) (ci : ℕ) (o : Option Chan)
    → find st channel ≡ some ci
    → get_elem? st.chans ci ≡ o
    → is_ruled o ≡ true
    → RunsChannel st channel
rules_chan st channel ci none f e h = ground arith
rules_chan st channel ci (some c) f e h = record {
  index = ci;
  chan = c;
  listed = f;
  held = e;
  inside = ground arith;
  opped = ground arith;
}

rules-RunsChannel :
    (st : BotState) (channel : Bytes) (o : Option ℕ)
    → find st channel ≡ o
    → rules st o ≡ true
    → RunsChannel st channel
rules-RunsChannel st channel none f h = ground arith
rules-RunsChannel st channel (some ci) f h = rules_chan st channel ci _ f refl h

abbrev or_job : UnbanJob → Option UnbanJob → UnbanJob
or_job a none = a
or_job a (some j) = j

pub some_index : (i j : ℕ) → some i ≡ some j → i ≡ j
some_index i j h = ground arith

-- A ban that may come off comes off.
rules-true :
    (st : BotState) (channel : Bytes) → RunsChannel st channel → rules st (find st channel) ≡ true
rules-true st channel r = rw (r.listed, r.held, r.inside, r.opped) refl

MayRemove-spared :
    (st : BotState) (channel ban_mask : Bytes) (ji : ℕ) (j : UnbanJob)
    → get_elem? st.unban_jobs ji ≡ some j
    → MayRemove st channel ban_mask ji
    → is_spared ban_mask channel j st ≡ false
MayRemove-spared st channel ban_mask ji j at m =
    let same : m.job ≡ j = ap (λ o. or_job m.job o) (sym m.found ∙ at) in
    let hit : wildcard_match ban_mask m.job.hostmask ≡ true =
      (wildcard_match_iff ban_mask m.job.hostmask).1 m.hit in
    let few : leb unban_max_removals m.job.removed ≡ false = ground (arith, m.room) in
    subst (λ (x : UnbanJob). is_spared ban_mask channel x st ≡ false) same
      (rw (m.some_mask, few, hit, rules-true st channel m.ours) refl)

-- The ban comes off for the job at `ji`: the line to the server, whatever becomes of it, and one more on the
-- job's count; no other job changes but by what the line does.
pub record Removal (w : World) (channel ban_mask : Bytes) (st : BotState) (ji : ℕ) (st' : BotState)
    : Type 0 where
  pub served : unban_job_find st channel ≡ some ji
  pub may : MayRemove st channel ban_mask ji
  pub after : UnbanJob
  pub there : get_elem? st'.unban_jobs ji ≡ some after
  pub counted : after.removed ≡ may.job.removed + 1
  pub others :
      (i : ℕ)
      → i ≢ ji
      → get_elem? st'.unban_jobs i
        ≡ get_elem?
            (irc_printf w
              (codes "MODE " ++ (channel ++ (codes " -b " ++ (ban_mask ++ codes "\r\n"))))
              st).unban_jobs
            i
  pub sent :
      record st' { unban_jobs = [] }
      ≡ record (irc_printf w
          (codes "MODE " ++ (channel ++ (codes " -b " ++ (ban_mask ++ codes "\r\n"))))
          st) { unban_jobs = [] }

get-adjust_self :
    (f : UnbanJob → UnbanJob) (jobs : List UnbanJob) (i : ℕ) (j : UnbanJob)
    → get_elem? jobs i ≡ some j
    → get_elem? (adjust f i jobs) i ≡ some (f j)
get-adjust_self f [] i j h = ground arith
get-adjust_self f (x ∷ jobs) zero j h = ground arith
get-adjust_self f (x ∷ jobs) (suc i) j h = get-adjust_self f jobs i j h

get-adjust_apart :
    (f : UnbanJob → UnbanJob) (jobs : List UnbanJob) (i k : ℕ)
    → k ≢ i
    → get_elem? (adjust f i jobs) k ≡ get_elem? jobs k
get-adjust_apart f [] i k h = refl
get-adjust_apart f (x ∷ jobs) zero zero h = absurd (h refl)
get-adjust_apart f (x ∷ jobs) zero (suc k) h = refl
get-adjust_apart f (x ∷ jobs) (suc i) zero h = refl
get-adjust_apart f (x ∷ jobs) (suc i) (suc k) h = get-adjust_apart f jobs i k (λ e. h (ap suc e))

remove_ban-Removal :
    (w : World) (channel ban_mask : Bytes) (ji : ℕ) (st : BotState)
    → unban_job_find st channel ≡ some ji
    → MayRemove st channel ban_mask ji
    → Removal w channel ban_mask st ji (remove_ban w channel ban_mask ji st)
remove_ban-Removal w channel ban_mask ji st f m =
    let line : Bytes = codes "MODE " ++ (channel ++ (codes " -b " ++ (ban_mask ++ codes "\r\n"))) in
    let (j', at', same) = Sent-removed ji m.job (irc_printf-Sent w line st refl) m.found in
    record {
      served = f;
      may = m;
      after = count_removal j';
      there = get-adjust_self count_removal (irc_printf w line st).unban_jobs ji j' at';
      counted = omega (arith, same);
      others = λ i e. get-adjust_apart count_removal (irc_printf w line st).unban_jobs ji i e;
      sent = refl;
    }

-- What an entry does: nothing, where the ban may not come off, or its removal.
abbrev pub Noted : World → Bytes → Bytes → BotState → BotState → Type 0
Noted w channel ban_mask st st' =
    ((st' ≡ st)
      × ((ji : ℕ) → unban_job_find st channel ≡ some ji → ¬ MayRemove st channel ban_mask ji))
    ⊎ ((ji : ℕ) × Removal w channel ban_mask st ji st')

note_ban-Noted :
    (w : World) (channel ban_mask : Bytes) (ji : ℕ) (j : UnbanJob) (st : BotState)
    → get_elem? st.unban_jobs ji ≡ some j
    → serves channel j ≡ true
    → unban_job_find st channel ≡ some ji
    → Noted w channel ban_mask st (note_ban w channel ban_mask ji j st)
note_ban-Noted w channel ban_mask ji j st at s f =
    elim (Bool-cases (is_spared ban_mask channel j st)) [
      | inl e ↦ inl (
        rw (note_ban, e) refl,
        λ i g m.
            let same : i ≡ ji = some_index i ji (sym g ∙ f) in
            let here : MayRemove st channel ban_mask ji =
              subst (MayRemove st channel ban_mask) same m in
            absurd (ground (arith, e, MayRemove-spared st channel ban_mask ji j at here)),
      )
      | inr e ↦
          let ok : MayRemove st channel ban_mask ji = record {
            job = j;
            found = at;
            active = ground arith;
            some_mask = ground arith;
            asked = ground arith;
            room = ground arith;
            hit = (wildcard_match_iff ban_mask j.hostmask).0 (ground arith);
            ours = rules-RunsChannel st channel (find st channel) refl (ground arith);
          } in
          inr (ji, rw (note_ban, e) (remove_ban-Removal w channel ban_mask ji st f ok))
    ]

with_job-Noted :
    (w : World) (channel ban_mask : Bytes) (st : BotState) (o : Option ℕ)
    → unban_job_find st channel ≡ o
    → Noted w channel ban_mask st (with_job st o (λ ji j. note_ban w channel ban_mask ji j st))
unfolding unban_job_find
with_job-Noted w channel ban_mask st none e = inl (refl, λ i g m. ground (arith, e, g))
with_job-Noted w channel ban_mask st (some ji) e =
    let (j, at, s) = position-some (serves channel) st.unban_jobs ji e in
    rw at (note_ban-Noted w channel ban_mask ji j st at s e)

-- An entry of a ban list takes off that ban, with "MODE channel -b mask" to the server and one more on the
-- job's count, where an active job for the channel has taken off fewer than six bans, the mask is not empty and
-- matches the host that the job is for, and the bot is in the channel with ops; where one of these fails, it
-- changes nothing.
pub unban_note_ban-Noted :
    (w : World) (channel ban_mask : Bytes) (st : BotState)
    → Noted w channel ban_mask st (unban_note_ban w channel ban_mask st)
unfolding unban_note_ban
unban_note_ban-Noted w channel ban_mask st = with_job-Noted w channel ban_mask st _ refl
