-- ===== src/Channel/Walks.antt =====
-- A run of the unban code of src/channel.rs, and what one entry of a ban list may do.
use ircbot_rs.Prelude.{
  ◌++◌, ◌∙◌, ℕ, ◌≤◌, ◌<◌, ◌≡◌, refl, ◌⊎◌, inl, inr, true, Option, none, some, adjust, get_elem?,
  arith, length, All-get, sym, ◌≢◌, suc, ap,
}
use ircbot_rs.Cstr.{Bytes, codes}
use ircbot_rs.State.{BotState, UnbanJob}
use ircbot_rs.ChanCfg.Parse.{max_chan}
use ircbot_rs.Channel.{stop_job, reset_status, isupport_reset, false}
use ircbot_rs.Channel.Unban.{
  unban_job_find, unban_expire, unban_job_start, unban_note_ban, unban_finish, unban_max_removals,
  with_job, on_job, note_ban, expire_job,
}
use mathlib.Core.Path.{subst}
use ircbot_rs.Channel.Removal.{Noted, unban_note_ban-Noted, some_index}
use ircbot_rs.Channel.Tally.{
  removed_of, removed_at, free_slot, map-removed, Sent-removed_at, Removal-removed, start-removed,
  finish-removed, fair-removed, ℕ_cases,
}
use ircbot_rs.Link.Stored.{irc_printf-Sent}
use ircbot_rs.Channel.Jobs.{
  IsFair, start-IsFair, expire-IsFair, on_job-IsFair, adjust-IsFair, stop_all-IsFair,
}
use ircbot_rs.Link.{World, lose}

-- What happens to the jobs, at any time and in any order, with a count of the bans that have come off for the
-- job in the slot `ji` since it began. It begins with a request that takes that slot, and a ban comes off where
-- an entry for that job changes anything. A channel that the bot serves is one it is in, so its name has at most
-- 64 bytes.
pub data Walk (ji : ℕ) : ℕ → BotState → ℕ → BotState → Type 0 where
  begin :
      (n : ℕ) (w : World) (channel hostmask : Bytes) (st : BotState)
      → length channel < max_chan
      → (unban_job_start w channel hostmask st).0 ≡ true
      → free_slot w.now st ≡ some ji
      → Walk ji n st 0 (unban_job_start w channel hostmask st).1
  begin_other :
      (n : ℕ) (w : World) (channel hostmask : Bytes) (st : BotState)
      → length channel < max_chan
      → ((unban_job_start w channel hostmask st).0 ≡ false) ⊎ (free_slot w.now st ≢ some ji)
      → Walk ji n st n (unban_job_start w channel hostmask st).1
  idle :
      (n : ℕ) (w : World) (channel ban_mask : Bytes) (st : BotState)
      → unban_note_ban w channel ban_mask st ≡ st
      → Walk ji n st n (unban_note_ban w channel ban_mask st)
  off :
      (n : ℕ) (w : World) (channel ban_mask : Bytes) (st : BotState)
      → unban_note_ban w channel ban_mask st ≢ st
      → unban_job_find st channel ≡ some ji
      → Walk ji n st (suc n) (unban_note_ban w channel ban_mask st)
  off_other :
      (n : ℕ) (w : World) (channel ban_mask : Bytes) (st : BotState)
      → unban_job_find st channel ≢ some ji
      → Walk ji n st n (unban_note_ban w channel ban_mask st)
  finish : (n : ℕ) (channel : Bytes) (st : BotState) → Walk ji n st n (unban_finish channel st)
  expire : (n now : ℕ) (st : BotState) → Walk ji n st n (unban_expire now st)
  disconnect : (n : ℕ) (st : BotState) → Walk ji n st n (lose st)

pub data Walks (ji : ℕ) (st : BotState) : ℕ → BotState → Type 0 where
  here : Walks ji st 0 st
  next : {n m : ℕ} {t u : BotState} → Walks ji st n t → Walk ji n t m u → Walks ji st m u

with_job-IsFair :
    (w : World) (channel ban_mask : Bytes) (st : BotState) (o : Option ℕ)
    → IsFair st.unban_jobs
    → IsFair (with_job st o (λ ji j. note_ban w channel ban_mask ji j st)).unban_jobs
with_job-IsFair w channel ban_mask st none h = h
with_job-IsFair w channel ban_mask st (some ji) h = on_job-IsFair w channel ban_mask ji st _ refl h

stopped-IsFair :
    (st : BotState) (ji : ℕ) (o : Option UnbanJob)
    → get_elem? st.unban_jobs ji ≡ o
    → IsFair st.unban_jobs
    → IsFair
        (on_job st o (λ j. record st { unban_jobs = adjust stop_job ji st.unban_jobs })).unban_jobs
stopped-IsFair st ji none e h = h
stopped-IsFair st ji (some j) e h =
    adjust-IsFair stop_job st.unban_jobs ji j e
      (All-get (λ j. j.removed ≤ unban_max_removals) st.unban_jobs ji j h.removed e)
      (λ channel s. ground arith) h

finish-IsFair :
    (st : BotState) (o : Option ℕ)
    → IsFair st.unban_jobs
    → IsFair
        (with_job st o
          (λ ji j. record st { unban_jobs = adjust stop_job ji st.unban_jobs })).unban_jobs
finish-IsFair st none h = h
finish-IsFair st (some ji) h = stopped-IsFair st ji _ refl h

Walk-IsFair :
    {ji n m : ℕ} {st st' : BotState}
    → Walk ji n st m st'
    → IsFair st.unban_jobs
    → IsFair st'.unban_jobs
unfolding unban_note_ban unban_finish unban_expire lose reset_status isupport_reset
Walk-IsFair (begin n w channel hostmask st l b f) h = start-IsFair w channel hostmask st l h
Walk-IsFair (begin_other n w channel hostmask st l b) h = start-IsFair w channel hostmask st l h
Walk-IsFair (idle n w channel ban_mask st e) h =
    with_job-IsFair w channel ban_mask st (unban_job_find st channel) h
Walk-IsFair (off n w channel ban_mask st c e) h =
    with_job-IsFair w channel ban_mask st (unban_job_find st channel) h
Walk-IsFair (off_other n w channel ban_mask st e) h =
    with_job-IsFair w channel ban_mask st (unban_job_find st channel) h
Walk-IsFair (finish n channel st) h = finish-IsFair st (unban_job_find st channel) h
Walk-IsFair (expire n now st) h = expire-IsFair now st.unban_jobs h
Walk-IsFair (disconnect n st) h = stop_all-IsFair st.unban_jobs h

entry-removed :
    (w : World) (channel ban_mask : Bytes) (st st' : BotState) (ji : ℕ)
    → Noted w channel ban_mask st st'
    → removed_at st.unban_jobs ji ≤ removed_at st'.unban_jobs ji
entry-removed w channel ban_mask st st' ji (inl (same, blocked)) =
    subst (λ (t : BotState). removed_at st.unban_jobs ji ≤ removed_at t.unban_jobs ji) (sym same)
      (omega arith)
entry-removed w channel ban_mask st st' ji (inr (i, r)) = elim (ℕ_cases ji i) [
  | inl e ↦
      subst (λ (x : ℕ). removed_at st.unban_jobs x ≤ removed_at st'.unban_jobs x) (sym e)
        (omega (arith, Removal-removed w channel ban_mask st st' i r))
  | inr ne ↦
      let line : Bytes =
        codes "MODE " ++ (channel ++ (codes " -b " ++ (ban_mask ++ codes "\r\n"))) in
      omega
        (arith, ap removed_of (r.others ji ne), Sent-removed_at ji (irc_printf-Sent w line st refl))
]

Walk-removed :
    {ji n m : ℕ} {st st' : BotState}
    → Walk ji n st m st'
    → n ≤ removed_at st.unban_jobs ji
    → m ≤ removed_at st'.unban_jobs ji
unfolding unban_finish unban_expire lose reset_status isupport_reset
Walk-removed (begin n w channel hostmask st l b f) h = omega arith
Walk-removed {ji} (begin_other n w channel hostmask st l b) h =
    omega (arith, h, start-removed w channel hostmask st ji b)
Walk-removed {ji} (idle n w channel ban_mask st e) h = omega (
  arith,
  h,
  entry-removed w channel ban_mask st _ ji (unban_note_ban-Noted w channel ban_mask st),
)
Walk-removed {ji} (off n w channel ban_mask st c f) h =
    elim (unban_note_ban-Noted w channel ban_mask st) [
      | inl (same, blocked) ↦ absurd (c same)
      | inr (i, r) ↦
          let e : i ≡ ji = some_index i ji (sym r.served ∙ f) in
          subst (λ (x : ℕ). suc n ≤ removed_at (unban_note_ban w channel ban_mask st).unban_jobs x)
            e
            (omega (
              arith,
              h,
              ap (λ (x : ℕ). removed_at st.unban_jobs x) e,
              Removal-removed w channel ban_mask st (unban_note_ban w channel ban_mask st) i r,
            ))
    ]
Walk-removed {ji} (off_other n w channel ban_mask st e) h = omega (
  arith,
  h,
  entry-removed w channel ban_mask st _ ji (unban_note_ban-Noted w channel ban_mask st),
)
Walk-removed {ji} (finish n channel st) h =
    omega (arith, h, finish-removed st (unban_job_find st channel) ji)
Walk-removed {ji} (expire n now st) h =
    omega (arith, h, map-removed (expire_job now) st.unban_jobs ji (λ j. ground arith))
Walk-removed {ji} (disconnect n st) h =
    omega (arith, h, map-removed stop_job st.unban_jobs ji (λ j. refl))

Walks-kept :
    {ji : ℕ} {st : BotState} {n : ℕ} {st' : BotState}
    → Walks ji st n st'
    → IsFair st.unban_jobs
    → IsFair st'.unban_jobs × (n ≤ removed_at st'.unban_jobs ji)
Walks-kept here h = (h, omega arith)
Walks-kept (next ws s) h =
    let (fair, few) = Walks-kept ws h in (Walk-IsFair s fair, Walk-removed s few)

-- However requests for unbans, entries and ends of ban lists, timeouts and disconnects follow one another, and
-- whichever job is watched: at most six entries make the bot take off a ban for one job, from its
-- beginning on, and no channel, up to case, has two active jobs.
pub Walks-IsFair :
    {ji : ℕ} {st : BotState} {n : ℕ} {st' : BotState}
    → Walks ji st n st'
    → IsFair st.unban_jobs
    → IsFair st'.unban_jobs × (n ≤ 6)
Walks-IsFair {ji} ws h =
    let (fair, few) = Walks-kept ws h in (fair, omega (arith, few, fair-removed _ ji fair))
