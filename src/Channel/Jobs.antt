-- ===== src/Channel/Jobs.antt =====
-- The unban jobs of src/channel.rs: one walk for each channel, and a bound on what a walk removes.
use mathlib.Core.Path.{subst}
use ircbot_rs.Prelude.{
  ℕ, zero, suc, ◌≤◌, ◌<◌, ◌≡◌, refl, sym, ◌⊎◌, inl, inr, true, false, not, Option, none, some, List,
  [], ◌∷◌, ◌++◌, map, adjust, set, get_elem?, position, arith, if_split, length, All, All-set,
  position-some, Bool-cases,
}
use ircbot_rs.Prelude.Counts.{count_if, count_if-set, adjust-set, count_if-absent, count_if-map_le}
use ircbot_rs.Cstr.{Bytes, codes, eq_ic, trunc}
use ircbot_rs.Cstr.Case.{eq_ic_sym, eq_ic_trans}
use ircbot_rs.State.{BotState, UnbanJob}
use ircbot_rs.Channel.{stop_job, reset_status, isupport_reset}
use ircbot_rs.ChanCfg.Parse.{max_chan}
use ircbot_rs.Link.{World, irc_printf, eol, lose, is_message}
use ircbot_rs.Link.Stored.{Sent, kept, lost, irc_printf-Sent}
use ircbot_rs.Cstr.Trunc.{trunc-short}
use ircbot_rs.Channel.Unban.{
  serves, unban_job_find, expire_job, unban_expire, new_job, start_at, start_unless,
  unban_job_start, is_spared, remove_ban, note_ban, on_job, count_removal, unban_max_removals,
}

-- Every job has taken off six bans at most, and no channel, up to case, has two active jobs.
pub record IsFair (jobs : List UnbanJob) : Type 0 where
  pub removed : All (λ j. j.removed ≤ unban_max_removals) jobs
  pub single : (channel : Bytes) → count_if (serves channel) jobs ≤ 1

All-map :
    (P : UnbanJob → Type 0) (f : UnbanJob → UnbanJob) (jobs : List UnbanJob)
    → ((j : UnbanJob) → P j → P (f j))
    → All P jobs
    → All P (map f jobs)
All-map P f [] k h = tt
All-map P f (j ∷ jobs) k h = (k j h.0, All-map P f jobs k h.1)

-- A change of every job that takes off no ban and starts no walk.
map-IsFair :
    (f : UnbanJob → UnbanJob) (jobs : List UnbanJob)
    → ((j : UnbanJob) → (f j).removed ≡ j.removed)
    → ((channel : Bytes) (j : UnbanJob) → serves channel (f j) ≡ true → serves channel j ≡ true)
    → IsFair jobs
    → IsFair (map f jobs)
map-IsFair f jobs same old h = record {
  removed =
      All-map (λ j. j.removed ≤ unban_max_removals) f jobs (λ j l. omega (arith, same j)) h.removed;
  single = λ channel.
      omega (arith, h.single channel, count_if-map_le (serves channel) f jobs (old channel));
}

pub stop_all-IsFair : (jobs : List UnbanJob) → IsFair jobs → IsFair (map stop_job jobs)
stop_all-IsFair jobs h = map-IsFair stop_job jobs (λ j. refl) (λ channel j e. ground arith) h

pub expire-IsFair :
    (now : ℕ) (jobs : List UnbanJob) → IsFair jobs → IsFair (map (expire_job now) jobs)
expire-IsFair now jobs h =
    map-IsFair (expire_job now) jobs (λ j. ground arith) (λ channel j e. ground arith) h

-- One job changed in place.
set-IsFair :
    (jobs : List UnbanJob) (i : ℕ) (old j : UnbanJob)
    → get_elem? jobs i ≡ some old
    → j.removed ≤ unban_max_removals
    → ((channel : Bytes)
        → (serves channel j ≡ true)
        → (serves channel old ≡ true) ⊎ (count_if (serves channel) jobs ≡ 0))
    → IsFair jobs
    → IsFair (set jobs i j)
set-IsFair jobs i old j at few new h = record {
  removed = All-set (λ j. j.removed ≤ unban_max_removals) jobs i j h.removed few;
  single = λ channel. elim (Bool-cases (serves channel j)) [
    | inl e ↦ elim (new channel e) [
      | inl o ↦ ground (arith, h.single channel, count_if-set (serves channel) jobs i old j at)
      | inr z ↦ ground (arith, z, count_if-set (serves channel) jobs i old j at)
    ]
    | inr e ↦ ground (arith, h.single channel, count_if-set (serves channel) jobs i old j at)
  ];
}

Sent-IsFair : {st st' : BotState} → Sent st st' → IsFair st.unban_jobs → IsFair st'.unban_jobs
unfolding lose reset_status isupport_reset
Sent-IsFair (kept o) h = h
Sent-IsFair {st} (lost o) h = stop_all-IsFair st.unban_jobs h

said-IsFair :
    (w : World) (line : Bytes) (st : BotState)
    → is_message line ≡ false
    → IsFair st.unban_jobs
    → IsFair (irc_printf w line st).unban_jobs
said-IsFair w line st m h = Sent-IsFair (irc_printf-Sent w line st m) h

-- Names that are equal up to case are served by the same jobs.
same_service : (a b : Bytes) → eq_ic a b ≡ true → (j : UnbanJob) → serves b j ≡ serves a j
same_service a b h j =
    ground (arith, eq_ic_trans j.channel a b, eq_ic_trans j.channel b a, eq_ic_sym a b)

start_at-IsFair :
    (w : World) (channel hostmask : Bytes) (st : BotState) (o : Option ℕ)
    → length channel < max_chan
    → unban_job_find st channel ≡ none
    → position (λ (j : UnbanJob). not j.active) st.unban_jobs ≡ o
    → IsFair st.unban_jobs
    → IsFair (start_at w channel hostmask st o).1.unban_jobs
unfolding unban_job_find
start_at-IsFair w channel hostmask st none l free e h = h
start_at-IsFair w channel hostmask st (some slot) l free e h =
    let (old, at, idle) = position-some (λ (j : UnbanJob). not j.active) st.unban_jobs slot e in
    let whole : trunc channel max_chan ≡ channel = trunc-short channel max_chan l in
    let jobs : List UnbanJob = set st.unban_jobs slot (new_job w.now channel hostmask) in
    said-IsFair w _ (record st { unban_jobs = jobs }) refl
      (set-IsFair st.unban_jobs slot old (new_job w.now channel hostmask) at (omega arith)
        (λ other s.
          let same : eq_ic channel other ≡ true = subst (λ n. eq_ic n other ≡ true) whole s in
          inr (
            count_if-absent (serves channel) (serves other) st.unban_jobs
              (same_service channel other same) free))
        h)

start_unless-IsFair :
    (w : World) (channel hostmask : Bytes) (st : BotState) (o : Option ℕ)
    → length channel < max_chan
    → unban_job_find st channel ≡ o
    → IsFair st.unban_jobs
    → IsFair (start_unless w channel hostmask st o).1.unban_jobs
start_unless-IsFair w channel hostmask st (some i) l e h = h
start_unless-IsFair w channel hostmask st none l e h =
    start_at-IsFair w channel hostmask st _ l e refl h

pub start-IsFair :
    (w : World) (channel hostmask : Bytes) (st : BotState)
    → length channel < max_chan
    → IsFair st.unban_jobs
    → IsFair (unban_job_start w channel hostmask st).1.unban_jobs
unfolding unban_job_start unban_expire
start-IsFair w channel hostmask st l h =
    start_unless-IsFair w channel hostmask (unban_expire w.now st) _ l refl
      (expire-IsFair w.now st.unban_jobs h)

pub adjust-IsFair :
    (f : UnbanJob → UnbanJob) (jobs : List UnbanJob) (i : ℕ) (j : UnbanJob)
    → get_elem? jobs i ≡ some j
    → (f j).removed ≤ unban_max_removals
    → ((channel : Bytes) → serves channel (f j) ≡ true → serves channel j ≡ true)
    → IsFair jobs
    → IsFair (adjust f i jobs)
adjust-IsFair f jobs i j at few old h =
    subst IsFair (sym (adjust-set f jobs i j at))
      (set-IsFair jobs i j (f j) at few (λ channel s. inl (old channel s)) h)

get-map :
    (f : UnbanJob → UnbanJob) (jobs : List UnbanJob) (i : ℕ) (j : UnbanJob)
    → get_elem? jobs i ≡ some j
    → get_elem? (map f jobs) i ≡ some (f j)
get-map f [] i j h = ground arith
get-map f (x ∷ jobs) zero j h = ground arith
get-map f (x ∷ jobs) (suc i) j h = get-map f jobs i j h

-- A line to the server leaves a job's count as it is.
pub Sent-removed :
    {st st' : BotState} (i : ℕ) (j : UnbanJob)
    → Sent st st'
    → get_elem? st.unban_jobs i ≡ some j
    → (j' : UnbanJob) × (get_elem? st'.unban_jobs i ≡ some j') × (j'.removed ≡ j.removed)
unfolding lose reset_status isupport_reset
Sent-removed i j (kept o) h = (j, h, refl)
Sent-removed {st} i j (lost o) h = (stop_job j, get-map stop_job st.unban_jobs i j h, refl)

remove_ban-IsFair :
    (w : World) (channel ban_mask : Bytes) (ji : ℕ) (j : UnbanJob) (st : BotState)
    → get_elem? st.unban_jobs ji ≡ some j
    → j.removed < unban_max_removals
    → IsFair st.unban_jobs
    → IsFair (remove_ban w channel ban_mask ji st).unban_jobs
remove_ban-IsFair w channel ban_mask ji j st at few h =
    let sent =
      irc_printf-Sent w (codes "MODE " ++ (channel ++ (codes " -b " ++ (ban_mask ++ eol)))) st
        refl in
    let (j', at', same) = Sent-removed ji j sent at in
    adjust-IsFair count_removal _ ji j' at' (omega arith) (λ channel s. s) (Sent-IsFair sent h)

pub on_job-IsFair :
    (w : World) (channel ban_mask : Bytes) (ji : ℕ) (st : BotState) (o : Option UnbanJob)
    → get_elem? st.unban_jobs ji ≡ o
    → IsFair st.unban_jobs
    → IsFair (on_job st o (λ j. note_ban w channel ban_mask ji j st)).unban_jobs
on_job-IsFair w channel ban_mask ji st none at h = h
on_job-IsFair w channel ban_mask ji st (some j) at h =
    if_split (λ s. IsFair s.unban_jobs) (is_spared ban_mask channel j st) st
      (remove_ban w channel ban_mask ji st) (λ _. h)
      (λ e. remove_ban-IsFair w channel ban_mask ji j st at (ground arith) h)
