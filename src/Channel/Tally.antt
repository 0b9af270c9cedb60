-- ===== src/Channel/Tally.antt =====
-- The counts of the unban jobs of src/channel.rs, under each operation.
use ircbot_rs.Prelude.{
  ℕ, zero, suc, ◌≤◌, ◌≡◌, ◌≢◌, refl, ap, ◌∙◌, ◌⊎◌, inl, inr, false, not, Option, none, some, List,
  [], ◌∷◌, map, adjust, set, get_elem?, position, arith, All, Bool-cases, ◌==◌,
}
use ircbot_rs.Cstr.{Bytes}
use ircbot_rs.State.{BotState, UnbanJob}
use ircbot_rs.Channel.{stop_job, reset_status, isupport_reset}
use ircbot_rs.Channel.Unban.{
  expire_job, unban_expire, new_job, start_at, start_unless, unban_job_start, on_job, with_job,
  unban_max_removals,
}
use ircbot_rs.Link.{World, lose}
use ircbot_rs.Link.Stored.{Sent, kept, lost, irc_printf-Sent}
use ircbot_rs.Channel.Jobs.{IsFair}
use ircbot_rs.Channel.Removal.{Removal}

abbrev pub removed_of : Option UnbanJob → ℕ
removed_of none = 0
removed_of (some j) = j.removed

abbrev pub removed_at : List UnbanJob → ℕ → ℕ
removed_at jobs i = removed_of (get_elem? jobs i)

-- The slot that a request takes.
abbrev pub free_slot : ℕ → BotState → Option ℕ
free_slot now st = position (λ (j : UnbanJob). not j.active) (map (expire_job now) st.unban_jobs)

pub map-removed :
    (f : UnbanJob → UnbanJob) (jobs : List UnbanJob) (i : ℕ)
    → ((j : UnbanJob) → (f j).removed ≡ j.removed)
    → removed_at (map f jobs) i ≡ removed_at jobs i
map-removed f [] i same = refl
map-removed f (j ∷ jobs) zero same = same j
map-removed f (j ∷ jobs) (suc i) same = map-removed f jobs i same

adjust-removed :
    (f : UnbanJob → UnbanJob) (jobs : List UnbanJob) (k i : ℕ)
    → ((j : UnbanJob) → (f j).removed ≡ j.removed)
    → removed_at (adjust f k jobs) i ≡ removed_at jobs i
adjust-removed f [] k i same = refl
adjust-removed f (j ∷ jobs) zero zero same = same j
adjust-removed f (j ∷ jobs) zero (suc i) same = refl
adjust-removed f (j ∷ jobs) (suc k) zero same = refl
adjust-removed f (j ∷ jobs) (suc k) (suc i) same = adjust-removed f jobs k i same

set-removed :
    (jobs : List UnbanJob) (k i : ℕ) (v : UnbanJob)
    → k ≢ i
    → removed_at (set jobs k v) i ≡ removed_at jobs i
set-removed [] k i v h = refl
set-removed (j ∷ jobs) zero zero v h = absurd (h refl)
set-removed (j ∷ jobs) zero (suc i) v h = refl
set-removed (j ∷ jobs) (suc k) zero v h = refl
set-removed (j ∷ jobs) (suc k) (suc i) v h = set-removed jobs k i v (λ e. h (ap suc e))

pub Sent-removed_at :
    {st st' : BotState} (i : ℕ)
    → Sent st st'
    → removed_at st'.unban_jobs i ≡ removed_at st.unban_jobs i
unfolding lose reset_status isupport_reset
Sent-removed_at i (kept o) = refl
Sent-removed_at {st} i (lost o) = map-removed stop_job st.unban_jobs i (λ j. refl)

pub Removal-removed :
    (w : World) (channel ban_mask : Bytes) (st st' : BotState) (ji : ℕ)
    → Removal w channel ban_mask st ji st'
    → removed_at st'.unban_jobs ji ≡ suc (removed_at st.unban_jobs ji)
Removal-removed w channel ban_mask st st' ji r =
    omega (arith, ap removed_of r.there, ap removed_of r.may.found, r.counted)

start_at-removed :
    (w : World) (channel hostmask : Bytes) (st : BotState) (o : Option ℕ) (i : ℕ)
    → ((start_at w channel hostmask st o).0 ≡ false) ⊎ (o ≢ some i)
    → removed_at (start_at w channel hostmask st o).1.unban_jobs i ≡ removed_at st.unban_jobs i
start_at-removed w channel hostmask st none i h = refl
start_at-removed w channel hostmask st (some k) i (inl h) = ground arith
start_at-removed w channel hostmask st (some k) i (inr h) =
    Sent-removed_at i (
      irc_printf-Sent w _
        (record st { unban_jobs = set st.unban_jobs k (new_job w.now channel hostmask) }) refl)
    ∙ set-removed st.unban_jobs k i (new_job w.now channel hostmask) (λ e. h (ap some e))

start_unless-removed :
    (w : World) (channel hostmask : Bytes) (st : BotState) (o : Option ℕ) (i : ℕ)
    → ((start_unless w channel hostmask st o).0 ≡ false)
      ⊎ (position (λ (j : UnbanJob). not j.active) st.unban_jobs ≢ some i)
    → removed_at (start_unless w channel hostmask st o).1.unban_jobs i ≡ removed_at st.unban_jobs i
start_unless-removed w channel hostmask st (some k) i h = refl
start_unless-removed w channel hostmask st none i h = start_at-removed w channel hostmask st _ i h

pub start-removed :
    (w : World) (channel hostmask : Bytes) (st : BotState) (i : ℕ)
    → ((unban_job_start w channel hostmask st).0 ≡ false) ⊎ (free_slot w.now st ≢ some i)
    → removed_at (unban_job_start w channel hostmask st).1.unban_jobs i ≡ removed_at st.unban_jobs i
unfolding unban_job_start unban_expire
start-removed w channel hostmask st i h =
    start_unless-removed w channel hostmask (unban_expire w.now st) _ i h
    ∙ map-removed (expire_job w.now) st.unban_jobs i (λ j. ground arith)

stopped-removed :
    (st : BotState) (k : ℕ) (o : Option UnbanJob) (i : ℕ)
    → removed_at
        (on_job st o (λ j. record st { unban_jobs = adjust stop_job k st.unban_jobs })).unban_jobs
        i
      ≡ removed_at st.unban_jobs i
stopped-removed st k none i = refl
stopped-removed st k (some j) i = adjust-removed stop_job st.unban_jobs k i (λ j. refl)

pub finish-removed :
    (st : BotState) (o : Option ℕ) (i : ℕ)
    → removed_at
        (with_job st o
          (λ ji j. record st { unban_jobs = adjust stop_job ji st.unban_jobs })).unban_jobs
        i
      ≡ removed_at st.unban_jobs i
finish-removed st none i = refl
finish-removed st (some k) i = stopped-removed st k _ i

fair-at :
    (jobs : List UnbanJob) (i : ℕ)
    → All (λ j. j.removed ≤ unban_max_removals) jobs
    → removed_at jobs i ≤ 6
fair-at [] i h = omega arith
fair-at (j ∷ jobs) zero h = omega (arith, h.0)
fair-at (j ∷ jobs) (suc i) h = fair-at jobs i h.1

pub fair-removed : (jobs : List UnbanJob) (i : ℕ) → IsFair jobs → removed_at jobs i ≤ 6
fair-removed jobs i h = fair-at jobs i h.removed

pub ℕ_cases : (m n : ℕ) → (m ≡ n) ⊎ (m ≢ n)
ℕ_cases m n = elim (Bool-cases (m == n)) [
  | inl e ↦ inl (ground arith)
  | inr e ↦ inr (λ k. ground arith)
]
