-- ===== src/Channel/Quota.antt =====
-- The quota of requests for one channel and one kind, over any run of src/channel.rs's requests.
use mathlib.Core.Path.{subst}
use ircbot_rs.Prelude.{
  ℕ, ◌+◌, ◌≤◌, ◌<◌, ◌≡◌, inl, inr, Bool, true, false, ◌&&◌, List, [], ◌∷◌, arith, All, ◌==◌,
  Bool-cases, if_split,
}
use ircbot_rs.State.{Chan, ChanReq, BotState, req_index}
use ircbot_rs.Channel.Access.{Frames, retries, asked_at, access_request, chan_request_cooloff}
use ircbot_rs.Channel.Outcome.{Outcome, access_request-Outcome}
use ircbot_rs.Channel.Rates.{Ask, ask_all, log}
use ircbot_rs.Channel.Spells.{times_of, Rate, Rising, Moved, here-Moved, Unmoved, Elsewhere-Unmoved}
use ircbot_rs.Channel.Watch.{Watched, Next, same, rested, again, anew, index-kind}

abbrev Later : ℕ → List ℕ → Type 0
Later t ts = All (λ s. t ≤ s) ts

Later-mono : (t u : ℕ) (ts : List ℕ) → t ≤ u → Later u ts → Later t ts
Later-mono t u [] h l = tt
Later-mono t u (s ∷ ts) h l = (omega (arith, l.0), Later-mono t u ts h l.1)

Later-log :
    (t ci : ℕ) (kind : ChanReq) (b : Bool) (a : Ask) (sent : List Ask)
    → t ≤ a.time
    → Later t (times_of ci kind sent)
    → Later t (times_of ci kind (log b a sent))
Later-log t ci kind false a sent h l = l
Later-log t ci kind true a sent h l =
    if_split (Later t) (a.chan == ci && req_index a.kind == req_index kind)
      (a.time ∷ times_of ci kind sent) _ (λ _. (h, l)) (λ _. l)

-- What is sent is called later.
sent-Later :
    (hub : Frames) (now ci : ℕ) (kind : ChanReq) (asks : List Ask) (st : BotState)
    → Rising now asks
    → Later now (times_of ci kind (ask_all hub asks st).0)
unfolding ask_all
sent-Later hub now ci kind [] st r = tt
sent-Later hub now ci kind (a ∷ asks) st r =
    let after : BotState = (access_request hub a.time a.chan a.kind st).1 in
    let sent : List Ask = (ask_all hub asks after).0 in
    Later-log now ci kind (access_request hub a.time a.chan a.kind st).0 a sent r.0 (
      Later-mono now a.time (times_of ci kind sent) r.0
        (sent-Later hub a.time ci kind asks after r.1))

-- A count that was cleared, in place of the count before.
relax :
    (count last t : ℕ) (ts : List ℕ)
    → last + chan_request_cooloff < t
    → Later t ts
    → Rate 0 last ts
    → Rate count last ts
relax count last t [] cool later h = tt
relax count last t (s ∷ ts) cool later (own, inl (few, rest)) =
    (own, inr (omega (arith, later.0), rest))
relax count last t (s ∷ ts) cool later (own, inr (long, rest)) = (own, inr (long, rest))

abbrev log_time : Bool → ℕ → List ℕ → List ℕ
log_time true t ts = t ∷ ts
log_time false t ts = ts

moved-Rate :
    (t : ℕ) (kind : ChanReq) (c c' : Chan) (b : Bool) (ts : List ℕ)
    → Next t kind c c' b
    → Later t ts
    → Rate (retries kind c') (asked_at kind c') ts
    → Rate (retries kind c) (asked_at kind c) (log_time b t ts)
moved-Rate t kind c c' b ts (same e l) later h = rw e at (rw l at h)
moved-Rate t kind c c' b ts (rested cool e l) later h =
    relax (retries kind c) (asked_at kind c) t ts cool later (rw e at (rw l at h))
moved-Rate t kind c c' b ts (again own few e l) later h = (own, inl (few, rw e at (rw l at h)))
moved-Rate t kind c c' b ts (anew own cool e l) later h = (own, inr (cool, rw e at (rw l at h)))

-- The call at the front of a run, before a run that keeps the quota.
hit-Rate :
    (a : Ask) (ci : ℕ) (kind : ChanReq) (c : Chan) (r : Bool × BotState) (sent : List Ask)
    → a.chan ≡ ci
    → a.kind ≡ kind
    → Moved a.time kind c r ci
    → Later a.time (times_of ci kind sent)
    → ((c' : Chan)
        → Watched r.1 ci c'
        → Rate (retries kind c') (asked_at kind c') (times_of ci kind sent))
    → Rate (retries kind c) (asked_at kind c) (times_of ci kind (log r.0 a sent))
hit-Rate a ci kind c (true, st') sent e k m later ih =
    let here : (a.chan == ci && req_index a.kind == req_index kind) ≡ true =
      rw (e, k) (ground arith) in
    rw here (
      moved-Rate a.time kind c m.chan true (times_of ci kind sent) m.step later
        (ih m.chan m.watched))
hit-Rate a ci kind c (false, st') sent e k m later ih =
    moved-Rate a.time kind c m.chan false (times_of ci kind sent) m.step later (ih m.chan m.watched)

miss-Rate :
    (a : Ask) (ci : ℕ) (kind : ChanReq) (c : Chan) (b : Bool) (st' : BotState) (sent : List Ask)
    → (a.chan == ci && req_index a.kind == req_index kind) ≡ false
    → Unmoved kind c st' ci
    → ((c' : Chan)
        → Watched st' ci c'
        → Rate (retries kind c') (asked_at kind c') (times_of ci kind sent))
    → Rate (retries kind c) (asked_at kind c) (times_of ci kind (log b a sent))
miss-Rate a ci kind c false st' sent far u ih = rw u.count at (rw u.stamp at (ih u.chan u.watched))
miss-Rate a ci kind c true st' sent far u ih =
    rw far (rw u.count at (rw u.stamp at (ih u.chan u.watched)))

outcome-Rate :
    (a : Ask) (ci : ℕ) (kind : ChanReq) (c : Chan) (st : BotState) (r : Bool × BotState)
    (sent : List Ask)
    → Watched st ci c
    → Outcome a.time a.chan a.kind st r
    → Later a.time (times_of ci kind sent)
    → ((c' : Chan)
        → Watched r.1 ci c'
        → Rate (retries kind c') (asked_at kind c') (times_of ci kind sent))
    → Rate (retries kind c) (asked_at kind c) (times_of ci kind (log r.0 a sent))
outcome-Rate a ci kind c st r sent w o later ih = elim (Bool-cases (a.chan == ci)) [
  | inl e ↦ elim (Bool-cases (req_index a.kind == req_index kind)) [
    | inl f ↦
        let at : a.chan ≡ ci = ground arith in
        let of : a.kind ≡ kind = index-kind a.kind kind f in
        let here : Outcome a.time ci kind st r =
          subst (λ k. Outcome a.time ci k st r) of
            (subst (λ (n : ℕ). Outcome a.time n a.kind st r) at o) in
        hit-Rate a ci kind c r sent at of (here-Moved c w here) later ih
    | inr f ↦
        miss-Rate a ci kind c r.0 r.1 sent (ground arith) (Elsewhere-Unmoved ci kind c (inr f) w o)
          ih
  ]
  | inr e ↦
      miss-Rate a ci kind c r.0 r.1 sent (ground arith) (Elsewhere-Unmoved ci kind c (inl e) w o) ih
]

-- On a clock that does not run backwards, whatever the calls are, the requests of one kind that leave
-- the bot for one channel keep a minute apart, and no more than five of them go out without a spell
-- of more than five minutes before the next, counted with those before the run.
pub ask_all-Rate :
    (hub : Frames) (asks : List Ask) (st : BotState) (now ci : ℕ) (kind : ChanReq) (c : Chan)
    → Rising now asks
    → Watched st ci c
    → Rate (retries kind c) (asked_at kind c) (times_of ci kind (ask_all hub asks st).0)
unfolding ask_all
ask_all-Rate hub [] st now ci kind c r w = tt
ask_all-Rate hub (a ∷ asks) st now ci kind c r w =
    let after : BotState = (access_request hub a.time a.chan a.kind st).1 in
    outcome-Rate a ci kind c st (access_request hub a.time a.chan a.kind st)
      (ask_all hub asks after).0 w (access_request-Outcome hub a.time a.chan a.kind st)
      (sent-Later hub a.time ci kind asks after r.1)
      (λ c' w'. ask_all-Rate hub asks after a.time ci kind c' r.1 w')
