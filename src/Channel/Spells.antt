-- ===== src/Channel/Spells.antt =====
-- Requests of src/channel.rs for one channel and one kind, over any run of requests.
use mathlib.Core.Path.{subst}
use ircbot_rs.Prelude.{
  ℕ, ◌+◌, ◌≤◌, ◌<◌, ◌≡◌, refl, sym, ap, ◌∙◌, ◌⊎◌, inl, inr, Bool, true, false, ◌&&◌, some, List, [],
  ◌∷◌, adjust, get_elem?, arith, ◌==◌, if◌then◌else◌, if_split,
}
use ircbot_rs.State.{Chan, ChanReq, BotState, req_index}
use ircbot_rs.Channel.Access.{
  retries, asked_at, clear_retries, note_request, chan_request_retry_time, chan_request_max_retries,
  chan_request_cooloff,
}
use ircbot_rs.Channel.Outcome.{waits, leaves, Outcome, refused, counted, cooled}
use ircbot_rs.Channel.Rates.{Ask}
use ircbot_rs.Channel.Watch.{
  Watched, adjust-adjust, Keeps, seen_from, moved, Next, note-Keeps, clear-Keeps, both-Keeps,
  other-retries, other-asked, own-retries, own-asked, same, again, rested, anew,
}

-- The times of the requests for one channel and of one kind.
abbrev pub times_of : ℕ → ChanReq → List Ask → List ℕ
times_of ci kind [] = []
times_of ci kind (a ∷ asks) =
    if a.chan == ci && req_index a.kind == req_index kind
    then a.time ∷ times_of ci kind asks
    else times_of ci kind asks

-- Requests of one kind for one channel, after `count` of them the last of which was at `last`: a
-- minute or more apart, and after five of them only behind a spell of more than five minutes, from
-- which they are counted anew.
abbrev pub Rate : ℕ → ℕ → List ℕ → Type 0
Rate count last [] = Unit
Rate count last (t ∷ ts) =
    ((last ≡ 0) ⊎ (last + chan_request_retry_time ≤ t))
    × (((count < chan_request_max_retries) × Rate (count + 1) t ts)
        ⊎ ((last + chan_request_cooloff < t) × Rate 1 t ts))

-- A clock that does not run backwards.
abbrev pub Rising : ℕ → List Ask → Type 0
Rising now [] = Unit
Rising now (a ∷ asks) = (now ≤ a.time) × Rising a.time asks

-- The channel after a call that is for another channel or of another kind.
pub record Unmoved (kind : ChanReq) (c : Chan) (st' : BotState) (ci : ℕ) : Type 0 where
  pub chan : Chan
  pub watched : Watched st' ci chan
  pub count : retries kind chan ≡ retries kind c
  pub stamp : asked_at kind chan ≡ asked_at kind c

Unmoved-by :
    (f : Chan → Chan) (i : ℕ) (kind : ChanReq) {st st' : BotState} {ci : ℕ} {c : Chan}
    → Keeps f
    → (i == ci) ≡ false
      ⊎ ((retries kind (f c) ≡ retries kind c) × (asked_at kind (f c) ≡ asked_at kind c))
    → Watched st ci c
    → st'.chans ≡ adjust f i st.chans
    → Unmoved kind c st' ci
Unmoved-by f i kind {st} {st'} {ci} {c} k (inl far) w e =
    let seen : Watched st' ci (seen_from i ci f c) = moved f i k w e in
    record { chan = c; watched = rw far at seen; count = refl; stamp = refl }
Unmoved-by f i kind {st} {st'} {ci} {c} k (inr spared) w e = record {
  chan = seen_from i ci f c;
  watched = moved f i k w e;
  count =
      if_split (λ x. retries kind x ≡ retries kind c) (i == ci) (f c) c (λ _. spared.0) (λ _. refl);
  stamp =
      if_split (λ x. asked_at kind x ≡ asked_at kind c) (i == ci) (f c) c (λ _. spared.1)
        (λ _. refl);
}

carried :
    {st st' : BotState} {ci : ℕ} {c : Chan}
    → Watched st ci c
    → st'.chans ≡ st.chans
    → Watched st' ci c
carried {ci = ci} w e = record {
  listed = ap (λ l. get_elem? l ci) e ∙ w.listed;
  stamps = w.stamps;
  counts = w.counts;
}

-- The call is not for the watched channel and kind.
abbrev pub Elsewhere : ℕ → ChanReq → ℕ → ChanReq → Type 0
Elsewhere i k ci kind = ((i == ci) ≡ false) ⊎ ((req_index k == req_index kind) ≡ false)

spare :
    (f : Chan → Chan) (i ci : ℕ) (k kind : ChanReq) (c : Chan)
    → Elsewhere i k ci kind
    → ((req_index k == req_index kind) ≡ false
        → (retries kind (f c) ≡ retries kind c) × (asked_at kind (f c) ≡ asked_at kind c))
    → (i == ci) ≡ false
      ⊎ ((retries kind (f c) ≡ retries kind c) × (asked_at kind (f c) ≡ asked_at kind c))
spare f i ci k kind c (inl far) h = inl far
spare f i ci k kind c (inr other) h = inr (h other)

pub Elsewhere-Unmoved :
    {t i : ℕ} {k : ChanReq} {st : BotState} {r : Bool × BotState} (ci : ℕ) (kind : ChanReq)
    (c : Chan)
    → Elsewhere i k ci kind
    → Watched st ci c
    → Outcome t i k st r
    → Unmoved kind c r.1 ci
Elsewhere-Unmoved ci kind c far w refused = record {
  chan = c;
  watched = w;
  count = refl;
  stamp = refl;
}
Elsewhere-Unmoved ci kind c far w (counted c₀ at few (waits st' e l n)) = record {
  chan = c;
  watched = carried w e;
  count = refl;
  stamp = refl;
}
Elsewhere-Unmoved {t} {i} {k} ci kind c far w (counted c₀ at few (leaves st' turn e l n)) =
    let f : Chan → Chan = note_request k t in
    Unmoved-by f i kind (note-Keeps k t)
      (spare f i ci k kind c far
        (λ o. (other-retries k kind c (retries k c + 1) o, other-asked k kind c t o)))
      w e
Elsewhere-Unmoved {t} {i} {k} ci kind c far w (cooled c₀ at cool (waits st' e l n)) =
    let f : Chan → Chan = clear_retries k in
    Unmoved-by f i kind (clear-Keeps k)
      (spare f i ci k kind c far (λ o. (other-retries k kind c 0 o, refl))) w e
Elsewhere-Unmoved {t} {i} {k} {st} ci kind c far w (cooled c₀ at cool (leaves st' turn e l n)) =
    let g : Chan → Chan = clear_retries k in
    let f : Chan → Chan = λ c. note_request k t (g c) in
    let both : st'.chans ≡ adjust f i st.chans =
      e ∙ adjust-adjust (note_request k t) g i st.chans in
    Unmoved-by f i kind (both-Keeps k t)
      (spare f i ci k kind c far (λ o. (
        other-retries k kind (g c) (retries k (g c) + 1) o ∙ other-retries k kind c 0 o,
        other-asked k kind (g c) t o,
      )))
      w both

-- The channel after a call for it and of its kind.
pub record Moved (t : ℕ) (kind : ChanReq) (c : Chan) (r : Bool × BotState) (ci : ℕ) : Type 0 where
  pub chan : Chan
  pub watched : Watched r.1 ci chan
  pub step : Next t kind c chan r.0

here_by :
    (f : Chan → Chan) {st st' : BotState} {ci : ℕ} {c : Chan}
    → Keeps f
    → Watched st ci c
    → st'.chans ≡ adjust f ci st.chans
    → Watched st' ci (f c)
here_by f {st} {st'} {ci} {c} k w e =
    let seen : Watched st' ci (seen_from ci ci f c) = moved f ci k w e in
    let self : (ci == ci) ≡ true = ground arith in rw self at seen

same_chan :
    {st : BotState} {ci : ℕ} {c c₀ : Chan}
    → Watched st ci c
    → get_elem? st.chans ci ≡ some c₀
    → c₀ ≡ c
same_chan {c = c} {c₀ = c₀} w at = let e : some c₀ ≡ some c = sym at ∙ w.listed in cc

pub here-Moved :
    {t ci : ℕ} {kind : ChanReq} {st : BotState} {r : Bool × BotState} (c : Chan)
    → Watched st ci c
    → Outcome t ci kind st r
    → Moved t kind c r ci
here-Moved c w refused = record { chan = c; watched = w; step = same refl refl }
here-Moved c w (counted c₀ at few (waits st' e l n)) = record {
  chan = c;
  watched = carried w e;
  step = same refl refl;
}
here-Moved {t} {ci} {kind} c w (counted c₀ at few (leaves st' turn e l n)) =
    let one : c₀ ≡ c = same_chan w at in
    record {
      chan = note_request kind t c;
      watched = here_by (note_request kind t) (note-Keeps kind t) w e;
      step =
          again
            (subst (λ x. (asked_at kind x ≡ 0) ⊎ (asked_at kind x + chan_request_retry_time ≤ t))
              one turn.own)
            (subst (λ x. retries kind x < chan_request_max_retries) one few)
            (own-retries kind c (retries kind c + 1) w.counts) (own-asked kind c t w.stamps);
    }
here-Moved {t} {ci} {kind} c w (cooled c₀ at cool (waits st' e l n)) = record {
  chan = clear_retries kind c;
  watched = here_by (clear_retries kind) (clear-Keeps kind) w e;
  step =
      rested (subst (λ x. asked_at kind x + chan_request_cooloff < t) (same_chan w at) cool)
        (own-retries kind c 0 w.counts) refl;
}
here-Moved {t} {ci} {kind} {st} c w (cooled c₀ at cool (leaves st' turn e l n)) =
    let one : c₀ ≡ c = same_chan w at in
    let g : Chan → Chan = clear_retries kind in
    let f : Chan → Chan = λ c. note_request kind t (g c) in
    let zero_left : retries kind (g c) ≡ 0 = own-retries kind c 0 w.counts in
    record {
      chan = f c;
      watched =
          here_by f (both-Keeps kind t) w (e ∙ adjust-adjust (note_request kind t) g ci st.chans);
      step =
          anew
            (subst (λ x. (asked_at kind x ≡ 0) ⊎ (asked_at kind x + chan_request_retry_time ≤ t))
              one turn.own)
            (subst (λ x. asked_at kind x + chan_request_cooloff < t) one cool)
            (own-retries kind (g c) (retries kind (g c) + 1) ((clear-Keeps kind c).1 ∙ w.counts)
              ∙ omega (arith, zero_left))
            (own-asked kind (g c) t w.stamps);
    }
