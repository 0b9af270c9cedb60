-- ===== src/Channel/Watch.antt =====
-- How a request of src/channel.rs moves the arrays of its channel.
use ircbot_rs.Prelude.{
  ℕ, zero, suc, ◌+◌, ◌≤◌, ◌<◌, ◌≡◌, ◌≢◌, refl, ap, ◌∙◌, ◌⊎◌, inl, inr, Bool, true, false, some,
  List, [], ◌∷◌, adjust, get_elem?, get_or, set, arith, length, ◌==◌, if◌then◌else◌, Bool-cases,
  length-set,
}
use ircbot_rs.State.{Chan, ChanReq, BotState, req_index, req_kinds}
use ircbot_rs.Channel.Access.{
  retries, asked_at, clear_retries, note_request, chan_request_retry_time, chan_request_max_retries,
  chan_request_cooloff,
}

-- The channel, with both of its arrays.
pub record Watched (st : BotState) (ci : ℕ) (c : Chan) : Type 0 where
  pub listed : get_elem? st.chans ci ≡ some c
  pub stamps : length c.last_access_request ≡ req_kinds
  pub counts : length c.access_retry_count ≡ req_kinds

kind-lt : (kind : ChanReq) → req_index kind < req_kinds
kind-lt ChanReq.unban = omega arith
kind-lt ChanReq.invite = omega arith
kind-lt ChanReq.key = omega arith

get_or-set : (xs : List ℕ) (i v : ℕ) → i < length xs → get_or (set xs i v) i 0 ≡ v
get_or-set [] i v h = absurd (omega arith)
get_or-set (x ∷ xs) zero v h = refl
get_or-set (x ∷ xs) (suc i) v h = get_or-set xs i v (omega arith)

get_or-set_other : (xs : List ℕ) (i j v : ℕ) → i ≢ j → get_or (set xs i v) j 0 ≡ get_or xs j 0
get_or-set_other [] i j v h = refl
get_or-set_other (x ∷ xs) zero zero v h = absurd (h refl)
get_or-set_other (x ∷ xs) zero (suc j) v h = refl
get_or-set_other (x ∷ xs) (suc i) zero v h = refl
get_or-set_other (x ∷ xs) (suc i) (suc j) v h = get_or-set_other xs i j v (λ e. h (ap suc e))

get-adjust :
    (f : Chan → Chan) (i : ℕ) (xs : List Chan) (c : Chan)
    → get_elem? xs i ≡ some c
    → get_elem? (adjust f i xs) i ≡ some (f c)
get-adjust f i [] c h = ground arith
get-adjust f zero (x ∷ xs) c h = ground arith
get-adjust f (suc i) (x ∷ xs) c h = get-adjust f i xs c h

get-adjust_other :
    (f : Chan → Chan) (i j : ℕ) (xs : List Chan)
    → i ≢ j
    → get_elem? (adjust f i xs) j ≡ get_elem? xs j
get-adjust_other f i j [] h = refl
get-adjust_other f zero zero (x ∷ xs) h = absurd (h refl)
get-adjust_other f zero (suc j) (x ∷ xs) h = refl
get-adjust_other f (suc i) zero (x ∷ xs) h = refl
get-adjust_other f (suc i) (suc j) (x ∷ xs) h = get-adjust_other f i j xs (λ e. h (ap suc e))

pub adjust-adjust :
    (f g : Chan → Chan) (i : ℕ) (xs : List Chan)
    → adjust f i (adjust g i xs) ≡ adjust (λ c. f (g c)) i xs
adjust-adjust f g i [] = refl
adjust-adjust f g zero (x ∷ xs) = refl
adjust-adjust f g (suc i) (x ∷ xs) = ap (λ l. x ∷ l) (adjust-adjust f g i xs)

-- A change that keeps both arrays whole.
abbrev pub Keeps : (Chan → Chan) → Type 0
Keeps f =
    (c : Chan)
    → (length (f c).last_access_request ≡ length c.last_access_request)
      × (length (f c).access_retry_count ≡ length c.access_retry_count)

abbrev pub seen_from : ℕ → ℕ → (Chan → Chan) → Chan → Chan
seen_from i ci f c = if i == ci then f c else c

pub moved :
    (f : Chan → Chan) (i : ℕ) {st st' : BotState} {ci : ℕ} {c : Chan}
    → Keeps f
    → Watched st ci c
    → st'.chans ≡ adjust f i st.chans
    → Watched st' ci (seen_from i ci f c)
moved f i {st} {st'} {ci} {c} k w e = elim (Bool-cases (i == ci)) [
  | inl same ↦
      let at : i ≡ ci = ground arith in
      let found : get_elem? st'.chans ci ≡ some (f c) =
        ap (λ l. get_elem? l ci) e
        ∙ ap (λ (n : ℕ). get_elem? (adjust f n st.chans) ci) at
        ∙ get-adjust f ci st.chans c w.listed in
      rw same (record { listed = found; stamps = (k c).0 ∙ w.stamps; counts = (k c).1 ∙ w.counts })
  | inr other ↦
      let apart : i ≢ ci = ground arith in
      let found : get_elem? st'.chans ci ≡ some c =
        ap (λ l. get_elem? l ci) e ∙ get-adjust_other f i ci st.chans apart ∙ w.listed in
      rw other (record { listed = found; stamps = w.stamps; counts = w.counts })
]

-- How a call at `t` moves the count and the stamp of the channel: `sent` if it is for this channel
-- and kind and was sent.
pub data Next (t : ℕ) (kind : ChanReq) (c c' : Chan) : Bool → Type 0 where
  same :
      retries kind c' ≡ retries kind c → asked_at kind c' ≡ asked_at kind c → Next t kind c c' false
  rested :
      asked_at kind c + chan_request_cooloff < t
      → retries kind c' ≡ 0
      → asked_at kind c' ≡ asked_at kind c
      → Next t kind c c' false
  again :
      (asked_at kind c ≡ 0) ⊎ (asked_at kind c + chan_request_retry_time ≤ t)
      → retries kind c < chan_request_max_retries
      → retries kind c' ≡ retries kind c + 1
      → asked_at kind c' ≡ t
      → Next t kind c c' true
  anew :
      (asked_at kind c ≡ 0) ⊎ (asked_at kind c + chan_request_retry_time ≤ t)
      → asked_at kind c + chan_request_cooloff < t
      → retries kind c' ≡ 1
      → asked_at kind c' ≡ t
      → Next t kind c c' true

pub note-Keeps : (k : ChanReq) (t : ℕ) → Keeps (note_request k t)
note-Keeps k t c = (
  length-set c.last_access_request (req_index k) t,
  length-set c.access_retry_count (req_index k) (retries k c + 1),
)

pub clear-Keeps : (k : ChanReq) → Keeps (clear_retries k)
clear-Keeps k c = (refl, length-set c.access_retry_count (req_index k) 0)

pub both-Keeps : (k : ChanReq) (t : ℕ) → Keeps (λ c. note_request k t (clear_retries k c))
both-Keeps k t c =
    let n = note-Keeps k t (clear_retries k c) in let z = clear-Keeps k c in (n.0 ∙ z.0, n.1 ∙ z.1)

-- The call of another kind leaves this kind alone.
pub other-retries :
    (k kind : ChanReq) (c : Chan) (v : ℕ)
    → (req_index k == req_index kind) ≡ false
    → get_or (set c.access_retry_count (req_index k) v) (req_index kind) 0 ≡ retries kind c
other-retries k kind c v h =
    get_or-set_other c.access_retry_count (req_index k) (req_index kind) v (ground arith)

pub other-asked :
    (k kind : ChanReq) (c : Chan) (v : ℕ)
    → (req_index k == req_index kind) ≡ false
    → get_or (set c.last_access_request (req_index k) v) (req_index kind) 0 ≡ asked_at kind c
other-asked k kind c v h =
    get_or-set_other c.last_access_request (req_index k) (req_index kind) v (ground arith)

pub own-retries :
    (kind : ChanReq) (c : Chan) (v : ℕ)
    → length c.access_retry_count ≡ req_kinds
    → get_or (set c.access_retry_count (req_index kind) v) (req_index kind) 0 ≡ v
own-retries kind c v h =
    get_or-set c.access_retry_count (req_index kind) v (omega (arith, kind-lt kind))

pub own-asked :
    (kind : ChanReq) (c : Chan) (v : ℕ)
    → length c.last_access_request ≡ req_kinds
    → get_or (set c.last_access_request (req_index kind) v) (req_index kind) 0 ≡ v
own-asked kind c v h =
    get_or-set c.last_access_request (req_index kind) v (omega (arith, kind-lt kind))

pub index-kind : (k kind : ChanReq) → (req_index k == req_index kind) ≡ true → k ≡ kind
index-kind ChanReq.unban ChanReq.unban h = refl
index-kind ChanReq.unban ChanReq.invite h = ground arith
index-kind ChanReq.unban ChanReq.key h = ground arith
index-kind ChanReq.invite ChanReq.unban h = ground arith
index-kind ChanReq.invite ChanReq.invite h = refl
index-kind ChanReq.invite ChanReq.key h = ground arith
index-kind ChanReq.key ChanReq.unban h = ground arith
index-kind ChanReq.key ChanReq.invite h = ground arith
index-kind ChanReq.key ChanReq.key h = refl
