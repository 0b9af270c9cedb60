-- ===== src/Queue/Pacing.antt =====
-- How fast and how far a drain of src/sendq.rs goes.
use mathlib.Core.Path.{subst}
use ircbot_rs.Prelude.{
  ℕ, zero, suc, ◌+◌, ◌-◌, ◌*◌, ◌≤◌, ◌<◌, ◌≡◌, ◌≢◌, refl, ◌⊎◌, inl, Bool, true, false, Option, none,
  some, List, [], ◌∷◌, arith, length,
}
use ircbot_rs.Cstr.{Bytes}
use ircbot_rs.Queue
use ircbot_rs.Queue.{
  SendQ, Output, Socket, Turn, stop, wrote, after_turn, lane_pop, pop_from, lane, set_lane,
  pop_times, take_packed, take_protection, next_line, write_raw, after_write, after_pop, pay, turn,
  drain_loop, drain, refill, clear,
}
use ircbot_rs.Queue.Modes.{Lane, proto, prot, rest, ModeItem, take_items}
use ircbot_rs.Queue.Invariant.{IsValid, turn_output, turn-IsValid, refill-IsValid}

-- ---- the rate ----

-- A popped line leaves the pacing as it is.
abbrev SamePace : SendQ → SendQ → Type 0
SamePace a b = (b.credit_ms ≡ a.credit_ms) × (b.interval_ms ≡ a.interval_ms)

lane_pop-SamePace : (w : Lane) (q : SendQ) → SamePace q (lane_pop w q).1
unfolding lane_pop
lane_pop-SamePace w q = go w (lane w q)
  where
    go : (w : Lane) (l : List Bytes) → SamePace q (pop_from w q l).1
    go w [] = (refl, refl)
    go proto (s ∷ l) = (refl, refl)
    go prot (s ∷ l) = (refl, refl)
    go rest (s ∷ l) = (refl, refl)

pop_times-SamePace : (n : ℕ) (q : SendQ) → SamePace q (pop_times n q)
unfolding pop_times
pop_times-SamePace zero q = (refl, refl)
pop_times-SamePace (suc n) q =
    ground (arith, lane_pop-SamePace prot q, pop_times-SamePace n (lane_pop prot q).1)

take_packed-SamePace : (items : List ModeItem) (q : SendQ) → SamePace q (take_packed items q).1
unfolding take_packed
take_packed-SamePace [] q = lane_pop-SamePace prot q
take_packed-SamePace (first ∷ more) q = pop_times-SamePace (length (first ∷ more)) q

next_line-SamePace : (o : Output) → SamePace o.q (next_line o).1
unfolding next_line take_protection
next_line-SamePace o = ground (
  arith,
  lane_pop-SamePace proto o.q,
  lane_pop-SamePace rest o.q,
  take_packed-SamePace (take_items (Queue.modes_limit o.isup_modes) o.prot_lane) o.q,
)

-- A round that goes on pays for its line.
abbrev Paid : Output → Turn → Type 0
Paid o (stop o') = Unit
Paid o (wrote o') = (o'.credit_ms + o.interval_ms ≡ o.credit_ms) × (o'.interval_ms ≡ o.interval_ms)

write_raw_keeps :
    (socket : Socket) (now : ℕ) (line : Bytes) (o : Output)
    → (write_raw socket now line o).0 ≡ true
    → (write_raw socket now line o).1.q ≡ o.q
unfolding write_raw clear
write_raw_keeps socket now line o h = ground arith

after_write-Paid :
    (o o₁ : Output) (w : Bool × Output)
    → o.interval_ms ≤ o.credit_ms
    → SamePace o.q o₁.q
    → (w.0 ≡ true → w.1.q ≡ pay o₁.q)
    → Paid o (after_write w)
after_write-Paid o o₁ (false, o₂) h s k = tt
after_write-Paid o o₁ (true, o₂) h s k = let e : o₂.q ≡ pay o₁.q = k refl in ground arith

after_pop-Paid :
    (socket : Socket) (now : ℕ) (o : Output) (r : Option Bytes) (q : SendQ)
    → o.interval_ms ≤ o.credit_ms
    → SamePace o.q q
    → Paid o (after_pop socket now o (r, q))
unfolding after_pop
after_pop-Paid socket now o none q h s = tt
after_pop-Paid socket now o (some line) q h s =
    after_write-Paid o (record o { q = q }) _ h s (write_raw_keeps socket now line _)

turn-Paid : (socket : Socket) (now : ℕ) (o : Output) → Paid o (turn socket now o)
unfolding turn
turn-Paid socket now o =
    ground
      (arith, after_pop-Paid socket now o (next_line o).0 (next_line o).1, next_line-SamePace o)

after_turn-rate :
    (o : Output) (t : Turn) (sent : ℕ) (next : Output → ℕ → ℕ × Output)
    → Paid o t
    → ((o' : Output) (n : ℕ) → (next o' n).0 * o'.interval_ms ≤ n * o'.interval_ms + o'.credit_ms)
    → (after_turn t sent next).0 * o.interval_ms ≤ sent * o.interval_ms + o.credit_ms
after_turn-rate o (stop o') sent next p ih = omega arith
after_turn-rate o (wrote o') sent next (c, i) ih =
    let k =
      subst (λ (x : ℕ). (next o' (sent + 1)).0 * x ≤ (sent + 1) * x + o'.credit_ms) i
        (ih o' (sent + 1)) in
    omega (arith, k)

drain_loop-rate :
    (fuel : ℕ) (socket : Socket) (now : ℕ) (o : Output) (sent : ℕ)
    → (drain_loop fuel socket now o sent).0 * o.interval_ms ≤ sent * o.interval_ms + o.credit_ms
unfolding drain_loop
drain_loop-rate zero socket now o sent = omega arith
drain_loop-rate (suc fuel) socket now o sent =
    after_turn-rate o (turn socket now o) sent _ (turn-Paid socket now o)
      (drain_loop-rate fuel socket now)

-- A drain writes no more lines than the credit pays for: one line costs `interval_ms`, and what is
-- there to spend is the stored credit with the time since the last refill, and at most a full burst.
pub drain_rate :
    (socket : Socket) (now : ℕ) (o : Output)
    → ((drain socket now o).0 * o.interval_ms ≤ o.credit_ms + (now - o.last_ms))
      × ((drain socket now o).0 * o.interval_ms ≤ o.burst * o.interval_ms)
unfolding drain refill
drain_rate socket now o =
    ground (arith, drain_loop-rate o.total socket now (record o { q = refill now o.q }) 0)

-- ---- the end ----

abbrev Shorter : SendQ → Option Bytes × SendQ → Type 0
Shorter q r = (r.0 ≢ none) × (r.1.total < q.total)

pop_from-Shorter :
    (w : Lane) (q : SendQ) (l : List Bytes)
    → 0 < length l
    → 0 < q.total
    → Shorter q (pop_from w q l)
pop_from-Shorter w q [] h t = absurd (omega arith)
pop_from-Shorter w q (s ∷ l) h t = (λ e. cc, omega arith)

lane_pop-Shorter :
    (w : Lane) (q : SendQ) → 0 < length (lane w q) → 0 < q.total → Shorter q (lane_pop w q)
unfolding lane_pop
lane_pop-Shorter w q h t = pop_from-Shorter w q (lane w q) h t

lane_pop-le : (w : Lane) (q : SendQ) → (lane_pop w q).1.total ≤ q.total
unfolding lane_pop
lane_pop-le w q = go (lane w q)
  where
    go : (l : List Bytes) → (pop_from w q l).1.total ≤ q.total
    go [] = omega arith
    go (s ∷ l) = omega arith

pop_times-le : (n : ℕ) (q : SendQ) → (pop_times n q).total ≤ q.total
unfolding pop_times
pop_times-le zero q = omega arith
pop_times-le (suc n) q = omega (arith, lane_pop-le prot q, pop_times-le n (lane_pop prot q).1)

take_packed-Shorter :
    (items : List ModeItem) (q : SendQ)
    → 0 < length q.prot_lane
    → 0 < q.total
    → Shorter q (take_packed items q)
unfolding take_packed pop_times lane
take_packed-Shorter [] q h t = lane_pop-Shorter prot q h t
take_packed-Shorter (first ∷ more) q h t =
    let shorter = (lane_pop-Shorter prot q h t).1 in
    (λ e. cc, omega (arith, pop_times-le (length more) (lane_pop prot q).1))

next_line-Shorter : (o : Output) → IsValid o.q → 0 < o.total → Shorter o.q (next_line o)
unfolding next_line take_protection lane
next_line-Shorter o v t = ground (
  arith,
  lane_pop-Shorter proto o.q,
  lane_pop-Shorter rest o.q,
  take_packed-Shorter (take_items (Queue.modes_limit o.isup_modes) o.prot_lane) o.q,
)

-- Why a drain has ended.
abbrev pub Ended : Output → Type 0
Ended o =
    (o.total ≡ 0) ⊎ (o.credit_ms < o.interval_ms) ⊎ (o.connected ≡ false) ⊎ (o.has_irc ≡ false)

abbrev Progress : Output → Turn → Type 0
Progress o (stop o') = Ended o'
Progress o (wrote o') = o'.total < o.total

after_write-Progress :
    (socket : Socket) (now : ℕ) (line : Bytes) (o o₁ : Output)
    → o₁.total < o.total
    → Progress o (after_write (write_raw socket now line o₁))
unfolding write_raw clear
after_write-Progress socket now line o o₁ h = ground arith

after_pop-Progress :
    (socket : Socket) (now : ℕ) (o : Output) (r : Option Bytes) (q : SendQ)
    → Shorter o.q (r, q)
    → Progress o (after_pop socket now o (r, q))
unfolding after_pop
after_pop-Progress socket now o none q h = absurd (h.0 refl)
after_pop-Progress socket now o (some line) q h =
    after_write-Progress socket now line o (record o { q = pay q }) h.1

turn-Progress :
    (socket : Socket) (now : ℕ) (o : Output) → IsValid o.q → Progress o (turn socket now o)
unfolding turn clear
turn-Progress socket now o v =
    ground (
      arith,
      after_pop-Progress socket now o (next_line o).0 (next_line o).1,
      next_line-Shorter o v,
    )

after_turn-Ended :
    (fuel : ℕ) (o : Output) (t : Turn) (sent : ℕ) (next : Output → ℕ → ℕ × Output)
    → o.total ≤ suc fuel
    → Progress o t
    → IsValid (turn_output t).q
    → ((o' : Output) (n : ℕ) → o'.total ≤ fuel → IsValid o'.q → Ended (next o' n).1)
    → Ended (after_turn t sent next).1
after_turn-Ended fuel o (stop o') sent next l p v ih = p
after_turn-Ended fuel o (wrote o') sent next l p v ih = ih o' (sent + 1) (omega arith) v

drain_loop-Ended :
    (fuel : ℕ) (socket : Socket) (now : ℕ) (o : Output) (sent : ℕ)
    → o.total ≤ fuel
    → IsValid o.q
    → Ended (drain_loop fuel socket now o sent).1
unfolding drain_loop
drain_loop-Ended zero socket now o sent l v = inl (omega arith)
drain_loop-Ended (suc fuel) socket now o sent l v =
    after_turn-Ended fuel o (turn socket now o) sent _ l (turn-Progress socket now o v)
      (turn-IsValid socket now o v) (drain_loop-Ended fuel socket now)

-- A drain of a valid queue ends only when the queue is empty, the credit no longer pays for a
-- line, or the link is down: the rounds that the model allows are enough.
pub drain_end :
    (socket : Socket) (now : ℕ) (o : Output) → IsValid o.q → Ended (drain socket now o).1
unfolding drain
drain_end socket now o v = ground (
  arith,
  drain_loop-Ended o.total socket now (record o { q = refill now o.q }) 0
      (unfold refill in omega arith) (refill-IsValid now o.q v),
)
