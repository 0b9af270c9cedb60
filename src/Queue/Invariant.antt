-- ===== src/Queue/Invariant.antt =====
-- What holds of the queue of src/sendq.rs after every operation.
use ircbot_rs.Prelude.{
  ◌&&◌, zero, suc, ℕ, ◌+◌, ◌*◌, ◌≤◌, ◌≡◌, refl, ap, Bool, true, false, Option, none, some, List, [],
  ◌∷◌, All, arith, length, suc, ◌<◌, length-append, ◌≢◌,
}
use ircbot_rs.Prelude.Int.{ℤ, clamp_bounds}
use ircbot_rs.Cstr.{Bytes}
use ircbot_rs.Queue
use ircbot_rs.Queue.Stored.{IsLine, Distinct, stored-IsLine, All-push, not_queued, Distinct-push}
use ircbot_rs.Queue.{
  SendQ, Output, Socket, Turn, stop, wrote, lane, set_lane, lane_pop, pop_from, make_room,
  pop_times, take_protection, next_line, write_raw, after_pop, turn, drain_loop, drain, stored,
  push_back, queue_line, enqueue, hold, release, take_packed, after_write, ModeItem, is_queued,
}
use ircbot_rs.Queue.Modes.{Lane, proto, prot, rest, lane_of}

pub record IsValid (q : SendQ) : Type 0 where
  pub counted : q.total ≡ length q.proto_lane + length q.prot_lane + length q.rest_lane
  pub bounded : q.total ≤ Queue.max_sendq
  pub credit : q.credit_ms ≤ q.burst * q.interval_ms
  pub burst_low : 1 ≤ q.burst
  pub burst_high : q.burst ≤ Queue.max_burst
  pub interval_high : q.interval_ms ≤ Queue.max_interval_ms
  pub proto_lines : All IsLine q.proto_lane
  pub prot_lines : All IsLine q.prot_lane
  pub rest_lines : All IsLine q.rest_lane
  pub prot_distinct : Distinct q.prot_lane

pub clear-IsValid : (now : ℕ) (q : SendQ) → IsValid q → IsValid (Queue.clear now q)
unfolding Queue.clear
clear-IsValid now q v = ground arith

pub refill-IsValid : (now : ℕ) (q : SendQ) → IsValid q → IsValid (Queue.refill now q)
unfolding Queue.refill
refill-IsValid now q v = ground arith

pub set_limits-IsValid : (b i : ℤ) (q : SendQ) → IsValid q → IsValid (Queue.set_limits b i q)
unfolding Queue.set_limits
set_limits-IsValid b i q v = ground (
  arith,
  clamp_bounds Queue.min_burst Queue.max_burst b,
  clamp_bounds Queue.min_interval_ms Queue.max_interval_ms i,
)

pop_from-IsValid :
    (w : Lane) (q : SendQ) (l : List Bytes) → lane w q ≡ l → IsValid q → IsValid (pop_from w q l).1
unfolding lane set_lane
pop_from-IsValid w q [] e v = v
pop_from-IsValid proto q (s ∷ l) e v =
    let kept : All IsLine l = (rw e at v.proto_lines).1 in
    ground (arith, ap (λ (x : List Bytes). length x) e)
pop_from-IsValid prot q (s ∷ l) e v =
    let kept : All IsLine l = (rw e at v.prot_lines).1 in
    let once : Distinct l = (rw e at v.prot_distinct).1 in
    ground (arith, ap (λ (x : List Bytes). length x) e)
pop_from-IsValid rest q (s ∷ l) e v =
    let kept : All IsLine l = (rw e at v.rest_lines).1 in
    ground (arith, ap (λ (x : List Bytes). length x) e)

pub lane_pop-IsValid : (w : Lane) (q : SendQ) → IsValid q → IsValid (lane_pop w q).1
unfolding lane_pop
lane_pop-IsValid w q v = pop_from-IsValid w q (lane w q) refl v

make_room-IsValid : (w : Lane) (q : SendQ) → IsValid q → IsValid (make_room w q).1
unfolding make_room
make_room-IsValid w q v = ground (arith, lane_pop-IsValid rest q v, lane_pop-IsValid prot q v)

pop_times-IsValid : (n : ℕ) (q : SendQ) → IsValid q → IsValid (pop_times n q)
unfolding pop_times
pop_times-IsValid zero q v = v
pop_times-IsValid (suc n) q v = pop_times-IsValid n (lane_pop prot q).1 (lane_pop-IsValid prot q v)

take_packed-IsValid :
    (items : List ModeItem) (q : SendQ) → IsValid q → IsValid (take_packed items q).1
unfolding take_packed
take_packed-IsValid [] q v = lane_pop-IsValid prot q v
take_packed-IsValid (first ∷ more) q v = pop_times-IsValid (length (first ∷ more)) q v

take_protection-IsValid : (o : Output) → IsValid o.q → IsValid (take_protection o).1
unfolding take_protection
take_protection-IsValid o v = take_packed-IsValid _ o.q v

next_line-IsValid : (o : Output) → IsValid o.q → IsValid (next_line o).1
unfolding next_line
next_line-IsValid o v =
    ground (
      arith,
      lane_pop-IsValid proto o.q v,
      lane_pop-IsValid rest o.q v,
      take_protection-IsValid o v,
    )

write_raw-IsValid :
    (socket : Socket) (now : ℕ) (line : Bytes) (o : Output)
    → IsValid o.q
    → IsValid (write_raw socket now line o).1.q
unfolding write_raw
write_raw-IsValid socket now line o v = ground (arith, clear-IsValid now o.q v)

abbrev pub turn_output : Turn → Output
turn_output (stop o) = o
turn_output (wrote o) = o

after_write-IsValid : (w : Bool × Output) → IsValid w.1.q → IsValid (turn_output (after_write w)).q
after_write-IsValid (true, o) v = v
after_write-IsValid (false, o) v = v

after_pop-IsValid :
    (socket : Socket) (now : ℕ) (o : Output) (r : Option Bytes) (q : SendQ)
    → IsValid q
    → IsValid (turn_output (after_pop socket now o (r, q))).q
unfolding Queue.after_pop
after_pop-IsValid socket now o none q v = v
after_pop-IsValid socket now o (some line) q v =
    after_write-IsValid _ (write_raw-IsValid socket now line _ (ground arith))

pub turn-IsValid :
    (socket : Socket) (now : ℕ) (o : Output)
    → IsValid o.q
    → IsValid (turn_output (turn socket now o)).q
unfolding turn
turn-IsValid socket now o v = ground (
  arith,
  clear-IsValid now o.q v,
  after_pop-IsValid socket now o (next_line o).0 (next_line o).1 (next_line-IsValid o v),
)

after_turn-IsValid :
    (t : Turn) (sent : ℕ) (next : Output → ℕ → ℕ × Output)
    → IsValid (turn_output t).q
    → ((o : Output) (n : ℕ) → IsValid o.q → IsValid (next o n).1.q)
    → IsValid (Queue.after_turn t sent next).1.q
after_turn-IsValid (stop o) sent next v ih = v
after_turn-IsValid (wrote o) sent next v ih = ih o (sent + 1) v

pub drain_loop-IsValid :
    (fuel : ℕ) (socket : Socket) (now : ℕ) (o : Output) (sent : ℕ)
    → IsValid o.q
    → IsValid (drain_loop fuel socket now o sent).1.q
unfolding drain_loop
drain_loop-IsValid zero socket now o sent v = v
drain_loop-IsValid (suc fuel) socket now o sent v =
    after_turn-IsValid (turn socket now o) sent _ (turn-IsValid socket now o v)
      (drain_loop-IsValid fuel socket now)

pub drain-IsValid :
    (socket : Socket) (now : ℕ) (o : Output) → IsValid o.q → IsValid (drain socket now o).1.q
unfolding drain
drain-IsValid socket now o v = ground (
  arith,
  drain_loop-IsValid o.total socket now (record o { q = Queue.refill now o.q }) 0
      (refill-IsValid now o.q v),
)

-- The room that `make_room` promises.
make_room-lt :
    (w : Lane) (q : SendQ)
    → IsValid q
    → (make_room w q).0 ≡ true
    → (make_room w q).1.total < Queue.max_sendq
unfolding make_room lane_pop lane set_lane
make_room-lt w q v h = ground arith

push_back-IsValid :
    (w : Lane) (line : Bytes) (q : SendQ)
    → IsValid q
    → IsLine line
    → q.total < Queue.max_sendq
    → (w ≡ prot → All (λ y. y ≢ line) q.prot_lane)
    → IsValid (push_back w line q)
unfolding push_back lane set_lane
push_back-IsValid proto line q v k h u =
    ground
      (arith, All-push q.proto_lane line v.proto_lines k, length-append q.proto_lane (line ∷ []))
push_back-IsValid prot line q v k h u = ground (
  arith,
  Distinct-push q.prot_lane line v.prot_distinct (u refl),
  All-push q.prot_lane line v.prot_lines k,
  length-append q.prot_lane (line ∷ []),
)
push_back-IsValid rest line q v k h u =
    ground (arith, All-push q.rest_lane line v.rest_lines k, length-append q.rest_lane (line ∷ []))

queue_line-IsValid :
    (socket : Socket) (now : ℕ) (w : Lane) (line : Bytes) (o : Output) (r : Bool) (q : SendQ)
    → IsValid q
    → (r ≡ true → q.total < Queue.max_sendq)
    → (w ≡ prot → All (λ y. y ≢ stored line) q.prot_lane)
    → IsValid (queue_line socket now w line o (r, q)).1.q
unfolding queue_line
queue_line-IsValid socket now w line o false q v h u = ground arith
queue_line-IsValid socket now w line o true q v h u =
    let v' = push_back-IsValid w (stored line) q v (stored-IsLine line) (h refl) u in
    ground (arith, drain-IsValid socket now (record o { q = push_back w (stored line) q }) v')

make_room-absent :
    (w : Lane) (q : SendQ) (x : Bytes)
    → All (λ y. y ≢ x) q.prot_lane
    → All (λ y. y ≢ x) (make_room w q).1.prot_lane
unfolding make_room lane_pop lane set_lane
make_room-absent w q x h = ground arith

absent :
    (w : Lane) (line : Bytes) (q : SendQ)
    → (Queue.is_prot w && is_queued line q) ≡ false
    → w ≡ prot
    → All (λ y. y ≢ stored line) q.prot_lane
absent proto line q h e = cc
absent prot line q h e = not_queued line q h
absent rest line q h e = cc

queue_new-IsValid :
    (socket : Socket) (now : ℕ) (line : Bytes) (o : Output)
    → IsValid o.q
    → (Queue.is_prot (lane_of line) && is_queued line o.q) ≡ false
    → IsValid (queue_line socket now (lane_of line) line o (make_room (lane_of line) o.q)).1.q
queue_new-IsValid socket now line o v h =
    queue_line-IsValid socket now (lane_of line) line o (make_room (lane_of line) o.q).0
      (make_room (lane_of line) o.q).1 (make_room-IsValid (lane_of line) o.q v)
      (make_room-lt (lane_of line) o.q v)
      (λ e. make_room-absent (lane_of line) o.q (stored line) (absent (lane_of line) line o.q h e))

pub enqueue-IsValid :
    (socket : Socket) (now : ℕ) (line : Bytes) (o : Output)
    → IsValid o.q
    → IsValid (enqueue socket now line o).1.q
unfolding enqueue
enqueue-IsValid socket now line o v = ground (arith, queue_new-IsValid socket now line o v)

pub hold-IsValid : (o : Output) → IsValid o.q → IsValid (hold o).q
unfolding hold
hold-IsValid o v = ground arith

pub release-IsValid :
    (socket : Socket) (now : ℕ) (o : Output) → IsValid o.q → IsValid (release socket now o).q
unfolding release
release-IsValid socket now o v = ground (
  arith,
  drain-IsValid socket now (record o { q = record o.q { hold = Queue.◌-◌ o.hold 1 } })
      (ground arith),
)

pub next_ms-IsValid : (now : ℕ) (q : SendQ) → IsValid q → IsValid (Queue.next_ms now q).1
unfolding Queue.next_ms
next_ms-IsValid now q v = ground (arith, refill-IsValid now q v)
