-- ===== src/Queue/Lanes.antt =====
-- Which lines of src/sendq.rs go first, and what a held queue keeps.
use ircbot_rs.Prelude.{
  zero, suc, refl, ◌∙◌, ℕ, ◌+◌, ◌≡◌, ◌≢◌, ◌⊎◌, none, [], ◌∷◌, ◌++◌, arith, length, suc, Option, inr,
  inl, List, ◌∙◌, some,
}
use ircbot_rs.Cstr.{Bytes}
use ircbot_rs.Queue
use ircbot_rs.Queue.{
  SendQ, Output, Socket, Turn, stop, wrote, after_turn, lane_pop, lane, set_lane, make_room,
  pop_times, take_packed, take_protection, next_line, write_raw, after_write, after_pop, turn,
  drain_loop, drain, refill, clear, stored, push_back, is_queued, queue_line, enqueue, take_items,
  prot, ModeItem,
}
use ircbot_rs.Queue.Invariant.{turn_output}
use ircbot_rs.Queue.Modes.{proto, rest, lane_of}

-- While the queue is held, a line of another lane leaves the protocol lane as it is, whatever it
-- takes to make room for it.
pub enqueue_proto_kept :
    (socket : Socket) (now : ℕ) (line : Bytes) (o : Output)
    → o.hold ≢ 0
    → lane_of line ≢ proto
    → (enqueue socket now line o).1.proto_lane ≡ o.proto_lane
unfolding enqueue queue_line make_room lane_pop push_back lane set_lane
enqueue_proto_kept socket now line o h e = ground arith

-- While the queue is held, a protocol line that is taken goes behind those that wait.
pub enqueue_proto_taken :
    (socket : Socket) (now : ℕ) (line : Bytes) (o : Output)
    → o.hold ≢ 0
    → lane_of line ≡ proto
    → (enqueue socket now line o).0 ≢ none
    → (enqueue socket now line o).1.proto_lane ≡ o.proto_lane ++ stored line ∷ []
unfolding enqueue queue_line make_room lane_pop push_back lane set_lane
enqueue_proto_taken socket now line o h e k = ground arith

abbrev Calm : SendQ → Type 0
Calm q = (q.proto_lane ≡ []) × (q.prot_lane ≡ [])

-- No line of the last lane is taken while another lane has one; and a lane that is empty stays so.
record Ordered (a b : SendQ) : Type 0 where
  last : (b.rest_lane ≡ a.rest_lane) ⊎ Calm b
  calm : Calm a → Calm b

Ordered-refl : (a : SendQ) → Ordered a a
Ordered-refl a = record { last = inl refl; calm = λ c. c }

Ordered-trans : (a b c : SendQ) → Ordered a b → Ordered b c → Ordered a c
Ordered-trans a b c h k = record {
  last = elim k.last [
    | inr d ↦ inr d
    | inl e ↦ elim h.last [ inl f ↦ inl (e ∙ f) | inr d ↦ inr (k.calm d) ]
  ];
  calm = λ d. k.calm (h.calm d);
}

lane_pop_proto : (q : SendQ) → Ordered q (lane_pop proto q).1
unfolding lane_pop lane set_lane
lane_pop_proto q = record { last = ground arith; calm = λ c. ground arith }

lane_pop_prot : (q : SendQ) → Ordered q (lane_pop prot q).1
unfolding lane_pop lane set_lane
lane_pop_prot q = record { last = ground arith; calm = λ c. ground arith }

lane_pop_rest : (q : SendQ) → Calm q → Ordered q (lane_pop rest q).1
unfolding lane_pop lane set_lane
lane_pop_rest q c = record { last = ground arith; calm = λ d. ground arith }

pop_times-Ordered : (n : ℕ) (q : SendQ) → Ordered q (pop_times n q)
unfolding pop_times
pop_times-Ordered zero q = Ordered-refl q
pop_times-Ordered (suc n) q =
    Ordered-trans q _ _ (lane_pop_prot q) (pop_times-Ordered n (lane_pop prot q).1)

take_packed-Ordered : (items : List ModeItem) (q : SendQ) → Ordered q (take_packed items q).1
unfolding take_packed
take_packed-Ordered [] q = lane_pop_prot q
take_packed-Ordered (first ∷ more) q = pop_times-Ordered (length (first ∷ more)) q

next_line-Ordered : (o : Output) → Ordered o.q (next_line o).1
unfolding next_line take_protection
next_line-Ordered o = ground (
  arith,
  lane_pop_proto o.q,
  lane_pop_rest o.q,
  take_packed-Ordered (take_items (Queue.modes_limit o.isup_modes) o.prot_lane) o.q,
)

after_write-Ordered :
    (socket : Socket) (now : ℕ) (line : Bytes) (o o₁ : Output)
    → Ordered o.q o₁.q
    → Ordered o.q (turn_output (after_write (write_raw socket now line o₁))).q
unfolding write_raw clear
after_write-Ordered socket now line o o₁ h = ground arith

after_pop-Ordered :
    (socket : Socket) (now : ℕ) (o : Output) (r : Option Bytes) (q : SendQ)
    → Ordered o.q q
    → Ordered o.q (turn_output (after_pop socket now o (r, q))).q
unfolding after_pop
after_pop-Ordered socket now o none q h = h
after_pop-Ordered socket now o (some line) q h =
    after_write-Ordered socket now line o (record o { q = Queue.pay q })
      (record { last = h.last; calm = h.calm })

turn-Ordered :
    (socket : Socket) (now : ℕ) (o : Output) → Ordered o.q (turn_output (turn socket now o)).q
unfolding turn clear
turn-Ordered socket now o = ground (
  arith,
  Ordered-refl o.q,
  after_pop-Ordered socket now o (next_line o).0 (next_line o).1 (next_line-Ordered o),
)

after_turn-Ordered :
    (o : Output) (t : Turn) (sent : ℕ) (next : Output → ℕ → ℕ × Output)
    → Ordered o.q (turn_output t).q
    → ((o' : Output) (n : ℕ) → Ordered o'.q (next o' n).1.q)
    → Ordered o.q (after_turn t sent next).1.q
after_turn-Ordered o (stop o') sent next h ih = h
after_turn-Ordered o (wrote o') sent next h ih = Ordered-trans o.q o'.q _ h (ih o' (sent + 1))

drain_loop-Ordered :
    (fuel : ℕ) (socket : Socket) (now : ℕ) (o : Output) (sent : ℕ)
    → Ordered o.q (drain_loop fuel socket now o sent).1.q
unfolding drain_loop
drain_loop-Ordered zero socket now o sent = Ordered-refl o.q
drain_loop-Ordered (suc fuel) socket now o sent =
    after_turn-Ordered o (turn socket now o) sent _ (turn-Ordered socket now o)
      (drain_loop-Ordered fuel socket now)

drain-Ordered : (socket : Socket) (now : ℕ) (o : Output) → Ordered o.q (drain socket now o).1.q
unfolding drain refill
drain-Ordered socket now o = ground (
  arith,
  Ordered-refl o.q,
  drain_loop-Ordered o.total socket now (record o { q = refill now o.q }) 0,
)

-- After a drain that leaves a protocol or a protection line in the queue, the lane of other lines is
-- as it was: no line of it went out before them.
pub drain_priority :
    (socket : Socket) (now : ℕ) (o : Output)
    → ((drain socket now o).1.proto_lane ≢ []) ⊎ ((drain socket now o).1.prot_lane ≢ [])
    → (drain socket now o).1.rest_lane ≡ o.rest_lane
drain_priority socket now o h = ground (arith, (drain-Ordered socket now o).last)
