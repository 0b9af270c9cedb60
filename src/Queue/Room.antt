-- ===== src/Queue/Room.antt =====
-- Which lines the queue of src/sendq.rs gives up for a new one.
use ircbot_rs.Prelude.{
  ℕ, ◌+◌, ◌≤◌, ◌≡◌, ◌≢◌, ◌⊎◌, refl, inl, inr, none, Option, List, [], ◌∷◌, ◌++◌, arith, length,
  drop, true, Bool-cases, ◌&&◌, length-append, suc, ltb,
}
use ircbot_rs.Cstr.{Bytes}
use ircbot_rs.Queue
use ircbot_rs.Queue.{
  SendQ, Output, Socket, lane_pop, lane, set_lane, make_room, stored, push_back, queue_line,
  enqueue, prot, is_queued, is_prot,
}
use ircbot_rs.Queue.Modes.{Lane, proto, rest, lane_of}

-- A lane as it was, or with the line behind it.
abbrev pub Kept : Bytes → List Bytes → List Bytes → Type 0
Kept line a b = (b ≡ a) ⊎ (b ≡ a ++ line ∷ [])

-- The oldest one gone, and the line behind the others if it is one of this lane.
abbrev pub Shifted : Bytes → List Bytes → List Bytes → Type 0
Shifted line a b = (a ≢ []) × Kept line (drop 1 a) b

abbrev pub waiting : SendQ → ℕ
waiting q = length q.proto_lane + length q.prot_lane + length q.rest_lane

-- What becomes of the queue for a line of lane `w`, with answer `r`.
pub record Yields (w : Lane) (line : Bytes) (a : SendQ) (r : Option ℕ) (b : SendQ) : Type 0 where
  pub first : Kept (stored line) a.proto_lane b.proto_lane
  pub second :
      Kept (stored line) a.prot_lane b.prot_lane
      ⊎ ((w ≢ rest)
          × (Queue.max_sendq ≤ a.total)
          × (a.rest_lane ≡ [])
          × Shifted (stored line) a.prot_lane b.prot_lane)
  pub third :
      Kept (stored line) a.rest_lane b.rest_lane
      ⊎ ((Queue.max_sendq ≤ a.total) × Shifted (stored line) a.rest_lane b.rest_lane)
  pub refused :
      r ≡ none
      → (Queue.max_sendq ≤ a.total) × (a.rest_lane ≡ []) × ((w ≡ rest) ⊎ (a.prot_lane ≡ []))
  pub taken :
      r ≢ none
      → ((w ≡ prot) × (is_queued line a ≡ true))
        ⊎ (lane w b ≡ lane w a ++ stored line ∷ [])
        ⊎ (lane w b ≡ drop 1 (lane w a) ++ stored line ∷ [])
  pub counted :
      ((w ≡ prot) × (is_queued line a ≡ true) × (b ≡ a))
      ⊎ (waiting b + b.dropped ≡ suc (waiting a + a.dropped))

ends :
    (socket : Socket) (now : ℕ) (w : Lane) (line : Bytes) (o : Output)
    → o.hold ≢ 0
    → (queue_line socket now w line o (make_room w o.q)).0 ≢ none
    → (lane w (queue_line socket now w line o (make_room w o.q)).1.q
        ≡ lane w o.q ++ stored line ∷ [])
      ⊎ (lane w (queue_line socket now w line o (make_room w o.q)).1.q
          ≡ drop 1 (lane w o.q) ++ stored line ∷ [])
unfolding queue_line make_room lane_pop push_back lane set_lane
ends socket now proto line o h r = ground arith
ends socket now prot line o h r = ground arith
ends socket now rest line o h r = ground arith

queue_line-Yields :
    (socket : Socket) (now : ℕ) (w : Lane) (line : Bytes) (o : Output)
    → o.hold ≢ 0
    → Yields w line o.q
        (queue_line socket now w line o (make_room w o.q)).0
        (queue_line socket now w line o (make_room w o.q)).1.q
unfolding queue_line make_room lane_pop push_back lane set_lane
queue_line-Yields socket now w line o h = record {
  first = ground arith;
  second = ground arith;
  third = ground arith;
  refused = λ r. ground arith;
  taken = λ r. inr (ends socket now w line o h r);
  counted = inr (
      ground (
        arith,
        length-append o.proto_lane (stored line ∷ []),
        length-append o.prot_lane (stored line ∷ []),
        length-append o.rest_lane (stored line ∷ []),
      ));
}

is_prot-prot : (w : Lane) → is_prot w ≡ true → w ≡ prot
is_prot-prot proto h = ground arith
is_prot-prot prot h = refl
is_prot-prot rest h = ground arith

-- A line of two bytes or more comes to a queue that is held. No protocol line is ever given up for it. A
-- protection line is given up only where the queue is full, no other line waits, and the new line is a protocol
-- or a protection line; then it is the oldest one. Of the other lines at most the oldest is given up, and only
-- where the queue is full. The line is refused only where the queue is full, no other line waits, and no
-- protection line waits or it is itself an other line. If it is not refused, it stands last in its lane, unless
-- it is a protection line that waits already, and then nothing changes; otherwise each line, the new one too,
-- waits or is counted as dropped.
pub enqueue-Yields :
    (socket : Socket) (now : ℕ) (line : Bytes) (o : Output)
    → o.hold ≢ 0
    → 2 ≤ length line
    → Yields (lane_of line) line o.q (enqueue socket now line o).0 (enqueue socket now line o).1.q
unfolding enqueue
enqueue-Yields socket now line o h l = elim (Bool-cases (ltb (length line) 2)) [
  | inl e ↦ absurd (ground arith)
  | inr e ↦ elim (Bool-cases (is_prot (lane_of line) && is_queued line o.q)) [
    | inl q ↦
        rw (e, q)
          (record {
            first = inl refl;
            second = inl (inl refl);
            third = inl (inl refl);
            refused = λ r. ground arith;
            taken = λ r. inl (ground (arith, is_prot-prot (lane_of line)));
            counted = inl (ground (arith, is_prot-prot (lane_of line)));
          })
    | inr q ↦ rw (e, q) (queue_line-Yields socket now (lane_of line) line o h)
  ]
]
