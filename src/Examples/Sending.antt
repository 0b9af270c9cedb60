-- ===== src/Examples/Sending.antt =====
-- The output queue of src/sendq.rs at small inputs.
use ircbot_rs.Prelude.{
  ℕ, ◌+◌, ◌-◌, ◌*◌, ◌≤◌, ◌≡◌, refl, inl, true, some, List, [], ◌∷◌, arith, replicate, length, ◌++◌,
  All, false,
}
use ircbot_rs.Cstr.{Bytes, codes, eq_ic}
use ircbot_rs.Queue.{crlf, SendQ, Output, Socket, drain, enqueue, stored, max_sendq}
use ircbot_rs.Queue.Modes.{ModeItem, lane_of, take_items, pack}
use ircbot_rs.Queue.Reading.{change, read_mode}
use ircbot_rs.Queue.Width.{length-pack-take_items}
use ircbot_rs.Queue.Packing.{Parsed, pack-read_mode}
use ircbot_rs.Queue.Invariant.{IsValid}
use ircbot_rs.Queue.Runs.{Call, run, fresh, run-IsValid}
use ircbot_rs.Queue.Pacing.{drain_rate, drain_end, Ended}
use ircbot_rs.Queue.Lanes.{drain_priority}
use ircbot_rs.Queue.Room.{Yields, enqueue-Yields}

abbrev open_socket : Socket
open_socket taken line = true

abbrev privmsg : Bytes
privmsg = codes "PRIVMSG a :b"

abbrev pong : Bytes
pong = codes "PONG x"

abbrev calls : List Call
calls =
    Call.hold ∷ Call.enqueue 0 privmsg ∷ Call.enqueue 1 pong ∷ Call.release 2 ∷ Call.drain 900 ∷ []

run-IsValid_example : IsValid (run open_socket (fresh 0) calls).q
run-IsValid_example = run-IsValid open_socket 0 calls

abbrev waiting : List Bytes → List Bytes → ℕ → ℕ → ℕ → Output
waiting first others total credit held = record (fresh 0) {
  q = record {
    proto_lane = first;
    prot_lane = [];
    rest_lane = others;
    total = total;
    burst = 10;
    interval_ms = 100;
    credit_ms = credit;
    last_ms = 0;
    dropped = 0;
    hold = held;
  };
}

abbrev two_lines : Output
two_lines = waiting (codes "PONG x\r\n" ∷ []) (codes "WHO #a\r\n" ∷ []) 2 150 0

drain_rate_example :
    ((drain open_socket 20 two_lines).0 * 100 ≤ 150 + (20 - 0))
    × ((drain open_socket 20 two_lines).0 * 100 ≤ 10 * 100)
drain_rate_example = drain_rate open_socket 20 two_lines

abbrev queued : Output
queued = run open_socket (fresh 0) (Call.hold ∷ Call.enqueue 0 privmsg ∷ Call.enqueue 1 pong ∷ [])

drain_end_example : Ended (drain open_socket 20 queued).1
drain_end_example =
    drain_end open_socket 20 queued
      (run-IsValid open_socket 0 (Call.hold ∷ Call.enqueue 0 privmsg ∷ Call.enqueue 1 pong ∷ []))

-- Credit for one of two protocol lines.
abbrev short_credit : Output
short_credit =
    waiting (codes "PONG x\r\n" ∷ codes "PONG y\r\n" ∷ []) (codes "WHO #a\r\n" ∷ []) 3 150 0

one_left : (drain open_socket 20 short_credit).1.proto_lane ≡ codes "PONG y\r\n" ∷ []
unfolding drain ircbot_rs.Queue.drain_loop ircbot_rs.Queue.turn ircbot_rs.Queue.refill
    ircbot_rs.Queue.after_pop ircbot_rs.Queue.next_line ircbot_rs.Queue.lane_pop
    ircbot_rs.Queue.write_raw
one_left = refl

drain_priority_example : (drain open_socket 20 short_credit).1.rest_lane ≡ codes "WHO #a\r\n" ∷ []
drain_priority_example = drain_priority open_socket 20 short_credit (inl (ground (arith, one_left)))

abbrev full_queue : Output
full_queue = waiting (replicate 256 (codes "PONG x\r\n")) [] 256 0 1

-- A full queue of kicks, to which a message comes.
abbrev kicks : Output
kicks = record full_queue {
  q = record full_queue.q { proto_lane = []; prot_lane = replicate 256 (codes "KICK #a x\r\n") };
}

enqueue-Yields_example :
    Yields
      (lane_of privmsg)
      privmsg
      kicks.q
      (enqueue open_socket 0 privmsg kicks).0
      (enqueue open_socket 0 privmsg kicks).1.q
enqueue-Yields_example = enqueue-Yields open_socket 0 privmsg kicks (omega arith) (omega arith)

abbrev held_queue : Output
held_queue = waiting (codes "PONG x\r\n" ∷ []) [] 1 0 1

pong_taken : (enqueue open_socket 0 pong held_queue).0 ≡ some 6
unfolding enqueue lane_of ircbot_rs.Queue.queue_line ircbot_rs.Queue.make_room
pong_taken = refl

-- Three changes of one channel are taken, the query behind them is not.
abbrev mode_lines : List Bytes
mode_lines =
    codes "MODE #a +b x!y@z\r\n"
    ∷ codes "MODE #A +o nick\r\n"
    ∷ codes "MODE #a -m\r\n"
    ∷ codes "MODE #a b\r\n"
    ∷ []

abbrev set_ban : ModeItem
set_ban = record {
  chan = codes "#a";
  sign = b'+';
  letter = b'b';
  arg = codes "x!y@z";
  has_arg = true;
}

abbrev give_op : ModeItem
give_op = record {
  chan = codes "#A";
  sign = b'+';
  letter = b'o';
  arg = codes "nick";
  has_arg = true;
}

abbrev unmoderate : ModeItem
unmoderate = record { chan = codes "#a"; sign = b'-'; letter = b'm'; arg = []; has_arg = false }

three_taken : take_items 4 mode_lines ≡ set_ban ∷ give_op ∷ unmoderate ∷ []
unfolding take_items
three_taken = refl

three_packed : pack set_ban (give_op ∷ unmoderate ∷ []) ≡ codes "MODE #a +bo-m x!y@z nick\r\n"
unfolding pack
three_packed = refl

pack-read_mode_example :
    Parsed (set_ban ∷ give_op ∷ unmoderate ∷ []) mode_lines
    × All (λ it. eq_ic it.chan (codes "#a") ≡ true) (give_op ∷ unmoderate ∷ [])
    × ((body : Bytes) × (pack set_ban (give_op ∷ unmoderate ∷ []) ≡ body ++ crlf)
        × (read_mode body
            ≡ some (codes "#a", change set_ban ∷ change give_op ∷ change unmoderate ∷ [])))
pack-read_mode_example = pack-read_mode 4 mode_lines set_ban (give_op ∷ unmoderate ∷ []) three_taken

length-pack-take_items_example :
    (length (pack set_ban (give_op ∷ unmoderate ∷ [])) ≤ 402)
    × (length (set_ban ∷ give_op ∷ unmoderate ∷ []) ≤ 4)
length-pack-take_items_example =
    length-pack-take_items 4 mode_lines set_ban give_op (unmoderate ∷ []) three_taken
