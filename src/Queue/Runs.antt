-- ===== src/Queue/Runs.antt =====
-- The queue of src/sendq.rs under any sequence of its operations.
use ircbot_rs.Prelude.{ℕ, List, [], ◌∷◌, arith, true}
use ircbot_rs.Prelude.Int.{ℤ}
use ircbot_rs.Cstr.{Bytes}
use ircbot_rs.Queue.{SendQ, Output, Socket}
use ircbot_rs.Queue
use ircbot_rs.Queue.Invariant.{
  IsValid, clear-IsValid, set_limits-IsValid, next_ms-IsValid, drain-IsValid, enqueue-IsValid,
  hold-IsValid, release-IsValid,
}

-- A call, with the time at which it is made.
pub data Call : Type 0 where
  enqueue : ℕ → Bytes → Call
  drain : ℕ → Call
  hold : Call
  release : ℕ → Call
  set_limits : ℤ → ℤ → Call
  next_ms : ℕ → Call
  clear : ℕ → Call

unfoldable pub run_call : Socket → Output → Call → Output
run_call socket o (Call.enqueue now line) = (Queue.enqueue socket now line o).1
run_call socket o (Call.drain now) = (Queue.drain socket now o).1
run_call socket o Call.hold = Queue.hold o
run_call socket o (Call.release now) = Queue.release socket now o
run_call socket o (Call.set_limits b i) = record o { q = Queue.set_limits b i o.q }
run_call socket o (Call.next_ms now) = record o { q = (Queue.next_ms now o.q).1 }
run_call socket o (Call.clear now) = record o { q = Queue.clear now o.q }

unfoldable pub run : Socket → Output → List Call → Output
unfolding run_call
run socket o [] = o
run socket o (c ∷ cs) = run socket (run_call socket o c) cs

-- `SendQ::default`
abbrev pub default : ℕ → SendQ
default now = record {
  proto_lane = [];
  prot_lane = [];
  rest_lane = [];
  total = 0;
  burst = 10;
  interval_ms = 100;
  credit_ms = 1000;
  last_ms = now;
  dropped = 0;
  hold = 0;
}

abbrev pub fresh : ℕ → Output
fresh now = record { q = default now; connected = true; has_irc = true; isup_modes = 3; sent = [] }

run_call-IsValid :
    (socket : Socket) (o : Output) (c : Call) → IsValid o.q → IsValid (run_call socket o c).q
unfolding run_call
run_call-IsValid socket o (Call.enqueue now line) v = enqueue-IsValid socket now line o v
run_call-IsValid socket o (Call.drain now) v = drain-IsValid socket now o v
run_call-IsValid socket o Call.hold v = hold-IsValid o v
run_call-IsValid socket o (Call.release now) v = release-IsValid socket now o v
run_call-IsValid socket o (Call.set_limits b i) v = set_limits-IsValid b i o.q v
run_call-IsValid socket o (Call.next_ms now) v = next_ms-IsValid now o.q v
run_call-IsValid socket o (Call.clear now) v = clear-IsValid now o.q v

run-IsValid_from :
    (socket : Socket) (o : Output) (cs : List Call) → IsValid o.q → IsValid (run socket o cs).q
unfolding run
run-IsValid_from socket o [] v = v
run-IsValid_from socket o (c ∷ cs) v =
    run-IsValid_from socket (run_call socket o c) cs (run_call-IsValid socket o c v)

-- From a new queue, after any calls and whatever the socket does: `total` counts the lines of the
-- three lanes and is at most 256, every queued line is a body of at most 510 bytes with its CRLF, no
-- line is twice in the protection lane, the limits are in their ranges, and the credit is at most
-- `burst * interval_ms`.
pub run-IsValid :
    (socket : Socket) (now : ℕ) (cs : List Call) → IsValid (run socket (fresh now) cs).q
run-IsValid socket now cs = run-IsValid_from socket (fresh now) cs (omega arith)
