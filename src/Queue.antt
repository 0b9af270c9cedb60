-- ===== src/Queue.antt =====
-- src/sendq.rs: the output queue of the IRC link, three lanes behind a token bucket.
pub mod Modes
pub mod Stored
pub mod Invariant
pub mod Runs
pub mod Lanes
pub mod Room
pub mod Pacing
pub mod Reading
pub mod Packing
pub mod Width
use ircbot_rs.Prelude.{
  ℕ, zero, suc, ◌+◌, ◌-◌, ◌*◌, min, Bool, true, false, not, ◌&&◌, ◌||◌, Option, none, some, List,
  [], ◌∷◌, ◌++◌, ltb, leb, ◌==◌, if◌then◌else◌, length, take, drop, any,
}
use ircbot_rs.Prelude.Int.{ℤ, clamp}
use ircbot_rs.Cstr.{Bytes, bytes_eq}
use ircbot_rs.Queue.Modes.{
  Lane, proto, prot, rest, lane_of, take_items, pack, mode_item_parse, ModeItem,
}

abbrev pub max_sendq : ℕ
max_sendq = 256

abbrev pub sendq_line_max : ℕ
sendq_line_max = 510

abbrev pub min_burst : ℕ
min_burst = 1

abbrev pub max_burst : ℕ
max_burst = 100

abbrev pub min_interval_ms : ℕ
min_interval_ms = 0

abbrev pub max_interval_ms : ℕ
max_interval_ms = 10000

abbrev pub isupport_modes_default : ℕ
isupport_modes_default = 3

abbrev pub isupport_modes_max : ℕ
isupport_modes_max = 12

-- `SendQ` of src/state.rs; the array `q` of three lanes as three fields.
pub record SendQ : Type 0 where
  pub proto_lane : List Bytes
  pub prot_lane : List Bytes
  pub rest_lane : List Bytes
  pub total : ℕ
  pub burst : ℕ
  pub interval_ms : ℕ
  pub credit_ms : ℕ
  pub last_ms : ℕ
  pub dropped : ℕ
  pub hold : ℕ

-- What the queue uses of `BotState`: itself, S_CONNECTED, whether `irc` is there, the server's
-- MODES=, and what was written.
pub record Output : Type 0 where
  pub q : SendQ
  pub open q use *
  pub connected : Bool
  pub has_irc : Bool
  pub isup_modes : ℕ
  pub sent : List Bytes

-- Does the socket take this line, after those that it took? The code under `IrcConn::queue` decides.
abbrev pub Socket : Type 0
Socket = List Bytes → Bytes → Bool

-- `now` is the value of `mono_ms`.
unfoldable pub clear : ℕ → SendQ → SendQ
clear now q = record q {
  proto_lane = [];
  prot_lane = [];
  rest_lane = [];
  total = 0;
  credit_ms = q.burst * q.interval_ms;
  last_ms = now;
}

unfoldable pub set_limits : ℤ → ℤ → SendQ → SendQ
set_limits burst interval_ms q =
    let b = clamp min_burst max_burst burst in
    let i = clamp min_interval_ms max_interval_ms interval_ms in
    record q {
      burst = b;
      interval_ms = i;
      credit_ms = if ltb (b * i) q.credit_ms then b * i else q.credit_ms;
    }

unfoldable pub refill : ℕ → SendQ → SendQ
refill now q =
    let cap = q.burst * q.interval_ms in
    let credit = if ltb q.last_ms now then q.credit_ms + (now - q.last_ms) else q.credit_ms in
    record q { last_ms = now; credit_ms = if ltb cap credit then cap else credit }

-- `none` is -1: nothing is queued.
unfoldable pub next_ms : ℕ → SendQ → Option ℕ × SendQ
unfolding refill
next_ms now q =
    if q.total == 0
    then (none, q)
    else (let r = refill now q in
        (if leb r.interval_ms r.credit_ms then some 0 else some (r.interval_ms - r.credit_ms), r))

unfoldable pub lane : Lane → SendQ → List Bytes
lane proto q = q.proto_lane
lane prot q = q.prot_lane
lane rest q = q.rest_lane

unfoldable pub set_lane : Lane → List Bytes → SendQ → SendQ
set_lane proto l q = record q { proto_lane = l }
set_lane prot l q = record q { prot_lane = l }
set_lane rest l q = record q { rest_lane = l }

abbrev pop_from : Lane → SendQ → List Bytes → Option Bytes × SendQ
pop_from w q [] = (none, q)
pop_from w q (s ∷ l) = (some s, record (set_lane w l q) { total = q.total - 1 })

unfoldable pub lane_pop : Lane → SendQ → Option Bytes × SendQ
unfolding lane set_lane
lane_pop w q = pop_from w q (lane w q)

abbrev is_empty_lane : List Bytes → Bool
is_empty_lane [] = true
is_empty_lane (_ ∷ _) = false

abbrev pub is_rest : Lane → Bool
is_rest rest = true
is_rest _ = false

abbrev pub is_prot : Lane → Bool
is_prot prot = true
is_prot _ = false

unfoldable pub make_room : Lane → SendQ → Bool × SendQ
make_room w q =
    if ltb q.total max_sendq
    then (true, q)
    else if not (is_empty_lane q.rest_lane)
    then (true, record (lane_pop rest q).1 { dropped = q.dropped + 1 })
    else if not (is_rest w) && not (is_empty_lane q.prot_lane)
    then (true, record (lane_pop prot q).1 { dropped = q.dropped + 1 })
    else (false, q)

-- Pops the lines that were packed.
unfoldable pub pop_times : ℕ → SendQ → SendQ
pop_times zero q = q
pop_times (suc n) q = pop_times n (lane_pop prot q).1

unfoldable pub modes_limit : ℕ → ℕ
modes_limit modes = if ltb modes 1 then isupport_modes_default else min modes isupport_modes_max

unfoldable pub take_packed : List ModeItem → SendQ → Option Bytes × SendQ
take_packed [] q = lane_pop prot q
take_packed (first ∷ more) q = (some (pack first more), pop_times (length (first ∷ more)) q)

unfoldable pub take_protection : Output → Option Bytes × SendQ
unfolding take_packed
take_protection o = take_packed (take_items (modes_limit o.isup_modes) o.prot_lane) o.q

-- The line to send next, by lane.
unfoldable pub next_line : Output → Option Bytes × SendQ
next_line o =
    if not (is_empty_lane o.proto_lane)
    then lane_pop proto o.q
    else if not (is_empty_lane o.prot_lane)
    then take_protection o
    else lane_pop rest o.q

-- `write_raw`: a write error empties the queue and drops the link.
unfoldable pub write_raw : Socket → ℕ → Bytes → Output → Bool × Output
write_raw socket now line o =
    if not o.connected
    then (false, o)
    else if not o.has_irc
    then (false, o)
    else if socket o.sent line
    then (true, record o { sent = o.sent ++ line ∷ [] })
    else (false, record o { q = clear now o.q; connected = false; has_irc = false })

-- What one round of the loop of `drain` does.
pub data Turn : Type 0 where
  stop : Output → Turn
  wrote : Output → Turn

abbrev after_write : Bool × Output → Turn
after_write (true, o) = wrote o
after_write (false, o) = stop o

abbrev pub pay : SendQ → SendQ
pay q = record q { credit_ms = q.credit_ms - q.interval_ms }

unfoldable pub after_pop : Socket → ℕ → Output → Option Bytes × SendQ → Turn
after_pop socket now o (none, q) = stop (record o { q = q })
after_pop socket now o (some line, q) =
    after_write (write_raw socket now line (record o { q = pay q }))

unfoldable pub turn : Socket → ℕ → Output → Turn
turn socket now o =
    if not (ltb 0 o.total && leb o.interval_ms o.credit_ms)
    then stop o
    else if not o.connected
    then stop (record o { q = clear now o.q })
    else after_pop socket now o (next_line o)

abbrev pub after_turn : Turn → ℕ → (Output → ℕ → ℕ × Output) → ℕ × Output
after_turn (stop o) sent next = (sent, o)
after_turn (wrote o) sent next = next o (sent + 1)

-- Every round that goes on takes a line, so `total` rounds are enough (Queue.Pacing).
unfoldable pub drain_loop : ℕ → Socket → ℕ → Output → ℕ → ℕ × Output
drain_loop zero socket now o sent = (sent, o)
drain_loop (suc fuel) socket now o sent =
    after_turn (turn socket now o) sent (λ o' n. drain_loop fuel socket now o' n)

unfoldable pub drain : Socket → ℕ → Output → ℕ × Output
drain socket now o =
    if o.total == 0
    then (0, o)
    else drain_loop o.total socket now (record o { q = refill now o.q }) 0

abbrev pub crlf : Bytes
crlf = b'\r' ∷ b'\n' ∷ []

-- The line that is stored for `line`, cut at the IRC limit.
unfoldable pub stored : Bytes → Bytes
stored line = take (min (length line - 2) sendq_line_max) line ++ crlf

unfoldable pub is_queued : Bytes → SendQ → Bool
is_queued line q =
    let body = min (length line - 2) sendq_line_max in
    any (λ w. length w == body + 2 && bytes_eq (take body w) (take body line)) q.prot_lane

unfoldable pub push_back : Lane → Bytes → SendQ → SendQ
push_back w line q = record (set_lane w (lane w q ++ line ∷ []) q) { total = q.total + 1 }

unfoldable pub queue_line : Socket → ℕ → Lane → Bytes → Output → Bool × SendQ → Option ℕ × Output
queue_line socket now w line o (false, q) =
    (none, record o { q = record q { dropped = q.dropped + 1 } })
queue_line socket now w line o (true, q) =
    let o' = record o { q = push_back w (stored line) q } in
    (some (length line), if o'.hold == 0 then (drain socket now o').1 else o')

-- `none` is -1: the line was dropped, or is no line.
unfoldable pub enqueue : Socket → ℕ → Bytes → Output → Option ℕ × Output
enqueue socket now line o =
    if ltb (length line) 2
    then (none, o)
    else if is_prot (lane_of line) && is_queued line o.q
    then (some (length line), o)
    else queue_line socket now (lane_of line) line o (make_room (lane_of line) o.q)

unfoldable pub hold : Output → Output
hold o = record o { q = record o.q { hold = o.hold + 1 } }

unfoldable pub release : Socket → ℕ → Output → Output
release socket now o =
    if ltb 0 o.hold
    then (let o' = record o { q = record o.q { hold = o.hold - 1 } } in
        if o'.hold == 0 then (drain socket now o').1 else o')
    else o
