-- ===== src/ChanFlood.antt =====
-- src/chanflood.rs: the window of a flood, and the tracker of its sources.
pub mod Window
pub mod Tracker
pub mod Tracked
use ircbot_rs.Prelude.{
  ℕ, zero, suc, ◌+◌, ◌*◌, ◌≤◌, Bool, true, false, not, ◌&&◌, ◌||◌, Option, none, some, List, [],
  ◌∷◌, ltb, leb, ◌==◌, if◌then◌else◌, map, length, get_or, get_elem?, set, take, drop,
}
use ircbot_rs.Cstr.{Bytes, bytes_eq, is_empty, lower, trunc, find_byte}
use ircbot_rs.State.{FloodWindow, no_window, FloodSrc, no_source}

-- `now_ms - start_ms >= s * 1000` with the difference moved across
unfoldable pub opened : FloodWindow → ℕ → ℕ → FloodWindow
opened w s now_ms =
    if w.count == 0 || leb (w.start_ms + s * 1000) now_ms
    then record { start_ms = now_ms; count = 0 }
    else w

abbrev counted : ℕ → FloodWindow → Bool × FloodWindow
counted n w =
    if ltb n (w.count + 1) then (true, no_window) else (false, record w { count = w.count + 1 })

-- Whether the event trips the flood, and the window after it.
unfoldable pub window_hit : FloodWindow → ℕ → ℕ → ℕ → Bool × FloodWindow
unfolding opened
window_hit w n s now_ms = counted n (opened w s now_ms)

abbrev pub flood_host_max : ℕ
flood_host_max = 128

abbrev host_text : Bytes → Option Bytes
host_text host = if is_empty host then none else some (map lower (trunc host flood_host_max))

abbrev after_bang : Bytes → Option ℕ → Option Bytes
after_bang rest none = none
after_bang rest (some at) = host_text (drop (suc at) rest)

unfoldable pub src_host : Bytes → Option Bytes
src_host nuh = elim (find_byte b'!' nuh) [
  | none ↦ none
  | some bang ↦ after_bang (drop bang nuh) (find_byte b'@' (drop bang nuh))
]

-- `get_or_insert(i)`
abbrev pub or_at : Option ℕ → ℕ → Option ℕ
or_at none i = some i
or_at (some j) i = some j

abbrev pub index : Option (ℕ × ℕ) → Option ℕ
index none = none
index (some (o, _)) = some o

-- `oldest` stands with its time: entry `i` takes its place if it is older.
abbrev pub older : ℕ → ℕ → Option (ℕ × ℕ) → Option (ℕ × ℕ)
older i last none = some (i, last)
older i last (some (o, least)) = if ltb last least then some (i, last) else some (o, least)

-- The loop over a tracker, which those of src/botflood.rs share: the slot of `k`, the first free slot
-- and the one that is idle longest.
pub record Slots : Type 0 where
  pub slot : Option ℕ
  pub free : Option ℕ
  pub oldest : Option ℕ

module _ {A : Type 0} (key : A → Bytes) (last : A → ℕ) (k : Bytes) where
  unfoldable pub scan : ℕ → Option ℕ → Option (ℕ × ℕ) → List A → Slots
  scan i free oldest [] = record { slot = none; free = free; oldest = index oldest }
  scan i free oldest (f ∷ fs) =
      let free' = if is_empty (key f) then or_at free i else free in
      let oldest' = if is_empty (key f) then oldest else older i (last f) oldest in
      let rest = scan (i + 1) free' oldest' fs in
      if not (is_empty (key f)) && bytes_eq (key f) k
      then record { slot = some i; free = free; oldest = index oldest }
      else rest

-- `a.or(b)`
abbrev pub or_else : Option ℕ → Option ℕ → Option ℕ
or_else (some i) b = some i
or_else none b = b

-- The victim is noted, the window of the kind steps, and a trip takes the note back.
abbrev pub tripped : ℕ → FloodSrc → Bool × FloodWindow → Option Bool × FloodSrc
tripped kind f (false, w) = (none, record f { w = set f.w kind w })
tripped kind f (true, w) = (
  some (get_or f.victim_auth kind false),
  record f { w = set f.w kind w; victim_auth = set f.victim_auth kind false },
)

unfoldable pub step_source : FloodSrc → ℕ → Bool → ℕ → ℕ → ℕ → Option Bool × FloodSrc
unfolding window_hit
step_source f kind victim_auth n s now_ms =
    let noted = record f {
      last_ms = now_ms;
      victim_auth = if victim_auth then set f.victim_auth kind true else f.victim_auth;
    } in
    tripped kind noted (window_hit (get_or noted.w kind no_window) n s now_ms)

abbrev pub at_slot : List FloodSrc → ℕ → Option Bool × FloodSrc → Option Bool × List FloodSrc
at_slot flood i (a, f) = (a, set flood i f)

abbrev pub new_source : Bytes → FloodSrc
new_source host = record no_source { host = host }

-- The slot, and the source that it holds.
abbrev pub place : List FloodSrc → Bytes → Slots → Option (ℕ × FloodSrc)
place flood host sl = elim sl.slot [
  | some i ↦ some (i, get_or flood i no_source)
  | none ↦ elim (or_else sl.free sl.oldest) [ none ↦ none | some i ↦ some (i, new_source host) ]
]

unfoldable pub track : List FloodSrc → Bytes → ℕ → Bool → ℕ → ℕ → ℕ → Option Bool × List FloodSrc
unfolding scan step_source
track flood host kind victim_auth n s now_ms =
    elim (place flood host (scan (λ f. f.host) (λ f. f.last_ms) host 0 none none flood)) [
      | none ↦ (none, flood)
      | some (i, f) ↦ at_slot flood i (step_source f kind victim_auth n s now_ms)
    ]
