-- ===== src/ChanFlood/Tracked.antt =====
-- What an event does to a source that the tracker of src/chanflood.rs holds.
use mathlib.Core.Path.{subst}
use ircbot_rs.Prelude.{
  ℕ, zero, suc, ◌≡◌, ◌≢◌, ◌<◌, refl, sym, ap, ◌∙◌, Bool, true, false, ◌||◌, Option, none, some,
  List, [], ◌∷◌, arith, length, length-set, get_or, set, position, find, if◌then◌else◌,
}
use ircbot_rs.Cstr.{Bytes, bytes_eq}
use ircbot_rs.Cstr.Case.{bytes_eq→eq}
use ircbot_rs.State.{FloodSrc, FloodWindow, no_window}
use ircbot_rs.ChanFlood.{track, step_source, tripped, window_hit}
use ircbot_rs.ChanFlood.Tracker.{tracks, track-slot, step_source-tracks, find-set}

get_or-set_self :
    {A : Type 0} (xs : List A) (i : ℕ) (v d : A) → i < length xs → get_or (set xs i v) i d ≡ v
get_or-set_self [] i v d h = absurd (omega arith)
get_or-set_self (x ∷ xs) zero v d h = refl
get_or-set_self (x ∷ xs) (suc i) v d h = get_or-set_self xs i v d (omega (arith, h))

get_or-set_apart :
    {A : Type 0} (xs : List A) (i j : ℕ) (v d : A) → i ≢ j → get_or (set xs i v) j d ≡ get_or xs j d
get_or-set_apart [] i j v d h = refl
get_or-set_apart (x ∷ xs) zero zero v d h = absurd (h refl)
get_or-set_apart (x ∷ xs) zero (suc j) v d h = refl
get_or-set_apart (x ∷ xs) (suc i) zero v d h = refl
get_or-set_apart (x ∷ xs) (suc i) (suc j) v d h = get_or-set_apart xs i j v d (λ e. h (ap suc e))

-- What an event of a kind makes of a source `f`: `answer` is what the caller gets, and `hit` says whether
-- the window of the kind trips.
pub record Stepped (f : FloodSrc) (kind : ℕ) (victim_auth : Bool) (now_ms : ℕ) (hit : Bool)
    (window : FloodWindow) (answer : Option Bool) (f' : FloodSrc) : Type 0 where
  pub host : f'.host ≡ f.host
  pub time : f'.last_ms ≡ now_ms
  pub stepped : get_or f'.w kind no_window ≡ window
  pub windows : (k : ℕ) → kind ≢ k → get_or f'.w k no_window ≡ get_or f.w k no_window
  pub answered :
      answer ≡ (if hit then some (victim_auth || get_or f.victim_auth kind false) else none)
  pub note :
      get_or f'.victim_auth kind false
      ≡ (if hit then false else (victim_auth || get_or f.victim_auth kind false))
  pub notes : (k : ℕ) → kind ≢ k → get_or f'.victim_auth k false ≡ get_or f.victim_auth k false

tripped-Stepped :
    (f : FloodSrc) (kind : ℕ) (victim_auth : Bool) (now_ms : ℕ) (r : Bool × FloodWindow)
    → kind < length f.w
    → kind < length f.victim_auth
    → Stepped f kind victim_auth now_ms r.0 r.1
        (tripped kind
          (record f {
            last_ms = now_ms;
            victim_auth = if victim_auth then set f.victim_auth kind true else f.victim_auth;
          })
          r).0
        (tripped kind
          (record f {
            last_ms = now_ms;
            victim_auth = if victim_auth then set f.victim_auth kind true else f.victim_auth;
          })
          r).1
tripped-Stepped f kind true now_ms (true, w) h k = record {
  host = refl;
  time = refl;
  stepped = get_or-set_self f.w kind w no_window h;
  windows = λ j e. get_or-set_apart f.w kind j w no_window e;
  answered = ap some (get_or-set_self f.victim_auth kind true false k);
  note =
      get_or-set_self (set f.victim_auth kind true) kind false false
        (omega (arith, k, length-set f.victim_auth kind true));
  notes = λ j e.
      get_or-set_apart (set f.victim_auth kind true) kind j false false e
      ∙ get_or-set_apart f.victim_auth kind j true false e;
}
tripped-Stepped f kind true now_ms (false, w) h k = record {
  host = refl;
  time = refl;
  stepped = get_or-set_self f.w kind w no_window h;
  windows = λ j e. get_or-set_apart f.w kind j w no_window e;
  answered = refl;
  note = get_or-set_self f.victim_auth kind true false k;
  notes = λ j e. get_or-set_apart f.victim_auth kind j true false e;
}
tripped-Stepped f kind false now_ms (true, w) h k = record {
  host = refl;
  time = refl;
  stepped = get_or-set_self f.w kind w no_window h;
  windows = λ j e. get_or-set_apart f.w kind j w no_window e;
  answered = refl;
  note = get_or-set_self f.victim_auth kind false false k;
  notes = λ j e. get_or-set_apart f.victim_auth kind j false false e;
}
tripped-Stepped f kind false now_ms (false, w) h k = record {
  host = refl;
  time = refl;
  stepped = get_or-set_self f.w kind w no_window h;
  windows = λ j e. get_or-set_apart f.w kind j w no_window e;
  answered = refl;
  note = refl;
  notes = λ j e. refl;
}

step_source-Stepped :
    (f : FloodSrc) (kind : ℕ) (victim_auth : Bool) (n s now_ms : ℕ)
    → kind < length f.w
    → kind < length f.victim_auth
    → Stepped f kind victim_auth now_ms
        (window_hit (get_or f.w kind no_window) n s now_ms).0
        (window_hit (get_or f.w kind no_window) n s now_ms).1
        (step_source f kind victim_auth n s now_ms).0
        (step_source f kind victim_auth n s now_ms).1
unfolding step_source
step_source-Stepped f kind victim_auth n s now_ms h k =
    tripped-Stepped f kind victim_auth now_ms (window_hit (get_or f.w kind no_window) n s now_ms) h
      k

find-set_apart :
    (p q : FloodSrc → Bool) (fs : List FloodSrc) (i : ℕ) (v : FloodSrc)
    → position p fs ≡ some i
    → ((x : FloodSrc) → p x ≡ true → q x ≡ false)
    → p v ≡ true
    → find q (set fs i v) ≡ find q fs
find-set_apart p q [] i v h apart k = refl
find-set_apart p q (x ∷ xs) zero v h apart k =
    let new : q v ≡ false = apart v k in
    let old : q x ≡ false = apart x (ground arith) in rw (new, old) refl
find-set_apart p q (x ∷ xs) (suc i) v h apart k = ground (arith, find-set_apart p q xs i v)

other_host :
    (host other : Bytes)
    → bytes_eq host other ≡ false
    → (x : FloodSrc) → tracks host x ≡ true
    → tracks other x ≡ false
other_host host other e x h =
    let same : x.host ≡ host = bytes_eq→eq x.host host (ground arith) in
    let differ : bytes_eq x.host other ≡ false = ap (λ b. bytes_eq b other) same ∙ e in
    ground (arith, differ)

-- What the tracker holds after an event of a host whose source was `f`.
pub record Tracked (flood : List FloodSrc) (host : Bytes) (f : FloodSrc) (kind : ℕ)
    (victim_auth : Bool) (n s now_ms : ℕ) (r : Option Bool × List FloodSrc) : Type 0 where
  pub source : FloodSrc
  pub found : find (tracks host) r.1 ≡ some source
  pub step :
      Stepped f kind victim_auth now_ms
        (window_hit (get_or f.w kind no_window) n s now_ms).0
        (window_hit (get_or f.w kind no_window) n s now_ms).1
        r.0
        source
  pub others :
      (other : Bytes)
      → bytes_eq host other ≡ false
      → find (tracks other) r.1 ≡ find (tracks other) flood

-- An event of a host that is tracked: the source takes the time, the window of the kind steps and no other
-- one does; an authorised victim is noted, the answer of a trip tells of it, and the trip takes the note
-- back; the sources of all other hosts are as they were.
pub track-Tracked :
    (flood : List FloodSrc) (host : Bytes) (kind : ℕ) (victim_auth : Bool) (n s now_ms : ℕ)
    (f : FloodSrc)
    → find (tracks host) flood ≡ some f
    → kind < length f.w
    → kind < length f.victim_auth
    → Tracked flood host f kind victim_auth n s now_ms
        (track flood host kind victim_auth n s now_ms)
track-Tracked flood host kind victim_auth n s now_ms f h l m =
    let (i, e, at) = track-slot flood host kind victim_auth n s now_ms f h in
    let stepped : FloodSrc = (step_source f kind victim_auth n s now_ms).1 in
    let same : tracks host stepped ≡ true =
      step_source-tracks f host flood kind victim_auth n s now_ms h in
    subst (Tracked flood host f kind victim_auth n s now_ms) (sym at) (record {
      source = stepped;
      found = find-set (tracks host) flood i stepped e same;
      step = step_source-Stepped f kind victim_auth n s now_ms l m;
      others = λ other differ.
          find-set_apart (tracks host) (tracks other) flood i stepped e
            (other_host host other differ) same;
    })
