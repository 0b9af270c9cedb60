-- ===== src/ChanFlood/Tracker.antt =====
-- The tracker of src/chanflood.rs as a map from hosts to their sources.
use ircbot_rs.Prelude.{
  ℕ, zero, suc, ◌+◌, ◌≡◌, refl, sym, ap, ◌∙◌, inl, inr, Bool, true, not, ◌&&◌, Option, none, some,
  List, [], ◌∷◌, arith, get_or, set, Option-cases, position, find, succ?, Bool-cases, if◌then◌else◌,
}
use ircbot_rs.Cstr.{Bytes, bytes_eq, is_empty}
use ircbot_rs.State.{FloodSrc, no_source}
use ircbot_rs.ChanFlood.{track, scan, step_source, older, or_at, at_slot}

abbrev shifted : ℕ → Option ℕ → Option ℕ
shifted i none = none
shifted i (some j) = some (i + j)

module _ {A : Type 0} (key : A → Bytes) (last : A → ℕ) (k : Bytes) where
  abbrev pub holds : A → Bool
  holds a = not (is_empty (key a)) && bytes_eq (key a) k

  shifted-succ? : (i : ℕ) (o : Option ℕ) → shifted i (succ? o) ≡ shifted (i + 1) o
  shifted-succ? i none = refl
  shifted-succ? i (some j) = ground arith

  -- The slot is the first entry of the key.
  pub scan-slot :
      (i : ℕ) (free : Option ℕ) (oldest : Option (ℕ × ℕ)) (fs : List A)
      → (scan key last k i free oldest fs).slot ≡ shifted i (position holds fs)
  unfolding scan
  scan-slot i free oldest [] = refl
  scan-slot i free oldest (f ∷ fs) =
      let free' = if is_empty (key f) then or_at free i else free in
      let oldest' = if is_empty (key f) then oldest else older i (last f) oldest in
      ground (arith, scan-slot (i + 1) free' oldest' fs, shifted-succ? i (position holds fs))

abbrev pub tracks : Bytes → FloodSrc → Bool
tracks host f = not (is_empty f.host) && bytes_eq f.host host

find-at :
    (p : FloodSrc → Bool) (fs : List FloodSrc) (i : ℕ)
    → position p fs ≡ some i
    → find p fs ≡ some (get_or fs i no_source)
find-at p [] i h = ground arith
find-at p (x ∷ xs) zero h = ground arith
find-at p (x ∷ xs) (suc i) h = ground (arith, find-at p xs i)

find-none : (p : FloodSrc → Bool) (fs : List FloodSrc) → position p fs ≡ none → find p fs ≡ none
find-none p [] h = refl
find-none p (x ∷ xs) h = ground (arith, find-none p xs)

find-holds :
    (p : FloodSrc → Bool) (fs : List FloodSrc) (f : FloodSrc) → find p fs ≡ some f → p f ≡ true
find-holds p [] f h = ground arith
find-holds p (x ∷ xs) f h = elim (Bool-cases (p x)) [
  | inl e ↦ let same : x ≡ f = ground arith in ap p (sym same) ∙ e
  | inr e ↦ find-holds p xs f (ground arith)
]

pub find-set :
    (p : FloodSrc → Bool) (fs : List FloodSrc) (i : ℕ) (v : FloodSrc)
    → position p fs ≡ some i
    → p v ≡ true
    → find p (set fs i v) ≡ some v
find-set p [] i v h k = ground arith
find-set p (x ∷ xs) zero v h k = ground arith
find-set p (x ∷ xs) (suc i) v h k = ground (arith, find-set p xs i v)

step_source-host :
    (f : FloodSrc) (kind : ℕ) (victim_auth : Bool) (n s now_ms : ℕ)
    → (step_source f kind victim_auth n s now_ms).1.host ≡ f.host
unfolding step_source
step_source-host f kind victim_auth n s now_ms = ground arith

found_slot :
    (host : Bytes) (flood : List FloodSrc) (i : ℕ)
    → position (tracks host) flood ≡ some i
    → (scan (λ f. f.host) (λ f. f.last_ms) host 0 none none flood).slot ≡ some i
found_slot host flood i h =
    scan-slot (λ f. f.host) (λ f. f.last_ms) host 0 none none flood
    ∙ ap (shifted 0) h
    ∙ ap some (omega arith)

track-at :
    (flood : List FloodSrc) (host : Bytes) (kind : ℕ) (victim_auth : Bool) (n s now_ms i : ℕ)
    → (scan (λ f. f.host) (λ f. f.last_ms) host 0 none none flood).slot ≡ some i
    → track flood host kind victim_auth n s now_ms
      ≡ at_slot flood i (step_source (get_or flood i no_source) kind victim_auth n s now_ms)
unfolding track
track-at flood host kind victim_auth n s now_ms i h = rw (track, h) refl

-- The slot of a host that is tracked.
pub track-slot :
    (flood : List FloodSrc) (host : Bytes) (kind : ℕ) (victim_auth : Bool) (n s now_ms : ℕ)
    (f : FloodSrc)
    → find (tracks host) flood ≡ some f
    → (i : ℕ) × (position (tracks host) flood ≡ some i)
      × (track flood host kind victim_auth n s now_ms
          ≡ at_slot flood i (step_source f kind victim_auth n s now_ms))
track-slot flood host kind victim_auth n s now_ms f h =
    elim (Option-cases (position (tracks host) flood)) [
      | inl e ↦ absurd (ground (arith, find-none (tracks host) flood e))
      | inr (i, e) ↦
          let slot = found_slot host flood i e in
          let held : get_or flood i no_source ≡ f =
            ground (arith, find-at (tracks host) flood i e) in
          (
            i,
            e,
            track-at flood host kind victim_auth n s now_ms i slot
                ∙ ap (λ (g : FloodSrc). at_slot flood i (step_source g kind victim_auth n s now_ms))
                    held,
          )
    ]

-- The source that the step leaves is still the host's.
pub step_source-tracks :
    (f : FloodSrc) (host : Bytes) (flood : List FloodSrc) (kind : ℕ) (victim_auth : Bool)
    (n s now_ms : ℕ)
    → find (tracks host) flood ≡ some f
    → tracks host (step_source f kind victim_auth n s now_ms).1 ≡ true
step_source-tracks f host flood kind victim_auth n s now_ms h =
    ap (λ (x : Bytes). not (is_empty x) && bytes_eq x host)
      (step_source-host f kind victim_auth n s now_ms)
    ∙ find-holds (tracks host) flood f h
