-- ===== src/ChanFlood/Window.antt =====
-- When the window of src/chanflood.rs trips.
use mathlib.Core.Path.{subst}
use ircbot_rs.Prelude.{
  ℕ, zero, suc, ◌+◌, ◌*◌, ◌≤◌, ◌<◌, ◌≡◌, refl, sym, ap, ◌∙◌, ◌⊎◌, inl, inr, Bool, true, false, List,
  [], ◌∷◌, ◌++◌, arith, length, take, replicate, All,
}
use ircbot_rs.State.{FloodWindow, no_window}
use ircbot_rs.ChanFlood.{opened, window_hit}

-- The window after a history of events, the newest first.
unfoldable pub after : ℕ → ℕ → List ℕ → FloodWindow
after n s [] = no_window
after n s (t ∷ ts) = (window_hit (after n s ts) n s t).1

-- A clock that does not run backwards.
abbrev pub IsMonotonic : List ℕ → Type 0
IsMonotonic [] = Unit
IsMonotonic (t ∷ ts) = All (λ (u : ℕ). u ≤ t) ts × IsMonotonic ts

record Holds (n : ℕ) (w : FloodWindow) (ts : List ℕ) : Type 0 where
  counted : w.count ≤ length ts
  bounded : w.count ≤ n
  since : All (λ (t : ℕ). w.start_ms ≤ t) (take w.count ts)

All-take-le :
    (start t k : ℕ) (ts : List ℕ)
    → 0 < k
    → k ≤ length ts
    → All (λ (u : ℕ). start ≤ u) (take k ts)
    → All (λ (u : ℕ). u ≤ t) ts
    → start ≤ t
All-take-le start t zero ts p l h g = ground arith
All-take-le start t (suc k) [] p l h g = ground arith
All-take-le start t (suc k) (u ∷ ts) p l h g = omega (arith, h.0, g.0)

-- An event trips the flood, opens a window, or counts in the one that is open.
window_hit-cases :
    (w : FloodWindow) (n s t : ℕ)
    → ((window_hit w n s t).1.count ≡ 0)
      ⊎ (((window_hit w n s t).1.count ≡ 1) × ((window_hit w n s t).1.start_ms ≡ t) × (1 ≤ n))
      ⊎ (((window_hit w n s t).1.count ≡ suc w.count)
          × ((window_hit w n s t).1.start_ms ≡ w.start_ms)
          × (0 < w.count)
          × (suc w.count ≤ n))
unfolding window_hit opened
window_hit-cases w n s t = ground arith

abbrev Since : FloodWindow → List ℕ → Type 0
Since w ts = All (λ (t : ℕ). w.start_ms ≤ t) (take w.count ts)

Since-eq :
    (w : FloodWindow) (start count : ℕ) (ts : List ℕ)
    → w.count ≡ count
    → w.start_ms ≡ start
    → All (λ (t : ℕ). start ≤ t) (take count ts)
    → Since w ts
Since-eq w start count ts c e h =
    subst (λ (x : ℕ). All (λ (t : ℕ). w.start_ms ≤ t) (take x ts)) (sym c)
      (subst (λ (x : ℕ). All (λ (t : ℕ). x ≤ t) (take count ts)) (sym e) h)

step-Holds :
    (n s t : ℕ) (w : FloodWindow) (ts : List ℕ)
    → Holds n w ts
    → All (λ (u : ℕ). u ≤ t) ts
    → Holds n (window_hit w n s t).1 (t ∷ ts)
step-Holds n s t w ts h m = elim (window_hit-cases w n s t) [
  | inl e ↦ record {
    counted = omega arith;
    bounded = omega arith;
    since = Since-eq _ (window_hit w n s t).1.start_ms 0 (t ∷ ts) e refl tt;
  }
  | inr (inl (c, e, p)) ↦ record {
    counted = omega arith;
    bounded = omega arith;
    since = Since-eq _ t 1 (t ∷ ts) c e (omega arith, tt);
  }
  | inr (inr (c, e, p, q)) ↦ record {
    counted = omega (arith, h.counted);
    bounded = omega arith;
    since =
        Since-eq _ w.start_ms (suc w.count) (t ∷ ts) c e
          (All-take-le w.start_ms t w.count ts p h.counted h.since m, h.since);
  }
]

after-Holds : (n s : ℕ) (ts : List ℕ) → IsMonotonic ts → Holds n (after n s ts) ts
unfolding after
after-Holds n s [] m = record { counted = omega arith; bounded = omega arith; since = tt }
after-Holds n s (t ∷ ts) m = step-Holds n s t (after n s ts) ts (after-Holds n s ts m.1) m.0

-- A trip closes a window of n events that is open.
window_hit-trip :
    (w : FloodWindow) (n s t : ℕ)
    → w.count ≤ n
    → 0 < n
    → (window_hit w n s t).0 ≡ true
    → (w.count ≡ n) × (t < w.start_ms + s * 1000)
unfolding window_hit opened
window_hit-trip w n s t b p h = ground arith

All-take-weaken :
    (start now s k : ℕ) (ts : List ℕ)
    → now < start + s * 1000
    → All (λ (t : ℕ). start ≤ t) (take k ts)
    → All (λ (t : ℕ). now < t + s * 1000) (take k ts)
All-take-weaken start now s zero ts l h = tt
All-take-weaken start now s (suc k) [] l h = tt
All-take-weaken start now s (suc k) (t ∷ ts) l h =
    (omega (arith, h.0), All-take-weaken start now s k ts l h.1)

-- On a clock that does not run backwards, a flood of limit n:s with n above 0 trips only on an
-- event whose n predecessors all came less than s seconds before it.
pub trip-recent :
    (n s now : ℕ) (ts : List ℕ)
    → 0 < n
    → IsMonotonic (now ∷ ts)
    → (window_hit (after n s ts) n s now).0 ≡ true
    → (n ≤ length ts) × All (λ (t : ℕ). now < t + s * 1000) (take n ts)
trip-recent n s now ts p m h =
    let held : Holds n (after n s ts) ts = after-Holds n s ts m.1 in
    let (full, recent) = window_hit-trip (after n s ts) n s now held.bounded p h in
    (
      omega (arith, held.counted),
      subst (λ (x : ℕ). All (λ (t : ℕ). now < t + s * 1000) (take x ts)) full
          (All-take-weaken _ now s _ ts recent held.since),
    )

-- The answers to a run of events, the oldest first.
unfoldable pub answers : FloodWindow → ℕ → ℕ → List ℕ → List Bool
answers w n s [] = []
answers w n s (t ∷ ts) = (window_hit w n s t).0 ∷ answers (window_hit w n s t).1 n s ts

window_hit-open :
    (w : FloodWindow) (n s t : ℕ)
    → 0 < w.count
    → t < w.start_ms + s * 1000
    → (w.count < n → (window_hit w n s t) ≡ (false, record w { count = suc w.count }))
      × (w.count ≡ n → (window_hit w n s t).0 ≡ true)
unfolding window_hit opened
window_hit-open w n s t p l = ground arith

burst_from :
    (k n s : ℕ) (w : FloodWindow) (ts : List ℕ)
    → 0 < w.count
    → w.count + k ≡ n
    → length ts ≡ suc k
    → All (λ (t : ℕ). t < w.start_ms + s * 1000) ts
    → answers w n s ts ≡ replicate k false ++ true ∷ []
unfolding answers
burst_from k n s w [] p c l h = ground arith
burst_from zero n s w (t ∷ []) p c l h = ground (arith, window_hit-open w n s t)
burst_from zero n s w (t ∷ u ∷ ts) p c l h = ground arith
burst_from (suc k) n s w (t ∷ ts) p c l h =
    let (step, _) = window_hit-open w n s t p h.0 in
    let step' : window_hit w n s t ≡ (false, record w { count = suc w.count }) =
      step (omega arith) in
    ap (λ (r : Bool × FloodWindow). r.0 ∷ answers r.1 n s ts) step'
    ∙ ap (λ (a : List Bool). false ∷ a)
        (burst_from k n s (record w { count = suc w.count }) ts (omega arith) (omega arith)
          (omega arith) h.1)

first_event :
    (n s t : ℕ) → 0 < n → window_hit no_window n s t ≡ (false, record { start_ms = t; count = 1 })
unfolding window_hit opened
first_event n s t p = ground arith

-- With n above 0, of n + 1 events on a fresh window, all less than s seconds after the first, the
-- last one trips and no other does.
pub answers-burst :
    (n s t : ℕ) (ts : List ℕ)
    → 0 < n
    → length ts ≡ n
    → All (λ (u : ℕ). u < t + s * 1000) ts
    → answers no_window n s (t ∷ ts) ≡ replicate n false ++ true ∷ []
unfolding answers
answers-burst zero s t ts p l h = ground arith
answers-burst (suc n) s t ts p l h =
    ap (λ (r : Bool × FloodWindow). r.0 ∷ answers r.1 (suc n) s ts) (first_event (suc n) s t p)
    ∙ ap (λ (a : List Bool). false ∷ a)
        (burst_from n (suc n) s (record { start_ms = t; count = 1 }) ts (omega arith) (omega arith)
          l h)
