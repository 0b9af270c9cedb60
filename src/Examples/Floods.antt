-- ===== src/Examples/Floods.antt =====
-- The floods of src/chanflood.rs and src/botflood.rs at small inputs.
use ircbot_rs.Prelude.{
  ℕ, ◌+◌, ◌*◌, ◌≤◌, ◌<◌, ◌≡◌, refl, true, false, List, [], ◌∷◌, ◌++◌, arith, All, take, length,
  replicate,
}
use ircbot_rs.Cstr.{codes, bytes_eq, is_empty}
use ircbot_rs.State.{no_window, FloodSrc, no_source, no_cmd, BotFlood, new_flood, IgnoreEnt}
use ircbot_rs.ChanFlood.{window_hit, track}
use ircbot_rs.ChanFlood.Window.{after, answers, trip-recent, answers-burst}
use ircbot_rs.ChanFlood.Tracked.{Tracked, track-Tracked}
use ircbot_rs.BotFlood.{fine, slow_down, flood3x}
use ircbot_rs.BotFlood.Commands.{verdicts, verdicts-burst}

abbrev before : List ℕ
before = 900 ∷ 500 ∷ []

trip-recent_example : (2 ≤ length before) × All (λ (t : ℕ). 1200 < t + 1 * 1000) (take 2 before)
unfolding after window_hit
trip-recent_example =
    trip-recent 2 1 1200 before (omega arith)
      ((omega arith, (omega arith, tt)), ((omega arith, tt), (tt, tt))) refl

answers-burst_example :
    answers no_window 2 1 (500 ∷ 900 ∷ 1200 ∷ []) ≡ replicate 2 false ++ true ∷ []
answers-burst_example =
    answers-burst 2 1 500 (900 ∷ 1200 ∷ []) (omega arith) refl (omega arith, (omega arith, tt))

abbrev source : FloodSrc
source = record no_source { host = codes "h"; last_ms = 4 }

abbrev tracker : List FloodSrc
tracker = no_source ∷ source ∷ []

track-Tracked_example :
    Tracked tracker (codes "h") source 2 true 5 60 9 (track tracker (codes "h") 2 true 5 60 9)
unfolding bytes_eq is_empty
track-Tracked_example =
    track-Tracked tracker (codes "h") 2 true 5 60 9 source refl (omega arith) (omega arith)

verdicts-burst_example :
    verdicts no_cmd 1 10 (5 ∷ 6 ∷ 7 ∷ 8 ∷ [])
    ≡ replicate 1 fine ++ (slow_down true ∷ replicate 1 (slow_down false) ++ flood3x ∷ [])
verdicts-burst_example =
    verdicts-burst 0 10 5 no_cmd (6 ∷ 7 ∷ 8 ∷ []) refl refl
      (omega arith, (omega arith, (omega arith, tt)))

abbrev small : List IgnoreEnt → BotFlood
small es = record new_flood { ignores = es }

abbrev live_entry : IgnoreEnt
live_entry = record { key = codes "g"; since_ms = 5; until_ms = 900 }

abbrev dead_entry : IgnoreEnt
dead_entry = record { key = codes "g"; since_ms = 5; until_ms = 10 }
