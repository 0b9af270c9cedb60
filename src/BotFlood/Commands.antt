-- ===== src/BotFlood/Commands.antt =====
-- The verdicts of the command flood of src/botflood.rs.
use ircbot_rs.Prelude.{
  ℕ, zero, suc, ◌+◌, ◌*◌, ◌≤◌, ◌<◌, ◌≡◌, refl, ap, ◌∙◌, true, false, List, [], ◌∷◌, ◌++◌, arith,
  length, replicate, All,
}
use ircbot_rs.State.{CmdFlood}
use ircbot_rs.BotFlood.{CmdStep, fine, slow_down, flood3x, step_cmd, not}

-- The verdicts on a run of commands of one user, the oldest first.
unfoldable pub verdicts : CmdFlood → ℕ → ℕ → List ℕ → List CmdStep
verdicts f n s [] = []
verdicts f n s (t ∷ ts) = (step_cmd f n s t).0 ∷ verdicts (step_cmd f n s t).1 n s ts

-- A command in an open window.
step_cmd-open :
    (f : CmdFlood) (n s t : ℕ)
    → 0 < f.w.count
    → t < f.w.start_ms + s * 1000
    → ((suc f.w.count ≤ n)
        → step_cmd f n s t
          ≡ (fine, record f { last_ms = t; w = record f.w { count = suc f.w.count } }))
      × ((n ≤ f.w.count)
          → (suc f.w.count ≤ 3 * n)
          → step_cmd f n s t ≡ (
            slow_down (not f.notified),
            record f { last_ms = t; w = record f.w { count = suc f.w.count }; notified = true },
          ))
      × ((f.w.count ≡ 3 * n) → (step_cmd f n s t).0 ≡ flood3x)
unfolding step_cmd
step_cmd-open f n s t p l = ground arith

abbrev Within : CmdFlood → ℕ → List ℕ → Type 0
Within f s ts = All (λ (t : ℕ). t < f.w.start_ms + s * 1000) ts

next_verdict :
    (f : CmdFlood) (n s t : ℕ) (ts : List ℕ) (r : CmdStep) (f' : CmdFlood) (rest : List CmdStep)
    → step_cmd f n s t ≡ (r, f')
    → verdicts f' n s ts ≡ rest
    → verdicts f n s (t ∷ ts) ≡ r ∷ rest
unfolding verdicts
next_verdict f n s t ts r f' rest e h =
    ap (λ (p : CmdStep × CmdFlood). p.0 ∷ verdicts p.1 n s ts) e
    ∙ ap (λ (l : List CmdStep). r ∷ l) h

last_verdict :
    (f : CmdFlood) (n s : ℕ) (ts : List ℕ)
    → 0 < f.w.count
    → f.w.count ≡ 3 * n
    → length ts ≡ 1
    → Within f s ts
    → verdicts f n s ts ≡ flood3x ∷ []
unfolding verdicts
last_verdict f n s [] p c l h = ground arith
last_verdict f n s (t ∷ []) p c l h = ground (arith, step_cmd-open f n s t)
last_verdict f n s (t ∷ u ∷ ts) p c l h = ground arith

dropped :
    (k n s : ℕ) (f : CmdFlood) (ts : List ℕ)
    → 0 < f.w.count
    → n ≤ f.w.count
    → f.w.count + k ≡ 3 * n
    → f.notified ≡ true
    → length ts ≡ suc k
    → Within f s ts
    → verdicts f n s ts ≡ replicate k (slow_down false) ++ flood3x ∷ []
dropped zero n s f ts p q c nt l h = last_verdict f n s ts p (omega arith) l h
dropped (suc k) n s f [] p q c nt l h = ground arith
dropped (suc k) n s f (t ∷ ts) p q c nt l h =
    let f' : CmdFlood = record f {
      last_ms = t;
      w = record f.w { count = suc f.w.count };
      notified = true;
    } in
    let e : step_cmd f n s t ≡ (slow_down false, f') =
      ground (arith, step_cmd-open f n s t p h.0) in
    next_verdict f n s t ts (slow_down false) f' _ e
      (dropped k n s f' ts (omega arith) (omega arith) (omega arith) refl (omega arith) h.1)

noticed :
    (k n s : ℕ) (f : CmdFlood) (ts : List ℕ)
    → 0 < f.w.count
    → f.w.count ≡ n
    → suc n + k ≡ 3 * n
    → f.notified ≡ false
    → length ts ≡ suc (suc k)
    → Within f s ts
    → verdicts f n s ts ≡ slow_down true ∷ replicate k (slow_down false) ++ flood3x ∷ []
noticed k n s f [] p q c nt l h = ground arith
noticed k n s f (t ∷ ts) p q c nt l h =
    let f' : CmdFlood = record f {
      last_ms = t;
      w = record f.w { count = suc f.w.count };
      notified = true;
    } in
    let e : step_cmd f n s t ≡ (slow_down true, f') = ground (arith, step_cmd-open f n s t p h.0) in
    next_verdict f n s t ts (slow_down true) f' _ e
      (dropped k n s f' ts (omega arith) (omega arith) (omega arith) refl (omega arith) h.1)

allowed :
    (j k n s : ℕ) (f : CmdFlood) (ts : List ℕ)
    → 0 < f.w.count
    → f.w.count + j ≡ n
    → suc n + k ≡ 3 * n
    → f.notified ≡ false
    → length ts ≡ j + suc (suc k)
    → Within f s ts
    → verdicts f n s ts
      ≡ replicate j fine ++ (slow_down true ∷ replicate k (slow_down false) ++ flood3x ∷ [])
allowed zero k n s f ts p q c nt l h = noticed k n s f ts p (omega arith) c nt (omega arith) h
allowed (suc j) k n s f [] p q c nt l h = ground arith
allowed (suc j) k n s f (t ∷ ts) p q c nt l h =
    let f' : CmdFlood = record f { last_ms = t; w = record f.w { count = suc f.w.count } } in
    let e : step_cmd f n s t ≡ (fine, f') = ground (arith, step_cmd-open f n s t p h.0) in
    next_verdict f n s t ts fine f' _ e
      (allowed j k n s f' ts (omega arith) (omega arith) c nt (omega arith) h.1)

first_command :
    (f : CmdFlood) (n s t : ℕ)
    → f.w.count ≡ 0
    → 0 < n
    → step_cmd f n s t
      ≡ (fine, record f { last_ms = t; w = record { start_ms = t; count = 1 }; notified = false })
unfolding step_cmd
first_command f n s t c p = ground arith

-- With a limit of n + 1 and no open window, of 3 (n + 1) + 1 commands within s seconds of the
-- first, n + 1 pass, the next is dropped with the window's one notice, the others up to 3 (n + 1)
-- are dropped without one, and the last has the user ignored.
pub verdicts-burst :
    (n s t : ℕ) (f : CmdFlood) (ts : List ℕ)
    → f.w.count ≡ 0
    → length ts ≡ 3 * suc n
    → All (λ (u : ℕ). u < t + s * 1000) ts
    → verdicts f (suc n) s (t ∷ ts)
      ≡ replicate (suc n) fine
        ++ (slow_down true ∷ replicate (suc (n + n)) (slow_down false) ++ flood3x ∷ [])
verdicts-burst n s t f ts c l h =
    let f' : CmdFlood = record f {
      last_ms = t;
      w = record { start_ms = t; count = 1 };
      notified = false;
    } in
    next_verdict f (suc n) s t ts fine f' _ (first_command f (suc n) s t c (omega arith)) (
      allowed n (suc (n + n)) (suc n) s f' ts (omega arith) (omega arith) (omega arith) refl
        (omega arith) h)
