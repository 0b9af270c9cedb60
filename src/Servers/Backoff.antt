-- ===== src/Servers/Backoff.antt =====
-- How long src/irc_client.rs leaves a server alone that refused the bot.
use native.Mathlib.Nat.{pow-suc, mul-suc, mul_comm, mul_assoc}
use ircbot_rs.Prelude.{
  ℕ, zero, suc, ◌-◌, ◌*◌, ◌^◌, ◌≤◌, ◌≡◌, sym, ap, ◌∙◌, inl, inr, false, arith, ltb, Bool-cases, min,
}
use ircbot_rs.Servers.{
  ServerBlockKind, no_block, throttled, banned, banned_temp, banned_perm, backoff_loop,
  refusal_backoff, hold_for, irc_throttle_backoff, irc_throttle_backoff_max, irc_ban_backoff,
  irc_ban_backoff_max, is_none, is_perm,
}

backoff_loop-ge : (n s cap : ℕ) → 1 ≤ s → s ≤ backoff_loop n s cap
unfolding backoff_loop
backoff_loop-ge zero s cap h = omega arith
backoff_loop-ge (suc n) s cap h = ground (arith, backoff_loop-ge n (s * 2) cap)

double_power : (s n : ℕ) → s * 2 ^ suc n ≡ s * 2 * 2 ^ n
double_power s n =
    ap (λ (x : ℕ). s * x) (pow-suc 2 n)
    ∙ ap (λ (x : ℕ). s * x) (mul_comm (2 ^ n) 2)
    ∙ sym (mul_assoc s 2 (2 ^ n))

times_pos : (s k : ℕ) → 1 ≤ k → s ≤ s * k
times_pos s zero h = absurd (omega arith)
times_pos s (suc k) h = omega (arith, mul-suc s k)

power-pos : (n : ℕ) → 1 ≤ 2 ^ n
power-pos zero = omega arith
power-pos (suc n) = omega (arith, pow-suc 2 n, power-pos n)

-- Above the cap, what it is multiplied by does not count.
over_cap : (s n cap : ℕ) → cap ≤ s → min s cap ≡ min (s * 2 ^ suc n) cap
over_cap s n cap h = omega (arith, times_pos s (2 ^ suc n) (power-pos (suc n)))

backoff_loop-closed : (n s cap : ℕ) → min (backoff_loop n s cap) cap ≡ min (s * 2 ^ n) cap
unfolding backoff_loop
backoff_loop-closed zero s cap = omega arith
backoff_loop-closed (suc n) s cap = elim (Bool-cases (ltb s cap)) [
  | inl e ↦
      rw e (backoff_loop-closed n (s * 2) cap ∙ ap (λ (x : ℕ). min x cap) (sym (double_power s n)))
  | inr e ↦ rw e (over_cap s n cap (ground arith))
]

-- The doubling loop comes to the base times 2 ^ (strikes - 1), cut at the cap.
pub refusal_backoff-closed :
    (base strikes cap : ℕ) → refusal_backoff base strikes cap ≡ min (base * 2 ^ (strikes - 1)) cap
unfolding refusal_backoff
refusal_backoff-closed base strikes cap = backoff_loop-closed (strikes - 1) base cap

refusal_backoff-ge :
    (base strikes cap : ℕ) → 1 ≤ base → base ≤ cap → base ≤ refusal_backoff base strikes cap
unfolding refusal_backoff
refusal_backoff-ge base strikes cap pos h = omega (arith, backoff_loop-ge (strikes - 1) base cap)

-- Every hold that ends lasts a minute or more.
pub hold_for-ge :
    (kind : ServerBlockKind) (stated strikes : ℕ)
    → is_none kind ≡ false
    → is_perm kind ≡ false
    → 60 ≤ hold_for kind stated strikes
hold_for-ge no_block stated strikes h k = ground arith
hold_for-ge throttled stated strikes h k =
    refusal_backoff-ge irc_throttle_backoff strikes irc_throttle_backoff_max (omega arith)
      (omega arith)
hold_for-ge banned stated strikes h k = omega (
  arith,
  refusal_backoff-ge irc_ban_backoff strikes irc_ban_backoff_max (omega arith) (omega arith),
)
hold_for-ge banned_temp stated strikes h k = omega (
  arith,
  refusal_backoff-ge irc_throttle_backoff strikes irc_ban_backoff_max (omega arith) (omega arith),
)
hold_for-ge banned_perm stated strikes h k = ground arith
