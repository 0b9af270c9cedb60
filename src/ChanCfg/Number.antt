-- ===== src/ChanCfg/Number.antt =====
-- `parse_ll` of src/chancfg.rs reads back what `{}` writes, and never overflows.
use ircbot_rs.Prelude.{
  ℕ, zero, suc, ◌+◌, ◌-◌, ◌*◌, ◌/◌, ◌%◌, ◌^◌, ◌≤◌, ◌<◌, ◌≡◌, refl, Bool, true, ◌&&◌, some, [], ◌∷◌,
  ◌++◌, arith, length, all, length-append, sym,
}
use mathlib.Core.Path.{subst}
use native.Mathlib.Nat.{pow-suc, pow-le-pow_right}
use ircbot_rs.Cstr.{Bytes}
use ircbot_rs.ChanCfg.Parse.{is_digit, decimal, parse_ll, show_from, show}

decimal-push :
    (acc : ℕ) (ds : Bytes) (d : ℕ) → decimal acc (ds ++ d ∷ []) ≡ decimal acc ds * 10 + (d - b'0')
unfolding decimal
decimal-push acc [] d = refl
decimal-push acc (x ∷ ds) d = decimal-push (acc * 10 + (x - b'0')) ds d

pub decimal-show_from : (fuel n : ℕ) → n < fuel → decimal 0 (show_from fuel n) ≡ n
unfolding decimal show_from
decimal-show_from zero n h = absurd (omega arith)
decimal-show_from (suc fuel) n h = ground (
  arith,
  decimal-push 0 (show_from fuel (n / 10)) (b'0' + n % 10),
  decimal-show_from fuel (n / 10),
)

all-append : (p : ℕ → Bool) (a b : Bytes) → all p (a ++ b) ≡ (all p a && all p b)
all-append p [] b = refl
all-append p (x ∷ a) b = ground (arith, all-append p a b)

pub digits-show_from : (fuel n : ℕ) → all is_digit (show_from fuel n) ≡ true
unfolding show_from
digits-show_from zero n = refl
digits-show_from (suc fuel) n = ground (
  arith,
  digits-show_from fuel (n / 10),
  all-append is_digit (show_from fuel (n / 10)) ((b'0' + n % 10) ∷ []),
)

pub length-show_from : (fuel n k : ℕ) → n < 10 ^ suc k → length (show_from fuel n) ≤ suc k
unfolding show_from
length-show_from zero n k h = omega arith
length-show_from (suc fuel) n zero h =
    ground (arith, length-append (show_from fuel (n / 10)) ((b'0' + n % 10) ∷ []))
length-show_from (suc fuel) n (suc k) h =
    let small : n / 10 < 10 ^ suc k = omega (arith, pow-suc 10 (suc k)) in
    ground (
      arith,
      length-show_from fuel (n / 10) k small,
      length-append (show_from fuel (n / 10)) ((b'0' + n % 10) ∷ []),
    )

pub length-show_from-pos : (fuel n : ℕ) → 1 ≤ length (show_from (suc fuel) n)
unfolding show_from
length-show_from-pos fuel n =
    ground (arith, length-append (show_from fuel (n / 10)) ((b'0' + n % 10) ∷ []))

pub length-show-pos : (n : ℕ) → 1 ≤ length (show_from (n + 1) n)
length-show-pos n =
    let e : n + 1 ≡ suc n = omega arith in
    subst (λ (m : ℕ). 1 ≤ length (show_from m n)) (sym e) (length-show_from-pos n n)

-- A number of at most 18 digits reads back as it was written.
pub parse_ll-show : (n : ℕ) → n < 10 ^ 18 → parse_ll (show n) ≡ some n
unfolding parse_ll show
parse_ll-show n h = ground (
  arith,
  length-show_from (n + 1) n 17 h,
  length-show_from-pos n n,
  digits-show_from (n + 1) n,
  decimal-show_from (n + 1) n,
)

decimal-lt :
    (s : Bytes) (acc k : ℕ)
    → acc < 10 ^ k
    → all is_digit s ≡ true
    → decimal acc s < 10 ^ (k + length s)
unfolding decimal
decimal-lt [] acc k h d =
    let e : k + 0 ≡ k = omega arith in subst (λ (m : ℕ). acc < 10 ^ m) (sym e) h
decimal-lt (c ∷ s) acc k h d =
    let acc' : acc * 10 + (c - b'0') < 10 ^ suc k = ground (arith, pow-suc 10 k) in
    let e : suc k + length s ≡ k + suc (length s) = omega arith in
    subst (λ (m : ℕ). decimal (acc * 10 + (c - b'0')) s < 10 ^ m) e
      (decimal-lt s (acc * 10 + (c - b'0')) (suc k) acc' (ground arith))

-- What `parse_ll` reads is below 10 ^ 18, so that it fits an i64.
pub parse_ll-lt : (s : Bytes) (n : ℕ) → parse_ll s ≡ some n → n < 10 ^ 18
unfolding parse_ll
parse_ll-lt s n h =
    let digits : all is_digit s ≡ true = ground arith in
    let short : length s ≤ 18 = ground arith in
    let e : decimal 0 s ≡ n = ground arith in
    let below : decimal 0 s < 10 ^ (0 + length s) = decimal-lt s 0 0 (omega arith) digits in
    let short' : 0 + length s ≤ 18 = omega arith in
    let mono : 10 ^ (0 + length s) ≤ 10 ^ 18 = pow-le-pow_right (omega arith) short' in omega arith

pub length-show : (n : ℕ) → n < 10 ^ 18 → length (show n) ≤ 18
unfolding show
length-show n h = length-show_from (n + 1) n 17 h
