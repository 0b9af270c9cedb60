-- ===== src/Prelude/Counts.antt =====
-- How often a test holds in a list that is changed at one place.
use Prim.Native.Nat.{ℕ, zero, suc, ◌+◌, ◌≤◌}
use mathlib.Core.Path.{◌≡◌, ap}
use mathlib.Core.Bool.{Bool, true, false}
use mathlib.Core.List.{List, [], ◌∷◌, map}
use mathlib.Core.Option.{none, some}
use native.Mathlib.Omega.{arith}
use ircbot_rs.Prelude.Lists.{length, get_elem?, set, adjust, position, keep}

abbrev pub one_if : Bool → ℕ
one_if true = 1
one_if false = 0

module _ {ℓ} {A : Type ℓ} where
  abbrev pub count_if : (A → Bool) → List A → ℕ
  count_if p xs = length (keep p xs)

  pub count_if-set :
      (p : A → Bool) (xs : List A) (i : ℕ) (x v : A)
      → get_elem? xs i ≡ some x
      → count_if p (set xs i v) + one_if (p x) ≡ count_if p xs + one_if (p v)
  count_if-set p [] i x v h = ground arith
  count_if-set p (y ∷ ys) zero x v h = ground arith
  count_if-set p (y ∷ ys) (suc i) x v h = ground (arith, count_if-set p ys i x v)

  pub adjust-set :
      (f : A → A) (xs : List A) (i : ℕ) (x : A)
      → get_elem? xs i ≡ some x
      → adjust f i xs ≡ set xs i (f x)
  adjust-set f [] i x h = ground arith
  adjust-set f (y ∷ ys) zero x h = ground arith
  adjust-set f (y ∷ ys) (suc i) x h = ap (λ l. y ∷ l) (adjust-set f ys i x h)

  pub count_if-absent :
      (p q : A → Bool) (xs : List A)
      → ((x : A) → q x ≡ p x)
      → position p xs ≡ none
      → count_if q xs ≡ 0
  count_if-absent p q [] same h = ground arith
  count_if-absent p q (x ∷ xs) same h = ground (arith, same x, count_if-absent p q xs same)

  pub count_if-map_le :
      (p : A → Bool) (f : A → A) (xs : List A)
      → ((x : A) → p (f x) ≡ true → p x ≡ true)
      → count_if p (map f xs) ≤ count_if p xs
  count_if-map_le p f [] h = omega arith
  count_if-map_le p f (x ∷ xs) h = ground (arith, h x, count_if-map_le p f xs h)
