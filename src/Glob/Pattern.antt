-- ===== src/Glob/Pattern.antt =====
-- What it means for a text to match a glob, with no search order in it.
use ircbot_rs.Prelude.{ℕ, ◌≡◌, ◌≢◌, refl, true, [], ◌∷◌, arith}
use ircbot_rs.Cstr.{Bytes}
use ircbot_rs.Cstr.Case.{byte_eq_ic_refl}
use ircbot_rs.Glob.{byte_ok, only_stars}

pub data Matches : Bytes → Bytes → Type 0 where
  done : Matches [] []
  one :
      {x c : ℕ} {p t : Bytes}
      → x ≢ b'*'
      → byte_ok x c ≡ true
      → Matches p t
      → Matches (x ∷ p) (c ∷ t)
  -- a star takes nothing more, or one byte more
  skip : {x : ℕ} {p t : Bytes} → x ≡ b'*' → Matches p t → Matches (x ∷ p) t
  take : {x c : ℕ} {p t : Bytes} → x ≡ b'*' → Matches (x ∷ p) t → Matches (x ∷ p) (c ∷ t)

module _ {x : ℕ} {p : Bytes} where
  -- Inversion at a byte that is no star.
  pub one_inv :
      {c : ℕ} {t : Bytes} → x ≢ b'*' → Matches (x ∷ p) (c ∷ t) → (byte_ok x c ≡ true) × Matches p t
  one_inv n (one _ h d) = (h, d)
  one_inv n (skip e d) = absurd (n e)
  one_inv n (take e d) = absurd (n e)

  pub at_end : Matches (x ∷ p) [] → (x ≡ b'*') × Matches p []
  at_end (skip e d) = (e, d)

  -- Where the rest of the pattern fails, the star has to take the byte.
  pub forced_take :
      {c : ℕ} {t : Bytes}
      → x ≡ b'*'
      → Matches (x ∷ p) (c ∷ t)
      → ¬ Matches p (c ∷ t)
      → Matches (x ∷ p) t
  forced_take e (one n _ _) stuck = absurd (n e)
  forced_take e (skip _ d) stuck = absurd (stuck d)
  forced_take e (take _ d) stuck = d

pub merge_stars :
    {x y : ℕ} {p t : Bytes} → x ≡ b'*' → y ≡ b'*' → Matches (x ∷ y ∷ p) t → Matches (y ∷ p) t
merge_stars ex ey (one n _ _) = absurd (n ex)
merge_stars ex ey (skip _ d) = d
merge_stars ex ey (take _ d) = take ey (merge_stars ex ey d)

-- Behind a star, a byte of the pattern may be met later in the text: the star covers the way there.
pub after_byte :
    {s x c : ℕ} {p : Bytes} (t : Bytes)
    → s ≡ b'*'
    → x ≢ b'*'
    → Matches (s ∷ x ∷ p) (c ∷ t)
    → Matches (s ∷ p) t
after_byte t es nx (one n _ _) = absurd (n es)
after_byte t es nx (skip _ d) = skip es (one_inv nx d).1
after_byte [] es nx (take _ d) = absurd (nx (at_end (at_end d).1).0)
after_byte (c ∷ t) es nx (take _ d) = take es (after_byte t es nx d)

pub only_stars→Matches : (p : Bytes) → only_stars p ≡ true → Matches p []
unfolding only_stars
only_stars→Matches [] h = done
only_stars→Matches (x ∷ p) h = skip (ground arith) (only_stars→Matches p (ground arith))

pub Matches→only_stars : (p : Bytes) → Matches p [] → only_stars p ≡ true
unfolding only_stars
Matches→only_stars [] d = refl
Matches→only_stars (x ∷ p) d = ground (arith, at_end d, Matches→only_stars p (at_end d).1)

-- A text without '*' and '?' matches itself as a pattern; any pattern byte accepts itself.
pub byte_ok_refl : (x : ℕ) → byte_ok x x ≡ true
unfolding byte_ok
byte_ok_refl x = ground (arith, byte_eq_ic_refl x)
