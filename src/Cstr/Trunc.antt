-- ===== src/Cstr/Trunc.antt =====
-- `trunc` of src/cstr.rs: what snprintf leaves in a buffer, cut back to a character boundary.
use ircbot_rs.Prelude.{
  ℕ, zero, suc, ◌-◌, ◌≤◌, ◌<◌, ◌≡◌, refl, true, false, [], ◌∷◌, arith, length, take,
}
use ircbot_rs.Cstr.{Bytes, is_char_boundary, cut_back, trunc}

pub cut_back-le : (s : Bytes) (e : ℕ) → cut_back s e ≤ e
unfolding cut_back
cut_back-le s zero = omega arith
cut_back-le s (suc e) = ground (arith, cut_back-le s e)

pub cut_back-IsBoundary : (s : Bytes) (e : ℕ) → is_char_boundary s (cut_back s e) ≡ true
unfolding cut_back
cut_back-IsBoundary s zero = refl
cut_back-IsBoundary s (suc e) = ground (arith, cut_back-IsBoundary s e)

-- No boundary lies between the cut and the limit.
pub cut_back_greatest :
    (s : Bytes) (e k : ℕ) → cut_back s e < k → k ≤ e → is_char_boundary s k ≡ false
unfolding cut_back
cut_back_greatest s zero k h l = absurd (omega arith)
cut_back_greatest s (suc e) k h l =
    grind (arith, λ (p : cut_back s e < k) (q : k ≤ e). cut_back_greatest s e k p q)

length-take-le : (n : ℕ) (s : Bytes) → length (take n s) ≤ n
length-take-le zero s = omega arith
length-take-le (suc n) [] = omega arith
length-take-le (suc n) (x ∷ s) = omega (arith, length-take-le n s)

-- What `trunc` leaves fits a buffer of `cap` bytes with its terminator.
pub length-trunc : (s : Bytes) (cap : ℕ) → length (trunc s cap) ≤ cap - 1
unfolding trunc
length-trunc s cap =
    ground (arith, length-take-le (cut_back s (cap - 1)) s, cut_back-le s (cap - 1))

-- A text that fits is kept whole.
pub trunc-short : (s : Bytes) (cap : ℕ) → length s < cap → trunc s cap ≡ s
unfolding trunc
trunc-short s cap h = ground arith
