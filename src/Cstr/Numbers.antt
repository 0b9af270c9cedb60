-- ===== src/Cstr/Numbers.antt =====
-- What strtoll of src/cstr.rs reads of a number that `{}` wrote.
use ircbot_rs.Prelude.{
  ℕ, suc, ◌+◌, ◌-◌, ◌*◌, ◌^◌, ◌≤◌, ◌<◌, ◌≡◌, refl, ap, ◌∙◌, Bool, true, false, Option, none, some,
  [], ◌∷◌, ◌++◌, arith, leb, ◌==◌, ◌||◌, if◌then◌else◌, length, drop, all, min,
}
use ircbot_rs.Prelude.Int.{ℤ, pos, negsuc}
use ircbot_rs.Cstr.{Bytes}
use ircbot_rs.Cstr.Scan.{
  is_c_space, is_digit, run_len, i64_limit, strtoll_digits, signed, strtoll, int,
}
use ircbot_rs.ChanCfg.Parse.{decimal, show, show_from}
use ircbot_rs.ChanCfg.Number.{decimal-show_from, digits-show_from, length-show-pos}

-- A text that goes on with no digit.
abbrev pub IsStop : Bytes → Type 0
IsStop [] = Unit
IsStop (c ∷ s) = is_digit c ≡ false

decimal-ge : (v : ℕ) (ds : Bytes) → v ≤ decimal v ds
unfolding decimal
decimal-ge v [] = omega arith
decimal-ge v (d ∷ ds) = omega (arith, decimal-ge (v * 10 + (d - b'0')) ds)

-- What the digits come to.
abbrev fits : Bool → ℕ → Option ℕ
fits neg v = if leb v (i64_limit neg) then some v else none

digits_over :
    (neg : Bool) (ds rest : Bytes)
    → all is_digit ds ≡ true
    → IsStop rest
    → strtoll_digits neg none (ds ++ rest) ≡ (none, length ds)
unfolding strtoll_digits
digits_over neg [] [] h k = refl
digits_over neg [] (c ∷ rest) h k = ground arith
digits_over neg (d ∷ ds) rest h k = ground (arith, digits_over neg ds rest)

strtoll_digits-append :
    (neg : Bool) (v : ℕ) (ds rest : Bytes)
    → v ≤ i64_limit neg
    → all is_digit ds ≡ true
    → IsStop rest
    → strtoll_digits neg (some v) (ds ++ rest) ≡ (fits neg (decimal v ds), length ds)
unfolding strtoll_digits decimal
strtoll_digits-append neg v [] [] b h k = ground arith
strtoll_digits-append neg v [] (c ∷ rest) b h k = ground arith
strtoll_digits-append neg v (d ∷ ds) rest b h k = ground (
  arith,
  decimal-ge (v * 10 + (d - b'0')) ds,
  digits_over neg ds rest,
  strtoll_digits-append neg (v * 10 + (d - b'0')) ds rest,
)

head_digit :
    (c : ℕ) → is_digit c ≡ true → (is_c_space c ≡ false) × ((c == b'+' || c == b'-') ≡ false)
head_digit c h = ground arith

-- A number as `{}` writes it, cut to the greatest i64, with the bytes read.
strtoll-digits :
    (d : ℕ) (ds rest : Bytes)
    → all is_digit (d ∷ ds) ≡ true
    → IsStop rest
    → strtoll (d ∷ ds ++ rest) ≡ (pos (min (decimal 0 (d ∷ ds)) (2 ^ 63 - 1)), length (d ∷ ds))
unfolding strtoll run_len
strtoll-digits d ds rest h k =
    ground (arith, head_digit d, strtoll_digits-append false 0 (d ∷ ds) rest)

strtoll-text :
    (s rest : Bytes)
    → 1 ≤ length s
    → all is_digit s ≡ true
    → IsStop rest
    → strtoll (s ++ rest) ≡ (pos (min (decimal 0 s) (2 ^ 63 - 1)), length s)
strtoll-text [] rest l h k = absurd (omega arith)
strtoll-text (d ∷ ds) rest l h k = strtoll-digits d ds rest h k

-- A natural number that `{}` wrote, in front of no digit, reads back as it was, or as the greatest
-- i64 where it is larger, and all of its digits are consumed.
pub strtoll-show :
    (n : ℕ) (rest : Bytes)
    → IsStop rest
    → strtoll (show n ++ rest) ≡ (pos (min n (2 ^ 63 - 1)), length (show n))
unfolding show
strtoll-show n rest k =
    let s : Bytes = show_from (n + 1) n in
    strtoll-text s rest (length-show-pos n) (digits-show_from (n + 1) n) k
    ∙ ap (λ (m : ℕ). (pos (min m (2 ^ 63 - 1)), length s))
        (decimal-show_from (n + 1) n (omega arith))

strtoll-minus :
    (s rest : Bytes)
    → 1 ≤ length s
    → all is_digit s ≡ true
    → decimal 0 s ≤ 2 ^ 63
    → IsStop rest
    → strtoll (b'-' ∷ s ++ rest) ≡ (signed true (decimal 0 s), suc (length s))
unfolding strtoll run_len
strtoll-minus s rest l h b k = ground (arith, strtoll_digits-append true 0 s rest)

-- `{}` of an i64
abbrev pub show_int : ℤ → Bytes
show_int (pos n) = show n
show_int (negsuc n) = b'-' ∷ show (n + 1)

abbrev pub IsI64 : ℤ → Type 0
IsI64 (pos n) = n < 2 ^ 63
IsI64 (negsuc n) = n < 2 ^ 63

negative-show :
    (n : ℕ) (rest : Bytes)
    → n < 2 ^ 63
    → IsStop rest
    → strtoll (b'-' ∷ show (n + 1) ++ rest) ≡ (negsuc n, suc (length (show (n + 1))))
unfolding show
negative-show n rest b k =
    let m : ℕ = n + 1 in
    let s : Bytes = show_from (m + 1) m in
    let e : decimal 0 s ≡ suc n = decimal-show_from (m + 1) m (omega arith) ∙ omega arith in
    strtoll-minus s rest (length-show-pos m) (digits-show_from (m + 1) m) (omega (arith, e)) k
    ∙ ap (λ (v : ℕ). (signed true v, suc (length s))) e

strtoll-show_int :
    (z : ℤ) (rest : Bytes)
    → IsI64 z
    → IsStop rest
    → strtoll (show_int z ++ rest) ≡ (z, length (show_int z))
strtoll-show_int (pos n) rest b k = ground (arith, strtoll-show n rest)
strtoll-show_int (negsuc n) rest b k = negative-show n rest b k

pub drop-length : (a b : Bytes) → drop (length a) (a ++ b) ≡ b
drop-length [] b = refl
drop-length (x ∷ a) b = drop-length a b

show_int-pos : (z : ℤ) → 1 ≤ length (show_int z)
unfolding show
show_int-pos (pos n) = length-show-pos n
show_int-pos (negsuc n) = omega arith

-- An i64 that `{}` wrote, in front of no digit, is what `%lld` converts.
pub int-show_int :
    (z : ℤ) (rest : Bytes) → IsI64 z → IsStop rest → int (show_int z ++ rest) ≡ some (z, rest)
unfolding int
int-show_int z rest b k =
    ground (arith, strtoll-show_int z rest b k, show_int-pos z, drop-length (show_int z) rest)
