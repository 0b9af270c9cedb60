-- ===== src/Glob.antt =====
-- src/auth.rs `wildcard_match` and src/glob_overlap.rs: IRC globs over bytes, '*' and '?'.
pub mod Pattern
pub mod Match
pub mod Overlap
use ircbot_rs.Prelude.{
  ℕ, zero, suc, ◌+◌, ◌*◌, Bool, true, false, ◌&&◌, ◌||◌, Option, none, some, List, [], ◌∷◌, ltb,
  ◌==◌, if◌then◌else◌, length,
}
use ircbot_rs.Cstr.{Bytes, byte_eq_ic}

-- A pattern byte that is no star, against a byte of the text.
unfoldable pub byte_ok : ℕ → ℕ → Bool
byte_ok p c = p == b'?' || byte_eq_ic p c

-- The last loop and the final test: only stars are left.
unfoldable pub only_stars : Bytes → Bool
only_stars [] = true
only_stars (x ∷ p) = x == b'*' && only_stars p

-- `star` and `star_t`, as what follows them: the pattern after the star, and the text from `star_t`.
abbrev pub Back : Type 0
Back = Option (Bytes × Bytes)

-- One round of the loop of `wildcard_match`; `pi` and `ti` are the suffixes that they begin.
pub data Round : Type 0 where
  answer : Bool → Round
  again : Bytes → Bytes → Back → Round

unfoldable pub retry : Back → Round
retry none = answer false
retry (some (bp, [])) = again bp [] (some (bp, []))
retry (some (bp, _ ∷ bt)) = again bp bt (some (bp, bt))

unfoldable pub round : Bytes → Bytes → Back → Round
unfolding only_stars retry byte_ok
round p [] back = answer (only_stars p)
round [] (c ∷ t) back = retry back
round (x ∷ p) (c ∷ t) back =
    if x == b'*'
    then again p (c ∷ t) (some (p, c ∷ t))
    else if byte_ok x c
    then again p t back
    else retry back

-- `none` is a loop that has used up its fuel.
unfoldable pub rounds : ℕ → Bytes → Bytes → Back → Option Bool
unfolding round
rounds zero p t back = none
rounds (suc fuel) p t back = elim (round p t back) [
  | answer r ↦ some r
  | again p' t' back' ↦ rounds fuel p' t' back'
]

abbrev pub match_fuel : Bytes → Bytes → ℕ
match_fuel p t = (length t + 1) * (length p + 1)

unfoldable pub wildcard_match_loop : Bytes → Bytes → Option Bool
unfolding rounds
wildcard_match_loop pattern_ text = rounds (match_fuel pattern_ text) pattern_ text none

-- The loop always answers within its fuel (Glob.Match), so the default is never taken.
unfoldable pub wildcard_match : Bytes → Bytes → Bool
unfolding wildcard_match_loop
wildcard_match pattern_ text = elim (wildcard_match_loop pattern_ text) [
  | some r ↦ r
  | none ↦ false
]

abbrev pub glob_overlap_max : ℕ
glob_overlap_max = 256

abbrev pub head_or : List Bool → Bool
head_or [] = false
head_or (c ∷ _) = c

-- The bottom row: `a` has ended. A row holds one cell for each suffix of `b`, the longest first.
unfoldable pub end_row : Bytes → List Bool
end_row [] = true ∷ []
end_row (y ∷ b) = let r = end_row b in (if y == b'*' then head_or r else false) ∷ r

abbrev pub tail_of : List Bool → List Bool
tail_of [] = []
tail_of (_ ∷ r) = r

-- The row above `next`, for the byte `x` of `a`.
unfoldable pub row : ℕ → Bytes → List Bool → List Bool
row x [] next = (if x == b'*' then head_or next else false) ∷ []
row x (y ∷ b) next =
    let cur = row x b (tail_of next) in
    (if x == b'*' || y == b'*'
      then head_or next || head_or cur
      else if x == b'?' || y == b'?' || byte_eq_ic x y
      then head_or (tail_of next)
      else false)
    ∷ cur

unfoldable pub rows : Bytes → Bytes → List Bool
unfolding end_row row
rows [] b = end_row b
rows (x ∷ a) b = row x b (rows a b)

unfoldable pub glob_overlap : Bytes → Bytes → Bool
unfolding rows
glob_overlap a b =
    if ltb glob_overlap_max (length a) || ltb glob_overlap_max (length b)
    then true
    else head_or (rows a b)
