-- ===== src/Cstr/Words.antt =====
-- A strtok_r walk of src/cstr.rs takes the pieces between the delimiters that are not empty.
use ircbot_rs.Prelude.{
  ℕ, zero, suc, ◌≤◌, ◌<◌, ◌≡◌, refl, sym, ap, ◌∙◌, inl, inr, Bool, false, not, none, some, List, [],
  ◌∷◌, arith, if◌then◌else◌, length, take, drop, position, keep, length-drop, Bool-cases,
  Option-cases,
}
use ircbot_rs.Cstr.{Bytes, is_empty}
use ircbot_rs.Cstr.Tok.{is_delim, skip, cut_at, next, words, walk_on, next_of}
use ircbot_rs.ChanCfg.Parse.{split, cons_head}

-- The pieces of a text between the bytes that pass a test.
pieces : (ℕ → Bool) → Bytes → List Bytes
pieces p [] = [] ∷ []
pieces p (c ∷ s) = if p c then [] ∷ pieces p s else cons_head c (pieces p s)

abbrev pub full : List Bytes → List Bytes
full = keep (λ w. not (is_empty w))

full-skip : (p : ℕ → Bool) (s : Bytes) → full (pieces p (skip p s)) ≡ full (pieces p s)
unfolding pieces skip is_empty
full-skip p [] = refl
full-skip p (c ∷ s) = ground (arith, full-skip p s)

pieces-cut :
    (p : ℕ → Bool) (s : Bytes) (i : ℕ)
    → position p s ≡ some i
    → pieces p s ≡ take i s ∷ pieces p (drop (suc i) s)
unfolding pieces
pieces-cut p [] i h = ground arith
pieces-cut p (c ∷ s) zero h = ground arith
pieces-cut p (c ∷ s) (suc i) h = ground (arith, pieces-cut p s i)

pieces-whole : (p : ℕ → Bool) (s : Bytes) → position p s ≡ none → pieces p s ≡ s ∷ []
unfolding pieces
pieces-whole p [] h = refl
pieces-whole p (c ∷ s) h = ground (arith, pieces-whole p s)

length-skip : (p : ℕ → Bool) (s : Bytes) → length (skip p s) ≤ length s
unfolding skip
length-skip p [] = omega arith
length-skip p (c ∷ s) = ground (arith, length-skip p s)

-- `skip` stops at a byte that fails the test.
skip-head : (p : ℕ → Bool) (s : Bytes) (c : ℕ) (t : Bytes) → skip p s ≡ c ∷ t → p c ≡ false
unfolding skip
skip-head p [] c t h = ground arith
skip-head p (x ∷ s) c t h = elim (Bool-cases (p x)) [
  | inl e ↦ skip-head p s c t (ground arith)
  | inr e ↦ let same : x ≡ c = ground arith in ap p (sym same) ∙ e
]

-- What is left when a walk has taken a token, and the pieces of it.
walk-cut :
    (p : ℕ → Bool) (c : ℕ) (t : Bytes)
    → p c ≡ false
    → full (pieces p (c ∷ t))
      ≡ (cut_at (c ∷ t) (position p (c ∷ t))).0
        ∷ full (pieces p (cut_at (c ∷ t) (position p (c ∷ t))).1)
unfolding is_empty pieces
walk-cut p c t h = elim (Option-cases (position p t)) [
  | inl e ↦ ground (arith, pieces-whole p t e)
  | inr (i, e) ↦ ground (arith, pieces-cut p t i e)
]

length-cut :
    (p : ℕ → Bool) (c : ℕ) (t : Bytes) → length (cut_at (c ∷ t) (position p (c ∷ t))).1 ≤ length t
length-cut p c t = elim (Option-cases (position p (c ∷ t))) [
  | inl e ↦ rw e (omega arith)
  | inr (i, e) ↦ rw e (omega (arith, length-drop i t))
]

words-skipped :
    (fuel : ℕ) (delims s t : Bytes)
    → skip (is_delim delims) s ≡ t
    → ((r : Bytes) → length r < length t → words fuel delims r ≡ full (pieces (is_delim delims) r))
    → words (suc fuel) delims s ≡ full (pieces (is_delim delims) t)
unfolding words next pieces is_empty
words-skipped fuel delims s [] e more =
    ap (λ t. walk_on (next_of (is_delim delims) t) (λ r. words fuel delims r)) e
words-skipped fuel delims s (c ∷ t) e more =
    let p : ℕ → Bool = is_delim delims in
    let cut : Bytes × Bytes = cut_at (c ∷ t) (position p (c ∷ t)) in
    ap (λ x. walk_on (next_of p x) (λ r. words fuel delims r)) e
    ∙ ap (λ l. cut.0 ∷ l) (more cut.1 (omega (arith, length-cut p c t)))
    ∙ sym (walk-cut p c t (skip-head p s c t e))

words-pieces :
    (fuel : ℕ) (delims s : Bytes)
    → length s < fuel
    → words fuel delims s ≡ full (pieces (is_delim delims) s)
words-pieces zero delims s h = absurd (omega arith)
words-pieces (suc fuel) delims s h =
    let p : ℕ → Bool = is_delim delims in
    words-skipped fuel delims s (skip p s) refl
      (λ r short. words-pieces fuel delims r (omega (arith, length-skip p s)))
    ∙ full-skip p s

pieces-split : (sep : ℕ) (s : Bytes) → pieces (is_delim (sep ∷ [])) s ≡ split sep s
unfolding pieces split
pieces-split sep [] = refl
pieces-split sep (c ∷ s) = ground (arith, pieces-split sep s)

-- A strtok_r walk by one delimiter, with a step for each byte and one more, takes exactly the pieces
-- of the split by that delimiter that are not empty, in their order.
pub words-split : (sep : ℕ) (s : Bytes) → words (suc (length s)) (sep ∷ []) s ≡ full (split sep s)
words-split sep s =
    words-pieces (suc (length s)) (sep ∷ []) s (omega arith) ∙ ap full (pieces-split sep s)
