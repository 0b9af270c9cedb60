-- ===== src/Cstr/Tok.antt =====
-- The strtok_r walk of src/cstr.rs (Tok). The delimiters of every call in the program are ASCII, so a
-- walk over bytes cuts where a walk over characters does.
use ircbot_rs.Prelude.{
  ℕ, zero, suc, Bool, Option, none, some, List, [], ◌∷◌, ◌==◌, if◌then◌else◌, take, drop, position,
  any,
}
use ircbot_rs.Cstr.{Bytes}

abbrev pub is_delim : Bytes → ℕ → Bool
is_delim delims c = any (λ d. d == c) delims

-- `trim_start_matches`
unfoldable pub skip : (ℕ → Bool) → Bytes → Bytes
skip p [] = []
skip p (c ∷ s) = if p c then skip p s else c ∷ s

-- The token up to the delimiter at an index, and what is left behind the delimiter.
abbrev pub cut_at : Bytes → Option ℕ → Bytes × Bytes
cut_at s (some i) = (take i s, drop (suc i) s)
cut_at s none = (s, [])

abbrev pub next_of : (ℕ → Bool) → Bytes → Option Bytes × Bytes
next_of p [] = (none, [])
next_of p (c ∷ s) =
    (some (cut_at (c ∷ s) (position p (c ∷ s))).0, (cut_at (c ∷ s) (position p (c ∷ s))).1)

-- `Tok::next`, on what is left: the token, and what is left then. `Tok::rest` is `next []`.
unfoldable pub next : Bytes → Bytes → Option Bytes × Bytes
unfolding skip
next delims s = next_of (is_delim delims) (skip (is_delim delims) s)

abbrev pub one_space : Bytes
one_space = b' ' ∷ []

abbrev pub walk_on : Option Bytes × Bytes → (Bytes → List Bytes) → List Bytes
walk_on (none, r) more = []
walk_on (some w, r) more = w ∷ more r

-- `while let Some(w) = t.next(delims)`, the tokens in their order.
unfoldable pub words : ℕ → Bytes → Bytes → List Bytes
unfolding next
words zero delims s = []
words (suc fuel) delims s = walk_on (next delims s) (λ r. words fuel delims r)
