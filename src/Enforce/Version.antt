-- ===== src/Enforce/Version.antt =====
-- `version_cmp` of src/updater.rs, by which src/chanenf.rs leaves old bots out of the deal.
use ircbot_rs.Prelude.{ℕ, ◌&&◌, [], ◌∷◌, ltb, ◌==◌, if◌then◌else◌}
use ircbot_rs.Cstr.{Bytes}
use ircbot_rs.ChanCfg.Parse.{is_digit}

pub data Ordering : Type 0 where
  less equal greater : Ordering

abbrev pub cmp : ℕ → ℕ → Ordering
cmp a b = if ltb a b then less else if a == b then equal else greater

abbrev pub or_cmp : Ordering → ℕ → ℕ → Ordering
or_cmp equal a b = cmp a b
or_cmp less a b = less
or_cmp greater a b = greater

-- The runs of digits, byte by byte; the longer one is greater.
unfoldable pub cmp_digits : Ordering → Bytes → Bytes → Ordering
cmp_digits order [] [] = order
cmp_digits order [] (y ∷ b) = if is_digit y then less else order
cmp_digits order (x ∷ a) [] = if is_digit x then greater else order
cmp_digits order (x ∷ a) (y ∷ b) =
    let rest = cmp_digits (or_cmp order x y) a b in
    if is_digit x
    then (if is_digit y then rest else greater)
    else if is_digit y
    then less
    else order

-- At the first bytes that differ, 0 standing for the end.
abbrev pub cmp_at : ℕ → ℕ → Bytes → Bytes → Ordering
cmp_at x y a b = if is_digit x && is_digit y then cmp_digits (cmp x y) a b else cmp x y

unfoldable pub strverscmp : Bytes → Bytes → Ordering
unfolding cmp_digits
strverscmp [] [] = equal
strverscmp [] (y ∷ b) = if y == 0 then equal else cmp_at 0 y [] b
strverscmp (x ∷ a) [] = if x == 0 then equal else cmp_at x 0 a []
strverscmp (x ∷ a) (y ∷ b) =
    let rest = strverscmp a b in if x == y then (if x == 0 then equal else rest) else cmp_at x y a b

abbrev pub strip_v : Bytes → Bytes
strip_v [] = []
strip_v (c ∷ s) = if c == b'v' then s else if c == b'V' then s else c ∷ s

unfoldable pub version_cmp : Bytes → Bytes → Ordering
unfolding strverscmp
version_cmp a b = strverscmp (strip_v a) (strip_v b)
