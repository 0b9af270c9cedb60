-- ===== src/Servers/Duration.antt =====
-- `refusal_parse_duration` of src/irc_client.rs: how long a server says that a ban lasts.
use ircbot_rs.Prelude.{
  ℕ, zero, suc, ◌+◌, ◌-◌, ◌*◌, ◌≤◌, Bool, false, not, ◌||◌, Option, none, some, List, [], ◌∷◌, ltb,
  leb, ◌==◌, if◌then◌else◌, find, arith, if_split,
}
use ircbot_rs.Cstr.{Bytes, codes, bytes_eq}
use ircbot_rs.Cstr.Tok.{skip}
use ircbot_rs.ChanCfg.Parse.{is_digit}
use ircbot_rs.ChanLive.Isupport.{is_alpha}

abbrev pub irc_ban_stated_max : ℕ
irc_ban_stated_max = 2592000

abbrev pub units : List (Bytes × ℕ)
units =
    (codes "s", 1)
    ∷ (codes "sec", 1)
    ∷ (codes "secs", 1)
    ∷ (codes "second", 1)
    ∷ (codes "seconds", 1)
    ∷ (codes "m", 60)
    ∷ (codes "min", 60)
    ∷ (codes "mins", 60)
    ∷ (codes "minute", 60)
    ∷ (codes "minutes", 60)
    ∷ (codes "h", 3600)
    ∷ (codes "hr", 3600)
    ∷ (codes "hrs", 3600)
    ∷ (codes "hour", 3600)
    ∷ (codes "hours", 3600)
    ∷ (codes "d", 86400)
    ∷ (codes "day", 86400)
    ∷ (codes "days", 86400)
    ∷ (codes "w", 604800)
    ∷ (codes "wk", 604800)
    ∷ (codes "week", 604800)
    ∷ (codes "weeks", 604800)
    ∷ (codes "mo", 2592000)
    ∷ (codes "month", 2592000)
    ∷ (codes "months", 2592000)
    ∷ (codes "y", 31536000)
    ∷ (codes "yr", 31536000)
    ∷ (codes "year", 31536000)
    ∷ (codes "years", 31536000)
    ∷ []

abbrev seconds_of : Option (Bytes × ℕ) → ℕ
seconds_of none = 0
seconds_of (some (word, secs)) = secs

unfoldable pub unit_of : Bytes → ℕ
unfolding bytes_eq
unit_of word = seconds_of (find (λ u. bytes_eq u.0 word) units)

-- Up to the first digit, or to a NUL; `none` when more than `budget` bytes stand before it.
unfoldable pub to_digit : ℕ → Bytes → Option Bytes
to_digit budget [] = some []
to_digit zero (c ∷ s) = if c == 0 || is_digit c then some (c ∷ s) else none
to_digit (suc budget) (c ∷ s) =
    let rest = to_digit budget s in if c == 0 || is_digit c then some (c ∷ s) else rest

-- The digits, of which those after 1000000000 do not count.
unfoldable pub digits : ℕ → Bytes → ℕ × Bytes
digits n [] = (n, [])
digits n (c ∷ s) =
    let rest = digits (if ltb n 1000000000 then n * 10 + (c - b'0') else n) s in
    if is_digit c then rest else (n, c ∷ s)

-- The letters, of which the first 11 count: `room` more of them.
unfoldable pub word : ℕ → Bytes → Bytes × Bytes
word room [] = ([], [])
word zero (c ∷ s) = let rest = word zero s in if is_alpha c then ([], rest.1) else ([], c ∷ s)
word (suc room) (c ∷ s) =
    let rest = word room s in if is_alpha c then (c ∷ rest.0, rest.1) else ([], c ∷ s)

abbrev pub starts_digit : Bytes → Bool
starts_digit [] = false
starts_digit (c ∷ s) = is_digit c

-- A number and its unit: the seconds, 0 where the unit is not known, and what is left.
unfoldable pub pair : Bytes → ℕ × ℕ × Bytes
unfolding digits word unit_of skip
pair s =
    let (n, s1) = digits 0 s in
    let (w, s2) = word 11 (skip (λ c. c == b' ') s1) in
    (n, unit_of w, skip (λ c. c == b' ' || c == b',') s2)

-- At most `pairs` more of them.
unfoldable pub durations : ℕ → ℕ → Bytes → ℕ
unfolding pair
durations zero total s = total
durations (suc pairs) total s =
    let (n, unit, left) = pair s in
    let rest = durations pairs (total + n * unit) left in
    if not (starts_digit s) || unit == 0
    then total
    else if leb irc_ban_stated_max (total + n * unit)
    then irc_ban_stated_max
    else rest

abbrev from_digit : Option Bytes → ℕ
from_digit none = 0
from_digit (some s) = durations 4 0 s

unfoldable pub refusal_parse_duration : Bytes → ℕ
unfolding to_digit durations
refusal_parse_duration s = from_digit (to_digit 48 s)

-- Whatever the server says, no stated length is above thirty days.
durations-le :
    (pairs total : ℕ) (s : Bytes)
    → total ≤ irc_ban_stated_max
    → durations pairs total s ≤ irc_ban_stated_max
unfolding durations
durations-le zero total s h = h
durations-le (suc pairs) total s h =
    let p : ℕ × ℕ × Bytes = pair s in
    if_split (λ (n : ℕ). n ≤ irc_ban_stated_max) (not (starts_digit s) || p.1 == 0) total _ (λ _. h)
      (λ _.
        if_split (λ (n : ℕ). n ≤ irc_ban_stated_max) (leb irc_ban_stated_max (total + p.0 * p.1))
          irc_ban_stated_max _ (λ _. omega arith)
          (λ e. durations-le pairs (total + p.0 * p.1) p.2 (ground arith)))

from_digit-le : (o : Option Bytes) → from_digit o ≤ irc_ban_stated_max
from_digit-le none = omega arith
from_digit-le (some s) = durations-le 4 0 s (omega arith)

pub refusal_parse_duration-le : (s : Bytes) → refusal_parse_duration s ≤ irc_ban_stated_max
unfolding refusal_parse_duration
refusal_parse_duration-le s = from_digit-le (to_digit 48 s)
