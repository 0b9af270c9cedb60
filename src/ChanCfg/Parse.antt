-- ===== src/ChanCfg/Parse.antt =====
-- The small parsers of src/chancfg.rs, and the standard library's splits and decimal text.
use ircbot_rs.Prelude.{
  ℕ, zero, suc, ◌+◌, ◌-◌, ◌*◌, ◌/◌, ◌%◌, Bool, false, not, ◌&&◌, ◌||◌, Option, none, some, List, [],
  ◌∷◌, ◌++◌, ltb, leb, ◌==◌, if◌then◌else◌, length, take, drop, get_or, all,
}
use ircbot_rs.Cstr.{Bytes, find_byte}

abbrev pub is_digit : ℕ → Bool
is_digit c = leb b'0' c && leb c b'9'

-- the value of a run of digits
unfoldable pub decimal : ℕ → Bytes → ℕ
decimal acc [] = acc
decimal acc (c ∷ s) = decimal (acc * 10 + (c - b'0')) s

-- An i64 has 19 digits at most, so `s.parse()` does not fail on 18.
unfoldable pub parse_ll : Bytes → Option ℕ
unfolding decimal
parse_ll s =
    if length s == 0 || ltb 18 (length s) || not (all is_digit s) then none else some (decimal 0 s)

unfoldable pub show_from : ℕ → ℕ → Bytes
show_from zero n = []
show_from (suc fuel) n =
    let rest = show_from fuel (n / 10) in
    if ltb n 10 then (b'0' + n) ∷ [] else rest ++ (b'0' + n % 10) ∷ []

-- `{}` of a number that is not negative
unfoldable pub show : ℕ → Bytes
unfolding show_from
show n = show_from (n + 1) n

abbrev pub is_plain : ℕ → Bool
is_plain c = leb 0x20 c && not (c == 0x7f) && not (c == b'|')

unfoldable pub plain_text : Bytes → Bool
plain_text = all is_plain

abbrev pub max_chan : ℕ
max_chan = 65

unfoldable pub valid_chan_name : Bytes → Bool
valid_chan_name b =
    if ltb (length b) 2
      || leb max_chan (length b)
      || not (get_or b 0 0 == b'#') && not (get_or b 0 0 == b'&')
    then false
    else all (λ c. ltb 0x20 c && not (c == 0x7f) && not (c == b',') && not (c == b'|')) b

abbrev pub c_modes_max : ℕ
c_modes_max = 64

unfoldable pub valid_modes_field : Bytes → Bool
valid_modes_field s =
    leb (length s) c_modes_max && all (λ c. leb 0x20 c && leb c 0x7e && not (c == b'|')) s

-- `s.splitn(max, sep)`: the last piece takes the rest.
unfoldable pub splitn : ℕ → ℕ → Bytes → List Bytes
splitn sep zero s = []
splitn sep (suc zero) s = s ∷ []
splitn sep (suc (suc n)) s = elim (find_byte sep s) [
  | none ↦ s ∷ []
  | some i ↦ take i s ∷ splitn sep (suc n) (drop (suc i) s)
]

abbrev pub pipe : ℕ
pipe = b'|'

abbrev pub split_pipes : Bytes → ℕ → List Bytes
split_pipes s max = splitn pipe max s

abbrev pub cons_head : ℕ → List Bytes → List Bytes
cons_head c [] = (c ∷ []) ∷ []
cons_head c (w ∷ ws) = (c ∷ w) ∷ ws

-- `s.split(sep)`
unfoldable pub split : ℕ → Bytes → List Bytes
split sep [] = [] ∷ []
split sep (c ∷ s) = let rest = split sep s in if c == sep then [] ∷ rest else cons_head c rest

-- `s.split_once(sep)`
unfoldable pub split_once : ℕ → Bytes → Option (Bytes × Bytes)
split_once sep s = elim (find_byte sep s) [ none ↦ none | some i ↦ some (take i s, drop (suc i) s) ]
