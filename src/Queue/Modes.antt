-- ===== src/Queue/Modes.antt =====
-- The line classes of src/sendq.rs and the packing of single MODE changes into one line.
use ircbot_rs.Prelude.{
  ℕ, zero, suc, ◌+◌, Bool, true, false, not, ◌&&◌, ◌||◌, Option, none, some, List, [], ◌∷◌, ◌++◌,
  ltb, leb, ◌==◌, if◌then◌else◌, length, take, drop, get_elem?, get_or, position, any, pred,
}
use ircbot_rs.Cstr.{Bytes, codes, eq_ic, is_utf8}

-- SENDQ_LANE_*
pub data Lane : Type 0 where
  proto prot rest : Lane

abbrev pub space : ℕ
space = b' '

-- `iter().take_while(p).count()`
unfoldable pub span_len : (ℕ → Bool) → Bytes → ℕ
span_len p [] = 0
span_len p (c ∷ s) = let n = span_len p s in if p c then suc n else 0

abbrev pub in_line : ℕ → Bool
in_line c = not (c == b'\r') && not (c == b'\n')

abbrev pub in_word : ℕ → Bool
in_word c = not (c == space) && in_line c

abbrev is_list_mode : ℕ → Bool
is_list_mode c = c == b'b' || c == b'e' || c == b'I'

abbrev ends_here : Option ℕ → Bool
ends_here none = true
ends_here (some c) = c == b'\r' || c == b'\n'

abbrev no_argument : Bytes → Option ℕ → Bool
no_argument p none = true
no_argument p (some i) = ends_here (get_elem? p (i + 1))

abbrev mode_word_len : Bytes → Option ℕ → ℕ
mode_word_len p none = span_len in_line p
mode_word_len p (some i) = i

abbrev query_at : Bytes → Bool
query_at p =
    let sp2 = position (λ c. c == space) p in
    let mlen = mode_word_len p sp2 in
    no_argument p sp2
    && (mlen == 2 && is_list_mode (get_or p 1 0) || mlen == 1 && is_list_mode (get_or p 0 0))

unfoldable pub mode_is_query : Bytes → Bool
unfolding span_len
mode_is_query line =
    let p = drop 5 line in
    elim (position (λ c. c == space) p) [ none ↦ true | some sp ↦ query_at (drop (sp + 1) p) ]

abbrev pub starts_argument : Option ℕ → Bool
starts_argument none = false
starts_argument (some c) = c == space

unfoldable pub lane_of : Bytes → Lane
unfolding span_len mode_is_query eq_ic
lane_of line =
    let verb = take (span_len in_word line) line in
    if eq_ic verb (codes "PONG")
      || eq_ic verb (codes "PING")
      || eq_ic verb (codes "NICK")
      || eq_ic verb (codes "USER")
      || eq_ic verb (codes "PASS")
      || eq_ic verb (codes "QUIT")
      || eq_ic verb (codes "CAP")
    then proto
    else if eq_ic verb (codes "KICK")
    then prot
    else if eq_ic verb (codes "MODE")
        && starts_argument (get_elem? line 4)
        && not (mode_is_query line)
    then prot
    else rest

pub record ModeItem : Type 0 where
  pub chan : Bytes
  pub sign : ℕ
  pub letter : ℕ
  pub arg : Bytes
  pub has_arg : Bool

abbrev pub max_chan : ℕ
max_chan = 65

-- Does the mode letter take an argument? `none` is a letter whose rule is not known.
unfoldable pub needs : ℕ → ℕ → Option Bool
needs sign letter =
    if any (λ c. c == letter) (codes "ovhbeIk")
    then some true
    else if letter == b'l'
    then some (sign == b'+')
    else if any (λ c. c == letter) (codes "imnpst")
    then some false
    else none

abbrev bool_eq : Bool → Bool → Bool
bool_eq true b = b
bool_eq false b = not b

-- The item, once the rule of its letter is known.
abbrev pub finish_item : Bytes → ℕ → ℕ → Bytes → Option Bool → Option ModeItem
finish_item chan sign letter arg none = none
finish_item chan sign letter arg (some n) =
    if not (bool_eq n (ltb 0 (length arg))) || leb 300 (length arg)
    then none
    else if not (is_utf8 arg)
    then none
    else some (record { chan = chan; sign = sign; letter = letter; arg = arg; has_arg = n })

abbrev pub skip_space : Bytes → Bytes
skip_space [] = []
skip_space (c ∷ s) = if c == space then s else c ∷ s

-- `p` begins at the sign.
abbrev pub item_at : Bytes → Bytes → Option ModeItem
item_at chan p =
    let sign = get_or p 0 0 in
    let letter = get_or p 1 0 in
    let third = get_or p 2 0 in
    let a = skip_space (drop 2 p) in
    let al = span_len in_word a in
    if not (sign == b'+') && not (sign == b'-')
      || letter == 0
      || letter == b'\r'
      || letter == b'\n'
      || not (third == space) && not (third == b'\r')
    then none
    else if starts_argument (get_elem? a al)
    then none
    else finish_item chan sign letter (take al a) (needs sign letter)

unfoldable pub mode_item_parse : Bytes → Option ModeItem
unfolding span_len needs eq_ic is_utf8
mode_item_parse line =
    if ltb (length line) 5 || not (eq_ic (take 5 line) (codes "MODE "))
    then none
    else (let p = drop 5 line in
        let cl = span_len in_word p in
        if cl == 0 || leb max_chan cl || not (starts_argument (get_elem? p cl))
        then none
        else if not (is_utf8 (take cl p))
        then none
        else item_at (take cl p) (drop (cl + 1) p))

-- The items packed behind the first one: as many as the limit `room` and the 400 bytes allow.
unfoldable pub following : ℕ → Bytes → ℕ → List Bytes → List ModeItem
unfolding mode_item_parse
following zero chan est lines = []
following (suc room) chan est [] = []
following (suc room) chan est (line ∷ lines) = elim (mode_item_parse line) [
  | none ↦ []
  | some it ↦
      let add = 2 + length it.arg + 1 in
      let more = following room chan (est + add) lines in
      if not (eq_ic it.chan chan) then [] else if ltb 400 (est + add) then [] else it ∷ more
]

-- `items` of `take_protection`; empty where the lane's head is no single change.
unfoldable pub take_items : ℕ → List Bytes → List ModeItem
unfolding following mode_item_parse
take_items limit [] = []
take_items limit (line ∷ lines) = elim (mode_item_parse line) [
  | none ↦ []
  | some first ↦
      let est = 5 + length first.chan + 3 + length first.arg + 1 in
      first ∷ following (pred limit) first.chan est lines
]

-- The signs and letters: a sign is written where it changes (`cur`).
unfoldable pub pack_letters : ℕ → List ModeItem → Bytes
pack_letters cur [] = []
pack_letters cur (it ∷ items) =
    (if it.sign == cur then it.letter ∷ [] else it.sign ∷ it.letter ∷ [])
    ++ pack_letters it.sign items

unfoldable pub pack_args : List ModeItem → Bytes
pack_args [] = []
pack_args (it ∷ items) = (if it.has_arg then space ∷ it.arg else []) ++ pack_args items

unfoldable pub pack : ModeItem → List ModeItem → Bytes
unfolding pack_letters pack_args
pack first more =
    codes "MODE "
    ++ first.chan
    ++ space ∷ pack_letters 0 (first ∷ more)
    ++ pack_args (first ∷ more)
    ++ b'\r' ∷ b'\n' ∷ []
