-- ===== src/ChanLive/Isupport.antt =====
-- src/chanlive.rs: 005 lines, and what is read from them.
use ircbot_rs.Prelude.{
  ℕ, zero, suc, ◌+◌, ◌-◌, ◌^◌, Bool, not, ◌&&◌, ◌||◌, Option, none, some, List, [], ◌∷◌, ltb, leb,
  ◌==◌, if◌then◌else◌, length, take, drop, get_or, any, all, min,
}
use ircbot_rs.Cstr.{Bytes, codes, bytes_eq, is_empty, find_byte, trunc}
use ircbot_rs.Cstr.Tok.{words, one_space}
use ircbot_rs.Cstr.Scan.{is_digit}
use ircbot_rs.ChanCfg.Parse.{decimal}
use ircbot_rs.State.{Isupport, BotState, isupport_modes_default, nicklen_default}
use ircbot_rs.Queue.{isupport_modes_max}

abbrev pub maxlist_default : ℕ
maxlist_default = 100

abbrev pub ban_list_cap : ℕ
ban_list_cap = 200

abbrev pub max_member_nick : ℕ
max_member_nick = 32

-- Six digits fit an i32.
unfoldable pub all_digits : Bytes → Bool
unfolding is_empty
all_digits s = not (is_empty s) && leb (length s) 6 && all is_digit s

-- A value that does not fit an i64 reads as 0.
unfoldable pub parse_ts : Bytes → ℕ
unfolding is_empty decimal
parse_ts s =
    if is_empty s || ltb 20 (length s) || not (all is_digit s)
    then 0
    else if ltb (decimal 0 s) (2 ^ 63)
    then decimal 0 s
    else 0

abbrev pub number_or : ℕ → Bytes → ℕ
number_or old val = if all_digits val && leb 1 (decimal 0 val) then decimal 0 val else old

abbrev pub until : Bytes → Option ℕ → Bytes
until s none = s
until s (some e) = take e s

abbrev pub maxlist_entry : Bytes → Bytes → ℕ → ℕ
maxlist_entry group num old = if any (λ c. c == b'b') group then number_or old num else old

-- What follows the number goes on behind its comma, if it has one.
abbrev pub at_comma : Bytes → ℕ → Option ℕ → (Bytes → ℕ → ℕ) → ℕ
at_comma rest v none more = v
at_comma rest v (some e) more = more (drop (suc e) rest) v

abbrev pub at_colon : Bytes → ℕ → Option ℕ → (Bytes → ℕ → ℕ) → ℕ
at_colon p old none more = old
at_colon p old (some colon) more =
    let rest = drop (suc colon) p in
    let comma = find_byte b',' rest in
    at_comma rest (maxlist_entry (take colon p) (until rest comma) old) comma more

-- "beI:100,k:5": the loop over the groups, with fuel.
unfoldable pub maxlist : ℕ → Bytes → ℕ → ℕ
unfolding all_digits decimal
maxlist zero p old = old
maxlist (suc fuel) p old = at_colon p old (find_byte b':' p) (λ r v. maxlist fuel r v)

abbrev pub is_alpha : ℕ → Bool
is_alpha c = leb b'a' c && leb c b'z' || leb b'A' c && leb c b'Z'

-- "(ohv)@%+", with the parenthesis at `close`
abbrev pub set_prefix : Bytes → Isupport → Option ℕ → Isupport
set_prefix val is none = is
set_prefix val is (some close) =
    let ml = close - 1 in
    let letters = take ml (drop 1 val) in
    let symbols = drop (close + 1) val in
    if ml == 0 || not (ml == length symbols) || leb 9 ml || not (all is_alpha letters)
    then is
    else record is { prefix_modes = letters; prefix_syms = symbols }

abbrev pub list_cap : ℕ
list_cap = 64

abbrev pub cons_list : Bytes → Option (List Bytes) → Option (List Bytes)
cons_list f none = none
cons_list f (some l) = some (f ∷ l)

-- Lists that have to end at a comma, and the last one, which is cut.
unfoldable pub mode_lists : ℕ → Bytes → Option (List Bytes)
mode_lists zero p = some (trunc (until p (find_byte b',' p)) list_cap ∷ [])
mode_lists (suc n) p = elim (find_byte b',' p) [
  | none ↦ none
  | some c ↦ if leb list_cap c then none else cons_list (take c p) (mode_lists n (drop (suc c) p))
]

abbrev pub set_lists : Isupport → Option (List Bytes) → Isupport
set_lists is (some (a ∷ b ∷ c ∷ d ∷ _)) = record is { cm_a = a; cm_b = b; cm_c = c; cm_d = d }
set_lists is _ = is

abbrev pub set_modes : Bool → Bytes → Isupport → Isupport
set_modes neg val is =
    if neg
    then record is { modes = isupport_modes_default }
    else if is_empty val
    then record is { modes = isupport_modes_max }
    else if all_digits val && leb 1 (decimal 0 val)
    then record is { modes = min (decimal 0 val) isupport_modes_max }
    else is

abbrev pub set_maxlist : Bool → Bytes → Isupport → Isupport
set_maxlist neg val is = record is {
  maxlist_b = if neg then 0 else maxlist (length val) val is.maxlist_b;
}

abbrev pub set_maxbans : Bytes → Isupport → Isupport
set_maxbans val is =
    if is.maxlist_b == 0 then record is { maxlist_b = number_or is.maxlist_b val } else is

abbrev pub set_nicklen : Bool → Bytes → Isupport → Isupport
set_nicklen neg val is = record is {
  nicklen = if neg then nicklen_default else number_or is.nicklen val;
}

abbrev pub put_prefix : Bool → Bytes → Isupport → Isupport
put_prefix neg val is =
    if neg
    then record is { prefix_modes = codes "ov"; prefix_syms = codes "@+" }
    else if not (get_or val 0 0 == b'(')
    then is
    else set_prefix val is (find_byte b')' val)

abbrev pub put_chanmodes : Bool → Bytes → Isupport → Isupport
put_chanmodes neg val is = if neg then is else set_lists is (mode_lists 3 val)

abbrev pub named_token : Bool → Bytes → Bytes → Isupport → Isupport
named_token neg name val is =
    if bytes_eq name (codes "MODES")
    then set_modes neg val is
    else if bytes_eq name (codes "MAXLIST")
    then set_maxlist neg val is
    else if bytes_eq name (codes "MAXBANS")
    then set_maxbans val is
    else if bytes_eq name (codes "NICKLEN")
    then set_nicklen neg val is
    else if bytes_eq name (codes "PREFIX")
    then put_prefix neg val is
    else if bytes_eq name (codes "CHANMODES")
    then put_chanmodes neg val is
    else is

abbrev pub valued_token : Bool → Bytes → Option ℕ → Isupport → Isupport
valued_token neg tok none is = named_token neg tok [] is
valued_token neg tok (some e) is = named_token neg (take e tok) (drop (e + 1) tok) is

unfoldable pub isupport_token : Bytes → Isupport → Isupport
unfolding maxlist mode_lists all_digits decimal is_empty
isupport_token tok is =
    let neg = get_or tok 0 0 == b'-' in
    let body = if neg then drop 1 tok else tok in valued_token neg body (find_byte b'=' body) is

-- Up to "are supported by this server".
unfoldable pub isupport_tokens : List Bytes → Isupport → Isupport
unfolding isupport_token
isupport_tokens [] is = is
isupport_tokens (tok ∷ toks) is =
    let rest = isupport_tokens toks (if ltb (length tok) 120 then isupport_token tok is else is) in
    if get_or tok 0 0 == b':' then is else rest

-- The tokens behind our nick. The queue has the limit of changes per line beside `isup`.
unfoldable pub isupport_parse : Bytes → BotState → BotState
unfolding words isupport_tokens
isupport_parse params st =
    let is = isupport_tokens (drop 1 (words (suc (length params)) one_space params)) st.isup in
    record st { isup = is; output = record st.output { isup_modes = is.modes } }

abbrev pub has_byte : ℕ → Bytes → Bool
has_byte m s = any (λ c. c == m) s

unfoldable pub is_prefix_mode : Isupport → ℕ → Bool
is_prefix_mode is m = not (m == 0) && has_byte m is.prefix_modes

-- Does a mode letter take an argument when it is set, or cleared?
unfoldable pub mode_has_arg : Isupport → ℕ → Bool → Bool
unfolding is_prefix_mode
mode_has_arg is m adding =
    is_prefix_mode is m || has_byte m is.cm_a || has_byte m is.cm_b || has_byte m is.cm_c && adding

unfoldable pub nicklen : Isupport → ℕ
nicklen is = min (if ltb 0 is.nicklen then is.nicklen else nicklen_default) (max_member_nick - 1)

unfoldable pub ban_cap : Isupport → ℕ
ban_cap is = min (if ltb 0 is.maxlist_b then is.maxlist_b else maxlist_default) ban_list_cap
