-- ===== src/Enforce/Masks.antt =====
-- The ban masks of src/chanenf.rs.
use ircbot_rs.Prelude.{
  ℕ, suc, ◌+◌, ◌-◌, ◌%◌, Bool, true, false, not, ◌&&◌, ◌||◌, Option, none, some, [], ◌∷◌, ◌++◌, ltb,
  leb, ◌==◌, if◌then◌else◌, length, take, drop, any, all,
}
use ircbot_rs.Cstr.{Bytes, codes, is_empty, find_byte}
use ircbot_rs.Auth.{max_mask_len}
use ircbot_rs.ChanCfg.Bans.{ban_mask_max}
use ircbot_rs.ChanLive.Isupport.{max_member_nick}

-- A token for an IRC line: no space, no control byte.
unfoldable pub safe_token : Bytes → ℕ → Bool
unfolding is_empty
safe_token s max =
    not (is_empty s) && leb (length s) max && all (λ c. ltb 0x20 c && not (c == 0x7f)) s

unfoldable pub all_in : Bytes → Bytes → Bool
unfolding is_empty
all_in s set = not (is_empty s) && all (λ c. any (λ d. d == c) set) s

abbrev pub starts : ℕ → Bytes → Bool
starts x [] = false
starts x (c ∷ s) = c == x

-- The loop over an IPv6 address from index `i`, with the colons before it.
unfoldable pub widen_v6 : Bytes → ℕ → ℕ → Bytes → Bytes
widen_v6 host i colons [] = host
widen_v6 host i colons (c ∷ s) =
    let same = widen_v6 host (suc i) colons s in
    let more = widen_v6 host (suc i) (suc colons) s in
    if not (c == b':')
    then same
    else if ltb (suc colons) 4 && starts b':' s
    then host
    else if suc colons == 4
    then (if ltb (max_mask_len - 1) (i + 2) then host else take (suc i) host ++ b'*' ∷ [])
    else more

-- The dots, where the last one stands, and the length of the last segment.
unfoldable pub scan_v4 : ℕ → ℕ → ℕ → ℕ → Bytes → Option (ℕ × ℕ × ℕ)
scan_v4 i dots last seg [] = some (dots, last, seg)
scan_v4 i dots last seg (c ∷ s) =
    let dotted = scan_v4 (suc i) (suc dots) i 0 s in
    let digit = scan_v4 (suc i) dots last (suc seg) s in
    if c == b'.' then (if seg == 0 || ltb 3 seg then none else dotted) else digit

abbrev pub widen_v4 : Bytes → Option (ℕ × ℕ × ℕ) → Bytes
widen_v4 host none = host
widen_v4 host (some (dots, last, seg)) =
    if not (dots == 3) || seg == 0 || ltb 3 seg || ltb (max_mask_len - 1) (last + 2)
    then host
    else take (suc last) host ++ b'*' ∷ []

-- The labels of a name, none of them empty; `first` at its start.
unfoldable pub scan_labels : Bool → ℕ → Bytes → Option ℕ
unfolding is_empty
scan_labels first labels [] = some labels
scan_labels first labels (c ∷ s) =
    let next = scan_labels false (suc labels) s in
    let same = scan_labels false labels s in
    if c == b'.' then (if first || is_empty s || starts b'.' s then none else next) else same

abbrev pub behind_dot : Bytes → Option ℕ → Bytes
behind_dot host none = host
behind_dot host (some d) = b'*' ∷ drop d host

abbrev pub widen_name : Bytes → Option ℕ → Bytes
widen_name host none = host
widen_name host (some labels) = if ltb labels 3 then host else behind_dot host (find_byte b'.' host)

abbrev pub contains : ℕ → Bytes → Bool
contains x s = any (λ c. c == x) s

-- The host widened one step; cloaks and short names stay as they are.
unfoldable pub widen_host : Bytes → Bytes
unfolding all_in widen_v6 scan_v4 scan_labels
widen_host host =
    if contains b'/' host
    then host
    else if contains b':' host
    then (if not (all_in host (codes "0123456789abcdefABCDEF:."))
        then host
        else widen_v6 host 0 0 host)
    else if all_in host (codes "0123456789.")
    then widen_v4 host (scan_v4 0 0 0 0 host)
    else widen_name host (scan_labels true 1 host)

-- `strip_prefix('~')`, or the text itself
abbrev pub strip_tilde : Bytes → Bytes
strip_tilde [] = []
strip_tilde (c ∷ s) = if c == b'~' then s else c ∷ s

abbrev pub nick_part : ℕ → Bytes → Bytes
nick_part typ nick = if leb 5 typ then nick else b'*' ∷ []

abbrev pub user_part : ℕ → Bytes → Bytes
user_part typ user =
    if typ % 5 == 0
    then user
    else if typ % 5 == 1 || typ % 5 == 3
    then b'*' ∷ strip_tilde user
    else b'*' ∷ []

abbrev pub host_part : ℕ → Bytes → Bytes
host_part typ host = if typ == 3 || typ == 4 || typ == 8 || typ == 9 then widen_host host else host

-- Literal text: no wildcard, separator or control byte.
abbrev pub is_literal : Bytes → Bool
is_literal p =
    safe_token p max_mask_len
    && not (any (λ c. c == b'*' || c == b'?' || c == b'!' || c == b'@' || c == b',') p)

abbrev pub mask_of : ℕ → Bytes → Bytes → Bytes → Bytes
mask_of typ nick user host =
    nick_part typ nick ++ b'!' ∷ (user_part typ user ++ b'@' ∷ host_part typ host)

abbrev pub short_mask : Bytes → Option Bytes
short_mask out = if leb (length out) ban_mask_max then some out else none

-- The pieces have been cut.
abbrev pub mask_pieces : ℕ → Bytes → Bytes → Bytes → Option Bytes
mask_pieces typ nick user host =
    if is_empty nick
      || leb max_member_nick (length nick)
      || is_empty user
      || leb 64 (length user)
      || is_empty host
      || leb max_mask_len (length host)
    then none
    else if not (is_literal nick) || not (is_literal user) || not (is_literal host)
    then none
    else short_mask (mask_of typ nick user host)

-- The '@' is `at` bytes behind the '!' at `bang`.
abbrev pub mask_cut : ℕ → Bytes → ℕ → Option ℕ → Option Bytes
mask_cut typ nuh bang none = none
mask_cut typ nuh bang (some at) =
    if ltb at 2
    then none
    else mask_pieces typ (take bang nuh) (take (at - 1) (drop (suc bang) nuh))
        (drop (suc (bang + at)) nuh)

abbrev pub mask_bang : ℕ → Bytes → Option ℕ → Option Bytes
mask_bang typ nuh none = none
mask_bang typ nuh (some bang) = mask_cut typ nuh bang (find_byte b'@' (drop bang nuh))

-- The mask of one of the ban types 0 to 9.
unfoldable pub ban_mask : ℕ → Bytes → Option Bytes
unfolding widen_host safe_token is_empty
ban_mask typ nuh = if ltb 9 typ then none else mask_bang typ nuh (find_byte b'!' nuh)
