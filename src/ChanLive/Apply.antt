-- ===== src/ChanLive/Apply.antt =====
-- src/chanlive.rs: the live modes and the ban list of a channel, from 324, 329, 367, 368 and MODE.
use ircbot_rs.Prelude.{
  ℕ, ◌+◌, Bool, true, false, not, ◌&&◌, ◌||◌, Option, none, some, List, [], ◌∷◌, ◌++◌, leb, ◌==◌,
  if◌then◌else◌, length, take, set, any, position,
}
use ircbot_rs.Cstr.{Bytes, codes, bytes_eq, eq_ic, is_empty, trunc}
use ircbot_rs.Cstr.Tok.{next, one_space}
use ircbot_rs.ChanCfg.Parse.{decimal}
use ircbot_rs.State.{Chan, Flags, LiveBan, RosterEntry, Isupport, BotState}
use ircbot_rs.Channel.{find, modify}
use ircbot_rs.Channel.Access.{max_key}
use ircbot_rs.Channel.Unban.{max_mask_len}
use ircbot_rs.ChanLive.Isupport.{
  all_digits, parse_ts, is_alpha, is_prefix_mode, mode_has_arg, ban_cap, max_member_nick,
}

-- The bits of `live_flags`, by the letter; what is no letter has none.
unfoldable pub set_flag : ℕ → Bool → Flags → Flags
set_flag m v flags = if is_alpha m then (λ l. if l == m then v else flags l) else flags

unfoldable pub live_has : Chan → ℕ → Bool
live_has c l = is_alpha l && c.live_flags l

abbrev pub same_mask : Bytes → LiveBan → Bool
same_mask mask b = eq_ic b.mask mask

abbrev pub new_ban : Bytes → Bytes → ℕ → LiveBan
new_ban mask setter when = record {
  mask = mask;
  setter = trunc setter (max_member_nick + 32);
  when = when;
}

-- `cap` is `isup.ban_cap()`; a clipped mask is never stored.
unfoldable pub ban_add : ℕ → Bytes → Bytes → ℕ → Chan → Chan
unfolding is_empty eq_ic
ban_add cap mask setter when c =
    if is_empty mask || leb max_mask_len (length mask)
    then c
    else if any (same_mask mask) c.bans
    then c
    else if leb cap (length c.bans)
    then record c { ban_overflow_logged = true }
    else record c { bans = c.bans ++ new_ban mask setter when ∷ [] }

abbrev pub last_of : LiveBan → List LiveBan → LiveBan
last_of x [] = x
last_of x (y ∷ ys) = last_of y ys

-- The last ban takes the place of the one at the index.
abbrev pub swap_remove : ℕ → List LiveBan → List LiveBan
swap_remove i [] = []
swap_remove i (x ∷ xs) = take (length xs) (set (x ∷ xs) i (last_of x xs))

abbrev pub remove_at : List LiveBan → Option ℕ → List LiveBan
remove_at bans none = bans
remove_at bans (some i) = swap_remove i bans

unfoldable pub ban_del : Bytes → Chan → Chan
ban_del mask c = record c { bans = remove_at c.bans (position (same_mask mask) c.bans) }

unfoldable pub ban_list_end : Chan → Chan
ban_list_end c = record c {
  bans = if c.ban_list_open then c.bans else [];
  ban_list_open = false;
  ban_list_known = true;
}

-- The modes of members that are kept here; 'o' is kept elsewhere.
abbrev rank : ℕ → Bool → RosterEntry → RosterEntry
rank ch adding r =
    if ch == b'h'
    then record r { is_halfop = adding }
    else if ch == b'v'
    then record r { is_voice = adding }
    else r

-- the first member of that nick
unfoldable pub rank_member : ℕ → Bool → Bytes → List RosterEntry → List RosterEntry
rank_member ch adding nick [] = []
rank_member ch adding nick (r ∷ rs) =
    let rest = rank_member ch adding nick rs in
    if eq_ic r.nick nick then rank ch adding r ∷ rs else r ∷ rest

abbrev pub rank_named : ℕ → Bool → Option Bytes → Chan → Chan
rank_named ch adding none c = c
rank_named ch adding (some nick) c = record c { roster = rank_member ch adding nick c.roster }

abbrev pub change_ban : Isupport → ℕ → Bool → Bool → Option Bytes → Chan → Chan
change_ban is now adding from_324 none c = c
change_ban is now adding from_324 (some a) c =
    if from_324 then c else if adding then ban_add (ban_cap is) a [] now c else ban_del a c

abbrev pub key_or : Option Bytes → Bytes → Bytes
key_or none old = old
key_or (some a) old = trunc a max_key

abbrev pub change_key : Bool → Option Bytes → Chan → Chan
change_key adding a c =
    if adding
    then record c { live_flags = set_flag b'k' true c.live_flags; live_key = key_or a c.live_key }
    else record c { live_flags = set_flag b'k' false c.live_flags; live_key = [] }

abbrev pub set_limit : Option Bytes → Chan → Chan
set_limit none c = c
set_limit (some a) c =
    if all_digits a
    then record c { live_flags = set_flag b'l' true c.live_flags; live_limit = decimal 0 a }
    else c

abbrev pub change_limit : Bool → Option Bytes → Chan → Chan
change_limit adding a c =
    if adding
    then set_limit a c
    else record c { live_flags = set_flag b'l' false c.live_flags; live_limit = 0 }

-- One letter that is no sign, with its argument.
unfoldable pub change_mode : Isupport → ℕ → Bool → Bool → ℕ → Option Bytes → Chan → Chan
unfolding set_flag ban_add ban_del rank_member is_prefix_mode mode_has_arg ban_cap all_digits
    decimal
change_mode is now from_324 adding ch a c =
    if ch == b'b'
    then change_ban is now adding from_324 a c
    else if ch == b'k'
    then change_key adding a c
    else if ch == b'l'
    then change_limit adding a c
    else if is_prefix_mode is ch
    then rank_named ch adding a c
    else if not (mode_has_arg is ch adding) && is_alpha ch
    then record c { live_flags = set_flag ch adding c.live_flags }
    else c

-- The next argument, and what is left behind it.
abbrev pub Args : Type 0
Args = Option Bytes × Bytes

abbrev pub next_args : Args → Args
next_args (none, toks) = (none, toks)
next_args (some a, toks) = next one_space toks

abbrev pub is_some : Option Bytes → Bool
is_some none = false
is_some (some _) = true

-- The letters, under a sign.
unfoldable pub apply_letters : Isupport → ℕ → Bool → Bytes → Bool → Args → Chan → Chan
unfolding change_mode next
apply_letters is now from_324 [] adding args c = c
apply_letters is now from_324 (ch ∷ modes) adding args c =
    let plus = apply_letters is now from_324 modes true args c in
    let minus = apply_letters is now from_324 modes false args c in
    let has_arg = mode_has_arg is ch adding in
    let a = if has_arg then args.0 else none in
    let args' = if has_arg then next_args args else args in
    let skipped = has_arg && not (is_some a) && not (ch == b'k') in
    let rest =
      apply_letters is now from_324 modes adding args'
        (if skipped then c else change_mode is now from_324 adding ch a c) in
    if ch == b'+' then plus else if ch == b'-' then minus else rest

abbrev pub clear_live : Chan → Chan
clear_live c = record c {
  live_flags = λ letter. false;
  live_key = [];
  live_limit = 0;
  live_known = true;
}

-- `apply`, on the channel: a 324 or a MODE.
unfoldable pub apply : Isupport → ℕ → Bytes → Bytes → Bool → Chan → Chan
unfolding apply_letters
apply is now modes args from_324 c =
    apply_letters is now from_324 modes true (next one_space args)
      (if from_324 then clear_live c else c)

abbrev pub ts_or_zero : Option Bytes → ℕ
ts_or_zero none = 0
ts_or_zero (some t) = parse_ts t

abbrev pub text_or_empty : Option Bytes → Bytes
text_or_empty none = []
text_or_empty (some t) = t

abbrev pub apply_324 : Isupport → ℕ → Option Bytes × Bytes → Chan → Chan
apply_324 is now (none, rest) c = record c { enf_dirty = true }
apply_324 is now (some modes, rest) c = record (apply is now modes rest true c) { enf_dirty = true }

abbrev pub open_list : Chan → Chan
open_list c = record c { bans = if c.ban_list_open then c.bans else []; ban_list_open = true }

-- mask, setter and time of a 367
abbrev pub list_ban : Isupport → Option Bytes × Bytes → Chan → Chan
list_ban is (none, rest) c = c
list_ban is (some mask, rest) c =
    let (setter, rest') = next one_space rest in
    let (ts, _) = next one_space rest' in
    ban_add (ban_cap is) mask (text_or_empty setter) (ts_or_zero ts) (open_list c)

-- What a numeric does to the channel that it names; `rest` follows the name.
unfoldable pub chan_numeric : Isupport → ℕ → Bytes → Bytes → Chan → Chan
unfolding apply next ban_list_end parse_ts
chan_numeric is now command rest c =
    if bytes_eq command (codes "324")
    then apply_324 is now (next one_space rest) c
    else if bytes_eq command (codes "329")
    then record c { live_created = ts_or_zero (next one_space rest).0 }
    else if bytes_eq command (codes "367")
    then list_ban is (next one_space rest) c
    else if bytes_eq command (codes "368")
    then record (ban_list_end c) { enf_dirty = true }
    else c

abbrev numeric_at : ℕ → Bytes → Bytes → BotState → Option ℕ → BotState
numeric_at now command rest st none = st
numeric_at now command rest st (some ci) = modify (chan_numeric st.isup now command rest) ci st

abbrev numeric_for : ℕ → Bytes → Option Bytes × Bytes → BotState → BotState
numeric_for now command (none, rest) st = st
numeric_for now command (some name, rest) st = numeric_at now command rest st (find st name)

abbrev past_nick : ℕ → Bytes → Option Bytes × Bytes → BotState → BotState
past_nick now command (none, rest) st = st
past_nick now command (some _, rest) st = numeric_for now command (next one_space rest) st

-- `params` are "<me> <chan> <rest...>".
unfoldable pub numeric : ℕ → Bytes → Bytes → BotState → BotState
unfolding chan_numeric
numeric now command params st =
    if leb 1024 (length params) then st else past_nick now command (next one_space params) st
