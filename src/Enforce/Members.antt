-- ===== src/Enforce/Members.antt =====
-- src/chanenf.rs: the members of a channel, and which bans may be set there. The cache of the verdicts
-- in the roster is left out: who is authorised is looked up each time.
use ircbot_rs.Prelude.{
  ℕ, Bool, true, false, not, ◌&&◌, ◌||◌, Option, none, some, List, [], ◌∷◌, ◌++◌, ltb, leb, ◌==◌,
  if◌then◌else◌, length, set, any, find, position, get_elem?,
}
use ircbot_rs.Cstr.{Bytes, codes, eq_ic, is_empty, find_byte}
use ircbot_rs.Glob.{wildcard_match}
use ircbot_rs.State.{Chan, RosterEntry, BotState, enforce_modes, ban_type}
use ircbot_rs.Auth.{is_authorised, mask_overlaps_authorised, max_mask_len}
use ircbot_rs.ChanCfg.Parse.{split}
use ircbot_rs.ChanCfg.Settings.{get, get_modes}
use ircbot_rs.ChanCfg.Bans.{ban_mask_max}
use ircbot_rs.ChanLive.Isupport.{max_member_nick, nicklen, until}
use ircbot_rs.Servers.{remove}
use ircbot_rs.Enforce.Masks.{safe_token, ban_mask, contains}

abbrev pub max_roster_size : ℕ
max_roster_size = 500

abbrev pub is_alnum : ℕ → Bool
is_alnum c = leb b'0' c && leb c b'9' || leb b'A' c && leb c b'Z' || leb b'a' c && leb c b'z'

unfoldable pub valid_nick : BotState → Bytes → Bool
unfolding is_empty nicklen
valid_nick st n =
    not (is_empty n)
    && not (ltb (nicklen st.isup) (length n))
    && not (any (λ c. not (is_alnum c || contains c (codes "[]\\`_^{|}-"))) n)

-- The nick of a "nick!user@host", or of a bare nick.
unfoldable pub nuh_nick : Bytes → Option Bytes
unfolding is_empty
nuh_nick nuh =
    let n = until nuh (find_byte b'!' nuh) in
    if not (is_empty n) && ltb (length n) max_member_nick then some n else none

abbrev pub is_me : BotState → Bytes → Bool
is_me st nick = eq_ic nick st.current_nick

unfoldable pub rfind : Chan → Bytes → Option ℕ
rfind c nick = position (λ r. eq_ic r.nick nick) c.roster

abbrev pub remove_found : Chan → Option ℕ → Chan
remove_found c none = c
remove_found c (some i) = record c { roster = remove i c.roster }

unfoldable pub rremove : Bytes → Chan → Chan
unfolding rfind
rremove nick c = remove_found c (rfind c nick)

abbrev pub roster_put : Chan → RosterEntry → Option ℕ → Bool × Chan
roster_put c e (some i) = (true, record c { roster = set c.roster i e })
roster_put c e none =
    if leb max_roster_size (length c.roster)
    then (false, c)
    else (true, record c { roster = c.roster ++ e ∷ [] })

-- Adds an entry or replaces the one of that nick; false when the roster is full.
unfoldable pub roster_set : Bytes → Bytes → Bool → Bool → Bool → Chan → Bool × Chan
unfolding rfind
roster_set nick hostmask op halfop voice c =
    if leb max_member_nick (length nick) || leb max_mask_len (length hostmask)
    then (false, c)
    else roster_put c
        (record {
          nick = nick;
          hostmask = hostmask;
          is_op = op;
          is_halfop = halfop;
          is_voice = voice;
        })
        (rfind c nick)

unfoldable pub entry_authorised : BotState → RosterEntry → Bool
unfolding is_authorised
entry_authorised st e = is_me st e.nick || is_authorised st e.hostmask

abbrev member_at : BotState → Chan → Bytes → Option ℕ → Bool
member_at st c nuh none = is_authorised st nuh
member_at st c nuh (some i) = elim (get_elem? c.roster i) [
  | none ↦ is_authorised st nuh
  | some e ↦ if eq_ic e.hostmask nuh then entry_authorised st e else is_authorised st nuh
]

abbrev nuh_in : BotState → Bytes → Bytes → Option Chan → Bool
nuh_in st nick nuh none = is_authorised st nuh
nuh_in st nick nuh (some c) = member_at st c nuh (rfind c nick)

-- This bot, or an authorised user or bot?
unfoldable pub chan_nuh_authorised : BotState → ℕ → Bytes → Bool
unfolding nuh_nick entry_authorised rfind
chan_nuh_authorised st ci nuh = elim (nuh_nick nuh) [
  | none ↦ false
  | some nick ↦ if is_me st nick then true else nuh_in st nick nuh (get_elem? st.chans ci)
]

abbrev first_of : List Bytes → Bytes
first_of [] = []
first_of (w ∷ _) = w

-- Are the modes enforced, with a key among the stored ones?
unfoldable pub key_managed : BotState → ℕ → Bool
unfolding get get_modes split
key_managed st ci =
    let c = get_elem? st.chans ci in
    if get st c enforce_modes == 0
    then false
    else contains b'k' (first_of (split b' ' (get_modes st c)))

abbrev pub is_hit : BotState → Bytes → RosterEntry → Bool
is_hit st mask e = entry_authorised st e && wildcard_match mask e.hostmask

abbrev pub member_text : Option RosterEntry → Option Bytes
member_text none = none
member_text (some e) = some (codes "member " ++ e.nick)

abbrev pub members_of : BotState → Bytes → Option Chan → Option Bytes
members_of st mask none = none
members_of st mask (some c) = member_text (find (is_hit st mask) c.roster)

-- An authorised member of the channel whom the mask would hit.
unfoldable pub allowed_members : BotState → ℕ → Bytes → Option Bytes
unfolding entry_authorised wildcard_match
allowed_members st ci mask = members_of st mask (get_elem? st.chans ci)

abbrev pub members_if : BotState → Option ℕ → Bytes → Option Bytes
members_if st none mask = none
members_if st (some ci) mask = allowed_members st ci mask

abbrev pub or_overlap : BotState → Bytes → Option Bytes → Option Bytes
or_overlap st mask none = mask_overlaps_authorised st mask
or_overlap st mask (some who) = some who

-- Whom the mask would hit, or `none` where the ban may be set; without a channel, for a global ban.
unfoldable pub ban_allowed_why : BotState → Option ℕ → Bytes → Option Bytes
unfolding safe_token allowed_members mask_overlaps_authorised
ban_allowed_why st ci mask =
    if not (safe_token mask ban_mask_max)
    then some (codes "bad mask")
    else or_overlap st mask (members_if st ci mask)

abbrev pub is_ok : Option Bytes → Bool
is_ok none = true
is_ok (some _) = false

unfoldable pub ban_allowed : BotState → ℕ → Bytes → Bool
unfolding ban_allowed_why
ban_allowed st ci mask = is_ok (ban_allowed_why st (some ci) mask)

abbrev pub first_ok : BotState → ℕ → Option Bytes → Option Bytes → Option Bytes
first_ok st ci none rest = rest
first_ok st ci (some m) rest = if ban_allowed st ci m then some m else rest

-- The types in their order, those `seen` before passed over.
unfoldable pub try_types : BotState → ℕ → Bytes → List ℕ → List ℕ → Option Bytes
unfolding ban_mask ban_allowed
try_types st ci nuh seen [] = none
try_types st ci nuh seen (t ∷ ts) =
    let rest = try_types st ci nuh (t ∷ seen) ts in
    if any (λ s. s == t) seen then rest else first_ok st ci (ban_mask t nuh) rest

unfoldable pub auto_ban_mask : BotState → ℕ → Bytes → Option Bytes
unfolding try_types get
auto_ban_mask st ci nuh =
    try_types st ci nuh [] (get st (get_elem? st.chans ci) ban_type ∷ 2 ∷ 0 ∷ 7 ∷ 5 ∷ [])
