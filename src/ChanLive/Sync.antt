-- ===== src/ChanLive/Sync.antt =====
-- src/chanlive.rs: the MODE lines that move a channel from its live modes to the stored ones.
use ircbot_rs.Prelude.{
  ℕ, Bool, true, false, not, ◌&&◌, ◌||◌, Option, none, some, List, [], ◌∷◌, ◌++◌, leb, ◌==◌,
  if◌then◌else◌, length, get_elem?, any, find,
}
use ircbot_rs.Cstr.{Bytes, codes, bytes_eq, eq_ic, is_empty}
use ircbot_rs.Cstr.Tok.{next, one_space}
use ircbot_rs.ChanCfg.Parse.{decimal, show}
use ircbot_rs.ChanCfg.Settings.{get, get_modes}
use ircbot_rs.Auth.{is_authorised}
use ircbot_rs.Queue
use ircbot_rs.State.{Chan, RosterEntry, BotState, bitch}
use ircbot_rs.Link.{World, irc_printf, sent_to, eol}
use ircbot_rs.ChanLive.Isupport.{all_digits, has_byte}
use ircbot_rs.ChanLive.Apply.{live_has}

-- `request`: the modes and the ban list, on our own JOIN.
unfoldable pub request : World → Chan → BotState → BotState
request w c st =
    irc_printf w (codes "MODE " ++ (c.name ++ (codes " +b" ++ eol)))
      (irc_printf w (codes "MODE " ++ (c.name ++ eol)) st)

-- The stored modes: which way each letter goes, if it is named, and the limit.
pub record Wanted : Type 0 where
  pub dir : ℕ → Option Bool
  pub limit : ℕ

abbrev pub mode_letters : Bytes
mode_letters = codes "imnpstkl"

abbrev pub set_dir : ℕ → Bool → (ℕ → Option Bool) → ℕ → Option Bool
set_dir m adding dir l = if l == m then some adding else dir l

-- The loop over the letters of the stored modes; `none` at a letter that is not known.
unfoldable pub read_dirs : Bytes → Bool → (ℕ → Option Bool) → Option (ℕ → Option Bool)
read_dirs [] adding dir = some dir
read_dirs (m ∷ s) adding dir =
    let plus = read_dirs s true dir in
    let minus = read_dirs s false dir in
    let rest = read_dirs s adding (set_dir m adding dir) in
    if m == b'+'
    then plus
    else if m == b'-'
    then minus
    else if not (has_byte m mode_letters)
    then none
    else rest

abbrev pub limit_of : Option Bytes → Option ℕ
limit_of none = none
limit_of (some a) =
    if all_digits a && leb 1 (decimal 0 a) && leb (decimal 0 a) 99999
    then some (decimal 0 a)
    else none

abbrev pub with_limit : (ℕ → Option Bool) → Option ℕ → Option Wanted
with_limit dir none = none
with_limit dir (some n) = some (record { dir = dir; limit = n })

abbrev pub is_plus : Option Bool → Bool
is_plus (some true) = true
is_plus (some false) = false
is_plus none = false

abbrev pub wanted_of : Option Bytes → Option (ℕ → Option Bool) → Option Wanted
wanted_of arg none = none
wanted_of arg (some dir) =
    if is_plus (dir b'l')
    then with_limit dir (limit_of arg)
    else some (record { dir = dir; limit = 0 })

abbrev pub wanted_from : Option Bytes × Bytes → Option Wanted
wanted_from (none, rest) = none
wanted_from (some letters, rest) =
    wanted_of (next one_space rest).0 (read_dirs letters true (λ l. none))

-- "+stnkl 20"; `none` where the stored modes cannot be used.
unfoldable pub wanted : Bytes → Option Wanted
unfolding read_dirs all_digits decimal next
wanted spec = if leb 128 (length spec) then none else wanted_from (next one_space spec)

-- One change of a MODE line of its own.
pub record ModeChange : Type 0 where
  pub adding : Bool
  pub letter : ℕ
  pub arg : Option Bytes

abbrev pub flag_change : Bool → ℕ → ModeChange
flag_change adding l = record { adding = adding; letter = l; arg = none }

-- A flag that stands the other way, or that is not known.
abbrev pub flag_changes : Bool → Bool → ℕ → Option Bool → List ModeChange
flag_changes known has l none = []
flag_changes known has l (some true) = if not known || not has then flag_change true l ∷ [] else []
flag_changes known has l (some false) = if not known || has then flag_change false l ∷ [] else []

abbrev pub flag_letters : Bytes
flag_letters = codes "imnpst"

unfoldable pub all_flag_changes : Wanted → Chan → Bytes → List ModeChange
all_flag_changes want c [] = []
all_flag_changes want c (l ∷ ls) =
    flag_changes c.live_known (live_has c l) l (want.dir l) ++ all_flag_changes want c ls

abbrev pub key_change : Bool → Bytes → ModeChange
key_change adding key = record { adding = adding; letter = b'k'; arg = some key }

unfoldable pub is_usable_key : Bytes → Bool
unfolding is_empty
is_usable_key key =
    not (is_empty key)
    && not (any (λ c. c == b' ' || c == b',' || c == b'\r' || c == b'\n' || c == b'\t') key)

-- a live key that is set, and that the server does not hide
abbrev pub is_shown : Chan → Bool
is_shown c = live_has c b'k' && not (is_empty c.live_key) && not (bytes_eq c.live_key (codes "*"))

abbrev pub new_key : Chan → List ModeChange
new_key c =
    if not c.live_known || not (live_has c b'k') || not (bytes_eq c.live_key c.key)
    then (if is_shown c && not (bytes_eq c.live_key c.key)
        then key_change false c.live_key ∷ []
        else [])
      ++ key_change true c.key ∷ []
    else []

abbrev pub drop_key : Chan → List ModeChange
drop_key c = if c.live_known && is_shown c then key_change false c.live_key ∷ [] else []

unfoldable pub key_changes : Option Bool → Chan → List ModeChange
unfolding is_usable_key bytes_eq live_has
key_changes none c = []
key_changes (some true) c = if is_usable_key c.key then new_key c else []
key_changes (some false) c = drop_key c

abbrev pub limit_change : ℕ → ModeChange
limit_change n = record { adding = true; letter = b'l'; arg = some (show n) }

unfoldable pub limit_changes : Bool → Wanted → Chan → List ModeChange
unfolding live_has
limit_changes skip want c = if skip then [] else elim (want.dir b'l') [
  | none ↦ []
  | some true ↦
      if not c.live_known || not (live_has c b'l') || not (c.live_limit == want.limit)
      then limit_change want.limit ∷ []
      else []
  | some false ↦ flag_changes c.live_known (live_has c b'l') b'l' (some false)
]

unfoldable pub changes : Bool → Wanted → Chan → List ModeChange
unfolding all_flag_changes key_changes limit_changes
changes skip want c =
    all_flag_changes want c flag_letters
    ++ (key_changes (want.dir b'k') c ++ limit_changes skip want c)

abbrev pub arg_text : Option Bytes → Bytes
arg_text none = []
arg_text (some a) = b' ' ∷ a

abbrev pub change_line : Bytes → ModeChange → Bytes
change_line name ch =
    codes "MODE "
    ++ (name ++ (b' ' ∷ (if ch.adding then b'+' else b'-') ∷ ch.letter ∷ arg_text ch.arg ++ eol))

unfoldable pub send_changes : World → Bytes → List ModeChange → BotState → BotState
send_changes w name [] st = st
send_changes w name (ch ∷ chs) st = send_changes w name chs (irc_printf w (change_line name ch) st)

abbrev sync_wanted :
    World → Bool → Bool → Bool → Chan → Option Wanted → BotState → Option ℕ × BotState
sync_wanted w skip dry require_known c none st = (none, st)
sync_wanted w skip dry require_known c (some want) st =
    if require_known && not c.live_known then (none, st) else (
      some (length (changes skip want c)),
      if dry then st else send_changes w c.name (changes skip want c) st,
    )

-- How many changes are queued; `none` is -1, nothing to act on. The summary text is left out, and a
-- channel that is not there, where the code would stop, gives `none`.
unfoldable pub mode_sync : World → ℕ → Bool → Bool → Bool → BotState → Option ℕ × BotState
unfolding wanted changes send_changes
mode_sync w ci skip dry require_known st = elim (get_elem? st.chans ci) [
  | none ↦ (none, st)
  | some c ↦ sync_wanted w skip dry require_known c (wanted (get_modes st (some c))) st
]

abbrev held : BotState → BotState
held st = record st { output = Queue.hold st.output }

-- A drain that loses the link disconnects.
abbrev released : World → BotState → BotState
released w st =
    if st.output.connected
    then sent_to st (Queue.release w.socket w.now_ms st.output)
    else record st { output = Queue.release w.socket w.now_ms st.output }

-- The changes are held and leave packed, several per MODE line.
unfoldable pub sync : World → ℕ → Bool → Bool → Bool → BotState → Option ℕ × BotState
unfolding mode_sync
sync w ci skip dry require_known st =
    let now = mode_sync w ci skip dry require_known st in
    let (n, st') = mode_sync w ci skip dry require_known (held st) in
    if dry then now else (n, released w st')

unfoldable pub apply_stored : World → ℕ → BotState → Option ℕ × BotState
unfolding sync
apply_stored w ci st = sync w ci false false false st

abbrev verdict : BotState → Option RosterEntry → Bool × Bool
verdict st none = (false, false)
verdict st (some r) = (true, is_authorised st r.hostmask)

-- Is the nick in the roster, and is it authorised?
unfoldable pub member_authorised : BotState → Chan → Bytes → Bool × Bool
unfolding eq_ic is_authorised
member_authorised st c nick = verdict st (find (λ r. eq_ic r.nick nick) c.roster)

-- `bitch`, of a channel that is listed or not
unfoldable pub is_bitch : BotState → ℕ → Bool
unfolding get
is_bitch st ci = not (get st (get_elem? st.chans ci) bitch == 0)
