-- ===== src/Servers.antt =====
-- src/irc_client.rs: which server is dialled, and for how long one that refused the bot is left alone.
pub mod Duration
pub mod Refusal
pub mod Backoff
pub mod Pick
pub mod Hold
pub mod Removal
pub mod Nick
pub mod Search
pub mod Text
use ircbot_rs.Prelude.{
  ℕ, zero, suc, ◌+◌, ◌-◌, ◌*◌, ◌%◌, Bool, true, false, not, ◌&&◌, ◌||◌, Option, none, some, List,
  [], ◌∷◌, ◌++◌, ltb, leb, ◌==◌, if◌then◌else◌, length, get_elem?, set, take, drop, min, max,
}
use ircbot_rs.Cstr.{Bytes, codes, is_empty, trunc}

pub data ServerBlockKind : Type 0 where
  no_block throttled banned banned_temp banned_perm : ServerBlockKind

pub record ServerBlock : Type 0 where
  pub kind : ServerBlockKind
  pub until : ℕ
  pub strikes : ℕ
  pub reason : Bytes

-- `ServerBlock::default`
abbrev pub open_block : ServerBlock
open_block = record { kind = no_block; until = 0; strikes = 0; reason = [] }

-- The fields of `BotState` about servers.
pub record Servers : Type 0 where
  pub server_list : List Bytes
  pub server_blocks : List ServerBlock
  pub current_server_index : ℕ
  pub irc_server_idx : Option ℕ
  pub irc_refusal : Bytes
  pub irc_refusal_ban : Bool
  pub irc_blocked_logged : Bool

abbrev pub max_servers : ℕ
max_servers = 10

abbrev pub irc_refusal_len : ℕ
irc_refusal_len = 256

abbrev pub is_perm : ServerBlockKind → Bool
is_perm banned_perm = true
is_perm no_block = false
is_perm throttled = false
is_perm banned = false
is_perm banned_temp = false

abbrev pub is_none : ServerBlockKind → Bool
is_none no_block = true
is_none throttled = false
is_none banned = false
is_none banned_temp = false
is_none banned_perm = false

-- Is the server of this block held back?
abbrev pub is_held : ℕ → ServerBlock → Bool
is_held now b = is_perm b.kind || not (is_none b.kind) && ltb now b.until

abbrev pub or_open : Option ServerBlock → ServerBlock
or_open none = open_block
or_open (some b) = b

-- The block at an index; there is one for each server.
abbrev pub block_at : Servers → ℕ → ServerBlock
block_at s i = or_open (get_elem? s.server_blocks i)

-- The slots from `(start + k) % n` on, `m` of them to go.
unfoldable pub pick_from : ℕ → Servers → ℕ → ℕ → ℕ → Option ℕ
pick_from now s start zero k = none
pick_from now s start (suc m) k =
    let i = (start + k) % length s.server_list in
    let rest = pick_from now s start m (suc k) in
    if is_held now (block_at s i) then rest else some i

abbrev pub start_of : Servers → ℕ
start_of s = if ltb s.current_server_index (length s.server_list) then s.current_server_index else 0

abbrev pub picked : Servers → Option ℕ → Option ℕ × Servers
picked s (some i) = (some i, record s { irc_blocked_logged = false })
picked s none = (none, record s { irc_blocked_logged = true })

-- The lines that are logged when every server is held are left out, and with them `soonest`.
unfoldable pub pick_server : ℕ → Servers → Option ℕ × Servers
unfolding pick_from
pick_server now s =
    if length s.server_list == 0
    then (none, s)
    else picked s (pick_from now s (start_of s) (length s.server_list) 0)

-- What `connect` does before it dials, where there is no link yet.
abbrev pub to_dial : Option ℕ × Servers → Option ℕ × Servers
to_dial (none, s) = (none, s)
to_dial (some i, s) = (
  some i,
  record s {
    current_server_index = i;
    irc_server_idx = some i;
    irc_refusal = [];
    irc_refusal_ban = false;
  },
)

unfoldable pub dial : ℕ → Servers → Option ℕ × Servers
unfolding pick_server
dial now s = to_dial (pick_server now s)

abbrev pub irc_throttle_backoff : ℕ
irc_throttle_backoff = 60

abbrev pub irc_throttle_backoff_max : ℕ
irc_throttle_backoff_max = 1800

abbrev pub irc_ban_backoff : ℕ
irc_ban_backoff = 900

abbrev pub irc_ban_backoff_max : ℕ
irc_ban_backoff_max = 86400

abbrev pub irc_ban_grace : ℕ
irc_ban_grace = 30

-- `i` runs from 1 up to the strikes.
unfoldable pub backoff_loop : ℕ → ℕ → ℕ → ℕ
backoff_loop zero s cap = s
backoff_loop (suc n) s cap = let rest = backoff_loop n (s * 2) cap in if ltb s cap then rest else s

unfoldable pub refusal_backoff : ℕ → ℕ → ℕ → ℕ
unfolding backoff_loop
refusal_backoff base strikes cap = min (backoff_loop (strikes - 1) base cap) cap

abbrev pub hold_for : ServerBlockKind → ℕ → ℕ → ℕ
hold_for throttled stated strikes =
    refusal_backoff irc_throttle_backoff strikes irc_throttle_backoff_max
hold_for banned stated strikes = refusal_backoff irc_ban_backoff strikes irc_ban_backoff_max
hold_for banned_temp stated strikes =
    max (stated + irc_ban_grace) (refusal_backoff irc_throttle_backoff strikes irc_ban_backoff_max)
hold_for no_block stated strikes = 0
hold_for banned_perm stated strikes = 0

abbrev pub struck : ℕ → ServerBlockKind → ℕ → Bytes → ServerBlock → ServerBlock
struck now kind stated reason b =
    let strikes = if ltb b.strikes 32 then b.strikes + 1 else b.strikes in
    record {
      kind = kind;
      until = if is_perm kind then 0 else now + hold_for kind stated strikes;
      strikes = strikes;
      reason = reason;
    }

-- The index of the server of this link, if it still is one.
abbrev pub linked : Servers → Option ℕ → Option ℕ
linked s none = none
linked s (some i) = if ltb i (length s.server_list) then some i else none

abbrev pub strike_at : ℕ → ServerBlockKind → ℕ → Option ℕ → Servers → Servers
strike_at now kind stated none s = s
strike_at now kind stated (some i) s = if is_none kind then s else record s {
  server_blocks = set s.server_blocks i (struck now kind stated s.irc_refusal (block_at s i));
}

abbrev pub forget : Servers → Servers
forget s = record s { irc_refusal = []; irc_refusal_ban = false }

-- `apply_refusal`, at the time `now`
abbrev pub refuse_with : ℕ → ServerBlockKind × ℕ → Servers → Servers
refuse_with now (kind, stated) s = forget (strike_at now kind stated (linked s s.irc_server_idx) s)

abbrev pub accepted : Servers → Option ℕ → Servers
accepted s none = s
accepted s (some i) = record s { server_blocks = set s.server_blocks i open_block }

-- 001
unfoldable pub note_registered : Servers → Servers
note_registered s = accepted s (linked s s.irc_server_idx)

unfoldable pub server_block_clear : ℕ → Servers → Servers
server_block_clear i s =
    if ltb i max_servers
    then record s { server_blocks = set s.server_blocks i open_block; irc_blocked_logged = false }
    else s

-- `Vec::remove`
abbrev pub remove {ℓ} : {A : Type ℓ} → ℕ → List A → List A
remove i l = take i l ++ drop (suc i) l

abbrev pub link_after : ℕ → Option ℕ → Option ℕ
link_after idx none = none
link_after idx (some i) = if i == idx then none else if ltb idx i then some (i - 1) else some i

unfoldable pub server_block_remove : ℕ → Servers → Servers
server_block_remove idx s = if leb (length s.server_list) idx then s else record s {
  server_blocks = remove idx s.server_blocks ++ open_block ∷ [];
  irc_server_idx = link_after idx s.irc_server_idx;
}
