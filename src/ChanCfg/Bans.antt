-- ===== src/ChanCfg/Bans.antt =====
-- The B| records of src/chancfg.rs: the table of network bans.
use ircbot_rs.Prelude.{
  ℕ, zero, suc, ◌+◌, ◌-◌, Bool, true, false, not, ◌&&◌, ◌||◌, Option, none, some, List, [], ◌∷◌,
  ◌++◌, ltb, leb, ◌==◌, if◌then◌else◌, length, take, drop, set, get_or, get_elem?, position, find,
  keep, any,
}
use ircbot_rs.Cstr.{Bytes, codes, bytes_eq, eq_ic, is_empty}
use ircbot_rs.Lww.{lww_accepts}
use ircbot_rs.State.{CfgBan, no_ban, BotState}
use ircbot_rs.ChanCfg.Parse.{parse_ll, show, plain_text, valid_chan_name, pipe, split_pipes}
use ircbot_rs.ChanCfg.Lines.{add_op, op_text, next_gen}

abbrev pub max_global_bans : ℕ
max_global_bans = 100

abbrev pub max_bans_per_chan : ℕ
max_bans_per_chan = 100

-- MAX_GLOBAL_BANS + CFG_MAX_CHANNELS * MAX_BANS_PER_CHAN
abbrev pub cfg_max_bans : ℕ
cfg_max_bans = 6500

abbrev pub ban_mask_max : ℕ
ban_mask_max = 120

abbrev pub ban_setter_max : ℕ
ban_setter_max = 63

abbrev pub ban_reason_max : ℕ
ban_reason_max = 120

abbrev pub b_line_max : ℕ
b_line_max = 445

unfoldable pub same_ban : Bytes → Bytes → CfgBan → Bool
unfolding eq_ic
same_ban chan mask b = eq_ic b.chan chan && eq_ic b.mask mask

unfoldable pub ban_find : List CfgBan → Bytes → Bytes → Option CfgBan
ban_find bans chan mask = find (same_ban chan mask) bans

unfoldable pub counts_on : Bytes → CfgBan → Bool
counts_on chan b = b.active && eq_ic b.chan chan

abbrev pub ban_cap : Bytes → ℕ
ban_cap chan = if bytes_eq chan (codes "*") then max_global_bans else max_bans_per_chan

unfoldable pub ban_active_room : List CfgBan → Bytes → Bool
ban_active_room bans chan = ltb (length (keep (counts_on chan) bans)) (ban_cap chan)

abbrev pub older_tombstone : ℕ → CfgBan → Option (ℕ × ℕ) → Option (ℕ × ℕ)
older_tombstone i b none = if b.active then none else some (i, b.ts)
older_tombstone i b (some (o, ts)) =
    if not b.active && ltb b.ts ts then some (i, b.ts) else some (o, ts)

-- The loop of `ban_slot`: `oldest` with the stamp of the ban that it names.
unfoldable pub oldest_tombstone : ℕ → Option (ℕ × ℕ) → List CfgBan → Option (ℕ × ℕ)
oldest_tombstone i oldest [] = oldest
oldest_tombstone i oldest (b ∷ bans) = oldest_tombstone (i + 1) (older_tombstone i b oldest) bans

-- The slot, and the table in which it is.
unfoldable pub ban_slot : List CfgBan → Option ℕ × List CfgBan
unfolding oldest_tombstone
ban_slot bans =
    if ltb (length bans) cfg_max_bans
    then (some (length bans), bans ++ no_ban ∷ [])
    else (elim (oldest_tombstone 0 none bans) [ none ↦ none | some (o, _) ↦ some o ], bans)

abbrev replace : CfgBan → ℕ → List CfgBan → Option CfgBan → Bool × List CfgBan
replace inb i bans none = (false, bans)
replace inb i bans (some b) =
    if not (lww_accepts inb.ts inb.active b.ts b.active)
    then (false, bans)
    else if inb.active && not b.active && not (ban_active_room bans inb.chan)
    then (false, bans)
    else (true, set bans i inb)

abbrev insert_at : CfgBan → Option ℕ × List CfgBan → Bool × List CfgBan
insert_at inb (none, bans) = (false, bans)
insert_at inb (some i, bans) = (true, set bans i inb)

abbrev store_at : CfgBan → List CfgBan → Option ℕ → Bool × List CfgBan
store_at inb bans (some i) = replace inb i bans (get_elem? bans i)
store_at inb bans none =
    if inb.active && not (ban_active_room bans inb.chan)
    then (false, bans)
    else insert_at inb (ban_slot bans)

-- `ban_store`, on the table.
unfoldable pub store_ban : List CfgBan → CfgBan → Bool × List CfgBan
store_ban bans inb = store_at inb bans (position (same_ban inb.chan inb.mask) bans)

abbrev stored : BotState → Bool × List CfgBan → Bool × BotState
stored st (false, bans) = (false, st)
stored st (true, bans) = (true, record st { cfg_bans = bans; cfg_gen = next_gen st.cfg_gen })

unfoldable pub ban_store : BotState → CfgBan → Bool × BotState
unfolding store_ban
ban_store st inb = stored st (store_ban st.cfg_bans inb)

-- `s.rfind(c)` of an ASCII byte
unfoldable pub rfind_byte : ℕ → Bytes → Option ℕ
rfind_byte c [] = none
rfind_byte c (x ∷ s) = elim (rfind_byte c s) [
  | some i ↦ some (suc i)
  | none ↦ if x == c then some 0 else none
]

-- `while prev > 0 && db[prev] != b'|' { prev -= 1 }`
unfoldable pub scan_back : Bytes → ℕ → ℕ
scan_back db zero = 0
scan_back db (suc p) =
    let before = scan_back db p in if get_or db (suc p) 0 == pipe then suc p else before

unfoldable pub no_controls : Bytes → Bool
no_controls s = not (any (λ c. ltb c 0x20 || c == 0x7f) s)

unfoldable pub has_space : Bytes → Bool
has_space s = any (λ c. c == b' ') s

abbrev pub b_checked :
    Bytes → Bytes → Bytes → Bytes → Bytes → Option Bool → Option ℕ → Option ℕ → Option CfgBan
b_checked chan mask flags setter reason (some add) (some ts) (some expires) =
    if ts == 0
      || not (bytes_eq chan (codes "*")) && not (valid_chan_name chan)
      || is_empty mask
      || ltb ban_mask_max (length mask)
      || not (plain_text mask)
      || has_space mask
      || leb 8 (length flags)
      || not (plain_text flags)
      || ltb ban_setter_max (length setter)
      || not (plain_text setter)
      || ltb ban_reason_max (length reason)
      || not (no_controls reason)
    then none
    else some (record {
      chan = chan;
      mask = mask;
      flags = flags;
      setter = setter;
      reason = reason;
      expires = expires;
      ts = ts;
      active = add;
      push_pending = false;
    })
b_checked chan mask flags setter reason _ _ _ = none

abbrev pub b_fields : Bytes → Bytes → List Bytes → Option CfgBan
b_fields op ts (chan ∷ mask ∷ expires ∷ flags ∷ setter ∷ reason ∷ []) =
    b_checked chan mask flags setter reason (add_op op) (parse_ll ts) (parse_ll expires)
b_fields op ts _ = none

-- op and ts are the last two fields, and the reason is all that is left of the head.
abbrev pub b_split : Bytes → ℕ → Option CfgBan
b_split line last =
    let prev = scan_back line (last - 1) in
    if not (get_or line prev 0 == pipe)
    then none
    else b_fields (drop (suc prev) (take last line)) (drop (suc last) line)
        (split_pipes (take prev line) 6)

unfoldable pub parse_b : Bytes → Option CfgBan
unfolding add_op rfind_byte scan_back
parse_b line = if ltb b_line_max (length line) then none else elim (rfind_byte pipe line) [
  | none ↦ none
  | some last ↦ if last == 0 then none else b_split line last
]

unfoldable pub apply_b_line : BotState → Bytes → Bool × BotState
unfolding parse_b ban_store
apply_b_line st line = elim (parse_b line) [ none ↦ (false, st) | some b ↦ ban_store st b ]

abbrev pub b_head : CfgBan → Bytes
b_head b =
    b.chan
    ++ (pipe ∷ b.mask
        ++ (pipe ∷ show b.expires ++ (pipe ∷ b.flags ++ (pipe ∷ b.setter ++ pipe ∷ b.reason))))

abbrev pub b_body : CfgBan → Bytes
b_body b = b_head b ++ (pipe ∷ op_text b.active ++ pipe ∷ show b.ts)

unfoldable pub format_b_line : CfgBan → Option Bytes
format_b_line b =
    let l = codes "B|" ++ (b_body b ++ b'\n' ∷ []) in
    if ltb (length l) (b_line_max + 2) then some l else none

abbrev pub is_purged : ℕ → CfgBan → Bool
is_purged cutoff b = not b.active && (cutoff == 0 || ltb b.ts cutoff)

abbrev pub behind_first : CfgBan → List CfgBan → List CfgBan
behind_first x [] = x ∷ []
behind_first x (y ∷ ys) = y ∷ x ∷ ys

-- The list without its first element, with the last element moved to the front.
abbrev pub last_first : List CfgBan → List CfgBan
last_first [] = []
last_first (x ∷ xs) = behind_first x (last_first xs)

-- `while i < len`, on what is left from `i`: `swap_remove(i)` puts the last ban in its place.
-- One round for each ban is enough, as each takes one away or steps over it.
unfoldable pub purge_from : ℕ → ℕ → List CfgBan → List CfgBan × ℕ
purge_from zero cutoff bans = (bans, 0)
purge_from (suc fuel) cutoff [] = ([], 0)
purge_from (suc fuel) cutoff (b ∷ bans) =
    let removed = purge_from fuel cutoff (last_first bans) in
    let kept = purge_from fuel cutoff bans in
    if is_purged cutoff b then (removed.0, removed.1 + 1) else (b ∷ kept.0, kept.1)

unfoldable pub purge_bans : ℕ → BotState → ℕ × BotState
unfolding purge_from
purge_bans cutoff st =
    let r = purge_from (length st.cfg_bans) cutoff st.cfg_bans in
    (r.1, record st { cfg_bans = r.0 })

-- `now` is the clock.
abbrev pub in_force : ℕ → CfgBan → Bool
in_force now b = b.active && not (ltb 0 b.expires && leb b.expires now)

unfoldable pub bans_for : ℕ → BotState → Bytes → ℕ → List CfgBan
bans_for now st chan max =
    take max (
      keep (λ b. bytes_eq b.chan (codes "*") || eq_ic b.chan chan)
        (keep (in_force now) st.cfg_bans))
