-- ===== src/ChanCfg/Caps.antt =====
-- The ban table of src/chancfg.rs stays within its caps.
use mathlib.Core.Path.{subst}
use ircbot_rs.Prelude.{
  ℕ, zero, suc, ◌+◌, ◌≤◌, ◌≡◌, refl, sym, ap, ◌∙◌, ◌⊎◌, inl, inr, Bool, true, false, not, ◌&&◌,
  Option, none, some, List, [], ◌∷◌, ◌++◌, arith, length, position, keep, set, get_elem?, if_split,
  Option-cases, ltb, length-append, length-set, position-some, inl, inr,
}
use ircbot_rs.Cstr.{Bytes, eq_ic}
use ircbot_rs.Cstr.Case.{eq_ic_sym, eq_ic_trans}
use ircbot_rs.State.{CfgBan, no_ban, BotState}
use ircbot_rs.ChanCfg.Bans.{
  same_ban, counts_on, ban_cap, ban_active_room, older_tombstone, oldest_tombstone, ban_slot,
  store_ban, ban_store, parse_b, apply_b_line, cfg_max_bans,
}

unfoldable pub bit : Bool → ℕ
bit true = 1
bit false = 0

pub count-set :
    (p : CfgBan → Bool) (xs : List CfgBan) (i : ℕ) (x v : CfgBan)
    → get_elem? xs i ≡ some x
    → length (keep p (set xs i v)) + bit (p x) ≡ length (keep p xs) + bit (p v)
unfolding bit
count-set p [] i x v h = ground arith
count-set p (y ∷ ys) zero x v h = ground arith
count-set p (y ∷ ys) (suc i) x v h = ground (arith, count-set p ys i x v)

count-append :
    (p : CfgBan → Bool) (xs : List CfgBan) (x v : CfgBan)
    → length (keep p (set (xs ++ x ∷ []) (length xs) v)) ≡ length (keep p xs) + bit (p v)
unfolding bit
count-append p [] x v = ground arith
count-append p (y ∷ ys) x v = ground (arith, count-append p ys x v)

-- Channels that differ in case alone have the same active bans.
count-eq_ic :
    (a b : Bytes) (xs : List CfgBan)
    → eq_ic a b ≡ true
    → length (keep (counts_on a) xs) ≡ length (keep (counts_on b) xs)
unfolding counts_on
count-eq_ic a b [] h = refl
count-eq_ic a b (x ∷ xs) h =
    ground
      (arith, count-eq_ic a b xs h, eq_ic_trans x.chan a b, eq_ic_trans x.chan b a, eq_ic_sym a b)

-- `ban_cap` is one number, whatever the channel.
cap_lem : (chan : Bytes) → ban_cap chan ≡ 100
cap_lem chan = ground arith

abbrev pub IsTombstone : List CfgBan → ℕ → Type 0
IsTombstone bans o = (b : CfgBan) × (get_elem? bans o ≡ some b) × (b.active ≡ false)

abbrev pub Oldest : List CfgBan → Option (ℕ × ℕ) → Type 0
Oldest bans none = Unit
Oldest bans (some (o, ts)) = IsTombstone bans o

older_tombstone-Oldest :
    (bans : List CfgBan) (i : ℕ) (b : CfgBan) (oldest : Option (ℕ × ℕ))
    → get_elem? bans i ≡ some b
    → Oldest bans oldest
    → Oldest bans (older_tombstone i b oldest)
older_tombstone-Oldest bans i b none h k =
    if_split (Oldest bans) b.active none (some (i, b.ts)) (λ _. tt) (λ a. (b, h, a))
older_tombstone-Oldest bans i b (some (o, ts)) h k =
    if_split (Oldest bans) (not b.active && ltb b.ts ts) (some (i, b.ts)) (some (o, ts))
      (λ a. (b, h, ground arith)) (λ _. k)

pub oldest_tombstone-Oldest :
    (bans : List CfgBan) (i : ℕ) (oldest : Option (ℕ × ℕ)) (rest : List CfgBan)
    → ((j : ℕ) → get_elem? bans (i + j) ≡ get_elem? rest j)
    → Oldest bans oldest
    → Oldest bans (oldest_tombstone i oldest rest)
unfolding oldest_tombstone
oldest_tombstone-Oldest bans i oldest [] h k = k
oldest_tombstone-Oldest bans i oldest (b ∷ rest) h k =
    let first : i + 0 ≡ i = omega arith in
    let next : (j : ℕ) → i + 1 + j ≡ i + suc j = λ j. omega arith in
    oldest_tombstone-Oldest bans (i + 1) (older_tombstone i b oldest) rest
      (λ j. ap (λ (n : ℕ). get_elem? bans n) (next j) ∙ h (suc j))
      (older_tombstone-Oldest bans i b oldest (ap (λ (n : ℕ). get_elem? bans n) (sym first) ∙ h 0)
        k)

full_slot :
    (p : CfgBan → Bool) (bans : List CfgBan) (inb : CfgBan) (o : Option (ℕ × ℕ))
    → Oldest bans o
    → (i : ℕ) → elim o [ none ↦ none | some (j, _) ↦ some j ] ≡ some i
    → length (keep p (set bans i inb)) ≤ length (keep p bans) + bit (p inb)
full_slot p bans inb none k i h = ground arith
full_slot p bans inb (some (o, ts)) (b, at, dead) i h = ground (arith, count-set p bans o b inb at)

-- The slot for a new ban holds no active ban, so the count rises by that ban alone.
pub count-ban_slot :
    (p : CfgBan → Bool) (bans : List CfgBan) (inb : CfgBan) (i : ℕ)
    → (ban_slot bans).0 ≡ some i
    → length (keep p (set (ban_slot bans).1 i inb)) ≤ length (keep p bans) + bit (p inb)
unfolding ban_slot
count-ban_slot p bans inb i h =
    let dead : Oldest bans (oldest_tombstone 0 none bans) =
      oldest_tombstone-Oldest bans 0 none bans
        (λ j. let e : 0 + j ≡ j = omega arith in ap (λ (n : ℕ). get_elem? bans n) e) tt in
    ground (
      arith,
      count-append p bans no_ban inb,
      full_slot p bans inb (oldest_tombstone 0 none bans) dead i,
    )

-- A ban that is replaced counts already, or there is room for the new one.
count-replaced :
    (chan : Bytes) (bans : List CfgBan) (inb x : CfgBan) (i : ℕ)
    → get_elem? bans i ≡ some x
    → same_ban inb.chan inb.mask x ≡ true
    → length (keep (counts_on chan) bans) ≤ 100
    → (inb.active && not x.active && not (ban_active_room bans inb.chan)) ≡ false
    → length (keep (counts_on chan) (set bans i inb)) ≤ 100
unfolding same_ban counts_on bit ban_active_room
count-replaced chan bans inb x i at same h room = ground (
  arith,
  count-set (counts_on chan) bans i x inb at,
  count-eq_ic inb.chan chan bans,
  eq_ic_trans x.chan inb.chan chan,
  cap_lem inb.chan,
)

count-inserted :
    (chan : Bytes) (bans : List CfgBan) (inb : CfgBan) (i : ℕ)
    → (ban_slot bans).0 ≡ some i
    → length (keep (counts_on chan) bans) ≤ 100
    → (inb.active && not (ban_active_room bans inb.chan)) ≡ false
    → length (keep (counts_on chan) (set (ban_slot bans).1 i inb)) ≤ 100
unfolding counts_on bit ban_active_room
count-inserted chan bans inb i at h room = ground (
  arith,
  count-ban_slot (counts_on chan) bans inb i at,
  count-eq_ic inb.chan chan bans,
  cap_lem inb.chan,
)

pub ban_slot-none : (bans : List CfgBan) → (ban_slot bans).0 ≡ none → (ban_slot bans).1 ≡ bans
unfolding ban_slot
ban_slot-none bans h = ground arith

count-store_ban :
    (chan : Bytes) (bans : List CfgBan) (inb : CfgBan)
    → length (keep (counts_on chan) bans) ≤ 100
    → length (keep (counts_on chan) (store_ban bans inb).1) ≤ 100
unfolding store_ban
count-store_ban chan bans inb h = elim (Option-cases (position (same_ban inb.chan inb.mask) bans)) [
  | inl e ↦ elim (Option-cases (ban_slot bans).0) [
    | inl f ↦ ground (arith, ban_slot-none bans f)
    | inr (i, f) ↦ ground (arith, count-inserted chan bans inb i f)
  ]
  | inr (i, e) ↦
      let (x, at, same) = position-some (same_ban inb.chan inb.mask) bans i e in
      ground (arith, count-replaced chan bans inb x i at same h)
]

-- What the table keeps: at most as many bans as it has room for, and on each channel at most a
-- hundred that are active.
pub record IsCapped (bans : List CfgBan) : Type 0 where
  pub size : length bans ≤ cfg_max_bans
  pub active : (chan : Bytes) → length (keep (counts_on chan) bans) ≤ 100

length-ban_slot :
    (bans : List CfgBan) → length bans ≤ cfg_max_bans → length (ban_slot bans).1 ≤ cfg_max_bans
unfolding ban_slot
length-ban_slot bans h = ground (arith, length-append bans (no_ban ∷ []))

length-store_ban :
    (bans : List CfgBan) (inb : CfgBan)
    → length bans ≤ cfg_max_bans
    → length (store_ban bans inb).1 ≤ cfg_max_bans
unfolding store_ban
length-store_ban bans inb h = elim (Option-cases (position (same_ban inb.chan inb.mask) bans)) [
  | inl e ↦ elim (Option-cases (ban_slot bans).0) [
    | inl f ↦ ground (arith, ban_slot-none bans f)
    | inr (i, f) ↦ ground (arith, length-ban_slot bans h, length-set (ban_slot bans).1 i inb)
  ]
  | inr (i, e) ↦ ground (arith, length-set bans i inb)
]

store_ban-IsCapped :
    (bans : List CfgBan) (inb : CfgBan) → IsCapped bans → IsCapped (store_ban bans inb).1
store_ban-IsCapped bans inb h = record {
  size = length-store_ban bans inb h.size;
  active = λ chan. count-store_ban chan bans inb (h.active chan);
}

pub ban_store_lem :
    (st : BotState) (inb : CfgBan)
    → ((ban_store st inb).1.cfg_bans ≡ st.cfg_bans)
      ⊎ ((ban_store st inb).1.cfg_bans ≡ (store_ban st.cfg_bans inb).1)
unfolding ban_store
ban_store_lem st inb = ground arith

pub apply_b_line_lem :
    (st : BotState) (line : Bytes)
    → ((apply_b_line st line).1 ≡ st)
      ⊎ ((b : CfgBan) × ((apply_b_line st line).1 ≡ (ban_store st b).1))
unfolding apply_b_line
apply_b_line_lem st line = elim (Option-cases (parse_b line)) [
  | inl e ↦ inl (ground arith)
  | inr (b, e) ↦ inr (b, ground arith)
]

ban_store-IsCapped :
    (st : BotState) (inb : CfgBan) → IsCapped st.cfg_bans → IsCapped (ban_store st inb).1.cfg_bans
ban_store-IsCapped st inb h = elim (ban_store_lem st inb) [
  | inl e ↦ subst IsCapped (sym e) h
  | inr e ↦ subst IsCapped (sym e) (store_ban-IsCapped st.cfg_bans inb h)
]

-- From a ban table of at most 6500 bans, at most 100 of them active on each channel, a B| record,
-- whatever it holds, leaves such a table.
pub apply_b_line-IsCapped :
    (st : BotState) (line : Bytes)
    → IsCapped st.cfg_bans
    → IsCapped (apply_b_line st line).1.cfg_bans
apply_b_line-IsCapped st line h = elim (apply_b_line_lem st line) [
  | inl e ↦ subst (λ (s : BotState). IsCapped s.cfg_bans) (sym e) h
  | inr (b, e) ↦ subst (λ (s : BotState). IsCapped s.cfg_bans) (sym e) (ban_store-IsCapped st b h)
]
