-- ===== src/ChanCfg/Table.antt =====
-- The ban table of src/chancfg.rs as a map from channel and mask to the last writer's ban.
use ircbot_rs.Prelude.{
  ℕ, zero, suc, ◌+◌, ◌<◌, ◌≡◌, refl, sym, ap, ◌∙◌, inl, inr, Bool, true, false, Option, none, some,
  List, [], ◌∷◌, ◌++◌, arith, length, position, find, set, get_elem?, get_elem?-lt, position-some,
  Option-cases, Bool-cases, ap₂,
}
use ircbot_rs.Cstr.{Bytes}
use ircbot_rs.Cstr.Case.{eq_ic_refl, eq_ic_sym, eq_ic_trans}
use ircbot_rs.Lww.{lww_next_ts}
use ircbot_rs.Lww.Merge.{lww_accepts-next_ts}
use ircbot_rs.State.{CfgBan, no_ban, BotState}
use ircbot_rs.ChanCfg.Bans.{same_ban, ban_find, oldest_tombstone, ban_slot, store_ban, ban_store}
use ircbot_rs.ChanCfg.Caps.{Oldest, oldest_tombstone-Oldest}
use ircbot_rs.ChanCfg.Edit.{local_ban_record}

find-set :
    (p : CfgBan → Bool) (xs : List CfgBan) (i : ℕ) (v : CfgBan)
    → position p xs ≡ some i
    → p v ≡ true
    → find p (set xs i v) ≡ some v
find-set p [] i v h k = ground arith
find-set p (x ∷ xs) zero v h k = ground arith
find-set p (x ∷ xs) (suc i) v h k = ground (arith, find-set p xs i v)

find-set_new :
    (p : CfgBan → Bool) (xs : List CfgBan) (i : ℕ) (v : CfgBan)
    → position p xs ≡ none
    → i < length xs
    → p v ≡ true
    → find p (set xs i v) ≡ some v
find-set_new p [] i v h l k = ground arith
find-set_new p (x ∷ xs) zero v h l k = ground arith
find-set_new p (x ∷ xs) (suc i) v h l k = ground (arith, find-set_new p xs i v)

find-set_last :
    (p : CfgBan → Bool) (xs : List CfgBan) (w v : CfgBan)
    → position p xs ≡ none
    → p v ≡ true
    → find p (set (xs ++ w ∷ []) (length xs) v) ≡ some v
find-set_last p [] w v h k = ground arith
find-set_last p (x ∷ xs) w v h k = ground (arith, find-set_last p xs w v)

pub same_ban_refl : (b : CfgBan) → same_ban b.chan b.mask b ≡ true
unfolding same_ban
same_ban_refl b = ground (arith, eq_ic_refl b.chan, eq_ic_refl b.mask)

slot_lt :
    (bans : List CfgBan) (o : Option (ℕ × ℕ)) (i : ℕ)
    → Oldest bans o
    → elim o [ none ↦ none | some (j, _) ↦ some j ] ≡ some i
    → i < length bans
slot_lt bans none i k h = ground arith
slot_lt bans (some (o, ts)) i (b, at, dead) h = ground (arith, get_elem?-lt bans o b at)

inserted-find :
    (p : CfgBan → Bool) (bans : List CfgBan) (inb : CfgBan) (i : ℕ)
    → (ban_slot bans).0 ≡ some i
    → position p bans ≡ none
    → p inb ≡ true
    → find p (set (ban_slot bans).1 i inb) ≡ some inb
unfolding ban_slot
inserted-find p bans inb i h n k =
    let dead : Oldest bans (oldest_tombstone 0 none bans) =
      oldest_tombstone-Oldest bans 0 none bans
        (λ j. let e : 0 + j ≡ j = omega arith in ap (λ (n : ℕ). get_elem? bans n) e) tt in
    ground (
      arith,
      find-set_last p bans no_ban inb,
      slot_lt bans (oldest_tombstone 0 none bans) i dead,
      find-set_new p bans i inb,
    )

-- A ban that the table takes is the one that it has for that channel and mask from then on.
pub store_ban-find :
    (bans : List CfgBan) (inb : CfgBan)
    → (store_ban bans inb).0 ≡ true
    → ban_find (store_ban bans inb).1 inb.chan inb.mask ≡ some inb
unfolding store_ban ban_find
store_ban-find bans inb h = elim (Option-cases (position (same_ban inb.chan inb.mask) bans)) [
  | inl e ↦ elim (Option-cases (ban_slot bans).0) [
    | inl f ↦ ground arith
    | inr (i, f) ↦
        ground
          (arith, inserted-find (same_ban inb.chan inb.mask) bans inb i f e (same_ban_refl inb))
  ]
  | inr (i, e) ↦
      let (x, at, same) = position-some (same_ban inb.chan inb.mask) bans i e in
      ground (arith, find-set (same_ban inb.chan inb.mask) bans i inb e (same_ban_refl inb))
]

found_at :
    (p q : CfgBan → Bool) (xs : List CfgBan) (o : CfgBan)
    → ((x : CfgBan) → p x ≡ q x)
    → find p xs ≡ some o
    → (i : ℕ) × (position q xs ≡ some i) × (get_elem? xs i ≡ some o) × (p o ≡ true)
found_at p q [] o same h = ground arith
found_at p q (x ∷ xs) o same h = elim (Bool-cases (p x)) [
  | inl e ↦
      let eq : x ≡ o = ground arith in (0, ground (arith, same x), ap some eq, ap p (sym eq) ∙ e)
  | inr e ↦
      let (i, pos, at, po) = found_at p q xs o same (ground arith) in
      (suc i, ground (arith, same x), at, po)
]

-- What is found under a name is found under the name it is stored by.
pub same_class :
    (chan mask : Bytes) (o : CfgBan)
    → same_ban chan mask o ≡ true
    → (x : CfgBan) → same_ban chan mask x ≡ same_ban o.chan o.mask x
unfolding same_ban
same_class chan mask o h x = ground (
  arith,
  eq_ic_trans x.chan chan o.chan,
  eq_ic_trans x.chan o.chan chan,
  eq_ic_sym o.chan chan,
  eq_ic_trans x.mask mask o.mask,
  eq_ic_trans x.mask o.mask mask,
  eq_ic_sym o.mask mask,
)

find-holds : (p : CfgBan → Bool) (xs : List CfgBan) (o : CfgBan) → find p xs ≡ some o → p o ≡ true
find-holds p xs o h = let (i, pos, at, po) = found_at p p xs o (λ x. refl) h in po

-- The tombstone that `local_ban` writes over an active ban is never refused.
tombstone_taken :
    (bans : List CfgBan) (chan mask : Bytes) (now : ℕ) (o b : CfgBan)
    → ban_find bans chan mask ≡ some o
    → b.chan ≡ o.chan
    → b.mask ≡ o.mask
    → b.active ≡ false
    → b.ts ≡ lww_next_ts now o.ts
    → (store_ban bans b).0 ≡ true
unfolding store_ban ban_find
tombstone_taken bans chan mask now o b f c m a t =
    let held = find-holds (same_ban chan mask) bans o f in
    let same : (x : CfgBan) → same_ban chan mask x ≡ same_ban b.chan b.mask x =
      λ x. same_class chan mask o held x ∙ ap₂ (λ y z. same_ban y z x) (sym c) (sym m) in
    let (i, pos, at, _) = found_at (same_ban chan mask) (same_ban b.chan b.mask) bans o same f in
    ground (arith, lww_accepts-next_ts now o.ts b.active o.active)

del_record :
    (now : ℕ) (st : BotState) (chan mask : Bytes) (expires : ℕ) (flags setter reason : Bytes)
    (b : CfgBan)
    → local_ban_record now st chan mask expires flags setter reason true ≡ some b
    → (o : CfgBan) × (ban_find st.cfg_bans chan mask ≡ some o)
      × (b.chan ≡ o.chan)
      × (b.mask ≡ o.mask)
      × (b.active ≡ false)
      × (b.ts ≡ lww_next_ts now o.ts)
unfolding local_ban_record
del_record now st chan mask expires flags setter reason b h =
    elim (Option-cases (ban_find st.cfg_bans chan mask)) [
      | inl e ↦ ground arith
      | inr (o, e) ↦ (o, e, ground arith, ground arith, ground arith, ground arith)
    ]

-- A ban that an operator lifts, with a clock that may stand anywhere, is never refused by the table,
-- which then has it as lifted.
pub local_ban_record-taken :
    (now : ℕ) (st : BotState) (chan mask : Bytes) (expires : ℕ) (flags setter reason : Bytes)
    (b : CfgBan)
    → local_ban_record now st chan mask expires flags setter reason true ≡ some b
    → ((ban_store st b).0 ≡ true)
      × (ban_find (ban_store st b).1.cfg_bans b.chan b.mask ≡ some b)
      × (b.active ≡ false)
unfolding ban_store
local_ban_record-taken now st chan mask expires flags setter reason b h =
    let (o, f, c, m, a, t) = del_record now st chan mask expires flags setter reason b h in
    let taken = tombstone_taken st.cfg_bans chan mask now o b f c m a t in
    (ground (arith, taken), ground (arith, taken, store_ban-find st.cfg_bans b taken), a)
