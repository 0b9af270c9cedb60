-- ===== src/ChanCfg/Unique.antt =====
-- The ban table of src/chancfg.rs has one entry at most for a channel and a mask.
use mathlib.Core.Path.{subst}
use ircbot_rs.Prelude.{
  ◌≤◌, ◌≡◌, sym, ◌∙◌, inl, inr, Bool, true, none, List, [], ◌∷◌, arith, length, position, keep,
  position-some, Option-cases, Bool-cases,
}
use ircbot_rs.Cstr.{Bytes}
use ircbot_rs.State.{CfgBan, BotState}
use ircbot_rs.ChanCfg.Bans.{same_ban, ban_slot, store_ban, ban_store, apply_b_line}
use ircbot_rs.ChanCfg.Caps.{
  bit, count-set, count-ban_slot, ban_slot-none, ban_store_lem, apply_b_line_lem,
}
use ircbot_rs.ChanCfg.Table.{same_class, same_ban_refl}

-- At most one ban has the channel and the mask, up to case.
abbrev pub IsUnique : List CfgBan → Type 0
IsUnique bans = (chan mask : Bytes) → length (keep (same_ban chan mask) bans) ≤ 1

count-absent :
    (p q : CfgBan → Bool) (xs : List CfgBan)
    → ((x : CfgBan) → q x ≡ p x)
    → position p xs ≡ none
    → length (keep q xs) ≡ 0
count-absent p q [] same h = ground arith
count-absent p q (x ∷ xs) same h = ground (arith, same x, count-absent p q xs same)

-- Two bans of one channel and mask have the same names.
same_names :
    (chan mask : Bytes) (inb x : CfgBan)
    → same_ban inb.chan inb.mask x ≡ true
    → same_ban chan mask x ≡ same_ban chan mask inb
same_names chan mask inb x h = elim (Bool-cases (same_ban chan mask inb)) [
  | inl e ↦ same_class chan mask inb e x ∙ h ∙ sym e
  | inr e ↦ elim (Bool-cases (same_ban chan mask x)) [
    | inl f ↦
        f
        ∙ sym (same_ban_refl inb)
        ∙ same_class inb.chan inb.mask x h inb
        ∙ sym (same_class chan mask x f inb)
    | inr f ↦ f ∙ sym e
  ]
]

store_ban-IsUnique :
    (bans : List CfgBan) (inb : CfgBan) → IsUnique bans → IsUnique (store_ban bans inb).1
unfolding store_ban bit
store_ban-IsUnique bans inb h chan mask =
    elim (Option-cases (position (same_ban inb.chan inb.mask) bans)) [
      | inl e ↦ elim (Option-cases (ban_slot bans).0) [
        | inl f ↦ ground (arith, ban_slot-none bans f, h chan mask)
        | inr (i, f) ↦ ground (
          arith,
          h chan mask,
          count-ban_slot (same_ban chan mask) bans inb i f,
          count-absent (same_ban inb.chan inb.mask) (same_ban chan mask) bans,
          same_class chan mask inb,
        )
      ]
      | inr (i, e) ↦
          let (x, at, same) = position-some (same_ban inb.chan inb.mask) bans i e in
          ground (
            arith,
            h chan mask,
            count-set (same_ban chan mask) bans i x inb at,
            same_names chan mask inb x same,
          )
    ]

ban_store-IsUnique :
    (st : BotState) (inb : CfgBan) → IsUnique st.cfg_bans → IsUnique (ban_store st inb).1.cfg_bans
ban_store-IsUnique st inb h = elim (ban_store_lem st inb) [
  | inl e ↦ subst IsUnique (sym e) h
  | inr e ↦ subst IsUnique (sym e) (store_ban-IsUnique st.cfg_bans inb h)
]

-- From a ban table with at most one entry for each channel and mask, up to case, active or not, a
-- B| record, whatever it holds, leaves such a table.
pub apply_b_line-IsUnique :
    (st : BotState) (line : Bytes)
    → IsUnique st.cfg_bans
    → IsUnique (apply_b_line st line).1.cfg_bans
apply_b_line-IsUnique st line h = elim (apply_b_line_lem st line) [
  | inl e ↦ subst (λ (s : BotState). IsUnique s.cfg_bans) (sym e) h
  | inr (b, e) ↦ subst (λ (s : BotState). IsUnique s.cfg_bans) (sym e) (ban_store-IsUnique st b h)
]
