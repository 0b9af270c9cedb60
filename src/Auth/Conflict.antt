-- ===== src/Auth/Conflict.antt =====
-- A conflict that `mask_overlaps_authorised` of src/auth.rs reports is a real one.
use ircbot_rs.Prelude.{
  ℕ, suc, ◌≤◌, ◌≡◌, ◌≢◌, refl, ◌⊎◌, inl, inr, true, none, some, List, [], ◌∷◌, arith, length, find,
  All, get_elem?, Option-cases, Bool-cases,
}
use ircbot_rs.Cstr.{Bytes}
use ircbot_rs.Glob.{glob_overlap, glob_overlap_max}
use ircbot_rs.Glob.Overlap.{Shared, glob_overlap_iff}
use ircbot_rs.State.{BotState, MaskRecord, TrustedBot}
use ircbot_rs.Auth.{
  strip_ident_tilde, mask_has_active_user, user_conflict, mask_overlaps_authorised,
}

abbrev pub IsShort : Bytes → Type 0
IsShort m = length (strip_ident_tilde m) ≤ glob_overlap_max

-- A trusted bot of the list with a mask that has a text in common with `a`.
abbrev pub HitsBot : Bytes → List TrustedBot → Type 0
HitsBot a bots =
    (i : ℕ) × (tb : TrustedBot) × (get_elem? bots i ≡ some tb)
    × Shared a (strip_ident_tilde tb.mask)

-- An active mask of an active user with a text in common with `a`.
abbrev pub HitsUser : BotState → Bytes → List MaskRecord → Type 0
HitsUser st a masks =
    (i : ℕ) × (mr : MaskRecord) × (get_elem? masks i ≡ some mr)
    × (mr.is_active ≡ true)
    × (mask_has_active_user st mr.uuid ≢ none)
    × Shared a (strip_ident_tilde mr.mask)

found_bot :
    (a : Bytes) (bots : List TrustedBot) (tb : TrustedBot)
    → length a ≤ glob_overlap_max
    → All (λ b. IsShort b.mask) bots
    → find (λ b. glob_overlap a (strip_ident_tilde b.mask)) bots ≡ some tb
    → HitsBot a bots
found_bot a [] tb l s h = ground arith
found_bot a (b ∷ bots) tb l s h = elim (Bool-cases (glob_overlap a (strip_ident_tilde b.mask))) [
  | inl e ↦ (0, b, refl, (glob_overlap_iff a (strip_ident_tilde b.mask) l s.0).0 e)
  | inr e ↦ let (i, c, at, m) = found_bot a bots tb l s.1 (ground arith) in (suc i, c, at, m)
]

found_user :
    (st : BotState) (a : Bytes) (masks : List MaskRecord) (label : Bytes)
    → length a ≤ glob_overlap_max
    → All (λ m. IsShort m.mask) masks
    → user_conflict st a masks ≡ some label
    → HitsUser st a masks
unfolding user_conflict
found_user st a [] label l s h = ground arith
found_user st a (mr ∷ masks) label l s h = elim (Option-cases (user_conflict st a masks)) [
  | inr (other, e) ↦
      let (i, m, at, live, user, t) = found_user st a masks other l s.1 e in
      (suc i, m, at, live, user, t)
  | inl e ↦
      let overlap : glob_overlap a (strip_ident_tilde mr.mask) ≡ true = ground arith in
      (
        0,
        mr,
        refl,
        ground arith,
        ground arith,
        (glob_overlap_iff a (strip_ident_tilde mr.mask) l s.0).0 overlap,
      )
]

-- Where all masks are at most 256 bytes long, a ban mask that is reported to be in conflict has a text in
-- common with the mask of a trusted bot, or with an active mask of an active user, once a leading
-- tilde of the ident is dropped from both.
pub mask_overlaps_authorised_hits :
    (st : BotState) (mask label : Bytes)
    → IsShort mask
    → All (λ b. IsShort b.mask) st.trusted_bots
    → All (λ m. IsShort m.mask) st.mask_records
    → mask_overlaps_authorised st mask ≡ some label
    → HitsBot (strip_ident_tilde mask) st.trusted_bots
      ⊎ HitsUser st (strip_ident_tilde mask) st.mask_records
unfolding mask_overlaps_authorised
mask_overlaps_authorised_hits st mask label l sb sm h =
    elim (Option-cases (
      find (λ b. glob_overlap (strip_ident_tilde mask) (strip_ident_tilde b.mask))
        st.trusted_bots)) [
          | inr (tb, e) ↦ inl (found_bot (strip_ident_tilde mask) st.trusted_bots tb l sb e)
          | inl e ↦
              inr (found_user st (strip_ident_tilde mask) st.mask_records label l sm (ground arith))
        ]
