-- ===== src/Auth/Overlap.antt =====
-- `mask_overlaps_authorised` of src/auth.rs against `is_authorised`.
use ircbot_rs.Prelude.{◌≡◌, refl, true, false, none, List, [], ◌∷◌, arith, position, find, any, All}
use ircbot_rs.Cstr.{Bytes, trunc}
use ircbot_rs.Glob.{wildcard_match, glob_overlap}
use ircbot_rs.Glob.Pattern.{Matches}
use ircbot_rs.Glob.Match.{wildcard_match_iff}
use ircbot_rs.Glob.Overlap.{glob_overlap-of-Shared}
use ircbot_rs.State.{BotState, MaskRecord, TrustedBot}
use ircbot_rs.Auth.{
  strip_ident_tilde, trusted_bot_by_host, is_trusted_bot, authorises, is_authorised, user_conflict,
  mask_overlaps_authorised, max_mask_len,
}

-- Two patterns that do not overlap have no text in common.
apart : (a b s : Bytes) → glob_overlap a b ≡ false → Matches a s → wildcard_match b s ≡ false
apart a b s h m = ground (arith, wildcard_match_iff b s, glob_overlap-of-Shared a b s m)

no_bot :
    (a s : Bytes) (bots : List TrustedBot)
    → find (λ tb. glob_overlap a (strip_ident_tilde tb.mask)) bots ≡ none
    → Matches a s
    → position (λ tb. wildcard_match (strip_ident_tilde tb.mask) s) bots ≡ none
no_bot a s [] h m = refl
no_bot a s (tb ∷ bots) h m = ground (arith, apart a (strip_ident_tilde tb.mask) s, no_bot a s bots)

abbrev pub Plain : MaskRecord → Type 0
Plain mr = strip_ident_tilde mr.mask ≡ mr.mask

no_user :
    (st : BotState) (a s : Bytes) (masks : List MaskRecord)
    → All Plain masks
    → user_conflict st a masks ≡ none
    → Matches a s
    → any (authorises st s) masks ≡ false
unfolding user_conflict
no_user st a s [] p h m = refl
no_user st a s (mr ∷ masks) p h m = ground (arith, apart a mr.mask s, no_user st a s masks p.1)

-- Where no ident in the ban mask or a user mask begins with a tilde, a ban mask that is reported
-- free of conflicts and matches a host of at most 255 bytes, whose ident begins with none either,
-- does not match an authorised one.
pub is_authorised-free :
    (st : BotState) (mask nuh : Bytes)
    → mask_overlaps_authorised st mask ≡ none
    → strip_ident_tilde mask ≡ mask
    → All Plain st.mask_records
    → strip_ident_tilde (trunc nuh max_mask_len) ≡ nuh
    → wildcard_match mask nuh ≡ true
    → is_authorised st nuh ≡ false
unfolding is_authorised is_trusted_bot trusted_bot_by_host mask_overlaps_authorised
is_authorised-free st mask nuh h m p n w =
    let hit : Matches mask nuh = (wildcard_match_iff mask nuh).0 w in
    ground (arith, no_bot mask nuh st.trusted_bots, no_user st mask nuh st.mask_records p)
