-- ===== src/Auth.antt =====
-- src/auth.rs: usermasks, trusted bots, and what a ban mask could hit.
pub mod Overlap
pub mod Conflict
use ircbot_rs.Prelude.{
  ℕ, zero, suc, ◌+◌, ◌/◌, Bool, true, false, not, ◌&&◌, ◌||◌, Option, none, some, List, [], ◌∷◌,
  ◌++◌, ltb, leb, ◌==◌, if◌then◌else◌, length, get_or, get_elem?, set, take, drop, position, find,
  any,
}
use ircbot_rs.Cstr.{Bytes, codes, bytes_eq, eq_ic, is_empty, trunc, find_byte, mask_nick}
use ircbot_rs.Glob.{wildcard_match, glob_overlap}
use ircbot_rs.State.{BotState, UserRecord, MaskRecord, TrustedBot, max_user_records}

abbrev pub is_keyed : Bytes → UserRecord → Bool
is_keyed uuid u = u.is_active && u.has_pubkey && bytes_eq u.uuid uuid

abbrev pub mask_matches : Bytes → MaskRecord → Bool
mask_matches user_host mr =
    mr.is_active && not (is_empty mr.mask) && wildcard_match mr.mask user_host

abbrev add_candidate : ℕ → Option ℕ → List (ℕ × ℕ) → List (ℕ × ℕ)
add_candidate mi none out = out
add_candidate mi (some ui) out = if any (λ c. c.0 == ui) out then out else out ++ (ui, mi) ∷ []

-- The loop of `user_candidates`, from mask `mi` on.
unfoldable pub candidates_from :
    List UserRecord → Bytes → ℕ → List (ℕ × ℕ) → List MaskRecord → List (ℕ × ℕ)
candidates_from users user_host mi out [] = out
candidates_from users user_host mi out (mr ∷ masks) =
    let out' =
      if mask_matches user_host mr
      then add_candidate mi (position (is_keyed mr.uuid) users) out
      else out in
    let rest = candidates_from users user_host (mi + 1) out' masks in
    if leb max_user_records (length out) then out else rest

unfoldable pub user_candidates : BotState → Bytes → List (ℕ × ℕ)
unfolding candidates_from
user_candidates st user_host = candidates_from st.user_records user_host 0 [] st.mask_records

abbrev pub activity_bucket : ℕ
activity_bucket = 3600

unfoldable pub activity_new_bucket : ℕ → ℕ → Bool
activity_new_bucket prev now = ltb (prev / activity_bucket) (now / activity_bucket)

abbrev use_user : ℕ → UserRecord → UserRecord
use_user now u = record u {
  last_seen = now;
  act_pending = if activity_new_bucket u.last_seen now then now else u.act_pending;
}

abbrev use_mask : ℕ → MaskRecord → MaskRecord
use_mask now m = record m {
  last_used = now;
  act_pending = if activity_new_bucket m.last_used now then now else m.act_pending;
}

abbrev update : {A : Type 0} → (A → A) → List A → Option ℕ → List A
update f xs none = xs
update f xs (some i) = elim (get_elem? xs i) [ none ↦ xs | some x ↦ set xs i (f x) ]

-- `send_activity`, which reports to the hub, is a parameter.
unfoldable pub mark_used : (BotState → BotState) → BotState → Option ℕ → Option ℕ → ℕ → BotState
unfolding activity_new_bucket
mark_used send_activity st user mask_idx now = send_activity (record st {
  user_records = update (use_user now) st.user_records user;
  mask_records = update (use_mask now) st.mask_records mask_idx;
  config_dirty = true;
})

abbrev without_tilde : Bytes → ℕ → Bytes
without_tilde s b = if get_or s (b + 1) 0 == b'~' then take (b + 1) s ++ drop (b + 2) s else s

unfoldable pub strip_ident_tilde : Bytes → Bytes
strip_ident_tilde s = elim (find_byte b'!' s) [ none ↦ s | some b ↦ without_tilde s b ]

abbrev pub max_mask_len : ℕ
max_mask_len = 256

unfoldable pub trusted_bot_by_host : BotState → Bytes → Option ℕ
unfolding strip_ident_tilde
trusted_bot_by_host st user_host =
    let norm = strip_ident_tilde (trunc user_host max_mask_len) in
    position (λ tb. wildcard_match (strip_ident_tilde tb.mask) norm) st.trusted_bots

unfoldable pub trusted_bot_by_uuid : BotState → Bytes → Option ℕ
trusted_bot_by_uuid st uuid =
    if is_empty uuid then none else position (λ tb. bytes_eq tb.uuid uuid) st.trusted_bots

abbrev pub max_nick : ℕ
max_nick = 10

-- `TrustedBot::nick`
unfoldable pub nick : TrustedBot → Bytes
nick tb = mask_nick tb.mask max_nick

unfoldable pub trusted_bot_by_nick : BotState → Bytes → Option ℕ
unfolding nick
trusted_bot_by_nick st name =
    if is_empty name then none else position (λ tb. eq_ic (nick tb) name) st.trusted_bots

abbrev is_some : {A : Type 0} → Option A → Bool
is_some none = false
is_some (some _) = true

unfoldable pub is_trusted_bot : BotState → Bytes → Bool
unfolding trusted_bot_by_host
is_trusted_bot st user_host = is_some (trusted_bot_by_host st user_host)

unfoldable pub mask_has_active_user : BotState → Bytes → Option ℕ
mask_has_active_user st uuid = position (λ u. u.is_active && bytes_eq u.uuid uuid) st.user_records

abbrev pub authorises : BotState → Bytes → MaskRecord → Bool
authorises st nuh mr =
    mr.is_active
    && not (is_empty mr.mask)
    && wildcard_match mr.mask nuh
    && is_some (mask_has_active_user st mr.uuid)

unfoldable pub is_authorised : BotState → Bytes → Bool
unfolding is_trusted_bot mask_has_active_user
is_authorised st nuh =
    if is_empty nuh
    then false
    else if is_trusted_bot st nuh
    then true
    else any (authorises st nuh) st.mask_records

abbrev user_label : List UserRecord → ℕ → Bytes
user_label users ui = elim (get_elem? users ui) [
  | none ↦ codes "user "
  | some u ↦ codes "user " ++ u.name
]

-- The loop over the usermasks, with the label of the first conflict.
unfoldable pub user_conflict : BotState → Bytes → List MaskRecord → Option Bytes
unfolding strip_ident_tilde
user_conflict st nmask [] = none
user_conflict st nmask (mr ∷ masks) =
    let rest = user_conflict st nmask masks in
    if not mr.is_active || is_empty mr.mask || not (glob_overlap nmask (strip_ident_tilde mr.mask))
    then rest
    else elim (mask_has_active_user st mr.uuid) [
      | none ↦ rest
      | some ui ↦ some (user_label st.user_records ui)
    ]

unfoldable pub mask_overlaps_authorised : BotState → Bytes → Option Bytes
unfolding user_conflict
mask_overlaps_authorised st mask =
    let nmask = strip_ident_tilde mask in
    elim (find (λ tb. glob_overlap nmask (strip_ident_tilde tb.mask)) st.trusted_bots) [
      | some tb ↦ some (codes "bot " ++ tb.mask)
      | none ↦ user_conflict st nmask st.mask_records
    ]
