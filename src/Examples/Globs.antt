-- ===== src/Examples/Globs.antt =====
-- Masks of src/auth.rs and src/glob_overlap.rs at small inputs.
use ircbot_rs.Prelude.{
  ◌≡◌, ◌↔◌, refl, Bool, true, false, none, some, List, [], ◌∷◌, arith, replicate,
}
use ircbot_rs.Cstr.{Bytes, codes, byte_eq_ic, trunc, is_empty, bytes_eq}
use ircbot_rs.Glob.{wildcard_match, wildcard_match_loop, glob_overlap}
use ircbot_rs.Glob.Pattern.{Matches}
use ircbot_rs.Glob.Match.{wildcard_match_iff, wildcard_match_loop-some}
use ircbot_rs.Glob.Overlap.{Shared, glob_overlap_iff}
use ircbot_rs.State.{
  BotState, no_settings, UserRecord, MaskRecord, new_flood, no_isupport, max_unban_jobs, no_job,
}
use ircbot_rs.Queue.Runs.{fresh}
use ircbot_rs.Auth.{
  strip_ident_tilde, mask_overlaps_authorised, is_authorised, mask_has_active_user, user_conflict,
}
use ircbot_rs.Auth.Overlap.{is_authorised-free}

abbrev star_h : Bytes
star_h = codes "*h"

abbrev a_star : Bytes
a_star = codes "A*"

glob_overlap_iff_example : (glob_overlap star_h a_star ≡ true) ↔ Shared star_h a_star
glob_overlap_iff_example = glob_overlap_iff star_h a_star (omega arith) (omega arith)

wildcard_match_loop-some_example :
    (r : Bool) × (wildcard_match_loop star_h (codes "aH") ≡ some r)
    × ((r ≡ true) ↔ Matches star_h (codes "aH"))
wildcard_match_loop-some_example = wildcard_match_loop-some star_h (codes "aH")

both : Matches star_h (codes "ah") × Matches a_star (codes "ah")
unfolding wildcard_match wildcard_match_loop byte_eq_ic
both = (
  (wildcard_match_iff star_h (codes "ah")).0 refl,
  (wildcard_match_iff a_star (codes "ah")).0 refl,
)

-- A bot with one user, who has one mask, and one trusted bot.
abbrev alice : UserRecord
alice = record {
  uuid = codes "u1";
  name = codes "alice";
  has_pubkey = true;
  is_active = true;
  last_seen = 0;
  act_pending = 0;
}

abbrev pub alice_mask : Bytes → MaskRecord
alice_mask m = record {
  uuid = codes "u1";
  mask = m;
  is_active = true;
  last_used = 0;
  act_pending = 0;
}

abbrev pub state_of : List MaskRecord → BotState
state_of masks = record {
  chans = [];
  trusted_bots = record { mask = codes "b!b@hub"; uuid = codes "b1" } ∷ [];
  user_records = alice ∷ [];
  mask_records = masks;
  net_modes = [];
  net_settings = [];
  net_set = no_settings;
  net_ts = 0;
  cfg_bans = [];
  cfg_gen = 0;
  opt_flags = [];
  bot_uuid = [];
  config_dirty = false;
  output = fresh 0;
  flood = new_flood;
  hub_ready = false;
  pushed = [];
  authed = true;
  current_nick = codes "bot";
  isup = no_isupport;
  chan_req_fallback_idx = 0;
  last_chan_request_sent = 0;
  unban_jobs = replicate max_unban_jobs no_job;
  replying = false;
  hub_up = false;
  frames = [];
  told = [];
}

abbrev one_user : BotState
one_user = state_of (alice_mask (codes "al*!*@home") ∷ [])

is_authorised-free_example : is_authorised one_user (codes "m!m@bad") ≡ false
unfolding strip_ident_tilde mask_overlaps_authorised glob_overlap byte_eq_ic is_empty trunc
    wildcard_match
is_authorised-free_example =
    is_authorised-free one_user (codes "*!*@bad") (codes "m!m@bad") refl refl (refl, tt) refl refl

-- A ban on the ident with a tilde is said to hit nobody, and yet it hits alice, whose mask has '?'
-- in that place.
abbrev tilde_user : BotState
tilde_user = state_of (alice_mask (codes "n!?a@h") ∷ [])

no_overlap_found : mask_overlaps_authorised tilde_user (codes "n!~a@h") ≡ none
unfolding mask_overlaps_authorised strip_ident_tilde user_conflict glob_overlap byte_eq_ic is_empty
    bytes_eq mask_has_active_user
no_overlap_found = refl

yet_authorised :
    (wildcard_match (codes "n!~a@h") (codes "n!~a@h") ≡ true)
    × (is_authorised tilde_user (codes "n!~a@h") ≡ true)
unfolding is_authorised wildcard_match byte_eq_ic is_empty bytes_eq trunc strip_ident_tilde
yet_authorised = (refl, refl)
