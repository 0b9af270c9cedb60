-- ===== src/Enforce/Safe.antt =====
-- What src/chanenf.rs makes sure of before it bans somebody by itself.
use ircbot_rs.Prelude.{ℕ, ◌≤◌, ◌≡◌, true, Option, none, some, length, get_elem?, All}
use ircbot_rs.Cstr.{Bytes}
use ircbot_rs.Glob.Pattern.{Matches}
use ircbot_rs.State.{Chan, BotState}
use ircbot_rs.Auth.{mask_overlaps_authorised}
use ircbot_rs.ChanCfg.Bans.{ban_mask_max}
use ircbot_rs.Enforce.Masks.{safe_token}
use ircbot_rs.Enforce.Members.{entry_authorised}

-- Nobody of the channel who is authorised is matched.
abbrev pub Spares : BotState → Bytes → Option Chan → Type 0
Spares st mask none = Unit
Spares st mask (some c) =
    All (λ e. entry_authorised st e ≡ true → ¬ Matches mask e.hostmask) c.roster

-- A ban that may be set.
pub record IsAllowed (st : BotState) (ci : ℕ) (mask : Bytes) : Type 0 where
  pub token : safe_token mask ban_mask_max ≡ true
  pub spares : Spares st mask (get_elem? st.chans ci)
  pub apart : mask_overlaps_authorised st mask ≡ none

-- A mask that is given matches the host and may be set.
abbrev pub Chosen : BotState → ℕ → Bytes → Option Bytes → Type 0
Chosen st ci nuh none = Unit
Chosen st ci nuh (some m) = Matches m nuh × (length m ≤ ban_mask_max) × IsAllowed st ci m
