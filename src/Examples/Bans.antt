-- ===== src/Examples/Bans.antt =====
-- Bans that src/chanenf.rs makes up, at a small channel.
use ircbot_rs.Prelude.{[], ◌∷◌, true, false, arith, ◌≡◌, ◌≢◌, ap, sym, ◌∙◌, some, refl}
use ircbot_rs.Prelude.Counts.{count_if}
use ircbot_rs.Cstr.{Bytes, codes, bytes_eq, trunc, is_empty, eq_ic}
use ircbot_rs.Glob.{wildcard_match}
use ircbot_rs.State.{RosterEntry, BotState, Chan, TrustedBot}
use ircbot_rs.Examples.Globs.{state_of, alice_mask}
use ircbot_rs.Examples.Channels.{opped_chan}
use ircbot_rs.Enforce.Deal.{Hash, Elig, my_id, deal_roster, elig_add, lower_copy, deal_rank}
use ircbot_rs.Enforce.Holder.{SameBots}
use ircbot_rs.Enforce.Dealt.{dealt, deal_rank-single}

abbrev member : Bytes → Bytes → RosterEntry
member nick hostmask = record {
  nick = nick;
  hostmask = hostmask;
  is_op = false;
  is_halfop = false;
  is_voice = false;
}

-- An authorised member and a stranger, on the same host.
abbrev shared_host : BotState
shared_host = record (state_of (alice_mask (codes "alice!*@home.example.org") ∷ [])) {
  chans =
      record opped_chan {
        roster =
            member (codes "alice") (codes "alice!a@home.example.org")
            ∷ member (codes "mallory") (codes "mallory!m@home.example.org")
            ∷ [];
      }
      ∷ [];
}

abbrev elig_a : Elig
elig_a = record { h = 97; id = codes "a" }

abbrev elig_b : Elig
elig_b = record { h = 98; id = codes "b" }

swapped-SameBots : SameBots (elig_a ∷ elig_b ∷ []) (elig_b ∷ elig_a ∷ [])
swapped-SameBots p = grind (arith, p elig_a, p elig_b)

-- Two bots in one channel; each sees the other opped.
abbrev chan_with : RosterEntry → Chan
chan_with seen = record opped_chan { roster = record seen { is_op = true } ∷ [] }

abbrev bot_with : Bytes → TrustedBot → RosterEntry → BotState
bot_with own other seen = record (state_of []) {
  bot_uuid = own;
  trusted_bots = other ∷ [];
  chans = chan_with seen ∷ [];
}

abbrev seen_x : RosterEntry
seen_x = member (codes "x") (codes "x!x@hub")

abbrev seen_y : RosterEntry
seen_y = member (codes "y") (codes "y!y@hub")

abbrev bot_a : BotState
bot_a = bot_with (codes "a") (record { mask = codes "y!y@hub"; uuid = codes "b" }) seen_y

abbrev bot_b : BotState
bot_b = bot_with (codes "b") (record { mask = codes "x!x@hub"; uuid = codes "a" }) seen_x

-- A hash that gives the last byte of the id.
abbrev last_byte : Hash
last_byte [] = 0
last_byte (c ∷ []) = c
last_byte (c ∷ d ∷ text) = last_byte (d ∷ text)

dealt_a : dealt last_byte [] bot_a (chan_with seen_y) ≡ elig_a ∷ elig_b ∷ []
unfolding deal_roster elig_add lower_copy eq_ic wildcard_match
dealt_a = refl

dealt_b : dealt last_byte [] bot_b (chan_with seen_x) ≡ elig_b ∷ elig_a ∷ []
unfolding deal_roster elig_add lower_copy eq_ic wildcard_match
dealt_b = refl

dealt-SameBots :
    SameBots
      (dealt last_byte [] bot_a (chan_with seen_y))
      (dealt last_byte [] bot_b (chan_with seen_x))
dealt-SameBots p =
    ap (λ el. count_if p el) dealt_a ∙ swapped-SameBots p ∙ ap (λ el. count_if p el) (sym dealt_b)

my_ids_differ : my_id bot_a ≢ my_id bot_b
unfolding bytes_eq trunc is_empty
my_ids_differ = λ e. ground (arith, ap (λ x. bytes_eq x (codes "b")) e)

a_is_first : deal_rank last_byte [] bot_a 0 0 ≡ some 0
unfolding deal_rank eq_ic wildcard_match
a_is_first = refl

deal_rank-single_example : deal_rank last_byte [] bot_b 0 0 ≢ some 0
unfolding is_empty
deal_rank-single_example =
    deal_rank-single last_byte [] [] bot_a bot_b 0 0 0 (chan_with seen_y) (chan_with seen_x) refl
      refl (omega arith, tt) dealt-SameBots my_ids_differ a_is_first
