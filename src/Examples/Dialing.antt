-- ===== src/Examples/Dialing.antt =====
-- Runs of src/irc_client.rs on small inputs.
use ircbot_rs.Prelude.{◌≡◌, ◌≢◌, refl, false, some, [], ◌∷◌, arith, replicate, length}
use ircbot_rs.Cstr.{codes, is_empty, lower}
use ircbot_rs.Servers.{Servers, ServerBlock, open_block, banned, pick_server}
use ircbot_rs.Servers.Pick.{Choice, pick_server-Choice}
use ircbot_rs.Servers.Refusal.{
  refusal_classify, apply_refusal, refusal_fold, refusal_find, find_from, find_in, find_word, shift,
}
use ircbot_rs.Servers.Hold.{apply_refusal-unpicked}
use ircbot_rs.Servers.Nick.{
  Nicks, Asked, or_bot, base_from, generate_new_nick, generate_new_nick-Asked,
}
use ircbot_rs.Servers.Search.{first_word, refusal_find-plain}

abbrev held_block : ServerBlock
held_block = record { kind = banned; until = 500; strikes = 1; reason = codes "kline" }

-- Three servers, of which the second is held; the bot was linked to the third.
abbrev three : Servers
three = record {
  server_list = codes "a" ∷ codes "b" ∷ codes "c" ∷ [];
  server_blocks = open_block ∷ held_block ∷ replicate 8 open_block;
  current_server_index = 1;
  irc_server_idx = some 2;
  irc_refusal = codes "Closing Link: (K-Lined)";
  irc_refusal_ban = false;
  irc_blocked_logged = false;
}

pick_server-Choice_example : Choice 100 three (pick_server 100 three).0
pick_server-Choice_example = pick_server-Choice 100 three

apply_refusal-unpicked_example : (pick_server 120 (apply_refusal 100 three)).0 ≢ some 2
unfolding is_empty refusal_classify refusal_fold refusal_find find_from find_in find_word lower
apply_refusal-unpicked_example =
    apply_refusal-unpicked 100 120 2 three refl (omega arith) refl refl (omega arith)

-- "9" may not begin a nick, and '|' may not stand in one.
abbrev digits_first : Nicks
digits_first = record {
  target_nick = codes "9|bot";
  current_nick = codes "9|bot";
  nick_generation_attempt = 3;
}

generate_new_nick-Asked_example :
    Asked digits_first
      (or_bot (base_from [] digits_first.target_nick))
      (some b'0')
      (generate_new_nick digits_first)
generate_new_nick-Asked_example = generate_new_nick-Asked digits_first

refusal_find-plain_example :
    refusal_find (codes "unbanned, banned") (codes "banned")
    ≡ shift (length (codes "banned")) (first_word (codes "banned") 0 (codes "unbanned, banned"))
unfolding is_empty
refusal_find-plain_example = refusal_find-plain (codes "unbanned, banned") (codes "banned") refl
