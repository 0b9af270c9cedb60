-- ===== src/Examples/Records.antt =====
-- Tokens of src/cstr.rs and c| records of src/hub_client.rs on small inputs.
use ircbot_rs.Prelude.{◌≡◌, refl, true, some, inr, ◌++◌, arith, map, min, length, ◌^◌, ◌-◌}
use ircbot_rs.Prelude.Int.{pos}
use ircbot_rs.Cstr.{codes}
use ircbot_rs.Cstr.Scan.{strtoll}
use ircbot_rs.Cstr.Numbers.{strtoll-show}
use ircbot_rs.ChanCfg.Parse.{show}
use ircbot_rs.Hub.{chan_body}
use ircbot_rs.Hub.Record.{HubChan, parse_hub_chan}
use ircbot_rs.Hub.Sync.{sync_record}
use ircbot_rs.Hub.RoundTrip.{read_back, parse_hub_chan-chan_body}
use ircbot_rs.Hub.Merge.{merge, sync_record-merge}
use ircbot_rs.Link.Stored.{held}
use ircbot_rs.Examples.Channels.{in_a, world, chan_a}

strtoll-show_example :
    strtoll (show (2 ^ 63) ++ codes "|add")
    ≡ (pos (min (2 ^ 63) (2 ^ 63 - 1)), length (show (2 ^ 63)))
strtoll-show_example = strtoll-show (2 ^ 63) (codes "|add") refl

parse_hub_chan-chan_body_example :
    parse_hub_chan (chan_body chan_a (codes "k") 3 true (pos 7))
    ≡ some (read_back chan_a (codes "k") 3 true (pos 7))
parse_hub_chan-chan_body_example =
    parse_hub_chan-chan_body chan_a (codes "k") 3 true (pos 7)
      (record { some_byte = omega arith; within = omega arith; allowed = refl })
      (inr (record { some_byte = omega arith; within = omega arith; allowed = refl })) (omega arith)
      (omega arith)

-- A newer record that takes the channel away.
abbrev taken_away : HubChan
taken_away = record {
  chan = codes "#A";
  key = codes "new";
  modes = pos 1;
  op = codes "del";
  ts = pos 7;
}

sync_record-merge_example :
    map held (sync_record world taken_away in_a).1.chans ≡ merge taken_away (map held in_a.chans)
sync_record-merge_example = sync_record-merge world taken_away in_a
