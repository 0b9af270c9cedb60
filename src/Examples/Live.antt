-- ===== src/Examples/Live.antt =====
-- Runs of src/chanlive.rs on small inputs.
use ircbot_rs.Prelude.{◌≡◌, refl, true, false, none, [], arith}
use ircbot_rs.Cstr.{Bytes, codes}
use ircbot_rs.State.{Chan, no_isupport}
use ircbot_rs.ChanLive.Isupport.{mode_has_arg, is_prefix_mode}
use ircbot_rs.ChanLive.Apply.{apply, chan_numeric}
use ircbot_rs.ChanLive.Listed.{Heard, silence, after, AllHeard-IsKept}
use ircbot_rs.ChanLive.Kept.{IsKept}
use ircbot_rs.ChanLive.Sync.{changes, wanted, Wanted, set_dir}
use ircbot_rs.ChanLive.Settle.{IsUsual, echo_all}
use ircbot_rs.ChanLive.Converge.{changes-settle}
use ircbot_rs.Examples.Channels.{opped_chan}

no_isupport-IsUsual : IsUsual no_isupport
unfolding mode_has_arg is_prefix_mode
no_isupport-IsUsual = record {
  flags = λ l adding h. ground arith;
  key_arg = λ adding. ground arith;
  limit_arg = refl;
  limit_plain = refl;
}

-- A ban that is set, and the list that names it again in capitals.
abbrev banned : Chan
banned = apply no_isupport 10 (codes "+b") (codes "n!*@h") false opped_chan

abbrev relisted : Chan
relisted = chan_numeric no_isupport 11 (codes "367") (codes "N!*@H op 9") banned

AllHeard-IsKept_example : IsKept relisted.bans
AllHeard-IsKept_example =
    AllHeard-IsKept
      (after (after silence (Heard.mode no_isupport 10 (codes "+b") (codes "n!*@h") opped_chan))
        (Heard.numeric no_isupport 11 (codes "367") (codes "N!*@H op 9") banned))
      (record { masks = tt; single = λ mask. omega arith; few = omega arith })

abbrev live_chan : Chan
live_chan = record opped_chan { live_known = true; key = codes "sesame"; live_key = codes "old" }

abbrev stored : Bytes
stored = codes "+ntk-i+l 20"

abbrev want : Wanted
want = record {
  dir =
      set_dir b'l' true (
        set_dir b'i' false (set_dir b'k' true (set_dir b't' true (set_dir b'n' true (λ l. none)))));
  limit = 20;
}

changes-settle_example :
    changes false want (echo_all no_isupport 12 (changes false want live_chan) live_chan) ≡ []
unfolding wanted
changes-settle_example =
    changes-settle no_isupport 12 false stored want live_chan no_isupport-IsUsual refl (omega arith)
      refl
