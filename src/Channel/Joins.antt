-- ===== src/Channel/Joins.antt =====
-- src/channel.rs: `check_joins`, which joins what the bot should be in and keeps its rosters fresh.
use ircbot_rs.Prelude.{
  ℕ, zero, suc, ◌+◌, Bool, false, not, ◌&&◌, ◌||◌, none, some, [], ◌∷◌, ◌++◌, ltb, ◌==◌,
  if◌then◌else◌, length, get_elem?,
}
use ircbot_rs.Cstr.{Bytes, codes, is_empty}
use ircbot_rs.State.{Chan, BotState}
use ircbot_rs.Channel.{is_in, modify}
use ircbot_rs.Channel.Unban.{unban_expire}
use ircbot_rs.Link.{World, irc_printf, eol}

abbrev pub join_retry_time : ℕ
join_retry_time = 10

abbrev pub roster_refresh_interval : ℕ
roster_refresh_interval = 120

abbrev pub join_line : Chan → Bytes
join_line c =
    if is_empty c.key
    then codes "JOIN " ++ (c.name ++ eol)
    else codes "JOIN " ++ (c.name ++ (b' ' ∷ c.key ++ eol))

abbrev pub stamp_join : ℕ → Chan → Chan
stamp_join now c = record c { last_join_attempt = now }

abbrev pub settle_ops : Chan → Chan
settle_ops c = record c { op_request_pending = false; op_request_retry_count = 0 }

abbrev pub stamp_who : ℕ → Chan → Chan
stamp_who now c = record c { last_who_request = now }

abbrev pub is_stale : ℕ → Chan → Bool
is_stale now c =
    length c.roster == 0 && ltb (c.last_who_request + 30) now
    || ltb (c.last_who_request + roster_refresh_interval) now

-- Has an op request gone unanswered, with attempts left?
abbrev pub is_unanswered : ℕ → Chan → Bool
is_unanswered now c =
    c.op_request_pending && ltb (c.last_op_request_time + 60) now && ltb c.op_request_retry_count 5

-- The roster is read again.
abbrev pub refresh : World → ℕ → Chan → BotState → BotState
refresh w i c st =
    modify (stamp_who w.now) i
      (irc_printf w (codes "WHO " ++ (c.name ++ eol)) (modify (λ c. record c { roster = [] }) i st))

abbrev pub check_in : World → ℕ → Chan → BotState → BotState
check_in w i c st =
    if c.i_am_opped
    then modify settle_ops i st
    else if is_stale w.now c
    then refresh w i c st
    else if is_unanswered w.now c
    then refresh w i c (modify (λ c. record c { op_request_pending = false }) i st)
    else st

abbrev pub check_chan : World → ℕ → Chan → BotState → BotState
check_chan w i c st =
    if not c.is_managed || c.join_disabled
    then st
    else if not (is_in c.status) && ltb (c.last_join_attempt + join_retry_time) w.now
    then irc_printf w (join_line c) (modify (stamp_join w.now) i st)
    else if not (is_in c.status)
    then st
    else check_in w i c st

abbrev pub check_at : World → ℕ → BotState → BotState
check_at w i st = elim (get_elem? st.chans i) [ none ↦ st | some c ↦ check_chan w i c st ]

-- The loop from index `i`, with `n` channels to go.
unfoldable pub check_from : World → ℕ → ℕ → BotState → BotState
check_from w zero i st = st
check_from w (suc n) i st = check_from w n (i + 1) (check_at w i st)

unfoldable pub check_joins : World → BotState → BotState
unfolding unban_expire check_from
check_joins w st =
    if not st.authed then st else check_from w (length st.chans) 0 (unban_expire w.now st)
