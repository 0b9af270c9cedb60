-- ===== src/Servers/Text.antt =====
-- What src/irc_client.rs shows of a server's hold.
use ircbot_rs.Prelude.{
  ℕ, ◌-◌, ◌/◌, ◌%◌, Bool, true, false, not, ◌&&◌, ◌||◌, Option, none, some, [], ◌∷◌, ◌++◌, ltb, leb,
  ◌==◌, if◌then◌else◌, get_elem?,
}
use ircbot_rs.Cstr.{Bytes, codes}
use ircbot_rs.ChanCfg.Parse.{show}
use ircbot_rs.Servers.{Servers, ServerBlock, ServerBlockKind, throttled, is_perm, is_none}

-- "{:02}"
abbrev pub two_digits : ℕ → Bytes
two_digits n = if ltb n 10 then b'0' ∷ show n else show n

unfoldable pub fmt_secs : ℕ → Bytes
unfolding show
fmt_secs s =
    if leb 86400 s
    then show (s / 86400) ++ (b'd' ∷ show (s % 86400 / 3600) ++ b'h' ∷ [])
    else if leb 3600 s
    then show (s / 3600) ++ (b'h' ∷ two_digits (s % 3600 / 60) ++ b'm' ∷ [])
    else if leb 60 s && not (s % 60 == 0)
    then show (s / 60) ++ (b'm' ∷ two_digits (s % 60) ++ b's' ∷ [])
    else if leb 60 s
    then show (s / 60) ++ b'm' ∷ []
    else show s ++ b's' ∷ []

abbrev is_throttled : ServerBlockKind → Bool
is_throttled throttled = true
is_throttled _ = false

abbrev describe : ℕ → Option ServerBlock → Bytes
describe now none = []
describe now (some b) =
    if is_perm b.kind
    then codes "banned, permanent"
    else if is_none b.kind || leb b.until now
    then []
    else (if is_throttled b.kind then codes "throttled" else codes "banned")
      ++ (b' ' ∷ fmt_secs (b.until - now))

unfoldable pub server_block_desc : ℕ → Servers → ℕ → Bytes
unfolding fmt_secs
server_block_desc now s idx = describe now (get_elem? s.server_blocks idx)
