-- ===== src/Servers/Refusal.antt =====
-- What src/irc_client.rs reads of the words with which a server refuses the bot.
use ircbot_rs.Prelude.{
  ℕ, zero, suc, ◌+◌, ◌-◌, Bool, true, false, not, ◌&&◌, ◌||◌, Option, none, some, List, [], ◌∷◌,
  ◌++◌, ltb, ◌==◌, if◌then◌else◌, length, take, drop, map, keep, any, get_or, min, succ?,
}
use ircbot_rs.Cstr.{Bytes, codes, is_empty, lower, trunc}
use ircbot_rs.ChanLive.Isupport.{is_alpha}
use ircbot_rs.Link.{has_prefix}
use ircbot_rs.Servers.{
  Servers, ServerBlockKind, no_block, throttled, banned, banned_temp, banned_perm, irc_refusal_len,
  refuse_with,
}
use ircbot_rs.Servers.Duration.{refusal_parse_duration}

unfoldable pub refusal_sanitize : Bytes → ℕ → Bytes
unfolding trunc
refusal_sanitize src cap = trunc (map (λ c. if ltb c 0x20 || c == 0x7f then b'?' else c) src) cap

unfoldable pub refusal_fold : Bytes → Bytes
refusal_fold src = take (irc_refusal_len - 1) (map lower (keep (λ b. not (b == b'-')) src))

-- `find_from`, on what stands behind `from`, for a needle that is not empty; how many bytes before it.
unfoldable pub find_in : Bytes → Bytes → Option ℕ
find_in needle [] = none
find_in needle (c ∷ s) =
    let rest = succ? (find_in needle s) in if has_prefix needle (c ∷ s) then some 0 else rest

abbrev pub shift : ℕ → Option ℕ → Option ℕ
shift n none = none
shift n (some i) = some (i + n)

unfoldable pub find_from : Bytes → Bytes → ℕ → Option ℕ
unfolding is_empty find_in
find_from hay needle from =
    if is_empty needle || ltb (length hay) from
    then none
    else shift from (find_in needle (drop from hay))

abbrev pub at_word : Bytes → ℕ → Bool
at_word hay p = p == 0 || not (is_alpha (get_or hay (p - 1) 0))

-- The loop of `refusal_find`: each round starts behind the place of the last.
unfoldable pub find_word : ℕ → Bytes → Bytes → Option ℕ → Option ℕ
unfolding find_from
find_word fuel hay needle none = none
find_word zero hay needle (some p) = none
find_word (suc fuel) hay needle (some p) =
    let rest = find_word fuel hay needle (find_from hay needle (suc p)) in
    if at_word hay p then some (p + length needle) else rest

-- The place behind the first `needle` that no letter stands before.
unfoldable pub refusal_find : Bytes → Bytes → Option ℕ
unfolding find_word
refusal_find hay needle = find_word (suc (length hay)) hay needle (find_from hay needle 0)

abbrev pub is_some {ℓ} : {A : Type ℓ} → Option A → Bool
is_some none = false
is_some (some _) = true

abbrev pub ban_words : List Bytes
ban_words =
    codes "kline"
    ∷ codes "gline"
    ∷ codes "zline"
    ∷ codes "dline"
    ∷ codes "akill"
    ∷ codes "autokill"
    ∷ codes "banned"
    ∷ codes "not welcome"
    ∷ []

abbrev pub throttle_words : List Bytes
throttle_words = codes "throttl" ∷ codes "too fast" ∷ codes "too many" ∷ []

abbrev pub or_find : Option ℕ → Option ℕ → Option ℕ
or_find none o = o
or_find (some i) o = some i

abbrev stated : ℕ → ServerBlockKind × ℕ
stated secs = if ltb 0 secs then (banned_temp, secs) else (banned, 0)

-- A ban, with what says for how long.
abbrev lasting : Bytes → Option ℕ → ServerBlockKind × ℕ
lasting t (some after) = stated (refusal_parse_duration (drop after t))
lasting t none =
    if is_some (refusal_find t (codes "permanent")) then (banned_perm, 0) else (banned, 0)

unfoldable pub refusal_classify : Bytes → Bool → ServerBlockKind × ℕ
unfolding refusal_fold refusal_find refusal_parse_duration
refusal_classify text ban_numeric =
    let t = refusal_fold text in
    if not ban_numeric
      && (is_some (find_from t (codes "killed (") 0) || is_some (find_from t (codes "(quit:") 0))
    then (no_block, 0)
    else if ban_numeric || any (λ w. is_some (refusal_find t w)) ban_words
    then lasting t (or_find (refusal_find t (codes "temporar")) (refusal_find t (codes "expire")))
    else if any (λ w. is_some (refusal_find t w)) throttle_words
    then (throttled, 0)
    else (no_block, 0)

-- `note_refusal`: 465, 463 or ERROR
unfoldable pub note_refusal : Bytes → Bool → Servers → Servers
unfolding refusal_sanitize is_empty trunc
note_refusal text ban_numeric s =
    let clean = refusal_sanitize text irc_refusal_len in
    let joined =
      if not (is_empty s.irc_refusal) && ltb (length s.irc_refusal + 4) irc_refusal_len
      then s.irc_refusal ++ codes " | "
      else s.irc_refusal in
    let room = irc_refusal_len - 1 - min (length joined) (irc_refusal_len - 1) in
    record s {
      irc_refusal = joined ++ trunc clean (room + 1);
      irc_refusal_ban = s.irc_refusal_ban || ban_numeric;
    }

unfoldable pub apply_refusal : ℕ → Servers → Servers
unfolding refusal_classify is_empty
apply_refusal now s =
    if is_empty s.irc_refusal && not s.irc_refusal_ban
    then s
    else refuse_with now (refusal_classify s.irc_refusal s.irc_refusal_ban) s
