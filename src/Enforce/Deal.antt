-- ===== src/Enforce/Deal.antt =====
-- The deal of src/chanenf.rs: which of the opped bots of a channel holds a job.
use ircbot_rs.Prelude.{
  ℕ, suc, ◌+◌, ◌-◌, ◌%◌, Bool, true, false, not, ◌&&◌, ◌||◌, Option, none, some, List, [], ◌∷◌,
  ◌++◌, ltb, leb, ◌==◌, if◌then◌else◌, length, any, map, get_elem?,
}
use ircbot_rs.Cstr.{Bytes, codes, bytes_eq, is_empty, lower, trunc}
use ircbot_rs.Lww.{bytes_lt}
use ircbot_rs.State.{Chan, RosterEntry, BotState, TrustedBot}
use ircbot_rs.Auth.{trusted_bot_by_host}
use ircbot_rs.ChanCfg.Parse.{max_chan}
use ircbot_rs.Enforce.Members.{is_me, max_roster_size}
use ircbot_rs.Enforce.Version.{Ordering, less, equal, greater, version_cmp}

abbrev pub job_count : ℕ
job_count = 5

abbrev pub job_min_version : Bytes
job_min_version = codes "2.4.7"

-- The first 8 bytes of SHA-256, big endian.
abbrev pub Hash : Type 0
Hash = Bytes → ℕ

-- The rows of `state.bot_tree`, with the fields that the deal reads.
pub record BotTreeRow : Type 0 where
  pub kind : ℕ
  pub uuid : Bytes
  pub version : Bytes

pub record Elig : Type 0 where
  pub h : ℕ
  pub id : Bytes

abbrev pub is_less : Ordering → Bool
is_less less = true
is_less equal = false
is_less greater = false

abbrev is_old : Bytes → BotTreeRow → Bool
is_old id r =
    not (r.kind == b'h')
    && bytes_eq r.uuid id
    && not (is_empty r.version)
    && is_less (version_cmp r.version job_min_version)

unfoldable pub bot_too_old : List BotTreeRow → Bytes → Bool
unfolding bytes_eq is_empty version_cmp
bot_too_old tree id = any (is_old id) tree

unfoldable pub lower_copy : Bytes → ℕ → Bytes
unfolding trunc lower
lower_copy src dsz = map lower (trunc src dsz)

unfoldable pub elig_add : Hash → Bytes → Bytes → List Elig → Bool × List Elig
unfolding bytes_eq trunc
elig_add hash lc_chan id el =
    if any (λ e. bytes_eq e.id id) el
    then (false, el)
    else if ltb (max_chan + 64) (length lc_chan + length id)
    then (false, el)
    else (true, el ++ record { h = hash (lc_chan ++ id); id = trunc id 64 } ∷ [])

abbrev pub bot_id : TrustedBot → Bytes
bot_id tb = if is_empty tb.uuid then tb.mask else tb.uuid

abbrev pub with_bot : Hash → List BotTreeRow → Bytes → List Elig → Option TrustedBot → List Elig
with_bot hash tree lc_chan el none = el
with_bot hash tree lc_chan el (some tb) =
    if bot_too_old tree (bot_id tb) then el else (elig_add hash lc_chan (bot_id tb) el).1

abbrev pub bot_of : BotState → Option ℕ → Option TrustedBot
bot_of st none = none
bot_of st (some ti) = get_elem? st.trusted_bots ti

-- The loop over the roster.
unfoldable pub deal_roster :
    Hash → List BotTreeRow → BotState → Bytes → List Elig → List RosterEntry → List Elig
unfolding bot_too_old elig_add trusted_bot_by_host is_empty
deal_roster hash tree st lc_chan el [] = el
deal_roster hash tree st lc_chan el (e ∷ es) =
    let passed = deal_roster hash tree st lc_chan el es in
    let next =
      deal_roster hash tree st lc_chan
        (with_bot hash tree lc_chan el (bot_of st (trusted_bot_by_host st e.hostmask))) es in
    if ltb max_roster_size (length el)
    then el
    else if not e.is_op || is_me st e.nick
    then passed
    else next

-- `elig_cmp`
unfoldable pub elig_lt : Elig → Elig → Bool
unfolding bytes_lt
elig_lt a b = ltb a.h b.h || a.h == b.h && bytes_lt a.id b.id

-- `sort_by`, as an insertion sort
unfoldable pub insert : Elig → List Elig → List Elig
unfolding elig_lt
insert e [] = e ∷ []
insert e (x ∷ xs) = let rest = insert e xs in if elig_lt e x then e ∷ x ∷ xs else x ∷ rest

unfoldable pub sort : List Elig → List Elig
unfolding insert
sort [] = []
sort (x ∷ xs) = insert x (sort xs)

abbrev pub or_here : Bool → Option ℕ → Option ℕ
or_here here (some i) = some (suc i)
or_here here none = if here then some 0 else none

unfoldable pub rposition : (Elig → Bool) → List Elig → Option ℕ
rposition p [] = none
rposition p (x ∷ xs) = or_here (p x) (rposition p xs)

abbrev pub rank_at : ℕ → ℕ → Option ℕ → Option ℕ
rank_at n job none = none
rank_at n job (some pos) = some ((pos + n - job % n) % n)

-- The rank in the deal over the bots that are in it.
unfoldable pub rank_in : Bytes → ℕ → List Elig → Option ℕ
unfolding sort rposition bytes_eq
rank_in me job el = rank_at (length el) job (rposition (λ e. bytes_eq e.id me) (sort el))

abbrev pub my_id : BotState → Bytes
my_id st = trunc (if is_empty st.bot_uuid then st.current_nick else st.bot_uuid) 64

abbrev pub ranked : Bool × List Elig → (List Elig → Option ℕ) → Option ℕ
ranked (false, el) rank = none
ranked (true, el) rank = rank el

abbrev pub rank_on : Hash → List BotTreeRow → BotState → ℕ → Option Chan → Option ℕ
rank_on hash tree st job none = none
rank_on hash tree st job (some c) =
    if not c.i_am_opped || leb job_count job
    then none
    else ranked (elig_add hash (lower_copy c.name max_chan) (my_id st) []) (λ el.
      rank_in (my_id st) job (deal_roster hash tree st (lower_copy c.name max_chan) el c.roster))

-- The backup index for a job, 0 for who holds it; `none` is -1, no part in the deal.
unfoldable pub deal_rank : Hash → List BotTreeRow → BotState → ℕ → ℕ → Option ℕ
unfolding rank_in deal_roster lower_copy
deal_rank hash tree st ci job = rank_on hash tree st job (get_elem? st.chans ci)
