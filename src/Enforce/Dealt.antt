-- ===== src/Enforce/Dealt.antt =====
-- The bots that deal_rank of src/chanenf.rs deals to, and who of them is first.
use mathlib.Core.Path.{subst}
use ircbot_rs.Prelude.{
  ℕ, ◌+◌, ◌<◌, ◌≡◌, ◌≢◌, refl, sym, ap, ◌∙◌, inl, inr, Bool, true, false, not, ◌||◌, Option, none,
  some, List, [], ◌∷◌, ◌++◌, arith, ltb, leb, if◌then◌else◌, if_split, length, any, get_elem?, All,
  All-get, Bool-cases,
}
use ircbot_rs.Prelude.Counts.{count_if, one_if}
use ircbot_rs.Cstr.{Bytes, bytes_eq, is_empty, trunc}
use ircbot_rs.Cstr.Case.{bytes_eq→eq}
use ircbot_rs.Cstr.Trunc.{length-trunc, trunc-short}
use ircbot_rs.State.{BotState, TrustedBot, Chan, RosterEntry}
use ircbot_rs.Auth.{trusted_bot_by_host}
use ircbot_rs.ChanCfg.Parse.{max_chan}
use ircbot_rs.Enforce.Members.{is_me, max_roster_size}
use ircbot_rs.Enforce.Deal.{
  Hash, job_count, BotTreeRow, Elig, bot_id, bot_of, with_bot, bot_too_old, elig_add, deal_roster,
  lower_copy, my_id, ranked, rank_on, rank_in, deal_rank,
}
use ircbot_rs.Enforce.Order.{has_id, Distinct}
use ircbot_rs.Enforce.Holder.{SameBots}
use ircbot_rs.Enforce.Single.{rank_in-single}

any_none-count :
    (id : Bytes) (el : List Elig)
    → any (λ e. bytes_eq e.id id) el ≡ false
    → count_if (has_id id) el ≡ 0
any_none-count id [] h = refl
any_none-count id (x ∷ xs) h = ground (arith, any_none-count id xs)

count-last :
    (p : Elig → Bool) (el : List Elig) (x : Elig)
    → count_if p (el ++ x ∷ []) ≡ count_if p el + one_if (p x)
count-last p [] x = ground arith
count-last p (y ∷ ys) x = ground (arith, count-last p ys x)

-- A bot that is not there yet.
last-Distinct :
    (x : Elig) (el : List Elig)
    → count_if (has_id x.id) el ≡ 0
    → Distinct el
    → Distinct (el ++ x ∷ [])
last-Distinct x el h d id = elim (Bool-cases (bytes_eq x.id id)) [
  | inl e ↦
      let gone : count_if (has_id id) el ≡ 0 =
        subst (λ b. count_if (has_id b) el ≡ 0) (bytes_eq→eq x.id id e) h in
      ground (arith, count-last (has_id id) el x, gone, e)
  | inr e ↦ ground (arith, count-last (has_id id) el x, d id, e)
]

elig_add-Distinct :
    (hash : Hash) (lc id : Bytes) (el : List Elig)
    → length id < 64
    → Distinct el
    → Distinct (elig_add hash lc id el).1
unfolding elig_add
elig_add-Distinct hash lc id el short d =
    let whole : trunc id 64 ≡ id = trunc-short id 64 short in
    if_split (λ (r : Bool × List Elig). Distinct r.1) (any (λ e. bytes_eq e.id id) el) _ _
      (λ there. d)
      (λ absent.
        if_split (λ (r : Bool × List Elig). Distinct r.1)
          (ltb (max_chan + 64) (length lc + length id)) _ _ (λ wide. d)
          (λ fits.
            last-Distinct (record { h = hash (lc ++ id); id = trunc id 64 }) el
              (subst (λ b. count_if (has_id b) el ≡ 0) (sym whole) (any_none-count id el absent))
              d))

-- The ids of bots that fit the 64 bytes that an entry of the deal keeps.
abbrev pub ShortIds : List TrustedBot → Type 0
ShortIds = All (λ b. length (bot_id b) < 64)

with_bot-Distinct :
    (hash : Hash) (tree : List BotTreeRow) (lc : Bytes) (el : List Elig) (o : Option TrustedBot)
    → ((b : TrustedBot) → o ≡ some b → length (bot_id b) < 64)
    → Distinct el
    → Distinct (with_bot hash tree lc el o)
with_bot-Distinct hash tree lc el none short d = d
with_bot-Distinct hash tree lc el (some b) short d =
    if_split Distinct (bot_too_old tree (bot_id b)) _ _ (λ old. d)
      (λ kept. elig_add-Distinct hash lc (bot_id b) el (short b refl) d)

bot_of_short :
    (st : BotState) (o : Option ℕ) (b : TrustedBot)
    → ShortIds st.trusted_bots
    → bot_of st o ≡ some b
    → length (bot_id b) < 64
bot_of_short st none b s h = ground arith
bot_of_short st (some i) b s h = All-get (λ x. length (bot_id x) < 64) st.trusted_bots i b s h

deal_roster-Distinct :
    (hash : Hash) (tree : List BotTreeRow) (st : BotState) (lc : Bytes) (el : List Elig)
    (es : List RosterEntry)
    → ShortIds st.trusted_bots
    → Distinct el
    → Distinct (deal_roster hash tree st lc el es)
unfolding deal_roster
deal_roster-Distinct hash tree st lc el [] s d = d
deal_roster-Distinct hash tree st lc el (e ∷ es) s d =
    if_split Distinct (ltb max_roster_size (length el)) _ _ (λ full. d)
      (λ room.
        if_split Distinct (not e.is_op || is_me st e.nick) _ _
          (λ skip. deal_roster-Distinct hash tree st lc el es s d)
          (λ take.
            deal_roster-Distinct hash tree st lc
              (with_bot hash tree lc el (bot_of st (trusted_bot_by_host st e.hostmask))) es s
              (with_bot-Distinct hash tree lc el (bot_of st (trusted_bot_by_host st e.hostmask))
                (λ b h. bot_of_short st (trusted_bot_by_host st e.hostmask) b s h) d)))

-- The bots that a job of the channel is dealt to, this bot and the opped ones that it trusts.
abbrev pub dealt : Hash → List BotTreeRow → BotState → Chan → List Elig
dealt hash tree st c =
    deal_roster hash tree st (lower_copy c.name max_chan)
      (elig_add hash (lower_copy c.name max_chan) (my_id st) []).1 c.roster

dealt-Distinct :
    (hash : Hash) (tree : List BotTreeRow) (st : BotState) (c : Chan)
    → ShortIds st.trusted_bots
    → Distinct (dealt hash tree st c)
dealt-Distinct hash tree st c s =
    let short : length (my_id st) < 64 =
      omega
        (arith, length-trunc (if is_empty st.bot_uuid then st.current_nick else st.bot_uuid) 64) in
    deal_roster-Distinct hash tree st _ _ c.roster s
      (elig_add-Distinct hash _ (my_id st) [] short (λ id. omega arith))

ranked-some :
    (r : Bool × List Elig) (rank : List Elig → Option ℕ) (n : ℕ)
    → ranked r rank ≡ some n
    → rank r.1 ≡ some n
ranked-some (false, el) rank n h = ground arith
ranked-some (true, el) rank n h = h

rank_on-some :
    (hash : Hash) (tree : List BotTreeRow) (st : BotState) (job n : ℕ) (c : Chan)
    → rank_on hash tree st job (some c) ≡ some n
    → rank_in (my_id st) job (dealt hash tree st c) ≡ some n
rank_on-some hash tree st job n c =
    if_split (λ (r : Option ℕ). r ≡ some n → rank_in (my_id st) job (dealt hash tree st c) ≡ some n)
      (not c.i_am_opped || leb job_count job) _ _ (λ out h. ground arith)
      (λ here h. ranked-some (elig_add hash (lower_copy c.name max_chan) (my_id st) []) _ n h)

deal_rank-rank_in :
    (hash : Hash) (tree : List BotTreeRow) (st : BotState) (ci job n : ℕ) (c : Chan)
    → get_elem? st.chans ci ≡ some c
    → deal_rank hash tree st ci job ≡ some n
    → rank_in (my_id st) job (dealt hash tree st c) ≡ some n
unfolding deal_rank
deal_rank-rank_in hash tree st ci job n c at h =
    rank_on-some hash tree st job n c (ap (λ o. rank_on hash tree st job o) (sym at) ∙ h)

-- Let two bots deal a job of the channel `c`, as each of them knows it, to the same bots, in whatever order they
-- came to know them, and let the ids that the first trusts fit their buffer of 64 bytes. When deal_rank says 0 to
-- the one, so that it holds the job, it does not say 0 to the other, which has another id.
pub deal_rank-single :
    (hash : Hash) (tree tree' : List BotTreeRow) (st st' : BotState) (ci ci' job : ℕ) (c c' : Chan)
    → get_elem? st.chans ci ≡ some c
    → get_elem? st'.chans ci' ≡ some c'
    → ShortIds st.trusted_bots
    → SameBots (dealt hash tree st c) (dealt hash tree' st' c')
    → my_id st ≢ my_id st'
    → deal_rank hash tree st ci job ≡ some 0
    → deal_rank hash tree' st' ci' job ≢ some 0
deal_rank-single hash tree tree' st st' ci ci' job c c' at at' short same differ h = λ k.
    rank_in-single (dealt hash tree st c) (dealt hash tree' st' c') (my_id st) (my_id st') job
      (dealt-Distinct hash tree st c short) same differ
      (deal_rank-rank_in hash tree st ci job 0 c at h)
      (deal_rank-rank_in hash tree' st' ci' job 0 c' at' k)
