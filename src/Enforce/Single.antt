-- ===== src/Enforce/Single.antt =====
-- The deal of src/chanenf.rs as two bots see it.
use ircbot_rs.Prelude.{
  ℕ, ◌%◌, ◌≡◌, ◌≢◌, sym, ap, ◌∙◌, inl, inr, true, some, List, arith, length, Bool-cases,
}
use ircbot_rs.Prelude.Counts.{count_if}
use ircbot_rs.Cstr.{Bytes, bytes_eq}
use ircbot_rs.Cstr.Case.{bytes_eq→eq}
use ircbot_rs.Enforce.Deal.{Elig, elig_lt, sort, rank_in}
use ircbot_rs.Enforce.Order.{elig_lt_total, count-sort, Distinct}
use ircbot_rs.Enforce.Holder.{SameBots, count-all, fewer, Holds, rank_in-Holds}

same_before :
    (el el' : List Elig) (b : Elig)
    → SameBots el el'
    → count_if (λ x. elig_lt x b) (sort el') ≡ count_if (λ x. elig_lt x b) (sort el)
same_before el el' b s =
    count-sort (λ x. elig_lt x b) el'
    ∙ sym (s (λ x. elig_lt x b))
    ∙ sym (count-sort (λ x. elig_lt x b) el)

-- As many come before the one as before the other.
same_place :
    (me me' : Bytes) (job : ℕ) (el el' : List Elig) (h : Holds me job el) (k : Holds me' job el')
    → SameBots el el'
    → count_if (λ x. elig_lt x h.place.bot) (sort el)
      ≡ count_if (λ x. elig_lt x k.place.bot) (sort el)
same_place me me' job el el' h k s =
    let many : length el ≡ length el' = sym (count-all el) ∙ s (λ x. true) ∙ count-all el' in
    let turn : job % length el ≡ job % length el' = ap (λ (n : ℕ). job % n) many in
    sym h.place.before ∙ turn ∙ k.place.before ∙ same_before el el' k.place.bot s

same_bot :
    (me me' : Bytes) (job : ℕ) (el el' : List Elig) (h : Holds me job el) (k : Holds me' job el')
    → SameBots el el'
    → bytes_eq h.place.bot.id k.place.bot.id ≡ true
same_bot me me' job el el' h k s = elim (Bool-cases (bytes_eq h.place.bot.id k.place.bot.id)) [
  | inl e ↦ e
  | inr differ ↦ elim (Bool-cases (elig_lt k.place.bot h.place.bot)) [
    | inl less ↦
        let lt = fewer k.place.bot h.place.bot (sort el') (job % length el') k.place.at less in
        absurd (
          omega (
            arith,
            lt,
            same_before el el' k.place.bot s,
            same_before el el' h.place.bot s,
            same_place me me' job el el' h k s,
          ))
    | inr ge ↦
        let less = elig_lt_total h.place.bot k.place.bot differ ge in
        let lt = fewer h.place.bot k.place.bot (sort el) (job % length el) h.place.at less in
        absurd (omega (arith, lt, same_place me me' job el el' h k s))
  ]
]

same_holder :
    (el el' : List Elig) (me me' : Bytes) (job : ℕ)
    → Distinct el
    → SameBots el el'
    → rank_in me job el ≡ some 0
    → rank_in me' job el' ≡ some 0
    → me ≡ me'
same_holder el el' me me' job d s h k =
    let d' : Distinct el' = λ id. omega (arith, s (λ e. bytes_eq e.id id), d id) in
    let p = rank_in-Holds me job el d h in
    let q = rank_in-Holds me' job el' d' k in
    sym (bytes_eq→eq p.place.bot.id me p.place.mine)
    ∙ bytes_eq→eq p.place.bot.id q.place.bot.id (same_bot me me' job el el' p q s)
    ∙ bytes_eq→eq q.place.bot.id me' q.place.mine

-- Let two bots have the same bots in the deal, none of them twice and in whatever order they were added. When the
-- one is first for a job, the other, which has another id, is not first for it.
pub rank_in-single :
    (el el' : List Elig) (me me' : Bytes) (job : ℕ)
    → Distinct el
    → SameBots el el'
    → me ≢ me'
    → rank_in me job el ≡ some 0
    → rank_in me' job el' ≢ some 0
rank_in-single el el' me me' job d s differ h = λ k. differ (same_holder el el' me me' job d s h k)
