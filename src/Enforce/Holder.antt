-- ===== src/Enforce/Holder.antt =====
-- Who holds a job of the deal in src/chanenf.rs, and its place in the order.
use mathlib.Core.Path.{subst}
use native.Mathlib.Nat.{mod-lt, mod-eq_of_lt, add-mod_right}
use ircbot_rs.Prelude.{
  ℕ, zero, suc, ◌+◌, ◌-◌, ◌%◌, ◌≤◌, ◌<◌, ◌≡◌, refl, sym, ap, ◌∙◌, inl, inr, Bool, true, false, not,
  ◌&&◌, Option, none, some, List, [], ◌∷◌, arith, ltb, length, get_elem?, All, All-get, Bool-cases,
  Option-cases, get_elem?-lt,
}
use ircbot_rs.Prelude.Counts.{count_if}
use ircbot_rs.Cstr.{Bytes, bytes_eq}
use ircbot_rs.Cstr.Case.{bytes_eq→eq, bytes_eq_refl}
use ircbot_rs.Enforce.Deal.{Elig, elig_lt, sort, rposition, rank_at, rank_in}
use ircbot_rs.Enforce.Order.{
  elig_lt_irrefl, elig_lt_trans, elig_lt_total, count-sort, Sorted, sort-Sorted, has_id, Distinct,
  count_zero-get, some_inj, Placed,
}

count_none :
    (e : Elig) (xs : List Elig)
    → All (λ y. elig_lt y e ≡ false) xs
    → count_if (λ x. elig_lt x e) xs ≡ 0
count_none e [] h = refl
count_none e (x ∷ xs) h = ground (arith, h.0, count_none e xs h.1)

tail-Distinct : (x : Elig) (xs : List Elig) → Distinct (x ∷ xs) → Distinct xs
tail-Distinct x xs h = λ id. ground (arith, h id)

-- An entry behind the first has another id.
other_id :
    (x e : Elig) (xs : List Elig) (k : ℕ)
    → Distinct (x ∷ xs)
    → get_elem? xs k ≡ some e
    → bytes_eq e.id x.id ≡ false
other_id x e xs k h at =
    let own : has_id x.id x ≡ true = bytes_eq_refl x.id in
    let gone : count_if (has_id x.id) xs ≡ 0 = ground (arith, h x.id) in
    count_zero-get (has_id x.id) xs k e gone at

pub eq_false_sym : (a b : Bytes) → bytes_eq a b ≡ false → bytes_eq b a ≡ false
eq_false_sym a b h = elim (Bool-cases (bytes_eq b a)) [
  | inl e ↦
      let same : b ≡ a = bytes_eq→eq b a e in
      absurd (ground (arith, ap (λ x. bytes_eq x b) same, bytes_eq_refl b))
  | inr e ↦ e
]

later-Placed :
    (me : Bytes) (x : Elig) (xs : List Elig) (i : ℕ)
    → Sorted (x ∷ xs)
    → Distinct (x ∷ xs)
    → Placed me xs i
    → Placed me (x ∷ xs) (suc i)
later-Placed me x xs i s d p =
    let behind : elig_lt p.bot x ≡ false = All-get (λ y. elig_lt y x ≡ false) xs i p.bot s.0 p.at in
    let differ : bytes_eq x.id p.bot.id ≡ false =
      eq_false_sym p.bot.id x.id (other_id x p.bot xs i d p.at) in
    let first : elig_lt x p.bot ≡ true = elig_lt_total x p.bot differ behind in
    record { bot = p.bot; mine = p.mine; at = p.at; before = ground (arith, p.before) }

first-Placed :
    (me : Bytes) (x : Elig) (xs : List Elig)
    → Sorted (x ∷ xs)
    → bytes_eq x.id me ≡ true
    → Placed me (x ∷ xs) 0
first-Placed me x xs s e = record {
  bot = x;
  mine = e;
  at = refl;
  before = ground (arith, elig_lt_irrefl x, count_none x xs s.0);
}

-- At the last of the id, behind or here.
rposition-Placed :
    (me : Bytes) (xs : List Elig) (i : ℕ)
    → Sorted xs
    → Distinct xs
    → rposition (λ e. bytes_eq e.id me) xs ≡ some i
    → Placed me xs i
unfolding rposition
rposition-Placed me [] i s d h = ground arith
rposition-Placed me (x ∷ xs) i s d h = elim (Option-cases (rposition (λ e. bytes_eq e.id me) xs)) [
  | inl none_behind ↦ elim (Bool-cases (bytes_eq x.id me)) [
    | inl e ↦
        let here : 0 ≡ i = ground arith in
        subst (λ (n : ℕ). Placed me (x ∷ xs) n) here (first-Placed me x xs s e)
    | inr e ↦ absurd (ground arith)
  ]
  | inr (j, found) ↦
      let later : suc j ≡ i = ground arith in
      subst (λ (n : ℕ). Placed me (x ∷ xs) n) later
        (later-Placed me x xs j s d (rposition-Placed me xs j s.1 (tail-Distinct x xs d) found))
]

-- The same bots, in whatever order they were added.
abbrev pub SameBots : List Elig → List Elig → Type 0
SameBots el el' = (p : Elig → Bool) → count_if p el ≡ count_if p el'

pub count-all : (xs : List Elig) → count_if (λ x. true) xs ≡ length xs
count-all [] = refl
count-all (x ∷ xs) = ap suc (count-all xs)

-- A test that is stronger, and what is between.
count-between :
    (a b : Elig) (xs : List Elig)
    → elig_lt a b ≡ true
    → count_if (λ x. elig_lt x b) xs
      ≡ count_if (λ x. elig_lt x a) xs + count_if (λ x. elig_lt x b && not (elig_lt x a)) xs
count-between a b [] h = refl
count-between a b (x ∷ xs) h = ground (arith, elig_lt_trans x a b, count-between a b xs h)

pub count-member :
    (p : Elig → Bool) (xs : List Elig) (k : ℕ) (e : Elig)
    → get_elem? xs k ≡ some e
    → p e ≡ true
    → 1 ≤ count_if p xs
count-member p [] k e at h = ground arith
count-member p (x ∷ xs) zero e at h =
    let same : x ≡ e = some_inj x e at in let here : p x ≡ true = ap p same ∙ h in ground arith
count-member p (x ∷ xs) (suc k) e at h = ground (arith, count-member p xs k e at h)

-- Of two bots of the deal, the lesser one has fewer before it.
pub fewer :
    (a b : Elig) (xs : List Elig) (k : ℕ)
    → get_elem? xs k ≡ some a
    → elig_lt a b ≡ true
    → count_if (λ x. elig_lt x a) xs < count_if (λ x. elig_lt x b) xs
fewer a b xs k at h =
    let own : (elig_lt a b && not (elig_lt a a)) ≡ true = rw (h, elig_lt_irrefl a) refl in
    omega (
      arith,
      count-between a b xs h,
      count-member (λ x. elig_lt x b && not (elig_lt x a)) xs k a at own,
    )

-- A rank of 0 is the place that the job is dealt to.
holder_place : (n job pos : ℕ) → pos < n → (pos + n - job % n) % n ≡ 0 → pos ≡ job % n
holder_place n job pos lt h =
    let q : ℕ = job % n in
    let small : job % n < n = mod-lt job (omega arith) in
    elim (Bool-cases (ltb pos (job % n))) [
      | inl e ↦
          let less : pos < job % n = ground arith in
          let whole : (pos + n - job % n) % n ≡ pos + n - job % n = mod-eq_of_lt (omega arith) in
          absurd (omega arith)
      | inr e ↦
          let ge : job % n ≤ pos = ground arith in
          let turn : pos + n - job % n ≡ (pos - job % n) + n = omega arith in
          let rest : (pos - job % n) % n ≡ pos - job % n = mod-eq_of_lt (omega arith) in
          let zero_rest : pos - job % n ≡ 0 =
            sym rest
            ∙ sym (add-mod_right (pos - job % n) n)
            ∙ ap (λ (x : ℕ). x % n) (sym turn)
            ∙ h in
          omega arith
    ]

some_zero : (r : ℕ) → some r ≡ some 0 → r ≡ 0
some_zero r h = ground arith

-- Who holds the job has the place of the job.
pub record Holds (me : Bytes) (job : ℕ) (el : List Elig) : Type 0 where
  pub place : Placed me (sort el) (job % length el)

pub length-sort : (el : List Elig) → length (sort el) ≡ length el
length-sort el = sym (count-all (sort el)) ∙ count-sort (λ x. true) el ∙ count-all el

rank_at-Holds :
    (me : Bytes) (job : ℕ) (el : List Elig) (o : Option ℕ)
    → rposition (λ e. bytes_eq e.id me) (sort el) ≡ o
    → Distinct (sort el)
    → rank_at (length el) job o ≡ some 0
    → Holds me job el
rank_at-Holds me job el none e d h = ground arith
rank_at-Holds me job el (some pos) e d h =
    let p : Placed me (sort el) pos = rposition-Placed me (sort el) pos (sort-Sorted el) d e in
    let inside : pos < length (sort el) = get_elem?-lt (sort el) pos p.bot p.at in
    let place : pos ≡ job % length el =
      holder_place (length el) job pos (omega (arith, length-sort el)) (some_zero _ h) in
    record { place = subst (λ (n : ℕ). Placed me (sort el) n) place p }

pub rank_in-Holds :
    (me : Bytes) (job : ℕ) (el : List Elig)
    → Distinct el
    → rank_in me job el ≡ some 0
    → Holds me job el
unfolding rank_in
rank_in-Holds me job el d h =
    rank_at-Holds me job el _ refl (λ id. omega (arith, count-sort (has_id id) el, d id)) h
