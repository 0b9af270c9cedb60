-- ===== src/Enforce/Order.antt =====
-- The order of the deal in src/chanenf.rs, and the place of a bot in it.
use ircbot_rs.Prelude.{
  ℕ, zero, suc, ◌+◌, ◌≤◌, ◌≡◌, refl, sym, ap, ◌∙◌, inl, inr, Bool, true, false, Option, none, some,
  List, [], ◌∷◌, arith, if_split, get_elem?, All, Bool-cases,
}
use ircbot_rs.Prelude.Counts.{count_if, one_if}
use ircbot_rs.Cstr.{Bytes, bytes_eq}
use ircbot_rs.Lww.{bytes_lt}
use ircbot_rs.Lww.Merge.{bytes_lt_irrefl, bytes_lt_trans}
use ircbot_rs.Enforce.Deal.{Elig, elig_lt, insert, sort}

bytes_lt_total : (a b : Bytes) → bytes_lt a b ≡ false → bytes_lt b a ≡ false → bytes_eq a b ≡ true
unfolding bytes_lt bytes_eq
bytes_lt_total [] [] h k = refl
bytes_lt_total [] (y ∷ b) h k = ground arith
bytes_lt_total (x ∷ a) [] h k = ground arith
bytes_lt_total (x ∷ a) (y ∷ b) h k = ground (arith, bytes_lt_total a b)

pub elig_lt_irrefl : (a : Elig) → elig_lt a a ≡ false
unfolding elig_lt
elig_lt_irrefl a = ground (arith, bytes_lt_irrefl a.id)

pub elig_lt_trans : (a b c : Elig) → elig_lt a b ≡ true → elig_lt b c ≡ true → elig_lt a c ≡ true
unfolding elig_lt
elig_lt_trans a b c h k = ground (arith, bytes_lt_trans a.id b.id c.id)

pub elig_lt_total :
    (a b : Elig) → bytes_eq a.id b.id ≡ false → elig_lt b a ≡ false → elig_lt a b ≡ true
unfolding elig_lt
elig_lt_total a b differ h = ground (arith, bytes_lt_total a.id b.id)

elig_lt_asym : (a b : Elig) → elig_lt a b ≡ true → elig_lt b a ≡ false
elig_lt_asym a b h = elim (Bool-cases (elig_lt b a)) [
  | inl k ↦ absurd (ground (arith, elig_lt_trans a b a h k, elig_lt_irrefl a))
  | inr k ↦ k
]

count-insert :
    (p : Elig → Bool) (e : Elig) (xs : List Elig)
    → count_if p (insert e xs) ≡ one_if (p e) + count_if p xs
unfolding insert
count-insert p e [] = ground arith
count-insert p e (x ∷ xs) = ground (arith, count-insert p e xs)

pub count-sort : (p : Elig → Bool) (xs : List Elig) → count_if p (sort xs) ≡ count_if p xs
unfolding sort
count-sort p [] = refl
count-sort p (x ∷ xs) = ground (arith, count-insert p x (sort xs), count-sort p xs)

-- No later one comes before an earlier one.
abbrev pub Sorted : List Elig → Type 0
Sorted [] = Unit
Sorted (x ∷ xs) = All (λ y. elig_lt y x ≡ false) xs × Sorted xs

All-weaken : (P Q : Elig → Type 0) (xs : List Elig) → ((x : Elig) → P x → Q x) → All P xs → All Q xs
All-weaken P Q [] k h = tt
All-weaken P Q (x ∷ xs) k h = (k x h.0, All-weaken P Q xs k h.1)

All-insert : (P : Elig → Type 0) (e : Elig) (xs : List Elig) → P e → All P xs → All P (insert e xs)
unfolding insert
All-insert P e [] h k = (h, tt)
All-insert P e (x ∷ xs) h k =
    if_split (All P) (elig_lt e x) (e ∷ x ∷ xs) (x ∷ insert e xs) (λ _. (h, k))
      (λ _. (k.0, All-insert P e xs h k.1))

behind : (x e y : Elig) → elig_lt e x ≡ true → elig_lt y x ≡ false → elig_lt y e ≡ false
behind x e y lt k = elim (Bool-cases (elig_lt y e)) [
  | inl less ↦ absurd (ground (arith, elig_lt_trans y e x less lt))
  | inr more ↦ more
]

insert-Sorted : (e : Elig) (xs : List Elig) → Sorted xs → Sorted (insert e xs)
unfolding insert
insert-Sorted e [] h = (tt, tt)
insert-Sorted e (x ∷ xs) h =
    if_split Sorted (elig_lt e x) (e ∷ x ∷ xs) (x ∷ insert e xs)
      (λ lt. (
        (
          elig_lt_asym e x lt,
          All-weaken (λ y. elig_lt y x ≡ false) (λ y. elig_lt y e ≡ false) xs
              (λ y k. behind x e y lt k) h.0,
        ),
        h,
      ))
      (λ ge. (All-insert (λ y. elig_lt y x ≡ false) e xs ge h.0, insert-Sorted e xs h.1))

pub sort-Sorted : (xs : List Elig) → Sorted (sort xs)
unfolding sort
sort-Sorted [] = tt
sort-Sorted (x ∷ xs) = insert-Sorted x (sort xs) (sort-Sorted xs)

abbrev pub has_id : Bytes → Elig → Bool
has_id id e = bytes_eq e.id id

-- No two have the same id.
abbrev pub Distinct : List Elig → Type 0
Distinct xs = (id : Bytes) → count_if (has_id id) xs ≤ 1

abbrev or_else : Elig → Option Elig → Elig
or_else a none = a
or_else a (some b) = b

pub some_inj : (a b : Elig) → some a ≡ some b → a ≡ b
some_inj a b h = ap (λ o. or_else a o) h

pub count_zero-get :
    (p : Elig → Bool) (xs : List Elig) (k : ℕ) (e : Elig)
    → count_if p xs ≡ 0
    → get_elem? xs k ≡ some e
    → p e ≡ false
count_zero-get p [] k e z at = ground arith
count_zero-get p (x ∷ xs) zero e z at =
    let same : x ≡ e = some_inj x e at in ap p (sym same) ∙ ground arith
count_zero-get p (x ∷ xs) (suc k) e z at = count_zero-get p xs k e (ground arith) at

-- The place of the bot `me`: as many come before it as are less than it.
pub record Placed (me : Bytes) (xs : List Elig) (i : ℕ) : Type 0 where
  pub bot : Elig
  pub mine : bytes_eq bot.id me ≡ true
  pub at : get_elem? xs i ≡ some bot
  pub before : i ≡ count_if (λ x. elig_lt x bot) xs
