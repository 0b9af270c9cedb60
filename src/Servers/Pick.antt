-- ===== src/Servers/Pick.antt =====
-- `pick_server` of src/irc_client.rs takes the first server in turn that is not held back.
use native.Mathlib.Nat.{mod-lt, mod-eq_of_lt, add-mod_right}
use ircbot_rs.Prelude.{
  ℕ, zero, suc, ◌+◌, ◌-◌, ◌%◌, ◌≤◌, ◌<◌, ◌≡◌, refl, sym, ap, ◌∙◌, inl, inr, true, false, Option,
  none, some, arith, length, ◌==◌, ltb, if_split, Bool-cases,
}
use ircbot_rs.Servers.{Servers, is_held, block_at, pick_from, start_of, picked, pick_server}

-- The slot that the round `j` looks at.
abbrev pub slot : Servers → ℕ → ℕ → ℕ
slot s start j = (start + j) % length s.server_list

-- The slot that is taken in a round from `k` on, and `m` rounds long.
pub record FirstFree (now : ℕ) (s : Servers) (start k m i : ℕ) : Type 0 where
  pub round : ℕ
  pub from : k ≤ round
  pub before : round < k + m
  pub at : i ≡ slot s start round
  pub free : is_held now (block_at s i) ≡ false
  pub passed : (j : ℕ) → k ≤ j → j < round → is_held now (block_at s (slot s start j)) ≡ true

-- What the answer says of the rounds.
abbrev pub Answer : ℕ → Servers → ℕ → ℕ → ℕ → Option ℕ → Type 0
Answer now s start k m (some i) = FirstFree now s start k m i
Answer now s start k m none =
    (j : ℕ) → k ≤ j → j < k + m → is_held now (block_at s (slot s start j)) ≡ true

one_more :
    (now : ℕ) (s : Servers) (start k j : ℕ)
    → is_held now (block_at s (slot s start k)) ≡ true
    → k ≤ j
    → (suc k ≤ j → is_held now (block_at s (slot s start j)) ≡ true)
    → is_held now (block_at s (slot s start j)) ≡ true
one_more now s start k j held le rest = elim (Bool-cases (k == j)) [
  | inl e ↦
      let same : k ≡ j = ground arith in
      ap (λ (i : ℕ). is_held now (block_at s (slot s start i))) (sym same) ∙ held
  | inr e ↦ rest (ground arith)
]

held-Answer :
    (now : ℕ) (s : Servers) (start k m : ℕ) (o : Option ℕ)
    → is_held now (block_at s (slot s start k)) ≡ true
    → Answer now s start (suc k) m o
    → Answer now s start k (suc m) o
held-Answer now s start k m none held a =
    λ j le lt. one_more now s start k j held le (λ more. a j more (omega arith))
held-Answer now s start k m (some i) held a = record {
  round = a.round;
  from = omega (arith, a.from);
  before = omega (arith, a.before);
  at = a.at;
  free = a.free;
  passed = λ j le lt. one_more now s start k j held le (λ more. a.passed j more lt);
}

pick_from-Answer :
    (now : ℕ) (s : Servers) (start m k : ℕ) → Answer now s start k m (pick_from now s start m k)
unfolding pick_from
pick_from-Answer now s start zero k = λ j le lt. absurd (omega arith)
pick_from-Answer now s start (suc m) k =
    if_split (Answer now s start k (suc m)) (is_held now (block_at s (slot s start k)))
      (pick_from now s start m (suc k)) _
      (λ held. held-Answer now s start k m _ held (pick_from-Answer now s start m (suc k)))
      (λ free. record {
        round = k;
        from = omega arith;
        before = omega arith;
        at = refl;
        free = free;
        passed = λ j le lt. absurd (omega arith);
      })

-- Each slot is looked at in some round.
slot-round :
    (s : Servers) (start i : ℕ)
    → start < length s.server_list
    → i < length s.server_list
    → (j : ℕ) × (j < length s.server_list) × (slot s start j ≡ i)
slot-round s start i hs hi =
    let n : ℕ = length s.server_list in
    elim (Bool-cases (ltb i start)) [
      | inl e ↦
          let lt : i < start = ground arith in
          let sum : start + (i + n - start) ≡ i + n = omega arith in
          (
            i + n - start,
            omega arith,
            ap (λ (x : ℕ). x % n) sum ∙ add-mod_right i n ∙ mod-eq_of_lt hi,
          )
      | inr e ↦
          let ge : start ≤ i = ground arith in
          let sum : start + (i - start) ≡ i = omega arith in
          (i - start, omega arith, ap (λ (x : ℕ). x % n) sum ∙ mod-eq_of_lt hi)
    ]

start_of-lt : (s : Servers) → 0 < length s.server_list → start_of s < length s.server_list
start_of-lt s h = ground arith

-- The answer of `pick_server`, and what it says of the servers.
abbrev pub Choice : ℕ → Servers → Option ℕ → Type 0
Choice now s (some i) =
    (i < length s.server_list) × FirstFree now s (start_of s) 0 (length s.server_list) i
Choice now s none = (i : ℕ) → i < length s.server_list → is_held now (block_at s i) ≡ true

Answer-Choice :
    (now : ℕ) (s : Servers) (o : Option ℕ)
    → 0 < length s.server_list
    → Answer now s (start_of s) 0 (length s.server_list) o
    → Choice now s o
Answer-Choice now s (some i) pos a = (rw a.at (mod-lt (start_of s + a.round) pos), a)
Answer-Choice now s none pos a = λ i lt.
    let (j, in_turn, at) = slot-round s (start_of s) i (start_of-lt s pos) lt in
    ap (λ (x : ℕ). is_held now (block_at s x)) (sym at) ∙ a j (omega arith) (omega arith)

picked-first : (s : Servers) (o : Option ℕ) → (picked s o).0 ≡ o
picked-first s none = refl
picked-first s (some i) = refl

-- `pick_server` answers with the first slot, in turn from the current one on and around the end, that
-- is not held at the time, and passes over held ones alone; it answers with none exactly where every
-- server is held.
pub pick_server-Choice : (now : ℕ) (s : Servers) → Choice now s (pick_server now s).0
unfolding pick_server
pick_server-Choice now s =
    if_split (λ (r : Option ℕ × Servers). Choice now s r.0) (length s.server_list == 0) (none, s) _
      (λ e. λ i lt. absurd (ground arith))
      (λ e.
        let o : Option ℕ = pick_from now s (start_of s) (length s.server_list) 0 in
        rw (picked-first s o) (
          Answer-Choice now s o (ground arith)
            (pick_from-Answer now s (start_of s) (length s.server_list) 0)))
