-- ===== src/Glob/Match.antt =====
-- `wildcard_match` of src/auth.rs decides `Matches`, within its fuel.
use mathlib.Core.Path.{subst}
use mathlib.Core.Bool.{false≢true}
use ircbot_rs.Prelude.{
  ℕ, zero, suc, ◌+◌, ◌*◌, ◌≤◌, ◌<◌, ◌≡◌, ◌≢◌, refl, sym, ◌↔◌, Bool, true, false, none, some, [],
  ◌∷◌, arith, ◌==◌, Bool-cases, inl, inr, length, ==_iff,
}
use ircbot_rs.Cstr.{Bytes}
use ircbot_rs.Glob.{
  byte_ok, only_stars, Back, Round, answer, again, retry, round, rounds, wildcard_match_loop,
  wildcard_match,
}
use ircbot_rs.Glob.Pattern.{
  Matches, one, skip, take, one_inv, forced_take, merge_stars, after_byte, only_stars→Matches,
  Matches→only_stars,
}

not_star : (x : ℕ) → (x == b'*') ≡ false → x ≢ b'*'
not_star x h = ground arith

abbrev Starred : Bytes → Bytes → Type 0
Starred p t = Matches (b'*' ∷ p) t

-- `Question` is what the loop was started to decide; patterns in play are shorter than `k`.
module _ (Question : Type 0) (k : ℕ) where
  -- What the saved star stands for. `m` bounds the text that it may still have to give up.
  abbrev Saved : ℕ → Bytes → Bytes → Back → Type 0
  Saved m p t none = Question → Matches p t
  Saved m p t (some (bp, bt)) =
      (Question ↔ Starred bp bt)
      × (Matches bp bt → Matches p t)
      × (length t ≤ length bt)
      × (length bt ≤ m)
      × (length bp < k)

  record Inv (fuel m : ℕ) (p t : Bytes) (back : Back) : Type 0 where
    sound : Matches p t → Question
    reach : Question → Starred p t
    saved : Saved m p t back
    text : length t ≤ m
    pattern_ : length p < k
    enough : m * k + length p < fuel

  -- A round ends with the right answer, or goes on with less to do.
  abbrev Good : ℕ → Round → Type 0
  Good fuel (answer true) = Question
  Good fuel (answer false) = ¬ Question
  Good fuel (again p t back) = (m : ℕ) × Inv fuel m p t back

  Inv-star :
      {fuel m : ℕ} {p t : Bytes}
      → Question ↔ Starred p t
      → length t ≤ m
      → length p < k
      → m * k + length p < fuel
      → Inv fuel m p t (some (p, t))
  Inv-star e ht hp hf = record {
    sound = λ d. e.1 (skip refl d);
    reach = e.0;
    saved = (e, λ d. d, omega arith, ht, hp);
    text = ht;
    pattern_ = hp;
    enough = hf;
  }

  retry-Good :
      {fuel c : ℕ} {p t : Bytes} (m : ℕ) (back : Back)
      → Inv (suc fuel) m p (c ∷ t) back
      → ¬ Matches p (c ∷ t)
      → Good fuel (retry back)
  unfolding retry
  retry-Good m none i stuck = λ q. stuck (i.saved q)
  retry-Good m (some (bp, [])) i stuck = absurd (omega arith)
  retry-Good zero (some (bp, _ ∷ bt)) i stuck = absurd (omega arith)
  retry-Good (suc m) (some (bp, _ ∷ bt)) i stuck =
      let (e, down, _, _, _) = i.saved in
      (
        m,
        Inv-star (λ q. forced_take refl (e.0 q) (λ d. stuck (down d)), λ d. e.1 (take refl d))
            (omega arith) (omega arith) (grind arith),
      )

  Saved-byte :
      (m x c : ℕ) (p t : Bytes) (back : Back)
      → x ≢ b'*'
      → Saved m (x ∷ p) (c ∷ t) back
      → Saved m p t back
  Saved-byte m x c p t none n h = λ q. (one_inv n (h q)).1
  Saved-byte m x c p t (some (bp, bt)) n (e, down, shorter, ht, hp) =
      (e, λ d. (one_inv n (down d)).1, omega arith, ht, hp)

  Inv-byte :
      {fuel m x c : ℕ} {p t : Bytes} {back : Back}
      → Inv (suc fuel) m (x ∷ p) (c ∷ t) back
      → x ≢ b'*'
      → byte_ok x c ≡ true
      → Inv fuel m p t back
  Inv-byte {m} {x} {c} {p} {t} {back} i n h = record {
    sound = λ d. i.sound (one n h d);
    reach = λ q. after_byte t refl n (i.reach q);
    saved = Saved-byte m x c p t back n i.saved;
    text = omega arith;
    pattern_ = omega arith;
    enough = omega arith;
  }

  answer-Good : (fuel : ℕ) (r : Bool) → (r ≡ true) ↔ Question → Good fuel (answer r)
  answer-Good fuel true e = e.0 refl
  answer-Good fuel false e = λ q. ground (arith, e.1 q)

  -- A star that ends the pattern so far matches the rest: `only_stars` is the answer at the end.
  Starred-end : {p : Bytes} → Starred p [] → Matches p []
  Starred-end (skip _ d) = d

  star_round :
      (fuel m x : ℕ) (p : Bytes) (c : ℕ) (t : Bytes) (back : Back)
      → Inv (suc fuel) m (x ∷ p) (c ∷ t) back
      → x ≡ b'*'
      → Good fuel (again p (c ∷ t) (some (p, c ∷ t)))
  star_round fuel m x p c t back i e = (
    m,
    Inv-star
        (
          λ q. rw e at (merge_stars refl e (i.reach q)),
          λ d. i.sound (subst (λ s. Matches (s ∷ p) (c ∷ t)) (sym e) d),
        )
        i.text (omega arith) (omega arith),
  )

  round-Good :
      (fuel m : ℕ) (p t : Bytes) (back : Back)
      → Inv (suc fuel) m p t back
      → Good fuel (round p t back)
  unfolding round
  round-Good fuel m p [] back i =
      answer-Good fuel (only_stars p)
        (λ h. i.sound (only_stars→Matches p h), λ q. Matches→only_stars p (Starred-end (i.reach q)))
  round-Good fuel m [] (c ∷ t) back i = retry-Good m back i (λ d. elim d [ ])
  round-Good fuel m (x ∷ p) (c ∷ t) back i = elim (Bool-cases (x == b'*')) [
    | inl star ↦ rw star (star_round fuel m x p c t back i ((==_iff x b'*').0 star))
    | inr other ↦ rw other (elim (Bool-cases (byte_ok x c)) [
      | inl good ↦ rw good (m, Inv-byte i (not_star x other) good)
      | inr bad ↦
          rw bad (retry-Good m back i (λ d. ground (arith, (one_inv (not_star x other) d).0)))
    ])
  ]

  rounds-Decides :
      (fuel m : ℕ) (p t : Bytes) (back : Back)
      → Inv fuel m p t back
      → (r : Bool) × (rounds fuel p t back ≡ some r) × Good fuel (answer r)
  unfolding rounds
  rounds-Decides zero m p t back i = absurd (omega arith)
  rounds-Decides (suc fuel) m p t back i =
      go (round p t back) (round-Good fuel m p t back i) (rounds-Decides fuel)
    where
      go :
          (w : Round)
          → Good fuel w
          → ((m : ℕ) (p t : Bytes) (back : Back)
              → Inv fuel m p t back
              → (r : Bool) × (rounds fuel p t back ≡ some r) × Good fuel (answer r))
          → (r : Bool) × ((elim w [
            | answer r ↦ some r
            | again p' t' back' ↦ rounds fuel p' t' back'
          ])
              ≡ some r)
            × Good (suc fuel) (answer r)
      go (answer true) g ih = (true, refl, g)
      go (answer false) g ih = (false, refl, g)
      go (again p' t' back') (m', i') ih = ih m' p' t' back' i'

Good→iff : (Q : Type 0) (k fuel : ℕ) (r : Bool) → Good Q k fuel (answer r) → (r ≡ true) ↔ Q
Good→iff Q k fuel true g = (λ _. g, λ _. refl)
Good→iff Q k fuel false g = (λ e. absurd (false≢true e), λ q. absurd (g q))

-- `wildcard_match` answers within its fuel, and answers true exactly on the texts that match.
pub wildcard_match_loop-some :
    (p t : Bytes) → (r : Bool) × (wildcard_match_loop p t ≡ some r) × ((r ≡ true) ↔ Matches p t)
unfolding wildcard_match_loop
wildcard_match_loop-some p t =
    let (r, e, g) = rounds-Decides (Matches p t) (length p + 1) _ (length t) p t none (record {
      sound = λ d. d;
      reach = λ d. skip refl d;
      saved = λ d. d;
      text = omega arith;
      pattern_ = omega arith;
      enough = omega arith;
    }) in
    (r, e, Good→iff (Matches p t) (length p + 1) 0 r g)

-- `wildcard_match` answers true exactly on the texts that the pattern matches.
pub wildcard_match_iff : (p t : Bytes) → (wildcard_match p t ≡ true) ↔ Matches p t
unfolding wildcard_match
wildcard_match_iff p t = let (r, e, h) = wildcard_match_loop-some p t in rw (e, wildcard_match) h
