-- ===== src/Lww/Nonces.antt =====
-- The replay cache of src/state.rs: a nonce that was recorded is found until the ring comes round.
use ircbot_rs.Prelude.{
  ℕ, zero, suc, ◌+◌, ◌-◌, ◌%◌, ◌≤◌, ◌<◌, ◌≡◌, ◌≢◌, refl, ◌⊎◌, inl, inr, Bool, true, some, List, [],
  ◌∷◌, arith, length, set, get_elem?, any, length-set, get_elem?-set_self, ◌==◌, ap, Bool-cases,
  ==_iff,
}
use native.Mathlib.Nat.{mod-eq_of_lt, mod_self}
use ircbot_rs.Lww.{NonceEntry, NonceCache, nonce_ttl_seconds, is_fresh, seen, remember}

any-of-get {ℓ} :
    {A : Type ℓ} (p : A → Bool) (xs : List A) (i : ℕ) (x : A)
    → get_elem? xs i ≡ some x
    → p x ≡ true
    → any p xs ≡ true
any-of-get p [] i x h k = ground arith
any-of-get p (y ∷ ys) zero x h k = ground arith
any-of-get p (y ∷ ys) (suc i) x h k = ground (arith, any-of-get p ys i x h k)

get_elem?-set_other {ℓ} :
    {A : Type ℓ} (xs : List A) (i j : ℕ) (v : A) → i ≢ j → get_elem? (set xs i v) j ≡ get_elem? xs j
get_elem?-set_other [] i j v h = refl
get_elem?-set_other (x ∷ xs) zero zero v h = absurd (h refl)
get_elem?-set_other (x ∷ xs) zero (suc j) v h = refl
get_elem?-set_other (x ∷ xs) (suc i) zero v h = refl
get_elem?-set_other (x ∷ xs) (suc i) (suc j) v h = get_elem?-set_other xs i j v (λ e. h (ap suc e))

-- The next index of a ring of `n` slots, without the remainder.
next_idx : (i n : ℕ) → i < n → ((i + 1) % n ≡ i + 1) × (i + 1 < n) ⊎ ((i + 1) % n ≡ 0) × (i + 1 ≡ n)
next_idx i n h = elim (Bool-cases (i + 1 == n)) [
  | inl last ↦ inr (rw ((==_iff (i + 1) n).0 last) (mod_self n), (==_iff (i + 1) n).0 last)
  | inr more ↦ inl (mod-eq_of_lt (ground arith), ground arith)
]

-- `left` more writes leave the slot `i`, which holds `e`, as it is.
record Holds (c : NonceCache) (i left : ℕ) (e : NonceEntry) : Type 0 where
  slot : get_elem? c.entries i ≡ some e
  inside : i < length c.entries
  at_idx : c.idx < length c.entries
  bound : left < length c.entries
  gap : (c.idx + left ≡ i) ⊎ (c.idx + left ≡ i + length c.entries)

abbrev pub remember_all : NonceCache → List (ℕ × ℕ) → NonceCache
remember_all c [] = c
remember_all c ((n, t) ∷ more) = remember_all (remember c n t) more

Holds-remember :
    (c : NonceCache) (i left : ℕ) (e : NonceEntry) (n t : ℕ)
    → Holds c i (suc left) e
    → Holds (remember c n t) i left e
unfolding remember
Holds-remember c i left e n t h = record {
  slot = rw (get_elem?-set_other c.entries c.idx i _ (omega arith)) h.slot;
  inside = rw (length-set c.entries) h.inside;
  at_idx = rw (length-set c.entries) (omega (arith, next_idx c.idx (length c.entries)));
  bound = rw (length-set c.entries) (omega arith);
  gap = rw (length-set c.entries) (omega (arith, next_idx c.idx (length c.entries) h.at_idx));
}

Holds-remember_all :
    (c : NonceCache) (i left : ℕ) (e : NonceEntry) (more : List (ℕ × ℕ))
    → Holds c i left e
    → length more ≤ left
    → get_elem? (remember_all c more).entries i ≡ some e
Holds-remember_all c i left e [] h l = h.slot
Holds-remember_all c i zero e ((n, t) ∷ more) h l = absurd (omega arith)
Holds-remember_all c i (suc left) e ((n, t) ∷ more) h l =
    Holds-remember_all (remember c n t) i left e more (Holds-remember c i left e n t h)
      (omega arith)

Holds-new :
    (c : NonceCache) (nonce t : ℕ)
    → c.idx < length c.entries
    → Holds (remember c nonce t) c.idx (length c.entries - 1) (record { nonce = nonce; ts = t })
unfolding remember
Holds-new c nonce t h = record {
  slot = get_elem?-set_self c.entries c.idx _ h;
  inside = rw (length-set c.entries) h;
  at_idx = rw (length-set c.entries) (omega (arith, next_idx c.idx (length c.entries) h));
  bound = rw (length-set c.entries) (omega arith);
  gap = rw (length-set c.entries) (omega (arith, next_idx c.idx (length c.entries) h));
}

-- With the ring's index in range, a nonce recorded at time `t` is refused as a replay until `t` +
-- 60, as long as fewer nonces than the ring has slots were recorded after it.
pub seen-remember_all :
    (c : NonceCache) (nonce t now : ℕ) (more : List (ℕ × ℕ))
    → c.idx < length c.entries
    → length more < length c.entries
    → now ≤ t + nonce_ttl_seconds
    → seen (remember_all (remember c nonce t) more) nonce now ≡ true
unfolding seen
seen-remember_all c nonce t now more h l fresh =
    any-of-get (is_fresh nonce now) _ c.idx _
      (Holds-remember_all (remember c nonce t) c.idx _ _ more (Holds-new c nonce t h) (omega arith))
      (ground arith)
