-- ===== src/Cstr/Case.antt =====
-- Laws of the comparisons of src/cstr.rs: `eq_ic` compares folded texts, `bytes_eq` is equality.
use ircbot_rs.Prelude.{ℕ, ◌≡◌, refl, sym, ◌∙◌, ◌↔◌, true, [], ◌∷◌, map, arith}
use ircbot_rs.Cstr.{Bytes, lower, byte_eq_ic, eq_ic, bytes_eq}

eq_ic→fold : (a b : Bytes) → eq_ic a b ≡ true → map lower a ≡ map lower b
unfolding eq_ic
eq_ic→fold [] [] h = refl
eq_ic→fold [] (b ∷ bs) h = ground arith
eq_ic→fold (a ∷ as') [] h = ground arith
eq_ic→fold (a ∷ as') (b ∷ bs) h = ground (arith, eq_ic→fold as' bs)

fold→eq_ic : (a b : Bytes) → map lower a ≡ map lower b → eq_ic a b ≡ true
unfolding eq_ic
fold→eq_ic [] [] h = refl
fold→eq_ic [] (b ∷ bs) h = ground arith
fold→eq_ic (a ∷ as') [] h = ground arith
fold→eq_ic (a ∷ as') (b ∷ bs) h = ground (arith, fold→eq_ic as' bs)

-- Two texts are equal up to ASCII case exactly when they fold to the same bytes.
pub eq_ic_iff : (a b : Bytes) → (eq_ic a b ≡ true) ↔ (map lower a ≡ map lower b)
eq_ic_iff a b = (eq_ic→fold a b, fold→eq_ic a b)

pub eq_ic_refl : (a : Bytes) → eq_ic a a ≡ true
eq_ic_refl a = (eq_ic_iff a a).1 refl

pub eq_ic_sym : (a b : Bytes) → eq_ic a b ≡ true → eq_ic b a ≡ true
eq_ic_sym a b h = (eq_ic_iff b a).1 (sym ((eq_ic_iff a b).0 h))

pub eq_ic_trans : (a b c : Bytes) → eq_ic a b ≡ true → eq_ic b c ≡ true → eq_ic a c ≡ true
eq_ic_trans a b c h k = (eq_ic_iff a c).1 ((eq_ic_iff a b).0 h ∙ (eq_ic_iff b c).0 k)

pub byte_eq_ic_refl : (a : ℕ) → byte_eq_ic a a ≡ true
unfolding byte_eq_ic
byte_eq_ic_refl a = ground arith

pub bytes_eq→eq : (a b : Bytes) → bytes_eq a b ≡ true → a ≡ b
unfolding bytes_eq
bytes_eq→eq [] [] h = refl
bytes_eq→eq [] (b ∷ bs) h = ground arith
bytes_eq→eq (a ∷ as') [] h = ground arith
bytes_eq→eq (a ∷ as') (b ∷ bs) h = ground (arith, bytes_eq→eq as' bs)

pub bytes_eq_refl : (a : Bytes) → bytes_eq a a ≡ true
unfolding bytes_eq
bytes_eq_refl [] = refl
bytes_eq_refl (a ∷ as') = ground (arith, bytes_eq_refl as')
