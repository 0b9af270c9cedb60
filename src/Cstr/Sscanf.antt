-- ===== src/Cstr/Sscanf.antt =====
-- The sscanf directives of src/cstr.rs read back the fields of a '|' record.
use ircbot_rs.Prelude.{
  ℕ, zero, suc, ◌≤◌, ◌<◌, ◌≡◌, refl, ap, ◌∙◌, Bool, true, false, not, some, [], ◌∷◌, ◌++◌, arith,
  ◌==◌, length, take, any, all, get_elem?,
}
use ircbot_rs.Cstr.{Bytes, cut_back, is_char_boundary}
use ircbot_rs.Cstr.Scan.{run_len, set_not}
use ircbot_rs.Cstr.Numbers.{drop-length}

-- A field that `%N[^excl]` takes whole.
pub record IsField (max : ℕ) (excl f : Bytes) : Type 0 where
  pub some_byte : 1 ≤ length f
  pub within : length f ≤ max
  pub allowed : all (λ c. not (any (λ d. d == c) excl)) f ≡ true

run_len-append :
    (max : ℕ) (p : ℕ → Bool) (f : Bytes) (c : ℕ) (rest : Bytes)
    → length f ≤ max
    → all p f ≡ true
    → p c ≡ false
    → run_len max p (f ++ c ∷ rest) ≡ length f
unfolding run_len
run_len-append zero p [] c rest l a h = refl
run_len-append (suc max) p [] c rest l a h = ground arith
run_len-append zero p (x ∷ f) c rest l a h = absurd (omega arith)
run_len-append (suc max) p (x ∷ f) c rest l a h = ground (arith, run_len-append max p f c rest)

get_elem?-append :
    (f : Bytes) (c : ℕ) (rest : Bytes) → get_elem? (f ++ c ∷ rest) (length f) ≡ some c
get_elem?-append [] c rest = refl
get_elem?-append (x ∷ f) c rest = get_elem?-append f c rest

take-length : (f rest : Bytes) → take (length f) (f ++ rest) ≡ f
take-length [] rest = refl
take-length (x ∷ f) rest = ap (λ s. x ∷ s) (take-length f rest)

-- An ASCII byte begins a character.
cut_back-append :
    (n : ℕ) (f : Bytes) (c : ℕ) (rest : Bytes)
    → c < 128
    → n ≡ length f
    → cut_back (f ++ c ∷ rest) n ≡ n
unfolding cut_back is_char_boundary
cut_back-append zero f c rest h e = refl
cut_back-append (suc n) f c rest h e =
    let at : get_elem? (f ++ c ∷ rest) (suc n) ≡ some c =
      ap (λ (i : ℕ). get_elem? (f ++ c ∷ rest) i) e ∙ get_elem?-append f c rest in
    ground arith

-- A field in front of an excluded ASCII byte is converted as it is.
pub set_not-field :
    (max : ℕ) (excl f : Bytes) (c : ℕ) (rest : Bytes)
    → IsField max excl f
    → c < 128
    → any (λ d. d == c) excl ≡ true
    → set_not max excl (f ++ c ∷ rest) ≡ some (f, c ∷ rest)
unfolding set_not
set_not-field max excl f c rest h low stop = ground (
  arith,
  run_len-append max (λ c. not (any (λ d. d == c) excl)) f c rest h.within h.allowed,
  cut_back-append (length f) f c rest low refl,
  h.some_byte,
  take-length f (c ∷ rest),
  drop-length f (c ∷ rest),
)
