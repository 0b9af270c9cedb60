-- ===== src/ChanCfg/Fields.antt =====
-- How `splitn` of src/chancfg.rs cuts a line that was written field by field.
use ircbot_rs.Prelude.{
  ℕ, zero, suc, ◌+◌, ◌≡◌, refl, ap, ◌∙◌, Bool, true, false, none, some, [], ◌∷◌, ◌++◌, arith,
  length, take, drop, all, get_or,
}
use ircbot_rs.Cstr.{Bytes, find_byte}
use ircbot_rs.ChanCfg.Parse.{splitn, show, show_from, is_digit, plain_text, is_plain, pipe}
use ircbot_rs.ChanCfg.Number.{digits-show_from}

pub lacks :
    (p : ℕ → Bool) (sep : ℕ) → p sep ≡ false → (f : Bytes) → all p f ≡ true → find_byte sep f ≡ none
lacks p sep out [] h = refl
lacks p sep out (c ∷ f) h = ground (arith, lacks p sep out f)

pub find_byte-append :
    (sep : ℕ) (f rest : Bytes)
    → find_byte sep f ≡ none
    → find_byte sep (f ++ sep ∷ rest) ≡ some (length f)
find_byte-append sep [] rest h = ground arith
find_byte-append sep (c ∷ f) rest h = ground (arith, find_byte-append sep f rest)

pub take-append : (f rest : Bytes) → take (length f) (f ++ rest) ≡ f
take-append [] rest = refl
take-append (c ∷ f) rest = ap (λ t. c ∷ t) (take-append f rest)

pub drop-append : (f : Bytes) (c : ℕ) (rest : Bytes) → drop (suc (length f)) (f ++ c ∷ rest) ≡ rest
drop-append [] c rest = refl
drop-append (x ∷ f) c rest = drop-append f c rest

pub get_or-append :
    (f rest : Bytes) (i d : ℕ) → get_or (f ++ rest) (length f + i) d ≡ get_or rest i d
get_or-append [] rest i d = let e : 0 + i ≡ i = omega arith in ap (λ (n : ℕ). get_or rest n d) e
get_or-append (x ∷ f) rest i d =
    let e : suc (length f) + i ≡ suc (length f + i) = omega arith in
    ap (λ (n : ℕ). get_or (x ∷ f ++ rest) n d) e ∙ get_or-append f rest i d

-- A field without the separator is cut off whole.
pub splitn-field :
    (sep n : ℕ) (f rest : Bytes)
    → find_byte sep f ≡ none
    → splitn sep (suc (suc n)) (f ++ sep ∷ rest) ≡ f ∷ splitn sep (suc n) rest
unfolding splitn
splitn-field sep n f rest h =
    ground
      (arith, find_byte-append sep f rest h, take-append f (sep ∷ rest), drop-append f sep rest)

pub splitn-last : (sep n : ℕ) (f : Bytes) → find_byte sep f ≡ none → splitn sep (suc n) f ≡ f ∷ []
unfolding splitn
splitn-last sep zero f h = refl
splitn-last sep (suc n) f h = ground arith

pub lacks-show : (n : ℕ) → find_byte pipe (show n) ≡ none
unfolding show
lacks-show n = lacks is_digit pipe refl (show_from (n + 1) n) (digits-show_from (n + 1) n)

pub lacks-plain : (f : Bytes) → plain_text f ≡ true → find_byte pipe f ≡ none
unfolding plain_text
lacks-plain f h = lacks is_plain pipe refl f h
