-- ===== src/ChanCfg/Tokens.antt =====
-- What `settings_edit` of src/chancfg.rs does to the tokens of a settings field.
use ircbot_rs.Prelude.{
  if_split, Bool-cases, ◌==◌, ℕ, ◌≡◌, ◌≢◌, refl, sym, ap, ◌∙◌, inl, inr, Bool, true, false, not,
  ◌||◌, Option, none, some, List, [], ◌∷◌, ◌++◌, arith, keep, All, append_assoc, append-nil,
  Option-cases, ◌==◌, if_split,
}
use ircbot_rs.Cstr.{Bytes, codes, find_byte, is_empty}
use ircbot_rs.Cstr.Case.{bytes_eq_refl}
use ircbot_rs.ChanCfg.Parse.{split, cons_head}
use ircbot_rs.ChanCfg.FieldEdit.{
  edited, item_index, sets_name, joined, keep_others, check_size, with_others, settings_edit,
}

abbrev pub IsWhole : Bytes → Type 0
IsWhole t = find_byte b',' t ≡ none

cons_head-IsWhole :
    (c : ℕ) (l : List Bytes) → (c == b',') ≡ false → All IsWhole l → All IsWhole (cons_head c l)
cons_head-IsWhole c [] e h = ground arith
cons_head-IsWhole c (w ∷ ws) e h = ground arith

split-IsWhole : (s : Bytes) → All IsWhole (split b',' s)
unfolding split
split-IsWhole [] = (refl, tt)
split-IsWhole (c ∷ s) =
    if_split (All IsWhole) (c == b',') ([] ∷ split b',' s) (cons_head c (split b',' s))
      (λ _. (refl, split-IsWhole s)) (λ e. cons_head-IsWhole c (split b',' s) e (split-IsWhole s))

split-whole : (s : Bytes) → IsWhole s → split b',' s ≡ s ∷ []
unfolding split
split-whole [] h = refl
split-whole (c ∷ s) h = ground (arith, split-whole s)

cons_head_some : (c : ℕ) (l : List Bytes) → cons_head c l ≢ []
cons_head_some c [] = ground arith
cons_head_some c (w ∷ ws) = ground arith

split-some : (s : Bytes) → split b',' s ≢ []
unfolding split
split-some [] = ground arith
split-some (c ∷ s) =
    if_split (λ (l : List Bytes). l ≢ []) (c == b',') ([] ∷ split b',' s)
      (cons_head c (split b',' s)) (λ _. ground arith) (λ _. cons_head_some c (split b',' s))

cons_head-append : (c : ℕ) (l m : List Bytes) → l ≢ [] → cons_head c (l ++ m) ≡ cons_head c l ++ m
cons_head-append c [] m h = absurd (h refl)
cons_head-append c (w ∷ ws) m h = refl

split-append :
    (acc tok : Bytes) → IsWhole tok → split b',' (acc ++ b',' ∷ tok) ≡ split b',' acc ++ tok ∷ []
unfolding split
split-append [] tok h = ground (arith, split-whole tok h)
split-append (c ∷ acc) tok h =
    ground (
      arith,
      split-append acc tok h,
      cons_head-append c (split b',' acc) (tok ∷ []) (split-some acc),
    )

abbrev pub present : Bytes → Bool
present t = not (is_empty t)

-- the settings that a field holds
abbrev pub tokens : Bytes → List Bytes
tokens s = keep present (split b',' s)

keep-append : (p : Bytes → Bool) (a b : List Bytes) → keep p (a ++ b) ≡ keep p a ++ keep p b
keep-append p [] b = refl
keep-append p (x ∷ a) b = ground (arith, keep-append p a b)

nil_empty : is_empty [] ≡ true
unfolding is_empty
nil_empty = refl

empty_nil : (s : Bytes) → is_empty s ≡ true → s ≡ []
unfolding is_empty
empty_nil [] h = refl
empty_nil (c ∷ s) h = ground arith

tokens-append :
    (acc tok : Bytes)
    → IsWhole tok
    → is_empty tok ≡ false
    → tokens (acc ++ b',' ∷ tok) ≡ tokens acc ++ tok ∷ []
tokens-append acc tok h e =
    ap (keep present) (split-append acc tok h)
    ∙ keep-append present (split b',' acc) (tok ∷ [])
    ∙ ap (λ l. tokens acc ++ l) (ground arith)

tokens-whole : (tok : Bytes) → IsWhole tok → is_empty tok ≡ false → tokens tok ≡ tok ∷ []
tokens-whole tok h e = ap (keep present) (split-whole tok h) ∙ ground arith

tokens-nil : tokens [] ≡ []
unfolding split is_empty
tokens-nil = refl

pub tokens-joined :
    (acc tok : Bytes)
    → IsWhole tok
    → is_empty tok ≡ false
    → tokens (joined acc tok) ≡ tokens acc ++ tok ∷ []
tokens-joined acc tok h e =
    if_split (λ (s : Bytes). tokens s ≡ tokens acc ++ tok ∷ []) (is_empty acc) tok
      (acc ++ b',' ∷ tok)
      (λ a.
        tokens-whole tok h e
        ∙ sym (
            ap (λ (x : Bytes). tokens x ++ tok ∷ []) (empty_nil acc a)
            ∙ ap (λ l. l ++ tok ∷ []) tokens-nil))
      (λ _. tokens-append acc tok h e)

abbrev pub is_other : Bytes → Bytes → Bool
is_other name t = not (is_empty t || sets_name name t)

keep_others-tokens :
    (name acc : Bytes) (toks : List Bytes) (r : Bytes)
    → All IsWhole toks
    → keep_others name acc toks ≡ some r
    → tokens r ≡ tokens acc ++ keep (is_other name) toks
unfolding keep_others
keep_others-tokens name acc [] r w h =
    let e : acc ≡ r = ground arith in
    ap (λ (x : Bytes). tokens x) (sym e) ∙ sym (append-nil (tokens acc))
keep_others-tokens name acc (tok ∷ toks) r w h = elim (Bool-cases (is_other name tok)) [
  | inl e ↦
      let some_tok : is_empty tok ≡ false = ground arith in
      let next : keep_others name (joined acc tok) toks ≡ some r = ground arith in
      let kept : keep (is_other name) (tok ∷ toks) ≡ tok ∷ keep (is_other name) toks =
        ground arith in
      keep_others-tokens name (joined acc tok) toks r w.1 next
      ∙ ap (λ l. l ++ keep (is_other name) toks) (tokens-joined acc tok w.0 some_tok)
      ∙ append_assoc (tokens acc) (tok ∷ []) (keep (is_other name) toks)
      ∙ ap (λ l. tokens acc ++ l) (sym kept)
  | inr e ↦
      let next : keep_others name acc toks ≡ some r = ground arith in
      let kept : keep (is_other name) (tok ∷ toks) ≡ keep (is_other name) toks = ground arith in
      keep_others-tokens name acc toks r w.1 next ∙ ap (λ l. tokens acc ++ l) (sym kept)
]

pub others-tokens :
    (name settings r : Bytes)
    → keep_others name [] (split b',' settings) ≡ some r
    → tokens r ≡ keep (is_other name) (split b',' settings)
others-tokens name settings r h =
    keep_others-tokens name [] (split b',' settings) r (split-IsWhole settings) h
    ∙ ap (λ l. l ++ keep (is_other name) (split b',' settings)) tokens-nil

pub check_size-edited :
    (cap : ℕ) (net : Bool) (s r : Bytes) → check_size cap net s ≡ edited r → s ≡ r
check_size-edited cap net s r h = ground arith

dropped-tokens :
    (cap : ℕ) (net : Bool) (name settings r : Bytes) (o : Option Bytes)
    → keep_others name [] (split b',' settings) ≡ o
    → with_others cap net name none o ≡ edited r
    → tokens r ≡ keep (is_other name) (split b',' settings)
dropped-tokens cap net name settings r none e h = ground arith
dropped-tokens cap net name settings r (some acc) e h =
    ap (λ (x : Bytes). tokens x) (sym (check_size-edited cap net acc r h))
    ∙ others-tokens name settings acc e

-- Where an edit to "default" succeeds, the field has the other non-empty tokens in their order and
-- none for the name.
pub settings_edit-default :
    (settings : Bytes) (cap : ℕ) (net : Bool) (name r : Bytes)
    → settings_edit settings cap net name (codes "default") ≡ edited r
    → tokens r ≡ keep (is_other name) (split b',' settings)
unfolding settings_edit
settings_edit-default settings cap net name r h = elim (Option-cases (item_index name net)) [
  | inl e ↦ ground arith
  | inr (idx, e) ↦
      dropped-tokens cap net name settings r (keep_others name [] (split b',' settings)) refl
        (ground (arith, bytes_eq_refl (codes "default")))
]
