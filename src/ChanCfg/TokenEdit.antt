-- ===== src/ChanCfg/TokenEdit.antt =====
-- `settings_edit` of src/chancfg.rs writes one token with the new value, which reads back.
use ircbot_rs.Prelude.{
  ◌⊎◌, all, get_elem?, position-some, ℕ, zero, suc, ◌+◌, ◌≡◌, refl, sym, ap, ◌∙◌, inl, inr, Bool,
  true, false, Option, none, some, List, [], ◌∷◌, ◌++◌, arith, keep, if◌then◌else◌, Option-cases,
}
use ircbot_rs.Cstr.{Bytes, codes, find_byte, is_empty, bytes_eq}
use mathlib.Core.Path.{subst}
use ircbot_rs.Cstr.Case.{bytes_eq→eq}
use ircbot_rs.ChanCfg.Settings.{cset, fl_name, cset_named, flood_named}
use ircbot_rs.ChanCfg.Number.{digits-show_from}
use ircbot_rs.ChanCfg.Fields.{lacks}
use ircbot_rs.ChanCfg.Parse.{split, show, show_from, is_digit}
use ircbot_rs.ChanCfg.FieldEdit.{
  EditError, cset_text, flood_text, edited, item_index, value_text, joined, keep_others,
  append_value, with_others, edit_value, settings_edit,
}
use ircbot_rs.ChanCfg.Tokens.{
  IsWhole, tokens, is_other, tokens-joined, others-tokens, check_size-edited,
}

unfoldable pub is_none : {A : Type 0} → Option A → Bool
is_none none = true
is_none (some _) = false

pub is_none-eq : {A : Type 0} (o : Option A) → is_none o ≡ true → o ≡ none
unfolding is_none
is_none-eq none h = refl
is_none-eq (some a) h = ground arith

pub all-get :
    {A : Type 0} (p : A → Bool) (xs : List A) (i : ℕ) (x : A)
    → all p xs ≡ true
    → get_elem? xs i ≡ some x
    → p x ≡ true
all-get p [] i x h e = ground arith
all-get p (y ∷ ys) zero x h e = ground arith
all-get p (y ∷ ys) (suc i) x h e = ground (arith, all-get p ys i x)

added_joined :
    (acc tok : Bytes) → acc ++ ((if is_empty acc then [] else b',' ∷ []) ++ tok) ≡ joined acc tok
unfolding is_empty
added_joined [] tok = refl
added_joined (c ∷ acc) tok = refl

appended-tokens :
    (cap : ℕ) (net : Bool) (name value acc r : Bytes)
    → IsWhole (name ++ b'=' ∷ value)
    → is_empty (name ++ b'=' ∷ value) ≡ false
    → append_value cap net name value acc ≡ edited r
    → tokens r ≡ tokens acc ++ (name ++ b'=' ∷ value) ∷ []
appended-tokens cap net name value acc r w n h =
    let tok : Bytes = name ++ b'=' ∷ value in
    let same : acc ++ ((if is_empty acc then [] else b',' ∷ []) ++ tok) ≡ r =
      check_size-edited cap net (acc ++ ((if is_empty acc then [] else b',' ∷ []) ++ tok)) r
        (ground arith) in
    ap (λ (x : Bytes). tokens x) (sym same ∙ added_joined acc tok) ∙ tokens-joined acc tok w n

added-tokens :
    (cap : ℕ) (net : Bool) (name value settings r : Bytes) (o : Option Bytes)
    → keep_others name [] (split b',' settings) ≡ o
    → IsWhole (name ++ b'=' ∷ value)
    → is_empty (name ++ b'=' ∷ value) ≡ false
    → with_others cap net name (some value) o ≡ edited r
    → tokens r ≡ keep (is_other name) (split b',' settings) ++ (name ++ b'=' ∷ value) ∷ []
added-tokens cap net name value settings r none e w n h = ground arith
added-tokens cap net name value settings r (some acc) e w n h =
    appended-tokens cap net name value acc r w n h
    ∙ ap (λ l. l ++ (name ++ b'=' ∷ value) ∷ []) (others-tokens name settings acc e)

pub IsWhole-append : (a b : Bytes) → IsWhole a → IsWhole b → IsWhole (a ++ b'=' ∷ b)
IsWhole-append [] b h k = ground arith
IsWhole-append (c ∷ a) b h k = ground (arith, IsWhole-append a b)

append_some : (a b : Bytes) → is_empty (a ++ b'=' ∷ b) ≡ false
unfolding is_empty
append_some [] b = refl
append_some (c ∷ a) b = refl

cset_whole : all (λ d. is_none (find_byte b',' d.name)) cset ≡ true
unfolding cset is_none
cset_whole = refl

fl_name_whole : all (λ n. is_none (find_byte b',' n)) fl_name ≡ true
unfolding fl_name is_none
fl_name_whole = refl

pub cset_named-IsWhole : (name : Bytes) (i : ℕ) → cset_named name ≡ some i → IsWhole name
unfolding cset_named
cset_named-IsWhole name i h =
    let (d, at, same) = position-some (λ d. bytes_eq d.name name) cset i h in
    subst IsWhole (bytes_eq→eq d.name name same)
      (is_none-eq _ (all-get (λ d. is_none (find_byte b',' d.name)) cset i d cset_whole at))

flood_named-IsWhole : (name : Bytes) (i : ℕ) → flood_named name ≡ some i → IsWhole name
unfolding flood_named
flood_named-IsWhole name i h =
    let (n, at, same) = position-some (λ n. bytes_eq n name) fl_name i h in
    subst IsWhole (bytes_eq→eq n name same)
      (is_none-eq _ (all-get (λ n. is_none (find_byte b',' n)) fl_name i n fl_name_whole at))

item_index-IsWhole :
    (name : Bytes) (net : Bool) (i : ℕ) → item_index name net ≡ some i → IsWhole name
unfolding item_index
item_index-IsWhole name net i h = elim (Option-cases (cset_named name)) [
  | inr (j, e) ↦ cset_named-IsWhole name j e
  | inl e ↦ elim (Option-cases (flood_named name)) [
    | inr (j, f) ↦ flood_named-IsWhole name j f
    | inl f ↦ ground arith
  ]
]

show-IsWhole : (n : ℕ) → IsWhole (show n)
unfolding show
show-IsWhole n = lacks is_digit b',' refl (show_from (n + 1) n) (digits-show_from (n + 1) n)

pair-IsWhole : (a b : Bytes) → IsWhole a → IsWhole b → IsWhole (a ++ b':' ∷ b)
pair-IsWhole [] b h k = ground arith
pair-IsWhole (c ∷ a) b h k = ground (arith, pair-IsWhole a b)

cset_text-IsWhole : (i : ℕ) (v : Option ℕ) (t : Bytes) → cset_text i v ≡ inr t → IsWhole t
cset_text-IsWhole i none t h = ground arith
cset_text-IsWhole i (some v) t h =
    let e : show v ≡ t = ground arith in subst IsWhole e (show-IsWhole v)

flood_text-IsWhole : (k : ℕ) (v : Option (ℕ × ℕ)) (t : Bytes) → flood_text k v ≡ inr t → IsWhole t
flood_text-IsWhole k none t h = ground arith
flood_text-IsWhole k (some (n, s)) t h =
    let e : show n ++ b':' ∷ show s ≡ t = ground arith in
    subst IsWhole e (pair-IsWhole (show n) (show s) (show-IsWhole n) (show-IsWhole s))

off_text-IsWhole :
    (b : Bool) (k : ℕ) (v : Option (ℕ × ℕ)) (t : Bytes)
    → (if b then inr (codes "off") else flood_text k v) ≡ inr t
    → IsWhole t
off_text-IsWhole true k v t h = let e : codes "off" ≡ t = ground arith in subst IsWhole e refl
off_text-IsWhole false k v t h = flood_text-IsWhole k v t h

text-IsWhole :
    (b c : Bool) (i k : ℕ) (x : Option ℕ) (v : Option (ℕ × ℕ)) (t : Bytes)
    → (if b then cset_text i x else if c then inr (codes "off") else flood_text k v) ≡ inr t
    → IsWhole t
text-IsWhole true c i k x v t h = cset_text-IsWhole i x t h
text-IsWhole false c i k x v t h = off_text-IsWhole c k v t h

value_text-IsWhole : (i : ℕ) (value t : Bytes) → value_text i value ≡ inr t → IsWhole t
unfolding value_text
value_text-IsWhole i value t h = text-IsWhole _ _ i _ _ _ t h

edited_value :
    (settings : Bytes) (cap : ℕ) (net : Bool) (name r : Bytes) (v : EditError ⊎ Bytes)
    → IsWhole name
    → ((t : Bytes) → v ≡ inr t → IsWhole t)
    → edit_value settings cap net name v ≡ edited r
    → (t : Bytes) × (v ≡ inr t)
      × (tokens r ≡ keep (is_other name) (split b',' settings) ++ (name ++ b'=' ∷ t) ∷ [])
edited_value settings cap net name r (inl e) w k h = ground arith
edited_value settings cap net name r (inr t) w k h = (
  t,
  refl,
  added-tokens cap net name t settings r _ refl (IsWhole-append name t w (k t refl))
      (append_some name t) h,
)

-- Where an edit with a value other than "default" succeeds, the name is known, the value is valid,
-- and the field has the other non-empty tokens in their order with one token of the name and the
-- value behind them.
pub settings_edit-value :
    (settings : Bytes) (cap : ℕ) (net : Bool) (name value r : Bytes)
    → bytes_eq value (codes "default") ≡ false
    → settings_edit settings cap net name value ≡ edited r
    → (i : ℕ) × (text : Bytes) × (item_index name net ≡ some i)
      × (value_text i value ≡ inr text)
      × (tokens r ≡ keep (is_other name) (split b',' settings) ++ (name ++ b'=' ∷ text) ∷ [])
unfolding settings_edit
settings_edit-value settings cap net name value r d h = elim (Option-cases (item_index name net)) [
  | inl e ↦ ground arith
  | inr (i, e) ↦
      let (t, f, g) =
        edited_value settings cap net name r (value_text i value) (item_index-IsWhole name net i e)
          (value_text-IsWhole i value) (ground arith) in
      (i, t, e, f, g)
]
