-- ===== src/ChanCfg/EditParse.antt =====
-- A value that `settings_edit` of src/chancfg.rs writes is the one that `parse_settings` reads.
use mathlib.Core.Path.{subst}
use ircbot_rs.Prelude.{
  lt→ltb, ◌⊎◌, ℕ, ◌≤◌, ◌<◌, ◌≡◌, refl, sym, ap, ◌∙◌, inl, inr, Bool, true, false, not, ◌&&◌, Option,
  none, some, List, [], ◌∷◌, ◌++◌, arith, length, keep, get_or, if◌then◌else◌, leb, Option-cases,
}
use ircbot_rs.Cstr.{Bytes, codes, is_empty, bytes_eq}
use ircbot_rs.State.{ChanSettings, no_settings, cs_count}
use ircbot_rs.ChanCfg.Parse.{split, show, parse_ll}
use ircbot_rs.ChanCfg.Settings.{cset_at, cset_named, flood_named, parse_tokens, parse_settings}
use ircbot_rs.ChanCfg.FieldEdit.{
  EditError, check_size, append_value, with_others, edit_value, cset_item, flood_item, cset_text,
  edited, item_index, value_text, settings_edit,
}
use ircbot_rs.ChanCfg.Number.{parse_ll-lt}
use ircbot_rs.ChanCfg.Tokens.{is_other}
use ircbot_rs.ChanCfg.TokenEdit.{settings_edit-value}
use ircbot_rs.ChanCfg.LastToken.{parse_tokens-keep, parse_tokens-last}

check_size-short :
    (cap : ℕ) (net : Bool) (s r : Bytes) → check_size cap net s ≡ edited r → length r ≤ 512
check_size-short cap net s r h = ground arith

append_value-short :
    (cap : ℕ) (net : Bool) (name value acc r : Bytes)
    → append_value cap net name value acc ≡ edited r
    → length r ≤ 512
append_value-short cap net name value acc r h =
    check_size-short cap net
      (acc ++ ((if is_empty acc then [] else b',' ∷ []) ++ (name ++ b'=' ∷ value))) r (ground arith)

with_others-short :
    (cap : ℕ) (net : Bool) (name : Bytes) (value o : Option Bytes) (r : Bytes)
    → with_others cap net name value o ≡ edited r
    → length r ≤ 512
with_others-short cap net name value none r h = ground arith
with_others-short cap net name none (some acc) r h = check_size-short cap net acc r h
with_others-short cap net name (some v) (some acc) r h = append_value-short cap net name v acc r h

edit_value-short :
    (settings : Bytes) (cap : ℕ) (net : Bool) (name r : Bytes) (v : EditError ⊎ Bytes)
    → edit_value settings cap net name v ≡ edited r
    → length r ≤ 512
edit_value-short settings cap net name r (inl e) h = ground arith
edit_value-short settings cap net name r (inr t) h = with_others-short cap net name (some t) _ r h

short_edit :
    (settings : Bytes) (cap : ℕ) (net : Bool) (name value r : Bytes)
    → bytes_eq value (codes "default") ≡ false
    → settings_edit settings cap net name value ≡ edited r
    → length r ≤ 512
unfolding settings_edit
short_edit settings cap net name value r d h = elim (Option-cases (item_index name net)) [
  | inl e ↦ ground arith
  | inr (i, e) ↦ edit_value-short settings cap net name r (value_text i value) (ground arith)
]

item_cset :
    (name : Bytes) (net : Bool) (i : ℕ) (a b : Option ℕ)
    → elim a [ some j ↦ cset_item net j | none ↦ flood_item net b ] ≡ some i
    → i < cs_count
    → (a ≡ some i) × (((cset_at i).net_only && not net) ≡ false)
item_cset name net i (some j) b h l =
    let same : j ≡ i = ground arith in
    (ap some same, subst (λ (k : ℕ). ((cset_at k).net_only && not net) ≡ false) same (ground arith))
item_cset name net i none none h l = ground arith
item_cset name net i none (some k) h l = ground arith

item_index-cset :
    (name : Bytes) (net : Bool) (i : ℕ)
    → item_index name net ≡ some i
    → i < cs_count
    → (cset_named name ≡ some i) × (((cset_at i).net_only && not net) ≡ false)
unfolding item_index
item_index-cset name net i h l = item_cset name net i (cset_named name) (flood_named name) h l

cset_text-show :
    (i : ℕ) (v : Option ℕ) (t : Bytes)
    → cset_text i v ≡ inr t
    → (n : ℕ) × (v ≡ some n)
      × (show n ≡ t)
      × ((leb (cset_at i).lo n && leb n (cset_at i).hi) ≡ true)
cset_text-show i none t h = ground arith
cset_text-show i (some n) t h = (n, refl, ground arith, ground arith)

value_text-cset :
    (i : ℕ) (value : Bytes) → i < cs_count → value_text i value ≡ cset_text i (parse_ll value)
unfolding value_text
value_text-cset i value l = rw (lt→ltb i cs_count l) refl

-- Where an edit gives one of the sixteen settings a value other than "default" and succeeds, that
-- value is a number, and the edited field parses to settings that hold it.
pub settings_edit-parse :
    (settings : Bytes) (cap : ℕ) (net : Bool) (name value r : Bytes) (i : ℕ)
    → bytes_eq value (codes "default") ≡ false
    → item_index name net ≡ some i
    → i < cs_count
    → settings_edit settings cap net name value ≡ edited r
    → (v : ℕ) × (parse_ll value ≡ some v) × (get_or (parse_settings r net).vals i none ≡ some v)
unfolding parse_settings
settings_edit-parse settings cap net name value r i d e l h =
    let (j, text, e', t, toks) = settings_edit-value settings cap net name value r d h in
    let same : j ≡ i = ground arith in
    let written : cset_text i (parse_ll value) ≡ inr text =
      sym (value_text-cset i value l) ∙ ap (λ (k : ℕ). value_text k value) (sym same) ∙ t in
    let (v, read, shown, ranged) = cset_text-show i (parse_ll value) text written in
    let (at, allowed) = item_index-cset name net i e l in
    let others : List Bytes = keep (is_other name) (split b',' settings) in
    let held : get_or (parse_tokens net no_settings (split b',' r)).vals i none ≡ some v =
      ap (λ (o : ChanSettings). get_or o.vals i none)
        (parse_tokens-keep net no_settings (split b',' r)
          ∙ ap (parse_tokens net no_settings)
              (toks ∙ ap (λ (x : Bytes). others ++ (name ++ b'=' ∷ x) ∷ []) (sym shown)))
      ∙ parse_tokens-last net others name i v at allowed ranged (parse_ll-lt value v read) in
    let short : length r ≤ 512 = short_edit settings cap net name value r d h in
    (v, read, ground arith)
