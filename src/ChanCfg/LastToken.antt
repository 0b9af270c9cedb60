-- ===== src/ChanCfg/LastToken.antt =====
-- The last token of a settings field decides in `parse_settings` of src/chancfg.rs.
use mathlib.Core.Path.{subst}
use ircbot_rs.Prelude.{
  ℕ, zero, suc, ◌<◌, ◌≡◌, refl, sym, ap, ap₂, ◌∙◌, inl, inr, Bool, true, false, not, ◌&&◌, Option,
  none, some, List, [], ◌∷◌, ◌++◌, arith, length, keep, all, set, get_or, get_elem?-lt,
  position-some, length-set, if_split, leb, ◌==◌, Bool-cases, take, drop, ◌^◌,
}
use ircbot_rs.Cstr.{Bytes, find_byte, is_empty, bytes_eq}
use ircbot_rs.Cstr.Case.{bytes_eq→eq}
use ircbot_rs.State.{ChanSettings, no_settings}
use ircbot_rs.ChanCfg.Parse.{show, parse_ll}
use ircbot_rs.ChanCfg.Settings.{
  cset, cset_at, cset_named, flood_named, by_name, parts, apply_flood, put_pair, parse_pair,
  parse_token, parse_tokens, apply_cset, put_val, by_parts,
}
use ircbot_rs.ChanCfg.Number.{parse_ll-show}
use ircbot_rs.ChanCfg.Fields.{find_byte-append, take-append, drop-append}
use ircbot_rs.ChanCfg.Tokens.{present}
use ircbot_rs.ChanCfg.TokenEdit.{is_none, is_none-eq, all-get}

parse_token-nil : (net : Bool) (out : ChanSettings) → parse_token net out [] ≡ out
unfolding parse_token
parse_token-nil net out = refl

empty_nil : (s : Bytes) → is_empty s ≡ true → s ≡ []
unfolding is_empty
empty_nil [] h = refl
empty_nil (c ∷ s) h = ground arith

-- Empty tokens set nothing.
pub parse_tokens-keep :
    (net : Bool) (out : ChanSettings) (toks : List Bytes)
    → parse_tokens net out toks ≡ parse_tokens net out (keep present toks)
unfolding parse_tokens
parse_tokens-keep net out [] = refl
parse_tokens-keep net out (t ∷ toks) = elim (Bool-cases (is_empty t)) [
  | inl e ↦
      let kept : keep present (t ∷ toks) ≡ keep present toks = ground arith in
      ap (λ (x : Bytes). parse_tokens net (parse_token net out x) toks) (empty_nil t e)
      ∙ ap (λ (o : ChanSettings). parse_tokens net o toks) (parse_token-nil net out)
      ∙ parse_tokens-keep net out toks
      ∙ ap (parse_tokens net out) (sym kept)
  | inr e ↦
      let kept : keep present (t ∷ toks) ≡ t ∷ keep present toks = ground arith in
      parse_tokens-keep net (parse_token net out t) toks ∙ ap (parse_tokens net out) (sym kept)
]

parse_tokens-append :
    (net : Bool) (out : ChanSettings) (a b : List Bytes)
    → parse_tokens net out (a ++ b) ≡ parse_tokens net (parse_tokens net out a) b
unfolding parse_tokens
parse_tokens-append net out [] b = refl
parse_tokens-append net out (t ∷ a) b = parse_tokens-append net (parse_token net out t) a b

cset_size : length cset ≡ 16
unfolding cset
cset_size = refl

cset_plain : all (λ d. is_none (find_byte b'=' d.name) && not (is_empty d.name)) cset ≡ true
unfolding cset is_none is_empty
cset_plain = refl

named :
    (name : Bytes) (i : ℕ)
    → cset_named name ≡ some i
    → (find_byte b'=' name ≡ none) × (is_empty name ≡ false)
unfolding cset_named
named name i h =
    let (d, at, same) = position-some (λ d. bytes_eq d.name name) cset i h in
    let e : d.name ≡ name = bytes_eq→eq d.name name same in
    let ok =
      all-get (λ d. is_none (find_byte b'=' d.name) && not (is_empty d.name)) cset i d cset_plain
        at in
    (
      subst (λ (x : Bytes). find_byte b'=' x ≡ none) e (is_none-eq _ (ground arith)),
      subst (λ (x : Bytes). is_empty x ≡ false) e (ground arith),
    )

length_some : (s : Bytes) → is_empty s ≡ false → (length s == 0) ≡ false
unfolding is_empty
length_some [] h = ground arith
length_some (c ∷ s) h = ground arith

parts_lem :
    (name text : Bytes)
    → find_byte b'=' name ≡ none
    → is_empty name ≡ false
    → parts (name ++ b'=' ∷ text) (find_byte b'=' (name ++ b'=' ∷ text)) ≡ some (name, text)
parts_lem name text f e =
    let tok : Bytes = name ++ b'=' ∷ text in
    let at : (length name == 0) ≡ false = length_some name e in
    let cut : parts tok (some (length name))
        ≡ some (take (length name) tok, drop (suc (length name)) tok) =
      rw at refl in
    ap (parts tok) (find_byte-append b'=' name text f)
    ∙ cut
    ∙ ap₂ (λ (a b : Bytes). some (a, b)) (take-append name (b'=' ∷ text))
        (drop-append name b'=' text)

apply_cset-value :
    (net : Bool) (out : ChanSettings) (i v : ℕ)
    → ((cset_at i).net_only && not net) ≡ false
    → (leb (cset_at i).lo v && leb v (cset_at i).hi) ≡ true
    → v < 10 ^ 18
    → apply_cset net i (show v) out ≡ record out { vals = set out.vals i (some v) }
unfolding apply_cset
apply_cset-value net out i v n r l = ground (arith, parse_ll-show v l)

-- The token that `settings_edit` writes sets the value.
parse_token-value :
    (net : Bool) (out : ChanSettings) (name : Bytes) (i v : ℕ)
    → cset_named name ≡ some i
    → ((cset_at i).net_only && not net) ≡ false
    → (leb (cset_at i).lo v && leb v (cset_at i).hi) ≡ true
    → v < 10 ^ 18
    → parse_token net out (name ++ b'=' ∷ show v) ≡ record out { vals = set out.vals i (some v) }
unfolding parse_token
parse_token-value net out name i v h n r l =
    let (f, e) = named name i h in
    ap (by_parts net out) (parts_lem name (show v) f e)
    ∙ ap (λ (o : Option ℕ). by_name net (show v) out o (flood_named name)) h
    ∙ apply_cset-value net out i v n r l

put_val-size :
    (i : ℕ) (v : Option ℕ) (out : ChanSettings) → length (put_val i v out).vals ≡ length out.vals
put_val-size i none out = refl
put_val-size i (some v) out =
    if_split (λ (o : ChanSettings). length o.vals ≡ length out.vals)
      (leb (cset_at i).lo v && leb v (cset_at i).hi) (record out { vals = set out.vals i (some v) })
      out (λ _. length-set out.vals i (some v)) (λ _. refl)

put_pair-size :
    (i : ℕ) (v : Option (ℕ × ℕ)) (out : ChanSettings)
    → length (put_pair i v out).vals ≡ length out.vals
put_pair-size i none out = ground arith
put_pair-size i (some (n, s)) out = refl

by_name-size :
    (net : Bool) (val : Bytes) (out : ChanSettings) (i k : Option ℕ)
    → length (by_name net val out i k).vals ≡ length out.vals
unfolding apply_cset apply_flood
by_name-size net val out (some i) k = ground (arith, put_val-size i (parse_ll val) out)
by_name-size net val out none (some k) = ground (arith, put_pair-size k (parse_pair k val) out)
by_name-size net val out none none = refl

by_parts-size :
    (net : Bool) (out : ChanSettings) (p : Option (Bytes × Bytes))
    → length (by_parts net out p).vals ≡ length out.vals
by_parts-size net out none = refl
by_parts-size net out (some (name, val)) =
    by_name-size net val out (cset_named name) (flood_named name)

-- The list of values keeps its length.
length-parse_tokens :
    (net : Bool) (out : ChanSettings) (toks : List Bytes)
    → length (parse_tokens net out toks).vals ≡ length out.vals
unfolding parse_tokens parse_token
length-parse_tokens net out [] = refl
length-parse_tokens net out (t ∷ toks) =
    length-parse_tokens net (parse_token net out t) toks
    ∙ by_parts-size net out (parts t (find_byte b'=' t))

get_or-set_self :
    (xs : List (Option ℕ)) (i : ℕ) (v : Option ℕ) → i < length xs → get_or (set xs i v) i none ≡ v
get_or-set_self [] i v h = elim h [ ]
get_or-set_self (x ∷ xs) zero v h = refl
get_or-set_self (x ∷ xs) (suc i) v h = get_or-set_self xs i v (omega arith)

cset_count : (name : Bytes) (i : ℕ) → cset_named name ≡ some i → i < 16
unfolding cset_named
cset_count name i h =
    let (d, at, same) = position-some (λ d. bytes_eq d.name name) cset i h in
    subst (λ (n : ℕ). i < n) cset_size (get_elem?-lt cset i d at)

-- The parsed field has the value of its last token.
pub parse_tokens-last :
    (net : Bool) (toks : List Bytes) (name : Bytes) (i v : ℕ)
    → cset_named name ≡ some i
    → ((cset_at i).net_only && not net) ≡ false
    → (leb (cset_at i).lo v && leb v (cset_at i).hi) ≡ true
    → v < 10 ^ 18
    → get_or (parse_tokens net no_settings (toks ++ (name ++ b'=' ∷ show v) ∷ [])).vals i none
      ≡ some v
unfolding parse_tokens
parse_tokens-last net toks name i v h n r l =
    let before : ChanSettings = parse_tokens net no_settings toks in
    let size : length before.vals ≡ 16 = length-parse_tokens net no_settings toks in
    ap (λ (o : ChanSettings). get_or o.vals i none)
      (parse_tokens-append net no_settings toks ((name ++ b'=' ∷ show v) ∷ [])
        ∙ parse_token-value net before name i v h n r l)
    ∙ get_or-set_self before.vals i (some v)
        (subst (λ (m : ℕ). i < m) (sym size) (cset_count name i h))
