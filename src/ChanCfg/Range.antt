-- ===== src/ChanCfg/Range.antt =====
-- Every value that src/chancfg.rs keeps of a settings field lies in its range.
use mathlib.Core.Path.{subst}
use ircbot_rs.Prelude.{
  ℕ, zero, suc, ◌≤◌, ◌≡◌, refl, sym, ap, ◌⊎◌, inl, inr, Bool, true, false, not, ◌&&◌, Option, none,
  some, List, [], ◌∷◌, arith, set, get_or, replicate, if_split, leb, ◌==◌, if◌then◌else◌,
}
use ircbot_rs.Cstr.{Bytes, bytes_eq, codes}
use ircbot_rs.State.{ChanSettings, no_settings, FloodSpec, no_spec, fl_chan_count}
use ircbot_rs.ChanCfg.Parse.{split}
use ircbot_rs.ChanCfg.Settings.{
  cset_at, fl_bounds, put_val, apply_cset, parse_pair, put_pair, apply_flood, by_name, by_parts,
  parse_token, parse_tokens, parse_settings, sendq_index, cset_named, flood_named,
}

get_or-set {ℓ} :
    {A : Type ℓ} (xs : List A) (i j : ℕ) (v d : A)
    → (get_or (set xs i v) j d ≡ get_or xs j d) ⊎ ((i ≡ j) × (get_or (set xs i v) j d ≡ v))
get_or-set [] i j v d = inl refl
get_or-set (x ∷ xs) zero zero v d = inr (refl, refl)
get_or-set (x ∷ xs) zero (suc j) v d = inl refl
get_or-set (x ∷ xs) (suc i) zero v d = inl refl
get_or-set (x ∷ xs) (suc i) (suc j) v d = elim (get_or-set xs i j v d) [
  | inl e ↦ inl e
  | inr (e, f) ↦ inr (ap suc e, f)
]

get_or-replicate {ℓ} : {A : Type ℓ} (n j : ℕ) (d : A) → get_or (replicate n d) j d ≡ d
get_or-replicate zero j d = refl
get_or-replicate (suc n) zero d = refl
get_or-replicate (suc n) (suc j) d = get_or-replicate n j d

-- A value within the range of setting `i`, where there is one.
abbrev pub ValueIn : ℕ → Option ℕ → Type 0
ValueIn i none = Unit
ValueIn i (some v) = ((cset_at i).lo ≤ v) × (v ≤ (cset_at i).hi)

-- Limits within the bounds of kind `k`, or off where that is allowed.
pub record SpecIn (k : ℕ) (sp : FloodSpec) : Type 0 where
  pub switched_off : sp.off ≡ true → (fl_bounds k).off_ok ≡ true
  pub count :
      sp.present ≡ true → sp.off ≡ false → ((fl_bounds k).nlo ≤ sp.n) × (sp.n ≤ (fl_bounds k).nhi)
  pub seconds :
      sp.present ≡ true → sp.off ≡ false → ((fl_bounds k).slo ≤ sp.s) × (sp.s ≤ (fl_bounds k).shi)

pub record IsInRange (s : ChanSettings) : Type 0 where
  pub values : (i : ℕ) → ValueIn i (get_or s.vals i none)
  pub floods : (k : ℕ) → SpecIn k (get_or s.fl k no_spec)

no_spec-SpecIn : (k : ℕ) → SpecIn k no_spec
no_spec-SpecIn k = record {
  switched_off = λ h. ground arith;
  count = λ h. ground arith;
  seconds = λ h. ground arith;
}

pub no_settings-IsInRange : IsInRange no_settings
no_settings-IsInRange = record {
  values = λ i. subst (ValueIn i) (sym (get_or-replicate 16 i none)) tt;
  floods = λ k. subst (SpecIn k) (sym (get_or-replicate 11 k no_spec)) (no_spec-SpecIn k);
}

values-set :
    (xs : List (Option ℕ)) (i v : ℕ)
    → ((j : ℕ) → ValueIn j (get_or xs j none))
    → ValueIn i (some v)
    → (j : ℕ) → ValueIn j (get_or (set xs i (some v)) j none)
values-set xs i v h k j = elim (get_or-set xs i j (some v) none) [
  | inl e ↦ subst (ValueIn j) (sym e) (h j)
  | inr (e, f) ↦ subst (ValueIn j) (sym f) (subst (λ (n : ℕ). ValueIn n (some v)) e k)
]

pub floods-set :
    (xs : List FloodSpec) (i : ℕ) (sp : FloodSpec)
    → ((j : ℕ) → SpecIn j (get_or xs j no_spec))
    → SpecIn i sp
    → (j : ℕ) → SpecIn j (get_or (set xs i sp) j no_spec)
floods-set xs i sp h k j = elim (get_or-set xs i j sp no_spec) [
  | inl e ↦ subst (SpecIn j) (sym e) (h j)
  | inr (e, f) ↦ subst (SpecIn j) (sym f) (subst (λ (n : ℕ). SpecIn n sp) e k)
]

put_val-IsInRange :
    (i : ℕ) (v : Option ℕ) (out : ChanSettings) → IsInRange out → IsInRange (put_val i v out)
put_val-IsInRange i none out h = h
put_val-IsInRange i (some v) out h =
    if_split IsInRange (leb (cset_at i).lo v && leb v (cset_at i).hi) _ _
      (λ e. record { values = values-set out.vals i v h.values (ground arith); floods = h.floods })
      (λ _. h)

apply_cset-IsInRange :
    (net : Bool) (i : ℕ) (val : Bytes) (out : ChanSettings)
    → IsInRange out
    → IsInRange (apply_cset net i val out)
unfolding apply_cset
apply_cset-IsInRange net i val out h =
    if_split IsInRange ((cset_at i).net_only && not net) _ _ (λ _. h)
      (λ _. put_val-IsInRange i _ out h)

parse_pair-bounds :
    (i : ℕ) (val : Bytes) (n s : ℕ)
    → parse_pair i val ≡ some (n, s)
    → ((fl_bounds i).nlo ≤ n)
      × (n ≤ (fl_bounds i).nhi)
      × ((fl_bounds i).slo ≤ s)
      × (s ≤ (fl_bounds i).shi)
unfolding parse_pair
parse_pair-bounds i val n s h = ground arith

put_pair-IsInRange :
    (i : ℕ) (pair : Option (ℕ × ℕ)) (out : ChanSettings)
    → ((n s : ℕ)
        → pair ≡ some (n, s)
        → ((fl_bounds i).nlo ≤ n)
          × (n ≤ (fl_bounds i).nhi)
          × ((fl_bounds i).slo ≤ s)
          × (s ≤ (fl_bounds i).shi))
    → IsInRange out
    → IsInRange (put_pair i pair out)
put_pair-IsInRange i none out b h =
    if_split IsInRange (i == sendq_index) _ _ (λ _. record { values = h.values; floods = h.floods })
      (λ _. h)
put_pair-IsInRange i (some (n, s)) out b h =
    let (nlo, nhi, slo, shi) = b n s refl in
    record {
      values = h.values;
      floods = floods-set out.fl i _ h.floods (record {
        switched_off = λ o. ground arith;
        count = λ _ _. (nlo, nhi);
        seconds = λ _ _. (slo, shi);
      });
    }

switched_off-SpecIn :
    (i : ℕ)
    → (fl_bounds i).off_ok ≡ true
    → SpecIn i (record { present = true; off = true; n = 0; s = 0 })
switched_off-SpecIn i h = record {
  switched_off = λ _. h;
  count = λ _ f. ground arith;
  seconds = λ _ f. ground arith;
}

switched_off-IsInRange :
    (i : ℕ) (val : Bytes) (out : ChanSettings)
    → IsInRange out
    → IsInRange (
        if (fl_bounds i).off_ok && bytes_eq val (codes "off")
        then record out { fl = set out.fl i (record { present = true; off = true; n = 0; s = 0 }) }
        else put_pair i (parse_pair i val) out)
switched_off-IsInRange i val out h =
    if_split IsInRange ((fl_bounds i).off_ok && bytes_eq val (codes "off"))
      (record out { fl = set out.fl i (record { present = true; off = true; n = 0; s = 0 }) })
      (put_pair i (parse_pair i val) out)
      (λ o. record {
        values = h.values;
        floods = floods-set out.fl i _ h.floods (switched_off-SpecIn i (ground arith));
      })
      (λ _. put_pair-IsInRange i (parse_pair i val) out (parse_pair-bounds i val) h)

apply_flood-IsInRange :
    (net : Bool) (i : ℕ) (val : Bytes) (out : ChanSettings)
    → IsInRange out
    → IsInRange (apply_flood net i val out)
unfolding apply_flood
apply_flood-IsInRange net i val out h =
    if_split IsInRange (leb fl_chan_count i && not net) _ _ (λ _. h)
      (λ _. switched_off-IsInRange i val out h)

by_name-IsInRange :
    (net : Bool) (val : Bytes) (out : ChanSettings) (i k : Option ℕ)
    → IsInRange out
    → IsInRange (by_name net val out i k)
by_name-IsInRange net val out (some i) k h = apply_cset-IsInRange net i val out h
by_name-IsInRange net val out none (some k) h = apply_flood-IsInRange net k val out h
by_name-IsInRange net val out none none h = h

by_parts-IsInRange :
    (net : Bool) (out : ChanSettings) (p : Option (Bytes × Bytes))
    → IsInRange out
    → IsInRange (by_parts net out p)
by_parts-IsInRange net out none h = h
by_parts-IsInRange net out (some (name, val)) h =
    by_name-IsInRange net val out (cset_named name) (flood_named name) h

parse_tokens-IsInRange :
    (net : Bool) (out : ChanSettings) (toks : List Bytes)
    → IsInRange out
    → IsInRange (parse_tokens net out toks)
unfolding parse_tokens parse_token
parse_tokens-IsInRange net out [] h = h
parse_tokens-IsInRange net out (tok ∷ toks) h =
    parse_tokens-IsInRange net (parse_token net out tok) toks (by_parts-IsInRange net out _ h)

-- Whatever text a settings field holds, each value that is kept lies in the range of its setting,
-- each flood limit in the bounds of its kind, and only a kind that may be off is off.
pub parse_settings-IsInRange : (s : Bytes) (net : Bool) → IsInRange (parse_settings s net)
unfolding parse_settings
parse_settings-IsInRange s net =
    if_split IsInRange _ _ _ (λ _. no_settings-IsInRange)
      (λ _. parse_tokens-IsInRange net no_settings (split b',' s) no_settings-IsInRange)
