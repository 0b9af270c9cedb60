-- ===== src/ChanCfg/Replicas.antt =====
-- D| lines of src/chancfg.rs that reach several bots, in different orders.
use mathlib.Core.Path.{subst}
use ircbot_rs.Prelude.{
  ℕ, ◌≡◌, refl, sym, ap, ◌∙◌, inl, inr, ◌⊎◌, ◌↔◌, Bool, true, false, Option, none, some, List, [],
  ◌∷◌, arith, if◌then◌else◌, if_split, Bool-cases, Option-cases,
}
use ircbot_rs.Cstr.{Bytes}
use ircbot_rs.Lww.{opt_accepts}
use ircbot_rs.Lww.Merge.{opt_accepts-asymm, opt_accepts_total, bytes_lt_trans, bytes_lt-total}
use ircbot_rs.State.{BotState}
use ircbot_rs.ChanCfg.Lines.{DRecord, parse_d, d_text, accepts_d, store_d, apply_d_line}

-- What a bot keeps of the record: its stamp and its text, "modes|settings".
pub record Version : Type 0 where
  pub ts : ℕ
  pub text : Bytes

abbrev pub version : BotState → Version
version st = record { ts = st.net_ts; text = d_text st.net_modes st.net_settings }

abbrev of_record : DRecord → Version
of_record r = record { ts = r.ts; text = d_text r.modes r.settings }

-- The lines of a list, one after the other.
unfoldable pub take_lines : List Bytes → BotState → BotState
take_lines [] st = st
take_lines (line ∷ lines) st = take_lines lines (apply_d_line st line).1

-- The greater of two versions.
abbrev wins : Version → Version → Bool
wins a b = opt_accepts a.ts a.text b.ts b.text

abbrev top : Version → Version → Version
top a b = if wins b a then b else a

abbrev top_of : Version → Option DRecord → Version
top_of a none = a
top_of a (some r) = top a (of_record r)

wins_irrefl : (a : Version) → wins a a ≡ false
wins_irrefl a = elim (Bool-cases (wins a a)) [
  | inl e ↦ absurd (ground (arith, e, opt_accepts-asymm a.ts a.ts a.text a.text e))
  | inr e ↦ e
]

wins_antisym : (a b : Version) → wins a b ≡ false → wins b a ≡ false → a ≡ b
wins_antisym a b h k =
    let (t, x) = opt_accepts_total a.ts b.ts a.text b.text h k in
    ap (λ (n : ℕ). record { ts = n; text = a.text }) t
    ∙ ap (λ (l : Bytes). record { ts = b.ts; text = l }) x

wins_trans : (a b c : Version) → wins a b ≡ false → wins b c ≡ false → wins a c ≡ false
unfolding opt_accepts
wins_trans a b c h k = elim (Bool-cases (wins a c)) [
  | inl e ↦ absurd (
      ground (
        arith,
        bytes_lt_trans b.text c.text a.text,
        bytes_lt_trans c.text b.text a.text,
        bytes_lt_trans c.text a.text b.text,
        bytes_lt-total a.text b.text,
        bytes_lt-total b.text c.text,
        h,
        k,
        e,
      ))
  | inr e ↦ e
]

wins_asym : (a b : Version) → wins a b ≡ true → wins b a ≡ false
wins_asym a b h = opt_accepts-asymm a.ts b.ts a.text b.text h

-- The greater of two has neither win over it.
top-ge : (a b : Version) → (wins a (top a b) ≡ false) × (wins b (top a b) ≡ false)
top-ge a b =
    if_split (λ t. (wins a t ≡ false) × (wins b t ≡ false)) (wins b a) b a
      (λ e. (wins_asym b a e, wins_irrefl b)) (λ e. (wins_irrefl a, e))

store_d-version : (r : DRecord) (st : BotState) → version (store_d r st) ≡ of_record r
unfolding store_d
store_d-version r st = if_split (λ s. version s ≡ of_record r) _ _ _ (λ _. refl) (λ _. refl)

accepts_d-wins : (r : DRecord) (st : BotState) → accepts_d r st ≡ wins (of_record r) (version st)
unfolding accepts_d opt_accepts
accepts_d-wins r st = ground arith

apply_d_line-version :
    (st : BotState) (line : Bytes) (o : Option DRecord)
    → parse_d line ≡ o
    → version (apply_d_line st line).1 ≡ top_of (version st) o
unfolding apply_d_line
apply_d_line-version st line none e = rw (apply_d_line, e) refl
apply_d_line-version st line (some r) e = elim (Bool-cases (wins (of_record r) (version st))) [
  | inl w ↦ rw (apply_d_line, e, accepts_d-wins r st, w) (store_d-version r st)
  | inr w ↦ rw (apply_d_line, e, accepts_d-wins r st, w) refl
]

abbrev pub Occurs : Bytes → List Bytes → Type 0
Occurs x [] = ⊥
Occurs x (y ∷ ys) = (x ≡ y) ⊎ Occurs x ys

-- One step takes a version that neither the old one nor that of the line wins over.
step-ge :
    (st : BotState) (line : Bytes)
    → (wins (version st) (version (apply_d_line st line).1) ≡ false)
      × ((r : DRecord)
          → parse_d line ≡ some r
          → wins (of_record r) (version (apply_d_line st line).1) ≡ false)
step-ge st line = elim (Option-cases (parse_d line)) [
  | inl e ↦ (
    subst (λ v. wins (version st) v ≡ false) (sym (apply_d_line-version st line none e))
        (wins_irrefl (version st)),
    λ r h. absurd (ground (arith, e, h)),
  )
  | inr (r, e) ↦ (
    subst (λ v. wins (version st) v ≡ false) (sym (apply_d_line-version st line (some r) e))
        (top-ge (version st) (of_record r)).0,
    λ r' h.
        subst (λ v. wins (of_record r') v ≡ false) (sym (apply_d_line-version st line (some r') h))
          (top-ge (version st) (of_record r')).1,
  )
]

step-from :
    (st : BotState) (line : Bytes)
    → (version (apply_d_line st line).1 ≡ version st)
      ⊎ ((r : DRecord) × (parse_d line ≡ some r) × (version (apply_d_line st line).1 ≡ of_record r))
step-from st line = elim (Option-cases (parse_d line)) [
  | inl e ↦ inl (apply_d_line-version st line none e)
  | inr (r, e) ↦ elim (Bool-cases (wins (of_record r) (version st))) [
    | inl w ↦ inr (r, e, apply_d_line-version st line (some r) e ∙ rw w refl)
    | inr w ↦ inl (apply_d_line-version st line (some r) e ∙ rw w refl)
  ]
]

take_lines-ge :
    (st : BotState) (us : List Bytes) → wins (version st) (version (take_lines us st)) ≡ false
unfolding take_lines
take_lines-ge st [] = wins_irrefl (version st)
take_lines-ge st (u ∷ us) =
    wins_trans (version st) (version (apply_d_line st u).1) _ (step-ge st u).0
      (take_lines-ge (apply_d_line st u).1 us)

take_lines-ge_each :
    (st : BotState) (us : List Bytes) (x : Bytes) (r : DRecord)
    → Occurs x us
    → parse_d x ≡ some r
    → wins (of_record r) (version (take_lines us st)) ≡ false
unfolding take_lines
take_lines-ge_each st [] x r o h = absurd o
take_lines-ge_each st (u ∷ us) x r (inl e) h =
    wins_trans (of_record r) (version (apply_d_line st u).1) _
      ((step-ge st u).1 r (ap parse_d (sym e) ∙ h)) (take_lines-ge (apply_d_line st u).1 us)
take_lines-ge_each st (u ∷ us) x r (inr o) h = take_lines-ge_each (apply_d_line st u).1 us x r o h

-- The version at the end is the first one or that of a line.
take_lines-from :
    (st : BotState) (us : List Bytes)
    → (version (take_lines us st) ≡ version st)
      ⊎ ((x : Bytes) × (r : DRecord) × Occurs x us
          × (parse_d x ≡ some r)
          × (version (take_lines us st) ≡ of_record r))
unfolding take_lines
take_lines-from st [] = inl refl
take_lines-from st (u ∷ us) = elim (take_lines-from (apply_d_line st u).1 us) [
  | inr (x, r, o, p, e) ↦ inr (x, r, inr o, p, e)
  | inl e ↦ elim (step-from st u) [
    | inl k ↦ inl (e ∙ k)
    | inr (r, p, k) ↦ inr (u, r, inl refl, p, e ∙ k)
  ]
]

take_lines-below :
    (st : BotState) (us vs : List Bytes)
    → ((x : Bytes) → Occurs x us → Occurs x vs)
    → wins (version (take_lines us st)) (version (take_lines vs st)) ≡ false
take_lines-below st us vs sub = elim (take_lines-from st us) [
  | inl e ↦ subst (λ v. wins v (version (take_lines vs st)) ≡ false) (sym e) (take_lines-ge st vs)
  | inr (x, r, o, p, e) ↦
      subst (λ v. wins v (version (take_lines vs st)) ≡ false) (sym e)
        (take_lines-ge_each st vs x r (sub x o) p)
]

-- Two bots that start alike and receive the same set of D| lines, in any order, any of them more than
-- once and refused ones among them, keep the same stamp and the same text of modes and settings. The
-- limits of the queue, which a bad value leaves as they were, are no part of this.
pub apply_d_line-converges :
    (st : BotState) (us vs : List Bytes)
    → ((x : Bytes) → Occurs x us ↔ Occurs x vs)
    → version (take_lines us st) ≡ version (take_lines vs st)
apply_d_line-converges st us vs same =
    wins_antisym (version (take_lines us st)) (version (take_lines vs st))
      (take_lines-below st us vs (λ x. (same x).0)) (take_lines-below st vs us (λ x. (same x).1))
