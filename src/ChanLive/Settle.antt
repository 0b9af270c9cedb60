-- ===== src/ChanLive/Settle.antt =====
-- What the server's answer to the MODE lines of src/chanlive.rs's mode_sync leaves to do.
use mathlib.Core.Path.{subst}
use ircbot_rs.Prelude.{
  ℕ, ◌≡◌, refl, sym, ap, ◌∙◌, inl, inr, Bool, true, false, Option, none, some, List, [], ◌∷◌, ◌++◌,
  arith, all, ◌==◌, if◌then◌else◌, if_split, Bool-cases, ◌&&◌,
}
use ircbot_rs.Cstr.{Bytes}
use ircbot_rs.Cstr.Tok.{next, skip}
use ircbot_rs.State.{Chan, Flags, Isupport}
use ircbot_rs.ChanLive.Isupport.{has_byte, is_alpha, is_prefix_mode, mode_has_arg}
use ircbot_rs.ChanLive.Apply.{set_flag, live_has, change_mode, apply_letters, apply}
use ircbot_rs.ChanLive.Sync.{
  Wanted, ModeChange, flag_change, flag_changes, flag_letters, all_flag_changes,
}

abbrev pub given : Option Bytes → Bytes
given none = []
given (some a) = a

-- The server says the change to the channel, in a MODE line of its own.
unfoldable pub echo : Isupport → ℕ → ModeChange → Chan → Chan
unfolding apply
echo is now ch c =
    apply is now ((if ch.adding then b'+' else b'-') ∷ ch.letter ∷ []) (given ch.arg) false c

unfoldable pub echo_all : Isupport → ℕ → List ModeChange → Chan → Chan
unfolding echo
echo_all is now [] c = c
echo_all is now (ch ∷ chs) c = echo_all is now chs (echo is now ch c)

-- The letters of mode_sync as servers have them: six flags, a key, and a limit that is set with an
-- argument and cleared without one.
pub record IsUsual (is : Isupport) : Type 0 where
  pub flags :
      (l : ℕ) (adding : Bool) → has_byte l flag_letters ≡ true → mode_has_arg is l adding ≡ false
  pub key_arg : (adding : Bool) → mode_has_arg is b'k' adding ≡ true
  pub limit_arg : mode_has_arg is b'l' true ≡ true
  pub limit_plain : mode_has_arg is b'l' false ≡ false

pub record IsFlag (l : ℕ) : Type 0 where
  pub no_plus : (l == b'+') ≡ false
  pub no_minus : (l == b'-') ≡ false
  pub no_ban : (l == b'b') ≡ false
  pub no_key : (l == b'k') ≡ false
  pub no_limit : (l == b'l') ≡ false
  pub letter : is_alpha l ≡ true

pub has_byte-IsFlag : (l : ℕ) → has_byte l flag_letters ≡ true → IsFlag l
has_byte-IsFlag l h = record {
  no_plus = ground arith;
  no_minus = ground arith;
  no_ban = ground arith;
  no_key = ground arith;
  no_limit = ground arith;
  letter = ground arith;
}

no_arg-plain :
    (is : Isupport) (l : ℕ) (d : Bool) → mode_has_arg is l d ≡ false → is_prefix_mode is l ≡ false
unfolding mode_has_arg
no_arg-plain is l d h = ground arith

echo-flag :
    (is : Isupport) (now l : ℕ) (d : Bool) (c : Chan)
    → IsUsual is
    → has_byte l flag_letters ≡ true
    → echo is now (flag_change d l) c ≡ record c { live_flags = set_flag l d c.live_flags }
unfolding echo apply apply_letters change_mode next skip
echo-flag is now l true c u h =
    let k : IsFlag l = has_byte-IsFlag l h in
    rw
      (
        u.flags l true h,
        k.no_plus,
        k.no_minus,
        k.no_ban,
        k.no_key,
        k.no_limit,
        no_arg-plain is l true (u.flags l true h),
        k.letter,
      )
      refl
echo-flag is now l false c u h =
    let k : IsFlag l = has_byte-IsFlag l h in
    rw
      (
        u.flags l false h,
        k.no_plus,
        k.no_minus,
        k.no_ban,
        k.no_key,
        k.no_limit,
        no_arg-plain is l false (u.flags l false h),
        k.letter,
      )
      refl

pub echo_all-append :
    (is : Isupport) (now : ℕ) (xs ys : List ModeChange) (c : Chan)
    → echo_all is now (xs ++ ys) c ≡ echo_all is now ys (echo_all is now xs c)
unfolding echo_all
echo_all-append is now [] ys c = refl
echo_all-append is now (x ∷ xs) ys c = echo_all-append is now xs ys (echo is now x c)

-- The flags after the changes of one letter, and of the letters of a list.
pub record Flagged (is : Isupport) (now : ℕ) (chs : List ModeChange) (c : Chan) (f : Flags)
    (dir : ℕ → Option Bool) (ls : Bytes) : Type 0 where
  pub after : Flags
  pub heard : echo_all is now chs (record c { live_flags = f }) ≡ record c { live_flags = after }
  pub agreed : (l : ℕ) (d : Bool) → has_byte l ls ≡ true → dir l ≡ some d → after l ≡ d
  pub others : (l : ℕ) → has_byte l ls ≡ false → after l ≡ f l

unchanged-Flagged :
    (is : Isupport) (now l : ℕ) (c : Chan) (f : Flags) (dir : ℕ → Option Bool)
    → ((d : Bool) → dir l ≡ some d → f l ≡ d)
    → Flagged is now [] c f dir (l ∷ [])
unfolding echo_all
unchanged-Flagged is now l c f dir h = record {
  after = f;
  heard = refl;
  agreed = λ x d e k.
      let same : l ≡ x = ground arith in subst (λ (y : ℕ). dir y ≡ some d → f y ≡ d) same (h d) k;
  others = λ x e. refl;
}

pub set_flag-same : (l : ℕ) (d : Bool) (f : Flags) → is_alpha l ≡ true → set_flag l d f l ≡ d
unfolding set_flag
set_flag-same l d f a = let e : (l == l) ≡ true = ground arith in rw (a, e) refl

pub set_flag-other : (l x : ℕ) (d : Bool) (f : Flags) → (x == l) ≡ false → set_flag l d f x ≡ f x
unfolding set_flag
set_flag-other l x d f e =
    if_split (λ (g : Flags). g x ≡ f x) (is_alpha l) (λ y. if y == l then d else f y) f
      (λ _. rw e refl) (λ _. refl)

pub some-eq : (a b : Bool) → some a ≡ some b → a ≡ b
some-eq a b h = ground arith

changed-Flagged :
    (is : Isupport) (now l : ℕ) (d : Bool) (c : Chan) (f : Flags) (dir : ℕ → Option Bool)
    → IsUsual is
    → has_byte l flag_letters ≡ true
    → dir l ≡ some d
    → Flagged is now (flag_change d l ∷ []) c f dir (l ∷ [])
unfolding echo_all
changed-Flagged is now l d c f dir u h e =
    let k : IsFlag l = has_byte-IsFlag l h in
    record {
      after = set_flag l d f;
      heard = echo-flag is now l d (record c { live_flags = f }) u h;
      agreed = λ x b m w.
          let same : l ≡ x = ground arith in
          let b_is : d ≡ b = some-eq d b (sym e ∙ ap dir same ∙ w) in
          ap (set_flag l d f) (sym same) ∙ set_flag-same l d f k.letter ∙ b_is;
      others = λ x m. set_flag-other l x d f (ground arith);
    }

step-Flagged :
    (is : Isupport) (now l : ℕ) (c : Chan) (f : Flags) (dir : ℕ → Option Bool) (o : Option Bool)
    → IsUsual is
    → has_byte l flag_letters ≡ true
    → dir l ≡ o
    → Flagged is now (flag_changes true (f l) l o) c f dir (l ∷ [])
step-Flagged is now l c f dir none u h e =
    unchanged-Flagged is now l c f dir (λ d k. absurd (ground arith))
step-Flagged is now l c f dir (some true) u h e = elim (Bool-cases (f l)) [
  | inl on ↦ rw on (unchanged-Flagged is now l c f dir (λ d k. on ∙ some-eq true d (sym e ∙ k)))
  | inr off ↦ rw off (changed-Flagged is now l true c f dir u h e)
]
step-Flagged is now l c f dir (some false) u h e = elim (Bool-cases (f l)) [
  | inl on ↦ rw on (changed-Flagged is now l false c f dir u h e)
  | inr off ↦ rw off (unchanged-Flagged is now l c f dir (λ d k. off ∙ some-eq false d (sym e ∙ k)))
]

abbrev pub Distinct : Bytes → Type 0
Distinct [] = Unit
Distinct (l ∷ ls) = (has_byte l ls ≡ false) × Distinct ls

apart :
    (l x : ℕ) (ls : Bytes)
    → has_byte l ls ≡ false
    → has_byte x ls ≡ true
    → has_byte x (l ∷ []) ≡ false
apart l x ls out inside = elim (Bool-cases (l == x)) [
  | inl e ↦
      let same : l ≡ x = ground arith in
      let clash : has_byte x ls ≡ false = subst (λ (y : ℕ). has_byte y ls ≡ false) same out in
      absurd (ground arith)
  | inr e ↦ ground arith
]

-- All the flags, from a channel whose flags are known.
pub all-Flagged :
    (is : Isupport) (now : ℕ) (want : Wanted) (c0 c : Chan) (ls : Bytes) (f : Flags)
    → IsUsual is
    → c0.live_known ≡ true
    → all (λ l. has_byte l flag_letters) ls ≡ true
    → Distinct ls
    → ((l : ℕ) → has_byte l ls ≡ true → f l ≡ c0.live_flags l)
    → Flagged is now (all_flag_changes want c0 ls) c f want.dir ls
unfolding all_flag_changes echo_all live_has
all-Flagged is now want c0 c [] f u known flags apart_all same = record {
  after = f;
  heard = refl;
  agreed = λ l d h k. ground arith;
  others = λ l h. refl;
}
all-Flagged is now want c0 c (l ∷ ls) f u known flags (out, rest) same =
    let is_flag : has_byte l flag_letters ≡ true = ground arith in
    let flag : IsFlag l = has_byte-IsFlag l is_flag in
    let at_l : f l ≡ c0.live_flags l = same l (ground arith) in
    let first : List ModeChange = flag_changes true (f l) l (want.dir l) in
    let s : Flagged is now first c f want.dir (l ∷ []) =
      step-Flagged is now l c f want.dir _ u is_flag refl in
    let still : (x : ℕ) → has_byte x ls ≡ true → s.after x ≡ c0.live_flags x =
      λ x m. s.others x (apart l x ls out m) ∙ same x (ground arith) in
    let r : Flagged is now (all_flag_changes want c0 ls) c s.after want.dir ls =
      all-Flagged is now want c0 c ls s.after u known (ground arith) rest still in
    let chs : List ModeChange = all_flag_changes want c0 ls in
    let shown : flag_changes c0.live_known (is_alpha l && c0.live_flags l) l (want.dir l) ≡ first =
      rw (known, flag.letter, sym at_l) refl in
    record {
      after = r.after;
      heard =
          ap (λ xs. echo_all is now (xs ++ chs) (record c { live_flags = f })) shown
          ∙ echo_all-append is now first chs (record c { live_flags = f })
          ∙ ap (echo_all is now chs) s.heard
          ∙ r.heard;
      agreed = λ x d m k. elim (Bool-cases (has_byte x ls)) [
        | inl inside ↦ r.agreed x d inside k
        | inr outside ↦ r.others x outside ∙ s.agreed x d (ground arith) k
      ];
      others = λ x m. r.others x (ground arith) ∙ s.others x (ground arith);
    }
