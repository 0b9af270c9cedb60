-- ===== src/Queue/Reading.antt =====
-- A packed MODE line of src/sendq.rs, as a server reads it.
use ircbot_rs.Prelude.{
  ℕ, ◌≡◌, refl, ap, ◌∙◌, inl, inr, Bool, true, false, ◌||◌, Option, none, some, List, [], ◌∷◌, ◌++◌,
  arith, map, All, if◌then◌else◌, ◌==◌, Bool-cases, append_assoc, append-nil,
}
use ircbot_rs.Cstr.{Bytes, codes, find_byte, eq_ic}
use ircbot_rs.ChanCfg.Parse.{split}
use ircbot_rs.Queue.Modes.{space, ModeItem, needs, pack_letters, pack_args, pack}

abbrev pub IsWord : Bytes → Type 0
IsWord w = find_byte space w ≡ none

-- A change, as a server reads it.
pub record Change : Type 0 where
  pub sign : ℕ
  pub letter : ℕ
  pub arg : Option Bytes

abbrev pub change : ModeItem → Change
change it = record {
  sign = it.sign;
  letter = it.letter;
  arg = if it.has_arg then some it.arg else none;
}

abbrev pub is_sign : ℕ → Bool
is_sign c = c == b'+' || c == b'-'

-- One letter under a sign, with the arguments that are left.
abbrev next_change : ℕ → ℕ → Option Bool → List Bytes → Change × List Bytes
next_change sign c (some true) (a ∷ args) = (record { sign = sign; letter = c; arg = some a }, args)
next_change sign c _ args = (record { sign = sign; letter = c; arg = none }, args)

-- How a server reads the letters and arguments of a MODE line: a sign holds until the next one, and
-- each letter that needs an argument takes the next.
unfoldable pub read_changes : ℕ → Bytes → List Bytes → List Change
read_changes sign [] args = []
read_changes sign (c ∷ s) args =
    let (ch, left) = next_change sign c (needs sign c) args in
    let after_sign = read_changes c s args in
    let after_letter = read_changes sign s left in
    if is_sign c then after_sign else ch ∷ after_letter

pub record IsItem (it : ModeItem) : Type 0 where
  pub sign : is_sign it.sign ≡ true
  pub rule : needs it.sign it.letter ≡ some it.has_arg
  pub arg : IsWord it.arg
  pub chan : IsWord it.chan

needs-letter :
    (sign c : ℕ) (b : Bool) → needs sign c ≡ some b → (is_sign c ≡ false) × ((c == space) ≡ false)
unfolding needs
needs-letter sign c b h = ground arith

abbrev args_of : List ModeItem → List Bytes
args_of [] = []
args_of (it ∷ items) = if it.has_arg then it.arg ∷ args_of items else args_of items

next_change_lem :
    (sign letter : ℕ) (b : Bool) (arg : Bytes) (rest : List Bytes)
    → next_change sign letter (some b) (if b then arg ∷ rest else rest)
      ≡ (record { sign = sign; letter = letter; arg = if b then some arg else none }, rest)
next_change_lem sign letter true arg rest = refl
next_change_lem sign letter false arg [] = refl
next_change_lem sign letter false arg (a ∷ rest) = refl

read_nil : (cur : ℕ) → read_changes cur [] [] ≡ []
unfolding read_changes
read_nil cur = refl

read_sign :
    (cur c : ℕ) (s : Bytes) (args : List Bytes)
    → is_sign c ≡ true
    → read_changes cur (c ∷ s) args ≡ read_changes c s args
unfolding read_changes
read_sign cur c s args h = rw h refl

read_letter :
    (it : ModeItem) (s : Bytes) (rest : List Bytes)
    → IsItem it
    → read_changes it.sign (it.letter ∷ s) (if it.has_arg then it.arg ∷ rest else rest)
      ≡ change it ∷ read_changes it.sign s rest
unfolding read_changes
read_letter it s rest h =
    let args : List Bytes = if it.has_arg then it.arg ∷ rest else rest in
    let plain : is_sign it.letter ≡ false = (needs-letter it.sign it.letter it.has_arg h.rule).0 in
    let step : read_changes it.sign (it.letter ∷ s) args
        ≡ (next_change it.sign it.letter (needs it.sign it.letter) args).0
          ∷ read_changes it.sign s
              (next_change it.sign it.letter (needs it.sign it.letter) args).1 =
      rw (read_changes, plain) refl in
    step
    ∙ ap (λ (p : Change × List Bytes). p.0 ∷ read_changes it.sign s p.1)
        (ap (λ r. next_change it.sign it.letter r args) h.rule
          ∙ next_change_lem it.sign it.letter it.has_arg it.arg rest)

read_changes-letters :
    (cur : ℕ) (items : List ModeItem)
    → All IsItem items
    → read_changes cur (pack_letters cur items) (args_of items) ≡ map change items
unfolding pack_letters
read_changes-letters cur [] h = read_nil cur
read_changes-letters cur (it ∷ items) h =
    let s : Bytes = pack_letters it.sign items in
    let args : List Bytes = args_of (it ∷ items) in
    let rest : read_changes it.sign (it.letter ∷ s) args ≡ map change (it ∷ items) =
      read_letter it s (args_of items) h.0
      ∙ ap (λ l. change it ∷ l) (read_changes-letters it.sign items h.1) in
    elim (Bool-cases (it.sign == cur)) [
      | inl e ↦
          let same : cur ≡ it.sign = ground arith in
          let written : pack_letters cur (it ∷ items) ≡ it.letter ∷ s = rw (pack_letters, e) refl in
          ap (λ x. read_changes cur x args) written
          ∙ ap (λ (c : ℕ). read_changes c (it.letter ∷ s) args) same
          ∙ rest
      | inr e ↦
          let written : pack_letters cur (it ∷ items) ≡ it.sign ∷ it.letter ∷ s =
            rw (pack_letters, e) refl in
          ap (λ x. read_changes cur x args) written
          ∙ read_sign cur it.sign (it.letter ∷ s) args h.0.sign
          ∙ rest
    ]

split_word : (f rest : Bytes) → IsWord f → split space (f ++ space ∷ rest) ≡ f ∷ split space rest
unfolding split
split_word [] rest h = refl
split_word (c ∷ f) rest h = ground (arith, split_word f rest)

split-whole : (f : Bytes) → IsWord f → split space f ≡ f ∷ []
unfolding split
split-whole [] h = refl
split-whole (c ∷ f) h = ground (arith, split-whole f)

arg_step :
    (b : Bool) (f arg tail : Bytes) (args : List Bytes)
    → IsWord f
    → split space (arg ++ tail) ≡ arg ∷ args
    → split space (f ++ tail) ≡ f ∷ args
    → split space (f ++ ((if b then space ∷ arg else []) ++ tail))
      ≡ f ∷ (if b then arg ∷ args else args)
arg_step true f arg tail args w h k = split_word f (arg ++ tail) w ∙ ap (λ l. f ∷ l) h
arg_step false f arg tail args w h k = k

-- What follows the letters is their arguments.
split-args :
    (f : Bytes) (items : List ModeItem)
    → IsWord f
    → All IsItem items
    → split space (f ++ pack_args items) ≡ f ∷ args_of items
unfolding pack_args
split-args f [] w h = ap (split space) (append-nil f) ∙ split-whole f w
split-args f (it ∷ items) w h =
    arg_step it.has_arg f it.arg (pack_args items) (args_of items) w
      (split-args it.arg items h.0.arg h.1) (split-args f items w h.1)

letters-IsWord :
    (cur : ℕ) (items : List ModeItem) → All IsItem items → IsWord (pack_letters cur items)
unfolding pack_letters
letters-IsWord cur [] h = refl
letters-IsWord cur (it ∷ items) h = ground (
  arith,
  letters-IsWord it.sign items h.1,
  needs-letter it.sign it.letter it.has_arg h.0.rule,
  h.0.sign,
)

-- A packed line without its end.
abbrev pub packed : ModeItem → List ModeItem → Bytes
packed first more =
    codes "MODE " ++ first.chan ++ space ∷ pack_letters 0 (first ∷ more) ++ pack_args (first ∷ more)

pub pack-packed :
    (first : ModeItem) (more : List ModeItem)
    → pack first more ≡ packed first more ++ b'\r' ∷ b'\n' ∷ []
unfolding pack
pack-packed first more = refl

packed-split :
    (first : ModeItem) (more : List ModeItem)
    → All IsItem (first ∷ more)
    → split space (packed first more)
      ≡ codes "MODE" ∷ first.chan ∷ pack_letters 0 (first ∷ more) ∷ args_of (first ∷ more)
packed-split first more h =
    let letters : Bytes = pack_letters 0 (first ∷ more) in
    let args : Bytes = pack_args (first ∷ more) in
    let regroup : packed first more
        ≡ codes "MODE" ++ space ∷ (first.chan ++ space ∷ (letters ++ args)) =
      ap (λ l. codes "MODE " ++ l) (append_assoc first.chan (space ∷ letters) args) in
    ap (split space) regroup
    ∙ split_word (codes "MODE") (first.chan ++ space ∷ (letters ++ args)) refl
    ∙ ap (λ l. codes "MODE" ∷ l) (split_word first.chan (letters ++ args) h.0.chan)
    ∙ ap (λ l. codes "MODE" ∷ first.chan ∷ l)
        (split-args letters (first ∷ more) (letters-IsWord 0 (first ∷ more) h) h)

abbrev read_words : List Bytes → Option (Bytes × List Change)
read_words (word ∷ chan ∷ letters ∷ args) =
    if eq_ic word (codes "MODE") then some (chan, read_changes 0 letters args) else none
read_words _ = none

-- A MODE line, without its end, as a server reads it: the channel and the changes.
unfoldable pub read_mode : Bytes → Option (Bytes × List Change)
read_mode body = read_words (split space body)

pub read_mode-packed :
    (first : ModeItem) (more : List ModeItem)
    → All IsItem (first ∷ more)
    → read_mode (packed first more) ≡ some (first.chan, map change (first ∷ more))
unfolding read_mode eq_ic
read_mode-packed first more h =
    ap read_words (packed-split first more h)
    ∙ ap (λ l. some (first.chan, l)) (read_changes-letters 0 (first ∷ more) h)
