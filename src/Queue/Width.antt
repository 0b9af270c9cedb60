-- ===== src/Queue/Width.antt =====
-- How long a packed MODE line of src/sendq.rs gets, and how many changes it carries.
use mathlib.Core.Path.{subst}
use ircbot_rs.Prelude.{
  ℕ, zero, suc, ◌+◌, ◌≤◌, ◌≡◌, refl, ◌⊎◌, inl, inr, Bool, true, false, not, List, [], ◌∷◌, ◌++◌,
  arith, length, if◌then◌else◌, ◌==◌, Option-cases, if_split, ltb, pred, length-append,
}
use ircbot_rs.Cstr.{Bytes, codes, eq_ic}
use ircbot_rs.Queue.Modes.{
  space, ModeItem, mode_item_parse, following, take_items, pack_letters, pack_args, pack,
}

-- What an item adds to the estimate of `take_protection`.
abbrev cost : ModeItem → ℕ
cost it = 2 + length it.arg + 1

abbrev total : List ModeItem → ℕ
total [] = 0
total (it ∷ items) = cost it + total items

args_step :
    (b : Bool) (a rest : Bytes)
    → length ((if b then space ∷ a else []) ++ rest) ≤ 1 + length a + length rest
args_step true a rest = omega (arith, length-append a rest)
args_step false a rest = omega arith

letters_step :
    (b : Bool) (sign letter : ℕ) (rest : Bytes)
    → length ((if b then letter ∷ [] else sign ∷ letter ∷ []) ++ rest) ≤ 2 + length rest
letters_step true sign letter rest = omega arith
letters_step false sign letter rest = omega arith

length-letters_args :
    (cur : ℕ) (items : List ModeItem)
    → length (pack_letters cur items) + length (pack_args items) ≤ total items
unfolding pack_letters pack_args
length-letters_args cur [] = omega arith
length-letters_args cur (it ∷ items) = omega (
  arith,
  letters_step (it.sign == cur) it.sign it.letter (pack_letters it.sign items),
  args_step it.has_arg it.arg (pack_args items),
  length-letters_args it.sign items,
)

-- From the estimate `est` on, `room` more items at most were taken, and each within 400.
record Fits (room est : ℕ) (items : List ModeItem) : Type 0 where
  width : (items ≡ []) ⊎ (est + total items ≤ 400)
  count : length items ≤ room

Fits-nil : (room est : ℕ) → Fits room est []
Fits-nil room est = record { width = inl refl; count = omega arith }

Fits-cons :
    (room est : ℕ) (it : ModeItem) (items : List ModeItem)
    → ltb 400 (est + cost it) ≡ false
    → Fits room (est + cost it) items
    → Fits (suc room) est (it ∷ items)
Fits-cons room est it items h f = record {
  width = elim f.width [ inl e ↦ inr (rw e (ground arith)) | inr l ↦ inr (ground arith) ];
  count = omega (arith, f.count);
}

following_cons-Fits :
    (room : ℕ) (chan : Bytes) (est : ℕ) (line : Bytes) (lines : List Bytes)
    → ((n : ℕ) → Fits room n (following room chan n lines))
    → Fits (suc room) est (following (suc room) chan est (line ∷ lines))
unfolding following
following_cons-Fits room chan est line lines rest = elim (Option-cases (mode_item_parse line)) [
  | inl e ↦ rw (following, e) (Fits-nil (suc room) est)
  | inr (it, e) ↦
      rw (following, e)
        (if_split (Fits (suc room) est) (not (eq_ic it.chan chan)) [] _
          (λ _. Fits-nil (suc room) est)
          (λ _.
            if_split (Fits (suc room) est) (ltb 400 (est + cost it)) [] _
              (λ _. Fits-nil (suc room) est) (λ h. Fits-cons room est it _ h (rest _))))
]

following-Fits :
    (room : ℕ) (chan : Bytes) (est : ℕ) (lines : List Bytes)
    → Fits room est (following room chan est lines)
unfolding following
following-Fits zero chan est lines = Fits-nil 0 est
following-Fits (suc room) chan est [] = Fits-nil (suc room) est
following-Fits (suc room) chan est (line ∷ lines) =
    following_cons-Fits room chan est line lines (λ n. following-Fits room chan n lines)

abbrev IsNarrow : ℕ → List ModeItem → Type 0
IsNarrow limit [] = Unit
IsNarrow limit (first ∷ more) =
    Fits (pred limit) (5 + length first.chan + 3 + length first.arg + 1) more

take_items-IsNarrow : (limit : ℕ) (lines : List Bytes) → IsNarrow limit (take_items limit lines)
unfolding take_items
take_items-IsNarrow limit [] = tt
take_items-IsNarrow limit (line ∷ lines) = elim (Option-cases (mode_item_parse line)) [
  | inl e ↦ rw (take_items, e) tt
  | inr (it, e) ↦ rw (take_items, e) (following-Fits (pred limit) it.chan _ lines)
]

length-pack :
    (first : ModeItem) (more : List ModeItem)
    → length (pack first more) ≤ 5 + length first.chan + 3 + length first.arg + 1 + total more + 2
unfolding pack
length-pack first more =
    let letters : Bytes = pack_letters 0 (first ∷ more) in
    let args : Bytes = pack_args (first ∷ more) in
    omega (
      arith,
      length-append (codes "MODE " ++ first.chan ++ space ∷ letters ++ args) (b'\r' ∷ b'\n' ∷ []),
      length-append (codes "MODE " ++ first.chan ++ space ∷ letters) args,
      length-append (codes "MODE " ++ first.chan) (space ∷ letters),
      length-append (codes "MODE ") first.chan,
      length-letters_args 0 (first ∷ more),
    )

-- Where two changes or more are packed, the line has at most 402 bytes with its line end, and it
-- carries no more changes than the limit it was packed under.
pub length-pack-take_items :
    (limit : ℕ) (lines : List Bytes) (first second : ModeItem) (more : List ModeItem)
    → take_items limit lines ≡ first ∷ second ∷ more
    → (length (pack first (second ∷ more)) ≤ 402) × (length (first ∷ second ∷ more) ≤ limit)
length-pack-take_items limit lines first second more h =
    let f : IsNarrow limit (first ∷ second ∷ more) =
      subst (IsNarrow limit) h (take_items-IsNarrow limit lines) in
    (
      elim f.width [
        | inl e ↦ ground arith
        | inr l ↦ omega (arith, length-pack first (second ∷ more))
      ],
      ground (arith, f.count),
    )
