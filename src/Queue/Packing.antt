-- ===== src/Queue/Packing.antt =====
-- A packed MODE line of src/sendq.rs says exactly what the lines did that it stands for.
use mathlib.Core.Path.{subst}
use ircbot_rs.Prelude.{
  ℕ, zero, suc, ◌+◌, ◌≡◌, refl, sym, inl, inr, Bool, true, not, ◌||◌, Option, none, some, List, [],
  ◌∷◌, ◌++◌, pred, arith, length, take, drop, map, All, if◌then◌else◌, ◌==◌, Option-cases, if_split,
  get_or, ltb, leb, get_elem?,
}
use ircbot_rs.Cstr.{Bytes, codes, eq_ic, is_utf8}
use ircbot_rs.Queue
use ircbot_rs.Queue.Reading.{
  IsWord, is_sign, IsItem, change, read_mode, packed, pack-packed, read_mode-packed,
}
use ircbot_rs.Queue.Modes.{
  skip_space, starts_argument, max_chan, span_len, in_word, ModeItem, needs, finish_item, item_at,
  mode_item_parse, following, take_items, pack,
}

span-IsWord : (s : Bytes) → IsWord (take (span_len in_word s) s)
unfolding span_len
span-IsWord [] = refl
span-IsWord (c ∷ s) = ground (arith, span-IsWord s)

finish_item-IsItem :
    (chan : Bytes) (sign letter : ℕ) (arg : Bytes) (r : Option Bool) (it : ModeItem)
    → needs sign letter ≡ r
    → is_sign sign ≡ true
    → IsWord arg
    → IsWord chan
    → finish_item chan sign letter arg r ≡ some it
    → IsItem it
finish_item-IsItem chan sign letter arg none it n s a c h = ground arith
finish_item-IsItem chan sign letter arg (some b) it n s a c h =
    let e : record { chan = chan; sign = sign; letter = letter; arg = arg; has_arg = b } ≡ it =
      ground arith in
    subst IsItem e (record { sign = s; rule = n; arg = a; chan = c })

item_at-IsItem :
    (chan p : Bytes) (it : ModeItem) → IsWord chan → item_at chan p ≡ some it → IsItem it
item_at-IsItem chan p it c h =
    let a : Bytes = skip_space (drop 2 p) in
    finish_item-IsItem chan (get_or p 0 0) (get_or p 1 0) (take (span_len in_word a) a) _ it refl
      (ground arith) (span-IsWord a) c (ground arith)

abbrev Only : ModeItem → Option ModeItem → Type 0
Only it o = o ≡ some it → IsItem it

mode_item_parse-IsItem : (line : Bytes) (it : ModeItem) → mode_item_parse line ≡ some it → IsItem it
unfolding mode_item_parse
mode_item_parse-IsItem line it =
    let p : Bytes = drop 5 line in
    let cl : ℕ = span_len in_word p in
    let named : Option ModeItem = item_at (take cl p) (drop (cl + 1) p) in
    let utf8 : Option ModeItem = if not (is_utf8 (take cl p)) then none else named in
    let long : Option ModeItem =
      if cl == 0 || leb max_chan cl || not (starts_argument (get_elem? p cl)) then none else utf8 in
    if_split (Only it) (ltb (length line) 5 || not (eq_ic (take 5 line) (codes "MODE "))) none long
      (λ _ e. ground arith)
      (λ _.
        if_split (Only it) (cl == 0 || leb max_chan cl || not (starts_argument (get_elem? p cl)))
          none utf8 (λ _ e. ground arith)
          (λ _.
            if_split (Only it) (not (is_utf8 (take cl p))) none named (λ _ e. ground arith)
              (λ _ e. item_at-IsItem (take cl p) (drop (cl + 1) p) it (span-IsWord p) e)))

abbrev pub IsLike : Bytes → ModeItem → Type 0
IsLike chan it = IsItem it × (eq_ic it.chan chan ≡ true)

following_full : (chan : Bytes) (est : ℕ) (lines : List Bytes) → following 0 chan est lines ≡ []
unfolding following
following_full chan est lines = refl

following_nil : (room : ℕ) (chan : Bytes) (est : ℕ) → following room chan est [] ≡ []
unfolding following
following_nil zero chan est = refl
following_nil (suc room) chan est = refl

following_cons-IsLike :
    (room : ℕ) (chan : Bytes) (est : ℕ) (line : Bytes) (lines : List Bytes)
    → ((n : ℕ) → All (IsLike chan) (following room chan n lines))
    → All (IsLike chan) (following (suc room) chan est (line ∷ lines))
unfolding following
following_cons-IsLike room chan est line lines rest = elim (Option-cases (mode_item_parse line)) [
  | inl e ↦ rw (following, e) tt
  | inr (it, e) ↦
      rw (following, e)
        (if_split (All (IsLike chan)) (not (eq_ic it.chan chan)) [] _ (λ _. tt)
          (λ a.
            if_split (All (IsLike chan)) (ltb 400 (est + (2 + length it.arg + 1))) [] _ (λ _. tt)
              (λ _. ((mode_item_parse-IsItem line it e, ground arith), rest _))))
]

following-IsLike :
    (room : ℕ) (chan : Bytes) (est : ℕ) (lines : List Bytes)
    → All (IsLike chan) (following room chan est lines)
following-IsLike zero chan est lines =
    subst (All (IsLike chan)) (sym (following_full chan est lines)) tt
following-IsLike (suc room) chan est [] =
    subst (All (IsLike chan)) (sym (following_nil (suc room) chan est)) tt
following-IsLike (suc room) chan est (line ∷ lines) =
    following_cons-IsLike room chan est line lines (λ n. following-IsLike room chan n lines)

abbrev Alike : List ModeItem → Type 0
Alike [] = Unit
Alike (first ∷ more) = IsItem first × All (IsLike first.chan) more

take_items-Alike : (limit : ℕ) (lines : List Bytes) → Alike (take_items limit lines)
unfolding take_items
take_items-Alike limit [] = tt
take_items-Alike limit (line ∷ lines) = elim (Option-cases (mode_item_parse line)) [
  | inl e ↦ rw (take_items, e) tt
  | inr (it, e) ↦
      rw (take_items, e)
        (mode_item_parse-IsItem line it e, following-IsLike (pred limit) it.chan _ lines)
]

items_of : (chan : Bytes) (items : List ModeItem) → All (IsLike chan) items → All IsItem items
items_of chan [] h = tt
items_of chan (it ∷ items) h = (h.0.0, items_of chan items h.1)

chans_of :
    (chan : Bytes) (items : List ModeItem)
    → All (IsLike chan) items
    → All (λ it. eq_ic it.chan chan ≡ true) items
chans_of chan [] h = tt
chans_of chan (it ∷ items) h = (h.0.1, chans_of chan items h.1)

-- The items are the parses of as many lines, from the first on.
abbrev pub Parsed : List ModeItem → List Bytes → Type 0
Parsed [] lines = Unit
Parsed (it ∷ items) [] = ⊥
Parsed (it ∷ items) (line ∷ lines) = (mode_item_parse line ≡ some it) × Parsed items lines

following_cons-lines :
    (room : ℕ) (chan : Bytes) (est : ℕ) (line : Bytes) (lines : List Bytes)
    → ((n : ℕ) → Parsed (following room chan n lines) lines)
    → Parsed (following (suc room) chan est (line ∷ lines)) (line ∷ lines)
unfolding following
following_cons-lines room chan est line lines rest = elim (Option-cases (mode_item_parse line)) [
  | inl e ↦ rw (following, e) tt
  | inr (it, e) ↦
      rw (following, e)
        (if_split (λ l. Parsed l (line ∷ lines)) (not (eq_ic it.chan chan)) [] _ (λ _. tt)
          (λ a.
            if_split (λ l. Parsed l (line ∷ lines)) (ltb 400 (est + (2 + length it.arg + 1))) [] _
              (λ _. tt) (λ _. (e, rest _))))
]

following-lines :
    (room : ℕ) (chan : Bytes) (est : ℕ) (lines : List Bytes)
    → Parsed (following room chan est lines) lines
following-lines zero chan est lines =
    subst (λ l. Parsed l lines) (sym (following_full chan est lines)) tt
following-lines (suc room) chan est [] =
    subst (λ l. Parsed l []) (sym (following_nil (suc room) chan est)) tt
following-lines (suc room) chan est (line ∷ lines) =
    following_cons-lines room chan est line lines (λ n. following-lines room chan n lines)

take_items-lines : (limit : ℕ) (lines : List Bytes) → Parsed (take_items limit lines) lines
unfolding take_items
take_items-lines limit [] = tt
take_items-lines limit (line ∷ lines) = elim (Option-cases (mode_item_parse line)) [
  | inl e ↦ rw (take_items, e) tt
  | inr (it, e) ↦ rw (take_items, e) (e, following-lines (pred limit) it.chan _ lines)
]

-- Where the lane `lines` has changes to pack (`take_items` finds `first` and `more`), each of them is
-- the parse of its own line at the front of the lane, in order, and names the channel of the first up
-- to case. The packed line is a body and its line end, and a server that reads the body (a sign
-- holds until the next, each letter that needs an argument takes the next one) finds that channel
-- and exactly the changes of these lines, in their order.
pub pack-read_mode :
    (limit : ℕ) (lines : List Bytes) (first : ModeItem) (more : List ModeItem)
    → take_items limit lines ≡ first ∷ more
    → Parsed (first ∷ more) lines
      × All (λ it. eq_ic it.chan first.chan ≡ true) more
      × ((body : Bytes) × (pack first more ≡ body ++ Queue.crlf)
          × (read_mode body ≡ some (first.chan, map change (first ∷ more))))
pack-read_mode limit lines first more h =
    let alike : Alike (first ∷ more) = subst Alike h (take_items-Alike limit lines) in
    let items : All IsItem (first ∷ more) = (alike.0, items_of first.chan more alike.1) in
    (
      subst (λ l. Parsed l lines) h (take_items-lines limit lines),
      chans_of first.chan more alike.1,
      (packed first more, pack-packed first more, read_mode-packed first more items),
    )
