-- ===== src/Servers/Search.antt =====
-- The search of src/irc_client.rs for a word in what a server says, against a plain reading of it.
use mathlib.Core.Path.{subst}
use ircbot_rs.Prelude.{
  ℕ, zero, suc, ◌+◌, ◌-◌, ◌≤◌, ◌<◌, ◌≡◌, refl, sym, ap, ◌∙◌, Bool, true, false, not, ◌&&◌, Option,
  none, some, [], ◌∷◌, arith, length, drop, get_or, ltb, ◌==◌, if◌then◌else◌, if_split, succ?,
  length-drop, drop-drop,
}
use ircbot_rs.Cstr.{Bytes, is_empty}
use ircbot_rs.ChanLive.Isupport.{is_alpha}
use ircbot_rs.Link.{has_prefix}
use ircbot_rs.Servers.Refusal.{find_in, find_from, find_word, refusal_find, shift, at_word}

-- How many bytes stand before the first place of the needle that no letter stands before; `prev` is
-- the byte in front of the text.
unfoldable pub first_word : Bytes → ℕ → Bytes → Option ℕ
first_word needle prev [] = none
first_word needle prev (c ∷ s) =
    let rest = succ? (first_word needle c s) in
    if has_prefix needle (c ∷ s) && not (is_alpha prev) then some 0 else rest

-- The byte in front of the index, in a text behind `prev`.
abbrev in_front : ℕ → Bytes → ℕ → ℕ
in_front prev s zero = prev
in_front prev s (suc i) = get_or s i 0

-- The loop's next place, or the end.
abbrev on_word : Bytes → ℕ → Bytes → ℕ → Option ℕ
on_word needle prev s i =
    if not (is_alpha (in_front prev s i))
    then some i
    else shift (suc i) (first_word needle (get_or s i 0) (drop (suc i) s))

succ-shift : (n : ℕ) (o : Option ℕ) → succ? (shift n o) ≡ shift (suc n) o
succ-shift n none = refl
succ-shift n (some i) = ap (λ (m : ℕ). some m) (omega arith)

succ-if :
    (b : Bool) (x y : Option ℕ) → succ? (if b then x else y) ≡ (if b then succ? x else succ? y)
succ-if true x y = refl
succ-if false x y = refl

succ-once : (o : Option ℕ) → succ? o ≡ shift 1 o
succ-once none = refl
succ-once (some i) = ap (λ (m : ℕ). some m) (omega arith)

-- What the search of the next place says of the plain reading.
abbrev Found : Bytes → ℕ → Bytes → Option ℕ → Type 0
Found needle prev s none = first_word needle prev s ≡ none
Found needle prev s (some i) = (i < length s) × (first_word needle prev s ≡ on_word needle prev s i)

front-suc : (prev c : ℕ) (s : Bytes) (i : ℕ) → in_front c s i ≡ in_front prev (c ∷ s) (suc i)
front-suc prev c s zero = refl
front-suc prev c s (suc i) = refl

later-Found :
    (needle : Bytes) (prev c : ℕ) (s : Bytes) (o : Option ℕ)
    → first_word needle prev (c ∷ s) ≡ succ? (first_word needle c s)
    → Found needle c s o
    → Found needle prev (c ∷ s) (succ? o)
later-Found needle prev c s none e h = e ∙ ap succ? h
later-Found needle prev c s (some i) e (lt, h) = (
  omega arith,
  e
      ∙ ap succ? h
      ∙ succ-if (not (is_alpha (in_front c s i))) (some i) _
      ∙ ap
          (λ (x : ℕ).
            if not (is_alpha x)
            then some (suc i)
            else succ? (shift (suc i) (first_word needle (get_or s i 0) (drop (suc i) s))))
          (front-suc prev c s i)
      ∙ ap (λ o. if not (is_alpha (in_front prev (c ∷ s) (suc i))) then some (suc i) else o)
          (succ-shift (suc i) (first_word needle (get_or s i 0) (drop (suc i) s))),
)

here-Found :
    (needle : Bytes) (prev c : ℕ) (s : Bytes)
    → has_prefix needle (c ∷ s) ≡ true
    → Found needle prev (c ∷ s) (some 0)
unfolding first_word
here-Found needle prev c s h = (
  omega arith,
  rw h (ap (λ o. if not (is_alpha prev) then some 0 else o) (succ-once (first_word needle c s))),
)

find_in-Found : (needle : Bytes) (prev : ℕ) (s : Bytes) → Found needle prev s (find_in needle s)
unfolding find_in first_word
find_in-Found needle prev [] = refl
find_in-Found needle prev (c ∷ s) =
    if_split (Found needle prev (c ∷ s)) (has_prefix needle (c ∷ s)) (some 0)
      (succ? (find_in needle s)) (λ e. here-Found needle prev c s e)
      (λ e. later-Found needle prev c s (find_in needle s) (rw e refl) (find_in-Found needle c s))

get_or-drop : (n i : ℕ) (s : Bytes) → get_or (drop n s) i 0 ≡ get_or s (i + n) 0
get_or-drop zero i s = ap (λ (m : ℕ). get_or s m 0) (omega arith)
get_or-drop (suc n) i [] = refl
get_or-drop (suc n) i (c ∷ s) =
    let e : suc (i + n) ≡ i + suc n = omega arith in
    get_or-drop n i s ∙ ap (λ (m : ℕ). get_or (c ∷ s) m 0) e

front-drop :
    (from i : ℕ) (hay : Bytes)
    → in_front (in_front 0 hay from) (drop from hay) i ≡ in_front 0 hay (i + from)
front-drop from zero hay = ap (in_front 0 hay) (omega arith)
front-drop from (suc i) hay =
    let e : suc (i + from) ≡ suc i + from = omega arith in
    get_or-drop from i hay ∙ ap (in_front 0 hay) e

at_word-front : (hay : Bytes) (p : ℕ) → at_word hay p ≡ not (is_alpha (in_front 0 hay p))
at_word-front hay zero = refl
at_word-front hay (suc p) =
    let first : (suc p == 0) ≡ false = ground arith in
    let back : suc p - 1 ≡ p = omega arith in
    rw first (ap (λ (m : ℕ). not (is_alpha (get_or hay m 0))) back)

shift-shift : (a b : ℕ) (o : Option ℕ) → shift a (shift b o) ≡ shift (b + a) o
shift-shift a b none = refl
shift-shift a b (some i) = ap (λ (m : ℕ). some m) (omega arith)

shift-if :
    (n : ℕ) (b : Bool) (x y : Option ℕ)
    → shift n (if b then x else y) ≡ (if b then shift n x else shift n y)
shift-if n true x y = refl
shift-if n false x y = refl

-- The plain reading from an index on.
abbrev plain_from : Bytes → Bytes → ℕ → Option ℕ
plain_from hay needle from =
    shift (from + length needle) (first_word needle (in_front 0 hay from) (drop from hay))

abbrev Goes : ℕ → Bytes → Bytes → ℕ → Type 0
Goes fuel hay needle from =
    find_word fuel hay needle (find_from hay needle from) ≡ plain_from hay needle from

-- Behind a place that a letter stands before, the loop and the reading go on alike.
go_on :
    (fuel : ℕ) (hay needle : Bytes) (from i : ℕ)
    → Goes fuel hay needle (suc (i + from))
    → find_word fuel hay needle (find_from hay needle (suc (i + from)))
      ≡ shift (from + length needle) (
          shift
            (suc i)
            (first_word needle (get_or (drop from hay) i 0) (drop (suc i) (drop from hay))))
go_on fuel hay needle from i ih =
    let n : ℕ = length needle in
    let e : suc (i + from) + n ≡ suc i + (from + n) = omega arith in
    let same : first_word needle (get_or hay (i + from) 0) (drop (suc (i + from)) hay)
        ≡ first_word needle (get_or (drop from hay) i 0) (drop (suc i) (drop from hay)) =
      ap (λ (x : ℕ). first_word needle x (drop (suc (i + from)) hay)) (sym (get_or-drop from i hay))
      ∙ ap (λ l. first_word needle (get_or (drop from hay) i 0) l) (sym (drop-drop from i hay)) in
    ih
    ∙ ap
        (λ (m : ℕ).
          shift m (first_word needle (get_or hay (i + from) 0) (drop (suc (i + from)) hay)))
        e
    ∙ ap (shift (suc i + (from + n))) same
    ∙ sym (shift-shift (from + n) (suc i) _)

step-Goes :
    (fuel : ℕ) (hay needle : Bytes) (from : ℕ) (o : Option ℕ)
    → length hay < fuel + from
    → from ≤ length hay
    → Found needle (in_front 0 hay from) (drop from hay) o
    → ((fuel' p : ℕ) → suc fuel' ≡ fuel → p ≤ length hay → from < p → Goes fuel' hay needle p)
    → find_word fuel hay needle (shift from o) ≡ plain_from hay needle from
unfolding find_word
step-Goes zero hay needle from o l le f ih = absurd (omega arith)
step-Goes (suc fuel) hay needle from none l le f ih = ap (shift (from + length needle)) (sym f)
step-Goes (suc fuel) hay needle from (some i) l le (inside, f) ih =
    let n : ℕ = length needle in
    let word : at_word hay (i + from)
        ≡ not (is_alpha (in_front (in_front 0 hay from) (drop from hay) i)) =
      at_word-front hay (i + from)
      ∙ ap (λ (x : ℕ). not (is_alpha x)) (sym (front-drop from i hay)) in
    let next : Goes fuel hay needle (suc (i + from)) =
      ih fuel (suc (i + from)) refl (omega (arith, length-drop from hay)) (omega arith) in
    ap
      (λ b.
        if b
        then some (i + from + n)
        else find_word fuel hay needle (find_from hay needle (suc (i + from))))
      word
    ∙ ap
        (λ (m : ℕ).
          if not (is_alpha (in_front (in_front 0 hay from) (drop from hay) i))
          then some m
          else find_word fuel hay needle (find_from hay needle (suc (i + from))))
        (omega arith)
    ∙ ap
        (λ o.
          if not (is_alpha (in_front (in_front 0 hay from) (drop from hay) i))
          then some (i + (from + n))
          else o)
        (go_on fuel hay needle from i next)
    ∙ sym (
        shift-if (from + n) (not (is_alpha (in_front (in_front 0 hay from) (drop from hay) i)))
          (some i) _)
    ∙ ap (shift (from + n)) (sym f)

find_from-in :
    (hay needle : Bytes) (from : ℕ)
    → is_empty needle ≡ false
    → from ≤ length hay
    → find_from hay needle from ≡ shift from (find_in needle (drop from hay))
unfolding find_from
find_from-in hay needle from e h =
    let inside : ltb (length hay) from ≡ false = ground arith in rw (e, inside) refl

search-Goes :
    (fuel : ℕ) (hay needle : Bytes) (from : ℕ)
    → is_empty needle ≡ false
    → length hay < fuel + from
    → from ≤ length hay
    → Goes fuel hay needle from
search-Goes zero hay needle from e l le = absurd (omega arith)
search-Goes (suc fuel) hay needle from e l le =
    ap (find_word (suc fuel) hay needle) (find_from-in hay needle from e le)
    ∙ step-Goes (suc fuel) hay needle from (find_in needle (drop from hay)) l le
        (find_in-Found needle (in_front 0 hay from) (drop from hay))
        (λ left p s inside more.
          let same : fuel ≡ left = omega arith in
          subst (λ (n : ℕ). Goes n hay needle p) same
            (search-Goes fuel hay needle p e (omega arith) inside))

-- For a word that is not empty, the loop over its places always comes to an end, and its answer is the
-- place behind the first one that no letter stands before, or none where there is no such place.
pub refusal_find-plain :
    (hay needle : Bytes)
    → is_empty needle ≡ false
    → refusal_find hay needle ≡ shift (length needle) (first_word needle 0 hay)
unfolding refusal_find
refusal_find-plain hay needle e =
    search-Goes (suc (length hay)) hay needle 0 e (omega arith) (omega arith)
    ∙ ap (λ (m : ℕ). shift m (first_word needle 0 hay)) (omega arith)
