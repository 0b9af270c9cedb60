-- ===== src/BotFlood/Ignores.antt =====
-- The ignore table of src/botflood.rs: what an added key gets, and when the bot goes quiet.
use mathlib.Core.Path.{subst}
use ircbot_rs.Prelude.{
  ℕ, zero, suc, ◌+◌, ◌<◌, ◌≡◌, refl, sym, ap, inl, inr, Bool, true, false, not, ◌&&◌, Option, none,
  some, List, [], ◌∷◌, arith, length, get_or, set, any, All, if_split, Option-cases, if◌then◌else◌,
  ◌≢◌,
}
use ircbot_rs.Cstr.{Bytes, bytes_eq, is_empty}
use ircbot_rs.Cstr.Case.{bytes_eq_refl}
use ircbot_rs.State.{BotFlood, IgnoreEnt, no_ignore}
use ircbot_rs.ChanFlood.{or_at, older, index}
use ircbot_rs.BotFlood.{
  ignores, ignore_find, expire, Swept, sweep, add_swept, renewed, added, full, ignore_add, ltb,
}

abbrev Below : ℕ → Option ℕ → Type 0
Below m none = Unit
Below m (some i) = i < m

or_at-Below : (m : ℕ) (o : Option ℕ) (i : ℕ) → i < m → Below m o → Below m (or_at o i)
or_at-Below m none i h k = h
or_at-Below m (some j) i h k = k

older-Below :
    (m i last : ℕ) (o : Option (ℕ × ℕ))
    → i < m
    → Below m (index o)
    → Below m (index (older i last o))
older-Below m i last none h k = h
older-Below m i last (some (o, least)) h k =
    if_split (λ (p : Option (ℕ × ℕ)). Below m (index p)) (ltb last least) (some (i, last))
      (some (o, least)) (λ _. h) (λ _. k)

record IsBelow (m n : ℕ) (r : Swept) : Type 0 where
  slot : Below m r.slot
  oldest : Below m (index r.oldest)
  size : length r.table ≡ n

sweep-IsBelow :
    (key : Bytes) (now_ms m i : ℕ) (slot : Option ℕ) (oldest : Option (ℕ × ℕ)) (es : List IgnoreEnt)
    → i + length es ≡ m
    → Below m slot
    → Below m (index oldest)
    → IsBelow m (length es) (sweep key now_ms i slot oldest es)
unfolding sweep
sweep-IsBelow key now_ms m i slot oldest [] h s o = record { slot = s; oldest = o; size = refl }
sweep-IsBelow key now_ms m i slot oldest (e ∷ es) h s o =
    let e' : IgnoreEnt = expire now_ms e in
    let here : i < m = omega arith in
    if_split (IsBelow m (suc (length es))) (not (is_empty e'.key) && bytes_eq e'.key key) _ _
      (λ _. record { slot = here; oldest = o; size = refl })
      (λ _.
        let rest =
          sweep-IsBelow key now_ms m (i + 1) (if is_empty e'.key then or_at slot i else slot)
            (if is_empty e'.key then oldest else older i e'.since_ms oldest) es (omega arith)
            (if_split (Below m) (is_empty e'.key) (or_at slot i) slot
              (λ _. or_at-Below m slot i here s) (λ _. s))
            (if_split (λ (p : Option (ℕ × ℕ)). Below m (index p)) (is_empty e'.key) oldest
              (older i e'.since_ms oldest) (λ _. o)
              (λ _. older-Below m i e'.since_ms oldest here o)) in
        record { slot = rest.slot; oldest = rest.oldest; size = ap suc rest.size })

any-set :
    (p : IgnoreEnt → Bool) (xs : List IgnoreEnt) (i : ℕ) (v : IgnoreEnt)
    → i < length xs
    → p v ≡ true
    → any p (set xs i v) ≡ true
any-set p [] i v h k = ground arith
any-set p (x ∷ xs) zero v h k = ground arith
any-set p (x ∷ xs) (suc i) v h k = ground (arith, any-set p xs i v)

renewed-ignores :
    (key : Bytes) (now_ms ms t : ℕ) (e : IgnoreEnt)
    → is_empty key ≡ false
    → t < now_ms + ms
    → ignores key t (renewed key now_ms ms e) ≡ true
renewed-ignores key now_ms ms t e h l = ground (arith, bytes_eq_refl key)

add_swept-find :
    (b : BotFlood) (key : Bytes) (now_ms ms t : ℕ) (table : List IgnoreEnt) (slot : Option ℕ)
    (oldest : Option (ℕ × ℕ))
    → Below (length table) slot
    → Below (length table) (index oldest)
    → is_empty key ≡ false
    → t < now_ms + ms
    → (add_swept b key now_ms ms (record { table = table; slot = slot; oldest = oldest })).0 ≡ added
    → any
        (ignores key t)
        (add_swept b key now_ms ms
          (record { table = table; slot = slot; oldest = oldest })).1.ignores
      ≡ true
add_swept-find b key now_ms ms t table (some i) oldest s o k l a =
    any-set (ignores key t) table i _ s
      (renewed-ignores key now_ms ms t (get_or table i no_ignore) k l)
add_swept-find b key now_ms ms t table none none s o k l a = ground arith
add_swept-find b key now_ms ms t table none (some (j, since)) s o k l a = ground (
  arith,
  any-set (ignores key t) table j (renewed key now_ms ms (get_or table j no_ignore)) o
      (renewed-ignores key now_ms ms t (get_or table j no_ignore) k l),
)

-- A key that is not empty and that was added for `ms` milliseconds is found in the ignore table
-- until they are over.
pub ignore_add-find :
    (b : BotFlood) (key : Bytes) (now_ms ms t : ℕ)
    → is_empty key ≡ false
    → t < now_ms + ms
    → (ignore_add b key now_ms ms).0 ≡ added
    → ignore_find (ignore_add b key now_ms ms).1 key t ≡ true
unfolding ignore_add ignore_find
ignore_add-find b key now_ms ms t k l a =
    let sw : Swept = sweep key now_ms 0 none none b.ignores in
    let below : IsBelow (length b.ignores) (length b.ignores) sw =
      sweep-IsBelow key now_ms (length b.ignores) 0 none none b.ignores (omega arith) tt tt in
    add_swept-find b key now_ms ms t sw.table sw.slot sw.oldest
      (subst (λ (m : ℕ). Below m sw.slot) (sym below.size) below.slot)
      (subst (λ (m : ℕ). Below m (index sw.oldest)) (sym below.size) below.oldest) k l a

-- An entry of another key whose time is not over.
abbrev pub IsLive : Bytes → ℕ → IgnoreEnt → Type 0
IsLive key now_ms e =
    (is_empty e.key ≡ false) × (now_ms < e.until_ms) × (bytes_eq e.key key ≡ false)

sweep-slot_kept :
    (key : Bytes) (now_ms i j : ℕ) (oldest : Option (ℕ × ℕ)) (es : List IgnoreEnt)
    → (sweep key now_ms i (some j) oldest es).slot ≢ none
unfolding sweep
sweep-slot_kept key now_ms i j oldest [] = ground arith
sweep-slot_kept key now_ms i j oldest (e ∷ es) =
    let e' : IgnoreEnt = expire now_ms e in
    ground (
      arith,
      sweep-slot_kept key now_ms (i + 1) j oldest es,
      sweep-slot_kept key now_ms (i + 1) j (older i e'.since_ms oldest) es,
    )

nil_empty : is_empty [] ≡ true
unfolding is_empty
nil_empty = refl

sweep-IsLive :
    (key : Bytes) (now_ms i : ℕ) (oldest : Option (ℕ × ℕ)) (es : List IgnoreEnt)
    → (sweep key now_ms i none oldest es).slot ≡ none
    → All (IsLive key now_ms) es
unfolding sweep
sweep-IsLive key now_ms i oldest [] h = tt
sweep-IsLive key now_ms i oldest (e ∷ es) h =
    let kept = sweep-slot_kept key now_ms (i + 1) i oldest es in
    let live : IsLive key now_ms e = ground (arith, kept, nil_empty) in
    let rest : (sweep key now_ms (i + 1) none (older i e.since_ms oldest) es).slot ≡ none =
      ground (arith, live) in
    (live, sweep-IsLive key now_ms (i + 1) (older i e.since_ms oldest) es rest)

add_swept-full :
    (b : BotFlood) (key : Bytes) (now_ms ms : ℕ) (first : Bool) (sw : Swept)
    → (add_swept b key now_ms ms sw).0 ≡ full first
    → sw.oldest ≢ none
    → (sw.slot ≡ none)
      × ((add_swept b key now_ms ms sw).1.quiet_until_ms ≡ now_ms + ms)
      × (first ≡ not b.quiet_logged)
add_swept-full b key now_ms ms first sw h o = elim (Option-cases sw.slot) [
  | inr (i, e) ↦ ground arith
  | inl e ↦ elim (Option-cases sw.oldest) [
    | inl f ↦ ground arith
    | inr ((j, since), f) ↦ ground arith
  ]
]

older-some : (i last : ℕ) (o : Option (ℕ × ℕ)) → older i last o ≢ none
older-some i last none = ground arith
older-some i last (some (o, least)) = ground arith

sweep-oldest_kept :
    (key : Bytes) (now_ms i : ℕ) (slot : Option ℕ) (o : Option (ℕ × ℕ)) (es : List IgnoreEnt)
    → o ≢ none
    → (sweep key now_ms i slot o es).oldest ≢ none
unfolding sweep
sweep-oldest_kept key now_ms i slot o [] h = h
sweep-oldest_kept key now_ms i slot o (e ∷ es) h =
    let e' : IgnoreEnt = expire now_ms e in
    if_split (λ (r : Swept). r.oldest ≢ none) (not (is_empty e'.key) && bytes_eq e'.key key) _ _
      (λ _. h)
      (λ _.
        sweep-oldest_kept key now_ms (i + 1) (if is_empty e'.key then or_at slot i else slot)
          (if is_empty e'.key then o else older i e'.since_ms o) es
          (if_split (λ (p : Option (ℕ × ℕ)). p ≢ none) (is_empty e'.key) o (older i e'.since_ms o)
            (λ _. h) (λ _. older-some i e'.since_ms o)))

-- A table with an entry has a free slot, the key's own, or an oldest one.
sweep-found :
    (key : Bytes) (now_ms i : ℕ) (e : IgnoreEnt) (es : List IgnoreEnt)
    → (sweep key now_ms i none none (e ∷ es)).slot ≡ none
    → (sweep key now_ms i none none (e ∷ es)).oldest ≢ none
unfolding sweep
sweep-found key now_ms i e es h = ground (
  arith,
  sweep-slot_kept key now_ms (i + 1) i none es,
  sweep-oldest_kept key now_ms (i + 1) none (some (i, (expire now_ms e).since_ms)) es,
)

add_swept-slot :
    (b : BotFlood) (key : Bytes) (now_ms ms : ℕ) (first : Bool) (sw : Swept)
    → (add_swept b key now_ms ms sw).0 ≡ full first
    → sw.slot ≡ none
add_swept-slot b key now_ms ms first sw h = elim (Option-cases sw.slot) [
  | inr (i, e) ↦ ground arith
  | inl e ↦ e
]

sweep-full :
    (b : BotFlood) (key : Bytes) (now_ms ms : ℕ) (first : Bool) (table : List IgnoreEnt)
    → 0 < length table
    → (add_swept b key now_ms ms (sweep key now_ms 0 none none table)).0 ≡ full first
    → All (IsLive key now_ms) table
      × ((add_swept b key now_ms ms (sweep key now_ms 0 none none table)).1.quiet_until_ms
          ≡ now_ms + ms)
      × (first ≡ not b.quiet_logged)
sweep-full b key now_ms ms first [] p h = ground arith
sweep-full b key now_ms ms first (e ∷ es) p h =
    let sw : Swept = sweep key now_ms 0 none none (e ∷ es) in
    let no_slot : sw.slot ≡ none = add_swept-slot b key now_ms ms first sw h in
    let (_, quiet, logged) =
      add_swept-full b key now_ms ms first sw h (sweep-found key now_ms 0 e es no_slot) in
    (sweep-IsLive key now_ms 0 none (e ∷ es) no_slot, quiet, logged)

-- A key finds no room in a table with entries only when every entry is live and of another key;
-- then the bot goes quiet for as long as the key would have been ignored, and asks for its log
-- line only the first time.
pub ignore_add-full :
    (b : BotFlood) (key : Bytes) (now_ms ms : ℕ) (first : Bool)
    → 0 < length b.ignores
    → (ignore_add b key now_ms ms).0 ≡ full first
    → All (IsLive key now_ms) b.ignores
      × ((ignore_add b key now_ms ms).1.quiet_until_ms ≡ now_ms + ms)
      × (first ≡ not b.quiet_logged)
unfolding ignore_add
ignore_add-full b key now_ms ms first p h = sweep-full b key now_ms ms first b.ignores p h
