-- ===== src/Servers/Nick.antt =====
-- src/irc_client.rs: the nicks that are tried when the server refuses one during registration.
use mathlib.Core.Path.{subst}
use ircbot_rs.Prelude.{
  ℕ, zero, suc, ◌+◌, ◌-◌, ◌≤◌, ◌<◌, ◌≡◌, refl, ap, ◌∙◌, Bool, true, false, not, ◌&&◌, ◌||◌, Option,
  none, some, [], ◌∷◌, ◌++◌, arith, length, get_elem?, ltb, leb, ◌==◌, if◌then◌else◌, if_split,
  length-append, Bool-cases, inl, inr,
}
use ircbot_rs.Cstr.{Bytes, codes, is_empty, trunc}
use ircbot_rs.Cstr.Trunc.{trunc-short}
use ircbot_rs.ChanCfg.Parse.{show, show_from}
use ircbot_rs.Lww.{
  is_rfc_nick, is_valid_bot_nick, contains_byte, rfc_from, is_letter, is_special, is_later,
  max_nick,
}

-- The fields of `BotState` that the search for a nick uses.
pub record Nicks : Type 0 where
  pub target_nick : Bytes
  pub current_nick : Bytes
  pub nick_generation_attempt : ℕ

abbrev pub suffixes : Bytes
suffixes = codes "_`^"

abbrev pub max_base : ℕ
max_base = 8

abbrev pub fits : Bytes → ℕ → Bool
fits base c = if is_empty base then is_rfc_nick (c ∷ []) else is_rfc_nick (b'a' ∷ c ∷ [])

-- The characters of the target that may stand in a nick, up to 8 of them.
unfoldable pub base_from : Bytes → Bytes → Bytes
unfolding is_rfc_nick is_empty
base_from base [] = base
base_from base (c ∷ s) =
    let kept = base_from (base ++ c ∷ []) s in
    let dropped = base_from base s in
    if leb max_base (length base) then base else if fits base c then kept else dropped

abbrev pub or_bot : Bytes → Bytes
or_bot base = if is_empty base then codes "bot" else base

abbrev pub numbered : ℕ → Bytes → Option Bytes
numbered n base = if ltb n 10 then some (base ++ show n) else none

abbrev pub suffixed : ℕ → Bytes → Option ℕ → Option Bytes
suffixed attempt base (some c) = some (base ++ c ∷ [])
suffixed attempt base none = numbered (attempt - length suffixes) base

-- The nick of an attempt; `none` where the attempts start again.
abbrev pub try_nick : ℕ → Bytes → Option Bytes
try_nick attempt base = suffixed attempt base (get_elem? suffixes attempt)

abbrev pub ask_nick : Nicks → Option Bytes → Option Bytes × Nicks
ask_nick s none = (none, record s { nick_generation_attempt = 0 })
ask_nick s (some nick) = (
  some (trunc nick max_nick),
  record s {
    current_nick = trunc nick max_nick;
    nick_generation_attempt = s.nick_generation_attempt + 1;
  },
)

-- The nick that the server is asked for, if any.
unfoldable pub generate_new_nick : Nicks → Option Bytes × Nicks
unfolding base_from show trunc is_empty
generate_new_nick s =
    ask_nick s (try_nick s.nick_generation_attempt (or_bot (base_from [] s.target_nick)))

abbrev char_ok : ℕ → ℕ → Bool
char_ok i c = is_letter c || is_special c || is_later c && not (i == 0)

and_true : (b : Bool) → (b && true) ≡ b
and_true true = refl
and_true false = refl

and_assoc : (a b c : Bool) → (a && (b && c)) ≡ ((a && b) && c)
and_assoc true b c = refl
and_assoc false b c = refl

rfc_from-append :
    (i : ℕ) (b : Bytes) (c : ℕ)
    → rfc_from i (b ++ c ∷ []) ≡ (rfc_from i b && char_ok (i + length b) c)
unfolding rfc_from
rfc_from-append i [] c =
    let here : char_ok i c ≡ char_ok (i + 0) c = ap (λ (n : ℕ). char_ok n c) (omega arith) in
    and_true (char_ok i c) ∙ here
rfc_from-append i (x ∷ b) c =
    let place : char_ok (i + 1 + length b) c ≡ char_ok (i + suc (length b)) c =
      ap (λ (n : ℕ). char_ok n c) (omega arith) in
    ap (λ t. char_ok i x && t)
      (rfc_from-append (i + 1) b c ∙ ap (λ t. rfc_from (i + 1) b && t) place)
    ∙ and_assoc (char_ok i x) (rfc_from (i + 1) b) (char_ok (i + suc (length b)) c)

-- A text that begins a nick.
record IsBase (b : Bytes) : Type 0 where
  pub short : length b ≤ max_base
  pub chars : rfc_from 0 b ≡ true

fits-later : (b : Bytes) (c : ℕ) → fits b c ≡ true → char_ok (length b) c ≡ true
unfolding is_rfc_nick is_valid_bot_nick rfc_from is_empty contains_byte
fits-later [] c h = ground arith
fits-later (x ∷ b) c h = ground arith

longer-IsBase :
    (b : Bytes) (c : ℕ)
    → leb max_base (length b) ≡ false
    → char_ok (length b) c ≡ true
    → IsBase b
    → IsBase (b ++ c ∷ [])
longer-IsBase b c room h k = record {
  short = let small : length b < max_base = ground arith in omega (arith, length-append b (c ∷ []));
  chars =
      let at : char_ok (0 + length b) c ≡ true = ap (λ (n : ℕ). char_ok n c) (omega arith) ∙ h in
      rfc_from-append 0 b c ∙ rw (k.chars, at) refl;
}

base_from-IsBase : (b s : Bytes) → IsBase b → IsBase (base_from b s)
unfolding base_from
base_from-IsBase b [] k = k
base_from-IsBase b (c ∷ s) k =
    if_split IsBase (leb max_base (length b)) b _ (λ _. k)
      (λ room.
        if_split IsBase (fits b c) (base_from (b ++ c ∷ []) s) (base_from b s)
          (λ fit. base_from-IsBase (b ++ c ∷ []) s (longer-IsBase b c room (fits-later b c fit) k))
          (λ _. base_from-IsBase b s k))

-- A beginning that is not empty, so that any character may follow.
or_bot-IsBase : (b : Bytes) → IsBase b → IsBase (or_bot b) × (1 ≤ length (or_bot b))
unfolding is_empty rfc_from
or_bot-IsBase [] k = (record { short = omega arith; chars = refl }, omega arith)
or_bot-IsBase (c ∷ b) k = (k, omega arith)

char-no_bar : (i c : ℕ) → char_ok i c ≡ true → (c == b'|') ≡ false
char-no_bar i c h = ground arith

and_parts : (a b : Bool) → (a && b) ≡ true → (a ≡ true) × (b ≡ true)
and_parts true b h = (refl, h)
and_parts false b h = ground arith

no_bar : (i : ℕ) (b : Bytes) → rfc_from i b ≡ true → contains_byte b'|' b ≡ false
unfolding rfc_from contains_byte
no_bar i [] h = refl
no_bar i (c ∷ b) h =
    let (first, rest) = and_parts (char_ok i c) (rfc_from (i + 1) b) h in
    rw (char-no_bar i c first) (no_bar (i + 1) b rest)

later-ok : (n c : ℕ) → 1 ≤ n → char_ok 1 c ≡ true → char_ok n c ≡ true
later-ok n c h k = let some_place : (n == 0) ≡ false = ground arith in rw some_place k

not_empty : (s : Bytes) → 1 ≤ length s → is_empty s ≡ false
unfolding is_empty
not_empty [] h = absurd (omega arith)
not_empty (c ∷ s) h = refl

-- A beginning with one more character is a nick that any server takes.
ended-rfc :
    (b : Bytes) (c : ℕ)
    → IsBase b
    → 1 ≤ length b
    → char_ok 1 c ≡ true
    → (is_rfc_nick (b ++ c ∷ []) ≡ true) × (trunc (b ++ c ∷ []) max_nick ≡ b ++ c ∷ [])
unfolding is_rfc_nick is_valid_bot_nick is_empty
ended-rfc b c k pos ok =
    let nick : Bytes = b ++ c ∷ [] in
    let place : char_ok (0 + length b) c ≡ true = later-ok (0 + length b) c (omega arith) ok in
    let chars : rfc_from 0 nick ≡ true = rfc_from-append 0 b c ∙ rw (k.chars, place) refl in
    let len : length nick ≡ length b + 1 = length-append b (c ∷ []) in
    let short : ltb (length nick) max_nick ≡ true = ground (arith, k.short) in
    let whole : trunc nick max_nick ≡ nick = trunc-short nick max_nick (omega (arith, k.short)) in
    (rw (not_empty nick (omega arith), short, no_bar 0 nick chars) chars, whole)

digit-ok : (n : ℕ) → n < 10 → char_ok 1 (b'0' + n) ≡ true
digit-ok n h = ground arith

show-digit : (n : ℕ) → n < 10 → show n ≡ (b'0' + n) ∷ []
unfolding show show_from
show-digit n h =
    let e : n + 1 ≡ suc n = omega arith in
    let small : ltb n 10 ≡ true = ground arith in ap (λ (m : ℕ). show_from m n) e ∙ rw small refl

-- The endings of the attempts, in their order.
abbrev pub endings : Bytes
endings = codes "_`^0123456789"

-- The attempt asks for the beginning with its ending, in whole, and is counted; after the last one the
-- attempts start again.
abbrev pub Asked : Nicks → Bytes → Option ℕ → Option Bytes × Nicks → Type 0
Asked s base (some c) r =
    (r.0 ≡ some (base ++ c ∷ []))
    × (is_rfc_nick (base ++ c ∷ []) ≡ true)
    × (r.1 ≡ record s {
      current_nick = base ++ c ∷ [];
      nick_generation_attempt = s.nick_generation_attempt + 1;
    })
Asked s base none r = (r.0 ≡ none) × (r.1 ≡ record s { nick_generation_attempt = 0 })

ended-Asked :
    (s : Nicks) (b : Bytes) (c : ℕ)
    → IsBase b
    → 1 ≤ length b
    → char_ok 1 c ≡ true
    → Asked s b (some c) (ask_nick s (some (b ++ c ∷ [])))
ended-Asked s b c k pos ok =
    let (rfc, whole) = ended-rfc b c k pos ok in
    (
      ap some whole,
      rfc,
      ap
          (λ (nick : Bytes). record s {
            current_nick = nick;
            nick_generation_attempt = s.nick_generation_attempt + 1;
          })
          whole,
    )

past_digits : (m : ℕ) → 10 ≤ m → get_elem? (codes "0123456789") m ≡ none
past_digits m h = ground arith

digit-at : (m : ℕ) → m < 10 → get_elem? (codes "0123456789") m ≡ some (b'0' + m)
digit-at m h = ground arith

numbered-Asked :
    (s : Nicks) (n : ℕ) (b : Bytes)
    → IsBase b
    → 1 ≤ length b
    → Asked s b (get_elem? (codes "0123456789") n) (ask_nick s (numbered n b))
numbered-Asked s n b k pos = elim (Bool-cases (ltb n 10)) [
  | inl e ↦
      let small : n < 10 = ground arith in
      rw (e, digit-at n small, show-digit n small)
        (ended-Asked s b (b'0' + n) k pos (digit-ok n small))
  | inr e ↦ rw (e, past_digits n (ground arith)) (refl, refl)
]

attempt-Asked :
    (s : Nicks) (attempt : ℕ) (b : Bytes)
    → IsBase b
    → 1 ≤ length b
    → Asked s b (get_elem? endings attempt) (ask_nick s (try_nick attempt b))
attempt-Asked s zero b k pos = ended-Asked s b b'_' k pos refl
attempt-Asked s (suc zero) b k pos = ended-Asked s b b'`' k pos refl
attempt-Asked s (suc (suc zero)) b k pos = ended-Asked s b b'^' k pos refl
attempt-Asked s (suc (suc (suc n))) b k pos =
    let later : n ≡ suc (suc (suc n)) - 3 = omega arith in
    subst (λ (m : ℕ). Asked s b (get_elem? (codes "0123456789") n) (ask_nick s (numbered m b)))
      later (numbered-Asked s n b k pos)

-- Whatever the target nick is, the attempts 0 to 12 ask for what base_from or "bot" begins with `_`, a backquote, `^` and then
-- the digits in turn: each time for a nick that every server takes by RFC 2812 and by the length that the bots
-- keep to, with its ending and not cut; it becomes the current nick, and the next attempt is the one after it.
-- From attempt 13 on nothing is asked for, and the attempts start again.
pub generate_new_nick-Asked :
    (s : Nicks)
    → Asked s
        (or_bot (base_from [] s.target_nick))
        (get_elem? endings s.nick_generation_attempt)
        (generate_new_nick s)
unfolding generate_new_nick rfc_from
generate_new_nick-Asked s =
    let base : Bytes = base_from [] s.target_nick in
    let k : IsBase base =
      base_from-IsBase [] s.target_nick (record { short = omega arith; chars = refl }) in
    let (ok, pos) = or_bot-IsBase base k in
    attempt-Asked s s.nick_generation_attempt (or_bot base) ok pos
