-- ===== src/Enforce/Covers.antt =====
-- Every ban mask that src/chanenf.rs makes matches the host that it is made of.
use mathlib.Core.Path.{subst}
use ircbot_rs.Prelude.{
  ℕ, zero, suc, ◌+◌, ◌-◌, ◌%◌, ◌≤◌, ◌≡◌, refl, sym, ap, ◌∙◌, inl, inr, true, not, ◌&&◌, ◌||◌,
  Option, none, some, [], ◌∷◌, ◌++◌, arith, ltb, leb, ◌==◌, if_split, length, take, drop,
  Bool-cases, succ?, drop-drop,
}
use ircbot_rs.Cstr.{Bytes, codes, is_empty, find_byte}
use ircbot_rs.Glob.Pattern.{Matches, done, one, byte_ok_refl}
use ircbot_rs.Auth.{max_mask_len}
use ircbot_rs.ChanCfg.Bans.{ban_mask_max}
use ircbot_rs.ChanLive.Isupport.{max_member_nick}
use ircbot_rs.Enforce.Masks.{
  widen_v6, scan_v4, widen_v4, scan_labels, behind_dot, widen_name, widen_host, all_in, strip_tilde,
  nick_part, user_part, host_part, mask_of, short_mask, mask_pieces, mask_cut, mask_bang, ban_mask,
  is_literal, starts, contains,
}

Matches-self : (s : Bytes) → Matches s s
Matches-self [] = done
Matches-self (c ∷ s) = elim (Bool-cases (c == b'*')) [
  | inl e ↦
      let star : c ≡ b'*' = ground arith in Matches.take star (Matches.skip star (Matches-self s))
  | inr e ↦ one (ground arith) (byte_ok_refl c) (Matches-self s)
]

Matches-append : {p q s t : Bytes} → Matches p s → Matches q t → Matches (p ++ q) (s ++ t)
Matches-append done k = k
Matches-append (one n h d) k = one n h (Matches-append d k)
Matches-append (Matches.skip e d) k = Matches.skip e (Matches-append d k)
Matches-append (Matches.take e d) k = Matches.take e (Matches-append d k)

-- A star takes any text.
star-any : (s : Bytes) → Matches (b'*' ∷ []) s
star-any [] = Matches.skip refl done
star-any (c ∷ s) = Matches.take refl (star-any s)

take-drop : (n : ℕ) (s : Bytes) → take n s ++ drop n s ≡ s
take-drop zero s = refl
take-drop (suc n) [] = refl
take-drop (suc n) (c ∷ s) = ap (λ t. c ∷ t) (take-drop n s)

front-star : (n : ℕ) (s : Bytes) → Matches (take n s ++ b'*' ∷ []) s
front-star n s =
    subst (λ t. Matches (take n s ++ b'*' ∷ []) t) (take-drop n s)
      (Matches-append (Matches-self (take n s)) (star-any (drop n s)))

star-back : (n : ℕ) (s : Bytes) → Matches (b'*' ∷ drop n s) s
star-back n s =
    subst (λ t. Matches (b'*' ∷ drop n s) t) (take-drop n s)
      (Matches-append (star-any (take n s)) (Matches-self (drop n s)))

widen_v6-Covers :
    (host : Bytes) (i colons : ℕ) (s : Bytes) → Matches (widen_v6 host i colons s) host
unfolding widen_v6
widen_v6-Covers host i colons [] = Matches-self host
widen_v6-Covers host i colons (c ∷ s) =
    let Hits : Bytes → Type 0 = λ m. Matches m host in
    if_split Hits (not (c == b':')) (widen_v6 host (suc i) colons s) _
      (λ _. widen_v6-Covers host (suc i) colons s)
      (λ _.
        if_split Hits (ltb (suc colons) 4 && starts b':' s) host _ (λ _. Matches-self host)
          (λ _.
            if_split Hits (suc colons == 4) _ (widen_v6 host (suc i) (suc colons) s)
              (λ _.
                if_split Hits (ltb (max_mask_len - 1) (i + 2)) host (take (suc i) host ++ b'*' ∷ [])
                  (λ _. Matches-self host) (λ _. front-star (suc i) host))
              (λ _. widen_v6-Covers host (suc i) (suc colons) s)))

widen_v4-Covers : (host : Bytes) (o : Option (ℕ × ℕ × ℕ)) → Matches (widen_v4 host o) host
widen_v4-Covers host none = Matches-self host
widen_v4-Covers host (some (dots, last, seg)) =
    if_split (λ m. Matches m host)
      (not (dots == 3) || seg == 0 || ltb 3 seg || ltb (max_mask_len - 1) (last + 2)) host
      (take (suc last) host ++ b'*' ∷ []) (λ _. Matches-self host) (λ _. front-star (suc last) host)

behind_dot-Covers : (host : Bytes) (o : Option ℕ) → Matches (behind_dot host o) host
behind_dot-Covers host none = Matches-self host
behind_dot-Covers host (some d) = star-back d host

widen_name-Covers : (host : Bytes) (o : Option ℕ) → Matches (widen_name host o) host
widen_name-Covers host none = Matches-self host
widen_name-Covers host (some labels) =
    if_split (λ m. Matches m host) (ltb labels 3) host (behind_dot host (find_byte b'.' host))
      (λ _. Matches-self host) (λ _. behind_dot-Covers host (find_byte b'.' host))

widen_host-Covers : (host : Bytes) → Matches (widen_host host) host
unfolding widen_host
widen_host-Covers host =
    let Hits : Bytes → Type 0 = λ m. Matches m host in
    if_split Hits (contains b'/' host) host _ (λ _. Matches-self host)
      (λ _.
        if_split Hits (contains b':' host) _ _
          (λ _.
            if_split Hits (not (all_in host (codes "0123456789abcdefABCDEF:."))) host
              (widen_v6 host 0 0 host) (λ _. Matches-self host)
              (λ _. widen_v6-Covers host 0 0 host))
          (λ _.
            if_split Hits (all_in host (codes "0123456789.")) (widen_v4 host (scan_v4 0 0 0 0 host))
              (widen_name host (scan_labels true 1 host))
              (λ _. widen_v4-Covers host (scan_v4 0 0 0 0 host))
              (λ _. widen_name-Covers host (scan_labels true 1 host))))

host_part-Covers : (typ : ℕ) (host : Bytes) → Matches (host_part typ host) host
host_part-Covers typ host =
    if_split (λ m. Matches m host) (typ == 3 || typ == 4 || typ == 8 || typ == 9) (widen_host host)
      host (λ _. widen_host-Covers host) (λ _. Matches-self host)

nick_part-Covers : (typ : ℕ) (nick : Bytes) → Matches (nick_part typ nick) nick
nick_part-Covers typ nick =
    if_split (λ m. Matches m nick) (leb 5 typ) nick (b'*' ∷ []) (λ _. Matches-self nick)
      (λ _. star-any nick)

tilde-Covers : (user : Bytes) → Matches (b'*' ∷ strip_tilde user) user
tilde-Covers [] = Matches.skip refl done
tilde-Covers (c ∷ s) =
    if_split (λ m. Matches (b'*' ∷ m) (c ∷ s)) (c == b'~') s (c ∷ s)
      (λ _. Matches.take refl (Matches.skip refl (Matches-self s)))
      (λ _. Matches.skip refl (Matches-self (c ∷ s)))

user_part-Covers : (typ : ℕ) (user : Bytes) → Matches (user_part typ user) user
user_part-Covers typ user =
    let Hits : Bytes → Type 0 = λ m. Matches m user in
    if_split Hits (typ % 5 == 0) user _ (λ _. Matches-self user)
      (λ _.
        if_split Hits (typ % 5 == 1 || typ % 5 == 3) (b'*' ∷ strip_tilde user) (b'*' ∷ [])
          (λ _. tilde-Covers user) (λ _. star-any user))

mask_of-Covers :
    (typ : ℕ) (nick user host : Bytes)
    → Matches (mask_of typ nick user host) (nick ++ b'!' ∷ (user ++ b'@' ∷ host))
mask_of-Covers typ nick user host = Matches-append (nick_part-Covers typ nick) (
    one (ground arith) (byte_ok_refl b'!') (
      Matches-append (user_part-Covers typ user)
        (one (ground arith) (byte_ok_refl b'@') (host_part-Covers typ host))))

-- A text around the first byte of a kind.
cut-at :
    (x : ℕ) (s : Bytes) (i : ℕ)
    → find_byte x s ≡ some i
    → (drop i s ≡ x ∷ drop (suc i) s) × (s ≡ take i s ++ x ∷ drop (suc i) s)
cut-at x [] i h = ground arith
cut-at x (c ∷ s) zero h =
    let same : c ≡ x = ground arith in (ap (λ y. y ∷ s) same, ap (λ y. y ∷ s) same)
cut-at x (c ∷ s) (suc i) h =
    let (front, whole) = cut-at x s i (ground arith) in (front, ap (λ t. c ∷ t) whole)

succ-some : (o : Option ℕ) (i : ℕ) → succ? o ≡ some (suc i) → o ≡ some i
succ-some none i h = ground arith
succ-some (some j) i h = ground arith

found_behind :
    (rest : Bytes) (at : ℕ)
    → find_byte b'@' (b'!' ∷ rest) ≡ some (suc at)
    → find_byte b'@' rest ≡ some at
found_behind rest at h = succ-some (find_byte b'@' rest) at h

nuh_parts :
    (nuh : Bytes) (bang at : ℕ)
    → find_byte b'!' nuh ≡ some bang
    → find_byte b'@' (drop bang nuh) ≡ some at
    → 2 ≤ at
    → nuh
      ≡ take bang nuh
        ++ b'!' ∷ (take (at - 1) (drop (suc bang) nuh) ++ b'@' ∷ drop (suc (bang + at)) nuh)
nuh_parts nuh bang zero b a h = absurd (omega arith)
nuh_parts nuh bang (suc at) b a h =
    let rest : Bytes = drop (suc bang) nuh in
    let (front, whole) = cut-at b'!' nuh bang b in
    let behind : find_byte b'@' rest ≡ some at =
      found_behind rest at (ap (find_byte b'@') (sym front) ∙ a) in
    let (_, inner) = cut-at b'@' rest at behind in
    let place : suc (at + suc bang) ≡ suc (bang + suc at) = omega arith in
    let host : drop (suc at) rest ≡ drop (suc (bang + suc at)) nuh =
      drop-drop (suc bang) at nuh ∙ ap (λ (n : ℕ). drop n nuh) place in
    let back : at ≡ suc at - 1 = omega arith in
    whole
    ∙ ap (λ t. take bang nuh ++ b'!' ∷ t)
        (inner
          ∙ ap (λ t. take at rest ++ b'@' ∷ t) host
          ∙ ap (λ (n : ℕ). take n rest ++ b'@' ∷ drop (suc (bang + suc at)) nuh) back)

-- What an answer says of the host.
abbrev pub Good : Bytes → Option Bytes → Type 0
Good nuh none = Unit
Good nuh (some m) = Matches m nuh × (length m ≤ ban_mask_max)

pieces-Good :
    (typ : ℕ) (nuh nick user host : Bytes)
    → nuh ≡ nick ++ b'!' ∷ (user ++ b'@' ∷ host)
    → Good nuh (mask_pieces typ nick user host)
pieces-Good typ nuh nick user host e =
    let out : Bytes = mask_of typ nick user host in
    let hits : Matches out nuh =
      subst (λ t. Matches out t) (sym e) (mask_of-Covers typ nick user host) in
    if_split (Good nuh)
      (is_empty nick
        || leb max_member_nick (length nick)
        || is_empty user
        || leb 64 (length user)
        || is_empty host
        || leb max_mask_len (length host))
      none _ (λ _. tt)
      (λ _.
        if_split (Good nuh)
          (not (is_literal nick) || not (is_literal user) || not (is_literal host)) none
          (short_mask out) (λ _. tt)
          (λ _.
            if_split (Good nuh) (leb (length out) ban_mask_max) (some out) none
              (λ short. (hits, ground arith)) (λ _. tt)))

cut-Good :
    (typ : ℕ) (nuh : Bytes) (bang : ℕ) (o : Option ℕ)
    → find_byte b'!' nuh ≡ some bang
    → find_byte b'@' (drop bang nuh) ≡ o
    → Good nuh (mask_cut typ nuh bang o)
cut-Good typ nuh bang none b a = tt
cut-Good typ nuh bang (some at) b a =
    if_split (Good nuh) (ltb at 2) none _ (λ _. tt)
      (λ far. pieces-Good typ nuh _ _ _ (nuh_parts nuh bang at b a (ground arith)))

bang-Good :
    (typ : ℕ) (nuh : Bytes) (o : Option ℕ) → find_byte b'!' nuh ≡ o → Good nuh (mask_bang typ nuh o)
bang-Good typ nuh none b = tt
bang-Good typ nuh (some bang) b = cut-Good typ nuh bang _ b refl

-- A ban mask of any type, widened or not, matches the nick!user@host that it is made of, and has at
-- most 120 bytes.
pub ban_mask-Good : (typ : ℕ) (nuh : Bytes) → Good nuh (ban_mask typ nuh)
unfolding ban_mask
ban_mask-Good typ nuh =
    if_split (Good nuh) (ltb 9 typ) none (mask_bang typ nuh (find_byte b'!' nuh)) (λ _. tt)
      (λ _. bang-Good typ nuh _ refl)
