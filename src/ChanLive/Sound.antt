-- ===== src/ChanLive/Sound.antt =====
-- Whatever 005 lines a server sends, what src/chanlive.rs keeps of them stays in bounds.
use ircbot_rs.Prelude.{
  ℕ, zero, suc, ◌+◌, ◌-◌, ◌≤◌, ◌<◌, ◌≡◌, refl, ap, Bool, true, false, not, Option, none, some, List,
  [], ◌∷◌, arith, length, take, drop, all, ltb, leb, ◌==◌, if◌then◌else◌, if_split, Option-cases,
  length-drop, All, inl, inr, get_or,
}
use ircbot_rs.Cstr.{Bytes, codes, bytes_eq, find_byte}
use ircbot_rs.Cstr.Trunc.{length-trunc}
use ircbot_rs.Cstr.Tok.{words, one_space}
use ircbot_rs.State.{Isupport, BotState, no_isupport}
use ircbot_rs.Queue.{isupport_modes_max}
use ircbot_rs.ChanLive.Isupport.{
  maxlist, cons_list, list_cap, set_prefix, set_modes, set_nicklen, set_maxlist, set_maxbans,
  put_prefix, put_chanmodes, set_lists, named_token, valued_token, until, is_alpha, mode_lists,
  isupport_token, isupport_tokens, isupport_parse, nicklen, ban_cap, max_member_nick, ban_list_cap,
  at_comma, at_colon, maxlist_entry,
}

pub record IsSound (is : Isupport) : Type 0 where
  pub modes_pos : 1 ≤ is.modes
  pub modes_max : is.modes ≤ isupport_modes_max
  pub paired : length is.prefix_modes ≡ length is.prefix_syms
  pub some_prefix : 1 ≤ length is.prefix_modes
  pub few_prefixes : length is.prefix_modes ≤ 8
  pub letters : all is_alpha is.prefix_modes ≡ true
  pub list_a : length is.cm_a < 64
  pub list_b : length is.cm_b < 64
  pub list_c : length is.cm_c < 64
  pub list_d : length is.cm_d < 64
  pub nick_pos : 1 ≤ is.nicklen

pub no_isupport-IsSound : IsSound no_isupport
no_isupport-IsSound = record {
  modes_pos = omega arith;
  modes_max = omega arith;
  paired = refl;
  some_prefix = omega arith;
  few_prefixes = omega arith;
  letters = refl;
  list_a = omega arith;
  list_b = omega arith;
  list_c = omega arith;
  list_d = omega arith;
  nick_pos = omega arith;
}

set_modes-IsSound :
    (neg : Bool) (val : Bytes) (is : Isupport) → IsSound is → IsSound (set_modes neg val is)
set_modes-IsSound neg val is h = ground arith

set_nicklen-IsSound :
    (neg : Bool) (val : Bytes) (is : Isupport) → IsSound is → IsSound (set_nicklen neg val is)
set_nicklen-IsSound neg val is h = ground arith

length-take : (n : ℕ) (s : Bytes) → n ≤ length s → length (take n s) ≡ n
length-take zero s h = refl
length-take (suc n) [] h = absurd (omega arith)
length-take (suc n) (x ∷ s) h = ap suc (length-take n s (omega arith))

set_prefix-IsSound :
    (val : Bytes) (is : Isupport) (o : Option ℕ)
    → find_byte b')' val ≡ o
    → IsSound is
    → IsSound (set_prefix val is o)
set_prefix-IsSound val is none e h = h
set_prefix-IsSound val is (some close) e h = ground (
  arith,
  length-take (close - 1) (drop 1 val),
  length-drop {0} 1 val,
  length-drop {0} (close + 1) val,
)

-- The lists of a CHANMODES token fit.
abbrev Fit : Option (List Bytes) → Type 0
Fit none = Unit
Fit (some l) = All (λ s. length s < 64) l

cons_list-Fit : (f : Bytes) (o : Option (List Bytes)) → length f < 64 → Fit o → Fit (cons_list f o)
cons_list-Fit f none h k = tt
cons_list-Fit f (some l) h k = (h, k)

length-take-le : (n : ℕ) (s : Bytes) → length (take n s) ≤ n
length-take-le zero s = omega arith
length-take-le (suc n) [] = omega arith
length-take-le (suc n) (x ∷ s) = omega (arith, length-take-le n s)

mode_lists_cut :
    (n c : ℕ) (p : Bytes)
    → Fit (mode_lists n (drop (suc c) p))
    → Fit (if leb list_cap c then none else cons_list (take c p) (mode_lists n (drop (suc c) p)))
mode_lists_cut n c p h =
    if_split Fit (leb list_cap c) none (cons_list (take c p) (mode_lists n (drop (suc c) p)))
      (λ _. tt) (λ e. cons_list-Fit (take c p) _ (ground (arith, length-take-le c p)) h)

mode_lists-Fit : (n : ℕ) (p : Bytes) → Fit (mode_lists n p)
unfolding mode_lists
mode_lists-Fit zero p = (omega (arith, length-trunc (until p (find_byte b',' p)) list_cap), tt)
mode_lists-Fit (suc n) p = elim (Option-cases (find_byte b',' p)) [
  | inl e ↦ rw (mode_lists, e) tt
  | inr (c, e) ↦ rw (mode_lists, e) (mode_lists_cut n c p (mode_lists-Fit n (drop (suc c) p)))
]

set_lists-IsSound :
    (is : Isupport) (o : Option (List Bytes)) → Fit o → IsSound is → IsSound (set_lists is o)
set_lists-IsSound is none f h = h
set_lists-IsSound is (some []) f h = h
set_lists-IsSound is (some (a ∷ [])) f h = h
set_lists-IsSound is (some (a ∷ b ∷ [])) f h = h
set_lists-IsSound is (some (a ∷ b ∷ c ∷ [])) f h = h
set_lists-IsSound is (some (a ∷ b ∷ c ∷ d ∷ l)) f h = ground arith

put_prefix-IsSound :
    (neg : Bool) (val : Bytes) (is : Isupport) → IsSound is → IsSound (put_prefix neg val is)
put_prefix-IsSound true val is h = ground arith
put_prefix-IsSound false val is h =
    if_split IsSound (not (get_or val 0 0 == b'(')) is (set_prefix val is (find_byte b')' val))
      (λ _. h) (λ _. set_prefix-IsSound val is _ refl h)

put_chanmodes-IsSound :
    (neg : Bool) (val : Bytes) (is : Isupport) → IsSound is → IsSound (put_chanmodes neg val is)
put_chanmodes-IsSound true val is h = h
put_chanmodes-IsSound false val is h = set_lists-IsSound is _ (mode_lists-Fit 3 val) h

set_maxlist-IsSound :
    (neg : Bool) (val : Bytes) (is : Isupport) → IsSound is → IsSound (set_maxlist neg val is)
set_maxlist-IsSound neg val is h = ground arith

set_maxbans-IsSound : (val : Bytes) (is : Isupport) → IsSound is → IsSound (set_maxbans val is)
set_maxbans-IsSound val is h = ground arith

named_token-IsSound :
    (neg : Bool) (name val : Bytes) (is : Isupport)
    → IsSound is
    → IsSound (named_token neg name val is)
named_token-IsSound neg name val is h =
    if_split IsSound (bytes_eq name (codes "MODES")) _ _ (λ _. set_modes-IsSound neg val is h)
      (λ _.
        if_split IsSound (bytes_eq name (codes "MAXLIST")) _ _
          (λ _. set_maxlist-IsSound neg val is h)
          (λ _.
            if_split IsSound (bytes_eq name (codes "MAXBANS")) _ _
              (λ _. set_maxbans-IsSound val is h)
              (λ _.
                if_split IsSound (bytes_eq name (codes "NICKLEN")) _ _
                  (λ _. set_nicklen-IsSound neg val is h)
                  (λ _.
                    if_split IsSound (bytes_eq name (codes "PREFIX")) _ _
                      (λ _. put_prefix-IsSound neg val is h)
                      (λ _.
                        if_split IsSound (bytes_eq name (codes "CHANMODES")) _ _
                          (λ _. put_chanmodes-IsSound neg val is h) (λ _. h))))))

valued_token-IsSound :
    (neg : Bool) (tok : Bytes) (o : Option ℕ) (is : Isupport)
    → IsSound is
    → IsSound (valued_token neg tok o is)
valued_token-IsSound neg tok none is h = named_token-IsSound neg tok [] is h
valued_token-IsSound neg tok (some e) is h =
    named_token-IsSound neg (take e tok) (drop (e + 1) tok) is h

isupport_token-IsSound :
    (tok : Bytes) (is : Isupport) → IsSound is → IsSound (isupport_token tok is)
unfolding isupport_token
isupport_token-IsSound tok is h = valued_token-IsSound _ _ _ is h

isupport_tokens-IsSound :
    (toks : List Bytes) (is : Isupport) → IsSound is → IsSound (isupport_tokens toks is)
unfolding isupport_tokens
isupport_tokens-IsSound [] is h = h
isupport_tokens-IsSound (tok ∷ toks) is h =
    let is' : Isupport = if ltb (length tok) 120 then isupport_token tok is else is in
    let h' : IsSound is' =
      if_split IsSound (ltb (length tok) 120) (isupport_token tok is) is
        (λ _. isupport_token-IsSound tok is h) (λ _. h) in
    if_split IsSound (get_or tok 0 0 == b':') is (isupport_tokens toks is') (λ _. h)
      (λ _. isupport_tokens-IsSound toks is' h')

-- What a sound picture makes of nicks and ban lists.
pub record InBounds (is : Isupport) : Type 0 where
  pub sound : IsSound is
  pub nick_pos : 1 ≤ nicklen is
  pub nick_max : nicklen is < max_member_nick
  pub bans_pos : 1 ≤ ban_cap is
  pub bans_max : ban_cap is ≤ ban_list_cap

IsSound-InBounds : (is : Isupport) → IsSound is → InBounds is
unfolding nicklen ban_cap
IsSound-InBounds is s = record {
  sound = s;
  nick_pos = ground (arith, s.nick_pos);
  nick_max = ground arith;
  bans_pos = ground arith;
  bans_max = ground arith;
}

-- Two loops that agree on what is shorter.
at_comma-same :
    (rest : Bytes) (v bound : ℕ) (o : Option ℕ) (more more' : Bytes → ℕ → ℕ)
    → length rest ≤ bound
    → ((r : Bytes) (n : ℕ) → length r ≤ bound → more r n ≡ more' r n)
    → at_comma rest v o more ≡ at_comma rest v o more'
at_comma-same rest v bound none more more' h same = refl
at_comma-same rest v bound (some e) more more' h same =
    same (drop (suc e) rest) v (omega (arith, length-drop {0} (suc e) rest))

at_colon-same :
    (p : Bytes) (old bound : ℕ) (o : Option ℕ) (more more' : Bytes → ℕ → ℕ)
    → length p ≤ suc bound
    → ((r : Bytes) (n : ℕ) → length r ≤ bound → more r n ≡ more' r n)
    → at_colon p old o more ≡ at_colon p old o more'
at_colon-same p old bound none more more' h same = refl
at_colon-same p old bound (some colon) more more' h same =
    let rest : Bytes = drop (suc colon) p in
    let comma : Option ℕ = find_byte b',' rest in
    at_comma-same rest (maxlist_entry (take colon p) (until rest comma) old) bound comma more more'
      (omega (arith, length-drop {0} (suc colon) p)) same

-- A round of `maxlist` takes a byte at the least, so that its fuel, the length, is enough.
maxlist_enough :
    (fuel : ℕ) (p : Bytes) (old : ℕ)
    → length p ≤ fuel
    → maxlist (suc fuel) p old ≡ maxlist fuel p old
unfolding maxlist
maxlist_enough zero [] old h = refl
maxlist_enough zero (c ∷ p) old h = absurd (omega arith)
maxlist_enough (suc fuel) p old h =
    at_colon-same p old fuel (find_byte b':' p) _ _ h (λ r n short. maxlist_enough fuel r n short)

-- Whatever a server says in a 005 line, from a picture in bounds on: 1 to 12 changes per MODE line, 1 to
-- 8 prefix letters with as many symbols, the lists of modes below 64 bytes each, nicks of 1 to 31
-- bytes and ban lists of 1 to 200 entries; and the queue packs by that number of changes.
pub isupport_parse-InBounds :
    (params : Bytes) (st : BotState)
    → IsSound st.isup
    → InBounds (isupport_parse params st).isup
      × ((isupport_parse params st).output.isup_modes ≡ (isupport_parse params st).isup.modes)
unfolding isupport_parse
isupport_parse-InBounds params st h =
    let toks : List Bytes = drop 1 (words (suc (length params)) one_space params) in
    (IsSound-InBounds _ (isupport_tokens-IsSound toks st.isup h), refl)
