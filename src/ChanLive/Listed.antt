-- ===== src/ChanLive/Listed.antt =====
-- The ban list that src/chanlive.rs keeps of a channel, over all that the server may say.
use ircbot_rs.Prelude.{
  ℕ, ◌≡◌, refl, Bool, true, false, not, Option, none, some, [], ◌∷◌, arith, ◌==◌, if◌then◌else◌,
  if_split, ◌&&◌,
}
use ircbot_rs.Cstr.{Bytes, codes, bytes_eq}
use ircbot_rs.Cstr.Tok.{next, one_space}
use ircbot_rs.State.{Chan, Isupport}
use ircbot_rs.Channel.{live_reset}
use ircbot_rs.ChanLive.Isupport.{ban_cap, is_prefix_mode, mode_has_arg, is_alpha}
use ircbot_rs.ChanLive.Apply.{
  ban_list_end, rank_named, change_key, change_limit, set_limit, change_mode, apply_letters, Args,
  next_args, clear_live, apply, apply_324, open_list, list_ban, chan_numeric, is_some,
  text_or_empty, ts_or_zero,
}
use ircbot_rs.ChanLive.Kept.{IsKept, ban_add-IsKept, change_ban-IsKept}

-- The modes that are no bans.
set_limit-bans : (a : Option Bytes) (c : Chan) → (set_limit a c).bans ≡ c.bans
set_limit-bans none c = refl
set_limit-bans (some a) c = ground arith

rank_named-bans :
    (ch : ℕ) (adding : Bool) (a : Option Bytes) (c : Chan)
    → (rank_named ch adding a c).bans ≡ c.bans
rank_named-bans ch adding none c = refl
rank_named-bans ch adding (some a) c = refl

change_limit-bans :
    (adding : Bool) (a : Option Bytes) (c : Chan) → (change_limit adding a c).bans ≡ c.bans
change_limit-bans true a c = set_limit-bans a c
change_limit-bans false a c = refl

change_key-bans :
    (adding : Bool) (a : Option Bytes) (c : Chan) → (change_key adding a c).bans ≡ c.bans
change_key-bans true a c = refl
change_key-bans false a c = refl

same-IsKept : (c c' : Chan) → c'.bans ≡ c.bans → IsKept c.bans → IsKept c'.bans
same-IsKept c c' e h = rw e h

change_mode-IsKept :
    (is : Isupport) (now : ℕ) (from_324 adding : Bool) (ch : ℕ) (a : Option Bytes) (c : Chan)
    → IsKept c.bans
    → IsKept (change_mode is now from_324 adding ch a c).bans
unfolding change_mode
change_mode-IsKept is now from_324 adding ch a c h =
    let Keeps : Chan → Type 0 = λ c'. IsKept c'.bans in
    if_split Keeps (ch == b'b') _ _ (λ _. change_ban-IsKept is now adding from_324 a c h)
      (λ _.
        if_split Keeps (ch == b'k') _ _
          (λ _. same-IsKept c (change_key adding a c) (change_key-bans adding a c) h)
          (λ _.
            if_split Keeps (ch == b'l') _ _
              (λ _. same-IsKept c (change_limit adding a c) (change_limit-bans adding a c) h)
              (λ _.
                if_split Keeps (is_prefix_mode is ch) _ _
                  (λ _. same-IsKept c (rank_named ch adding a c) (rank_named-bans ch adding a c) h)
                  (λ _.
                    if_split Keeps (not (mode_has_arg is ch adding) && is_alpha ch) _ _ (λ _. h)
                      (λ _. h)))))

apply_letters-IsKept :
    (is : Isupport) (now : ℕ) (from_324 : Bool) (modes : Bytes) (adding : Bool) (args : Args)
    (c : Chan)
    → IsKept c.bans
    → IsKept (apply_letters is now from_324 modes adding args c).bans
unfolding apply_letters
apply_letters-IsKept is now from_324 [] adding args c h = h
apply_letters-IsKept is now from_324 (ch ∷ modes) adding args c h =
    let Keeps : Chan → Type 0 = λ c'. IsKept c'.bans in
    let has_arg : Bool = mode_has_arg is ch adding in
    let a : Option Bytes = if has_arg then args.0 else none in
    let args' : Args = if has_arg then next_args args else args in
    let skipped : Bool = has_arg && not (is_some a) && not (ch == b'k') in
    let changed : Chan = if skipped then c else change_mode is now from_324 adding ch a c in
    if_split Keeps (ch == b'+') _ _ (λ _. apply_letters-IsKept is now from_324 modes true args c h)
      (λ _.
        if_split Keeps (ch == b'-') _ _
          (λ _. apply_letters-IsKept is now from_324 modes false args c h)
          (λ _. apply_letters-IsKept is now from_324 modes adding args' changed (
            if_split Keeps skipped c (change_mode is now from_324 adding ch a c) (λ _. h)
              (λ _. change_mode-IsKept is now from_324 adding ch a c h))))

apply-IsKept :
    (is : Isupport) (now : ℕ) (modes args : Bytes) (from_324 : Bool) (c : Chan)
    → IsKept c.bans
    → IsKept (apply is now modes args from_324 c).bans
unfolding apply
apply-IsKept is now modes args true c h =
    apply_letters-IsKept is now true modes true (next one_space args) (clear_live c) h
apply-IsKept is now modes args false c h =
    apply_letters-IsKept is now false modes true (next one_space args) c h

no_bans-IsKept : IsKept []
no_bans-IsKept = record { masks = tt; single = λ mask. omega arith; few = omega arith }

open_list-IsKept : (c : Chan) → IsKept c.bans → IsKept (open_list c).bans
open_list-IsKept c h = if_split IsKept c.ban_list_open c.bans [] (λ _. h) (λ _. no_bans-IsKept)

list_ban-IsKept :
    (is : Isupport) (p : Option Bytes × Bytes) (c : Chan)
    → IsKept c.bans
    → IsKept (list_ban is p c).bans
unfolding ban_cap
list_ban-IsKept is (none, rest) c h = h
list_ban-IsKept is (some mask, rest) c h =
    let (setter, rest') = next one_space rest in
    ban_add-IsKept (ban_cap is) mask (text_or_empty setter) (ts_or_zero (next one_space rest').0)
      (open_list c) (ground arith) (open_list-IsKept c h)

apply_324-IsKept :
    (is : Isupport) (now : ℕ) (p : Option Bytes × Bytes) (c : Chan)
    → IsKept c.bans
    → IsKept (apply_324 is now p c).bans
apply_324-IsKept is now (none, rest) c h = h
apply_324-IsKept is now (some modes, rest) c h = apply-IsKept is now modes rest true c h

numeric-IsKept :
    (is : Isupport) (now : ℕ) (command rest : Bytes) (c : Chan)
    → IsKept c.bans
    → IsKept (chan_numeric is now command rest c).bans
unfolding chan_numeric ban_list_end
numeric-IsKept is now command rest c h =
    let Keeps : Chan → Type 0 = λ c'. IsKept c'.bans in
    if_split Keeps (bytes_eq command (codes "324")) _ _
      (λ _. apply_324-IsKept is now (next one_space rest) c h)
      (λ _.
        if_split Keeps (bytes_eq command (codes "329")) _ _ (λ _. h)
          (λ _.
            if_split Keeps (bytes_eq command (codes "367")) _ _
              (λ _. list_ban-IsKept is (next one_space rest) c h)
              (λ _.
                if_split Keeps (bytes_eq command (codes "368")) _ _
                  (λ _. if_split IsKept c.ban_list_open c.bans [] (λ _. h) (λ _. no_bans-IsKept))
                  (λ _. h))))

-- What a channel can hear, with the server's picture of that time: a MODE line, a numeric that names
-- it, and the reset when the bot is out.
pub data Heard : Chan → Chan → Type 0 where
  mode :
      (is : Isupport) (now : ℕ) (modes args : Bytes) (c : Chan)
      → Heard c (apply is now modes args false c)
  numeric :
      (is : Isupport) (now : ℕ) (command rest : Bytes) (c : Chan)
      → Heard c (chan_numeric is now command rest c)
  reset : (c : Chan) → Heard c (live_reset c)

pub data AllHeard (c : Chan) : Chan → Type 0 where
  silence : AllHeard c c
  after : {d e : Chan} → AllHeard c d → Heard d e → AllHeard c e

Heard-IsKept : {c d : Chan} → Heard c d → IsKept c.bans → IsKept d.bans
unfolding live_reset
Heard-IsKept (mode is now modes args c) h = apply-IsKept is now modes args false c h
Heard-IsKept (numeric is now command rest c) h = numeric-IsKept is now command rest c h
Heard-IsKept (reset c) h = no_bans-IsKept

-- Whatever MODE lines, ban lists and other numerics the server sends, whole or not and in any order,
-- from a list in order on: each entry of the ban list has 1 to 255 bytes, no two are equal up to
-- case, and there are 200 at the most.
pub AllHeard-IsKept : {c d : Chan} → AllHeard c d → IsKept c.bans → IsKept d.bans
AllHeard-IsKept silence h = h
AllHeard-IsKept (after l s) h = Heard-IsKept s (AllHeard-IsKept l h)
