-- ===== src/ChanLive/Keyed.antt =====
-- The key, under the changes of src/chanlive.rs's mode_sync.
use ircbot_rs.Prelude.{
  ℕ, ◌<◌, ◌≡◌, refl, ap, ◌∙◌, inl, inr, Bool, true, false, not, Option, none, some, [], ◌∷◌, arith,
  length, any, position, ◌==◌, Bool-cases, ◌&&◌, ◌||◌,
}
use ircbot_rs.Cstr.{Bytes, bytes_eq, is_empty}
use ircbot_rs.Cstr.Case.{bytes_eq_refl}
use ircbot_rs.Cstr.Trunc.{trunc-short}
use ircbot_rs.Cstr.Tok.{is_delim, next, one_space, skip}
use ircbot_rs.State.{Chan, Flags, Isupport}
use ircbot_rs.Channel.Access.{max_key}
use ircbot_rs.ChanLive.Apply.{is_some, set_flag, live_has, change_mode, apply_letters, apply}
use ircbot_rs.ChanLive.Sync.{key_change, is_usable_key, is_shown, key_changes}
use ircbot_rs.ChanLive.Settle.{echo, echo_all, IsUsual, set_flag-same, set_flag-other}

position-absent : (p : ℕ → Bool) (s : Bytes) → any p s ≡ false → position p s ≡ none
position-absent p [] h = refl
position-absent p (c ∷ s) h = ground (arith, position-absent p s)

no_space :
    (s : Bytes)
    → any (λ c. c == b' ' || c == b',' || c == b'\r' || c == b'\n' || c == b'\t') s ≡ false
    → any (is_delim one_space) s ≡ false
no_space [] h = refl
no_space (c ∷ s) h = ground (arith, no_space s)

-- A text without a space is one token.
pub next-whole :
    (s : Bytes)
    → is_empty s ≡ false
    → any (is_delim one_space) s ≡ false
    → next one_space s ≡ (some s, [])
unfolding next skip is_empty
next-whole [] e h = ground arith
next-whole (c ∷ s) e h = ground (arith, position-absent (is_delim one_space) (c ∷ s))

and_false : (b : Bool) → (b && false) ≡ false
and_false true = refl
and_false false = refl

echo-key_off :
    (is : Isupport) (now : ℕ) (a : Bytes) (c : Chan)
    → IsUsual is
    → echo is now (key_change false a) c
      ≡ record c { live_flags = set_flag b'k' false c.live_flags; live_key = [] }
unfolding echo apply apply_letters change_mode
echo-key_off is now a c u =
    rw (u.key_arg false, and_false (not (is_some (next one_space a).0))) refl

echo-key_on :
    (is : Isupport) (now : ℕ) (c : Chan)
    → IsUsual is
    → is_usable_key c.key ≡ true
    → length c.key < max_key
    → echo is now (key_change true c.key) c
      ≡ record c { live_flags = set_flag b'k' true c.live_flags; live_key = c.key }
unfolding echo apply apply_letters change_mode is_usable_key
echo-key_on is now c u h short =
    let key : Bytes = c.key in
    rw
      (
        u.key_arg true,
        next-whole key (ground arith) (no_space key (ground arith)),
        trunc-short key max_key short,
      )
      refl

-- The key after its changes.
pub record Keyed (is : Isupport) (now : ℕ) (dir : Option Bool) (c : Chan) : Type 0 where
  pub flags : Flags
  pub key : Bytes
  pub heard :
      echo_all is now (key_changes dir c) c ≡ record c { live_flags = flags; live_key = key }
  pub done : key_changes dir (record c { live_flags = flags; live_key = key }) ≡ []
  pub others : (l : ℕ) → (l == b'k') ≡ false → flags l ≡ c.live_flags l

key_off-Keyed :
    (is : Isupport) (now : ℕ) (dir : Option Bool) (c : Chan)
    → IsUsual is
    → key_changes dir c ≡ key_change false c.live_key ∷ []
    → dir ≡ some false
    → Keyed is now dir c
unfolding echo_all key_changes live_has
key_off-Keyed is now dir c u e d = record {
  flags = set_flag b'k' false c.live_flags;
  key = [];
  heard = ap (λ chs. echo_all is now chs c) e ∙ echo-key_off is now c.live_key c u;
  done = rw d (rw (set_flag-same b'k' false c.live_flags refl, and_false c.live_known) refl);
  others = λ l h. set_flag-other b'k' l false c.live_flags h;
}

same-Keyed :
    (is : Isupport) (now : ℕ) (dir : Option Bool) (c : Chan)
    → key_changes dir c ≡ []
    → Keyed is now dir c
unfolding echo_all
same-Keyed is now dir c e = record {
  flags = c.live_flags;
  key = c.live_key;
  heard = ap (λ chs. echo_all is now chs c) e;
  done = e;
  others = λ l h. refl;
}

-- The new key is set: nothing is left to do.
key_set :
    (c : Chan) (f : Flags)
    → c.live_known ≡ true
    → is_usable_key c.key ≡ true
    → f b'k' ≡ true
    → key_changes (some true) (record c { live_flags = f; live_key = c.key }) ≡ []
unfolding key_changes live_has
key_set c f known usable on = rw (usable, known, on, bytes_eq_refl c.key) refl

key_on-Keyed :
    (is : Isupport) (now : ℕ) (c : Chan)
    → IsUsual is
    → c.live_known ≡ true
    → is_usable_key c.key ≡ true
    → length c.key < max_key
    → key_changes (some true) c ≡ key_change true c.key ∷ []
    → Keyed is now (some true) c
unfolding echo_all
key_on-Keyed is now c u known usable short e = record {
  flags = set_flag b'k' true c.live_flags;
  key = c.key;
  heard = ap (λ chs. echo_all is now chs c) e ∙ echo-key_on is now c u usable short;
  done =
      key_set c (set_flag b'k' true c.live_flags) known usable
        (set_flag-same b'k' true c.live_flags refl);
  others = λ l h. set_flag-other b'k' l true c.live_flags h;
}

key_swap-Keyed :
    (is : Isupport) (now : ℕ) (c : Chan)
    → IsUsual is
    → c.live_known ≡ true
    → is_usable_key c.key ≡ true
    → length c.key < max_key
    → key_changes (some true) c ≡ key_change false c.live_key ∷ key_change true c.key ∷ []
    → Keyed is now (some true) c
unfolding echo_all
key_swap-Keyed is now c u known usable short e =
    let bare : Chan = record c { live_flags = set_flag b'k' false c.live_flags; live_key = [] } in
    record {
      flags = set_flag b'k' true bare.live_flags;
      key = c.key;
      heard =
          ap (λ chs. echo_all is now chs c) e
          ∙ ap (λ d. echo is now (key_change true c.key) d) (echo-key_off is now c.live_key c u)
          ∙ echo-key_on is now bare u usable short;
      done =
          key_set c (set_flag b'k' true bare.live_flags) known usable
            (set_flag-same b'k' true bare.live_flags refl);
      others = λ l h.
          set_flag-other b'k' l true bare.live_flags h ∙ set_flag-other b'k' l false c.live_flags h;
    }

wanted_key-Keyed :
    (is : Isupport) (now : ℕ) (c : Chan)
    → IsUsual is
    → c.live_known ≡ true
    → is_usable_key c.key ≡ true
    → length c.key < max_key
    → Keyed is now (some true) c
unfolding key_changes
wanted_key-Keyed is now c u known usable short =
    elim (Bool-cases
      (not c.live_known || not (live_has c b'k') || not (bytes_eq c.live_key c.key))) [
        | inl differs ↦ elim (Bool-cases (is_shown c && not (bytes_eq c.live_key c.key))) [
          | inl old ↦ key_swap-Keyed is now c u known usable short (rw (usable, differs, old) refl)
          | inr hidden ↦
              key_on-Keyed is now c u known usable short (rw (usable, differs, hidden) refl)
        ]
        | inr same ↦ same-Keyed is now (some true) c (rw (usable, same) refl)
      ]

-- The key is as the stored modes want it once its changes are heard.
pub key-Keyed :
    (is : Isupport) (now : ℕ) (dir : Option Bool) (c : Chan)
    → IsUsual is
    → c.live_known ≡ true
    → length c.key < max_key
    → Keyed is now dir c
unfolding key_changes
key-Keyed is now none c u known short = same-Keyed is now none c refl
key-Keyed is now (some true) c u known short = elim (Bool-cases (is_usable_key c.key)) [
  | inl usable ↦ wanted_key-Keyed is now c u known usable short
  | inr left ↦ same-Keyed is now (some true) c (rw left refl)
]
key-Keyed is now (some false) c u known short = elim (Bool-cases (c.live_known && is_shown c)) [
  | inl shown ↦ key_off-Keyed is now (some false) c u (rw shown refl) refl
  | inr left ↦ same-Keyed is now (some false) c (rw left refl)
]
