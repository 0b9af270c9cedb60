-- ===== src/ChanLive/Limited.antt =====
-- The limit, under the changes of src/chanlive.rs's mode_sync.
use ircbot_rs.Prelude.{
  ℕ, ◌+◌, ◌≤◌, ◌≡◌, refl, ap, ◌∙◌, inl, inr, Bool, true, false, not, Option, none, some, [], ◌∷◌,
  arith, length, any, all, ◌==◌, Bool-cases, ◌||◌,
}
use ircbot_rs.Cstr.{Bytes, is_empty}
use ircbot_rs.Cstr.Tok.{is_delim, next, one_space, skip}
use ircbot_rs.ChanCfg.Parse.{show, show_from, is_digit}
use ircbot_rs.ChanCfg.Number.{
  decimal-show_from, digits-show_from, length-show_from, length-show-pos,
}
use ircbot_rs.State.{Chan, Flags, Isupport}
use ircbot_rs.ChanLive.Isupport.{all_digits}
use ircbot_rs.ChanLive.Apply.{set_flag, live_has, change_mode, apply_letters, apply}
use ircbot_rs.ChanLive.Sync.{Wanted, flag_change, limit_change, limit_changes}
use ircbot_rs.ChanLive.Settle.{echo, echo_all, IsUsual, set_flag-same, set_flag-other}
use ircbot_rs.ChanLive.Keyed.{next-whole}

empty_pos : (s : Bytes) → 1 ≤ length s → is_empty s ≡ false
unfolding is_empty
empty_pos [] h = absurd (omega arith)
empty_pos (c ∷ s) h = refl

no_space_digits : (s : Bytes) → all is_digit s ≡ true → any (is_delim one_space) s ≡ false
no_space_digits [] h = refl
no_space_digits (c ∷ s) h = ground (arith, no_space_digits s)

digits_text :
    (s : Bytes)
    → all is_digit s ≡ true
    → 1 ≤ length s
    → length s ≤ 6
    → (all_digits s ≡ true) × (is_empty s ≡ false) × (any (is_delim one_space) s ≡ false)
unfolding all_digits is_empty
digits_text s d pos short = (ground (arith, empty_pos s pos), empty_pos s pos, no_space_digits s d)

echo-limit :
    (is : Isupport) (now n : ℕ) (c : Chan)
    → IsUsual is
    → n ≤ 99999
    → echo is now (limit_change n) c
      ≡ record c { live_flags = set_flag b'l' true c.live_flags; live_limit = n }
unfolding echo apply apply_letters change_mode show
echo-limit is now n c u h =
    let (digits, some_byte, whole) =
      digits_text (show_from (n + 1) n) (digits-show_from (n + 1) n) (length-show-pos n)
        (length-show_from (n + 1) n 5 (omega arith)) in
    rw
      (
        u.limit_arg,
        next-whole (show_from (n + 1) n) some_byte whole,
        digits,
        decimal-show_from (n + 1) n (omega arith),
      )
      refl

echo-no_limit :
    (is : Isupport) (now : ℕ) (c : Chan)
    → IsUsual is
    → echo is now (flag_change false b'l') c
      ≡ record c { live_flags = set_flag b'l' false c.live_flags; live_limit = 0 }
unfolding echo apply apply_letters change_mode next skip
echo-no_limit is now c u = rw u.limit_plain refl

-- The limit after its changes.
pub record Limited (is : Isupport) (now : ℕ) (skip : Bool) (want : Wanted) (c : Chan) : Type 0 where
  pub flags : Flags
  pub limit : ℕ
  pub heard :
      echo_all is now (limit_changes skip want c) c
      ≡ record c { live_flags = flags; live_limit = limit }
  pub done : limit_changes skip want (record c { live_flags = flags; live_limit = limit }) ≡ []
  pub others : (l : ℕ) → (l == b'l') ≡ false → flags l ≡ c.live_flags l

same-Limited :
    (is : Isupport) (now : ℕ) (skip : Bool) (want : Wanted) (c : Chan)
    → limit_changes skip want c ≡ []
    → Limited is now skip want c
unfolding echo_all
same-Limited is now skip want c e = record {
  flags = c.live_flags;
  limit = c.live_limit;
  heard = ap (λ chs. echo_all is now chs c) e;
  done = e;
  others = λ l h. refl;
}

on-Limited :
    (is : Isupport) (now : ℕ) (want : Wanted) (c : Chan)
    → IsUsual is
    → c.live_known ≡ true
    → want.dir b'l' ≡ some true
    → want.limit ≤ 99999
    → limit_changes false want c ≡ limit_change want.limit ∷ []
    → Limited is now false want c
unfolding echo_all limit_changes live_has
on-Limited is now want c u known d small e =
    let same : (want.limit == want.limit) ≡ true = ground arith in
    record {
      flags = set_flag b'l' true c.live_flags;
      limit = want.limit;
      heard = ap (λ chs. echo_all is now chs c) e ∙ echo-limit is now want.limit c u small;
      done = rw (d, known, set_flag-same b'l' true c.live_flags refl, same) refl;
      others = λ l h. set_flag-other b'l' l true c.live_flags h;
    }

off-Limited :
    (is : Isupport) (now : ℕ) (want : Wanted) (c : Chan)
    → IsUsual is
    → c.live_known ≡ true
    → want.dir b'l' ≡ some false
    → limit_changes false want c ≡ flag_change false b'l' ∷ []
    → Limited is now false want c
unfolding echo_all limit_changes live_has
off-Limited is now want c u known d e = record {
  flags = set_flag b'l' false c.live_flags;
  limit = 0;
  heard = ap (λ chs. echo_all is now chs c) e ∙ echo-no_limit is now c u;
  done = rw (d, known) refl;
  others = λ l h. set_flag-other b'l' l false c.live_flags h;
}

limit_dir-Limited :
    (is : Isupport) (now : ℕ) (want : Wanted) (c : Chan) (o : Option Bool)
    → want.dir b'l' ≡ o
    → IsUsual is
    → c.live_known ≡ true
    → (want.dir b'l' ≡ some true → want.limit ≤ 99999)
    → Limited is now false want c
unfolding limit_changes
limit_dir-Limited is now want c none d u known small = same-Limited is now false want c (rw d refl)
limit_dir-Limited is now want c (some true) d u known small =
    elim (Bool-cases
      (not c.live_known || not (live_has c b'l') || not (c.live_limit == want.limit))) [
        | inl differs ↦ on-Limited is now want c u known d (small d) (rw (d, differs) refl)
        | inr same ↦ same-Limited is now false want c (rw (d, same) refl)
      ]
limit_dir-Limited is now want c (some false) d u known small =
    elim (Bool-cases (not c.live_known || live_has c b'l')) [
      | inl on ↦ off-Limited is now want c u known d (rw (d, on) refl)
      | inr off ↦ same-Limited is now false want c (rw (d, off) refl)
    ]

-- The limit is as the stored modes want it once its change is heard.
pub limit-Limited :
    (is : Isupport) (now : ℕ) (skip : Bool) (want : Wanted) (c : Chan)
    → IsUsual is
    → c.live_known ≡ true
    → (want.dir b'l' ≡ some true → want.limit ≤ 99999)
    → Limited is now skip want c
unfolding limit_changes
limit-Limited is now true want c u known small = same-Limited is now true want c refl
limit-Limited is now false want c u known small =
    limit_dir-Limited is now want c _ refl u known small
