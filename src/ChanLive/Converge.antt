-- ===== src/ChanLive/Converge.antt =====
-- The MODE lines of src/chanlive.rs's mode_sync, once the server says them back, are enough.
use mathlib.Core.Path.{subst}
use ircbot_rs.Prelude.{
  ℕ, ◌≤◌, ◌<◌, ◌≡◌, refl, sym, ap, ◌∙◌, Bool, true, false, Option, none, some, List, [], ◌∷◌, ◌++◌,
  arith, length, leb, if_split,
}
use ircbot_rs.Cstr.{Bytes}
use ircbot_rs.Cstr.Tok.{next, one_space}
use ircbot_rs.State.{Chan, Flags, Isupport}
use ircbot_rs.Channel.Access.{max_key}
use ircbot_rs.ChanLive.Isupport.{has_byte}
use ircbot_rs.ChanLive.Apply.{live_has}
use ircbot_rs.ChanLive.Sync.{
  Wanted, ModeChange, flag_changes, flag_letters, all_flag_changes, key_changes, limit_changes,
  changes, wanted, read_dirs, is_plus, limit_of, with_limit, wanted_of, wanted_from,
}
use ircbot_rs.ChanLive.Settle.{
  echo_all, echo_all-append, IsUsual, Flagged, all-Flagged, IsFlag, has_byte-IsFlag,
}
use ircbot_rs.ChanLive.Keyed.{Keyed, key-Keyed}
use ircbot_rs.ChanLive.Limited.{Limited, limit-Limited}

-- What the changes depend on.
key_changes-cong :
    (dir : Option Bool) (c : Chan) (f g : Flags) (n : ℕ)
    → f b'k' ≡ g b'k'
    → key_changes dir (record c { live_flags = f; live_limit = n })
      ≡ key_changes dir (record c { live_flags = g })
unfolding key_changes live_has
key_changes-cong none c f g n e = refl
key_changes-cong (some true) c f g n e = rw e refl
key_changes-cong (some false) c f g n e = rw e refl

limit_changes-cong :
    (skip : Bool) (want : Wanted) (c : Chan) (f g : Flags) (key : Bytes) (o : Option Bool)
    → want.dir b'l' ≡ o
    → f b'l' ≡ g b'l'
    → limit_changes skip want (record c { live_flags = f; live_key = key })
      ≡ limit_changes skip want (record c { live_flags = g })
unfolding limit_changes live_has
limit_changes-cong true want c f g key o d e = refl
limit_changes-cong false want c f g key none d e = rw d refl
limit_changes-cong false want c f g key (some true) d e = rw (d, e) refl
limit_changes-cong false want c f g key (some false) d e = rw (d, e) refl

flag_done :
    (known has : Bool) (l : ℕ) (o : Option Bool)
    → known ≡ true
    → ((d : Bool) → o ≡ some d → has ≡ d)
    → flag_changes known has l o ≡ []
flag_done known has l none k h = refl
flag_done known has l (some true) k h = rw (k, h true refl) refl
flag_done known has l (some false) k h = rw (k, h false refl) refl

flags_done :
    (want : Wanted) (c : Chan) (ls : Bytes)
    → c.live_known ≡ true
    → ((l : ℕ) (d : Bool) → has_byte l ls ≡ true → want.dir l ≡ some d → live_has c l ≡ d)
    → all_flag_changes want c ls ≡ []
unfolding all_flag_changes
flags_done want c [] known h = refl
flags_done want c (l ∷ ls) known h =
    let rest : all_flag_changes want c ls ≡ [] =
      flags_done want c ls known (λ x d m. h x d (ground arith)) in
    ap (λ xs. xs ++ all_flag_changes want c ls)
      (flag_done c.live_known (live_has c l) l (want.dir l) known (λ d. h l d (ground arith)))
    ∙ rest

-- The limit that the stored modes name fits.
limit_of-le : (a : Option Bytes) (n : ℕ) → limit_of a ≡ some n → n ≤ 99999
limit_of-le none n h = ground arith
limit_of-le (some a) n h = ground arith

abbrev limit_in : Option Wanted → ℕ
limit_in none = 0
limit_in (some want) = want.limit

with_limit-le :
    (dir : ℕ → Option Bool) (a : Option Bytes) (o : Option ℕ)
    → limit_of a ≡ o
    → limit_in (with_limit dir o) ≤ 99999
with_limit-le dir a none e = omega arith
with_limit-le dir a (some n) e = limit_of-le a n e

wanted_of-le : (a : Option Bytes) (o : Option (ℕ → Option Bool)) → limit_in (wanted_of a o) ≤ 99999
wanted_of-le a none = omega arith
wanted_of-le a (some dir) =
    if_split (λ o. limit_in o ≤ 99999) (is_plus (dir b'l')) (with_limit dir (limit_of a)) _
      (λ _. with_limit-le dir a _ refl) (λ _. omega arith)

wanted_from-le : (p : Option Bytes × Bytes) → limit_in (wanted_from p) ≤ 99999
wanted_from-le (none, rest) = omega arith
wanted_from-le (some letters, rest) =
    wanted_of-le (next one_space rest).0 (read_dirs letters true (λ l. none))

wanted-le : (spec : Bytes) (want : Wanted) → wanted spec ≡ some want → want.limit ≤ 99999
unfolding wanted
wanted-le spec want h =
    let le : limit_in (wanted spec) ≤ 99999 =
      if_split (λ o. limit_in o ≤ 99999) (leb 128 (length spec)) none
        (wanted_from (next one_space spec)) (λ _. omega arith)
        (λ _. wanted_from-le (next one_space spec)) in
    subst (λ o. limit_in o ≤ 99999) h le

-- The channel after the changes of the flags, the key and the limit, each heard before the next.
module _ (is : Isupport) (now : ℕ) (skip : Bool) (want : Wanted) (c : Chan)
    (a : Flagged is now (all_flag_changes want c flag_letters) c c.live_flags want.dir flag_letters)
    (k : Keyed is now (want.dir b'k') (record c { live_flags = a.after }))
    (l : Limited is now skip want (record c { live_flags = k.flags; live_key = k.key })) where
  abbrev last : Chan
  last = record c { live_flags = l.flags; live_key = k.key; live_limit = l.limit }

  changes_heard : echo_all is now (changes skip want c) c ≡ last
  unfolding changes
  changes_heard =
      let A : List ModeChange = all_flag_changes want c flag_letters in
      let K : List ModeChange = key_changes (want.dir b'k') c in
      let L : List ModeChange = limit_changes skip want c in
      let c1 : Chan = record c { live_flags = a.after } in
      let c2 : Chan = record c { live_flags = k.flags; live_key = k.key } in
      let same_key : K ≡ key_changes (want.dir b'k') c1 =
        key_changes-cong (want.dir b'k') c c.live_flags a.after c.live_limit
          (sym (a.others b'k' refl)) in
      let same_limit : L ≡ limit_changes skip want c2 = sym (
        limit_changes-cong skip want c k.flags c.live_flags k.key _ refl
          (k.others b'l' refl ∙ a.others b'l' refl)) in
      echo_all-append is now A (K ++ L) c
      ∙ ap (echo_all is now (K ++ L)) a.heard
      ∙ echo_all-append is now K L c1
      ∙ ap (λ chs. echo_all is now L (echo_all is now chs c1)) same_key
      ∙ ap (echo_all is now L) k.heard
      ∙ ap (λ chs. echo_all is now chs c2) same_limit
      ∙ l.heard

  flags_stand :
      (x : ℕ) (d : Bool)
      → has_byte x flag_letters ≡ true
      → want.dir x ≡ some d
      → live_has last x ≡ d
  unfolding live_has
  flags_stand x d m e =
      let flag : IsFlag x = has_byte-IsFlag x m in
      rw flag.letter (l.others x flag.no_limit ∙ k.others x flag.no_key ∙ a.agreed x d m e)

  changes_done : c.live_known ≡ true → changes skip want last ≡ []
  unfolding changes
  changes_done known =
      let c2 : Chan = record c { live_flags = k.flags; live_key = k.key } in
      let no_flags : all_flag_changes want last flag_letters ≡ [] =
        flags_done want last flag_letters known flags_stand in
      let no_key : key_changes (want.dir b'k') last ≡ [] =
        key_changes-cong (want.dir b'k') c2 l.flags k.flags l.limit (l.others b'k' refl) ∙ k.done in
      let no_limit : limit_changes skip want last ≡ [] = l.done in
      ap (λ xs. xs ++ (key_changes (want.dir b'k') last ++ limit_changes skip want last)) no_flags
      ∙ ap (λ xs. xs ++ limit_changes skip want last) no_key
      ∙ no_limit

-- Where the server takes the letters of the stored modes as usual, the live modes are known, the
-- stored ones can be used and the key has at most 30 bytes: when the server has said back each
-- change that mode_sync queued, mode_sync finds nothing more to change.
pub changes-settle :
    (is : Isupport) (now : ℕ) (skip : Bool) (spec : Bytes) (want : Wanted) (c : Chan)
    → IsUsual is
    → c.live_known ≡ true
    → length c.key < max_key
    → wanted spec ≡ some want
    → changes skip want (echo_all is now (changes skip want c) c) ≡ []
changes-settle is now skip spec want c u known short h =
    let a : Flagged is now (all_flag_changes want c flag_letters) c c.live_flags want.dir
        flag_letters =
      all-Flagged is now want c c flag_letters c.live_flags u known refl
        (refl, (refl, (refl, (refl, (refl, (refl, tt)))))) (λ l m. refl) in
    let k : Keyed is now (want.dir b'k') (record c { live_flags = a.after }) =
      key-Keyed is now _ _ u known short in
    let l : Limited is now skip want (record c { live_flags = k.flags; live_key = k.key }) =
      limit-Limited is now skip want _ u known (λ _. wanted-le spec want h) in
    ap (changes skip want) (changes_heard is now skip want c a k l)
    ∙ changes_done is now skip want c a k l known
