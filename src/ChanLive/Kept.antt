-- ===== src/ChanLive/Kept.antt =====
-- The ban list of a channel in src/chanlive.rs, kept by each change of it.
use ircbot_rs.Prelude.{
  ℕ, zero, suc, ◌+◌, ◌≤◌, ◌<◌, ◌≡◌, refl, inl, inr, Bool, true, false, Option, none, some, List, [],
  ◌∷◌, ◌++◌, arith, length, take, set, any, position, get_elem?, leb, if_split, All, All-set,
  All-append, position-some, Bool-cases, ◌||◌,
}
use ircbot_rs.Prelude.Counts.{count_if, one_if}
use ircbot_rs.Cstr.{Bytes, eq_ic, is_empty}
use ircbot_rs.Cstr.Case.{eq_ic_sym, eq_ic_trans}
use ircbot_rs.State.{Chan, LiveBan, Isupport}
use ircbot_rs.Channel.Unban.{max_mask_len}
use ircbot_rs.ChanLive.Isupport.{ban_cap, ban_list_cap}
use ircbot_rs.ChanLive.Apply.{
  same_mask, new_ban, ban_add, last_of, swap_remove, remove_at, ban_del, change_ban,
}

-- Whole masks only, no two of which are equal up to case, and 200 at the most.
pub record IsKept (bans : List LiveBan) : Type 0 where
  pub masks : All (λ b. (1 ≤ length b.mask) × (length b.mask < max_mask_len)) bans
  pub single : (mask : Bytes) → count_if (same_mask mask) bans ≤ 1
  pub few : length bans ≤ ban_list_cap

count-take_last :
    (p : LiveBan → Bool) (x : LiveBan) (xs : List LiveBan)
    → count_if p (take (length xs) (x ∷ xs)) + one_if (p (last_of x xs)) ≡ count_if p (x ∷ xs)
count-take_last p x [] = ground arith
count-take_last p x (y ∷ ys) = ground (arith, count-take_last p y ys)

count-swap_remove :
    (p : LiveBan → Bool) (i : ℕ) (x b : LiveBan) (xs : List LiveBan)
    → get_elem? (x ∷ xs) i ≡ some b
    → count_if p (swap_remove i (x ∷ xs)) + one_if (p b) ≡ count_if p (x ∷ xs)
count-swap_remove p zero x b [] h = ground arith
count-swap_remove p zero x b (y ∷ ys) h = ground (arith, count-take_last p y ys)
count-swap_remove p (suc i) x b [] h = ground arith
count-swap_remove p (suc i) x b (y ∷ ys) h = ground (arith, count-swap_remove p i y b ys)

All-take : (P : LiveBan → Type 0) (n : ℕ) (xs : List LiveBan) → All P xs → All P (take n xs)
All-take P zero xs h = tt
All-take P (suc n) [] h = tt
All-take P (suc n) (x ∷ xs) h = (h.0, All-take P n xs h.1)

All-last :
    (P : LiveBan → Type 0) (x : LiveBan) (xs : List LiveBan) → All P (x ∷ xs) → P (last_of x xs)
All-last P x [] h = h.0
All-last P x (y ∷ ys) h = All-last P y ys h.1

length-take_bound : (n m : ℕ) (xs : List LiveBan) → n ≤ m → length (take n xs) ≤ m
length-take_bound zero m xs h = omega arith
length-take_bound (suc n) m [] h = omega arith
length-take_bound (suc n) (suc m) (x ∷ xs) h = omega (arith, length-take_bound n m xs (omega arith))
length-take_bound (suc n) zero (x ∷ xs) h = absurd (omega arith)

swap_remove-IsKept :
    (i : ℕ) (b : LiveBan) (bans : List LiveBan)
    → get_elem? bans i ≡ some b
    → IsKept bans
    → IsKept (swap_remove i bans)
swap_remove-IsKept i b [] at h = h
swap_remove-IsKept i b (x ∷ xs) at h =
    let Whole : LiveBan → Type 0 = λ b. (1 ≤ length b.mask) × (length b.mask < max_mask_len) in
    record {
      masks =
          All-take Whole (length xs) (set (x ∷ xs) i (last_of x xs))
            (All-set Whole (x ∷ xs) i (last_of x xs) h.masks (All-last Whole x xs h.masks));
      single = λ mask. omega (arith, h.single mask, count-swap_remove (same_mask mask) i x b xs at);
      few =
          omega (
            arith,
            h.few,
            length-take_bound (length xs) (length xs) (set (x ∷ xs) i (last_of x xs)),
          );
    }

remove_at-IsKept :
    (mask : Bytes) (bans : List LiveBan) (o : Option ℕ)
    → position (same_mask mask) bans ≡ o
    → IsKept bans
    → IsKept (remove_at bans o)
remove_at-IsKept mask bans none e h = h
remove_at-IsKept mask bans (some i) e h =
    let (b, at, _) = position-some (same_mask mask) bans i e in swap_remove-IsKept i b bans at h

ban_del-IsKept : (mask : Bytes) (c : Chan) → IsKept c.bans → IsKept (ban_del mask c).bans
unfolding ban_del
ban_del-IsKept mask c h = remove_at-IsKept mask c.bans _ refl h

count_if-append :
    (p : LiveBan → Bool) (xs : List LiveBan) (y : LiveBan)
    → count_if p (xs ++ y ∷ []) ≡ count_if p xs + one_if (p y)
count_if-append p [] y = ground arith
count_if-append p (x ∷ xs) y = ground (arith, count_if-append p xs y)

length-snoc : (xs : List LiveBan) (y : LiveBan) → length (xs ++ y ∷ []) ≡ length xs + 1
length-snoc [] y = refl
length-snoc (x ∷ xs) y = omega (arith, length-snoc xs y)

count_if-no_other :
    (p q : LiveBan → Bool) (xs : List LiveBan)
    → any p xs ≡ false
    → ((x : LiveBan) → q x ≡ true → p x ≡ true)
    → count_if q xs ≡ 0
count_if-no_other p q [] h k = refl
count_if-no_other p q (x ∷ xs) h k = ground (arith, k x, count_if-no_other p q xs)

-- A mask that is not in the list yet.
snoc-IsKept :
    (mask : Bytes) (new : LiveBan) (bans : List LiveBan)
    → new.mask ≡ mask
    → 1 ≤ length mask
    → length mask < max_mask_len
    → any (same_mask mask) bans ≡ false
    → length bans < ban_list_cap
    → IsKept bans
    → IsKept (bans ++ new ∷ [])
snoc-IsKept mask new bans e pos short fresh room h =
    let Whole : LiveBan → Type 0 = λ b. (1 ≤ length b.mask) × (length b.mask < max_mask_len) in
    let whole : Whole new = (rw e pos, rw e short) in
    record {
      masks = All-append Whole bans (new ∷ []) h.masks (whole, tt);
      single = λ other. elim (Bool-cases (eq_ic mask other)) [
        | inl same ↦
            let none_yet : count_if (same_mask other) bans ≡ 0 =
              count_if-no_other (same_mask mask) (same_mask other) bans fresh
                (λ b k. eq_ic_trans b.mask other mask k (eq_ic_sym mask other same)) in
            ground (arith, count_if-append (same_mask other) bans new)
        | inr differ ↦
            let not_new : same_mask other new ≡ false = rw e differ in
            ground (arith, h.single other, count_if-append (same_mask other) bans new)
      ];
      few = omega (arith, length-snoc bans new);
    }

some_byte : (s : Bytes) → is_empty s ≡ false → 1 ≤ length s
unfolding is_empty
some_byte [] h = ground arith
some_byte (c ∷ s) h = omega arith

pub ban_add-IsKept :
    (cap : ℕ) (mask setter : Bytes) (when : ℕ) (c : Chan)
    → cap ≤ ban_list_cap
    → IsKept c.bans
    → IsKept (ban_add cap mask setter when c).bans
unfolding ban_add is_empty
ban_add-IsKept cap mask setter when c l h =
    let Keeps : Chan → Type 0 = λ c'. IsKept c'.bans in
    if_split Keeps (is_empty mask || leb max_mask_len (length mask)) c _ (λ _. h)
      (λ e.
        if_split Keeps (any (same_mask mask) c.bans) c _ (λ _. h)
          (λ fresh.
            if_split Keeps (leb cap (length c.bans)) (record c { ban_overflow_logged = true }) _
              (λ _. h)
              (λ room.
                snoc-IsKept mask (new_ban mask setter when) c.bans refl
                  (some_byte mask (ground arith)) (ground arith) fresh (ground arith) h)))

pub change_ban-IsKept :
    (is : Isupport) (now : ℕ) (adding from_324 : Bool) (a : Option Bytes) (c : Chan)
    → IsKept c.bans
    → IsKept (change_ban is now adding from_324 a c).bans
unfolding ban_cap
change_ban-IsKept is now adding from_324 none c h = h
change_ban-IsKept is now adding true (some a) c h = h
change_ban-IsKept is now true false (some a) c h =
    ban_add-IsKept (ban_cap is) a [] now c (ground arith) h
change_ban-IsKept is now false false (some a) c h = ban_del-IsKept a c h
