-- ===== src/ChanCfg/Purge.antt =====
-- `purge_bans` of src/chancfg.rs, which swaps bans about as it goes, removes what it should and no more.
use ircbot_rs.Prelude.{
  ℕ, zero, suc, ◌+◌, ◌≤◌, ◌≡◌, refl, Bool, not, ◌&&◌, List, [], ◌∷◌, arith, length, keep,
  if◌then◌else◌,
}
use ircbot_rs.State.{CfgBan, BotState}
use ircbot_rs.ChanCfg.Bans.{is_purged, behind_first, last_first, purge_from, purge_bans}

-- how many bans of a list pass a test
abbrev pub count : (CfgBan → Bool) → List CfgBan → ℕ
count p bans = length (keep p bans)

bit : Bool → ℕ
bit b = if b then 1 else 0

count-cons :
    (p : CfgBan → Bool) (b : CfgBan) (bans : List CfgBan)
    → count p (b ∷ bans) ≡ bit (p b) + count p bans
unfolding bit
count-cons p b bans = ground arith

count-behind_first :
    (p : CfgBan → Bool) (x : CfgBan) (l : List CfgBan)
    → count p (behind_first x l) ≡ bit (p x) + count p l
unfolding bit
count-behind_first p x [] = ground arith
count-behind_first p x (y ∷ ys) = ground arith

count-last_first :
    (p : CfgBan → Bool) (bans : List CfgBan) → count p (last_first bans) ≡ count p bans
count-last_first p [] = refl
count-last_first p (x ∷ xs) =
    omega (arith, count-behind_first p x (last_first xs), count-last_first p xs, count-cons p x xs)

length-behind_first : (x : CfgBan) (l : List CfgBan) → length (behind_first x l) ≡ suc (length l)
length-behind_first x [] = refl
length-behind_first x (y ∷ ys) = refl

length-last_first : (bans : List CfgBan) → length (last_first bans) ≡ length bans
length-last_first [] = refl
length-last_first (x ∷ xs) =
    omega (arith, length-behind_first x (last_first xs), length-last_first xs)

abbrev stays : ℕ → (CfgBan → Bool) → CfgBan → Bool
stays cutoff p b = p b && not (is_purged cutoff b)

count-purge_from :
    (fuel cutoff : ℕ) (p : CfgBan → Bool) (bans : List CfgBan)
    → length bans ≤ fuel
    → count p (purge_from fuel cutoff bans).0 ≡ count (stays cutoff p) bans
unfolding purge_from
count-purge_from zero cutoff p [] l = refl
count-purge_from zero cutoff p (b ∷ bans) l = ground arith
count-purge_from (suc fuel) cutoff p [] l = refl
count-purge_from (suc fuel) cutoff p (b ∷ bans) l =
    let shorter : length (last_first bans) ≤ fuel = omega (arith, length-last_first bans) in
    ground (
      arith,
      count-purge_from fuel cutoff p (last_first bans) shorter,
      count-purge_from fuel cutoff p bans (omega arith),
      count-last_first (stays cutoff p) bans,
    )

removed-purge_from :
    (fuel cutoff : ℕ) (bans : List CfgBan)
    → length bans ≤ fuel
    → (purge_from fuel cutoff bans).1 ≡ count (is_purged cutoff) bans
unfolding purge_from
removed-purge_from zero cutoff [] l = refl
removed-purge_from zero cutoff (b ∷ bans) l = ground arith
removed-purge_from (suc fuel) cutoff [] l = refl
removed-purge_from (suc fuel) cutoff (b ∷ bans) l =
    let shorter : length (last_first bans) ≤ fuel = omega (arith, length-last_first bans) in
    ground (
      arith,
      removed-purge_from fuel cutoff (last_first bans) shorter,
      removed-purge_from fuel cutoff bans (omega arith),
      count-last_first (is_purged cutoff) bans,
    )

-- A purge leaves, in some order, each ban that it should not remove as often as it was there and no
-- other ban, and returns how many bans it removed.
pub count-purge_bans :
    (cutoff : ℕ) (st : BotState) (p : CfgBan → Bool)
    → (count p (purge_bans cutoff st).1.cfg_bans
        ≡ count (λ b. p b && not (is_purged cutoff b)) st.cfg_bans)
      × ((purge_bans cutoff st).0 ≡ count (is_purged cutoff) st.cfg_bans)
unfolding purge_bans
count-purge_bans cutoff st p = (
  count-purge_from (length st.cfg_bans) cutoff p st.cfg_bans (omega arith),
  removed-purge_from (length st.cfg_bans) cutoff st.cfg_bans (omega arith),
)
