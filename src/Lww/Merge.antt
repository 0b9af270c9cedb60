-- ===== src/Lww/Merge.antt =====
-- The order that the stamps of src/state.rs put on the versions of a record.
use ircbot_rs.Prelude.{ℕ, ◌<◌, ◌≤◌, ◌≡◌, refl, Bool, true, false, [], ◌∷◌, arith}
use ircbot_rs.Cstr.{Bytes}
use ircbot_rs.Lww.{lww_next_ts, lww_accepts, bytes_lt, opt_accepts}

-- A local change is stamped so that every replica of the old version takes it, be it an add or a
-- delete, whatever the clock says.
pub lww_accepts-next_ts :
    (t prev : ℕ) (active cur_active : Bool)
    → lww_accepts (lww_next_ts t prev) active prev cur_active ≡ true
unfolding lww_accepts lww_next_ts
lww_accepts-next_ts t prev active cur_active = ground arith

pub lww_next_ts-gt : (t prev : ℕ) → (prev < lww_next_ts t prev) × (t ≤ lww_next_ts t prev)
unfolding lww_next_ts
lww_next_ts-gt t prev = ground arith

-- A version is never accepted over itself, and of two versions at most one is accepted over the
-- other.
pub lww_accepts-asymm :
    (t u : ℕ) (a b : Bool) → lww_accepts t a u b ≡ true → lww_accepts u b t a ≡ false
unfolding lww_accepts
lww_accepts-asymm t u a b h = ground arith

pub bytes_lt_irrefl : (a : Bytes) → bytes_lt a a ≡ false
unfolding bytes_lt
bytes_lt_irrefl [] = refl
bytes_lt_irrefl (x ∷ a) = ground (arith, bytes_lt_irrefl a)

pub bytes_lt-total : (a b : Bytes) → bytes_lt a b ≡ false → bytes_lt b a ≡ false → a ≡ b
unfolding bytes_lt
bytes_lt-total [] [] h k = refl
bytes_lt-total [] (y ∷ b) h k = ground arith
bytes_lt-total (x ∷ a) [] h k = ground arith
bytes_lt-total (x ∷ a) (y ∷ b) h k = ground (arith, bytes_lt-total a b)

pub bytes_lt_trans :
    (a b c : Bytes) → bytes_lt a b ≡ true → bytes_lt b c ≡ true → bytes_lt a c ≡ true
unfolding bytes_lt
bytes_lt_trans [] [] c h k = ground arith
bytes_lt_trans [] (y ∷ b) [] h k = ground arith
bytes_lt_trans [] (y ∷ b) (z ∷ c) h k = refl
bytes_lt_trans (x ∷ a) [] c h k = ground arith
bytes_lt_trans (x ∷ a) (y ∷ b) [] h k = ground arith
bytes_lt_trans (x ∷ a) (y ∷ b) (z ∷ c) h k = ground (arith, bytes_lt_trans a b c)

bytes_lt-asymm : (a b : Bytes) → bytes_lt a b ≡ true → bytes_lt b a ≡ false
unfolding bytes_lt
bytes_lt-asymm [] [] h = refl
bytes_lt-asymm [] (y ∷ b) h = refl
bytes_lt-asymm (x ∷ a) [] h = ground arith
bytes_lt-asymm (x ∷ a) (y ∷ b) h = ground (arith, bytes_lt-asymm a b)

-- Of two versions of the opt flags, at most one is accepted over the other.
pub opt_accepts-asymm :
    (t u : ℕ) (f g : Bytes) → opt_accepts t f u g ≡ true → opt_accepts u g t f ≡ false
unfolding opt_accepts
opt_accepts-asymm t u f g h = ground (arith, bytes_lt-asymm g f, bytes_lt-asymm f g)

-- Two versions of the opt flags of which neither is accepted over the other are the same, so that
-- replicas which exchange theirs settle on one.
pub opt_accepts_total :
    (t u : ℕ) (f g : Bytes)
    → opt_accepts t f u g ≡ false
    → opt_accepts u g t f ≡ false
    → (t ≡ u) × (f ≡ g)
unfolding opt_accepts
opt_accepts_total t u f g h k = ground (arith, bytes_lt-total f g, bytes_lt-total g f)
