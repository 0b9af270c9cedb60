-- ===== src/Lww.antt =====
-- src/state.rs: last-writer-wins stamps of replicated records, the replay cache, and nicks.
pub mod Merge
pub mod Nonces
use ircbot_rs.Prelude.Int.{ℤ, pos, negsuc}
use ircbot_rs.Prelude.{
  ℕ, zero, suc, ◌+◌, ◌-◌, ◌^◌, ◌%◌, Bool, true, false, not, ◌&&◌, ◌||◌, List, [], ◌∷◌, ltb, leb,
  ◌==◌, if◌then◌else◌, length, set, any, all, replicate,
}
use ircbot_rs.Cstr.{Bytes, codes, is_empty}

-- `t` is the time read from the clock.
unfoldable pub lww_next_ts : ℕ → ℕ → ℕ
lww_next_ts t prev = if ltb prev t then t else prev + 1

unfoldable pub lww_accepts : ℕ → Bool → ℕ → Bool → Bool
lww_accepts in_ts in_active cur_ts cur_active =
    ltb cur_ts in_ts || in_ts == cur_ts && cur_active && not in_active

-- The same on stamps that may be negative.
abbrev pub int_lt : ℤ → ℤ → Bool
int_lt (pos m) (pos n) = ltb m n
int_lt (pos m) (negsuc n) = false
int_lt (negsuc m) (pos n) = true
int_lt (negsuc m) (negsuc n) = ltb n m

abbrev pub int_eq : ℤ → ℤ → Bool
int_eq (pos m) (pos n) = m == n
int_eq (pos m) (negsuc n) = false
int_eq (negsuc m) (pos n) = false
int_eq (negsuc m) (negsuc n) = m == n

-- `x + 1` on an i64, which wraps in a release build
abbrev pub int_next : ℤ → ℤ
int_next (pos n) = if n + 1 == 2 ^ 63 then negsuc (2 ^ 63 - 1) else pos (n + 1)
int_next (negsuc zero) = pos 0
int_next (negsuc (suc n)) = negsuc n

unfoldable pub lww_next_ts_i64 : ℕ → ℤ → ℤ
lww_next_ts_i64 t prev = if int_lt prev (pos t) then pos t else int_next prev

unfoldable pub lww_accepts_i64 : ℤ → Bool → ℤ → Bool → Bool
lww_accepts_i64 in_ts in_active cur_ts cur_active =
    int_lt cur_ts in_ts || int_eq in_ts cur_ts && cur_active && not in_active

-- `>` on byte slices: lexicographic, a proper prefix is less.
unfoldable pub bytes_lt : Bytes → Bytes → Bool
bytes_lt [] [] = false
bytes_lt [] (b ∷ bs) = true
bytes_lt (a ∷ as') [] = false
bytes_lt (a ∷ as') (b ∷ bs) = ltb a b || a == b && bytes_lt as' bs

unfoldable pub opt_accepts : ℕ → Bytes → ℕ → Bytes → Bool
unfolding bytes_lt
opt_accepts in_ts in_flags cur_ts cur_flags =
    ltb cur_ts in_ts || in_ts == cur_ts && bytes_lt cur_flags in_flags

-- The replay cache: a ring of (nonce, time).
pub record NonceEntry : Type 0 where
  pub nonce : ℕ
  pub ts : ℕ

pub record NonceCache : Type 0 where
  pub entries : List NonceEntry
  pub idx : ℕ

abbrev pub nonce_ttl_seconds : ℕ
nonce_ttl_seconds = 60

unfoldable pub new_cache : ℕ → NonceCache
new_cache size = record { entries = replicate size (record { nonce = 0; ts = 0 }); idx = 0 }

-- `now - e.ts <= TTL`, with the subtraction moved to the other side
abbrev pub is_fresh : ℕ → ℕ → NonceEntry → Bool
is_fresh nonce now e = e.nonce == nonce && leb now (e.ts + nonce_ttl_seconds)

unfoldable pub seen : NonceCache → ℕ → ℕ → Bool
seen c nonce now = any (is_fresh nonce now) c.entries

unfoldable pub remember : NonceCache → ℕ → ℕ → NonceCache
remember c nonce now = record {
  entries = set c.entries c.idx (record { nonce = nonce; ts = now });
  idx = (c.idx + 1) % length c.entries;
}

abbrev pub max_nick : ℕ
max_nick = 10

unfoldable pub contains_byte : ℕ → Bytes → Bool
contains_byte c = any (λ b. b == c)

unfoldable pub is_valid_bot_nick : Bytes → Bool
unfolding contains_byte is_empty
is_valid_bot_nick nick =
    not (is_empty nick) && ltb (length nick) max_nick && not (contains_byte b'|' nick)

abbrev pub is_letter : ℕ → Bool
is_letter c = leb b'A' c && leb c b'Z' || leb b'a' c && leb c b'z'

-- "[]\\`_^{}"
abbrev pub is_special : ℕ → Bool
is_special c = any (λ b. b == c) (codes "[]\\`_^{}")

abbrev pub is_later : ℕ → Bool
is_later c = leb b'0' c && leb c b'9' || c == b'-'

unfoldable pub rfc_from : ℕ → Bytes → Bool
rfc_from i [] = true
rfc_from i (c ∷ s) =
    (is_letter c || is_special c || is_later c && not (i == 0)) && rfc_from (i + 1) s

unfoldable pub is_rfc_nick : Bytes → Bool
unfolding is_valid_bot_nick rfc_from
is_rfc_nick nick = if not (is_valid_bot_nick nick) then false else rfc_from 0 nick

unfoldable pub has_control_bytes : Bytes → Bool
has_control_bytes = any (λ b. ltb b 0x20 || b == 0x7f)
