-- ===== src/Servers/Hold.antt =====
-- A server that refused the bot is left alone, whatever src/irc_client.rs picks next.
use ircbot_rs.Prelude.{
  ℕ, ◌+◌, ◌≤◌, ◌<◌, ◌≡◌, ◌≢◌, refl, sym, ap, ◌∙◌, inl, inr, true, false, not, ◌&&◌, Option, none,
  some, arith, length, set, get_elem?-set_self, ltb, if◌then◌else◌, Bool-cases,
}
use ircbot_rs.Cstr.{Bytes, is_empty}
use ircbot_rs.Servers.{
  Servers, ServerBlock, ServerBlockKind, is_held, is_perm, is_none, block_at, struck, linked,
  refuse_with, pick_server, hold_for,
}
use ircbot_rs.Servers.Backoff.{hold_for-ge}
use ircbot_rs.Servers.Pick.{Choice, pick_server-Choice}
use ircbot_rs.Servers.Refusal.{refusal_classify, apply_refusal}

struck-held :
    (now t : ℕ) (kind : ServerBlockKind) (stated : ℕ) (reason : Bytes) (b : ServerBlock)
    → is_none kind ≡ false
    → t < now + 60
    → is_held t (struck now kind stated reason b) ≡ true
struck-held now t kind stated reason b some_kind early =
    let strikes : ℕ = if ltb b.strikes 32 then b.strikes + 1 else b.strikes in
    elim (Bool-cases (is_perm kind)) [
      | inl perm ↦ rw perm refl
      | inr ends ↦
          let long : 60 ≤ hold_for kind stated strikes =
            hold_for-ge kind stated strikes some_kind ends in
          let until : ltb t (now + hold_for kind stated strikes) ≡ true = ground arith in
          rw (ends, some_kind, until) refl
    ]

block_at-set :
    (s : Servers) (i : ℕ) (b : ServerBlock)
    → i < length s.server_blocks
    → block_at (record s { server_blocks = set s.server_blocks i b }) i ≡ b
block_at-set s i b h = rw (get_elem?-set_self s.server_blocks i b h) refl

refused-held :
    (now t i : ℕ) (kind : ServerBlockKind) (stated : ℕ) (s : Servers)
    → linked s s.irc_server_idx ≡ some i
    → i < length s.server_blocks
    → is_none kind ≡ false
    → t < now + 60
    → is_held t (block_at (refuse_with now (kind, stated) s) i) ≡ true
refused-held now t i kind stated s at inside some_kind early =
    let b : ServerBlock = struck now kind stated s.irc_refusal (block_at s i) in
    rw (at, some_kind, block_at-set s i b inside)
      (struck-held now t kind stated s.irc_refusal (block_at s i) some_kind early)

not_free :
    (t i : ℕ) (s : Servers) (o : Option ℕ)
    → is_held t (block_at s i) ≡ true
    → Choice t s o
    → o ≢ some i
not_free t i s none held c e = ground arith
not_free t i s (some j) held (inside, first) e =
    let same : j ≡ i = ground arith in
    let free : is_held t (block_at s i) ≡ false =
      ap (λ (x : ℕ). is_held t (block_at s x)) (sym same) ∙ first.free in
    ground arith

-- When a link goes down over words that are read as a ban or a throttle, its server is not picked for
-- a minute or more, whatever else is eligible.
pub apply_refusal-unpicked :
    (now t i : ℕ) (s : Servers)
    → linked s s.irc_server_idx ≡ some i
    → i < length s.server_blocks
    → (is_empty s.irc_refusal && not s.irc_refusal_ban) ≡ false
    → is_none (refusal_classify s.irc_refusal s.irc_refusal_ban).0 ≡ false
    → t < now + 60
    → (pick_server t (apply_refusal now s)).0 ≢ some i
unfolding apply_refusal is_empty
apply_refusal-unpicked now t i s at inside words some_kind early =
    let (kind, stated) = refusal_classify s.irc_refusal s.irc_refusal_ban in
    let after : Servers = refuse_with now (kind, stated) s in
    rw words (
      not_free t i after (pick_server t after).0
        (refused-held now t i kind stated s at inside some_kind early) (pick_server-Choice t after))
