-- ===== src/Examples/Replicas.antt =====
-- D| lines in two orders, the replay cache and the stamps of src/state.rs at small inputs.
use ircbot_rs.Prelude.{refl, ℕ, ◌≡◌, ◌↔◌, inl, inr, true, List, [], ◌∷◌, arith, ◌^◌, ◌-◌, false}
use ircbot_rs.Prelude.Int.{pos, negsuc}
use ircbot_rs.Lww.{new_cache, seen, remember, lww_next_ts_i64, lww_accepts_i64}
use ircbot_rs.Cstr.{Bytes, codes}
use ircbot_rs.ChanCfg.Replicas.{Occurs, version, take_lines, apply_d_line-converges}
use ircbot_rs.Examples.Globs.{state_of}
use ircbot_rs.Lww.Nonces.{remember_all, seen-remember_all}

-- Two lines of one stamp, of which the greater text wins.
abbrev line_a : Bytes
line_a = codes "+nt|bantime=5|77"

abbrev line_b : Bytes
line_b = codes "+s|bantime=5|77"

abbrev here : List Bytes
here = line_a ∷ line_b ∷ []

abbrev there : List Bytes
there = line_b ∷ line_a ∷ line_b ∷ []

same_set : (x : Bytes) → Occurs x here ↔ Occurs x there
same_set x = (
  λ h. elim h [ inl e ↦ inr (inl e) | inr k ↦ elim k [ inl e ↦ inl e | inr n ↦ absurd n ] ],
  λ h. elim h [
    | inl e ↦ inr (inl e)
    | inr k ↦ elim k [ inl e ↦ inl e | inr m ↦ elim m [ inl e ↦ inr (inl e) | inr n ↦ absurd n ] ]
  ],
)

apply_d_line-converges_example :
    version (take_lines here (state_of [])) ≡ version (take_lines there (state_of []))
apply_d_line-converges_example = apply_d_line-converges (state_of []) here there same_set

abbrev time_four : ℕ
time_four = 4

seen-remember_all_example :
    seen (remember_all (remember (new_cache 3) 7 100) ((8, 101) ∷ (9, 102) ∷ [])) 7 160 ≡ true
unfolding new_cache
seen-remember_all_example =
    seen-remember_all (new_cache 3) 7 100 160 ((8, 101) ∷ (9, 102) ∷ []) (omega arith) (omega arith)
      (omega arith)

-- A stamp that a c| record may bring, and the local change after it.
stamp_wraps : lww_next_ts_i64 100 (pos (2 ^ 63 - 1)) ≡ negsuc (2 ^ 63 - 1)
unfolding lww_next_ts_i64
stamp_wraps = refl

never_taken : lww_accepts_i64 (negsuc (2 ^ 63 - 1)) true (pos (2 ^ 63 - 1)) true ≡ false
unfolding lww_accepts_i64
never_taken = refl
