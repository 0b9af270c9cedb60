-- ===== src/ChanCfg/RoundTripBan.antt =====
-- The B| record of src/chancfg.rs reads back as it was written, bars in the reason included.
use ircbot_rs.Prelude.{
  ℕ, zero, suc, ◌+◌, ◌-◌, ◌^◌, ◌<◌, ◌≤◌, ◌≡◌, ◌⊎◌, inl, inr, refl, sym, ap, ◌∙◌, Bool, true, false,
  none, some, [], ◌∷◌, ◌++◌, arith, length, length-append, append_assoc, not, ◌&&◌, take, drop,
  get_or, ◌==◌, ◌⊎◌, ap₂,
}
use ircbot_rs.Cstr.{Bytes, codes, find_byte, is_empty, bytes_eq}
use ircbot_rs.State.{CfgBan}
use ircbot_rs.ChanCfg.Parse.{splitn, show, plain_text, valid_chan_name, pipe, split_pipes}
use ircbot_rs.ChanCfg.Lines.{op_text}
use ircbot_rs.ChanCfg.Bans.{
  rfind_byte, scan_back, parse_b, b_head, b_body, b_split, b_fields, b_checked, has_space,
  no_controls,
}
use ircbot_rs.ChanCfg.Number.{parse_ll-show, length-show}
use ircbot_rs.ChanCfg.Fields.{
  splitn-field, lacks-show, lacks-plain, take-append, drop-append, get_or-append,
}
use ircbot_rs.ChanCfg.RoundTrip.{lacks-name, add_op-op_text, length-name, length-op}

rfind-lacks : (f : Bytes) → find_byte pipe f ≡ none → rfind_byte pipe f ≡ none
unfolding rfind_byte
rfind-lacks [] h = refl
rfind-lacks (c ∷ f) h = ground (arith, rfind-lacks f)

rfind-append :
    (h t : Bytes) → find_byte pipe t ≡ none → rfind_byte pipe (h ++ pipe ∷ t) ≡ some (length h)
unfolding rfind_byte
rfind-append [] t l = ground (arith, rfind-lacks t l)
rfind-append (c ∷ h) t l = ground (arith, rfind-append h t l)

scan_back-at : (db : Bytes) (n : ℕ) → get_or db n 0 ≡ pipe → scan_back db n ≡ n
unfolding scan_back
scan_back-at db zero h = refl
scan_back-at db (suc n) h = ground arith

scan_back-past :
    (db : Bytes) (n : ℕ)
    → (get_or db (suc n) 0 == pipe) ≡ false
    → scan_back db (suc n) ≡ scan_back db n
unfolding scan_back
scan_back-past db n h = ground arith

scan_back-skip :
    (h rest : Bytes) (i : ℕ)
    → (get_or rest (suc i) 0 == pipe) ≡ false
    → scan_back (h ++ rest) (length h + suc i) ≡ scan_back (h ++ rest) (length h + i)
scan_back-skip h rest i e =
    let next : length h + suc i ≡ suc (length h + i) = omega arith in
    ap (λ (n : ℕ). scan_back (h ++ rest) n) next
    ∙ scan_back-past (h ++ rest) (length h + i) (
        ap (λ (n : ℕ). get_or (h ++ rest) n 0 == pipe) (sym next)
        ∙ ap (λ (c : ℕ). c == pipe) (get_or-append h rest (suc i) 0)
        ∙ e)

scan_back-bar : (h rest : Bytes) → scan_back (h ++ pipe ∷ rest) (length h + 0) ≡ length h
scan_back-bar h rest =
    let e : length h + 0 ≡ length h = omega arith in
    scan_back-at (h ++ pipe ∷ rest) (length h + 0) (get_or-append h (pipe ∷ rest) 0 0) ∙ e

-- From the bar in front of the stamp, the scan comes to the bar in front of the operation.
scan_back-op :
    (h t : Bytes) (a : Bool) → scan_back (h ++ (pipe ∷ op_text a ++ t)) (length h + 3) ≡ length h
scan_back-op h t true =
    scan_back-skip h (pipe ∷ op_text true ++ t) 2 refl
    ∙ scan_back-skip h (pipe ∷ op_text true ++ t) 1 refl
    ∙ scan_back-skip h (pipe ∷ op_text true ++ t) 0 refl
    ∙ scan_back-bar h (op_text true ++ t)
scan_back-op h t false =
    scan_back-skip h (pipe ∷ op_text false ++ t) 2 refl
    ∙ scan_back-skip h (pipe ∷ op_text false ++ t) 1 refl
    ∙ scan_back-skip h (pipe ∷ op_text false ++ t) 0 refl
    ∙ scan_back-bar h (op_text false ++ t)

regroup :
    (h t : Bytes) (a : Bool)
    → (h ++ pipe ∷ op_text a) ++ pipe ∷ t ≡ h ++ (pipe ∷ op_text a ++ pipe ∷ t)
regroup h t a = append_assoc h (pipe ∷ op_text a) (pipe ∷ t)

length-op_part : (h : Bytes) (a : Bool) → length (h ++ pipe ∷ op_text a) ≡ length h + 4
length-op_part h a = omega (arith, length-append h (pipe ∷ op_text a), length-op a)

last_bar :
    (h t : Bytes) (a : Bool)
    → find_byte pipe t ≡ none
    → rfind_byte pipe (h ++ (pipe ∷ op_text a ++ pipe ∷ t)) ≡ some (length h + 4)
last_bar h t a l =
    ap (λ (s : Bytes). rfind_byte pipe s) (sym (regroup h t a))
    ∙ rfind-append (h ++ pipe ∷ op_text a) t l
    ∙ ap some (length-op_part h a)

op_part :
    (h t : Bytes) (a : Bool)
    → take (length h + 4) (h ++ (pipe ∷ op_text a ++ pipe ∷ t)) ≡ h ++ pipe ∷ op_text a
op_part h t a =
    ap₂ (λ (n : ℕ) (s : Bytes). take n s) (sym (length-op_part h a)) (sym (regroup h t a))
    ∙ take-append (h ++ pipe ∷ op_text a) (pipe ∷ t)

ts_part :
    (h t : Bytes) (a : Bool) → drop (suc (length h + 4)) (h ++ (pipe ∷ op_text a ++ pipe ∷ t)) ≡ t
ts_part h t a =
    ap₂ (λ (n : ℕ) (s : Bytes). drop (suc n) s) (sym (length-op_part h a)) (sym (regroup h t a))
    ∙ drop-append (h ++ pipe ∷ op_text a) pipe t

-- The line is cut at its last two bars.
b_split_lem :
    (h t : Bytes) (a : Bool)
    → b_split (h ++ (pipe ∷ op_text a ++ pipe ∷ t)) (length h + 4)
      ≡ b_fields (op_text a) t (split_pipes h 6)
b_split_lem h t a =
    let line : Bytes = h ++ (pipe ∷ op_text a ++ pipe ∷ t) in
    let before : length h + 4 - 1 ≡ length h + 3 = omega arith in
    let none_added : length h + 0 ≡ length h = omega arith in
    let prev : scan_back line (length h + 4 - 1) ≡ length h =
      ap (λ (n : ℕ). scan_back line n) before ∙ scan_back-op h (pipe ∷ t) a in
    let bar : get_or line (length h) 0 ≡ pipe =
      ap (λ (n : ℕ). get_or line n 0) (sym none_added)
      ∙ get_or-append h (pipe ∷ op_text a ++ pipe ∷ t) 0 0 in
    ground (
      arith,
      prev,
      bar,
      op_part h t a,
      ts_part h t a,
      take-append h (pipe ∷ op_text a ++ pipe ∷ t),
      drop-append h pipe (op_text a),
    )

-- What `apply_b_line` accepts and `format_b_line` may write.
abbrev pub IsWritable : CfgBan → Type 0
IsWritable b =
    ((b.chan ≡ codes "*") ⊎ (valid_chan_name b.chan ≡ true))
    × (0 < length b.mask)
    × (length b.mask ≤ 120)
    × (plain_text b.mask ≡ true)
    × (has_space b.mask ≡ false)
    × (length b.flags < 8)
    × (plain_text b.flags ≡ true)
    × (length b.setter ≤ 63)
    × (plain_text b.setter ≡ true)
    × (length b.reason ≤ 120)
    × (no_controls b.reason ≡ true)
    × (b.expires < 10 ^ 18)
    × (0 < b.ts)
    × (b.ts < 10 ^ 18)
    × (b.push_pending ≡ false)

module _ (b : CfgBan) (ok : IsWritable b) where
  star : bytes_eq (codes "*") (codes "*") ≡ true
  unfolding bytes_eq
  star = refl

  lacks-chan : find_byte pipe b.chan ≡ none
  lacks-chan = elim ok.0 [ inl e ↦ ap (λ f. find_byte pipe f) e | inr e ↦ lacks-name b.chan e ]

  head_split :
      split_pipes (b_head b) 6
      ≡ b.chan ∷ b.mask ∷ show b.expires ∷ b.flags ∷ b.setter ∷ b.reason ∷ []
  unfolding splitn
  head_split =
      splitn-field pipe 4 b.chan _ lacks-chan
      ∙ ap (λ t. b.chan ∷ t)
          (splitn-field pipe 3 b.mask _ (lacks-plain b.mask ok.3)
            ∙ ap (λ t. b.mask ∷ t)
                (splitn-field pipe 2 (show b.expires) _ (lacks-show b.expires)
                  ∙ ap (λ t. show b.expires ∷ t)
                      (splitn-field pipe 1 b.flags _ (lacks-plain b.flags ok.6)
                        ∙ ap (λ t. b.flags ∷ t)
                            (splitn-field pipe 0 b.setter _ (lacks-plain b.setter ok.8)))))

  length-chan : length b.chan ≤ 64
  length-chan = elim ok.0 [
    | inl e ↦ omega (arith, ap (λ (f : Bytes). length f) e)
    | inr e ↦ length-name b.chan e
  ]

  head_length : length (b_head b) ≤ 400
  head_length = ground (
    arith,
    length-append b.chan (
        pipe ∷ b.mask
        ++ (pipe ∷ show b.expires ++ (pipe ∷ b.flags ++ (pipe ∷ b.setter ++ pipe ∷ b.reason)))),
    length-append b.mask
        (pipe ∷ show b.expires ++ (pipe ∷ b.flags ++ (pipe ∷ b.setter ++ pipe ∷ b.reason))),
    length-append (show b.expires) (pipe ∷ b.flags ++ (pipe ∷ b.setter ++ pipe ∷ b.reason)),
    length-append b.flags (pipe ∷ b.setter ++ pipe ∷ b.reason),
    length-append b.setter (pipe ∷ b.reason),
    length-chan,
    length-show b.expires,
  )

  b_length : length (b_body b) ≤ 445
  b_length = ground (
    arith,
    head_length,
    length-append (b_head b) (pipe ∷ op_text b.active ++ pipe ∷ show b.ts),
    length-append (op_text b.active) (pipe ∷ show b.ts),
    length-op b.active,
    length-show b.ts,
  )

  chan_ok : (not (bytes_eq b.chan (codes "*")) && not (valid_chan_name b.chan)) ≡ false
  chan_ok = elim ok.0 [
    | inl e ↦ ground (arith, ap (λ f. bytes_eq f (codes "*")) e ∙ star)
    | inr e ↦ ground arith
  ]

  mask_some : is_empty b.mask ≡ false
  unfolding is_empty
  mask_some = ground arith

  b_checks :
      b_checked b.chan b.mask b.flags b.setter b.reason (some b.active) (some b.ts) (some b.expires)
      ≡ some b
  b_checks = ground (arith, mask_some, chan_ok)

  -- A ban whose fields pass the checks of `apply_b_line`, with times of at most 18 digits and no
  -- push pending, reads back as it was written, even where its reason holds bars.
  pub parse_b-b_body : parse_b (b_body b) ≡ some b
  unfolding parse_b
  parse_b-b_body = ground (
    arith,
    b_length,
    last_bar (b_head b) (show b.ts) b.active (lacks-show b.ts),
    b_split_lem (b_head b) (show b.ts) b.active,
    head_split,
    add_op-op_text b.active,
    parse_ll-show b.ts,
    parse_ll-show b.expires,
    b_checks,
  )
