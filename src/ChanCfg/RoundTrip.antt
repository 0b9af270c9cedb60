-- ===== src/ChanCfg/RoundTrip.antt =====
-- The records of src/chancfg.rs read back as they were written.
use ircbot_rs.Prelude.{
  ℕ, ◌^◌, ◌<◌, ◌≤◌, ◌≡◌, refl, ap, ◌∙◌, Bool, true, false, none, some, [], ◌∷◌, ◌++◌, arith, length,
  length-append, not, ◌&&◌, ltb, leb, ◌==◌,
}
use ircbot_rs.Cstr.{Bytes, codes, find_byte}
use ircbot_rs.ChanCfg.Parse.{
  show, plain_text, valid_chan_name, valid_modes_field, pipe, split_pipes,
}
use ircbot_rs.ChanCfg.Lines.{parse_c, c_body, add_op, op_text, parse_d, d_body}
use ircbot_rs.ChanCfg.Number.{parse_ll-show, length-show}
use ircbot_rs.ChanCfg.Fields.{lacks, splitn-field, splitn-last, lacks-show, lacks-plain}

lacks-modes : (f : Bytes) → valid_modes_field f ≡ true → find_byte pipe f ≡ none
unfolding valid_modes_field
lacks-modes f h =
    lacks (λ c. leb 0x20 c && leb c 0x7e && not (c == b'|')) pipe refl f (ground arith)

pub lacks-name : (f : Bytes) → valid_chan_name f ≡ true → find_byte pipe f ≡ none
unfolding valid_chan_name
lacks-name f h =
    lacks (λ c. ltb 0x20 c && not (c == 0x7f) && not (c == b',') && not (c == b'|')) pipe refl f
      (ground arith)

pub lacks-op : (a : Bool) → find_byte pipe (op_text a) ≡ none
lacks-op true = refl
lacks-op false = refl

pub add_op-op_text : (a : Bool) → add_op (op_text a) ≡ some a
unfolding add_op ircbot_rs.Cstr.bytes_eq
add_op-op_text true = refl
add_op-op_text false = refl

pub length-name : (f : Bytes) → valid_chan_name f ≡ true → length f ≤ 64
unfolding valid_chan_name
length-name f h = ground arith

length-modes : (f : Bytes) → valid_modes_field f ≡ true → length f ≤ 64
unfolding valid_modes_field
length-modes f h = ground arith

pub length-op : (a : Bool) → length (op_text a) ≡ 3
length-op true = refl
length-op false = refl

-- What `format_c_line` may write of a record.
module _ (name modes settings : Bytes) (active : Bool) (ts : ℕ)
    (name_ok : valid_chan_name name ≡ true) (modes_ok : valid_modes_field modes ≡ true)
    (settings_ok : plain_text settings ≡ true) (short : length settings ≤ 512) (low : 0 < ts)
    (high : ts < 10 ^ 18) where
  c_split :
      split_pipes (c_body name modes settings active ts) 6
      ≡ name ∷ modes ∷ settings ∷ op_text active ∷ show ts ∷ []
  c_split =
      splitn-field pipe 4 name _ (lacks-name name name_ok)
      ∙ ap (λ t. name ∷ t)
          (splitn-field pipe 3 modes _ (lacks-modes modes modes_ok)
            ∙ ap (λ t. modes ∷ t)
                (splitn-field pipe 2 settings _ (lacks-plain settings settings_ok)
                  ∙ ap (λ t. settings ∷ t)
                      (splitn-field pipe 1 (op_text active) _ (lacks-op active)
                        ∙ ap (λ t. op_text active ∷ t)
                            (splitn-last pipe 1 (show ts) (lacks-show ts)))))

  c_length : length (c_body name modes settings active ts) ≤ 669
  c_length = ground (
    arith,
    length-append name
        (pipe ∷ modes ++ (pipe ∷ settings ++ (pipe ∷ op_text active ++ pipe ∷ show ts))),
    length-append modes (pipe ∷ settings ++ (pipe ∷ op_text active ++ pipe ∷ show ts)),
    length-append settings (pipe ∷ op_text active ++ pipe ∷ show ts),
    length-append (op_text active) (pipe ∷ show ts),
    length-name name name_ok,
    length-modes modes modes_ok,
    length-op active,
    length-show ts high,
  )

  -- A C| record with a valid name, valid modes, settings of at most 512 printable bytes without a
  -- bar, and a stamp of 1 to 18 digits above 0 reads back as it was written.
  pub parse_c-c_body :
      parse_c (c_body name modes settings active ts)
      ≡ some (record { name = name; modes = modes; settings = settings; active = active; ts = ts })
  unfolding parse_c
  parse_c-c_body = ground (arith, c_length, c_split, add_op-op_text active, parse_ll-show ts high)

-- What `format_d_line` may write.
module _ (modes settings : Bytes) (ts : ℕ) (modes_ok : valid_modes_field modes ≡ true)
    (settings_ok : plain_text settings ≡ true) (short : length settings ≤ 512) (low : 0 < ts)
    (high : ts < 10 ^ 18) where
  d_split : split_pipes (d_body modes settings ts) 3 ≡ modes ∷ settings ∷ show ts ∷ []
  d_split =
      splitn-field pipe 1 modes _ (lacks-modes modes modes_ok)
      ∙ ap (λ t. modes ∷ t)
          (splitn-field pipe 0 settings _ (lacks-plain settings settings_ok)
            ∙ ap (λ t. settings ∷ t) (splitn-last pipe 0 (show ts) (lacks-show ts)))

  d_length : length (d_body modes settings ts) ≤ 603
  d_length = ground (
    arith,
    length-append modes (pipe ∷ settings ++ (pipe ∷ show ts)),
    length-append settings (pipe ∷ show ts),
    length-modes modes modes_ok,
    length-show ts high,
  )

  -- A D| record with valid modes, settings of at most 512 printable bytes without a bar, and a
  -- stamp of 1 to 18 digits above 0 reads back as it was written.
  pub parse_d-d_body :
      parse_d (d_body modes settings ts)
      ≡ some (record { modes = modes; settings = settings; ts = ts })
  unfolding parse_d
  parse_d-d_body = ground (arith, d_length, d_split, parse_ll-show ts high)
