-- ===== src/Hub/RoundTrip.antt =====
-- A c| record of src/hub_client.rs reads back as it was pushed.
use ircbot_rs.Prelude.{
  ℕ, ◌^◌, ◌<◌, ◌≡◌, refl, sym, ap, ◌∙◌, ◌⊎◌, inl, inr, Bool, true, false, some, List, [], ◌∷◌, ◌++◌,
  arith, append-nil,
}
use ircbot_rs.Prelude.Int.{ℤ}
use ircbot_rs.Cstr.{Bytes, codes, cut_back}
use ircbot_rs.Cstr.Scan.{
  Fmt, str, num, sscanf, directive, set_not, lits, lit, run_len, as_u32, of_u32,
}
use ircbot_rs.Cstr.Numbers.{show_int, IsI64, int-show_int, IsStop}
use ircbot_rs.Cstr.Sscanf.{IsField, set_not-field}
use ircbot_rs.Hub.{op_word, chan_body}
use ircbot_rs.Hub.Record.{bar, HubChan, keyed_fmt, keyless_fmt, parse_hub_chan}

sscanf-set :
    (max : ℕ) (f : Bytes) (rest : Bytes) (fmt : List Fmt)
    → IsField max bar f
    → sscanf (f ++ b'|' ∷ rest) (Fmt.set max bar ∷ Fmt.literal bar ∷ fmt) ≡ str f ∷ sscanf rest fmt
unfolding sscanf directive lits lit
sscanf-set max f rest fmt h =
    rw (sscanf, directive, set_not-field max bar f b'|' rest h (omega arith) refl) refl

sscanf-last :
    (max : ℕ) (f : Bytes) (rest : Bytes) (fmt : List Fmt)
    → IsField max bar f
    → sscanf (f ++ b'|' ∷ rest) (Fmt.set max bar ∷ fmt) ≡ str f ∷ sscanf (b'|' ∷ rest) fmt
unfolding sscanf directive
sscanf-last max f rest fmt h =
    rw (sscanf, directive, set_not-field max bar f b'|' rest h (omega arith) refl) refl

sscanf-number :
    (z : ℤ) (rest : Bytes) (fmt : List Fmt)
    → IsI64 z
    → IsStop rest
    → sscanf (show_int z ++ rest) (Fmt.number ∷ fmt) ≡ num z ∷ sscanf rest fmt
unfolding sscanf directive
sscanf-number z rest fmt h k = rw (sscanf, directive, int-show_int z rest h k) refl

of_u32-IsI64 : (m : ℕ) → m < 2 ^ 32 → IsI64 (of_u32 m)
of_u32-IsI64 m h = ground arith

-- The two u32 casts undo one another.
pub as_u32-of_u32 : (m : ℕ) → m < 2 ^ 32 → as_u32 (of_u32 m) ≡ m
as_u32-of_u32 m h = ground arith

op_word-IsField : (b : Bool) → IsField 7 bar (op_word b)
op_word-IsField true = record { some_byte = omega arith; within = omega arith; allowed = refl }
op_word-IsField false = record { some_byte = omega arith; within = omega arith; allowed = refl }

sscanf-literal :
    (rest : Bytes) (fmt : List Fmt) → sscanf (b'|' ∷ rest) (Fmt.literal bar ∷ fmt) ≡ sscanf rest fmt
unfolding sscanf directive lits lit
sscanf-literal rest fmt = refl

sscanf-nil : sscanf [] [] ≡ []
unfolding sscanf
sscanf-nil = refl

-- modes, op and ts, at the end of both shapes
sscanf-tail :
    (m ts : ℤ) (managed : Bool)
    → IsI64 m
    → IsI64 ts
    → sscanf
        (show_int m ++ b'|' ∷ (op_word managed ++ b'|' ∷ show_int ts))
        (Fmt.number ∷ Fmt.literal bar ∷ Fmt.set 7 bar ∷ Fmt.literal bar ∷ Fmt.number ∷ [])
      ≡ num m ∷ str (op_word managed) ∷ num ts ∷ []
sscanf-tail m ts managed hm hts =
    let last : sscanf (show_int ts) (Fmt.number ∷ []) ≡ num ts ∷ [] =
      ap (λ s. sscanf s (Fmt.number ∷ [])) (sym (append-nil (show_int ts)))
      ∙ sscanf-number ts [] [] hts tt
      ∙ ap (λ l. num ts ∷ l) sscanf-nil in
    sscanf-number m _ _ hm refl
    ∙ ap (λ l. num m ∷ l)
        (sscanf-literal _ _
          ∙ sscanf-set 7 (op_word managed) (show_int ts) (Fmt.number ∷ []) (op_word-IsField managed)
          ∙ ap (λ l. str (op_word managed) ∷ l) last)

-- What a parse of the record should give.
abbrev pub read_back : Bytes → Bytes → ℕ → Bool → ℤ → HubChan
read_back name key modes managed ts = record {
  chan = name;
  key = key;
  modes = of_u32 modes;
  op = op_word managed;
  ts = ts;
}

keyed_record :
    (name key : Bytes) (m ts : ℤ) (managed : Bool)
    → IsField 64 bar name
    → IsField 30 bar key
    → IsI64 m
    → IsI64 ts
    → sscanf
        (name
          ++ b'|' ∷ (key ++ b'|' ∷ (show_int m ++ b'|' ∷ (op_word managed ++ b'|' ∷ show_int ts))))
        keyed_fmt
      ≡ str name ∷ str key ∷ num m ∷ str (op_word managed) ∷ num ts ∷ []
keyed_record name key m ts managed hn hk hm hts =
    sscanf-set 64 name _ _ hn
    ∙ ap (λ l. str name ∷ l)
        (sscanf-set 30 key _ _ hk ∙ ap (λ l. str key ∷ l) (sscanf-tail m ts managed hm hts))

sscanf-empty_key :
    (rest : Bytes) (fmt : List Fmt) → sscanf (b'|' ∷ rest) (Fmt.set 30 bar ∷ fmt) ≡ []
unfolding sscanf directive set_not run_len cut_back
sscanf-empty_key rest fmt = refl

sscanf-gap :
    (rest : Bytes) (fmt : List Fmt)
    → sscanf (b'|' ∷ b'|' ∷ rest) (Fmt.literal (codes "||") ∷ fmt) ≡ sscanf rest fmt
unfolding sscanf directive lits lit
sscanf-gap rest fmt = refl

parse-keyed :
    (name key : Bytes) (modes : ℕ) (managed : Bool) (ts : ℤ)
    → IsField 64 bar name
    → IsField 30 bar key
    → IsI64 (of_u32 modes)
    → IsI64 ts
    → parse_hub_chan (chan_body name key modes managed ts)
      ≡ some (read_back name key modes managed ts)
unfolding parse_hub_chan
parse-keyed name key modes managed ts hn hk hm hts =
    rw (keyed_record name key (of_u32 modes) ts managed hn hk hm hts) refl

first_attempt :
    (name rest : Bytes)
    → IsField 64 bar name
    → sscanf (name ++ b'|' ∷ b'|' ∷ rest) keyed_fmt ≡ str name ∷ []
first_attempt name rest hn =
    sscanf-set 64 name _ _ hn ∙ ap (λ l. str name ∷ l) (sscanf-empty_key rest _)

second_attempt :
    (name : Bytes) (m ts : ℤ) (managed : Bool)
    → IsField 64 bar name
    → IsI64 m
    → IsI64 ts
    → sscanf
        (name ++ b'|' ∷ b'|' ∷ (show_int m ++ b'|' ∷ (op_word managed ++ b'|' ∷ show_int ts)))
        keyless_fmt
      ≡ str name ∷ num m ∷ str (op_word managed) ∷ num ts ∷ []
second_attempt name m ts managed hn hm hts =
    sscanf-last 64 name _ _ hn
    ∙ ap (λ l. str name ∷ l) (sscanf-gap _ _ ∙ sscanf-tail m ts managed hm hts)

parse-keyless :
    (name : Bytes) (modes : ℕ) (managed : Bool) (ts : ℤ)
    → IsField 64 bar name
    → IsI64 (of_u32 modes)
    → IsI64 ts
    → parse_hub_chan (chan_body name [] modes managed ts)
      ≡ some (read_back name [] modes managed ts)
unfolding parse_hub_chan
parse-keyless name modes managed ts hn hm hts =
    rw (first_attempt name _ hn, second_attempt name (of_u32 modes) ts managed hn hm hts) refl

-- A c| record whose name has 1 to 64 bytes and no bar, whose key is empty or has 1 to 30 bytes and no
-- bar, whose modes are a u32 and whose stamp is an i64 reads back as it was written, the modes as the
-- i32 of the same bits.
pub parse_hub_chan-chan_body :
    (name key : Bytes) (modes : ℕ) (managed : Bool) (ts : ℤ)
    → IsField 64 bar name
    → (key ≡ []) ⊎ IsField 30 bar key
    → modes < 2 ^ 32
    → IsI64 ts
    → parse_hub_chan (chan_body name key modes managed ts)
      ≡ some (read_back name key modes managed ts)
parse_hub_chan-chan_body name key modes managed ts hn (inr hk) hm hts =
    parse-keyed name key modes managed ts hn hk (of_u32-IsI64 modes hm) hts
parse_hub_chan-chan_body name key modes managed ts hn (inl e) hm hts =
    let back : parse_hub_chan (chan_body name [] modes managed ts)
        ≡ some (read_back name [] modes managed ts) =
      parse-keyless name modes managed ts hn (of_u32-IsI64 modes hm) hts in
    rw e back
