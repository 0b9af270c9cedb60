-- ===== src/Cstr/Scan.antt =====
-- strtoll and the sscanf directives of src/cstr.rs.
use ircbot_rs.Prelude.{
  ℕ, zero, suc, ◌+◌, ◌-◌, ◌*◌, ◌^◌, ◌%◌, Bool, true, false, not, ◌&&◌, ◌||◌, Option, none, some,
  List, [], ◌∷◌, ◌++◌, ltb, leb, ◌==◌, if◌then◌else◌, length, take, drop, any,
}
use ircbot_rs.Prelude.Int.{ℤ, pos, negsuc}
use ircbot_rs.Cstr.{Bytes, cut_back}

abbrev pub is_c_space : ℕ → Bool
is_c_space c = c == b' ' || c == b'\t' || c == b'\n' || c == 0x0b || c == 0x0c || c == b'\r'

abbrev pub is_digit : ℕ → Bool
is_digit c = leb b'0' c && leb c b'9'

-- `while i < max && p(b[i]) { i += 1 }`
unfoldable pub run_len : ℕ → (ℕ → Bool) → Bytes → ℕ
run_len zero p s = 0
run_len (suc max) p [] = 0
run_len (suc max) p (c ∷ s) = let n = run_len max p s in if p c then suc n else 0

-- The magnitude of the least or the greatest i64.
abbrev pub i64_limit : Bool → ℕ
i64_limit neg = if neg then 2 ^ 63 else 2 ^ 63 - 1

-- The value so far, `none` after an overflow.
abbrev push_digit : Bool → ℕ → Option ℕ → Option ℕ
push_digit neg d none = none
push_digit neg d (some v) = if leb (v * 10 + d) (i64_limit neg) then some (v * 10 + d) else none

-- The loop over the digits: the value and how many they are.
unfoldable pub strtoll_digits : Bool → Option ℕ → Bytes → Option ℕ × ℕ
strtoll_digits neg v [] = (v, 0)
strtoll_digits neg v (c ∷ s) =
    let (r, n) = strtoll_digits neg (push_digit neg (c - b'0') v) s in
    if is_digit c then (r, suc n) else (v, 0)

abbrev pub signed : Bool → ℕ → ℤ
signed true zero = pos 0
signed true (suc n) = negsuc n
signed false n = pos n

abbrev or_limit : Bool → Option ℕ → ℕ
or_limit neg none = i64_limit neg
or_limit neg (some v) = v

abbrev strtoll_value : Bool → ℕ → Option ℕ × ℕ → ℤ × ℕ
strtoll_value neg start (v, n) =
    if n == 0 then (pos 0, 0) else (signed neg (or_limit neg v), start + n)

abbrev strtoll_sign : ℕ → Bytes → ℤ × ℕ
strtoll_sign i [] = (pos 0, 0)
strtoll_sign i (c ∷ s) =
    if c == b'+' || c == b'-'
    then strtoll_value (c == b'-') (i + 1) (strtoll_digits (c == b'-') (some 0) s)
    else strtoll_value false i (strtoll_digits false (some 0) (c ∷ s))

unfoldable pub strtoll : Bytes → ℤ × ℕ
unfolding run_len strtoll_digits
strtoll s = let i = run_len (length s) is_c_space s in strtoll_sign i (drop i s)

unfoldable pub atoll : Bytes → ℤ
unfolding strtoll
atoll s = (strtoll s).0

-- `as i32`: the low 32 bits, read with their sign.
abbrev pub as_u32 : ℤ → ℕ
as_u32 (pos n) = n % 2 ^ 32
as_u32 (negsuc n) = 2 ^ 32 - 1 - n % 2 ^ 32

abbrev pub of_u32 : ℕ → ℤ
of_u32 w = if ltb w (2 ^ 31) then pos w else negsuc (2 ^ 32 - 1 - w)

abbrev pub as_i32 : ℤ → ℤ
as_i32 z = of_u32 (as_u32 z)

unfoldable pub atoi : Bytes → ℤ
unfolding strtoll
atoi s = as_i32 (strtoll s).0

-- The directives of a scan, on what it has not consumed: the conversion, and what is left then.

abbrev cut : ℕ → Bytes → Option (Bytes × Bytes)
cut n r = if n == 0 then none else some (take n r, drop n r)

-- `while n > 0 && !r.is_char_boundary(n) { n -= 1 }` is `cut_back`.
unfoldable pub set_not : ℕ → Bytes → Bytes → Option (Bytes × Bytes)
unfolding run_len cut_back
set_not max excl r = cut (cut_back r (run_len max (λ c. not (any (λ d. d == c) excl)) r)) r

unfoldable pub lit : ℕ → Bytes → Option Bytes
lit c [] = none
lit c (x ∷ r) = if x == c then some r else none

unfoldable pub int : Bytes → Option (ℤ × Bytes)
unfolding strtoll
int r = let (v, used) = strtoll r in if used == 0 then none else some (v, drop used r)

unfoldable pub word : ℕ → Bytes → Option (Bytes × Bytes)
unfolding run_len cut_back
word max s =
    let r = drop (run_len (length s) is_c_space s) s in
    cut (cut_back r (run_len max (λ c. not (is_c_space c)) r)) r

pub data Fmt : Type 0 where
  set : ℕ → Bytes → Fmt
  literal : Bytes → Fmt
  number : Fmt
  word_of : ℕ → Fmt

pub data Conv : Type 0 where
  str : Bytes → Conv
  num : ℤ → Conv

-- `Conv::s` and `Conv::i`
unfoldable pub conv_s : Conv → Bytes
conv_s (str s) = s
conv_s (num v) = []

unfoldable pub conv_i : Conv → ℤ
conv_i (str s) = pos 0
conv_i (num v) = v

-- `l.bytes().all(|b| sc.lit(b))`
unfoldable pub lits : Bytes → Bytes → Option Bytes
unfolding lit
lits [] r = some r
lits (c ∷ l) r = elim (lit c r) [ none ↦ none | some r' ↦ lits l r' ]

abbrev of_str : Option (Bytes × Bytes) → Option (List Conv × Bytes)
of_str none = none
of_str (some (s, r)) = some (str s ∷ [], r)

abbrev of_num : Option (ℤ × Bytes) → Option (List Conv × Bytes)
of_num none = none
of_num (some (v, r)) = some (num v ∷ [], r)

abbrev of_lit : Option Bytes → Option (List Conv × Bytes)
of_lit none = none
of_lit (some r) = some ([], r)

-- One directive: what it converts, and what is left.
unfoldable pub directive : Fmt → Bytes → Option (List Conv × Bytes)
unfolding set_not lits int word
directive (set max excl) r = of_str (set_not max excl r)
directive (literal l) r = of_lit (lits l r)
directive number r = of_num (int r)
directive (word_of max) r = of_str (word max r)

-- The conversions before the first failure.
unfoldable pub sscanf : Bytes → List Fmt → List Conv
unfolding directive
sscanf r [] = []
sscanf r (d ∷ fmt) = elim (directive d r) [ none ↦ [] | some (c, r') ↦ c ++ sscanf r' fmt ]
