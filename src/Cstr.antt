-- ===== src/Cstr.antt =====
-- src/cstr.rs: C string rules, over the bytes of a str. A Rust str is the list of its UTF-8 bytes.
pub mod Case
pub mod Trunc
pub mod Tok
pub mod Words
pub mod Numbers
pub mod Sscanf
pub mod Scan
use ircbot_rs.Prelude.{
  ℕ, zero, suc, ◌+◌, ◌-◌, String, code, Bool, true, false, ◌&&◌, ◌||◌, Option, none, some, List, [],
  ◌∷◌, ltb, leb, ◌==◌, if◌then◌else◌, length, get_elem?, take, drop, position, any, all,
}

abbrev pub Bytes : Type 0
Bytes = List ℕ

-- The bytes of a text literal, which is ASCII wherever the program writes one.
abbrev pub codes : String → Bytes
codes String.[] = []
codes (String.◌∷◌ c s) = code c ∷ codes s

-- `u8::to_ascii_lowercase`
unfoldable pub lower : ℕ → ℕ
lower c = if leb b'A' c && leb c b'Z' then c + 32 else c

-- `u8::eq_ignore_ascii_case`
unfoldable pub byte_eq_ic : ℕ → ℕ → Bool
unfolding lower
byte_eq_ic a b = lower a == lower b

unfoldable pub eq_ic : Bytes → Bytes → Bool
unfolding byte_eq_ic
eq_ic [] [] = true
eq_ic [] (b ∷ bs) = false
eq_ic (a ∷ as') [] = false
eq_ic (a ∷ as') (b ∷ bs) = byte_eq_ic a b && eq_ic as' bs

-- `==` on str
unfoldable pub bytes_eq : Bytes → Bytes → Bool
bytes_eq [] [] = true
bytes_eq [] (b ∷ bs) = false
bytes_eq (a ∷ as') [] = false
bytes_eq (a ∷ as') (b ∷ bs) = a == b && bytes_eq as' bs

unfoldable pub starts_with_ic : Bytes → Bytes → Bool
unfolding eq_ic
starts_with_ic s prefix = leb (length prefix) (length s) && eq_ic (take (length prefix) s) prefix

unfoldable pub is_empty : Bytes → Bool
is_empty [] = true
is_empty (_ ∷ _) = false

-- `str::is_char_boundary`: not inside a UTF-8 sequence
unfoldable pub is_char_boundary : Bytes → ℕ → Bool
is_char_boundary s i =
    i == 0 || elim (get_elem? s i) [ none ↦ i == length s | some b ↦ ltb b 128 || leb 192 b ]

-- What a first byte of a UTF-8 sequence asks for: the bytes that follow, and the range of the next.
abbrev utf8_lead : ℕ → Option (ℕ × ℕ × ℕ)
utf8_lead c =
    if ltb c 0x80
    then some (0, 0x80, 0xbf)
    else if ltb c 0xc2
    then none
    else if ltb c 0xe0
    then some (1, 0x80, 0xbf)
    else if c == 0xe0
    then some (2, 0xa0, 0xbf)
    else if c == 0xed
    then some (2, 0x80, 0x9f)
    else if ltb c 0xf0
    then some (2, 0x80, 0xbf)
    else if c == 0xf0
    then some (3, 0x90, 0xbf)
    else if ltb c 0xf4
    then some (3, 0x80, 0xbf)
    else if c == 0xf4
    then some (3, 0x80, 0x8f)
    else none

utf8_from : ℕ → ℕ → ℕ → Bytes → Bool
utf8_from zero lo hi [] = true
utf8_from (suc n) lo hi [] = false
utf8_from zero lo hi (c ∷ s) = elim (utf8_lead c) [
  | none ↦ false
  | some (n, lo', hi') ↦ utf8_from n lo' hi' s
]
utf8_from (suc n) lo hi (c ∷ s) =
    let more = utf8_from n 0x80 0xbf s in if leb lo c && leb c hi then more else false

-- `std::str::from_utf8(s).is_ok()`
unfoldable pub is_utf8 : Bytes → Bool
unfolding utf8_from
is_utf8 = utf8_from 0 0x80 0xbf

-- `while end > 0 && !s.is_char_boundary(end) { end -= 1 }`
unfoldable pub cut_back : Bytes → ℕ → ℕ
unfolding is_char_boundary
cut_back s zero = 0
cut_back s (suc e) = let r = cut_back s e in if is_char_boundary s (suc e) then suc e else r

unfoldable pub trunc : Bytes → ℕ → Bytes
unfolding cut_back
trunc s cap = if leb (length s) (cap - 1) then s else take (cut_back s (cap - 1)) s

-- `s.find(c)` of an ASCII byte
abbrev pub find_byte : ℕ → Bytes → Option ℕ
find_byte c = position (λ b. b == c)

unfoldable pub until_nul : Bytes → Bytes
until_nul s = elim (find_byte 0 s) [ none ↦ s | some i ↦ take i s ]

unfoldable pub is_hexdigit : ℕ → Bool
is_hexdigit c = leb b'0' c && leb c b'9' || leb b'A' c && leb c b'F' || leb b'a' c && leb c b'f'

-- the loop of `is_uuid` from index `i`
unfoldable pub uuid_from : ℕ → Bytes → Bool
unfolding is_hexdigit
uuid_from i [] = true
uuid_from i (c ∷ s) =
    (if i == 8 || i == 13 || i == 18 || i == 23 then c == b'-' else is_hexdigit c)
    && uuid_from (i + 1) s

unfoldable pub is_uuid : Bytes → Bool
unfolding uuid_from
is_uuid s = length s == 36 && uuid_from 0 s

unfoldable pub mask_nick : Bytes → ℕ → Bytes
unfolding trunc
mask_nick mask cap = trunc (elim (find_byte b'!' mask) [ none ↦ mask | some n ↦ take n mask ]) cap

-- `split_fields`: at most `max` fields, and what follows the last of them is dropped.
unfoldable pub split_fields : Bytes → ℕ → List Bytes
split_fields rest zero = []
split_fields rest (suc max) = elim (find_byte b'|' rest) [
  | some i ↦ take i rest ∷ split_fields (drop (suc i) rest) max
  | none ↦ rest ∷ []
]
