-- ===== src/Glob/Overlap.antt =====
-- `glob_overlap` of src/glob_overlap.rs: the table decides whether two globs share a text.
use ircbot_rs.Prelude.{
  ℕ, ◌≤◌, ◌≡◌, refl, ◌↔◌, ◌⊎◌, Bool, true, false, ◌||◌, List, [], ◌∷◌, arith, ◌==◌, if◌then◌else◌,
  Bool-cases, inl, inr, length, ==_iff,
}
use ircbot_rs.Cstr.{Bytes, byte_eq_ic}
use ircbot_rs.Glob.{byte_ok, end_row, row, rows, glob_overlap, glob_overlap_max, head_or}
use ircbot_rs.Glob.Pattern.{Matches, done, one, skip, take, byte_ok_refl}

-- The recursion that the comment of the function states, over the suffixes of both patterns.
unfoldable pub ov : Bytes → Bytes → Bool
ov [] [] = true
ov [] (y ∷ b) = if y == b'*' then ov [] b else false
ov (x ∷ a) [] = if x == b'*' then ov a [] else false
ov (x ∷ a) (y ∷ b) =
    if x == b'*' || y == b'*'
    then ov a (y ∷ b) || ov (x ∷ a) b
    else if x == b'?' || y == b'?' || byte_eq_ic x y
    then ov a b
    else false

-- One cell for each suffix.
row_of : (Bytes → Bool) → Bytes → List Bool
row_of f [] = f [] ∷ []
row_of f (y ∷ b) = f (y ∷ b) ∷ row_of f b

head-row_of : (f : Bytes → Bool) (b : Bytes) → head_or (row_of f b) ≡ f b
unfolding row_of
head-row_of f [] = refl
head-row_of f (y ∷ b) = refl

end_row_lem : (b : Bytes) → end_row b ≡ row_of (ov []) b
unfolding end_row row_of ov
end_row_lem [] = refl
end_row_lem (y ∷ b) = rw (end_row_lem b) (rw (head-row_of (ov []) b) refl)

row_lem : (x : ℕ) (a b : Bytes) → row x b (row_of (ov a) b) ≡ row_of (ov (x ∷ a)) b
unfolding row row_of ov
row_lem x a [] = refl
row_lem x a (y ∷ b) =
    rw (row_lem x a b) (rw (head-row_of (ov (x ∷ a)) b, head-row_of (ov a) b) refl)

-- The table holds the recursion's answers.
rows_lem : (a b : Bytes) → rows a b ≡ row_of (ov a) b
unfolding rows
rows_lem [] b = end_row_lem b
rows_lem (x ∷ a) b = rw (rows_lem a b) (row_lem x a b)

table_lem : (a b : Bytes) → head_or (rows a b) ≡ ov a b
table_lem a b = rw (rows_lem a b) (head-row_of (ov a) b)

-- A text that both patterns match.
abbrev pub Shared : Bytes → Bytes → Type 0
Shared a b = (s : Bytes) × Matches a s × Matches b s

abbrev witness : ℕ → ℕ → ℕ
witness x y = if x == b'?' then y else x

witness_left : (x y : ℕ) → byte_ok x (witness x y) ≡ true
unfolding byte_ok
witness_left x y = ground (arith, byte_ok_refl x)

witness_right :
    (x y : ℕ) → (x == b'?' || y == b'?' || byte_eq_ic x y) ≡ true → byte_ok y (witness x y) ≡ true
unfolding byte_ok byte_eq_ic
witness_right x y h = ground (arith, byte_ok_refl y)

-- A star of one pattern covers a byte that the other one asks for.
cover_left : {x y : ℕ} {a b : Bytes} → x ≡ b'*' → Shared (x ∷ a) b → Shared (x ∷ a) (y ∷ b)
cover_left {x} {y} {a} {b} e (s, da, db) = elim (Bool-cases (y == b'*')) [
  | inl star ↦ (s, da, skip ((==_iff y b'*').0 star) db)
  | inr other ↦ (y ∷ s, take e da, one (λ p. ground arith) (byte_ok_refl y) db)
]

cover_right : {x y : ℕ} {a b : Bytes} → y ≡ b'*' → Shared a (y ∷ b) → Shared (x ∷ a) (y ∷ b)
cover_right {x} {y} {a} {b} e (s, da, db) = elim (Bool-cases (x == b'*')) [
  | inl star ↦ (s, skip ((==_iff x b'*').0 star) da, db)
  | inr other ↦ (x ∷ s, one (λ p. ground arith) (byte_ok_refl x) da, take e db)
]

skip_left : {x : ℕ} {a b : Bytes} → x ≡ b'*' → Shared a b → Shared (x ∷ a) b
skip_left e (s, da, db) = (s, skip e da, db)

skip_right : {y : ℕ} {a b : Bytes} → y ≡ b'*' → Shared a b → Shared a (y ∷ b)
skip_right e (s, da, db) = (s, da, skip e db)

or_cases : (c d : Bool) → (c || d) ≡ true → (c ≡ true) ⊎ (d ≡ true)
or_cases true d h = inl refl
or_cases false d h = inr h

ov→Shared : (a b : Bytes) → ov a b ≡ true → Shared a b
unfolding ov
ov→Shared [] [] h = ([], done, done)
ov→Shared [] (y ∷ b) h = skip_right (ground arith) (ov→Shared [] b (ground arith))
ov→Shared (x ∷ a) [] h = skip_left (ground arith) (ov→Shared a [] (ground arith))
ov→Shared (x ∷ a) (y ∷ b) h = elim (Bool-cases (x == b'*')) [
  | inl sx ↦ elim (or_cases (ov a (y ∷ b)) (ov (x ∷ a) b) (ground arith)) [
    | inl p ↦ skip_left ((==_iff x b'*').0 sx) (ov→Shared a (y ∷ b) p)
    | inr q ↦ cover_left ((==_iff x b'*').0 sx) (ov→Shared (x ∷ a) b q)
  ]
  | inr nx ↦ elim (Bool-cases (y == b'*')) [
    | inl sy ↦ elim (or_cases (ov a (y ∷ b)) (ov (x ∷ a) b) (ground arith)) [
      | inl p ↦ cover_right ((==_iff y b'*').0 sy) (ov→Shared a (y ∷ b) p)
      | inr q ↦ skip_right ((==_iff y b'*').0 sy) (ov→Shared (x ∷ a) b q)
    ]
    | inr ny ↦
        let (s, da, db) = ov→Shared a b (ground arith) in
        (
          witness x y ∷ s,
          one (λ p. ground arith) (witness_left x y) da,
          one (λ p. ground arith) (witness_right x y (ground arith)) db,
        )
  ]
]

-- Two bytes that accept one byte are compatible.
compatible :
    (x y c : ℕ)
    → byte_ok x c ≡ true
    → byte_ok y c ≡ true
    → (x == b'?' || y == b'?' || byte_eq_ic x y) ≡ true
unfolding byte_ok byte_eq_ic
compatible x y c h k = ground arith

Shared→ov : {a b s : Bytes} → Matches a s → Matches b s → ov a b ≡ true
unfolding ov
Shared→ov done done = refl
Shared→ov done (skip {x = y} {p = b} e d) = ground (arith, Shared→ov done d)
Shared→ov (skip {x = x} {p = a} e d) done = ground (arith, Shared→ov d done)
Shared→ov (skip {x = x} {p = a} e d) (skip {x = y} {p = b} f g) =
    ground (arith, Shared→ov d (skip f g))
Shared→ov (skip {x = x} {p = a} e d) (take {x = y} {p = b} f g) =
    ground (arith, Shared→ov d (take f g))
Shared→ov (skip {x = x} {p = a} e d) (one {x = y} {p = b} n k g) =
    ground (arith, Shared→ov d (one n k g))
Shared→ov (take {x = x} {p = a} e d) (skip {x = y} {p = b} f g) =
    ground (arith, Shared→ov (take e d) g)
Shared→ov (one {x = x} {p = a} n k d) (skip {x = y} {p = b} f g) =
    ground (arith, Shared→ov (one n k d) g)
Shared→ov (take {x = x} {p = a} e d) (take {x = y} {p = b} f g) = Shared→ov d g
Shared→ov (take {x = x} {p = a} e d) (one {x = y} {p = b} n k g) = ground (arith, Shared→ov d g)
Shared→ov (one {x = x} {p = a} n k d) (take {x = y} {p = b} f g) = ground (arith, Shared→ov d g)
Shared→ov (one {x = x} {c = c} {p = a} n k d) (one {x = y} {p = b} m l g) =
    ground (arith, compatible x y c k l, Shared→ov d g)

-- For patterns of at most 256 bytes, `glob_overlap` answers true exactly when some text matches
-- both patterns.
pub glob_overlap_iff :
    (a b : Bytes)
    → length a ≤ glob_overlap_max
    → length b ≤ glob_overlap_max
    → (glob_overlap a b ≡ true) ↔ Shared a b
unfolding glob_overlap
glob_overlap_iff a b ha hb = (
  λ h. ov→Shared a b (ground (arith, table_lem a b)),
  λ (s, da, db). ground (arith, table_lem a b, Shared→ov da db),
)

-- Whatever the lengths, two patterns that share a text are reported as overlapping.
pub glob_overlap-of-Shared : (a b s : Bytes) → Matches a s → Matches b s → glob_overlap a b ≡ true
unfolding glob_overlap
glob_overlap-of-Shared a b s da db = ground (arith, table_lem a b, Shared→ov da db)
