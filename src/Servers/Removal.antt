-- ===== src/Servers/Removal.antt =====
-- A server that is taken off the list of src/irc_client.rs, and the holds of the others.
use ircbot_rs.Prelude.{
  ℕ, zero, suc, ◌-◌, ◌≤◌, ◌<◌, ◌≡◌, refl, sym, ap, ◌∙◌, inl, inr, Bool, false, Option, none, some,
  List, [], ◌∷◌, ◌++◌, arith, length, get_elem?, ltb, leb, ◌==◌, if◌then◌else◌, Bool-cases,
}
use ircbot_rs.Cstr.{Bytes}
use ircbot_rs.Servers.{Servers, ServerBlock, open_block, remove, link_after, server_block_remove}

-- "-server": the command takes the block away first, then the name.
unfoldable pub remove_server : ℕ → Servers → Servers
unfolding server_block_remove
remove_server idx s =
    let s' = server_block_remove idx s in record s' { server_list = remove idx s'.server_list }

abbrev pub is_link : ℕ → Option ℕ → Bool
is_link i none = false
is_link i (some j) = i == j

-- Where the entry of an index stands once another is gone.
abbrev pub moved : ℕ → ℕ → ℕ
moved idx i = if ltb idx i then i - 1 else i

-- An entry that stays, of a list that goes on behind.
remove-before :
    {A : Type 0} (idx i : ℕ) (xs ys : List A) (x : A)
    → i < idx
    → get_elem? xs i ≡ some x
    → get_elem? (remove idx xs ++ ys) i ≡ some x
remove-before idx i [] ys x h at = ground arith
remove-before zero i (y ∷ xs) ys x h at = absurd (omega arith)
remove-before (suc idx) zero (y ∷ xs) ys x h at = at
remove-before (suc idx) (suc i) (y ∷ xs) ys x h at = remove-before idx i xs ys x (omega arith) at

append-get :
    {A : Type 0} (xs ys : List A) (i : ℕ) (x : A)
    → get_elem? xs i ≡ some x
    → get_elem? (xs ++ ys) i ≡ some x
append-get [] ys i x at = ground arith
append-get (y ∷ xs) ys zero x at = at
append-get (y ∷ xs) ys (suc i) x at = append-get xs ys i x at

remove-behind :
    {A : Type 0} (idx i : ℕ) (xs ys : List A) (x : A)
    → idx ≤ i
    → get_elem? xs (suc i) ≡ some x
    → get_elem? (remove idx xs ++ ys) i ≡ some x
remove-behind idx i [] ys x h at = ground arith
remove-behind zero i (y ∷ xs) ys x h at = append-get xs ys i x at
remove-behind (suc idx) zero (y ∷ xs) ys x h at = absurd (omega arith)
remove-behind (suc idx) (suc i) (y ∷ xs) ys x h at = remove-behind idx i xs ys x (omega arith) at

remove-moved :
    {A : Type 0} (idx i : ℕ) (xs ys : List A) (x : A)
    → (i == idx) ≡ false
    → get_elem? xs i ≡ some x
    → get_elem? (remove idx xs ++ ys) (moved idx i) ≡ some x
remove-moved idx zero xs ys x other at =
    let stay : moved idx zero ≡ zero = ground arith in
    ap (λ (n : ℕ). get_elem? (remove idx xs ++ ys) n) stay
    ∙ remove-before idx zero xs ys x (ground arith) at
remove-moved idx (suc i) xs ys x other at = elim (Bool-cases (ltb idx (suc i))) [
  | inl e ↦
      let back : moved idx (suc i) ≡ i = ground arith in
      ap (λ (n : ℕ). get_elem? (remove idx xs ++ ys) n) back
      ∙ remove-behind idx i xs ys x (ground arith) at
  | inr e ↦
      let stay : moved idx (suc i) ≡ suc i = ground arith in
      ap (λ (n : ℕ). get_elem? (remove idx xs ++ ys) n) stay
      ∙ remove-before idx (suc i) xs ys x (ground arith) at
]

-- A server with its name and its hold, and whether the link is to it.
pub record Entry (s : Servers) (i : ℕ) (name : Bytes) (block : ServerBlock) (link : Bool)
    : Type 0 where
  pub named : get_elem? s.server_list i ≡ some name
  pub blocked : get_elem? s.server_blocks i ≡ some block
  pub at : is_link i s.irc_server_idx ≡ link

link-moved :
    (idx i : ℕ) (o : Option ℕ)
    → (i == idx) ≡ false
    → is_link (moved idx i) (link_after idx o) ≡ is_link i o
link-moved idx i none other = refl
link-moved idx i (some j) other = ground arith

append-nil : {A : Type 0} (xs : List A) → xs ++ [] ≡ xs
append-nil [] = refl
append-nil (x ∷ xs) = ap (λ l. x ∷ l) (append-nil xs)

-- Taking a server off the list keeps every other one with its name, its hold and the link, if that is
-- to it, under its new index.
pub remove_server-Entry :
    (idx i : ℕ) (s : Servers) (name : Bytes) (block : ServerBlock) (link : Bool)
    → idx < length s.server_list
    → (i == idx) ≡ false
    → Entry s i name block link
    → Entry (remove_server idx s) (moved idx i) name block link
unfolding remove_server server_block_remove
remove_server-Entry idx i s name block link inside other e =
    let found : leb (length s.server_list) idx ≡ false = ground arith in
    rw found (record {
      named =
          ap (λ l. get_elem? l (moved idx i)) (sym (append-nil (remove idx s.server_list)))
          ∙ remove-moved idx i s.server_list [] name other e.named;
      blocked = remove-moved idx i s.server_blocks (open_block ∷ []) block other e.blocked;
      at = link-moved idx i s.irc_server_idx other ∙ e.at;
    })
