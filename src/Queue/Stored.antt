-- ===== src/Queue/Stored.antt =====
-- The lines that src/sendq.rs stores: their form, and how it tells that one is there already.
use ircbot_rs.Prelude.{
  zero, suc, ℕ, ◌+◌, ◌≤◌, ◌≡◌, ◌≢◌, refl, ap, false, List, [], ◌∷◌, ◌++◌, All, All-append, arith,
  length, length-append, any, ◌==◌, ◌&&◌,
}
use ircbot_rs.Cstr.{Bytes, bytes_eq}
use ircbot_rs.Cstr.Case.{bytes_eq_refl}
use ircbot_rs.Queue
use ircbot_rs.Queue.{SendQ, stored, is_queued}

-- A stored line: a body that fits an IRC line, and its CRLF.
abbrev pub IsLine : Bytes → Type 0
IsLine w = (body : Bytes) × (w ≡ body ++ Queue.crlf) × (length body ≤ Queue.sendq_line_max)

-- No line stands twice in the lane.
abbrev pub Distinct : List Bytes → Type 0
Distinct [] = Unit
Distinct (x ∷ xs) = All (λ y. x ≢ y) xs × Distinct xs

pub length-take-le : (n : ℕ) (s : Bytes) → length (Queue.take n s) ≤ n
length-take-le zero s = omega arith
length-take-le (suc n) [] = omega arith
length-take-le (suc n) (x ∷ s) = omega (arith, length-take-le n s)

pub stored-IsLine : (line : Bytes) → IsLine (stored line)
unfolding stored
stored-IsLine line = (
  Queue.take _ line,
  refl,
  omega (arith, length-take-le (Queue.min (Queue.◌-◌ (length line) 2) Queue.sendq_line_max) line),
)

pub All-push :
    (l : List Bytes) (line : Bytes) → All IsLine l → IsLine line → All IsLine (l ++ line ∷ [])
All-push l line h k = All-append IsLine l (line ∷ []) h (k, tt)

-- What `is_queued` looks for is the line that would be stored.
pub length-crlf : (body : Bytes) → length (body ++ Queue.crlf) ≡ length body + 2
length-crlf body = length-append body Queue.crlf

abbrev body_len : Bytes → ℕ
body_len line = Queue.min (Queue.◌-◌ (length line) 2) Queue.sendq_line_max

pub take-all : (n : ℕ) (a b : Bytes) → length a ≡ n → Queue.take n (a ++ b) ≡ a
take-all zero [] b h = refl
take-all zero (x ∷ a) b h = absurd (omega arith)
take-all (suc n) [] b h = absurd (omega arith)
take-all (suc n) (x ∷ a) b h = ap (◌∷◌ x) (take-all n a b (omega arith))

pub length-take : (n : ℕ) (s : Bytes) → n ≤ length s → length (Queue.take n s) ≡ n
length-take zero s h = refl
length-take (suc n) [] h = absurd (omega arith)
length-take (suc n) (x ∷ s) h = omega (arith, length-take n s)

pub matches_stored :
    (line : Bytes)
    → (length (stored line) ≡ body_len line + 2)
      × (Queue.take (body_len line) (stored line) ≡ Queue.take (body_len line) line)
unfolding stored
matches_stored line =
    let n = body_len line in
    let same = length-take n line (omega arith) in
    (omega (arith, length-crlf (Queue.take n line)), take-all n (Queue.take n line) Queue.crlf same)

pub All-not-stored :
    (line : Bytes) (l : List Bytes)
    → any
        (λ w.
          length w == body_len line + 2
          && bytes_eq (Queue.take (body_len line) w) (Queue.take (body_len line) line))
        l
      ≡ false
    → All (λ w. w ≢ stored line) l
All-not-stored line [] h = tt
All-not-stored line (w ∷ l) h = (
  λ e. ground (
    arith,
    matches_stored line,
    bytes_eq_refl (Queue.take (body_len line) line),
    ap length e,
    ap (Queue.take (body_len line)) e,
  ),
  All-not-stored line l (ground arith),
)

pub not_queued :
    (line : Bytes) (q : SendQ) → is_queued line q ≡ false → All (λ w. w ≢ stored line) q.prot_lane
unfolding is_queued
not_queued line q h = All-not-stored line q.prot_lane h

pub Distinct-push :
    (l : List Bytes) (x : Bytes) → Distinct l → All (λ w. w ≢ x) l → Distinct (l ++ x ∷ [])
Distinct-push [] x d h = (tt, tt)
Distinct-push (y ∷ l) x d h =
    (All-append (λ w. y ≢ w) l (x ∷ []) d.0 (h.0, tt), Distinct-push l x d.1 h.1)
