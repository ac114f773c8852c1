-- ===== src/Ldap/Frame/Reading.antt =====
-- Reads off the front of a stream, one way and back.
use protect.Ldap.Frame.{IoError, Stream, io, read_exact, from_be_bytes}
use protect.Prelude.{
  ℕ, zero, suc, ◌⊎◌, ◌≤◌, ◌<◌, ◌≡◌, refl, ap, sym, ◌∙◌, true, List, [], ◌∷◌, ◌++◌, ok, err, length,
  take, drop, replicate, length-append, take-append-drop, leb, arith, Bool-cases, inl, inr,
  append_assoc,
}

abbrev pub stream : List ℕ → IoError → Stream
stream bs e = record { bytes = bs; ending = e }

take-append : (xs ys : List ℕ) → take (length xs) (xs ++ ys) ≡ xs
take-append [] ys = refl
take-append (x ∷ xs) ys = ap (◌∷◌ x) (take-append xs ys)

drop-append : (xs ys : List ℕ) → drop (length xs) (xs ++ ys) ≡ ys
drop-append [] ys = refl
drop-append (x ∷ xs) ys = drop-append xs ys

pub read_exact-append :
    (xs ys : List ℕ) (e : IoError)
    → read_exact (length xs) (stream (xs ++ ys) e) ≡ ok (xs, stream ys e)
unfolding read_exact
read_exact-append xs ys e =
    let enough : leb (length xs) (length (xs ++ ys)) ≡ true = ground (arith, length-append xs ys) in
    rw (enough, take-append xs ys, drop-append xs ys) refl

length-take : (n : ℕ) (xs : List ℕ) → n ≤ length xs → length (take n xs) ≡ n
length-take zero xs h = refl
length-take (suc n) [] h = absurd (omega arith)
length-take (suc n) (x ∷ xs) h = ap suc (length-take n xs (omega arith))

-- What a read takes off a stream.
abbrev pub Takes : Stream → List ℕ → Stream → Type 0
Takes s xs s' = (s.bytes ≡ xs ++ s'.bytes) × (s'.ending ≡ s.ending)

pub Takes-append :
    (s t u : Stream) (xs ys : List ℕ) → Takes s xs t → Takes t ys u → Takes s (xs ++ ys) u
Takes-append s t u xs ys (p, e) (q, f) =
    (p ∙ (ap (λ (l : List ℕ). xs ++ l) q ∙ sym (append_assoc xs ys u.bytes)), f ∙ e)

pub read_exact-cases :
    (n : ℕ) (s : Stream)
    → ((xs : List ℕ) × (s' : Stream) × (read_exact n s ≡ ok (xs, s'))
        × (length xs ≡ n)
        × Takes s xs s')
      ⊎ ((read_exact n s ≡ err (io s.ending)) × (length s.bytes < n))
unfolding read_exact
read_exact-cases n s = elim (Bool-cases (leb n (length s.bytes))) [
  | inl enough ↦ inl (
    take n s.bytes,
    record s { bytes = drop n s.bytes },
    rw enough refl,
    length-take n s.bytes (ground arith),
    (sym (take-append-drop n s.bytes), refl),
  )
  | inr short ↦ inr (rw short refl, ground arith)
]

pub from_be_bytes-padding :
    (k : ℕ) (bs : List ℕ) → from_be_bytes 0 (replicate k 0 ++ bs) ≡ from_be_bytes 0 bs
unfolding from_be_bytes
from_be_bytes-padding zero bs = refl
from_be_bytes-padding (suc k) bs = from_be_bytes-padding k bs
