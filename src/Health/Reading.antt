-- ===== src/Health/Reading.antt =====
-- The first line of a probe, however its bytes arrive (src/core/health.rs, `handle_connection`).
use protect.Health.{read_timeout, buffer_len, Ending, has_crlf, is_read, read_loop, first_line}
use protect.Prelude.{
  ltb, text_equality, ℕ, zero, suc, ◌+◌, ◌-◌, ◌≤◌, ◌≡◌, ◌≢◌, ◌⊎◌, inl, inr, refl, sym, ap, ◌∙◌,
  subst, Bool, true, false, ◌||◌, List, [], ◌∷◌, ◌++◌, append_assoc, append-nil, length, take, drop,
  take-append-drop, nat_eq, Text, ok, All, arith, Bool-cases, length-append,
}

abbrev pub joined : List (ℕ × Text) → Text
joined [] = []
joined ((at, s) ∷ segments) = s ++ joined segments

-- Each read finds something before the deadline.
abbrev pub InTime : List (ℕ × Text) → Type 0
InTime segments = All (λ s. (s.0 ≤ read_timeout) × (s.1 ≢ [])) segments

abbrev pub IsLine : Text → Type 0
IsLine line = All (λ b. b ≢ 10) line

-- The bytes of a request that begins with a line.
abbrev pub request : Text → Text → Text
request line rest = line ++ (13 ∷ 10 ∷ rest)

abbrev has_newline : Text → Bool
has_newline [] = false
has_newline (b ∷ bytes) = nat_eq b 10 || has_newline bytes

has_crlf-has_newline : (bytes : Text) → has_crlf bytes ≡ true → has_newline bytes ≡ true
unfolding has_crlf
has_crlf-has_newline [] h = absurd (cc)
has_crlf-has_newline (b ∷ []) h = ground arith
has_crlf-has_newline (b ∷ c ∷ bytes) h = ground (arith, has_crlf-has_newline (c ∷ bytes))

has_crlf-request : (line rest : Text) → has_crlf (request line rest) ≡ true
unfolding has_crlf
has_crlf-request [] rest = refl
has_crlf-request (b ∷ line) rest = ground (arith, has_crlf-request line rest)

-- A line feed is read only with the whole line.
newline_late :
    (buf unread line rest : Text)
    → IsLine line
    → buf ++ unread ≡ request line rest
    → has_newline buf ≡ true
    → length line + 2 ≤ length buf
newline_late [] unread line rest h e n = absurd (cc)
newline_late (b ∷ []) unread [] rest h e n = ground arith
newline_late (b ∷ c ∷ buf) unread [] rest h e n = omega arith
newline_late (b ∷ buf) unread (l ∷ line) rest h e n =
    let tails : buf ++ unread ≡ request line rest = cc in
    let first : b ≡ l = cc in
    omega (arith, newline_late buf unread line rest h.1 tails (ground arith))

whole_line :
    (buf unread line rest : Text)
    → buf ++ unread ≡ request line rest
    → length line + 2 ≤ length buf
    → (rest' : Text) × (buf ≡ request line rest')
whole_line [] unread line rest e h = absurd (omega arith)
whole_line (b ∷ []) unread line rest e h = absurd (omega arith)
whole_line (b ∷ c ∷ buf) unread [] rest e h = (buf, ground arith)
whole_line (b ∷ c ∷ buf) unread (l ∷ line) rest e h =
    let (rest', same) = whole_line (c ∷ buf) unread line rest (cc) (omega arith) in
    (rest', ground arith)

pub first_line-request : (line rest : Text) → IsLine line → first_line (request line rest) ≡ line
unfolding first_line
first_line-request [] rest h = refl
first_line-request (b ∷ []) rest h = ground arith
first_line-request (b ∷ c ∷ line) rest h = ground (arith, first_line-request (c ∷ line) rest h.1)

take_all : (n : ℕ) (xs : Text) → (length (take n xs) ≡ n) ⊎ (drop n xs ≡ [])
take_all zero xs = inl refl
take_all (suc n) [] = inr refl
take_all (suc n) (x ∷ xs) = elim (take_all n xs) [
  | inl full ↦ inl (ap suc full)
  | inr rest ↦ inr rest
]

length-take_le : (n : ℕ) (xs : Text) → length (take n xs) ≤ n
length-take_le zero xs = omega arith
length-take_le (suc n) [] = omega arith
length-take_le (suc n) (x ∷ xs) = omega (arith, length-take_le n xs)

-- What the loop knows of the bytes that it has read, and of those that it may still read.
pub record IsReading (buf unread line rest : Text) (segments : List (ℕ × Text)) : Type 0 where
  pub split : buf ++ unread ≡ request line rest
  pub fits : length buf ≤ buffer_len
  pub follows : (length buf ≡ buffer_len) ⊎ (unread ≡ joined segments)

module _ (line rest : Text) (one_line : IsLine line) (short : length line + 2 ≤ buffer_len) where
  read_enough :
      (buf unread : Text) (segments : List (ℕ × Text))
      → IsReading buf unread line rest segments
      → is_read buf ≡ true
      → (rest' : Text) × (buf ≡ request line rest')
  unfolding is_read
  read_enough buf unread segments r h =
      whole_line buf unread line rest r.split (elim (Bool-cases (has_crlf buf)) [
        | inl found ↦
            newline_late buf unread line rest one_line r.split (has_crlf-has_newline buf found)
        | inr missing ↦ ground arith
      ])

  not_ended : (buf unread : Text) → IsReading buf unread line rest [] → is_read buf ≡ true
  unfolding is_read
  not_ended buf unread r = elim r.follows [
    | inl full ↦ ground arith
    | inr nothing ↦
        let all : buf ≡ request line rest =
          sym (append-nil buf) ∙ (ap (λ u. buf ++ u) (sym nothing) ∙ r.split) in
        ground (arith, subst (λ x. has_crlf x ≡ true) (sym all) (has_crlf-request line rest))
  ]

  read_on :
      (buf unread : Text) (at : ℕ) (segment : Text) (segments : List (ℕ × Text))
      → IsReading buf unread line rest ((at, segment) ∷ segments)
      → is_read buf ≡ false
      → IsReading
          (buf ++ take (buffer_len - length buf) segment)
          (drop (buffer_len - length buf) segment ++ joined segments)
          line
          rest
          segments
  unfolding is_read
  read_on buf unread at segment segments r h =
      let room = buffer_len - length buf in
      let next : unread ≡ segment ++ joined segments = elim r.follows [
        | inl full ↦ absurd (ground arith)
        | inr e ↦ e
      ] in
      record {
        split =
            append_assoc buf (take room segment) (drop room segment ++ joined segments)
            ∙ (ap (λ u. buf ++ u)
                  (sym (append_assoc (take room segment) (drop room segment) (joined segments))
                    ∙ (ap (λ u. u ++ joined segments) (take-append-drop room segment) ∙ sym next))
                ∙ r.split);
        fits =
            omega
              (arith, length-append buf (take room segment), length-take_le room segment, r.fits);
        follows = elim (take_all room segment) [
          | inl full ↦ inl (omega (arith, length-append buf (take room segment), full, r.fits))
          | inr nothing ↦ inr (rw nothing refl)
        ];
      }

  pub read_loop_lem :
      (buf unread : Text) (segments : List (ℕ × Text)) (ending : Ending)
      → IsReading buf unread line rest segments
      → InTime segments
      → (rest' : Text) × (read_loop buf segments ending ≡ ok (request line rest'))
  unfolding read_loop
  read_loop_lem buf unread [] ending r all =
      let h = not_ended buf unread r in
      let (rest', same) = read_enough buf unread [] r h in (rest', rw h (ap ok same))
  read_loop_lem buf unread ((at, []) ∷ segments) ending r all = absurd (all.0.1 refl)
  read_loop_lem buf unread ((at, b ∷ segment) ∷ segments) ending r all =
      elim (Bool-cases (is_read buf)) [
        | inl h ↦
            let (rest', same) = read_enough buf unread ((at, b ∷ segment) ∷ segments) r h in
            (rest', rw h (ap ok same))
        | inr h ↦
            let room = buffer_len - length buf in
            let soon : ltb read_timeout at ≡ false = ground (arith, all.0.0) in
            let (rest', same) =
              read_loop_lem (buf ++ take room (b ∷ segment))
                (drop room (b ∷ segment) ++ joined segments) segments ending
                (read_on buf unread at (b ∷ segment) segments r h) all.1 in
            (rest', rw (h, soon) same)
      ]
