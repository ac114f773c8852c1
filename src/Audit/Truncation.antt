-- ===== src/Audit/Truncation.antt =====
-- What is left of a long string in a log line (src/core/audit.rs, `truncate_for_log`).
use protect.Audit.{
  max_logged_field_len, starts_char, starts_at, is_char_boundary, boundary_from, total,
  truncate_for_log,
}
use protect.Prelude.{
  ℕ, zero, suc, ◌+◌, ◌-◌, ◌≤◌, ◌<◌, ◌≡◌, ◌⊎◌, inl, inr, refl, ap, sym, subst, ◌∙◌, true, false,
  Bool-cases, All, List, [], ◌∷◌, ◌++◌, Text, length, length-append, take, leb, arith,
}

-- A character of UTF-8: a byte that begins one and at most three that do not.
abbrev pub IsChar : Text → Type 0
IsChar [] = ⊥
IsChar (b ∷ bs) = (starts_char b ≡ true) × (length bs ≤ 3) × All (λ c. starts_char c ≡ false) bs

abbrev pub joined : List Text → Text
joined [] = []
joined (c ∷ cs) = c ++ joined cs

abbrev pub IsUtf8 : Text → Type 0
IsUtf8 s = (chars : List Text) × (joined chars ≡ s) × All IsChar chars

starts_at-joined : (cs : List Text) → All IsChar cs → starts_at (joined cs) 0 ≡ true
starts_at-joined [] h = refl
starts_at-joined ([] ∷ cs) h = absurd h.0
starts_at-joined ((b ∷ bs) ∷ cs) h = h.0.0

boundary_starts :
    (cs : List Text) (i : ℕ)
    → All IsChar cs
    → is_char_boundary (joined cs) i ≡ true
    → starts_at (joined cs) i ≡ true
boundary_starts cs zero h e = starts_at-joined cs h
boundary_starts cs (suc i) h e = e

starts_boundary : (s : Text) (i : ℕ) → starts_at s i ≡ true → is_char_boundary s i ≡ true
starts_boundary s zero e = refl
starts_boundary s (suc i) e = e

-- Where a character begins is not within the rest of another.
not_within :
    (bs rest : Text) (i : ℕ)
    → All (λ c. starts_char c ≡ false) bs
    → starts_at (bs ++ rest) i ≡ true
    → length bs ≤ i
not_within [] rest i h e = omega arith
not_within (b ∷ bs) rest zero h e = absurd (cc)
not_within (b ∷ bs) rest (suc i) h e = omega (arith, not_within bs rest i h.1 e)

starts_at-append :
    (bs rest : Text) (i : ℕ) → starts_at (bs ++ rest) (length bs + i) ≡ starts_at rest i
starts_at-append [] rest i =
    let none_before : 0 + i ≡ i = omega arith in ap (starts_at rest) none_before
starts_at-append (b ∷ bs) rest i =
    let one_more : suc (length bs) + i ≡ suc (length bs + i) = omega arith in
    ap (starts_at (b ∷ bs ++ rest)) one_more ∙ starts_at-append bs rest i

take-append_more : (bs rest : Text) (i : ℕ) → take (length bs + i) (bs ++ rest) ≡ bs ++ take i rest
take-append_more [] rest i =
    let none_before : 0 + i ≡ i = omega arith in ap (λ k. take k rest) none_before
take-append_more (b ∷ bs) rest i =
    let one_more : suc (length bs) + i ≡ suc (length bs + i) = omega arith in
    ap (λ k. take k (b ∷ bs ++ rest)) one_more ∙ ap (◌∷◌ b) (take-append_more bs rest i)

-- Cut where a character begins, the characters before it are whole.
cut :
    (cs : List Text) (i : ℕ)
    → All IsChar cs
    → starts_at (joined cs) i ≡ true
    → IsUtf8 (take i (joined cs))
cut cs zero h e = ([], refl, tt)
cut [] (suc i) h e = ([], refl, tt)
cut ([] ∷ cs) (suc i) h e = absurd h.0
cut ((b ∷ bs) ∷ cs) (suc i) ((s, short, rest), more) e =
    let behind = not_within bs (joined cs) i rest e in
    let j : ℕ = i - length bs in
    let split : i ≡ length bs + j = omega arith in
    let begins =
      sym (starts_at-append bs (joined cs) j)
      ∙ (ap (starts_at (bs ++ joined cs)) (sym split) ∙ e) in
    let (kept, same, good) = cut cs j more begins in
    (
      (b ∷ bs) ∷ kept,
      ap (λ (t : Text). b ∷ bs ++ t) same
          ∙ ap (◌∷◌ b) (
              sym (take-append_more bs (joined cs) j)
              ∙ ap (λ k. take k (bs ++ joined cs)) (sym split)),
      ((s, short, rest), good),
    )

-- No four bytes in a row are without the beginning of a character.
near :
    (cs : List Text) (i : ℕ)
    → All IsChar cs
    → i ≤ length (joined cs)
    → (m : ℕ) × (m ≤ i) × (i ≤ m + 3) × (starts_at (joined cs) m ≡ true)
near [] i h fits = (0, omega arith, omega arith, refl)
near ([] ∷ cs) i h fits = absurd h.0
near ((b ∷ bs) ∷ cs) zero h fits = (0, omega arith, omega arith, h.0.0)
near ((b ∷ bs) ∷ cs) (suc i) ((s, short, rest), more) fits = elim (Bool-cases (leb (length bs) i)) [
  | inr within ↦ (0, omega arith, ground arith, s)
  | inl behind ↦
      let (m, below, close, e) =
        near cs (i - length bs) more (ground (arith, length-append bs (joined cs))) in
      (suc (length bs + m), ground arith, ground arith, starts_at-append bs (joined cs) m ∙ e)
]

-- The greatest boundary up to an index.
boundary_from_lem :
    (value : Text) (end : ℕ)
    → (boundary_from value end ≤ end)
      × (is_char_boundary value (boundary_from value end) ≡ true)
      × ((m : ℕ) → m ≤ end → is_char_boundary value m ≡ true → m ≤ boundary_from value end)
unfolding boundary_from
boundary_from_lem value zero = (omega arith, refl, λ m below e. below)
boundary_from_lem value (suc end) =
    let (below, is, greatest) = boundary_from_lem value end in
    elim (Bool-cases (is_char_boundary value (suc end))) [
      | inl here ↦ rw here (omega arith, here, λ m under e. under)
      | inr further ↦ rw further (
        omega arith,
        is,
        λ m under e. elim (Bool-cases (leb m end)) [
          | inl lower ↦ greatest m (ground arith) e
          | inr top ↦ let same : m ≡ suc end = ground arith in absurd (cc)
        ],
      )
    ]

-- What is logged of a value.
abbrev pub Logged : Text → Text → Type 0
Logged value logged =
    ((length value ≤ max_logged_field_len) × (logged ≡ value))
    ⊎ ((max_logged_field_len < length value)
        × ((end : ℕ) × (max_logged_field_len ≤ end + 3)
            × (end ≤ max_logged_field_len)
            × IsUtf8 (take end value)
            × (logged ≡ take end value ++ total (length value))))

Logged-joined : (cs : List Text) → All IsChar cs → Logged (joined cs) (truncate_for_log (joined cs))
unfolding truncate_for_log
Logged-joined cs good = elim (Bool-cases (leb (length (joined cs)) max_logged_field_len)) [
  | inl short ↦ rw short (inl (ground arith, refl))
  | inr long ↦
      let (below, is, greatest) = boundary_from_lem (joined cs) max_logged_field_len in
      let (m, under, close, e) = near cs max_logged_field_len good (ground arith) in
      let reached = greatest m under (starts_boundary (joined cs) m e) in
      rw long (
        inr (
          ground arith,
          (
            boundary_from (joined cs) max_logged_field_len,
            omega arith,
            below,
            cut cs _ good (boundary_starts cs _ good is),
            refl,
          ),
        ))
]

-- In UTF-8, a value of at most 512 bytes is logged as it is. Of a longer one, the log has whole characters from its
-- front, of at least 509 and at most 512 bytes, and then its length.
pub truncate_for_log-Logged : (value : Text) → IsUtf8 value → Logged value (truncate_for_log value)
truncate_for_log-Logged value (cs, same, good) =
    subst (λ v. Logged v (truncate_for_log v)) same (Logged-joined cs good)
