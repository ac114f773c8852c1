-- ===== src/Ldap/Text/Numbers.antt =====
-- What is written in decimals is read again by `parse_u32` (src/connector/ldap.rs, `classify_lock_write`).
use native.Mathlib.Nat.{pow-succ'}
use mathlib.Core.Option.{some-injective}
use protect.Ldap.Text.{parse_digits, parse_u32, is_digit, u32_mod}
use protect.Prelude.{
  ℕ, zero, suc, ◌+◌, ◌*◌, ◌/◌, ◌%◌, ◌^◌, ◌-◌, ◌<◌, ◌≤◌, ◌≡◌, All, refl, ap, sym, ◌∙◌, true, false,
  ◌&&◌, some, [], ◌∷◌, ◌++◌, ltb, nat_eq, Text, decimal, decimal_digits, arith, Bool-cases, inl,
  inr,
}

parse_digits-append :
    (n m : ℕ) (xs ys : Text)
    → parse_digits n xs ≡ some m
    → parse_digits n (xs ++ ys) ≡ parse_digits m ys
unfolding parse_digits
parse_digits-append n m [] ys p = ap (λ k. parse_digits k ys) (some-injective n m p)
parse_digits-append n m (x ∷ xs) ys p =
    elim (Bool-cases (is_digit x && ltb (n * 10 + (x - 48)) u32_mod)) [
      | inl fine ↦ rw fine (parse_digits-append (n * 10 + (x - 48)) m xs ys (rw fine at p))
      | inr bad ↦ absurd (cc)
    ]

small_digits : (fuel n : ℕ) → ltb n 10 ≡ true → decimal_digits (suc fuel) n ≡ (48 + n) ∷ []
unfolding decimal_digits
small_digits fuel n h = rw (h, decimal_digits) refl

large_digits :
    (fuel n : ℕ)
    → ltb n 10 ≡ false
    → decimal_digits (suc fuel) n ≡ decimal_digits fuel (n / 10) ++ (48 + n % 10) ∷ []
unfolding decimal_digits
large_digits fuel n h = rw (h, decimal_digits) refl

parse_digit :
    (n d : ℕ) → d < 10 → n * 10 + d < u32_mod → parse_digits n ((48 + d) ∷ []) ≡ some (n * 10 + d)
unfolding parse_digits
parse_digit n d h fits = ground arith

parse_digits-decimal :
    (fuel n : ℕ) → n < 10 ^ fuel → n < u32_mod → parse_digits 0 (decimal_digits fuel n) ≡ some n
unfolding parse_digits decimal_digits
parse_digits-decimal zero n h fits = ap some (omega arith)
parse_digits-decimal (suc fuel) n h fits = elim (Bool-cases (ltb n 10)) [
  | inl small ↦
      rw (small_digits fuel n small)
        (parse_digit 0 n (ground arith) (omega arith) ∙ ap some (omega arith))
  | inr large ↦
      let tenth : n / 10 < 10 ^ fuel = omega (arith, pow-succ' 10 fuel) in
      rw (large_digits fuel n large) (
        parse_digits-append 0 (n / 10) (decimal_digits fuel (n / 10)) ((48 + n % 10) ∷ [])
          (parse_digits-decimal fuel (n / 10) tenth (omega arith))
        ∙ (parse_digit (n / 10) (n % 10) (omega arith) (omega arith) ∙ ap some (omega arith)))
]

-- The first digit.
first_digit :
    (fuel n : ℕ)
    → (b : ℕ) × (bs : Text) × (decimal_digits (suc fuel) n ≡ b ∷ bs) × (48 ≤ b) × (b < 58)
unfolding decimal_digits
first_digit zero n = elim (Bool-cases (ltb n 10)) [
  | inl small ↦ (48 + n, [], small_digits 0 n small, omega arith, ground arith)
  | inr large ↦ (48 + n % 10, [], large_digits 0 n large, omega arith, omega arith)
]
first_digit (suc fuel) n = elim (Bool-cases (ltb n 10)) [
  | inl small ↦ (48 + n, [], small_digits (suc fuel) n small, omega arith, ground arith)
  | inr large ↦
      let (b, bs, q, low, high) = first_digit fuel (n / 10) in
      (
        b,
        bs ++ (48 + n % 10) ∷ [],
        large_digits (suc fuel) n large ∙ ap (λ l. l ++ (48 + n % 10) ∷ []) q,
        low,
        high,
      )
]

-- A number of 32 bits in decimals is read as it was written.
pub parse_u32-decimal : (n : ℕ) → n < u32_mod → parse_u32 (decimal n) ≡ some n
unfolding parse_u32 decimal
parse_u32-decimal n h =
    let (b, bs, q, low, high) = first_digit 19 n in
    let no_sign : nat_eq b 43 ≡ false = ground arith in
    ap parse_u32 q
    ∙ (rw no_sign (ap (parse_digits 0) (sym q) ∙ parse_digits-decimal 20 n (omega arith) h))

abbrev pub IsDigits : Text → Type 0
IsDigits s = All (λ b. (48 ≤ b) × (b < 58)) s

IsDigits-append : (s t : Text) → IsDigits s → IsDigits t → IsDigits (s ++ t)
IsDigits-append [] t h k = k
IsDigits-append (b ∷ s) t h k = (h.0, IsDigits-append s t h.1 k)

decimal_digits-IsDigits : (fuel n : ℕ) → IsDigits (decimal_digits fuel n)
unfolding decimal_digits
decimal_digits-IsDigits zero n = tt
decimal_digits-IsDigits (suc fuel) n = elim (Bool-cases (ltb n 10)) [
  | inl small ↦ rw (small_digits fuel n small) ((omega arith, ground arith), tt)
  | inr large ↦ rw (large_digits fuel n large) (
      IsDigits-append (decimal_digits fuel (n / 10)) ((48 + n % 10) ∷ [])
        (decimal_digits-IsDigits fuel (n / 10)) ((omega arith, omega arith), tt))
]

pub decimal-IsDigits : (n : ℕ) → IsDigits (decimal n)
unfolding decimal
decimal-IsDigits n = decimal_digits-IsDigits 20 n
