-- ===== src/History/ActivitySet.antt =====
-- The `BTreeSet<(Option<Instant>, Identity)>` of `History` in src/core/policy/threshold.rs: a list
-- in the derived order of its elements, smallest first.
use protect.Prelude.{
  ℕ, Bool, true, false, Option, none, some, List, [], ◌∷◌, ◌≡◌, refl, ◌↔◌, ◌||◌, ◌&&◌, inl, inr,
  arith, Text, text_eq, text_eq_iff, nat_eq, ltb, if◌then◌else◌, All, Bool-cases,
}

-- The order of `Option`: `None` is below every `Some`.
abbrev pub key_lt : Option ℕ → Option ℕ → Bool
key_lt none none = false
key_lt none (some b) = true
key_lt (some a) none = false
key_lt (some a) (some b) = ltb a b

abbrev pub key_eq : Option ℕ → Option ℕ → Bool
key_eq none none = true
key_eq none (some b) = false
key_eq (some a) none = false
key_eq (some a) (some b) = nat_eq a b

-- The bytewise order of strings.
unfoldable pub text_lt : Text → Text → Bool
text_lt [] [] = false
text_lt [] (y ∷ ys) = true
text_lt (x ∷ xs) [] = false
text_lt (x ∷ xs) (y ∷ ys) = if nat_eq x y then text_lt xs ys else ltb x y

abbrev pub Activity : Type 0
Activity = Option ℕ × Text

abbrev pub activity_eq : Activity → Activity → Bool
activity_eq a b = key_eq a.0 b.0 && text_eq a.1 b.1

abbrev pub activity_lt : Activity → Activity → Bool
activity_lt a b = if key_eq a.0 b.0 then text_lt a.1 b.1 else key_lt a.0 b.0

pub key_eq_iff : (k l : Option ℕ) → (key_eq k l ≡ true) ↔ (k ≡ l)
key_eq_iff k l = ground arith

pub activity_eq_iff : (a b : Activity) → (activity_eq a b ≡ true) ↔ (a ≡ b)
activity_eq_iff a b = ground (arith, key_eq_iff a.0 b.0, text_eq_iff a.1 b.1)

text_lt_irrefl : (s : Text) → text_lt s s ≡ false
unfolding text_lt
text_lt_irrefl [] = refl
text_lt_irrefl (x ∷ s) = ground (arith, text_lt_irrefl s)

text_lt_trans : (s t u : Text) → text_lt s t ≡ true → text_lt t u ≡ true → text_lt s u ≡ true
unfolding text_lt
text_lt_trans [] [] u h k = ground arith
text_lt_trans [] (y ∷ t) [] h k = ground arith
text_lt_trans [] (y ∷ t) (z ∷ u) h k = refl
text_lt_trans (x ∷ s) [] u h k = ground arith
text_lt_trans (x ∷ s) (y ∷ t) [] h k = ground arith
text_lt_trans (x ∷ s) (y ∷ t) (z ∷ u) h k = ground (arith, text_lt_trans s t u)

text_lt_total : (s t : Text) → text_eq s t ≡ false → text_lt s t ≡ false → text_lt t s ≡ true
unfolding text_lt text_eq
text_lt_total [] [] n h = ground arith
text_lt_total [] (y ∷ t) n h = ground arith
text_lt_total (x ∷ s) [] n h = refl
text_lt_total (x ∷ s) (y ∷ t) n h = ground (arith, text_lt_total s t)

pub activity_lt_irrefl : (a : Activity) → activity_lt a a ≡ false
activity_lt_irrefl a = ground (arith, text_lt_irrefl a.1)

pub activity_lt_trans :
    (a b c : Activity) → activity_lt a b ≡ true → activity_lt b c ≡ true → activity_lt a c ≡ true
activity_lt_trans a b c h k = ground (arith, text_lt_trans a.1 b.1 c.1)

activity_lt_total :
    (a b : Activity) → activity_eq a b ≡ false → activity_lt a b ≡ false → activity_lt b a ≡ true
activity_lt_total a b n h = ground (arith, text_lt_total a.1 b.1)

-- `contains`, `insert` and `remove` of the set.
unfoldable pub has : Activity → List Activity → Bool
has a [] = false
has a (b ∷ s) = activity_eq b a || has a s

unfoldable pub insert : Activity → List Activity → List Activity
insert a [] = a ∷ []
insert a (b ∷ s) =
    if activity_eq a b then b ∷ s else if activity_lt a b then a ∷ b ∷ s else b ∷ insert a s

unfoldable pub remove : Activity → List Activity → List Activity
remove a [] = []
remove a (b ∷ s) = let rest = remove a s in if activity_eq a b then rest else b ∷ rest

pub has-insert :
    (a b : Activity) (s : List Activity) → has b (insert a s) ≡ (activity_eq a b || has b s)
unfolding has insert
has-insert a b [] = ground arith
has-insert a b (c ∷ s) =
    ground (arith, has-insert a b s, activity_eq_iff a b, activity_eq_iff a c, activity_eq_iff c b)

pub has-remove :
    (a b : Activity) (s : List Activity)
    → has b (remove a s) ≡ (if activity_eq a b then false else has b s)
unfolding has remove
has-remove a b [] = ground arith
has-remove a b (c ∷ s) =
    ground (arith, has-remove a b s, activity_eq_iff a b, activity_eq_iff a c, activity_eq_iff c b)

-- Strictly increasing: an order of the elements, and no element twice.
abbrev pub IsSorted : List Activity → Type 0
IsSorted [] = Unit
IsSorted (a ∷ s) = All (λ b. activity_lt a b ≡ true) s × IsSorted s

All-lt-insert :
    (c a : Activity) (s : List Activity)
    → activity_lt c a ≡ true
    → All (λ b. activity_lt c b ≡ true) s
    → All (λ b. activity_lt c b ≡ true) (insert a s)
unfolding insert
All-lt-insert c a [] h all = (h, all)
All-lt-insert c a (b ∷ s) h all = elim (Bool-cases (activity_eq a b)) [
  | inl e ↦ rw e all
  | inr n ↦ elim (Bool-cases (activity_lt a b)) [
    | inl l ↦ rw (n, l) (h, all)
    | inr g ↦ rw (n, g) (all.0, All-lt-insert c a s h all.1)
  ]
]

All-lt_trans :
    (a b : Activity) (s : List Activity)
    → activity_lt a b ≡ true
    → All (λ c. activity_lt b c ≡ true) s
    → All (λ c. activity_lt a c ≡ true) s
All-lt_trans a b [] h all = tt
All-lt_trans a b (c ∷ s) h all = (activity_lt_trans a b c h all.0, All-lt_trans a b s h all.1)

pub insert-IsSorted : (a : Activity) (s : List Activity) → IsSorted s → IsSorted (insert a s)
unfolding insert
insert-IsSorted a [] h = (tt, tt)
insert-IsSorted a (b ∷ s) h = elim (Bool-cases (activity_eq a b)) [
  | inl e ↦ rw e h
  | inr n ↦ elim (Bool-cases (activity_lt a b)) [
    | inl l ↦ rw (n, l) ((l, All-lt_trans a b s l h.0), h)
    | inr g ↦
        rw (n, g) (All-lt-insert b a s (activity_lt_total a b n g) h.0, insert-IsSorted a s h.1)
  ]
]

All-lt-remove :
    (c a : Activity) (s : List Activity)
    → All (λ b. activity_lt c b ≡ true) s
    → All (λ b. activity_lt c b ≡ true) (remove a s)
unfolding remove
All-lt-remove c a [] all = tt
All-lt-remove c a (b ∷ s) all = elim (Bool-cases (activity_eq a b)) [
  | inl e ↦ rw e (All-lt-remove c a s all.1)
  | inr n ↦ rw n (all.0, All-lt-remove c a s all.1)
]

pub remove-IsSorted : (a : Activity) (s : List Activity) → IsSorted s → IsSorted (remove a s)
unfolding remove
remove-IsSorted a [] h = tt
remove-IsSorted a (b ∷ s) h = elim (Bool-cases (activity_eq a b)) [
  | inl e ↦ rw e (remove-IsSorted a s h.1)
  | inr n ↦ rw n (All-lt-remove b a s h.0, remove-IsSorted a s h.1)
]

-- The first element is below the others, and is not among them.
pub lt_of_has :
    (a b : Activity) (s : List Activity)
    → All (λ c. activity_lt a c ≡ true) s
    → has b s ≡ true
    → activity_lt a b ≡ true
unfolding has
lt_of_has a b [] all h = ground arith
lt_of_has a b (c ∷ s) all h = ground (arith, activity_eq_iff c b, lt_of_has a b s)

pub not_has_first :
    (a : Activity) (s : List Activity) → All (λ c. activity_lt a c ≡ true) s → has a s ≡ false
not_has_first a s all = ground (arith, lt_of_has a a s all, activity_lt_irrefl a)
