-- ===== src/Threshold/Sliding.antt =====
-- Sliding windows over a log of instants, with no reference to how a policy keeps them.
use protect.History.{drop_stale}
use protect.Prelude.{
  ℕ, zero, suc, ◌+◌, ◌-◌, ◌≤◌, ◌<◌, List, [], ◌∷◌, ◌++◌, ◌≡◌, refl, inl, inr, arith, ltb, leb, ◌&&◌,
  length, length-append, length-replicate, replicate, Bool-cases, if◌then◌else◌, All, append_assoc,
  ap, sym, ◌∙◌,
}

-- How many instants of the log lie in `lo .. hi`, both ends included.
unfoldable pub within : ℕ → ℕ → List ℕ → ℕ
within lo hi [] = 0
within lo hi (t ∷ ts) = if leb lo t && leb t hi then suc (within lo hi ts) else within lo hi ts

-- Out of a window that ends at `now`.
abbrev pub IsStale : ℕ → ℕ → ℕ → Type 0
IsStale window now t = t + window < now

pub within-append :
    (lo hi : ℕ) (xs ys : List ℕ) → within lo hi (xs ++ ys) ≡ within lo hi xs + within lo hi ys
unfolding within
within-append lo hi [] ys = omega arith
within-append lo hi (x ∷ xs) ys = ground (arith, within-append lo hi xs ys)

within-le-length : (lo hi : ℕ) (xs : List ℕ) → within lo hi xs ≤ length xs
unfolding within
within-le-length lo hi [] = omega arith
within-le-length lo hi (x ∷ xs) = ground (arith, within-le-length lo hi xs)

within-stale :
    (lo hi window now : ℕ) (xs : List ℕ)
    → now ≤ lo + window
    → All (IsStale window now) xs
    → within lo hi xs ≡ 0
unfolding within
within-stale lo hi window now [] le all = refl
within-stale lo hi window now (x ∷ xs) le all =
    ground (arith, within-stale lo hi window now xs le all.1, all.0)

within-later : (lo hi n now : ℕ) → hi < now → within lo hi (replicate n now) ≡ 0
unfolding within
within-later lo hi zero now lt = refl
within-later lo hi (suc n) now lt = ground (arith, within-later lo hi n now lt)

within-earlier : (lo hi n now : ℕ) → now < lo → within lo hi (replicate n now) ≡ 0
unfolding within
within-earlier lo hi zero now lt = refl
within-earlier lo hi (suc n) now lt = ground (arith, within-earlier lo hi n now lt)

pub All-IsStale_later :
    (window last now : ℕ) (xs : List ℕ)
    → last ≤ now
    → All (IsStale window last) xs
    → All (IsStale window now) xs
All-IsStale_later window last now [] le all = tt
All-IsStale_later window last now (x ∷ xs) le all =
    (omega arith, All-IsStale_later window last now xs le all.1)

pub All-append : (P : ℕ → Type 0) (xs ys : List ℕ) → All P xs → All P ys → All P (xs ++ ys)
All-append P [] ys hx hy = hy
All-append P (x ∷ xs) ys hx hy = (hx.0, All-append P xs ys hx.1 hy)

-- What pruning drops is stale, and what stays is the end of the window.
pub drop_stale_split :
    (now window : ℕ) (ts : List ℕ)
    → (old : List ℕ) × (ts ≡ old ++ drop_stale now window ts) × All (IsStale window now) old
unfolding drop_stale
drop_stale_split now window [] = ([], refl, tt)
drop_stale_split now window (t ∷ ts) = elim (Bool-cases (ltb window (now - t))) [
  | inl stale ↦
      let (old, e, all) = drop_stale_split now window ts in
      (t ∷ old, rw stale (ground arith), (ground arith, all))
  | inr fresh ↦ ([], rw fresh refl, tt)
]

-- A log whose recent part is `recent`, at most `limit` long, and which has at most `limit` instants in
-- any window.
pub record IsBounded (limit window last : ℕ) (log recent : List ℕ) : Type 0 where
  pub old : List ℕ
  pub split : log ≡ old ++ recent
  pub stale : All (IsStale window last) old
  pub short : length recent ≤ limit
  pub bound : (lo : ℕ) → within lo (lo + window) log ≤ limit

module _ (limit window : ℕ) where
  pub IsBounded-empty : IsBounded limit window 0 [] []
  unfolding within
  IsBounded-empty = record {
    old = [];
    split = refl;
    stale = tt;
    short = omega arith;
    bound = λ lo. omega arith;
  }

  pub IsBounded-later :
      (last now : ℕ) (log recent : List ℕ)
      → last ≤ now
      → IsBounded limit window last log recent
      → IsBounded limit window now log recent
  IsBounded-later last now log recent le b = record {
    old = b.old;
    split = b.split;
    stale = All-IsStale_later window last now b.old le b.stale;
    short = b.short;
    bound = b.bound;
  }

  length-drop_stale : (now : ℕ) (ts : List ℕ) → length (drop_stale now window ts) ≤ length ts
  unfolding drop_stale
  length-drop_stale now [] = omega arith
  length-drop_stale now (t ∷ ts) = ground (arith, length-drop_stale now ts)

  pub IsBounded-prune :
      (last now : ℕ) (log recent : List ℕ)
      → last ≤ now
      → IsBounded limit window last log recent
      → IsBounded limit window now log (drop_stale now window recent)
  IsBounded-prune last now log recent le b =
      let (more, e, all) = drop_stale_split now window recent in
      record {
        old = b.old ++ more;
        split =
            b.split
            ∙ ap (λ (l : List ℕ). b.old ++ l) e
            ∙ sym (append_assoc b.old more (drop_stale now window recent));
        stale =
            All-append (IsStale window now) b.old more
              (All-IsStale_later window last now b.old le b.stale) all;
        short = omega (arith, length-drop_stale now recent, b.short);
        bound = b.bound;
      }

  bounded_window :
      (now count : ℕ) (log recent : List ℕ)
      → length recent + count ≤ limit
      → IsBounded limit window now log recent
      → (lo : ℕ) → within lo (lo + window) (log ++ replicate count now) ≤ limit
  bounded_window now count log recent fits b lo = elim (Bool-cases (ltb (lo + window) now)) [
    | inl late ↦ omega (
      arith,
      within-append lo (lo + window) log (replicate count now),
      within-later lo (lo + window) count now (ground arith),
      b.bound lo,
    )
    | inr open_end ↦ elim (Bool-cases (ltb now lo)) [
      | inl early ↦ omega (
        arith,
        within-append lo (lo + window) log (replicate count now),
        within-earlier lo (lo + window) count now (ground arith),
        b.bound lo,
      )
      | inr started ↦ rw (b.split) (
          omega (
            arith,
            within-append lo (lo + window) (b.old ++ recent) (replicate count now),
            within-append lo (lo + window) b.old recent,
            within-stale lo (lo + window) window now b.old (ground arith) b.stale,
            within-le-length lo (lo + window) recent,
            within-le-length lo (lo + window) (replicate count now),
            length-replicate count now,
          ))
    ]
  ]

  -- To admit `count` more at `now` keeps every window within the limit, if the recent ones and
  -- the new ones together do.
  pub IsBounded-admit :
      (now count : ℕ) (log recent : List ℕ)
      → length recent + count ≤ limit
      → IsBounded limit window now log recent
      → IsBounded limit window now (log ++ replicate count now) (recent ++ replicate count now)
  IsBounded-admit now count log recent fits b = record {
    old = b.old;
    split = rw (b.split, append_assoc);
    stale = b.stale;
    short = omega (arith, length-append recent (replicate count now), length-replicate count now);
    bound = λ lo. bounded_window now count log recent fits b lo;
  }
