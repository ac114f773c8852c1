-- ===== src/Proxy/Pending.antt =====
-- The claims of identities that wait for a response (src/proxy.rs, `stage_pending_bind`).
use protect.Proxy.{min_key, smaller, make_room, stage_pending_bind, max_pending_binds}
use mathlib.Core.Option.{some-injective}
use protect.Prelude.{
  subst, ℕ, suc, ◌≤◌, ◌<◌, ◌≡◌, All, refl, true, Option, none, some, is_some, List, [], ◌∷◌, Text,
  leb, length, get, insert, remove, nat_equality, if◌then◌else◌, arith, get-insert,
  length-insert_new, length-insert_old, length-remove-lt, Bool-cases, Option-cases, inl, inr,
  nat_eq, ◌⊎◌,
}

-- The smallest key is a key.
min_key-get : (m : List (ℕ × Text)) (k : ℕ) → min_key m ≡ some k → is_some (get k m) ≡ true
unfolding min_key get
min_key-get [] k p = absurd (cc)
min_key-get ((j, dn) ∷ m) k p = elim (Option-cases (min_key m)) [
  | inl e ↦ let q = rw e at p in ground (arith, some-injective j k q)
  | inr (i, e) ↦ let q = rw e at p in let ih = min_key-get m i e in smaller_case i ih q
]
  where
    smaller_case :
        (i : ℕ)
        → is_some (get i m) ≡ true
        → smaller j (some i) ≡ some k
        → is_some (get k ((j, dn) ∷ m)) ≡ true
    smaller_case i ih q = elim (Bool-cases (leb j i)) [
      | inl le ↦ let r = rw le at q in ground (arith, some-injective j k r)
      | inr gt ↦
          let r = rw gt at q in
          subst (λ x. is_some (get x ((j, dn) ∷ m)) ≡ true) (some-injective i k r)
            (ground (arith, ih))
    ]

min_key-some : (m : List (ℕ × Text)) → 0 < length m → (k : ℕ) × (min_key m ≡ some k)
unfolding min_key
min_key-some [] h = absurd (omega arith)
min_key-some ((j, dn) ∷ m) h = smaller_some (min_key m)
  where
    smaller_some : (o : Option ℕ) → (k : ℕ) × (smaller j o ≡ some k)
    smaller_some none = (j, refl)
    smaller_some (some i) = elim (Bool-cases (leb j i)) [
      | inl le ↦ (j, rw le refl)
      | inr gt ↦ (i, rw gt refl)
    ]

All-le : (b k : ℕ) (m : List (ℕ × Text)) → b ≤ k → All (λ e. k ≤ e.0) m → All (λ e. b ≤ e.0) m
All-le b k [] le all = tt
All-le b k (e ∷ m) le all = (omega (arith, all.0), All-le b k m le all.1)

-- No key is smaller.
min_key-All : (m : List (ℕ × Text)) (k : ℕ) → min_key m ≡ some k → All (λ e. k ≤ e.0) m
unfolding min_key
min_key-All [] k p = tt
min_key-All ((i, dn) ∷ []) k p = let q = some-injective i k p in (omega arith, tt)
min_key-All ((i, dn) ∷ e ∷ m) k p =
    let (l, least) = min_key-some (e ∷ m) (omega arith) in
    let all = min_key-All (e ∷ m) l least in
    let q = rw least at p in
    elim (Bool-cases (leb i l)) [
      | inl le ↦
          let r = some-injective i k (rw le at q) in
          (omega arith, All-le k l (e ∷ m) (ground arith) all)
      | inr gt ↦
          let r = some-injective l k (rw gt at q) in
          (ground arith, All-le k l (e ∷ m) (omega arith) all)
    ]

-- What makes room for a claim: nothing is dropped, or of a full map the smallest ID.
abbrev pub Room : List (ℕ × Text) → ℕ → Type 0
Room pending id =
    ((make_room pending id ≡ pending)
      × ((length pending < max_pending_binds) ⊎ (is_some (get id pending) ≡ true)))
    ⊎ ((k : ℕ) × (is_some (get k pending) ≡ true)
        × All (λ e. k ≤ e.0) pending
        × (make_room pending id ≡ remove k pending)
        × (max_pending_binds ≤ length pending)
        × (length (remove k pending) < length pending))

make_room_lem : (pending : List (ℕ × Text)) (id : ℕ) → Room pending id
unfolding make_room
make_room_lem pending id = elim (Bool-cases (leb max_pending_binds (length pending))) [
  | inr few ↦ inl (rw few refl, inl (ground arith))
  | inl full ↦ elim (Bool-cases (is_some (get id pending))) [
    | inl known ↦ inl (rw (full, known) refl, inr known)
    | inr new ↦
        let long : max_pending_binds ≤ length pending = ground arith in
        let (k, least) = min_key-some pending (omega arith) in
        inr (
          k,
          min_key-get pending k least,
          min_key-All pending k least,
          rw (full, new, least) refl,
          long,
          length-remove-lt k pending (min_key-get pending k least),
        )
  ]
]

length-insert-le :
    (id : ℕ) (dn : Text) (m : List (ℕ × Text)) → length (insert id dn m) ≤ suc (length m)
length-insert-le id dn m = elim (Option-cases (get id m)) [
  | inl e ↦ omega (arith, length-insert_new id dn m e)
  | inr (v, e) ↦ omega (arith, length-insert_old id dn m (rw e refl))
]

few_with-Room :
    (pending : List (ℕ × Text)) (id : ℕ) (dn : Text)
    → length pending ≤ max_pending_binds
    → Room pending id
    → length (insert id dn (make_room pending id)) ≤ max_pending_binds
few_with-Room pending id dn h (inl (same, inl few)) =
    rw same (omega (arith, length-insert-le id dn pending))
few_with-Room pending id dn h (inl (same, inr known)) =
    rw same (omega (arith, length-insert_old id dn pending known))
few_with-Room pending id dn h (inr (k, known, least, dropped, full, fewer)) =
    rw dropped (omega (arith, length-insert-le id dn (remove k pending)))

-- Staging a claim keeps at most 1024 of them, and has this one and every other but the one that made
-- room, which is only dropped from a full map, and has the smallest ID.
pub stage_pending_bind-Room :
    (pending : List (ℕ × Text)) (id : ℕ) (dn : Text)
    → length pending ≤ max_pending_binds
    → (length (stage_pending_bind pending id dn) ≤ max_pending_binds)
      × Room pending id
      × ((j : ℕ)
          → get j (stage_pending_bind pending id dn)
            ≡ (if nat_eq id j then some dn else get j (make_room pending id)))
unfolding stage_pending_bind
stage_pending_bind-Room pending id dn h = (
  few_with-Room pending id dn h (make_room_lem pending id),
  make_room_lem pending id,
  λ j. get-insert id j dn (make_room pending id),
)
