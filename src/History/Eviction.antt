-- ===== src/History/Eviction.antt =====
-- `evict_stalest_until` of src/core/policy/threshold.rs: the bound that it reaches, and its choice.
use protect.Core.Identity.{Identity}
use protect.History.ActivitySet.{
  Activity, key_eq_iff, has, activity_lt, activity_eq_iff, not_has_first, lt_of_has,
}
use protect.History.{History, activity_key, evict_loop, evict_stalest_until, len, contains_key}
use protect.History.Index.{IsIndexed}
use protect.Prelude
use protect.Prelude.{
  ℕ, suc, ◌-◌, ◌≤◌, ◌<◌, Bool, true, false, Option, none, some, List, [], ◌∷◌, ◌++◌, ◌≡◌, ◌≢◌, refl,
  sym, ◌⊎◌, inl, inr, ◌&&◌, ◌||◌, ap, length, last, replicate, get, ltb, leb, arith, text_equality,
  text_eq, text_eq_iff, get-insert, get-remove, Option-cases, Bool-cases, if◌then◌else◌, is_some,
  length-remove-le, length-remove-lt,
}

abbrev pub Entries : Type 0
Entries = List (Identity × List ℕ)

-- Every tracked identity stands in the index, perhaps under an old activity. Unlike `IsIndexed`
-- every operation keeps this.
pub record IsCovered (h : History) : Type 0 where
  pub cover :
      (id : Identity)
      → contains_key h id ≡ true
      → (k : Option ℕ) × (has (k, id) h.by_activity ≡ true)

-- The loop removes identities from the map, and changes no window that stays.
evict_loop_kept :
    (n : ℕ) (m : Entries) (s : List Activity) (j : Identity)
    → (get j (evict_loop n m s).by_identity ≡ none)
      ⊎ (get j (evict_loop n m s).by_identity ≡ get j m)
unfolding evict_loop
evict_loop_kept n m [] j = inr refl
evict_loop_kept n m ((k, id) ∷ s) j =
    ground (arith, evict_loop_kept n (Prelude.remove id m) s j, get-remove id j m)

pub evict_loop_gone :
    (n : ℕ) (m : Entries) (s : List Activity) (j : Identity)
    → get j m ≡ none
    → get j (evict_loop n m s).by_identity ≡ none
evict_loop_gone n m s j h = ground (arith, evict_loop_kept n m s j)

pub evict_gone :
    (h : History) (n : ℕ) (j : Identity)
    → get j h.by_identity ≡ none
    → get j (evict_stalest_until h n).by_identity ≡ none
unfolding evict_stalest_until
evict_gone h n j miss = evict_loop_gone n h.by_identity h.by_activity j miss

pub contains_key-evict :
    (h : History) (n : ℕ) (j : Identity)
    → contains_key h j ≡ false
    → contains_key (evict_stalest_until h n) j ≡ false
unfolding contains_key
contains_key-evict h n j miss = ground (arith, evict_gone h n j)

-- Above the target the first identity of the index goes.
pub evict_loop_first :
    (n : ℕ) (m : Entries) (k : Option ℕ) (id : Identity) (s : List Activity)
    → n < length m
    → get id (evict_loop n m ((k, id) ∷ s)).by_identity ≡ none
unfolding evict_loop
evict_loop_first n m k id s more =
    ground
      (arith, evict_loop_gone n (Prelude.remove id m) s id, get-remove id id m, text_eq_iff id id)

evict_loop_len :
    (n : ℕ) (m : Entries) (s : List Activity)
    → ((id : Identity) → is_some (get id m) ≡ true → (k : Option ℕ) × (has (k, id) s ≡ true))
    → length (evict_loop n m s).by_identity ≤ n
unfolding evict_loop has get
evict_loop_len n [] [] c = omega arith
evict_loop_len n ((id, ts) ∷ m) [] c = let (k, e) = c id (ground (arith, text_eq_iff id id)) in cc
evict_loop_len n m ((k, id) ∷ s) c = elim (Bool-cases (ltb n (length m))) [
  | inl more ↦ rw more (
      evict_loop_len n (Prelude.remove id m) s (λ j t.
        let (i, e) = c j (ground (arith, get-remove id j m)) in
        (i, ground (arith, get-remove id j m, text_eq_iff id j))))
  | inr done ↦ rw done (ground arith)
]

-- From a history that covers its identities, at most `target_len` of them remain.
pub len-evict_stalest_until :
    (h : History) (target_len : ℕ)
    → IsCovered h
    → len (evict_stalest_until h target_len) ≤ target_len
unfolding evict_stalest_until contains_key
len-evict_stalest_until h n v = evict_loop_len n h.by_identity h.by_activity v.cover

-- Below the target nothing happens.
pub evict_stalest_until_idle :
    (h : History) (target_len : ℕ) → len h ≤ target_len → evict_stalest_until h target_len ≡ h
unfolding evict_stalest_until
evict_stalest_until_idle h n le = go h.by_identity h.by_activity le
  where
    go :
        (m : Entries) (s : List Activity)
        → length m ≤ n
        → evict_loop n m s ≡ record { by_identity = m; by_activity = s }
    go m [] le = refl
    go m ((k, id) ∷ s) le = ground arith

-- The loop keeps a right index right.
round-IsIndexed :
    (m : Entries) (s : List Activity) (k : Option ℕ) (id : Identity)
    → IsIndexed (record { by_identity = m; by_activity = (k, id) ∷ s })
    → IsIndexed (record { by_identity = Prelude.remove id m; by_activity = s })
unfolding has
round-IsIndexed m s k id v = record {
  sorted = v.sorted.1;
  exact = λ l j. ground (
    arith,
    get-remove id j m,
    v.exact l j,
    v.exact k id,
    text_eq_iff id j,
    not_has_first (k, id) s v.sorted.0,
    key_eq_iff k l,
    key_eq_iff l k,
    activity_eq_iff (k, id) (l, j),
  );
}

evict_loop-IsIndexed :
    (n : ℕ) (m : Entries) (s : List Activity)
    → IsIndexed (record { by_identity = m; by_activity = s })
    → IsIndexed (evict_loop n m s)
unfolding evict_loop
evict_loop-IsIndexed n m [] v = v
evict_loop-IsIndexed n m ((k, id) ∷ s) v = elim (Bool-cases (ltb n (length m))) [
  | inl more ↦ rw more (evict_loop-IsIndexed n (Prelude.remove id m) s (round-IsIndexed m s k id v))
  | inr done ↦ rw done v
]

pub evict_stalest_until-IsIndexed :
    (h : History) (n : ℕ) → IsIndexed h → IsIndexed (evict_stalest_until h n)
unfolding evict_stalest_until
evict_stalest_until-IsIndexed h n v = evict_loop-IsIndexed n h.by_identity h.by_activity v

-- The identity that a round evicts was last active before everyone else.
first_order :
    (m : Entries) (s : List Activity) (k : Option ℕ) (id j : Identity)
    → IsIndexed (record { by_identity = m; by_activity = (k, id) ∷ s })
    → (ts us : List ℕ) → get id m ≡ some ts
    → get j (Prelude.remove id m) ≡ some us
    → activity_lt (activity_key ts, id) (activity_key us, j) ≡ true
unfolding has
first_order m s k id j v ts us old stays =
    let head : k ≡ activity_key ts =
      ground
        (arith, v.exact k id, key_eq_iff k (activity_key ts), key_eq_iff k k, text_eq_iff id id) in
    let listed : has (activity_key us, j) s ≡ true = ground (
      arith,
      v.exact (activity_key us) j,
      get-remove id j m,
      text_eq_iff id j,
      key_eq_iff (activity_key us) (activity_key us),
    ) in
    rw (← head) (lt_of_has (k, id) (activity_key us, j) s v.sorted.0 listed)

evict_loop_order :
    (n : ℕ) (m : Entries) (s : List Activity)
    → IsIndexed (record { by_identity = m; by_activity = s })
    → (i j : Identity) (ts us : List ℕ) → get i m ≡ some ts
    → get i (evict_loop n m s).by_identity ≡ none
    → get j (evict_loop n m s).by_identity ≡ some us
    → activity_lt (activity_key ts, i) (activity_key us, j) ≡ true
unfolding evict_loop
evict_loop_order n m [] v i j ts us old gone stays = cc
evict_loop_order n m ((k, id) ∷ s) v i j ts us old gone stays =
    elim (Bool-cases (ltb n (length m))) [
      | inl more ↦ elim (Bool-cases (text_eq id i)) [
        | inl e ↦
            let same : id ≡ i = (text_eq_iff id i).0 e in
            rw (← same) (
              first_order m s k id j v ts us (rw same old)
                (ground (arith, evict_loop_kept n (Prelude.remove id m) s j)))
        | inr ne ↦
            evict_loop_order n (Prelude.remove id m) s (round-IsIndexed m s k id v) i j ts us
              (ground (arith, get-remove id i m)) (ground arith) (ground arith)
      ]
      | inr done ↦ absurd (ground arith)
    ]

-- With a right index, whoever is evicted comes before everyone who stays in the order of the last activity and, of
-- the same activity, of the identity, and the windows that stay are unchanged.
pub evicts_stalest :
    (h : History) (target_len : ℕ)
    → IsIndexed h
    → (i j : Identity) (ts us : List ℕ) → get i h.by_identity ≡ some ts
    → get i (evict_stalest_until h target_len).by_identity ≡ none
    → get j (evict_stalest_until h target_len).by_identity ≡ some us
    → (activity_lt (activity_key ts, i) (activity_key us, j) ≡ true)
      × (get j h.by_identity ≡ some us)
unfolding evict_stalest_until
evicts_stalest h n v i j ts us old gone stays = (
  evict_loop_order n h.by_identity h.by_activity v i j ts us old gone stays,
  ground (arith, evict_loop_kept n h.by_identity h.by_activity j),
)
