-- ===== src/Backends/Valkey/Status.antt =====
-- What is known of an identity while the loop over the keys runs (src/core/policy/store/valkey.rs, `sync`).
use mathlib.Core.List.{Perm}
use mathlib.Core.List.Perm
use protect.Backends.{fresh, IsAnswer, IsAscending}
use protect.Backends.Rows.{fresh-Perm, fresh-fresh, length-Perm}
use protect.Backends.Valkey.{Reply, take_identity, strip_prefix}
use protect.Backends.Valkey.Keys.{text_eq-append, strip_prefix-append, strip_prefix_lem}
use protect.Backends.Valkey.Laws.{scores, is_ok}
use protect.Backends.Valkey.Seen.{IsUnique, insert-IsUnique}
use protect.Core.Identity.{Identity}
use protect.Prelude.{
  ℕ, suc, ◌<◌, true, false, Option, none, some, List, [], ◌∷◌, ◌++◌, ◌≡◌, ◌⊎◌, refl, sym, ap, ◌∙◌,
  subst, ◌==◌, text_eq, text_eq_iff, if◌then◌else◌, text_equality, arith, Option-cases, inl, inr,
  get, length, get-insert, ok, err, Text,
}

-- The rows of a map, by an identity and what the server holds for it.
abbrev pub Rows : Type 0
Rows = List (Identity × List ℕ)

-- An identity is as it was at the start of the loop, or its set has been pruned and read.
abbrev pub IsUnseen : Option (List ℕ) → List ℕ → List ℕ → Type 0
IsUnseen entry start now = (entry ≡ none) × (now ≡ start)

abbrev pub IsSettled : ℕ → Option (List ℕ) → List ℕ → List ℕ → Type 0
IsSettled cutoff entry start now = IsAnswer entry now × Perm now (fresh cutoff start)

-- Pruned again, it holds the same.
pub pruned_again :
    (cutoff : ℕ) (entry : Option (List ℕ)) (start now : List ℕ)
    → (IsUnseen entry start now ⊎ IsSettled cutoff entry start now)
    → Perm (fresh cutoff now) (fresh cutoff start)
pruned_again cutoff entry start now (inl unseen) = rw unseen.1 (Perm.refl _)
pruned_again cutoff entry start now (inr settled) =
    subst (λ ts. Perm (fresh cutoff now) ts) (fresh-fresh cutoff start)
      (fresh-Perm cutoff settled.1)

pub empty-none :
    (cutoff : ℕ) (entry : Option (List ℕ)) (start now : List ℕ)
    → (IsUnseen entry start now ⊎ IsSettled cutoff entry start now)
    → fresh cutoff now ≡ []
    → entry ≡ none
empty-none cutoff entry start now (inl unseen) e = unseen.0
empty-none cutoff none start now (inr settled) e = refl
empty-none cutoff (some ts) start now (inr settled) e =
    let p = pruned_again cutoff (some ts) start now (inr settled) in
    absurd (omega (arith, length-Perm p, length-Perm settled.1, ap (length {A = ℕ}) e, settled.0.2))

pub empty_settled :
    (cutoff : ℕ) (entry : Option (List ℕ)) (start now : List ℕ)
    → (IsUnseen entry start now ⊎ IsSettled cutoff entry start now)
    → fresh cutoff now ≡ []
    → IsSettled cutoff entry start []
empty_settled cutoff entry start now status e = rw (empty-none cutoff entry start now status e) (
  refl,
  subst (λ ts. Perm ts (fresh cutoff start)) e (pruned_again cutoff entry start now status),
)

pub full_settled :
    (cutoff : ℕ) (entry : Option (List ℕ)) (start now after answer : List ℕ)
    → (IsUnseen entry start now ⊎ IsSettled cutoff entry start now)
    → Perm after (fresh cutoff now)
    → Perm answer after
    → IsAscending answer
    → 0 < length answer
    → IsSettled cutoff (some answer) start after
full_settled cutoff entry start now after answer status p q h positive = (
  (q, h, omega (arith, length-Perm q)),
  Perm.trans p (pruned_again cutoff entry start now status),
)

pub ok_lem : {S A : Type 0} (r : Reply S A) → is_ok r.0 ≡ true → (a : A) × (s : S) × (r ≡ (ok a, s))
ok_lem (ok a, s) h = (a, s, refl)
ok_lem (err e, s) h = absurd (cc)

pub length-nil : (ts : List ℕ) → length ts ≡ 0 → ts ≡ []
length-nil [] h = refl
length-nil (t ∷ ts) h = absurd (omega arith)

pub length-scores : (members : List (Text × ℕ)) → length (scores members) ≡ length members
length-scores [] = refl
length-scores (m ∷ members) = ap suc (length-scores members)

pub take_identity-IsUnique :
    (o : Option Identity) (ts : List ℕ) (rows : Rows)
    → IsUnique rows
    → IsUnique (take_identity o ts rows)
take_identity-IsUnique none ts rows h = h
take_identity-IsUnique (some id) ts rows h = insert-IsUnique id ts rows h

-- A key takes no other identity's entry.
pub take_identity_miss :
    (prefix key : Text) (id : Identity) (ts : List ℕ) (rows : Rows)
    → (key == (prefix ++ id)) ≡ false
    → get id (take_identity (strip_prefix prefix key) ts rows) ≡ get id rows
take_identity_miss prefix key id ts rows miss = elim (Option-cases (strip_prefix prefix key)) [
  | inl e ↦ rw e refl
  | inr (j, e) ↦
      let other : text_eq j id ≡ false =
        sym (text_eq-append prefix j id)
        ∙ subst (λ k. text_eq k (prefix ++ id) ≡ false) (strip_prefix_lem prefix key j e) miss in
      rw e (get-insert j id ts rows ∙ rw other refl)
]

pub take_identity_hit :
    (prefix key : Text) (id : Identity) (ts : List ℕ) (rows : Rows)
    → key ≡ prefix ++ id
    → get id (take_identity (strip_prefix prefix key) ts rows) ≡ some ts
take_identity_hit prefix key id ts rows e =
    rw (e, strip_prefix-append prefix id)
      (get-insert id id ts rows ∙ (rw ((text_eq_iff id id).1 refl) refl))

pub emptied :
    (key k : Text) (members : List (Text × ℕ)) → key ≡ k → (if key == k then [] else members) ≡ []
emptied key k members e = rw ((text_eq_iff key k).1 e) refl
