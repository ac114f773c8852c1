-- ===== src/Ldap/Requests/Changes.antt =====
-- Which modifications are policed, and as what (src/connector/ldap.rs, `decode`).
use protect.Core.Action.{Action, account_lock, account_unlock}
use protect.Ldap.Dn.{cap_dn}
use protect.Ldap.Locks.{is_lock_attribute, classify_lock_write}
use protect.Ldap.Message.{Change, ChangeOperation, ModifyRequest, Codec}
use protect.Ldap.Requests.{
  find, find_change, lock_operation, decode_modify, sets, deletes, unwrap_or, ldap_action,
  action_on,
}
use protect.Ldap.Text.{Unicode}
use protect.Prelude.{
  ℕ, ◌≡◌, ◌⊎◌, refl, ap, Bool, true, false, ◌&&◌, Option, none, some, List, [], ◌∷◌, ◌++◌, All,
  Bool-cases, inl, inr, Text,
}

-- What `find` returns.
abbrev pub IsFirst : (Change → Bool) → List Change → Option Change → Type 0
IsFirst p cs none = All (λ c. p c ≡ false) cs
IsFirst p cs (some c) =
    (before : List Change) × (rest : List Change) × (cs ≡ before ++ c ∷ rest)
    × All (λ d. p d ≡ false) before
    × (p c ≡ true)

IsFirst-cons :
    (p : Change → Bool) (c : Change) (cs : List Change) (o : Option Change)
    → p c ≡ false
    → IsFirst p cs o
    → IsFirst p (c ∷ cs) o
IsFirst-cons p c cs none h f = (h, f)
IsFirst-cons p c cs (some d) h (before, rest, split, all, q) =
    (c ∷ before, rest, ap (◌∷◌ c) split, (h, all), q)

find-IsFirst : (p : Change → Bool) (cs : List Change) → IsFirst p cs (find p cs)
unfolding find
find-IsFirst p [] = tt
find-IsFirst p (c ∷ cs) = elim (Bool-cases (p c)) [
  | inl hit ↦ rw hit ([], cs, refl, tt, hit)
  | inr miss ↦ rw miss (IsFirst-cons p c cs (find p cs) miss (find-IsFirst p cs))
]

module _ (unicode : Unicode) (codec : Codec) (hash_one : Text → ℕ) where
  -- A change of a lock attribute by one of these operations.
  abbrev pub touches : (ChangeOperation → Bool) → Change → Bool
  touches ops c = ops c.operation && is_lock_attribute unicode c.attr_type

  -- What a modification owes to the policies: nothing only if it neither sets nor deletes a lock
  -- attribute; a lock or an unlock by the value first set; an unlock if attributes are only deleted.
  abbrev pub Policed : ModifyRequest → Option Action → Type 0
  Policed modify none =
      All (λ c. touches sets c ≡ false) modify.changes
      × All (λ c. touches deletes c ≡ false) modify.changes
  Policed modify (some a) =
      ((c : Change) × IsFirst (touches sets) modify.changes (some c)
        × (a
            ≡ ldap_action unicode codec hash_one
                (unwrap_or account_lock (classify_lock_write unicode c.attr_type c.vals))
                (cap_dn hash_one modify.object)))
      ⊎ (All (λ c. touches sets c ≡ false) modify.changes
          × ((c : Change) × IsFirst (touches deletes) modify.changes (some c))
          × (a ≡ ldap_action unicode codec hash_one account_unlock (cap_dn hash_one modify.object)))

  policed :
      (modify : ModifyRequest) (set deleted : Option Change)
      → IsFirst (touches sets) modify.changes set
      → IsFirst (touches deletes) modify.changes deleted
      → Policed modify (
          action_on unicode codec hash_one modify.object
            (lock_operation unicode codec hash_one set deleted))
  unfolding lock_operation
  policed modify none none s d = (s, d)
  policed modify none (some c) s d = inr (s, (c, d), refl)
  policed modify (some c) d s h = inl (c, s, refl)

  -- Every modification is policed as it owes.
  pub decode_modify-Policed :
      (modify : ModifyRequest) → Policed modify (decode_modify unicode codec hash_one modify)
  unfolding decode_modify find_change
  decode_modify-Policed modify =
      policed modify _ _ (find-IsFirst (touches sets) modify.changes)
        (find-IsFirst (touches deletes) modify.changes)
