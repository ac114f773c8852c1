-- ===== src/Backends/Valkey/Laws.antt =====
-- What the documentation of Valkey says of the commands that the store sends (src/core/policy/store/valkey.rs).
use mathlib.Core.List.{Perm}
use protect.Backends.{fresh}
use protect.Backends.Valkey.{Add, Commands, scan_loop}
use protect.Pool.Tiers.{IsSortedBy}
use protect.Prelude.{
  ℕ, Bool, true, false, some, List, [], ◌∷◌, ◌++◌, ◌≡◌, ◌≢◌, map, length, All, ok, Text, codes,
  ◌==◌, if◌then◌else◌, text_equality, ◌||◌, nat_eq, Result, err,
}

abbrev pub scores : List (Text × ℕ) → List ℕ
scores members = map (λ (m : Text × ℕ). m.1) members

abbrev pub has_member : Text → List (Text × ℕ) → Bool
has_member member [] = false
has_member member ((m, t) ∷ members) = m == member || has_member member members

-- The scores that are added to a sorted set.
unfoldable pub scores_of : Text → List Add → List ℕ
scores_of key [] = []
scores_of key (a ∷ adds) =
    let rest = scores_of key adds in if a.key == key then a.score ∷ rest else rest

abbrev pub contains : Text → List Text → Bool
contains key [] = false
contains key (k ∷ keys) = k == key || contains key keys

-- No member is in its sorted set already, or twice among those that are added.
abbrev pub IsNew : (Text → List (Text × ℕ)) → List Add → Type 0
IsNew content [] = Unit
IsNew content (a ∷ adds) =
    (has_member a.member (content a.key) ≡ false)
    × All (λ (b : Add). b.key ≡ a.key → b.member ≢ a.member) adds
    × IsNew content adds

-- Text without a character that is special in a pattern.
abbrev pub IsPlain : Text → Type 0
IsPlain text =
    All
      (λ c. (nat_eq c 42 || (nat_eq c 63 || (nat_eq c 91 || (nat_eq c 93 || nat_eq c 92)))) ≡ false)
      text

abbrev pub is_ok : {A : Type 0} → Result A Text → Bool
is_ok (ok a) = true
is_ok (err e) = false

-- `content` is what the server holds: of each key, the members of its sorted set.
pub record IsValkey {S : Type 0} (commands : Commands S) (content : S → Text → List (Text × ℕ))
    : Type 0 where
  pub connected : (s : S) (k : Text) → content (commands.connect s).1 k ≡ content s k
  pub added :
      (adds : List Add) (s : S)
      → is_ok (commands.zadd_all adds s).0 ≡ true
      → IsNew (content s) adds
      → (k : Text)
      → Perm
          (scores (content (commands.zadd_all adds s).1 k))
          (scores (content s k) ++ scores_of k adds)
  pub scanned :
      (cursor : ℕ) (pattern : Text) (s : S) (k : Text)
      → content (commands.scan cursor pattern s).1 k ≡ content s k
  pub complete :
      (fuel : ℕ) (prefix : Text) (s s' : S) (keys : List Text)
      → IsPlain prefix
      → scan_loop commands fuel (prefix ++ codes "*") 0 [] s ≡ some (ok keys, s')
      → (rest : Text) → contains (prefix ++ rest) keys ≡ false
      → content s (prefix ++ rest) ≡ []
  pub read :
      (key : Text) (cutoff : ℕ) (s s' : S) (members : List (Text × ℕ)) (count : ℕ)
      → commands.read_fresh key cutoff s ≡ (ok (members, count), s')
      → Perm (scores (content s' key)) (fresh cutoff (scores (content s key)))
        × Perm (scores members) (scores (content s' key))
        × IsSortedBy (λ t. t) (scores members)
        × (count ≡ length members)
  pub untouched :
      (key : Text) (cutoff : ℕ) (s : S) (k : Text)
      → (key == k) ≡ false
      → content (commands.read_fresh key cutoff s).1 k ≡ content s k
  pub deleted :
      (key : Text) (s : S)
      → is_ok (commands.del key s).0 ≡ true
      → (k : Text) → content (commands.del key s).1 k ≡ (if key == k then [] else content s k)

-- Every command is answered, and a scan ends within `fuel` replies.
pub record IsResponsive {S : Type 0} (commands : Commands S) (fuel : ℕ) (pattern : Text)
    : Type 0 where
  pub connects : (s : S) → is_ok (commands.connect s).0 ≡ true
  pub adds : (new : List Add) (s : S) → is_ok (commands.zadd_all new s).0 ≡ true
  pub reads : (key : Text) (cutoff : ℕ) (s : S) → is_ok (commands.read_fresh key cutoff s).0 ≡ true
  pub deletes : (key : Text) (s : S) → is_ok (commands.del key s).0 ≡ true
  pub scans :
      (s : S)
      → (keys : List Text) × (s' : S) × (scan_loop commands fuel pattern 0 [] s
          ≡ some (ok keys, s'))
