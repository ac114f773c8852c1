-- ===== src/Backends/Valkey/Visiting.antt =====
-- The loop over the keys of a scan (src/core/policy/store/valkey.rs, `sync`).
use mathlib.Core.List.{Perm}
use protect.Backends.{fresh}
use protect.Backends.Rows.{length-Perm}
use protect.Backends.Valkey.{Commands, Reply, visit, visit_all, take_identity, strip_prefix}
use protect.Backends.Valkey.Laws.{scores, contains, is_ok, IsValkey}
use protect.Backends.Valkey.Seen.{IsUnique}
use protect.Backends.Valkey.Status.{
  Rows, IsUnseen, IsSettled, empty_settled, full_settled, ok_lem, length-nil, length-scores,
  take_identity-IsUnique, take_identity_miss, take_identity_hit, emptied,
}
use protect.Core.Identity.{Identity}
use protect.Prelude.{
  ℕ, ◌<◌, true, false, List, [], ◌∷◌, ◌++◌, ◌≡◌, ◌⊎◌, refl, ap, ◌∙◌, subst, ◌==◌, text_eq_iff,
  text_equality, arith, Bool-cases, inl, inr, get, nat_eq, ok, Text,
}

module _ {S : Type 0} (commands : Commands S) (content : S → Text → List (Text × ℕ))
    (valkey : IsValkey commands content)
    (reads : (key : Text) (cutoff : ℕ) (s : S) → is_ok (commands.read_fresh key cutoff s).0 ≡ true)
    (deletes : (key : Text) (s : S) → is_ok (commands.del key s).0 ≡ true) (prefix : Text)
    (cutoff : ℕ) where
  -- What the server holds for an identity.
  abbrev pub held : S → Identity → List ℕ
  held s id = scores (content s (prefix ++ id))

  -- What the visit of a key does.
  record IsVisit (key : Text) (rows rows' : Rows) (s s' : S) : Type 0 where
    unique : IsUnique rows → IsUnique rows'
    hit :
        (id : Identity) (start : List ℕ)
        → key ≡ prefix ++ id
        → (IsUnseen (get id rows) start (held s id)
            ⊎ IsSettled cutoff (get id rows) start (held s id))
        → IsSettled cutoff (get id rows') start (held s' id)
    miss :
        (id : Identity)
        → (key == (prefix ++ id)) ≡ false
        → (get id rows' ≡ get id rows) × (held s' id ≡ held s id)

  module _ (key : Text) (rows : Rows) (s s' : S) (members : List (Text × ℕ)) (count : ℕ)
      (e : commands.read_fresh key cutoff s ≡ (ok (members, count), s')) where
    untouched_lem :
        (id : Identity)
        → (key == (prefix ++ id)) ≡ false
        → content s' (prefix ++ id) ≡ content s (prefix ++ id)
    untouched_lem id h =
        subst
          (λ (r : Reply S (List (Text × ℕ) × ℕ)).
            content r.1 (prefix ++ id) ≡ content s (prefix ++ id))
          e (valkey.untouched key cutoff s (prefix ++ id) h)

    IsVisit-empty : count ≡ 0 → IsVisit key rows rows s (commands.del key s').1
    IsVisit-empty none_ =
        let (pruned, same, ordered, counted) = valkey.read key cutoff s s' members count e in
        let gone : fresh cutoff (scores (content s key)) ≡ [] =
          length-nil (fresh cutoff (scores (content s key))) (
            omega (
              arith,
              length-Perm pruned,
              length-Perm same,
              length-scores members,
              counted,
              none_,
            )) in
        record {
          unique = λ h. h;
          hit = λ id start k status.
              let now : held (commands.del key s').1 id ≡ [] = ap scores (
                valkey.deleted key s' (deletes key s') (prefix ++ id)
                ∙ emptied key (prefix ++ id) (content s' (prefix ++ id)) k) in
              rw now (
                empty_settled cutoff (get id rows) start (held s id) status
                  (subst (λ (k : Text). fresh cutoff (scores (content s k)) ≡ []) k gone));
          miss = λ id h. (
            refl,
            ap scores
                (valkey.deleted key s' (deletes key s') (prefix ++ id) ∙ rw h (untouched_lem id h)),
          );
        }

    IsVisit-full :
        0 < count
        → IsVisit key rows (take_identity (strip_prefix prefix key) (scores members) rows) s s'
    IsVisit-full more =
        let (pruned, same, ordered, counted) = valkey.read key cutoff s s' members count e in
        record {
          unique = take_identity-IsUnique (strip_prefix prefix key) (scores members) rows;
          hit = λ id start k status. rw (take_identity_hit prefix key id (scores members) rows k) (
              full_settled cutoff (get id rows) start (held s id) (held s' id) (scores members)
                status
                (subst
                  (λ (k : Text). Perm (scores (content s' k)) (fresh cutoff (scores (content s k))))
                  k pruned)
                (subst (λ (k : Text). Perm (scores members) (scores (content s' k))) k same) ordered
                (omega (arith, length-scores members, counted)));
          miss = λ id h. (
            take_identity_miss prefix key id (scores members) rows h,
            ap scores (untouched_lem id h),
          );
        }

    visit_read :
        (rows' : Rows) × (s'' : S) × (visit commands prefix cutoff key rows s ≡ (ok rows', s''))
        × IsVisit key rows rows' s s''
    unfolding visit
    visit_read = elim (Bool-cases (nat_eq count 0)) [
      | inl empty ↦
          (rows, (commands.del key s').1, rw e (rw empty refl), IsVisit-empty (ground arith))
      | inr more ↦ (
        take_identity (strip_prefix prefix key) (scores members) rows,
        s',
        rw e (rw more refl),
        IsVisit-full (ground arith),
      )
    ]

  -- What the loop does, from a map in which the identity is not.
  pub record IsSweep (keys : List Text) (rows rows' : Rows) (s s' : S) : Type 0 where
    pub unique : IsUnique rows → IsUnique rows'
    pub again :
        (id : Identity) (start : List ℕ)
        → IsSettled cutoff (get id rows) start (held s id)
        → IsSettled cutoff (get id rows') start (held s' id)
    pub first :
        (id : Identity) (start : List ℕ)
        → contains (prefix ++ id) keys ≡ true
        → IsUnseen (get id rows) start (held s id)
        → IsSettled cutoff (get id rows') start (held s' id)
    pub never :
        (id : Identity) (start : List ℕ)
        → contains (prefix ++ id) keys ≡ false
        → IsUnseen (get id rows) start (held s id)
        → IsUnseen (get id rows') start (held s' id)

  step-IsSweep :
      (key : Text) (keys : List Text) (rows rows1 rows2 : Rows) (s s1 s2 : S)
      → IsVisit key rows rows1 s s1
      → IsSweep keys rows1 rows2 s1 s2
      → IsSweep (key ∷ keys) rows rows2 s s2
  step-IsSweep key keys rows rows1 rows2 s s1 s2 one rest = record {
    unique = λ h. rest.unique (one.unique h);
    again = λ id start settled. elim (Bool-cases (key == (prefix ++ id))) [
      | inl hit ↦
          rest.again id start
            (one.hit id start ((text_eq_iff key (prefix ++ id)).0 hit) (inr settled))
      | inr miss ↦ let (g, v) = one.miss id miss in rest.again id start (rw (g, v) settled)
    ];
    first = λ id start member unseen. elim (Bool-cases (key == (prefix ++ id))) [
      | inl hit ↦
          rest.again id start
            (one.hit id start ((text_eq_iff key (prefix ++ id)).0 hit) (inl unseen))
      | inr miss ↦
          let (g, v) = one.miss id miss in
          rest.first id start (rw miss at member) (rw (g, v) unseen)
    ];
    never = λ id start member unseen. elim (Bool-cases (key == (prefix ++ id))) [
      | inl hit ↦ let contra = rw hit at member in absurd (cc)
      | inr miss ↦
          let (g, v) = one.miss id miss in
          rest.never id start (rw miss at member) (rw (g, v) unseen)
    ];
  }

  pub visit_all-IsSweep :
      (keys : List Text) (rows : Rows) (s : S)
      → (rows' : Rows) × (s' : S) × (visit_all commands prefix cutoff keys rows s ≡ (ok rows', s'))
        × IsSweep keys rows rows' s s'
  unfolding visit_all
  visit_all-IsSweep [] rows s = (
    rows,
    s,
    refl,
    record {
      unique = λ h. h;
      again = λ id start settled. settled;
      first = λ id start member unseen. absurd (cc);
      never = λ id start member unseen. unseen;
    },
  )
  visit_all-IsSweep (key ∷ keys) rows s =
      let ((members, count), s1, e) =
        ok_lem (commands.read_fresh key cutoff s) (reads key cutoff s) in
      let (rows1, s2, eq1, one) = visit_read key rows s s1 members count e in
      let (rows2, s3, eq2, rest) = visit_all-IsSweep keys rows1 s2 in
      (rows2, s3, rw eq1 eq2, step-IsSweep key keys rows rows1 rows2 s s2 s3 one rest)
