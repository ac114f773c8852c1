-- ===== src/Ldap/Upstream.antt =====
-- `LdapConnector::connect_upstream` of src/connector/ldap.rs: the targets are dialed in the pool's order
-- until one answers. What a dial gives is the network's: `dial k addr` is the outcome of the k-th dial
-- of the call, and `now k` the time at which it failed.
use mathlib.Core.List.Perm
use mathlib.Core.List.{Perm, not-mem-nil, mem-cons_self}
use protect.Core.Identity.{SocketAddr}
use protect.Pool.{
  Candidate, UpstreamPool, candidates, mark_failed, mark_down, max_instant, mark_connected,
}
use protect.Pool.Tiers.{IsOffer, candidates-IsOffer}
use protect.Prelude.{
  leb, true, ◌≤◌, ℕ, Result, ok, err, Result-cases, zero, suc, ◌+◌, ◌<◌, inl, inr, subst, sym,
  Option, none, some, List, [], ◌∷◌, ◌++◌, ◌≡◌, refl, ap, map, length, indices, arith,
}

-- A stream with its guard, the error of the last dial, or a panic: of `expect`, or of `mark_failed`.
pub data Connection (S E : Type 0) : Type 0 where
  connected : S → ℕ → Connection S E
  failed : E → Connection S E
  panicked : Connection S E

Perm-not_empty :
    (cs : List Candidate) (n : ℕ)
    → Perm (map (λ c. c.index) cs) (indices 0 n)
    → 0 < n
    → (c : Candidate) × (rest : List Candidate) × (cs ≡ c ∷ rest)
Perm-not_empty [] zero perm h = absurd (omega arith)
Perm-not_empty [] (suc n) perm h = absurd (not-mem-nil ((Perm.mem_iff perm).1 mem-cons_self))
Perm-not_empty (c ∷ cs) n perm h = (c, cs, refl)

module _ {S E : Type 0} (dial : ℕ → SocketAddr → Result S E) (now : ℕ → ℕ) where
  give_up : Option E → Connection S E
  give_up none = panicked
  give_up (some e) = failed e

  -- The loop, before its k-th dial.
  unfoldable pub connect_loop :
      List Candidate → ℕ → UpstreamPool → Option E → Connection S E × UpstreamPool
  unfolding give_up
  connect_loop [] k pool last_err = (give_up last_err, pool)
  connect_loop (c ∷ cs) k pool last_err = elim (dial k c.addr) [
    | ok stream ↦
        (connected stream (mark_connected pool c.index).1, (mark_connected pool c.index).0)
    | err e ↦ elim (mark_failed pool c.index (now k)) [
      | none ↦ (panicked, pool)
      | some marked ↦ connect_loop cs (suc k) marked (some e)
    ]
  ]

  unfoldable pub connect_upstream :
      (List ℕ → List ℕ) → (ℕ → ℕ) → UpstreamPool → Connection S E × UpstreamPool
  connect_upstream shuffle clock pool =
      connect_loop (candidates shuffle clock pool).0 0 (candidates shuffle clock pool).1 none

  -- Every one of the candidates was dialed, from the k-th dial on, and failed.
  abbrev pub AllFailed : ℕ → List Candidate → Type 0
  AllFailed k [] = Unit
  AllFailed k (c ∷ cs) = ((e : E) × (dial k c.addr ≡ err e)) × AllFailed (suc k) cs

  -- The pool after these failures.
  unfoldable pub fail_all : ℕ → List Candidate → UpstreamPool → UpstreamPool
  fail_all k [] pool = pool
  fail_all k (c ∷ cs) pool = fail_all (suc k) cs (mark_down pool c.index (now k + pool.cooldown))

  -- The error of the last of the dials.
  abbrev pub IsLastError : ℕ → List Candidate → E → Type 0
  IsLastError k [] e = ⊥
  IsLastError k (c ∷ []) e = dial k c.addr ≡ err e
  IsLastError k (c ∷ d ∷ cs) e = IsLastError (suc k) (d ∷ cs) e

  -- What a call owes: a connection to the first candidate that answers, counted there, with those before
  -- it marked down; or, after every candidate has failed and is marked down, the last error.
  abbrev pub Owes : List Candidate → ℕ → UpstreamPool → Connection S E × UpstreamPool → Type 0
  Owes cs k pool (panicked, after) = ⊥
  Owes cs k pool (failed e, after) =
      AllFailed k cs × IsLastError k cs e × (after ≡ fail_all k cs pool)
  Owes cs k pool (connected stream i, after) =
      (before : List Candidate) × (c : Candidate) × (rest : List Candidate) × (cs
        ≡ before ++ c ∷ rest)
      × AllFailed k before
      × (dial (k + length before) c.addr ≡ ok stream)
      × (i ≡ c.index)
      × (after ≡ (mark_connected (fail_all k before pool) c.index).0)

  Owes-cons :
      (c d : Candidate) (cs : List Candidate) (k : ℕ) (pool : UpstreamPool) (e : E)
      (r : Connection S E × UpstreamPool)
      → dial k c.addr ≡ err e
      → Owes (d ∷ cs) (suc k) (mark_down pool c.index (now k + pool.cooldown)) r
      → Owes (c ∷ d ∷ cs) k pool r
  unfolding fail_all
  Owes-cons c d cs k pool e (panicked, after) dialed o = o
  Owes-cons c d cs k pool e (failed e', after) dialed (all, last, p) = (((e, dialed), all), last, p)
  Owes-cons c d cs k pool e (connected stream i, after) dialed
        (before, c', rest, split, all, answered, index, p) =
      (
        c ∷ before,
        c',
        rest,
        ap (◌∷◌ c) split,
        ((e, dialed), all),
        subst (λ n. dial n c'.addr ≡ ok stream) (omega arith) answered,
        index,
        p,
      )

  connect_loop_ok :
      (c : Candidate) (cs : List Candidate) (k : ℕ) (pool : UpstreamPool) (last_err : Option E)
      (stream : S)
      → dial k c.addr ≡ ok stream
      → connect_loop (c ∷ cs) k pool last_err
        ≡ (connected stream c.index, (mark_connected pool c.index).0)
  unfolding connect_loop mark_connected
  connect_loop_ok c cs k pool last_err stream p = rw (p, connect_loop) refl

  connect_loop_err :
      (c : Candidate) (cs : List Candidate) (k : ℕ) (pool : UpstreamPool) (last_err : Option E)
      (e : E)
      → dial k c.addr ≡ err e
      → now k + pool.cooldown ≤ max_instant
      → connect_loop (c ∷ cs) k pool last_err
        ≡ connect_loop cs (suc k) (mark_down pool c.index (now k + pool.cooldown)) (some e)
  unfolding connect_loop mark_failed
  connect_loop_err c cs k pool last_err e p fits =
      let h : leb (now k + pool.cooldown) max_instant ≡ true = ground arith in
      rw (p, h, connect_loop) refl

  answered-Owes :
      (c : Candidate) (cs : List Candidate) (k : ℕ) (pool : UpstreamPool) (last_err : Option E)
      (stream : S)
      → dial k c.addr ≡ ok stream
      → Owes (c ∷ cs) k pool (connect_loop (c ∷ cs) k pool last_err)
  unfolding fail_all
  answered-Owes c cs k pool last_err stream p =
      subst (Owes (c ∷ cs) k pool) (sym (connect_loop_ok c cs k pool last_err stream p))
        ([], c, cs, refl, tt, subst (λ n. dial n c.addr ≡ ok stream) (omega arith) p, refl, refl)

  connect_loop-Owes :
      (c : Candidate) (cs : List Candidate) (k : ℕ) (pool : UpstreamPool) (last_err : Option E)
      → ((j : ℕ) → now j + pool.cooldown ≤ max_instant)
      → Owes (c ∷ cs) k pool (connect_loop (c ∷ cs) k pool last_err)
  unfolding connect_loop fail_all give_up mark_down
  connect_loop-Owes c [] k pool last_err fits = elim (Result-cases (dial k c.addr)) [
    | inl (stream, p) ↦ answered-Owes c [] k pool last_err stream p
    | inr (e, p) ↦
        subst (Owes (c ∷ []) k pool) (sym (connect_loop_err c [] k pool last_err e p (fits k)))
          (((e, p), tt), p, refl)
  ]
  connect_loop-Owes c (d ∷ cs) k pool last_err fits = elim (Result-cases (dial k c.addr)) [
    | inl (stream, p) ↦ answered-Owes c (d ∷ cs) k pool last_err stream p
    | inr (e, p) ↦
        subst (Owes (c ∷ d ∷ cs) k pool)
          (sym (connect_loop_err c (d ∷ cs) k pool last_err e p (fits k)))
          (Owes-cons c d cs k pool e _ p (
            connect_loop-Owes d cs (suc k) (mark_down pool c.index (now k + pool.cooldown)) (some e)
              fits))
  ]

  -- For a pool with a target, if no cooldown that starts during the call ends beyond the range of an Instant, the
  -- call never panics: it offers every target once, in the order that
  -- `candidates` promises, and gives a stream to the first that answers, counted there, or the last
  -- error when all of them have failed; each that failed before is marked down.
  pub connect_upstream-Owes :
      (shuffle : List ℕ → List ℕ) (clock : ℕ → ℕ) (pool : UpstreamPool)
      → ((xs : List ℕ) → Perm (shuffle xs) xs)
      → 0 < length pool.targets
      → ((j : ℕ) → now j + pool.cooldown ≤ max_instant)
      → IsOffer pool clock (candidates shuffle clock pool).0
        × Owes
            (candidates shuffle clock pool).0
            0
            (candidates shuffle clock pool).1
            (connect_upstream shuffle clock pool)
  unfolding connect_upstream candidates
  connect_upstream-Owes shuffle clock pool reorders some_target fits =
      let offer = candidates-IsOffer shuffle reorders pool clock in
      let (c, cs, e) =
        Perm-not_empty (candidates shuffle clock pool).0 (length pool.targets) offer.every
          some_target in
      (
        offer,
        subst
            (λ l.
              Owes l 0 (candidates shuffle clock pool).1
                (connect_loop l 0 (candidates shuffle clock pool).1 none))
            (sym e) (connect_loop-Owes c cs 0 (candidates shuffle clock pool).1 none fits),
      )
