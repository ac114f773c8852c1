-- ===== src/Store/Sync.antt =====
-- What a sync leaves (src/core/policy/threshold.rs, `sync_once`).
use protect.Store.{Anchor, drain, fold, events_of}
use protect.Threshold.{ThresholdPolicy, PersistentState}
use protect.Prelude.{ℕ, ◌≡◌, refl, none, some, []}

-- If the store fails a sync, the policy keeps its history, but what it had admitted since the sync before is not
-- handed over again: if nothing is admitted in between, the next sync hands over nothing.
pub drain-fold :
    (first second : Anchor) (now : ℕ) (p : ThresholdPolicy) (s : PersistentState)
    → p.state ≡ some s
    → ((drain first p).0 ≡ events_of first s.pending)
      × ((fold first now none (drain first p).1).history ≡ p.history)
      × ((drain second (fold first now none (drain first p).1)).0 ≡ [])
unfolding drain fold events_of
drain-fold first second now p s e = (rw e refl, refl, rw e refl)
