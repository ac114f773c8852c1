-- ===== src/Store/Times.antt =====
-- Instants as milliseconds of the epoch, and back (src/core/policy/store/mod.rs, `Anchor`).
use protect.Store.{Anchor, to_epoch_millis, to_instant, nanos_per_milli}
use protect.Prelude.{
  ℕ, ◌+◌, ◌-◌, ◌*◌, ◌/◌, ◌≤◌, ◌<◌, ◌≡◌, true, false, some, leb, arith, Bool-cases, inl, inr,
}

later_instant :
    (a : Anchor) (instant : ℕ)
    → leb a.instant instant ≡ true
    → to_instant a (to_epoch_millis a instant)
      ≡ some (a.instant + (instant - a.instant) / nanos_per_milli * nanos_per_milli)
unfolding to_instant to_epoch_millis
later_instant a instant h = ground arith

earlier_instant :
    (a : Anchor) (instant : ℕ)
    → leb a.instant instant ≡ false
    → a.instant / nanos_per_milli ≤ a.epoch_millis
    → to_instant a (to_epoch_millis a instant)
      ≡ some (a.instant - (a.instant - instant) / nanos_per_milli * nanos_per_milli)
unfolding to_instant to_epoch_millis
earlier_instant a instant h range = ground arith

-- An instant comes back less than a millisecond off, if the clock has not run for longer than the range of
-- the milliseconds.
pub to_instant-to_epoch_millis :
    (a : Anchor) (instant : ℕ)
    → a.instant / nanos_per_milli ≤ a.epoch_millis
    → (j : ℕ) × (to_instant a (to_epoch_millis a instant) ≡ some j)
      × (j < instant + nanos_per_milli)
      × (instant < j + nanos_per_milli)
to_instant-to_epoch_millis a instant h = elim (Bool-cases (leb a.instant instant)) [
  | inl later ↦ (
    a.instant + (instant - a.instant) / nanos_per_milli * nanos_per_milli,
    later_instant a instant later,
    ground arith,
    ground arith,
  )
  | inr earlier ↦ (
    a.instant - (a.instant - instant) / nanos_per_milli * nanos_per_milli,
    earlier_instant a instant earlier h,
    ground arith,
    ground arith,
  )
]

-- Milliseconds that name an instant are exactly those of that instant.
pub to_epoch_millis-to_instant :
    (a : Anchor) (epoch_millis j : ℕ)
    → to_instant a epoch_millis ≡ some j
    → to_epoch_millis a j ≡ epoch_millis
unfolding to_instant to_epoch_millis
to_epoch_millis-to_instant a epoch_millis j p = ground arith
