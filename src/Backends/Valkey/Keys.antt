-- ===== src/Backends/Valkey/Keys.antt =====
-- The keys of the sorted sets (src/core/policy/store/valkey.rs, `history_key`).
use protect.Backends.{Row, times_of}
use protect.Backends.Rows.{times_of-cons, times_of-nil}
use protect.Backends.Valkey.{ValkeyStore, full_prefix, history_key, adds_of, next_seq, strip_prefix}
use protect.Backends.Valkey.Laws.{scores_of}
use protect.Core.Identity.{Identity}
use protect.Prelude.{
  ℕ, some, List, [], ◌∷◌, ◌++◌, ◌≡◌, refl, sym, text_eq, text_equality, arith, Text,
}

pub text_eq-append : (prefix s t : Text) → text_eq (prefix ++ s) (prefix ++ t) ≡ text_eq s t
unfolding text_eq
text_eq-append [] s t = refl
text_eq-append (c ∷ prefix) s t = ground (arith, text_eq-append prefix s t)

pub strip_prefix-append : (prefix s : Text) → strip_prefix prefix (prefix ++ s) ≡ some s
unfolding strip_prefix
strip_prefix-append [] s = refl
strip_prefix-append (c ∷ prefix) s = ground (arith, strip_prefix-append prefix s)

pub strip_prefix_lem :
    (prefix text s : Text) → strip_prefix prefix text ≡ some s → text ≡ prefix ++ s
unfolding strip_prefix
strip_prefix_lem [] text s h = ground arith
strip_prefix_lem (c ∷ prefix) [] s h = absurd (cc)
strip_prefix_lem (c ∷ prefix) (d ∷ text) s h = ground (arith, strip_prefix_lem prefix text s)

-- Events of an identity are added to its own sorted set, and no others.
pub scores_of-adds_of :
    (store : ValkeyStore) (id : Identity) (seq : ℕ) (new_events : List Row)
    → scores_of (history_key store id) (adds_of store seq new_events) ≡ times_of id new_events
unfolding scores_of adds_of history_key
scores_of-adds_of store id seq [] = sym (times_of-nil id)
scores_of-adds_of store id seq ((j, t) ∷ new_events) =
    rw (times_of-cons id j t new_events, text_eq-append (full_prefix store) j id)
      (ground (arith, scores_of-adds_of store id (next_seq seq) new_events))
