-- ===== src/Core/Action.antt =====
-- src/core/action.rs: what a client attempts, with no trace of the wire protocol.
use protect.Prelude.{ℕ, Bool, true, false, List, [], ◌∷◌, ◌≡◌, ◌↔◌, ◌||◌, arith, Eq, ◌==◌, Text}

pub data OperationKind : Type 0 where
  account_lock account_unlock delete create password_reset rename : OperationKind

abbrev pub kind_eq : OperationKind → OperationKind → Bool
kind_eq account_lock account_lock = true
kind_eq account_unlock account_unlock = true
kind_eq delete delete = true
kind_eq create create = true
kind_eq password_reset password_reset = true
kind_eq rename rename = true
kind_eq _ _ = false

pub kind_eq_iff : (a b : OperationKind) → (kind_eq a b ≡ true) ↔ (a ≡ b)
kind_eq_iff a b = ground arith

instance abbrev pub kind_equality : Eq OperationKind
kind_equality = record { beq = kind_eq; beq_iff = kind_eq_iff }

-- `Vec::contains`
unfoldable pub contains : List OperationKind → OperationKind → Bool
contains [] k = false
contains (j ∷ ks) k = (j == k) || contains ks k

-- `backend` is the constant "ldap" of the only connector.
pub record Action : Type 0 where
  pub backend : Text
  pub operation : OperationKind
  pub target : Text
  pub blast_radius : ℕ
