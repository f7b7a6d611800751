-- ===== src/Approval.antt =====
-- internal/approval/approval.go: the pending approvals of dangerous calls. Each section under the mutex of the
-- store is one step; a waiter holds the pending record that it registered by an identity, which is new for each
-- registration. Wait is `register`, the sending, and `finish` with what its select fell back to, after any
-- steps of others; the channel `done` is closed exactly when a record is resolved.
pub mod Outcome
mod Tests
use foxharness.Prelude.{
  ℕ, ◌+◌, String, Bool, true, false, List, [], ◌∷◌, Option, some, none, if◌then◌else◌, ◌==◌,
}
use foxharness.Dict.{lookup, put, delete}

-- Result.
pub record Decision : Type 0 where
  pub approved : Bool
  pub reason : String

-- What a call of the store returns: a decision, or an error.
pub data Answer : Type 0 where
  decided : Decision → Answer
  not_found : String → Answer
  conflict : String → Answer
  failed : String → Answer

pub record Pending : Type 0 where
  pub identity : ℕ
  pub result : Option Decision

-- `issued` is the identity of the next record.
pub record Store : Type 0 where
  pub waiting : List (String × Pending)
  pub issued : ℕ

unfoldable pub new_store : Store
new_store = record { waiting = []; issued = 0 }

abbrev pub register_in : String → Store → Option Pending → Option Answer × Store
register_in id s (some p) = (some (conflict id), s)
register_in id s none = (
  none,
  record {
    waiting = put id (record { identity = s.issued; result = none }) s.waiting;
    issued = s.issued + 1;
  },
)

-- The first section of Wait, with the error if there is one.
unfoldable pub register : String → Store → Option Answer × Store
register id s = register_in id s (lookup id s.waiting)

abbrev pub resolve_in : String → Decision → Store → Option Pending → Option Answer × Store
resolve_in id d s none = (some (not_found id), s)
resolve_in id d s (some p) = elim p.result [
  | some earlier ↦ (some (conflict id), s)
  | none ↦ (none, record s { waiting = put id (record p { result = some d }) s.waiting })
]

-- Resolve.
unfoldable pub resolve : String → Decision → Store → Option Answer × Store
resolve id d s = resolve_in id d s (lookup id s.waiting)

abbrev pub or_fallback : Answer → Option Decision → Answer
or_fallback fallback none = fallback
or_fallback fallback (some d) = decided d

abbrev pub finish_in : String → ℕ → Answer → Store → Option Pending → Answer × Store
finish_in id identity fallback s none = (fallback, s)
finish_in id identity fallback s (some p) =
    if p.identity == identity
    then (or_fallback fallback p.result, record s { waiting = delete id s.waiting })
    else (fallback, s)

-- finishWait.
unfoldable pub finish : String → ℕ → Answer → Store → Answer × Store
finish id identity fallback s = finish_in id identity fallback s (lookup id s.waiting)
