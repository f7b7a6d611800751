-- ===== src/Permission/Modes.antt =====
-- internal/permission/state.go: the selected mode, the effective mode and the grants of a session. The
-- map of grants is an association list by key.
pub mod Effective
use foxharness.Prelude.{
  ℕ, String, Bool, true, false, not, ◌&&◌, ◌||◌, List, [], ◌∷◌, Option, some, none, if◌then◌else◌,
  length,
}
use foxharness.Dict.{lookup, put}
use foxharness.Permission.Request.{Grant}

pub data Mode : Type 0 where
  ask approve full_access : Mode
  other_mode : String → Mode

unfoldable pub normalize_mode : Mode → Mode
normalize_mode approve = approve
normalize_mode full_access = full_access
normalize_mode _ = ask

abbrev pub is_full : Mode → Bool
is_full full_access = true
is_full _ = false

pub record State : Type 0 where
  pub selected : Mode
  pub effective : Mode
  pub full_remembered : Bool
  pub grants : List (String × Grant)

unfoldable pub new_state : Mode → Bool → State
new_state selected remembered =
    let mode = normalize_mode selected in
    record {
      selected = mode;
      effective = if is_full mode && not remembered then ask else mode;
      full_remembered = remembered;
      grants = [];
    }

pub set_selected : Mode → Bool → State → State
set_selected mode remembered s =
    let selected = normalize_mode mode in
    record s {
      selected = selected;
      full_remembered = remembered;
      effective = if is_full selected && not remembered then ask else selected;
    }

pub activate_full_access : Bool → State → State
activate_full_access remember s = record s {
  selected = full_access;
  effective = full_access;
  full_remembered = if remember then true else s.full_remembered;
}

unfoldable pub add_grant : Grant → State → State
add_grant grant s = record s { grants = put grant.key grant s.grants }

-- MatchingGrant, of a key.
unfoldable pub matching_grant : String → State → Option Grant
matching_grant key s = lookup key s.grants

-- ClearGrants, with the number of grants that it removes.
pub clear_grants : State → ℕ × State
clear_grants s = (length s.grants, record s { grants = [] })

pub record Snapshot : Type 0 where
  pub selected_mode : Mode
  pub effective_mode : Mode
  pub full_access_remembered : Bool
  pub full_access_needs_warning : Bool
  pub session_grant_count : ℕ

pub snapshot : State → Snapshot
snapshot s = record {
  selected_mode = s.selected;
  effective_mode = s.effective;
  full_access_remembered = s.full_remembered;
  full_access_needs_warning = is_full s.selected && not (is_full s.effective);
  session_grant_count = length s.grants;
}
