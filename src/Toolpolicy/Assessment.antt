-- ===== src/Toolpolicy/Assessment.antt =====
-- internal/toolpolicy/assessment.go. The Go types are strings, so each type has a constructor for a
-- value outside its constants.
use foxharness.Prelude.{String, Bool, List}

pub data Behavior : Type 0 where
  fast_allow reviewable human_only : Behavior
  other_behavior : String → Behavior

pub data Effect : Type 0 where
  observe mutate execute network delegate workflow interact unknown_effect : Effect
  other_effect : String → Effect

pub data Scope : Type 0 where
  workspace_scope external_scope mixed_scope unknown_scope : Scope
  other_scope : String → Scope

pub data Risk : Type 0 where
  low medium high critical : Risk
  other_risk : String → Risk

pub record Assessment : Type 0 where
  pub behavior : Behavior
  pub action : String
  pub effects : List Effect
  pub scope : Scope
  pub read_only : Bool
  pub nested_enforcement : Bool
  pub risk_hint : Risk
  pub reason : String
  pub target : String
  pub commands : List String
