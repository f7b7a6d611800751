-- ===== src/Toolpolicy/Path.antt =====
-- internal/toolpolicy/path.go: where a path lies relative to the workspace, symbolic links resolved
-- through the nearest existing ancestor. The operating system and package filepath are parameters.
pub mod Tests
use foxharness.Prelude.{
  false, ℕ, zero, suc, ◌+◌, Bool, not, ◌&&◌, ◌||◌, List, [], ◌∷◌, Option, some, none, length,
  if◌then◌else◌, false,
}
use foxharness.Prelude.{Text, codes, eqb, has_prefix}
use foxharness.Toolpolicy.Assessment.{Scope, workspace_scope, external_scope}

-- `clean_path` is filepath.Abs followed by filepath.Clean, `exists` is os.Lstat without an error, and
-- `dir` of a root is that root.
pub record FileSystem : Type 0 where
  pub trim_space : Text → Text
  pub clean_path : Text → Text
  pub is_abs : Text → Bool
  pub join : List Text → Text
  pub rel : Text → Text → Option Text
  pub exists : Text → Bool
  pub dir : Text → Text
  pub base : Text → Text
  pub eval_symlinks : Text → Option Text

-- How the climb of resolvePath ends: at an ancestor that exists, with its symbolic links resolved or
-- not; at a root that does not exist; or, which no run of the source does, by the end of its fuel.
pub data Climbed : Type 0 where
  resolved_to : Text → Climbed
  unresolved no_ancestor out_of_fuel : Climbed

module _ (fs : FileSystem) where
  open fs use {trim_space, clean_path, is_abs, join, rel, exists, dir, base, eval_symlinks}

  rejoin : List Text → Option Text → Climbed
  rejoin suffix none = unresolved
  rejoin suffix (some resolved) = resolved_to (clean_path (join (resolved ∷ suffix)))

  -- The climb to the nearest existing ancestor, with fuel.
  pub climb : ℕ → Text → List Text → Climbed
  unfolding rejoin
  climb zero existing suffix = out_of_fuel
  climb (suc fuel) existing suffix =
      let up = climb fuel (dir existing) (base existing ∷ suffix) in
      if exists existing
      then rejoin suffix (eval_symlinks existing)
      else if eqb (dir existing) existing
      then no_ancestor
      else up

  result_of : Climbed → Option Text
  result_of (resolved_to path) = some path
  result_of _ = none

  -- resolvePath. A parent directory that differs is shorter, so the length of the path is fuel enough.
  pub resolve_path : Text → Option Text
  unfolding climb result_of
  resolve_path path = let p = clean_path path in result_of (climb (length p + 1) p [])

  scope_of : Option Text → Option Scope
  scope_of none = none
  scope_of (some r) =
      if eqb r (codes ".") || (not (has_prefix r (codes "..")) && not (is_abs r))
      then some workspace_scope
      else some external_scope

  relate : Option Text → Option Text → Option Scope
  unfolding scope_of
  relate none workspace = none
  relate (some target) none = none
  relate (some target) (some workspace) = scope_of (rel workspace target)

  -- PathScope, with none for its second result false.
  pub path_scope : Text → Text → Text → Option Scope
  unfolding relate resolve_path
  path_scope workspace cwd target =
      let root = clean_path workspace in
      let base_dir = if eqb (trim_space cwd) [] then root else cwd in
      let full =
        if is_abs target then clean_path target else clean_path (join (base_dir ∷ target ∷ [])) in
      if eqb (trim_space workspace) [] || eqb (trim_space target) []
      then none
      else relate (resolve_path full) (resolve_path root)
