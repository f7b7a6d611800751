-- ===== src/Permission/Registry/Guards.antt =====
-- No advertised tool is executed without its grounds.
use foxharness.Prelude.{String, ◌≡◌, refl, true, some, inl, inr, ◌⊎◌}
use foxharness.Schema.{ToolCall}
use foxharness.Permission.Request.{Request}
use foxharness.Permission.Modes.{State}
use foxharness.Permission.Policy.{classify}
use foxharness.Permission.Coordinator.{Coordinator, Verdict, permitted, denied, Denial}
use foxharness.Permission.Coordinator.Grounds.{Grounds, authorize-Grounds}
use foxharness.Permission.Registry.{
  ToolResult, Base, tool_advertised, assessment_for, authorized, correlated, execute_if, execute,
  denial_result,
}

module _ {W E : Type 0} (c : Coordinator W E) (base : Base W)
    (evidence : String → Request → E) where
  -- The grounds of an authorization of this call, by the assessment that the registry has for it.
  abbrev pub CallGrounds : ToolCall → State → W → Type 0
  CallGrounds call s w =
      Grounds (correlated c base evidence call)
        (classify c.platform c.workspace c.cwd c.origin call
          (some (assessment_for call base.assess_permission)))
        s w

  -- The two ends of an advertised call, over the result of its authorization.
  abbrev pub Ends : ToolCall → State → W → Verdict × State × W → ToolResult × State × W → Type 0
  Ends call s w auth result =
      (CallGrounds call s w × (result ≡ base.execute call auth.1 auth.2))
      ⊎ ((x : Denial) × (auth.0 ≡ denied x) × (result ≡ (denial_result call x, auth.1, auth.2)))

  execute_if-Ends :
      (call : ToolCall) (s : State) (w : W) (v : Verdict) (s' : State) (w' : W)
      → (v ≡ permitted → CallGrounds call s w)
      → Ends call s w (v, s', w') (execute_if c base evidence call v s' w')
  unfolding execute_if
  execute_if-Ends call s w permitted s' w' g = inl (g refl, refl)
  execute_if-Ends call s w (denied x) s' w' g = inr (x, refl, refl)

  -- A call of an advertised tool ends in one of two ways. Either there are grounds to allow it, by what
  -- the registry says of the tool, and the tool ran once, on what the authorization left; or
  -- the authorization was denied, the tool did not run, and the result is an error with the call's ID.
  pub execute-Ends :
      (call : ToolCall) (s : State) (w : W)
      → tool_advertised base.available_tools call.name ≡ true
      → Ends call s w (authorized c base evidence call s w) (execute c base evidence call s w)
  unfolding execute authorized
  execute-Ends call s w h =
      let auth = authorized c base evidence call s w in
      rw h (
        execute_if-Ends call s w auth.0 auth.1 auth.2 (
          authorize-Grounds (correlated c base evidence call) call
            (some (assessment_for call base.assess_permission)) s w))
