-- ===== src/Toolexec/Answers.antt =====
-- Which call a result answers.
use foxharness.Prelude.{
  String, List, [], ◌∷◌, Option, some, none, str_eq, eq_iff, ◌≡◌, refl, ap, sym, ◌∙◌, arith,
  Bool-cases, inl, inr, ◌⊎◌,
}
use foxharness.Dict.{lookup}
use foxharness.Schema.{ToolCall}
use foxharness.Engine.Types.{ToolExecutionResult, ok}
use foxharness.Engine.ToolRound.Correlates.{ids, result_ids}
use foxharness.Toolexec.{
  Step, CapabilitySnapshot, Capability, Executor, Execution, returned, panicked, execute_one,
  execute, settled, completed, failure_result, run_with, unless_cancelled, execute_found,
}
use foxharness.Toolexec.Orders.{Ordering}
use foxharness.Toolexec.Schedules.{answers, Independent, execute-answers}

completed_id :
    (call : ToolCall) (r : ToolExecutionResult)
    → (r.call_id ≡ "") ⊎ (r.call_id ≡ call.id)
    → (completed call r).call_id ≡ call.id
unfolding completed
completed_id call r h = elim (Bool-cases (str_eq r.call_id "")) [
  | inl b ↦ rw b refl
  | inr b ↦ rw b (elim h [ inl e ↦ absurd (ground (arith, eq_iff r.call_id "")) | inr e ↦ e ])
]

module _ {W : Type 0} (cancelled : W → Option String) (s : CapabilitySnapshot W) where
  -- What a capability returns names no call, or the call that it was run for.
  abbrev pub Named : Type 0
  Named =
      (call : ToolCall) (c : Capability W) (run : ToolCall → W → Execution × W) (w : W)
      (r : ToolExecutionResult)
      → lookup call.name s.capabilities ≡ some c
      → c.run ≡ some run
      → (run call w).0 ≡ returned r
      → (r.call_id ≡ "") ⊎ (r.call_id ≡ call.id)

  settled_id :
      (call : ToolCall) (x : Execution)
      → ((r : ToolExecutionResult) → x ≡ returned r → (r.call_id ≡ "") ⊎ (r.call_id ≡ call.id))
      → (settled call x).call_id ≡ call.id
  unfolding settled failure_result
  settled_id call (returned r) h = completed_id call r (h r refl)
  settled_id call (panicked reason) h = refl

  run_id :
      Named
      → (call : ToolCall) (c : Capability W) (w : W) → lookup call.name s.capabilities ≡ some c
      → (run : Option (ToolCall → W → Execution × W)) → c.run ≡ run
      → (run_with cancelled run call w).0.call_id ≡ call.id
  unfolding settled failure_result
  run_id named call c w q none e = refl
  run_id named call c w q (some run) e =
      settled_id call (run call w).0 (λ r h. named call c run w r q e h)

  found_id :
      Named
      → (call : ToolCall) (w : W) (found : Option (Capability W))
      → lookup call.name s.capabilities ≡ found
      → (execute_found cancelled found call w).0.call_id ≡ call.id
  unfolding failure_result
  found_id named call w none q = refl
  found_id named call w (some c) q = in_time (cancelled w)
    where
      in_time :
          (reason : Option String)
          → (unless_cancelled cancelled reason c call w).0.call_id ≡ call.id
      in_time (some reason) = refl
      in_time none = run_id named call c w q c.run refl

  answers-ids :
      Named
      → (calls : List ToolCall) (w : W) → result_ids (answers cancelled s calls w).0 ≡ ids calls
  unfolding answers execute_one
  answers-ids named [] w = refl
  answers-ids named (call ∷ calls) w =
      let first = found_id named call w (lookup call.name s.capabilities) refl in
      let rest = answers-ids named calls (execute_one cancelled s call w).1 in λ i. first i ∷ rest i

  -- If every order of a group is possible for its goroutines, calls that may run in parallel come to the same
  -- results and the same world in either order, and no capability returns a result for a call that it was not
  -- run for, then the results that Execute gives on a snapshot of its own bear the IDs of the calls, one by
  -- one and in their order.
  pub execute-ids :
      (schedule : List Step → List Step)
      → ((l : List Step) → Ordering l (schedule l))
      → Independent cancelled s
      → Named
      → (e : Executor W) (calls : List ToolCall) (w : W) → s.owner ≡ e.identity
      → (results : List ToolExecutionResult)
      → (execute cancelled schedule e s calls w).0 ≡ ok results
      → result_ids results ≡ ids calls
  execute-ids schedule ordered free named e calls w own results h =
      let whole = execute-answers cancelled s schedule ordered free e calls w own in
      let same : ok (answers cancelled s calls w).0 ≡ ok results = sym (ap (λ x. x.0) whole) ∙ h in
      let one : (answers cancelled s calls w).0 ≡ results = cc in
      rw (← one) (answers-ids named calls w)
