-- ===== src/Toolexec.antt =====
-- internal/toolexec/executor.go: the executor of tool batches. Clones of values are identities. A capability
-- works on a world `W`; a panic inside it is an outcome, and the cancellation of the context is read from
-- the world. The goroutines of a parallel group are steps that come in any order; each of them writes one
-- slot of the results.
pub mod Orders
pub mod Schedules
pub mod Answers
mod Tests
use foxharness.Prelude.{
  drop, ℕ, zero, suc, ◌+◌, ◌-◌, ◌≤◌, String, Bool, true, false, List, [], ◌∷◌, ◌++◌, Option, some,
  none, if◌then◌else◌, length, str_eq, joined, text_append, ◌&&◌, not, map, ◌==◌,
}
use foxharness.Dict.{lookup, put}
use foxharness.Schema.{ToolCall, ToolDefinition}
use foxharness.Engine.Types.{
  Error, failure, Result, ok, err, Started, started, start_failed, ToolExecutionResult,
  ToolExecutor,
}

-- What the execution of a capability comes to: a result, or a panic with its value as text.
pub data Execution : Type 0 where
  returned : ToolExecutionResult → Execution
  panicked : String → Execution

pub record Capability (W : Type 0) : Type 0 where
  pub definition : ToolDefinition
  pub parallel_safe : Bool
  pub run : Option (ToolCall → W → Execution × W)

-- A snapshot: the executor that made it, by its identity, and its capabilities by name.
pub record CapabilitySnapshot (W : Type 0) : Type 0 where
  pub owner : ℕ
  pub definitions : List ToolDefinition
  pub capabilities : List (String × Capability W)

pub record Executor (W : Type 0) : Type 0 where
  pub identity : ℕ
  pub capabilities : List (Capability W)

unfoldable pub failure_result : String → String → ToolExecutionResult
failure_result call_id content = record {
  call_id = call_id;
  full_content = content;
  model_content = content;
  observer_content = content;
  artifact_path = "";
  is_error = true;
  content_parts = [];
  structured_content = "";
}

-- The defaults that executeOne fills in.
unfoldable pub completed : ToolCall → ToolExecutionResult → ToolExecutionResult
completed call r = record r {
  call_id = if str_eq r.call_id "" then call.id else r.call_id;
  full_content = if str_eq r.full_content "" then r.model_content else r.full_content;
  observer_content = if str_eq r.observer_content "" then r.model_content else r.observer_content;
}

unfoldable pub settled : ToolCall → Execution → ToolExecutionResult
unfolding completed failure_result
settled call (returned r) = completed call r
settled call (panicked reason) =
    failure_result call.id (joined ("Error executing " ∷ call.name ∷ ": panic: " ∷ reason ∷ []))

-- The slots of the results, and the write to one of them.
abbrev pub Slots : Type 0
Slots = List ToolExecutionResult

abbrev pub write : ℕ → ToolExecutionResult → Slots → Slots
write i r [] = []
write zero r (old ∷ slots) = r ∷ slots
write (suc i) r (old ∷ slots) = old ∷ write i r slots

-- A call with the index of its slot.
abbrev pub Step : Type 0
Step = ℕ × ToolCall

abbrev pub numbered : ℕ → List ToolCall → List Step
numbered i [] = []
numbered i (call ∷ calls) = (i, call) ∷ numbered (i + 1) calls

-- The results that make([]ToolExecutionResult, n) begins with.
abbrev pub empty_slots : List ToolCall → Slots
empty_slots calls =
    map
      (λ call. record {
        call_id = "";
        full_content = "";
        model_content = "";
        observer_content = "";
        artifact_path = "";
        is_error = false;
        content_parts = [];
        structured_content = "";
      })
      calls

module _ {W : Type 0} where
  -- The loop of Snapshot: a later capability of a name replaces an earlier one.
  indexed : List (String × Capability W) → List (Capability W) → List (String × Capability W)
  indexed table [] = table
  indexed table (c ∷ cs) = indexed (put c.definition.name c table) cs

  unfoldable pub snapshot : Option (Executor W) → Result (CapabilitySnapshot W)
  unfolding indexed
  snapshot none = err (failure "tool executor is required")
  snapshot (some e) = ok (record {
    owner = e.identity;
    definitions = map (λ c. c.definition) e.capabilities;
    capabilities = indexed [] e.capabilities;
  })

  abbrev safe : Option (Capability W) → Bool
  safe none = false
  safe (some c) = c.parallel_safe

  -- Whether a call may join a parallel group.
  unfoldable pub is_parallel : CapabilitySnapshot W → ToolCall → Bool
  is_parallel s call = safe (lookup call.name s.capabilities)

  -- The calls of the group that begins a list: the inner loop of Execute.
  unfoldable pub group : CapabilitySnapshot W → List ToolCall → List ToolCall
  unfolding is_parallel
  group s [] = []
  group s (call ∷ calls) =
      let rest = group s calls in if is_parallel s call then call ∷ rest else []

  -- executeOne; `cancelled` is ctx.Err() as text.
  module _ (cancelled : W → Option String) where
    abbrev pub settled_in : ToolCall → Execution × W → ToolExecutionResult × W
    settled_in call (x, w) = (settled call x, w)

    abbrev pub run_with :
        Option (ToolCall → W → Execution × W) → ToolCall → W → ToolExecutionResult × W
    run_with none call w = (
      failure_result call.id
          (joined ("Error executing " ∷ call.name ∷ ": executable capability is missing" ∷ [])),
      w,
    )
    run_with (some run) call w = settled_in call (run call w)

    abbrev pub unless_cancelled :
        Option String → Capability W → ToolCall → W → ToolExecutionResult × W
    unless_cancelled (some reason) c call w = (failure_result call.id reason, w)
    unless_cancelled none c call w = run_with c.run call w

    abbrev pub execute_found : Option (Capability W) → ToolCall → W → ToolExecutionResult × W
    execute_found none call w = (
      failure_result call.id
          (joined ("Error: tool '" ∷ call.name ∷ "' does not exist in the system" ∷ [])),
      w,
    )
    execute_found (some c) call w = unless_cancelled (cancelled w) c call w

    unfoldable pub execute_one : CapabilitySnapshot W → ToolCall → W → ToolExecutionResult × W
    unfolding settled failure_result
    execute_one s call w = execute_found (lookup call.name s.capabilities) call w

    unfoldable pub step : CapabilitySnapshot W → Step → Slots × W → Slots × W
    unfolding execute_one
    step s (i, call) (slots, w) = let (r, w') = execute_one s call w in (write i r slots, w')

    abbrev pub run_steps : CapabilitySnapshot W → List Step → Slots × W → Slots × W
    unfolding step
    run_steps s [] st = st
    run_steps s (x ∷ xs) st = run_steps s xs (step s x st)

    -- The outer loop of Execute, on fuel; `schedule` is the order in which the steps of a parallel group come.
    module _ (schedule : List Step → List Step) where
      unfoldable pub batch : CapabilitySnapshot W → ℕ → ℕ → List ToolCall → Slots × W → Slots × W
      unfolding group is_parallel step
      batch s zero start calls st = st
      batch s (suc n) start [] st = st
      batch s (suc n) start (call ∷ calls) st =
          let parallel = is_parallel s call in
          let front = if parallel then group s (call ∷ calls) else call ∷ [] in
          let steps = if parallel then schedule (numbered start front) else numbered start front in
          batch s n (start + length front) (drop (length front) (call ∷ calls))
            (run_steps s steps st)

      -- Execute; a snapshot of another kind than the executor's is one of another owner. Each round takes a
      -- call or more, so that the number of calls is fuel enough.
      unfoldable pub execute :
          Executor W
          → CapabilitySnapshot W
          → List ToolCall
          → W
          → Result (List ToolExecutionResult) × W
      unfolding batch
      execute e s calls w =
          let (slots, w') = batch s (length calls) 0 calls (empty_slots calls, w) in
          if s.owner == e.identity
          then (ok slots, w')
          else (err (failure "tool snapshot does not belong to executor"), w)
