-- ===== src/Toolexec/Tests.antt =====
-- An executor of two parallel-safe tools, whose goroutines finish in another order than they start.
use foxharness.Prelude.{
  str_eq, Bool-cases, inr, ap, sym, ◌∙◌, ℕ, String, true, false, List, [], ◌∷◌, Option, some, none,
  ◌≡◌, refl, inl,
}
use foxharness.Schema.{ToolCall, ToolDefinition}
use foxharness.Dict.{lookup}
use foxharness.Engine.Types.{ToolExecutionResult, ok}
use foxharness.Engine.ToolRound.Correlates.{ids, result_ids}
use foxharness.Toolexec.{
  Step, Capability, CapabilitySnapshot, Executor, returned, execute, execute_one,
}
use foxharness.Toolexec.Orders.{Ordering, pick, done}
use foxharness.Toolexec.Schedules.{answers, Independent, execute-answers}
use foxharness.Toolexec.Answers.{Named, execute-ids}

abbrev in_order : (l : List Step) → Ordering l l
in_order [] = done
in_order (x ∷ l) = pick [] x l l (in_order l)

-- The second step first.
abbrev second_first : List Step → List Step
second_first [] = []
second_first (x ∷ []) = x ∷ []
second_first (x ∷ y ∷ l) = y ∷ x ∷ l

abbrev second_first_ordered : (l : List Step) → Ordering l (second_first l)
second_first_ordered [] = done
second_first_ordered (x ∷ []) = in_order (x ∷ [])
second_first_ordered (x ∷ y ∷ l) = pick (x ∷ []) y l (x ∷ l) (pick [] x l l (in_order l))

abbrev said : String → ToolExecutionResult
said text = record {
  call_id = "";
  full_content = "";
  model_content = text;
  observer_content = "";
  artifact_path = "";
  is_error = false;
  content_parts = [];
  structured_content = "";
}

abbrev a_definition : ToolDefinition
a_definition = record { name = "read"; description = ""; input_schema = "{}" }

abbrev reader : Capability ℕ
reader = record {
  definition = a_definition;
  parallel_safe = true;
  run = some (λ call w. (returned (said call.arguments), w));
}

abbrev a_snapshot : CapabilitySnapshot ℕ
a_snapshot = record {
  owner = 7;
  definitions = a_definition ∷ [];
  capabilities = ("read", reader) ∷ [];
}

abbrev an_executor : Executor ℕ
an_executor = record { identity = 7; capabilities = reader ∷ [] }

abbrev calm : ℕ → Option String
calm w = none

abbrev two_calls : List ToolCall
two_calls =
    record { id = "1"; name = "read"; arguments = "a" }
    ∷ record { id = "2"; name = "read"; arguments = "b" }
    ∷ []

quiet :
    (call : ToolCall) (w : ℕ)
    → execute_one calm a_snapshot call w ≡ ((execute_one calm a_snapshot call 0).0, w)
unfolding execute_one lookup
quiet call w = elim (Bool-cases (str_eq "read" call.name)) [ inl b ↦ rw b refl | inr b ↦ rw b refl ]

independent : Independent calm a_snapshot
independent a b p q w =
    let wa = (execute_one calm a_snapshot a w).1 in
    let wb = (execute_one calm a_snapshot b w).1 in
    (
      ap (λ x. x.0) (quiet a w) ∙ sym (ap (λ x. x.0) (quiet a wb)),
      ap (λ x. x.0) (quiet b wa) ∙ sym (ap (λ x. x.0) (quiet b w)),
      (ap (λ x. x.1) (quiet b wa) ∙ ap (λ x. x.1) (quiet a w))
          ∙ sym (ap (λ x. x.1) (quiet a wb) ∙ ap (λ x. x.1) (quiet b w)),
    )

anonymous : Named calm a_snapshot
unfolding lookup
anonymous call c run w r q e h = elim (Bool-cases (str_eq "read" call.name)) [
  | inl b ↦
      let found : some reader ≡ some c = rw b at q in
      let same : reader ≡ c = cc in
      let runs : some (λ call w. (returned (said call.arguments), w)) ≡ some run =
        ap (λ x. x.run) same ∙ e in
      let run_same : (λ call w. (returned (said call.arguments), w)) ≡ run = cc in
      let result : returned (said call.arguments) ≡ returned r =
        ap (λ f. (f call w).0) run_same ∙ h in
      let whole : said call.arguments ≡ r = cc in inl (sym (ap (λ x. x.call_id) whole))
  | inr b ↦ let found : none ≡ some c = rw b at q in absurd cc
]

execute-answers_example :
    execute calm second_first an_executor a_snapshot two_calls 0
    ≡ (ok (answers calm a_snapshot two_calls 0).0, (answers calm a_snapshot two_calls 0).1)
execute-answers_example =
    execute-answers calm a_snapshot second_first second_first_ordered independent an_executor
      two_calls 0 refl

execute-ids_example : result_ids (answers calm a_snapshot two_calls 0).0 ≡ ids two_calls
execute-ids_example =
    execute-ids calm a_snapshot second_first second_first_ordered independent anonymous an_executor
      two_calls 0 refl (answers calm a_snapshot two_calls 0).0
      (ap (λ x. x.0)
        (execute-answers calm a_snapshot second_first second_first_ordered independent an_executor
          two_calls 0 refl))
