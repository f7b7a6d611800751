-- ===== src/Turnpolicy/Gates.antt =====
-- When the gates let a run complete.
use foxharness.Prelude.{
  String, Bool, true, false, List, [], ◌∷◌, Option, some, none, if◌then◌else◌, ltb, length, str_eq,
  ◌≡◌, refl, arith, inl, inr, ◌⊎◌, Bool-cases, ap, sym, ◌∙◌,
}
use foxharness.Go.{GoLib}
use foxharness.Schema.{ToolCall}
use foxharness.Engine.Types.{Result, ok, err, ModelResult, TurnDecision}
use foxharness.Turnpolicy.{
  RunPolicy, completion_answer, todo_answer, terminal_decision, after_model, gate, or_todo,
  or_complete, no_decision,
}

abbrev Answer : Type 0 → Type 0
Answer W = String → RunPolicy W → Option TurnDecision × RunPolicy W

abbrev complete_of : Option TurnDecision → Bool
complete_of none = false
complete_of (some d) = d.complete

module _ (go : GoLib) {W : Type 0} where
  -- A gate that is absent, or answers with blank text.
  abbrev pub Passed : Option (W → Result String × W) → W → W → Type 0
  Passed none w w' = w' ≡ w
  Passed (some ask) w w' =
      (message : String) × (ask w ≡ (ok message, w')) × (str_eq (go.trim_space message) "" ≡ true)

  -- An answer that lets the run go on is blank and changes nothing, and no decision completes.
  abbrev Careful : Answer W → Type 0
  Careful answer =
      (m : String) (p : RunPolicy W)
      → ((answer m p).0 ≡ none → (str_eq (go.trim_space m) "" ≡ true) × ((answer m p).1 ≡ p))
        × (complete_of (answer m p).0 ≡ false)

  completion_answer-Careful : Careful (completion_answer go)
  unfolding completion_answer terminal_decision
  completion_answer-Careful m p = elim (Bool-cases (str_eq (go.trim_space m) "")) [
    | inl b ↦ rw b ((λ q. (refl, refl)), refl)
    | inr b ↦ rw b (elim (Bool-cases (str_eq p.completion_reminder (go.trim_space m))) [
      | inl c ↦ rw c ((λ q. cc), refl)
      | inr c ↦ rw c ((λ q. cc), refl)
    ])
  ]

  todo_answer-Careful : Careful (todo_answer go)
  unfolding todo_answer terminal_decision
  todo_answer-Careful m p = elim (Bool-cases (str_eq (go.trim_space m) "")) [
    | inl b ↦ rw b ((λ q. (refl, refl)), refl)
    | inr b ↦ rw b (elim (Bool-cases p.todo_reminder_sent) [
      | inl c ↦ rw c ((λ q. cc), refl)
      | inr c ↦ rw c ((λ q. cc), refl)
    ])
  ]

  -- What a stage of AfterModel comes to: the run goes on past gate `g`, or its decision does not complete.
  abbrev Stage :
      Option (W → Result String × W)
      → RunPolicy W
      → W
      → Result (Option TurnDecision) × (RunPolicy W × W)
      → Type 0
  Stage g p w (err e, s) = Unit {0}
  Stage g p w (ok none, s) = Passed g w s.1 × (s.0 ≡ p)
  Stage g p w (ok (some d), s) = d.complete ≡ false

  answer-Stage :
      (answer : Answer W)
      → Careful answer
      → (ask : W → Result String × W) (p : RunPolicy W) (w w' : W) (m : String) → ask w ≡ (ok m, w')
      → (d : Option TurnDecision) (p' : RunPolicy W) → answer m p ≡ (d, p')
      → Stage (some ask) p w (ok d, (p', w'))
  answer-Stage answer careful ask p w w' m q none p' e =
      let c = (careful m p).0 (ap (λ r. r.0) e) in ((m, q, c.0), ap (λ r. r.1) (sym e) ∙ c.1)
  answer-Stage answer careful ask p w w' m q (some d) p' e =
      ap (λ r. complete_of r.0) (sym e) ∙ (careful m p).1

  asked-Stage :
      (answer : Answer W)
      → Careful answer
      → (ask : W → Result String × W) (p : RunPolicy W) (w : W) (r : Result String × W) → ask w ≡ r
      → Stage (some ask) p w (gate answer (some (λ v. r)) p w)
  asked-Stage answer careful ask p w (err e, w') q = tt
  asked-Stage answer careful ask p w (ok m, w') q =
      answer-Stage answer careful ask p w w' m q (answer m p).0 (answer m p).1 refl

  gate-Stage :
      (answer : Answer W)
      → Careful answer
      → (g : Option (W → Result String × W)) (p : RunPolicy W) (w : W)
      → Stage g p w (gate answer g p w)
  gate-Stage answer careful none p w = (refl, refl)
  gate-Stage answer careful (some ask) p w = asked-Stage answer careful ask p w (ask w) refl

  -- What the TODO gate must have come to.
  abbrev pub TodoPassed : RunPolicy W → W → W → Type 0
  TodoPassed p w w' = ((p.todo_updated ≡ true) × (w' ≡ w)) ⊎ Passed p.bindings.todo_gate w w'

  abbrev Completes :
      (RunPolicy W → W → W → Type 0)
      → RunPolicy W
      → W
      → Result TurnDecision × (RunPolicy W × W)
      → Type 0
  Completes Goal p w (r, s) =
      (d : TurnDecision) → r ≡ ok d → d.complete ≡ true → Goal p w s.1 × (s.0 ≡ p)

  or_complete-Completes :
      (p : RunPolicy W) (w : W) (r : Result (Option TurnDecision) × (RunPolicy W × W))
      → Stage p.bindings.todo_gate p w r
      → Completes TodoPassed p w (or_complete r)
  or_complete-Completes p w (err e, s) h d q c = cc
  or_complete-Completes p w (ok (some d'), s) h d q c = let same : d' ≡ d = cc in cc
  or_complete-Completes p w (ok none, s) h d q c = (inr h.0, h.1)

  todo-Completes :
      (p : RunPolicy W) (w : W) (updated : Bool)
      → p.todo_updated ≡ updated
      → Completes TodoPassed p w (
          or_complete
            (if updated then (ok none, (p, w)) else gate (todo_answer go) p.bindings.todo_gate p w))
  todo-Completes p w true q d e c = (inl (q, refl), refl)
  todo-Completes p w false q d e c =
      or_complete-Completes p w (gate (todo_answer go) p.bindings.todo_gate p w)
        (gate-Stage (todo_answer go) todo_answer-Careful p.bindings.todo_gate p w) d e c

  abbrev pub BothPassed : RunPolicy W → W → W → Type 0
  BothPassed p w w' = (v : W) × Passed p.bindings.completion_gate w v × TodoPassed p v w'

  or_todo-Completes :
      (p : RunPolicy W) (w : W) (r : Result (Option TurnDecision) × (RunPolicy W × W))
      → Stage p.bindings.completion_gate p w r
      → Completes BothPassed p w (or_todo go r)
  or_todo-Completes p w (err e, s) h d q c = cc
  or_todo-Completes p w (ok (some d'), s) h d q c = let same : d' ≡ d = cc in cc
  or_todo-Completes p w (ok none, (p', v)) h d q c =
      let t = todo-Completes p' v p'.todo_updated refl d q c in
      rw (← h.1) ((v, (rw (← h.1) at h.0), t.0), t.1)

  idle_model :
      (p : RunPolicy W) (w : W) (calls : List ToolCall) (busy : Bool)
      → ltb 0 (length calls) ≡ busy
      → (d : TurnDecision)
      → let (r, s) =
          if busy
          then (ok no_decision, (p, w))
          else or_todo go (gate (completion_answer go) p.bindings.completion_gate p w) in
        r ≡ ok d → d.complete ≡ true → (calls ≡ []) × BothPassed p w s.1 × (s.0 ≡ p)
  idle_model p w calls true q d h c =
      let same : no_decision ≡ d = cc in
      let f : false ≡ true = ap (λ x. x.complete) same ∙ c in absurd cc
  idle_model p w [] false q d h c =
      let whole =
        or_todo-Completes p w (gate (completion_answer go) p.bindings.completion_gate p w)
          (gate-Stage (completion_answer go) completion_answer-Careful p.bindings.completion_gate p
            w)
          d h c in
      (refl, whole.0, whole.1)
  idle_model p w (call ∷ calls) false q d h c = absurd (ground arith)

  -- If AfterModel lets a run complete, the response asked for no tools, the completion gate is absent or
  -- answered with blank text, after it the TODO list was updated in this run or its gate is absent or
  -- answered with blank text, and the policy's state is as it was.
  pub after_model-BothPassed :
      (model : ModelResult) (p : RunPolicy W) (w : W) (d : TurnDecision)
      → (after_model go model p w).0 ≡ ok d
      → d.complete ≡ true
      → (model.message.tool_calls ≡ [])
        × BothPassed p w (after_model go model p w).1.1
        × ((after_model go model p w).1.0 ≡ p)
  unfolding after_model
  after_model-BothPassed model p w d h c =
      idle_model p w model.message.tool_calls (ltb 0 (length model.message.tool_calls)) refl d h c
