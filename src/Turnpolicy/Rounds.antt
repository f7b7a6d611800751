-- ===== src/Turnpolicy/Rounds.antt =====
-- What a policy records of the rounds of a run, and how its reminders are bounded.
use foxharness.Prelude.{
  ℕ, String, true, false, List, [], ◌∷◌, Option, some, none, if◌then◌else◌, ◌++◌, length, str_eq,
  ◌==◌, ◌+◌, ◌≡◌, refl, arith, inl, inr, Bool-cases, eq_refl, ◌∙◌, ap, sym, append_assoc, ◌⊎◌, All,
}
use foxharness.Go.{GoLib}
use foxharness.Schema.{ToolCall}
use foxharness.Engine.Types.{
  Result, ok, err, ConversationChange, reminder_source, next_turn_source, ToolState,
  ToolExecutionResult, Ready, ToolSnapshot,
}
use foxharness.Engine.Run.{Run, next}
use foxharness.Engine.ToolRound.{execute_tools}
use foxharness.Engine.ToolRound.Correlates.{ids, result_ids, execute_tools-ids}
use foxharness.Recovery.{should_inject, build_prompt, prompt_due, should_inject-mark_inject}
use foxharness.Reminder.{maybe_build}
use foxharness.Turnpolicy.Recorded.{answered_calls, recorded, recorded-after_tool}
use foxharness.Turnpolicy.{
  context_reminder, context_change, reminder_changes, RunPolicy, after_tools, after_each,
  after_tool, before_turn, recovery_part, reminder_part, context_notice, next_turn_changes,
  next_turn_part, with_messages,
}

ids-length :
    (calls : List ToolCall) (results : List ToolExecutionResult)
    → result_ids results ≡ ids calls
    → length calls ≡ length results
ids-length [] [] h = refl
ids-length [] (r ∷ results) h = absurd cc
ids-length (call ∷ calls) [] h = absurd cc
ids-length (call ∷ calls) (r ∷ results) h =
    let rest : result_ids results ≡ ids calls = cc in omega (arith, ids-length calls results rest)

-- A change that is no recovery notice.
abbrev IsReminder : ConversationChange → Type 0
IsReminder change = (change.source ≡ reminder_source) ⊎ (change.source ≡ next_turn_source)

-- The changes begin with `first`, and no other recovery notice follows.
abbrev pub Begins : List ConversationChange → List ConversationChange → Type 0
Begins first changes =
    (rest : List ConversationChange) × (changes ≡ first ++ rest) × All IsReminder rest

append-All : {A : Type 0} (P : A → Type 0) (xs ys : List A) → All P xs → All P ys → All P (xs ++ ys)
append-All P [] ys h k = k
append-All P (x ∷ xs) ys (h, hs) k = (h, append-All P xs ys hs k)

module _ (go : GoLib) where
  next_turn_changes-IsReminder :
      (messages : List String) → All IsReminder (next_turn_changes go messages)
  unfolding next_turn_changes context_reminder context_change
  next_turn_changes-IsReminder [] = tt
  next_turn_changes-IsReminder (message ∷ messages) =
      elim (Bool-cases (str_eq (go.trim_space message) "")) [
        | inl blank ↦ rw blank (next_turn_changes-IsReminder messages)
        | inr said ↦ rw said (inr refl, next_turn_changes-IsReminder messages)
      ]

module _ (go : GoLib) {W : Type 0} where
  after_each-ids :
      (turn index : ℕ) (calls : List ToolCall) (results : List ToolExecutionResult)
      (p : RunPolicy W)
      → result_ids results ≡ ids calls
      → after_each go turn index calls results p
        ≡ (ok [], recorded go turn (answered_calls calls results) p)
  unfolding after_each
  after_each-ids turn index [] results p h = refl
  after_each-ids turn index (call ∷ calls) [] p h = absurd cc
  after_each-ids turn index (call ∷ calls) (r ∷ results) p h =
      let same : r.call_id ≡ call.id = cc in
      let rest : result_ids results ≡ ids calls = cc in
      let test : str_eq r.call_id call.id ≡ true = rw same (eq_refl call.id) in
      let later =
        after_each-ids turn (index + 1) calls results (after_tool go turn call r p) rest in
      rw (test, later, recorded-after_tool go turn call r (answered_calls calls results) p)
        (ground arith)

  by_count :
      (state : ToolState) (p p' : RunPolicy W) (w : W)
      → length state.calls ≡ length state.results
      → after_each go state.turn 0 state.calls state.results p ≡ (ok [], p')
      → after_tools go state p w ≡ (ok [], (p', w))
  unfolding after_tools
  by_count state p p' w q h =
      let test : (length state.calls == length state.results) ≡ true = ground arith in
      rw (test, h) refl

  -- A tool round that the engine accepts never fails in the policy, and asks for no change of the
  -- conversation. If it has calls, the reminders keep the newest 30 of the actions known before and
  -- those of the calls, in order; each call has been recorded with its result, in order, by the
  -- recovery; the list of tasks counts as updated if it did or if a call has updated it without an
  -- error; and nothing else is changed.
  pub execute_tools-after_tools :
      {V : Type 0} (e : Ready V) (turn : ℕ) (snapshot : ToolSnapshot) (calls : List ToolCall)
      (s : Run V) (state : ToolState) (p : RunPolicy W) (w : W)
      → (execute_tools e turn snapshot calls s).0 ≡ next state
      → after_tools go state p w
        ≡ (ok [], (recorded go turn (answered_calls calls state.results) p, w))
  unfolding after_tools
  execute_tools-after_tools e turn snapshot calls s state p w h =
      let (answered, same, at_turn) = execute_tools-ids e turn snapshot calls s state h in
      let matching : result_ids state.results ≡ ids state.calls = rw same answered in
      let counted : length state.calls ≡ length state.results =
        ids-length state.calls state.results matching in
      let each = after_each-ids turn 0 calls state.results p answered in
      by_count state p _ w counted (rw (same, at_turn) each)

  recovery_part_notice :
      (p : RunPolicy W)
      → (recovery_part go p).0 ≡ (
          if should_inject p.recovery then context_notice (build_prompt go p.recovery) ∷ [] else [])
  unfolding recovery_part
  recovery_part_notice p = elim (Bool-cases (should_inject p.recovery)) [
    | inl b ↦ rw (b, prompt_due go p.recovery b) refl
    | inr b ↦ rw b refl
  ]

  should_inject-recovery_part :
      (p : RunPolicy W) → should_inject (recovery_part go p).1.recovery ≡ false
  unfolding recovery_part
  should_inject-recovery_part p = elim (Bool-cases (should_inject p.recovery)) [
    | inl b ↦ rw (b, prompt_due go p.recovery b) (should_inject-mark_inject p.recovery)
    | inr b ↦ rw b b
  ]

  reminder_part-IsReminder :
      (turn : ℕ) (p : RunPolicy W) → All IsReminder (reminder_part go turn p).0
  unfolding reminder_part context_reminder context_change
  reminder_part-IsReminder turn p = of_message (maybe_build go turn p.reminder).0
    where
      of_message : (message : Option String) → All IsReminder (reminder_changes message)
      of_message none = tt
      of_message (some message) = (inl refl, tt)

  asked_rest :
      (first second changes : List ConversationChange) (r : Result (List String) × W)
      → All IsReminder second
      → (with_messages go (first ++ second) r).0 ≡ ok changes
      → Begins first changes
  asked_rest first second changes (err e, w) reminds h = absurd cc
  asked_rest first second changes (ok messages, w) reminds h =
      let q : (first ++ second) ++ next_turn_changes go messages ≡ changes = cc in
      (
        second ++ next_turn_changes go messages,
        sym q ∙ append_assoc first second (next_turn_changes go messages),
        append-All IsReminder second _ reminds (next_turn_changes-IsReminder go messages),
      )

  next_turn_rest :
      (ask : Option (ℕ → W → Result (List String) × W)) (turn : ℕ)
      (first second changes : List ConversationChange) (w : W)
      → All IsReminder second
      → (next_turn_part go ask turn (first ++ second) w).0 ≡ ok changes
      → Begins first changes
  next_turn_rest none turn first second changes w reminds h =
      let q : first ++ second ≡ changes = cc in (second, sym q, reminds)
  next_turn_rest (some ask) turn first second changes w reminds h =
      asked_rest first second changes (ask turn w) reminds h

  -- Behind BeforeTurn no recovery notice is due any more, whatever the query of the runtime answers. If
  -- that query is absent or answers, the changes are the recovery notice, exactly if one was due, and
  -- behind it nothing but reminders and messages of the next turn.
  pub before_turn-should_inject :
      (turn : ℕ) (p : RunPolicy W) (w : W)
      → let (answer, (p', w')) = before_turn go turn p w in
        (should_inject p'.recovery ≡ false)
        × ((changes : List ConversationChange)
            → answer ≡ ok changes
            → Begins
                (if should_inject p.recovery
                  then context_notice (build_prompt go p.recovery) ∷ []
                  else [])
                changes)
  unfolding before_turn
  before_turn-should_inject turn p w = (
    should_inject-recovery_part p,
    λ changes h.
        let p1 = (recovery_part go p).1 in
        let (rest, q, reminds) =
          next_turn_rest p.bindings.next_turn turn (recovery_part go p).0
            (reminder_part go turn p1).0 changes w (reminder_part-IsReminder turn p1) h in
        (rest, q ∙ ap (λ first. first ++ rest) (recovery_part_notice p), reminds),
  )
