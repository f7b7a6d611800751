-- ===== src/Toolexec/Schedules.antt =====
-- Parallel groups come to what their calls come to one after the other.
use foxharness.Prelude.{
  ℕ, zero, suc, ◌+◌, ◌≤◌, String, true, false, List, [], ◌∷◌, ◌++◌, Option, length, drop,
  append_assoc, length-append, length-drop, All, ◌==◌, ◌≡◌, refl, ap, sym, ◌∙◌, arith, Bool-cases,
  inl, inr,
}
use foxharness.Schema.{ToolCall}
use foxharness.Engine.Types.{ok, ToolExecutionResult}
use foxharness.Toolexec.{
  Slots, write, Step, numbered, empty_slots, CapabilitySnapshot, Executor, is_parallel, group,
  execute_one, step, run_steps, batch, execute,
}
use foxharness.Toolexec.Orders.{
  Ordering, done, pick, Elsewhere, Apart, numbered-Apart, All-remove, All-front, Apart-remove,
  write-write, numbered-append, write-append,
}

module _ {W : Type 0} (cancelled : W → Option String) (s : CapabilitySnapshot W) where
  -- Two calls of which each may come first.
  abbrev pub Commute : ToolCall → ToolCall → Type 0
  Commute a b =
      (w : W)
      → let (ra, wa) = execute_one cancelled s a w in
        let (rb, wab) = execute_one cancelled s b wa in
        let (qb, wb) = execute_one cancelled s b w in
        let (qa, wba) = execute_one cancelled s a wb in (ra ≡ qa) × (rb ≡ qb) × (wab ≡ wba)

  step_swap :
      (x y : Step) (st : Slots × W)
      → (x.0 == y.0) ≡ false
      → Commute x.1 y.1
      → step cancelled s y (step cancelled s x st) ≡ step cancelled s x (step cancelled s y st)
  unfolding step
  step_swap x y st h c =
      let e = c st.1 in
      let same : (write y.0 _ (write x.0 _ st.0), _) ≡ (write y.0 _ (write x.0 _ st.0), _) =
        λ i. (write y.0 (e.1 i) (write x.0 (e.0 i) st.0), e.2 i) in
      same
      ∙ ap (λ slots. (slots, (execute_one cancelled s x.1 (execute_one cancelled s y.1 st.1).1).1))
          (sym (write-write x.0 y.0 _ _ st.0 h))

  abbrev pub Independent : Type 0
  Independent = (a b : ToolCall) → is_parallel s a ≡ true → is_parallel s b ≡ true → Commute a b

  abbrev AllParallel : List Step → Type 0
  AllParallel l = All (λ x. is_parallel s x.1 ≡ true) l

  run_steps_move :
      Independent
      → (a : List Step) (x : Step) (b : List Step) (st : Slots × W) → is_parallel s x.1 ≡ true
      → AllParallel a
      → Elsewhere x.0 a
      → run_steps cancelled s (a ++ b) (step cancelled s x st)
        ≡ run_steps cancelled s (a ++ x ∷ b) st
  unfolding step
  run_steps_move free [] x b st p q e = refl
  run_steps_move free (y ∷ a) x b st p q e =
      ap (λ t. run_steps cancelled s (a ++ b) t) (step_swap x y st e.0 (free x.1 y.1 p q.0))
      ∙ run_steps_move free a x b (step cancelled s y st) p q.1 e.1

  run_steps-Ordering :
      Independent
      → (l l' : List Step) (st : Slots × W) → Ordering l l'
      → AllParallel l
      → Apart l
      → run_steps cancelled s l' st ≡ run_steps cancelled s l st
  unfolding step
  run_steps-Ordering free l l' st done p d = refl
  run_steps-Ordering free l l' st (pick a x b rest o) p d =
      let (px, pab) = All-remove (λ z. is_parallel s z.1 ≡ true) a x b p in
      let (dab, e) = Apart-remove a x b d in
      run_steps-Ordering free (a ++ b) rest (step cancelled s x st) o pab dab
      ∙ run_steps_move free a x b st px (All-front (λ z. is_parallel s z.1 ≡ true) a b pab) e

  numbered-parallel : (k : ℕ) (calls : List ToolCall) → AllParallel (numbered k (group s calls))
  unfolding group
  numbered-parallel k [] = tt
  numbered-parallel k (call ∷ calls) = elim (Bool-cases (is_parallel s call)) [
    | inl b ↦ rw b (b, numbered-parallel (k + 1) calls)
    | inr b ↦ rw b tt
  ]

  group-drop :
      (calls : List ToolCall) → group s calls ++ drop (length (group s calls)) calls ≡ calls
  unfolding group
  group-drop [] = refl
  group-drop (call ∷ calls) = elim (Bool-cases (is_parallel s call)) [
    | inl b ↦ rw b (ap (λ l. call ∷ l) (group-drop calls))
    | inr b ↦ rw b refl
  ]

  run_steps-append :
      (a b : List Step) (st : Slots × W)
      → run_steps cancelled s (a ++ b) st ≡ run_steps cancelled s b (run_steps cancelled s a st)
  unfolding step
  run_steps-append [] b st = refl
  run_steps-append (x ∷ a) b st = run_steps-append a b (step cancelled s x st)

module _ {W : Type 0} (cancelled : W → Option String) (s : CapabilitySnapshot W) where
  -- The calls one after the other.
  unfoldable pub answers : List ToolCall → W → List ToolExecutionResult × W
  answers [] w = ([], w)
  answers (call ∷ calls) w =
      let (r, w1) = execute_one cancelled s call w in
      let (rs, w2) = answers calls w1 in (r ∷ rs, w2)

  run_steps-answers :
      (filled : Slots) (calls : List ToolCall) (w : W)
      → run_steps cancelled s (numbered (length filled) calls) (filled ++ empty_slots calls, w)
        ≡ (filled ++ (answers calls w).0, (answers calls w).1)
  unfolding answers step
  run_steps-answers filled [] w = refl
  run_steps-answers filled (call ∷ calls) w =
      let r = (execute_one cancelled s call w).0 in
      let w1 = (execute_one cancelled s call w).1 in
      let one : length filled + 1 ≡ length (filled ++ r ∷ []) =
        omega (arith, length-append filled (r ∷ [])) in
      let slots : write (length filled) r (filled ++ empty_slots (call ∷ calls))
          ≡ (filled ++ r ∷ []) ++ empty_slots calls =
        write-append filled r _ (empty_slots calls)
        ∙ sym (append_assoc filled (r ∷ []) (empty_slots calls)) in
      let start : run_steps cancelled s (numbered (length filled + 1) calls)
            (write (length filled) r (filled ++ empty_slots (call ∷ calls)), w1)
          ≡ run_steps cancelled s (numbered (length (filled ++ r ∷ [])) calls)
              ((filled ++ r ∷ []) ++ empty_slots calls, w1) =
        λ i. run_steps cancelled s (numbered (one i) calls) (slots i, w1) in
      start
      ∙ (run_steps-answers (filled ++ r ∷ []) calls w1
          ∙ ap (λ l. (l, (answers calls w1).1)) (append_assoc filled (r ∷ []) (answers calls w1).0))

  front_lem :
      (start : ℕ) (front l : List ToolCall) (st st' : Slots × W)
      → st' ≡ run_steps cancelled s (numbered start front) st
      → front ++ drop (length front) l ≡ l
      → run_steps cancelled s (numbered (start + length front) (drop (length front) l)) st'
        ≡ run_steps cancelled s (numbered start l) st
  front_lem start front l st st' q p =
      let rest = drop (length front) l in
      ap (λ t. run_steps cancelled s (numbered (start + length front) rest) t) q
      ∙ (sym (
            run_steps-append cancelled s (numbered start front)
              (numbered (start + length front) rest) st)
          ∙ (ap (λ x. run_steps cancelled s x st) (sym (numbered-append start front rest))
              ∙ ap (λ x. run_steps cancelled s (numbered start x) st) p))

  module _ (schedule : List Step → List Step) where
    batch_lem :
        ((l : List Step) → Ordering l (schedule l))
        → Independent cancelled s
        → (n start : ℕ) (calls : List ToolCall) (st : Slots × W) → length calls ≤ n
        → batch cancelled schedule s n start calls st
          ≡ run_steps cancelled s (numbered start calls) st
    unfolding batch
    batch_lem ordered free zero start [] st h = refl
    batch_lem ordered free zero start (call ∷ calls) st h = absurd (omega arith)
    batch_lem ordered free (suc n) start [] st h = refl
    batch_lem ordered free (suc n) start (call ∷ calls) st h =
        elim (Bool-cases (is_parallel s call)) [
          | inl b ↦
              let g = call ∷ group s calls in
              let rest : length (drop (length g) (call ∷ calls)) ≤ n =
                omega (arith, length-drop (length (group s calls)) calls) in
              let reordered =
                run_steps-Ordering cancelled s free (numbered start g) (schedule (numbered start g))
                  st (ordered (numbered start g))
                  (b, numbered-parallel cancelled s (start + 1) calls) (numbered-Apart start g) in
              rw b (
                batch_lem ordered free n (start + length g) (drop (length g) (call ∷ calls))
                  (run_steps cancelled s (schedule (numbered start g)) st) rest
                ∙ front_lem start g (call ∷ calls) st _ reordered
                    (ap (λ l. call ∷ l) (group-drop cancelled s calls)))
          | inr b ↦ rw b (
              batch_lem ordered free n (start + 1) calls (step cancelled s (start, call) st)
                (omega arith))
        ]

    -- If every order of a group is possible for its goroutines, and calls that may run in parallel come to the
    -- same results and the same world in either order, then Execute on a snapshot of its own gives every call
    -- the result, in the order of the calls, that it has when the calls are executed one after the other, and
    -- leaves the same world.
    pub execute-answers :
        ((l : List Step) → Ordering l (schedule l))
        → Independent cancelled s
        → (e : Executor W) (calls : List ToolCall) (w : W) → s.owner ≡ e.identity
        → execute cancelled schedule e s calls w ≡ (ok (answers calls w).0, (answers calls w).1)
    unfolding execute
    execute-answers ordered free e calls w own =
        let same : (s.owner == e.identity) ≡ true = ground arith in
        let whole =
          batch_lem ordered free (length calls) 0 calls (empty_slots calls, w) (omega arith)
          ∙ run_steps-answers [] calls w in
        rw (same, whole) refl
