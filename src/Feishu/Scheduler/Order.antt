-- ===== src/Feishu/Scheduler/Order.antt =====
-- What any history of the scheduler does to a session's tasks, and when dispatch stops.
use foxharness.Prelude.{
  ℕ, ◌≤◌, Bool, true, false, List, [], ◌∷◌, ◌++◌, some, String, ltb, ◌==◌, if◌then◌else◌, length,
  ◌≡◌, refl, ◌⊎◌, inl, inr, arith, str_eq, Bool-cases, append-nil, append_assoc, sym, ◌∙◌, ap,
}
use foxharness.Dict.{lookup}
use foxharness.Feishu.Scheduler.{
  Task, Queue, Scheduler, is_some, new_task_scheduler, enqueue, task_session_key, dispatch_one,
  dispatch_from, dispatch, complete, cancel_all, idle,
}
use foxharness.Feishu.Scheduler.Invariant.{
  IsValid, new-IsValid, enqueue-IsValid, complete-IsValid, occurs,
}
use foxharness.Feishu.Scheduler.Invariant.Dispatching.{dispatch-IsValid, cancel_all-IsValid}
use foxharness.Feishu.Scheduler.History.{
  handled_of, pending, flow, submitted, Call, enqueues, dispatches, completes, cancels, run,
}
use foxharness.Feishu.Scheduler.Flow.{
  flow-enqueue, flow-complete, flow-dispatch_from, flow-cancel_all,
}

append_submitted :
    (b : Bool) (xs ys : List Task) (t : Task)
    → (xs ++ (if b then t ∷ [] else [])) ++ ys ≡ xs ++ (if b then t ∷ ys else ys)
append_submitted true xs ys t = append_assoc xs (t ∷ []) ys
append_submitted false xs ys t = rw append-nil

-- From any valid state and by any calls of the runner's loop, the tasks of a session, those that have
-- left its queue in the order in which they left and then those still queued, are the ones before and
-- after them the newly submitted ones, in the order of submission: none is lost, made up, run out of
-- order or handled twice, and the sessions do not mix.
pub flow-run :
    (k : String) (s : Scheduler) (cs : List Call)
    → IsValid s
    → flow k (run s cs) ≡ flow k s ++ submitted k cs
unfolding run submitted
flow-run k s [] v = sym (append-nil (flow k s))
flow-run k s (enqueues task ∷ cs) v =
    flow-run k (enqueue s task) cs (enqueue-IsValid s v task)
    ∙ (rw (flow-enqueue k s task)
        (append_submitted (str_eq (task_session_key task) k) (flow k s) (submitted k cs) task))
flow-run k s (dispatches expired ∷ cs) v =
    flow-run k (dispatch expired s) cs (dispatch-IsValid expired s v)
    ∙ ap (λ l. l ++ submitted k cs) (unfold dispatch in flow-dispatch_from k expired s.ready s)
flow-run k s (completes key ∷ cs) v =
    flow-run k (complete s key) cs (complete-IsValid s v key)
    ∙ ap (λ l. l ++ submitted k cs) (flow-complete k key s)
flow-run k s (cancels ∷ cs) v =
    flow-run k (cancel_all s) cs (cancel_all-IsValid s v)
    ∙ ap (λ l. l ++ submitted k cs) (flow-cancel_all k s v)

flow-new : (k : String) (limit : ℕ) → flow k (new_task_scheduler limit) ≡ []
unfolding new_task_scheduler lookup handled_of
flow-new k limit = refl

pending_none :
    (k : String) (m : List (String × Queue)) → (length m == 0) ≡ true → pending (lookup k m) ≡ []
unfolding lookup
pending_none k [] h = refl
pending_none k (e ∷ m) h = absurd (ground arith)

no_sessions : (k : String) (s : Scheduler) → idle s ≡ true → pending (lookup k s.sessions) ≡ []
unfolding idle
no_sessions k s h = pending_none k s.sessions (ground arith)

-- When the runner stops, its scheduler being idle, every task that was ever submitted to a session has
-- left the queue, started or cancelled, exactly once and in the order of submission.
pub run-idle :
    (k : String) (limit : ℕ) (cs : List Call)
    → let s = run (new_task_scheduler limit) cs in
      idle s ≡ true → handled_of k s.handled ≡ submitted k cs
run-idle k limit cs h =
    let s = run (new_task_scheduler limit) cs in
    sym (append-nil (handled_of k s.handled))
    ∙ ap (◌++◌ (handled_of k s.handled)) (sym (no_sessions k s h))
    ∙ flow-run k (new_task_scheduler limit) cs (new-IsValid limit)
    ∙ ap (λ l. l ++ submitted k cs) (flow-new k limit)

dispatch_from_saturates :
    (expired : Task → Bool) (keys : List String) (s : Scheduler)
    → let t = dispatch_from expired keys s in (t.ready ≡ []) ⊎ (t.limit ≤ t.active)
unfolding dispatch_from
dispatch_from_saturates expired [] s = inl refl
dispatch_from_saturates expired (key ∷ rest) s = elim (Bool-cases (ltb s.active s.limit)) [
  | inl l ↦
      rw l (
        dispatch_from_saturates expired rest (dispatch_one expired (record s { ready = rest }) key))
  | inr l ↦ rw l (inr (ground arith))
]

dispatch_stops :
    (expired : Task → Bool) (s : Scheduler)
    → let t = dispatch expired s in (t.ready ≡ []) ⊎ (t.limit ≤ t.active)
unfolding dispatch
dispatch_stops expired s = dispatch_from_saturates expired s.ready s

waits_nowhere :
    (s : Scheduler)
    → IsValid s
    → s.ready ≡ []
    → (k : String) (q : Queue) → lookup k s.sessions ≡ some q
    → is_some q.active_task ≡ true
unfolding occurs
waits_nowhere s v e k q h = ground (arith, rw (e, h) at (v.listed k), rw h at (v.live k))

-- After dispatch, from a valid state, either every slot is taken or no session waits: each session that
-- is left runs a task.
pub dispatch_saturates :
    (expired : Task → Bool) (s : Scheduler)
    → IsValid s
    → let t = dispatch expired s in
      (t.active ≡ t.limit)
      ⊎ ((k : String) (q : Queue) → lookup k t.sessions ≡ some q → is_some q.active_task ≡ true)
dispatch_saturates expired s v = elim (dispatch_stops expired s) [
  | inl e ↦ inr (waits_nowhere (dispatch expired s) (dispatch-IsValid expired s v) e)
  | inr l ↦ inl (omega (arith, (dispatch-IsValid expired s v).bounded))
]
