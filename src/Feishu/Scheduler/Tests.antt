-- ===== src/Feishu/Scheduler/Tests.antt =====
-- A concrete history for the theorems of the siblings: two chats, one slot.
use foxharness.Prelude.{◌≡◌, refl, ◌++◌, Bool, true, false, List, [], ◌∷◌, some, String, ◌⊎◌}
use foxharness.Dict.{lookup, put, delete}
use foxharness.Feishu.Scheduler.{
  Scheduler, Task, Queue, is_some, new_task_scheduler, enqueue, dispatch, complete, idle,
  dispatch_from, dispatch_one, dispatch_queue, launch, next_runnable, mark_ready, complete_queue,
  task_session_key,
}
use foxharness.Feishu.Scheduler.Invariant.{IsValid, new-IsValid}
use foxharness.Feishu.Scheduler.History.{
  Call, enqueues, dispatches, completes, cancels, run, step, run-IsValid, flow, submitted,
  handled_of,
}
use foxharness.Feishu.Scheduler.Order.{flow-run, run-idle, dispatch_saturates}

abbrev a_task : String → String → Task
a_task id chat = record {
  task_id = id;
  chat_id = chat;
  sender_id = "u";
  message_id = "m";
  text = "do";
}

abbrev live : Task → Bool
live t = false

abbrev a_history : List Call
a_history =
    enqueues (a_task "1" "a")
    ∷ enqueues (a_task "2" "a")
    ∷ enqueues (a_task "3" "b")
    ∷ dispatches live
    ∷ completes "a:u"
    ∷ cancels
    ∷ []

abbrev drained : List Call
drained = enqueues (a_task "1" "a") ∷ dispatches live ∷ completes "a:u" ∷ []

run-IsValid_example : IsValid (run (new_task_scheduler 1) a_history)
run-IsValid_example = run-IsValid (new_task_scheduler 1) a_history (new-IsValid 1)

flow-run_example :
    flow "a:u" (run (new_task_scheduler 1) a_history)
    ≡ flow "a:u" (new_task_scheduler 1) ++ submitted "a:u" a_history
flow-run_example = flow-run "a:u" (new_task_scheduler 1) a_history (new-IsValid 1)

run-idle_example :
    handled_of "a:u" ((run (new_task_scheduler 1) drained).handled) ≡ submitted "a:u" drained
unfolding run step enqueue dispatch complete idle dispatch_from dispatch_one dispatch_queue launch
    next_runnable mark_ready complete_queue task_session_key lookup put delete new_task_scheduler
run-idle_example = run-idle "a:u" 1 drained refl

abbrev after_history : Scheduler
after_history = run (new_task_scheduler 1) a_history

dispatch_saturates_example :
    ((dispatch live after_history).active ≡ (dispatch live after_history).limit)
    ⊎ ((k : String) (q : Queue)
        → lookup k ((dispatch live after_history).sessions) ≡ some q
        → is_some q.active_task ≡ true)
dispatch_saturates_example =
    dispatch_saturates live after_history
      (run-IsValid (new_task_scheduler 1) a_history (new-IsValid 1))
