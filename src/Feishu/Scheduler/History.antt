-- ===== src/Feishu/Scheduler/History.antt =====
-- Histories of calls of the scheduler, and what a history does to one session.
use foxharness.Prelude.{
  Bool, List, [], ◌∷◌, ◌++◌, Option, some, none, String, if◌then◌else◌, str_eq,
}
use foxharness.Dict.{lookup}
use foxharness.Feishu.Scheduler.{
  Task, Queue, Scheduler, Handled, enqueue, task_session_key, dispatch, complete, cancel_all,
}
use foxharness.Feishu.Scheduler.Invariant.{IsValid, enqueue-IsValid, complete-IsValid}
use foxharness.Feishu.Scheduler.Invariant.Dispatching.{dispatch-IsValid, cancel_all-IsValid}

-- One call of the runner's loop.
pub data Call : Type 0 where
  enqueues : Task → Call
  dispatches : (Task → Bool) → Call
  completes : String → Call
  cancels : Call

unfoldable pub step : Scheduler → Call → Scheduler
step s (enqueues task) = enqueue s task
step s (dispatches expired) = dispatch expired s
step s (completes key) = complete s key
step s cancels = cancel_all s

unfoldable pub run : Scheduler → List Call → Scheduler
unfolding step
run s [] = s
run s (c ∷ cs) = run (step s c) cs

step-IsValid : (s : Scheduler) (c : Call) → IsValid s → IsValid (step s c)
unfolding step
step-IsValid s (enqueues task) v = enqueue-IsValid s v task
step-IsValid s (dispatches expired) v = dispatch-IsValid expired s v
step-IsValid s (completes key) v = complete-IsValid s v key
step-IsValid s cancels v = cancel_all-IsValid s v

-- Any calls of the loop, from a valid state, lead to a valid state: the running tasks are counted and
-- within the limit, and a session is on the ready list once if it waits with work, else not at all.
pub run-IsValid : (s : Scheduler) (cs : List Call) → IsValid s → IsValid (run s cs)
unfolding run
run-IsValid s [] v = v
run-IsValid s (c ∷ cs) v = run-IsValid (step s c) cs (step-IsValid s c v)

-- The tasks of one session among those that have left their queues, oldest first.
unfoldable pub handled_of : String → List Handled → List Task
handled_of k [] = []
handled_of k (h ∷ hs) = if str_eq h.key k then h.task ∷ handled_of k hs else handled_of k hs

abbrev pub pending : Option Queue → List Task
pending none = []
pending (some q) = q.tasks

-- The tasks of one session, those handled and then those queued.
abbrev pub flow : String → Scheduler → List Task
flow k s = handled_of k s.handled ++ pending (lookup k s.sessions)

-- The tasks that a history submits to one session.
unfoldable pub submitted : String → List Call → List Task
submitted k [] = []
submitted k (enqueues task ∷ cs) =
    if str_eq (task_session_key task) k then task ∷ submitted k cs else submitted k cs
submitted k (dispatches expired ∷ cs) = submitted k cs
submitted k (completes key ∷ cs) = submitted k cs
submitted k (cancels ∷ cs) = submitted k cs
