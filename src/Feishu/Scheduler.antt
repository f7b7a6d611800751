-- ===== src/Feishu/Scheduler.antt =====
-- internal/feishu/scheduler.go: queues of tasks by chat session, at most one task of a session and
-- `limit` tasks in all at a time. A queue is written back to the session map after each change that
-- the source makes through its pointer. Whether a task's context is done is asked of `expired`.
pub mod Invariant
pub mod History
pub mod Flow
pub mod Order
mod Tests
use foxharness.Prelude.{
  ℕ, ◌+◌, ◌-◌, Bool, true, false, not, ◌&&◌, ◌||◌, List, [], ◌∷◌, ◌++◌, Option, some, none, String,
  ltb, ◌==◌, if◌then◌else◌, map, length,
}
use foxharness.Dict.{lookup, put, delete}
use Prim.Native.String.{◌++◌ as text_append}

pub record Task : Type 0 where
  pub task_id : String
  pub chat_id : String
  pub sender_id : String
  pub message_id : String
  pub text : String

pub record Queue : Type 0 where
  pub tasks : List Task
  pub active_task : Option Task
  pub ready : Bool

-- `handled` records, oldest first, the tasks that left their queue: started by `go s.run`, or
-- cancelled with a delivery to the chat.
pub data Fate : Type 0 where
  launched cancelled : Fate

pub record Handled : Type 0 where
  pub key : String
  pub task : Task
  pub fate : Fate

pub record Scheduler : Type 0 where
  pub limit : ℕ
  pub active : ℕ
  pub sessions : List (String × Queue)
  pub ready : List String
  pub handled : List Handled

abbrev pub default_max_concurrent_tasks : ℕ
default_max_concurrent_tasks = 4

pub concurrent_task_limit : ℕ → ℕ
concurrent_task_limit configured =
    if ltb 0 configured then configured else default_max_concurrent_tasks

-- taskSessionKey.
pub task_session_key : Task → String
task_session_key task = text_append task.chat_id (text_append ":" task.sender_id)

abbrev pub is_some : Option Task → Bool
is_some none = false
is_some (some t) = true

abbrev pub is_empty : List Task → Bool
is_empty [] = true
is_empty (t ∷ ts) = false

pub new_task_scheduler : ℕ → Scheduler
new_task_scheduler limit = record {
  limit = limit;
  active = 0;
  sessions = [];
  ready = [];
  handled = [];
}

abbrev pub fresh_queue : Queue
fresh_queue = record { tasks = []; active_task = none; ready = false }

abbrev pub queue_or_fresh : Option Queue → Queue
queue_or_fresh none = fresh_queue
queue_or_fresh (some q) = q

-- `q` is the queue of `key`, its other changes made.
pub mark_ready : Scheduler → String → Queue → Scheduler
mark_ready s key q =
    if is_some q.active_task || q.ready || is_empty q.tasks
    then record s { sessions = put key q s.sessions }
    else record s {
      sessions = put key (record q { ready = true }) s.sessions;
      ready = s.ready ++ key ∷ [];
    }

pub enqueue : Scheduler → Task → Scheduler
unfolding mark_ready
enqueue s task =
    let key = task_session_key task in
    let q = queue_or_fresh (lookup key s.sessions) in
    mark_ready s key (record q { tasks = q.tasks ++ task ∷ [] })

-- The task to run, the tasks behind it, and the expired ones before it.
pub record Picked : Type 0 where
  pub found : Option Task
  pub rest : List Task
  pub dropped : List Task

pub next_runnable : (Task → Bool) → List Task → Picked
next_runnable expired [] = record { found = none; rest = []; dropped = [] }
next_runnable expired (t ∷ ts) =
    let later = next_runnable expired ts in
    if expired t
    then record { found = later.found; rest = later.rest; dropped = t ∷ later.dropped }
    else record { found = some t; rest = ts; dropped = [] }

abbrev pub as_cancelled : String → List Task → List Handled
as_cancelled key = map (λ t. record { key = key; task = t; fate = cancelled })

-- What dispatch does with the picked task of a session.
launch : Scheduler → String → Picked → Option Task → Scheduler
launch s key p none = record s {
  sessions = delete key s.sessions;
  handled = s.handled ++ as_cancelled key p.dropped;
}
launch s key p (some t) = record s {
  sessions = put key (record { tasks = p.rest; active_task = some t; ready = false }) s.sessions;
  active = s.active + 1;
  handled =
      s.handled
      ++ (as_cancelled key p.dropped ++ record { key = key; task = t; fate = launched } ∷ []);
}

dispatch_queue : (Task → Bool) → Scheduler → String → Option Queue → Scheduler
unfolding launch
dispatch_queue expired s key none = s
dispatch_queue expired s key (some q) =
    let p = next_runnable expired q.tasks in
    if is_some q.active_task
    then record s { sessions = put key (record q { ready = false }) s.sessions }
    else launch s key p p.found

-- One round of the loop of `dispatch`, on the key taken from the ready list.
pub dispatch_one : (Task → Bool) → Scheduler → String → Scheduler
unfolding dispatch_queue
dispatch_one expired s key = dispatch_queue expired s key (lookup key s.sessions)

pub dispatch_from : (Task → Bool) → List String → Scheduler → Scheduler
dispatch_from expired [] s = record s { ready = [] }
dispatch_from expired (key ∷ rest) s =
    if ltb s.active s.limit
    then dispatch_from expired rest (dispatch_one expired (record s { ready = rest }) key)
    else record s { ready = key ∷ rest }

pub dispatch : (Task → Bool) → Scheduler → Scheduler
dispatch expired s = dispatch_from expired s.ready s

complete_queue : Scheduler → String → Option Queue → Scheduler
unfolding mark_ready
complete_queue s key none = s
complete_queue s key (some q) =
    if is_some q.active_task
    then (let t = record s { active = s.active - 1 } in
        if is_empty q.tasks
        then record t { sessions = delete key s.sessions }
        else mark_ready t key (record q { active_task = none }))
    else s

pub complete : Scheduler → String → Scheduler
unfolding complete_queue
complete s key = complete_queue s key (lookup key s.sessions)

-- The sessions that cancelAll keeps: those with a running task, which is only told to stop.
pub keep_running : List (String × Queue) → List (String × Queue)
keep_running [] = []
keep_running ((key, q) ∷ m) =
    if is_some q.active_task
    then (key, record q { tasks = []; ready = false }) ∷ keep_running m
    else keep_running m

pub cancel_queued : List (String × Queue) → List Handled
cancel_queued [] = []
cancel_queued ((key, q) ∷ m) = as_cancelled key q.tasks ++ cancel_queued m

pub cancel_all : Scheduler → Scheduler
unfolding keep_running cancel_queued
cancel_all s = record s {
  ready = [];
  sessions = keep_running s.sessions;
  handled = s.handled ++ cancel_queued s.sessions;
}

pub idle : Scheduler → Bool
idle s = s.active == 0 && length s.sessions == 0
