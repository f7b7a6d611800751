-- ===== src/Feishu/Scheduler/Invariant.antt =====
-- What holds of the scheduler between two calls.
pub mod Dispatching
use foxharness.Prelude.{
  eq_refl, subst, ltb→lt, sym, ◌∙◌, ℕ, ◌+◌, ◌≤◌, ◌<◌, Bool, true, false, List, [], ◌∷◌, ◌++◌,
  Option, some, none, String, ltb, if◌then◌else◌, ◌≡◌, refl, ◌⊎◌, inl, inr, arith, str_eq, eq_iff,
  Option-cases, Bool-cases,
}
use foxharness.Dict.{
  lookup, put, delete, lookup-put, lookup-delete, Distinct, put-Distinct, delete-Distinct, total,
  total-put, total-delete, weight_of,
}
use foxharness.Feishu.Scheduler.{
  Task, Queue, Scheduler, is_some, is_empty, new_task_scheduler, enqueue, next_runnable,
  task_session_key, dispatch_one, dispatch_from, dispatch, complete, keep_running, cancel_all,
}

abbrev pub busy : Queue → ℕ
busy q = if is_some q.active_task then 1 else 0

abbrev pub IsRunning : Queue → Type 0
IsRunning q = (is_some q.active_task ≡ true) × (q.ready ≡ false)

abbrev pub IsWaiting : Queue → Type 0
IsWaiting q = (is_some q.active_task ≡ false) × (q.ready ≡ true) × (is_empty q.tasks ≡ false)

-- A session in the map runs a task, or waits with work on the ready list.
abbrev pub IsLive : Option Queue → Type 0
IsLive none = Unit {0}
IsLive (some q) = IsRunning q ⊎ IsWaiting q

abbrev pub listed_once : Option Queue → ℕ
listed_once none = 0
listed_once (some q) = if q.ready then 1 else 0

unfoldable pub occurs : String → List String → ℕ
occurs k [] = 0
occurs k (j ∷ js) = (if str_eq j k then 1 else 0) + occurs k js

pub occurs-append_one :
    (k j : String) (js : List String)
    → occurs k (js ++ j ∷ []) ≡ occurs k js + (if str_eq j k then 1 else 0)
unfolding occurs
occurs-append_one k j [] = omega arith
occurs-append_one k j (i ∷ js) = omega (arith, occurs-append_one k j js)

pub record IsValid (s : Scheduler) : Type 0 where
  pub distinct : Distinct s.sessions
  pub counted : s.active ≡ total busy s.sessions
  pub bounded : s.active ≤ s.limit
  pub live : (k : String) → IsLive (lookup k s.sessions)
  pub listed : (k : String) → occurs k s.ready ≡ listed_once (lookup k s.sessions)

pub new-IsValid : (limit : ℕ) → IsValid (new_task_scheduler limit)
unfolding new_task_scheduler lookup total occurs
new-IsValid limit = record {
  distinct = tt;
  counted = refl;
  bounded = omega arith;
  live = λ k. tt;
  listed = λ k. refl;
}

abbrev pub only : String → String → ℕ → ℕ
only key k n = if str_eq key k then n else 0

-- Writing one queue, or dropping one, with the counters and the ready list moved to match.
module _ (s : Scheduler) (v : IsValid s) (key : String) where
  abbrev pub held : Option Queue
  held = lookup key s.sessions

  pub store-IsValid :
      (q : Queue) (t : Scheduler)
      → t.sessions ≡ put key q s.sessions
      → IsLive (some q)
      → t.active ≤ t.limit
      → t.active + weight_of busy held ≡ s.active + busy q
      → ((k : String)
          → occurs k t.ready + only key k (listed_once held)
            ≡ occurs k s.ready + only key k (listed_once (some q)))
      → IsValid t
  store-IsValid q t e l b c r = record {
    distinct = rw e (put-Distinct key q s.sessions v.distinct);
    counted = rw e (omega (arith, c, v.counted, total-put busy key q s.sessions));
    bounded = b;
    live = λ k. rw (e, lookup-put key k q s.sessions) (ground (arith, eq_iff key k, v.live k));
    listed = λ k.
        rw (e, lookup-put key k q s.sessions)
          (ground (arith, eq_iff key k, v.listed k, r k, v.listed key));
  }

  pub drop-IsValid :
      (t : Scheduler)
      → t.sessions ≡ delete key s.sessions
      → t.active ≤ t.limit
      → t.active + weight_of busy held ≡ s.active
      → ((k : String) → occurs k t.ready + only key k (listed_once held) ≡ occurs k s.ready)
      → IsValid t
  drop-IsValid t e b c r = record {
    distinct = rw e (delete-Distinct key s.sessions v.distinct);
    counted = rw e (omega (arith, c, v.counted, total-delete busy key s.sessions v.distinct));
    bounded = b;
    live = λ k. rw (e, lookup-delete key k s.sessions) (ground (arith, eq_iff key k, v.live k));
    listed = λ k.
        rw (e, lookup-delete key k s.sessions)
          (ground (arith, eq_iff key k, v.listed k, r k, v.listed key));
  }

is_empty-append_one : (ts : List Task) (t : Task) → is_empty (ts ++ t ∷ []) ≡ false
is_empty-append_one [] t = refl
is_empty-append_one (x ∷ xs) t = refl

module _ (s : Scheduler) (v : IsValid s) where
  enqueue_new :
      (task : Task) → lookup (task_session_key task) s.sessions ≡ none → IsValid (enqueue s task)
  unfolding enqueue occurs
  enqueue_new task h =
      let key = task_session_key task in
      let q : Queue = record { tasks = task ∷ []; active_task = none; ready = true } in
      store-IsValid s v key q (enqueue s task) (rw (h, enqueue)) (inr (refl, refl, refl))
        (rw (h, enqueue) v.bounded) (rw (h, enqueue))
        (λ k. rw (h, enqueue) (ground (arith, occurs-append_one k key s.ready)))

  enqueue_known :
      (task : Task) (q : Queue)
      → lookup (task_session_key task) s.sessions ≡ some q
      → IsLive (some q)
      → IsValid (enqueue s task)
  unfolding enqueue
  enqueue_known task q h l =
      let key = task_session_key task in
      let q' = record q { tasks = q.tasks ++ task ∷ [] } in
      store-IsValid s v key q' (enqueue s task) (rw (h, enqueue) (ground arith))
        (ground (arith, is_empty-append_one q.tasks task))
        (rw (h, enqueue) (ground (arith, v.bounded))) (rw (h, enqueue) (ground arith))
        (λ k. rw (h, enqueue) (ground arith))

  pub enqueue-IsValid : (task : Task) → IsValid (enqueue s task)
  enqueue-IsValid task = elim (Option-cases (lookup (task_session_key task) s.sessions)) [
    | inl h ↦ enqueue_new task h
    | inr (q, h) ↦ enqueue_known task q h (rw h at (v.live (task_session_key task)))
  ]

  busy_pos :
      (key : String) (q : Queue)
      → lookup key s.sessions ≡ some q
      → is_some q.active_task ≡ true
      → 0 < s.active
  busy_pos key q h a =
      let p = total-delete busy key s.sessions v.distinct in ground (arith, v.counted, p)

  complete_running :
      (key : String) (q : Queue)
      → lookup key s.sessions ≡ some q
      → is_some q.active_task ≡ true
      → q.ready ≡ false
      → IsValid (complete s key)
  unfolding complete
  complete_running key q h a r = elim (Bool-cases (is_empty q.tasks)) [
    | inl z ↦
        drop-IsValid s v key (complete s key) (rw (h, complete, a, z))
          (rw (h, complete, a, z) (omega (arith, v.bounded)))
          (rw (h, complete, a, z) (omega (arith, busy_pos key q h a)))
          (λ k. rw (h, complete, a, z) (ground arith))
    | inr z ↦
        let q' : Queue = record { tasks = q.tasks; active_task = none; ready = true } in
        store-IsValid s v key q' (complete s key) (rw (h, complete, a, z) (ground arith))
          (inr (refl, refl, z)) (rw (h, complete, a, z) (ground (arith, v.bounded)))
          (rw (h, complete, a, z) (ground (arith, busy_pos key q h a)))
          (λ k. rw (h, complete, a, z) (ground (arith, occurs-append_one k key s.ready)))
  ]

  complete_idle :
      (key : String) (q : Queue)
      → lookup key s.sessions ≡ some q
      → is_some q.active_task ≡ false
      → complete s key ≡ s
  unfolding complete
  complete_idle key q h a = rw (h, complete, a)

  complete_missing : (key : String) → lookup key s.sessions ≡ none → complete s key ≡ s
  unfolding complete
  complete_missing key h = rw (h, complete)

  complete_found :
      (key : String) (q : Queue)
      → lookup key s.sessions ≡ some q
      → IsLive (some q)
      → IsValid (complete s key)
  complete_found key q h (inl l) = complete_running key q h l.0 l.1
  complete_found key q h (inr l) = rw (complete_idle key q h l.0) v

  pub complete-IsValid : (key : String) → IsValid (complete s key)
  complete-IsValid key = elim (Option-cases (lookup key s.sessions)) [
    | inl h ↦ rw (complete_missing key h) v
    | inr (q, h) ↦ complete_found key q h (rw h at (v.live key))
  ]
