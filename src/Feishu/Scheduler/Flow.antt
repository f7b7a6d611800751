-- ===== src/Feishu/Scheduler/Flow.antt =====
-- The effect of each operation on the tasks of one session.
use foxharness.Prelude.{
  Bool, true, false, List, [], ◌∷◌, ◌++◌, Option, some, none, String, ltb, if◌then◌else◌, ◌≡◌, refl,
  inl, inr, arith, str_eq, eq_iff, Option-cases, Bool-cases, append-nil, append_assoc, sym, ◌∙◌, ap,
}
use foxharness.Dict.{lookup, put, lookup-put, lookup-delete, Distinct}
use foxharness.Feishu.Scheduler.{
  Task, Queue, Scheduler, Handled, launched, is_some, queue_or_fresh, mark_ready, enqueue, Picked,
  next_runnable, task_session_key, launch, dispatch_one, dispatch_from, complete, keep_running,
  cancel_queued, cancel_all, as_cancelled,
}
use foxharness.Feishu.Scheduler.Invariant.{IsValid}
use foxharness.Feishu.Scheduler.History.{handled_of, pending, flow}

handled_of-append :
    (k : String) (hs gs : List Handled)
    → handled_of k (hs ++ gs) ≡ handled_of k hs ++ handled_of k gs
unfolding handled_of
handled_of-append k [] gs = refl
handled_of-append k (h ∷ hs) gs = ground (arith, handled_of-append k hs gs)

handled_of-as_cancelled :
    (k key : String) (ts : List Task)
    → handled_of k (as_cancelled key ts) ≡ (if str_eq key k then ts else [])
unfolding handled_of
handled_of-as_cancelled k key [] = ground arith
handled_of-as_cancelled k key (t ∷ ts) = ground (arith, handled_of-as_cancelled k key ts)

abbrev found_tasks : Option Task → List Task
found_tasks none = []
found_tasks (some t) = t ∷ []

-- nextRunnable splits the queue in its order.
next_runnable_split :
    (expired : Task → Bool) (ts : List Task)
    → let p = next_runnable expired ts in p.dropped ++ (found_tasks p.found ++ p.rest) ≡ ts
unfolding next_runnable
next_runnable_split expired [] = refl
next_runnable_split expired (t ∷ ts) = elim (Bool-cases (expired t)) [
  | inl h ↦ rw h (ap (◌∷◌ t) (next_runnable_split expired ts))
  | inr h ↦ rw h
]

queue_or_fresh_tasks : (o : Option Queue) → (queue_or_fresh o).tasks ≡ pending o
queue_or_fresh_tasks none = refl
queue_or_fresh_tasks (some q) = refl

-- Storing a queue, marked ready or not, shows its tasks and no others.
pending-mark_ready :
    (k key : String) (s : Scheduler) (q : Queue)
    → pending (lookup k (mark_ready s key q).sessions)
      ≡ (if str_eq key k then q.tasks else pending (lookup k s.sessions))
unfolding mark_ready
pending-mark_ready k key s q =
    ground (
      arith,
      lookup-put key k q s.sessions,
      lookup-put key k (record q { ready = true }) s.sessions,
    )

handled-mark_ready :
    (key : String) (s : Scheduler) (q : Queue) → (mark_ready s key q).handled ≡ s.handled
unfolding mark_ready
handled-mark_ready key s q = ground arith

append_here :
    (b : Bool) (xs ys : List Task) (t : Task)
    → xs ++ (if b then ys ++ t ∷ [] else ys) ≡ (xs ++ ys) ++ (if b then t ∷ [] else [])
append_here true xs ys t = sym (append_assoc xs ys (t ∷ []))
append_here false xs ys t = sym (append-nil (xs ++ ys))

pub flow-enqueue :
    (k : String) (s : Scheduler) (task : Task)
    → flow k (enqueue s task)
      ≡ flow k s ++ (if str_eq (task_session_key task) k then task ∷ [] else [])
unfolding enqueue
flow-enqueue k s task =
    let key = task_session_key task in
    let q = queue_or_fresh (lookup key s.sessions) in
    let q' = record q { tasks = q.tasks ++ task ∷ [] } in
    rw (handled-mark_ready key s q', pending-mark_ready k key s q')
      (ap (◌++◌ (handled_of k s.handled)) (own_tasks key)
        ∙ append_here (str_eq key k) (handled_of k s.handled) (pending (lookup k s.sessions)) task)
  where
    own_tasks :
        (key : String)
        → (if str_eq key k
            then (queue_or_fresh (lookup key s.sessions)).tasks ++ task ∷ []
            else pending (lookup k s.sessions))
          ≡ (if str_eq key k
              then pending (lookup k s.sessions) ++ task ∷ []
              else pending (lookup k s.sessions))
    own_tasks key = ground (arith, eq_iff key k, queue_or_fresh_tasks (lookup key s.sessions))

pending-complete :
    (k key : String) (s : Scheduler) (q : Queue)
    → lookup key s.sessions ≡ some q
    → (pending (lookup k (complete s key).sessions) ≡ pending (lookup k s.sessions))
      × ((complete s key).handled ≡ s.handled)
unfolding complete
pending-complete k key s q h =
    let done = record q { active_task = none } in
    rw (h, complete)
      (ground (
        arith,
        eq_iff key k,
        lookup-delete key k s.sessions,
        lookup-put key k done s.sessions,
        lookup-put key k (record done { ready = true }) s.sessions,
      ))

pub flow-complete : (k key : String) (s : Scheduler) → flow k (complete s key) ≡ flow k s
unfolding complete
flow-complete k key s = elim (Option-cases (lookup key s.sessions)) [
  | inl h ↦ rw (h, complete)
  | inr (q, h) ↦ let (same, log) = pending-complete k key s q h in rw (log, same)
]

next_runnable-none :
    (expired : Task → Bool) (ts : List Task)
    → (next_runnable expired ts).found ≡ none
    → (next_runnable expired ts).rest ≡ []
unfolding next_runnable
next_runnable-none expired [] h = refl
next_runnable-none expired (t ∷ ts) h = ground (arith, next_runnable-none expired ts)

-- What a launch adds to the record of a session.
handled-launched :
    (k key : String) (hs : List Handled) (ds : List Task) (t : Task)
    → handled_of k
        (hs ++ (as_cancelled key ds ++ record { key = key; task = t; fate = launched } ∷ []))
      ≡ handled_of k hs ++ (if str_eq key k then ds ++ t ∷ [] else [])
unfolding handled_of
handled-launched k key hs ds t =
    let last : List Handled = record { key = key; task = t; fate = launched } ∷ [] in
    rw (handled_of-append k hs (as_cancelled key ds ++ last)) (
      ap (◌++◌ (handled_of k hs)) (
        handled_of-append k (as_cancelled key ds) last
        ∙ ground (arith, handled_of-as_cancelled k key ds)))

module _ (k key : String) (s : Scheduler) (q : Queue) (h : lookup key s.sessions ≡ some q) where
  flow-launch :
      (p : Picked) (o : Option Task)
      → p.dropped ++ (found_tasks o ++ p.rest) ≡ q.tasks
      → (o ≡ none → p.rest ≡ [])
      → flow k (launch s key p o) ≡ flow k s
  unfolding launch
  flow-launch p none e r = elim (Bool-cases (str_eq key k)) [
    | inl b ↦
        let same : key ≡ k = (eq_iff key k).0 b in
        rw
          (
            handled_of-append k s.handled (as_cancelled key p.dropped),
            handled_of-as_cancelled k key p.dropped,
            lookup-delete key k s.sessions,
            b,
            ← same,
            h,
          )
          (rw append-nil
            (ap (◌++◌ (handled_of key s.handled)) (sym (append-nil p.dropped) ∙ rw (r refl) at e)))
    | inr b ↦
        rw
          (
            handled_of-append k s.handled (as_cancelled key p.dropped),
            handled_of-as_cancelled k key p.dropped,
            lookup-delete key k s.sessions,
            b,
          )
          (rw append-nil)
  ]
  flow-launch p (some t) e r = elim (Bool-cases (str_eq key k)) [
    | inl b ↦
        let same : key ≡ k = (eq_iff key k).0 b in
        rw
          (
            handled-launched k key s.handled p.dropped t,
            lookup-put key k _ s.sessions,
            b,
            ← same,
            h,
          )
          (simp append_assoc (ap (◌++◌ (handled_of key s.handled)) e))
    | inr b ↦
        rw (handled-launched k key s.handled p.dropped t, lookup-put key k _ s.sessions, b)
          (rw append-nil)
  ]

flow-dispatch_one :
    (k key : String) (expired : Task → Bool) (s : Scheduler)
    → flow k (dispatch_one expired s key) ≡ flow k s
unfolding dispatch_one
flow-dispatch_one k key expired s = elim (Option-cases (lookup key s.sessions)) [
  | inl h ↦ rw (h, dispatch_one)
  | inr (q, h) ↦
      let p = next_runnable expired q.tasks in
      elim (Bool-cases (is_some q.active_task)) [
        | inl a ↦ rw (h, dispatch_one, a) (same_tasks q h)
        | inr a ↦
            rw (h, dispatch_one, a)
              (flow-launch k key s q h p p.found (next_runnable_split expired q.tasks)
                (next_runnable-none expired q.tasks))
      ]
]
  where
    same_tasks :
        (q : Queue)
        → lookup key s.sessions ≡ some q
        → handled_of k s.handled
            ++ pending (lookup k (put key (record q { ready = false }) s.sessions))
          ≡ flow k s
    same_tasks q h =
        rw (lookup-put key k (record q { ready = false }) s.sessions) (ground (arith, eq_iff key k))

pub flow-dispatch_from :
    (k : String) (expired : Task → Bool) (keys : List String) (s : Scheduler)
    → flow k (dispatch_from expired keys s) ≡ flow k s
unfolding dispatch_from
flow-dispatch_from k expired [] s = refl
flow-dispatch_from k expired (key ∷ rest) s = elim (Bool-cases (ltb s.active s.limit)) [
  | inl l ↦ rw l (
      flow-dispatch_from k expired rest (dispatch_one expired (record s { ready = rest }) key)
      ∙ flow-dispatch_one k key expired (record s { ready = rest }))
  | inr l ↦ rw l
]

handled_of-cancel_queued :
    (k : String) (m : List (String × Queue))
    → Distinct m
    → handled_of k (cancel_queued m) ≡ pending (lookup k m)
unfolding cancel_queued handled_of lookup
handled_of-cancel_queued k [] d = refl
handled_of-cancel_queued k ((j, q) ∷ m) d =
    rw
      (
        handled_of-append k (as_cancelled j q.tasks) (cancel_queued m),
        handled_of-as_cancelled k j q.tasks,
        handled_of-cancel_queued k m d.1,
      )
      (ground (arith, eq_iff j k, append-nil q.tasks))

pending-keep_running :
    (k : String) (m : List (String × Queue)) → pending (lookup k (keep_running m)) ≡ []
unfolding keep_running lookup
pending-keep_running k [] = refl
pending-keep_running k ((j, q) ∷ m) = ground (arith, pending-keep_running k m)

pub flow-cancel_all : (k : String) (s : Scheduler) → IsValid s → flow k (cancel_all s) ≡ flow k s
unfolding cancel_all
flow-cancel_all k s v =
    rw
      (
        pending-keep_running k s.sessions,
        append-nil (handled_of k (s.handled ++ cancel_queued s.sessions)),
        handled_of-append k s.handled (cancel_queued s.sessions),
      )
      (ap (◌++◌ (handled_of k s.handled)) (handled_of-cancel_queued k s.sessions v.distinct))
