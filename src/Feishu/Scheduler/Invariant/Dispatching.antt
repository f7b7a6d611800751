-- ===== src/Feishu/Scheduler/Invariant/Dispatching.antt =====
-- Dispatching and cancelling keep what holds of the scheduler.
use foxharness.Prelude.{
  eq_refl, subst, ltb→lt, sym, ◌∙◌, ◌<◌, Bool, false, List, [], ◌∷◌, Option, some, none, String,
  ltb, if◌then◌else◌, ◌≡◌, refl, inl, inr, arith, eq_iff, Option-cases, Bool-cases,
}
use foxharness.Dict.{lookup, Distinct, total}
use foxharness.Feishu.Scheduler.{
  Task, Queue, Scheduler, is_some, next_runnable, dispatch_one, dispatch_from, dispatch,
  keep_running, cancel_all,
}
use foxharness.Feishu.Scheduler.Invariant.{
  busy, IsWaiting, IsLive, listed_once, occurs, IsValid, store-IsValid, drop-IsValid,
}

-- One round of dispatch, on the first key of the ready list.
module _ (expired : Task → Bool) (s : Scheduler) (v : IsValid s) (key : String) (rest : List String)
    (head : s.ready ≡ key ∷ rest) where
  abbrev popped : Scheduler
  popped = record s { ready = rest }

  dispatch_waiting :
      (q : Queue)
      → lookup key s.sessions ≡ some q
      → IsWaiting q
      → s.active < s.limit
      → IsValid (dispatch_one expired popped key)
  unfolding dispatch_one occurs
  dispatch_waiting q h w room = elim (Option-cases (next_runnable expired q.tasks).found) [
    | inl z ↦
        drop-IsValid s v key (dispatch_one expired popped key) (rw (h, dispatch_one, w.0, z))
          (rw (h, dispatch_one, w.0, z) v.bounded) (rw (h, dispatch_one, w.0, z) (ground arith))
          (λ k. rw (h, dispatch_one, w.0, z, head) (ground arith))
    | inr (t, z) ↦
        let q' : Queue = record {
          tasks = (next_runnable expired q.tasks).rest;
          active_task = some t;
          ready = false;
        } in
        store-IsValid s v key q' (dispatch_one expired popped key) (rw (h, dispatch_one, w.0, z))
          (inl (refl, refl)) (rw (h, dispatch_one, w.0, z) (omega arith))
          (rw (h, dispatch_one, w.0, z) (ground arith))
          (λ k. rw (h, dispatch_one, w.0, z, head) (ground arith))
  ]

  head-IsWaiting :
      (o : Option Queue) → lookup key s.sessions ≡ o → (q : Queue) × (o ≡ some q) × IsWaiting q
  unfolding occurs
  head-IsWaiting none h = absurd (ground (arith, rw (head, h) at (v.listed key), eq_refl key))
  head-IsWaiting (some q) h =
      (q, refl, ground (arith, rw (head, h) at (v.listed key), eq_refl key, rw h at (v.live key)))

  pub dispatch_one-IsValid : s.active < s.limit → IsValid (dispatch_one expired popped key)
  dispatch_one-IsValid room =
      let (q, h, w) = head-IsWaiting (lookup key s.sessions) refl in dispatch_waiting q h w room

pub dispatch_one_ready :
    (expired : Task → Bool) (s : Scheduler) (key : String)
    → (dispatch_one expired s key).ready ≡ s.ready
unfolding dispatch_one
dispatch_one_ready expired s key = ground arith

dispatch_from-IsValid :
    (expired : Task → Bool) (keys : List String) (s : Scheduler)
    → s.ready ≡ keys
    → IsValid s
    → IsValid (dispatch_from expired keys s)
unfolding dispatch_from
dispatch_from-IsValid expired [] s h v = subst (λ l. IsValid (record s { ready = l })) h v
dispatch_from-IsValid expired (key ∷ rest) s h v = elim (Bool-cases (ltb s.active s.limit)) [
  | inl l ↦ rw l (
      dispatch_from-IsValid expired rest (dispatch_one expired (record s { ready = rest }) key)
        (dispatch_one_ready expired (record s { ready = rest }) key)
        (dispatch_one-IsValid expired s v key rest h (ltb→lt _ _ l)))
  | inr l ↦ rw l (subst (λ l. IsValid (record s { ready = l })) h v)
]

pub dispatch-IsValid :
    (expired : Task → Bool) (s : Scheduler) → IsValid s → IsValid (dispatch expired s)
unfolding dispatch
dispatch-IsValid expired s v = dispatch_from-IsValid expired s.ready s refl v

abbrev kept : Option Queue → Option Queue
kept none = none
kept (some q) =
    if is_some q.active_task then some (record q { tasks = []; ready = false }) else none

lookup-keep_running :
    (k : String) (m : List (String × Queue))
    → Distinct m
    → lookup k (keep_running m) ≡ kept (lookup k m)
unfolding keep_running lookup
lookup-keep_running k [] d = refl
lookup-keep_running k ((j, q) ∷ m) d = ground (arith, eq_iff j k, lookup-keep_running k m d.1)

keep_running-Distinct : (m : List (String × Queue)) → Distinct m → Distinct (keep_running m)
unfolding keep_running
keep_running-Distinct [] d = tt
keep_running-Distinct ((j, q) ∷ m) d =
    ground (arith, lookup-keep_running j m d.1, keep_running-Distinct m d.1)

total-keep_running : (m : List (String × Queue)) → total busy (keep_running m) ≡ total busy m
unfolding keep_running total
total-keep_running [] = refl
total-keep_running ((j, q) ∷ m) = ground (arith, total-keep_running m)

kept-IsLive : (o : Option Queue) → IsLive (kept o) × (listed_once (kept o) ≡ 0)
kept-IsLive none = (tt, refl)
kept-IsLive (some q) = ground arith

pub cancel_all-IsValid : (s : Scheduler) → IsValid s → IsValid (cancel_all s)
unfolding cancel_all occurs
cancel_all-IsValid s v = record {
  distinct = keep_running-Distinct s.sessions v.distinct;
  counted = v.counted ∙ sym (total-keep_running s.sessions);
  bounded = v.bounded;
  live =
      λ k. rw (lookup-keep_running k s.sessions v.distinct) (kept-IsLive (lookup k s.sessions)).0;
  listed = λ k.
      rw (lookup-keep_running k s.sessions v.distinct) (sym (kept-IsLive (lookup k s.sessions)).1);
}
