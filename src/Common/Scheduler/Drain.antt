-- ===== src/Common/Scheduler/Drain.antt =====
-- What the thread of src/Common/Scheduler.cpp runs when nobody adds tasks any more: the tasks that
-- were not stopped, in the order of the queue.
use lotospp.Base.{
  ℕ, zero, suc, ◌≡◌, refl, inl, inr, Bool, true, false, List, [], ◌∷◌, Option, none, some, ◌==◌,
  if◌then◌else◌, length, arith, Bool-cases,
}
use lotospp.Common.Task.{Task}
use lotospp.Common.Scheduler.{
  Scheduler, SchedulerTask, idle, dispatched, deleted, is_terminated, erase, stop_event, take_top,
  after_wait,
}
use lotospp.Common.Scheduler.Queue.{Apart, AreDistinct}

-- `n` timeouts one after the other, and the tasks that they hand to the dispatcher.
unfoldable pub timeouts : ℕ → Scheduler → Option (Scheduler × List Task)
timeouts zero s = some (s, [])
timeouts (suc n) s = elim (after_wait s false) [
  | none ↦ none
  | some (s', o) ↦ elim (timeouts n s') [
    | none ↦ none
    | some (s'', ts) ↦ some (s'', elim o [ dispatched t ↦ t ∷ ts | idle ↦ ts | deleted t ↦ ts ])
  ]
]

-- The tasks of a queue whose ids are active, as the dispatcher gets them.
unfoldable pub active_tasks : (ℕ → Bool) → List SchedulerTask → List Task
active_tasks ids [] = []
active_tasks ids (t ∷ ts) =
    if ids t.event_id
    then record { function = t.function; expiration = none } ∷ active_tasks ids ts
    else active_tasks ids ts

active_tasks-erase :
    (ids : ℕ → Bool) (i : ℕ) (ts : List SchedulerTask)
    → Apart i ts
    → active_tasks (erase ids i) ts ≡ active_tasks ids ts
unfolding active_tasks
active_tasks-erase ids i [] a = refl
active_tasks-erase ids i (t ∷ ts) (n, a) = ground (arith, active_tasks-erase ids i ts a)

-- If the ids in the queue are distinct and the thread has not ended, as many timeouts as there are
-- tasks empty the queue and hand exactly the active tasks to the dispatcher, once each, in the
-- queue's order, without an expiration.
pub timeouts-active_tasks :
    (ts : List SchedulerTask) (s : Scheduler)
    → s.event_list ≡ ts
    → is_terminated s.thread_state ≡ false
    → AreDistinct ts
    → (s' : Scheduler) × (timeouts (length ts) s ≡ some (s', active_tasks s.event_ids ts))
      × (s'.event_list ≡ [])
unfolding timeouts active_tasks after_wait take_top
timeouts-active_tasks [] s l run d = (s, refl, l)
timeouts-active_tasks (t ∷ ts) s l run (a, d) = elim (Bool-cases (s.event_ids t.event_id)) [
  | inl active ↦
      let (s', e, z) =
        timeouts-active_tasks ts
          (record s { event_list = ts; event_ids = erase s.event_ids t.event_id }) refl run d in
      (s', ground (arith, e, active_tasks-erase s.event_ids t.event_id ts a), z)
  | inr stopped ↦
      let (s', e, z) = timeouts-active_tasks ts (record s { event_list = ts }) refl run d in
      (s', ground (arith, e), z)
]

-- Stopping an active event succeeds, and afterwards the timeouts hand over the active tasks but
-- those with the stopped id; the ids in the queue are distinct, 0 is not active and the thread has
-- not ended.
pub timeouts-stop_event :
    (s : Scheduler) (i : ℕ)
    → s.event_ids i ≡ true
    → s.event_ids 0 ≡ false
    → is_terminated s.thread_state ≡ false
    → AreDistinct s.event_list
    → (s' : Scheduler) × ((stop_event s i).1 ≡ true)
      × (timeouts (length s.event_list) (stop_event s i).0
          ≡ some (s', active_tasks (erase s.event_ids i) s.event_list))
      × (s'.event_list ≡ [])
unfolding stop_event
timeouts-stop_event s i a z run d = elim (Bool-cases (i == 0)) [
  | inl zero_id ↦ ground arith
  | inr id ↦
      let (s', e, l) =
        timeouts-active_tasks s.event_list (record s { event_ids = erase s.event_ids i }) refl run
          d in
      (s', rw (id, a, stop_event), rw (id, a, stop_event) e, l)
]
