-- ===== src/Common/Scheduler/Invariant.antt =====
-- The invariant of src/Common/Scheduler.cpp over its whole interface.
use lotospp.Base.{
  ℕ, ◌≤◌, ◌<◌, ◌≡◌, ◌≢◌, refl, inl, inr, Bool, true, false, not, ◌&&◌, List, [], ◌∷◌, Option, none,
  some, ◌==◌, if◌then◌else◌, arith, Bool-cases, Option-cases, ==_iff, some_inj,
}
use mathlib.Core.Bool.{false≢true}
use mathlib.Core.Path.{subst}
use lotospp.Common.Scheduler.{
  Scheduler, SchedulerTask, Outcome, is_running, is_terminated, erase, chosen_id, enqueue, last_id,
  add_event, stop_event, take_top, after_wait, start, stop, shutdown, init,
}
use lotospp.Common.Scheduler.Queue.{IsSorted, Queued, push-IsSorted, Queued-push, Queued-push_self}

-- The queue is in order, every active id has a task in it and is not 0, and a scheduler whose thread
-- has ended has no tasks.
pub record IsValid (s : Scheduler) : Type 0 where
  pub sorted : IsSorted s.event_list
  pub active : (i : ℕ) → s.event_ids i ≡ true → Queued i s.event_list
  pub no_zero : s.event_ids 0 ≡ false
  pub ended : is_terminated s.thread_state ≡ true → s.event_list ≡ []

-- A call of the interface, or a round of the thread that a timeout or a signal wakes.
pub data Call : Type 0 where
  adds : SchedulerTask → Call
  stops_event : ℕ → Call
  wakes : Bool → Call
  starts stops shuts_down : Call

-- `none` is a failed assertion, or the top of an empty queue.
unfoldable pub step : Scheduler → Call → Option Scheduler
unfolding add_event stop_event after_wait start stop shutdown
step s (adds t) = some (add_event s t).0
step s (stops_event i) = some (stop_event s i).0
step s (wakes signalled) = elim (after_wait s signalled) [ none ↦ none | some (s', o) ↦ some s' ]
step s starts = start s
step s stops = some (stop s)
step s shuts_down = some (shutdown s)

unfoldable pub run : Scheduler → List Call → Option Scheduler
run s [] = some s
run s (c ∷ cs) = elim (step s c) [ none ↦ none | some s' ↦ run s' cs ]

chosen_id_bounds :
    (s : Scheduler) (t : SchedulerTask)
    → s.last_event_id ≤ last_id
    → t.event_id ≤ last_id
    → (0 < chosen_id s t) × (chosen_id s t ≤ last_id)
unfolding chosen_id
chosen_id_bounds s t l h = ground arith

chosen_id_pos : (s : Scheduler) (t : SchedulerTask) → 0 < chosen_id s t
unfolding chosen_id
chosen_id_pos s t = ground arith

-- On a running scheduler the id that addEvent gives is an active uint32_t other than 0, its task is
-- queued, and the last id stays a uint32_t; a task that brought an id keeps it.
pub add_event_id :
    (s : Scheduler) (t : SchedulerTask)
    → is_running s.thread_state ≡ true
    → s.last_event_id ≤ last_id
    → t.event_id ≤ last_id
    → (0 < (add_event s t).1.event_id)
      × ((add_event s t).1.event_id ≤ last_id)
      × ((add_event s t).0.event_ids (add_event s t).1.event_id ≡ true)
      × Queued (add_event s t).1.event_id (add_event s t).0.event_list
      × ((add_event s t).0.last_event_id ≤ last_id)
      × (0 < t.event_id → (add_event s t).1.event_id ≡ t.event_id)
unfolding add_event
add_event_id s t run l h =
    rw (run, add_event)
      (
        chosen_id_pos s t,
        (chosen_id_bounds s t l h).1,
        unfold enqueue in ground arith,
        unfold enqueue in Queued-push_self (record t { event_id = chosen_id s t }) s.event_list,
        unfold enqueue in ground (arith, chosen_id_bounds s t),
        λ p. unfold chosen_id in ground arith,
      )

enqueue-IsValid :
    (s : Scheduler) (t : SchedulerTask)
    → 0 < t.event_id
    → is_terminated s.thread_state ≡ false
    → IsValid s
    → IsValid (enqueue s t)
unfolding enqueue
enqueue-IsValid s t p run v = record {
  sorted = push-IsSorted t s.event_list v.sorted;
  active = λ i a. elim (Bool-cases (i == t.event_id)) [
    | inl e ↦ rw ((==_iff i t.event_id).0 e) (Queued-push_self t s.event_list)
    | inr n ↦ Queued-push i t s.event_list (v.active i (rw n at a))
  ];
  no_zero = ground (arith, v.no_zero);
  ended = λ e. cc;
}

add_event-IsValid : (s : Scheduler) (t : SchedulerTask) → IsValid s → IsValid (add_event s t).0
unfolding add_event
add_event-IsValid s t v = elim (Bool-cases (is_running s.thread_state)) [
  | inl run ↦
      rw (run, add_event)
        (enqueue-IsValid
          (record s { last_event_id = if t.event_id == 0 then chosen_id s t else s.last_event_id })
          (record t { event_id = chosen_id s t }) (chosen_id_pos s t) (ground arith)
          (record { sorted = v.sorted; active = v.active; no_zero = v.no_zero; ended = v.ended }))
  | inr not_run ↦ rw (not_run, add_event) v
]

stop_event-IsValid : (s : Scheduler) (i : ℕ) → IsValid s → IsValid (stop_event s i).0
unfolding stop_event
stop_event-IsValid s i v = elim (Bool-cases (i == 0)) [
  | inl z ↦ rw (z, stop_event) v
  | inr nz ↦ elim (Bool-cases (s.event_ids i)) [
    | inl a ↦
        rw (nz, a, stop_event)
          (record {
            sorted = v.sorted;
            active = λ j b. v.active j (ground arith);
            no_zero = ground (arith, v.no_zero);
            ended = v.ended;
          })
    | inr b ↦ rw (nz, b, stop_event) v
  ]
]

-- What is left when the first task was active, and when it was not.
taken-IsValid :
    (s : Scheduler) (t : SchedulerTask) (ts : List SchedulerTask) (ids : ℕ → Bool)
    → s.event_list ≡ t ∷ ts
    → is_terminated s.thread_state ≡ false
    → IsValid s
    → ((i : ℕ) → ids i ≡ true → (s.event_ids i ≡ true) × (t.event_id ≢ i))
    → ids 0 ≡ false
    → IsValid (record s { event_list = ts; event_ids = ids })
taken-IsValid s t ts ids e run v sub z = record {
  sorted = (rw e at (v.sorted)).1;
  active = λ i a.
      let queued : Queued i (t ∷ ts) = rw e at (v.active i (sub i a).0) in
      elim queued [ inl same ↦ absurd ((sub i a).1 same) | inr later ↦ later ];
  no_zero = z;
  ended = λ x. cc;
}

take_top-IsValid :
    (s s' : Scheduler) (o : Outcome) (queue : List SchedulerTask)
    → s.event_list ≡ queue
    → is_terminated s.thread_state ≡ false
    → take_top s queue ≡ some (s', o)
    → IsValid s
    → IsValid s'
unfolding take_top
take_top-IsValid s s' o [] l run e v = cc
take_top-IsValid s s' o (t ∷ ts) l run e v = elim (Bool-cases (s.event_ids t.event_id)) [
  | inl active ↦
      let same : s' ≡ record s { event_list = ts; event_ids = erase s.event_ids t.event_id } =
        ground arith in
      rw same (
        taken-IsValid s t ts (erase s.event_ids t.event_id) l run v
          (λ i a. (ground arith, ground arith)) (ground (arith, v.no_zero)))
  | inr stopped ↦
      let same : s' ≡ record s { event_list = ts } = ground arith in
      rw same (taken-IsValid s t ts s.event_ids l run v (λ i a. (a, λ x. ground arith)) v.no_zero)
]

after_wait-IsValid :
    (s s' : Scheduler) (signalled : Bool) (o : Outcome)
    → after_wait s signalled ≡ some (s', o)
    → IsValid s
    → IsValid s'
unfolding after_wait
after_wait-IsValid s s' signalled o e v =
    elim (Bool-cases (not signalled && not (is_terminated s.thread_state))) [
      | inl b ↦ take_top-IsValid s s' o s.event_list refl (ground arith) (rw (b, after_wait) at e) v
      | inr b ↦ let same : s' ≡ s = ground arith in rw same v
    ]

-- No call and no round of the thread breaks the invariant.
pub step-IsValid : (s s' : Scheduler) (c : Call) → step s c ≡ some s' → IsValid s → IsValid s'
unfolding step
step-IsValid s s' (adds t) e v = subst IsValid (some_inj e) (add_event-IsValid s t v)
step-IsValid s s' (stops_event i) e v = subst IsValid (some_inj e) (stop_event-IsValid s i v)
step-IsValid s s' (wakes signalled) e v = elim (Option-cases (after_wait s signalled)) [
  | inl fault ↦ cc (rw (fault, step) at e)
  | inr ((s₁, o), done) ↦
      subst IsValid (some_inj (rw (done, step) at e)) (after_wait-IsValid s s₁ signalled o done v)
]
step-IsValid s s' starts e v = elim (Bool-cases (is_terminated s.thread_state)) [
  | inl ended ↦
      subst IsValid (some_inj (rw (ended, start) at e))
        (record { sorted = v.sorted; active = v.active; no_zero = v.no_zero; ended = λ x. cc })
  | inr on ↦ cc (rw (on, start) at e)
]
step-IsValid s s' stops e v =
    subst IsValid (some_inj e)
      (record { sorted = v.sorted; active = v.active; no_zero = v.no_zero; ended = λ x. cc })
step-IsValid s s' shuts_down e v = subst IsValid (some_inj e) (record {
  sorted = tt;
  active = λ i a. absurd (false≢true a);
  no_zero = refl;
  ended = λ x. refl;
})

init-IsValid : IsValid init
unfolding init
init-IsValid = record {
  sorted = tt;
  active = λ i a. absurd (false≢true a);
  no_zero = refl;
  ended = λ x. refl;
}

run-IsValid : (s s' : Scheduler) (cs : List Call) → run s cs ≡ some s' → IsValid s → IsValid s'
unfolding run
run-IsValid s s' [] e v = subst IsValid (some_inj e) v
run-IsValid s s' (c ∷ cs) e v = elim (Option-cases (step s c)) [
  | inl fault ↦ cc (rw (fault, run) at e)
  | inr (s₁, done) ↦ run-IsValid s₁ s' cs (rw (done, run) at e) (step-IsValid s s₁ c done v)
]

-- After any calls of the interface and rounds of the thread on a new scheduler, the queue is in the
-- order of the tasks' times, every active id has a queued task and is not 0, and a scheduler that
-- has ended has no tasks.
pub run-init-IsValid : (s : Scheduler) (cs : List Call) → run init cs ≡ some s → IsValid s
run-init-IsValid s cs e = run-IsValid init s cs e init-IsValid
