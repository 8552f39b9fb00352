-- ===== src/Common/Scheduler.antt =====
-- The scheduler of src/Common/Scheduler.h and Scheduler.cpp.
-- Its methods hold the event lock, so each is one step; the thread's loop is cut where it waits.
pub mod Queue
pub mod Invariant
pub mod Drain
mod Tests
use lotospp.Base.{
  ℕ, suc, ◌+◌, ◌^◌, Bool, true, false, not, ◌&&◌, List, [], ◌∷◌, Option, none, some, leb, ltb, ◌==◌,
  if◌then◌else◌,
}
use lotospp.Common.Task.{Task}

-- A SchedulerTask: `ident` is its address, `cycle` its expiration, at which it is to run.
pub record SchedulerTask : Type 0 where
  pub ident : ℕ
  pub function : ℕ
  pub event_id : ℕ
  pub cycle : ℕ

pub data SchedulerState : Type 0 where
  running closing terminated : SchedulerState

-- The priority queue as the list of its tasks, the next to run first, and the set of the active
-- event ids as its membership test.
pub record Scheduler : Type 0 where
  pub last_event_id : ℕ
  pub event_list : List SchedulerTask
  pub event_ids : ℕ → Bool
  pub thread_state : SchedulerState

abbrev pub is_running : SchedulerState → Bool
is_running running = true
is_running _ = false

abbrev pub is_terminated : SchedulerState → Bool
is_terminated terminated = true
is_terminated _ = false

abbrev pub min_ticks : ℕ
min_ticks = 20

abbrev pub last_id : ℕ
last_id = 0xFFFFFFFF

-- createSchedulerTask at time `now`; `none` is its failed assertion.
pub create_scheduler_task : ℕ → ℕ → ℕ → ℕ → Option SchedulerTask
create_scheduler_task now ident delay f =
    if delay == 0
    then none
    else some (record {
      ident = ident;
      function = f;
      event_id = 0;
      cycle = now + (if ltb delay min_ticks then min_ticks else delay);
    })

-- std::priority_queue::push. Tasks of one cycle, whose order the library leaves open, keep the order
-- in which they came.
pub push : SchedulerTask → List SchedulerTask → List SchedulerTask
push t [] = t ∷ []
push t (u ∷ us) = if ltb t.cycle u.cycle then t ∷ u ∷ us else u ∷ push t us

abbrev pub insert : (ℕ → Bool) → ℕ → ℕ → Bool
insert ids i j = if j == i then true else ids j

abbrev pub erase : (ℕ → Bool) → ℕ → ℕ → Bool
erase ids i j = if j == i then false else ids j

-- Whether a task is the top of the queue, by its address.
pub is_top : SchedulerTask → List SchedulerTask → Bool
is_top t [] = false
is_top t (u ∷ us) = t.ident == u.ident

-- The id that a task gets, and the last id after that.
pub next_event_id : ℕ → ℕ
next_event_id last = suc (if leb last_id last then 0 else last)

-- The id of a task that is added: its own, or a new one.
pub chosen_id : Scheduler → SchedulerTask → ℕ
unfolding next_event_id
chosen_id s task = if task.event_id == 0 then next_event_id s.last_event_id else task.event_id

-- A task that has its id enters the set and the queue.
pub enqueue : Scheduler → SchedulerTask → Scheduler
unfolding push
enqueue s task = record s {
  event_ids = insert s.event_ids task.event_id;
  event_list = push task s.event_list;
}

-- addEvent: the scheduler, the task with its id, which is returned, and whether the thread is
-- signalled.
pub add_event : Scheduler → SchedulerTask → Scheduler × SchedulerTask × Bool
unfolding chosen_id enqueue is_top
add_event s task =
    let task' = record task { event_id = chosen_id s task } in
    let last = if task.event_id == 0 then chosen_id s task else s.last_event_id in
    let s' = enqueue (record s { last_event_id = last }) task' in
    if is_running s.thread_state then (s', task', is_top task' s'.event_list) else (s, task, false)

pub stop_event : Scheduler → ℕ → Scheduler × Bool
stop_event s id =
    if id == 0
    then (s, false)
    else if s.event_ids id
    then (record s { event_ids = erase s.event_ids id }, true)
    else (s, false)

-- What a round of the thread does with the task that it took.
pub data Outcome : Type 0 where
  idle : Outcome
  dispatched : Task → Outcome
  deleted : SchedulerTask → Outcome

-- The top of the queue is taken, and runs if it was not stopped; `none` is the top of an empty queue.
pub take_top : Scheduler → List SchedulerTask → Option (Scheduler × Outcome)
take_top s [] = none
take_top s (task ∷ rest) =
    if s.event_ids task.event_id
    then some (
      record s { event_list = rest; event_ids = erase s.event_ids task.event_id },
      dispatched (record { function = task.function; expiration = none }),
    )
    else some (record s { event_list = rest }, deleted task)

-- A round of schedulerThread behind its wait; `signalled` is what the wait returned. A wait ends by
-- a timeout only for a queue with a task.
pub after_wait : Scheduler → Bool → Option (Scheduler × Outcome)
unfolding take_top
after_wait s signalled =
    if not signalled && not (is_terminated s.thread_state)
    then take_top s s.event_list
    else some (s, idle)

-- `none` is the failed assertion.
pub start : Scheduler → Option Scheduler
start s = if is_terminated s.thread_state then some (record s { thread_state = running }) else none

pub stop : Scheduler → Scheduler
stop s = record s { thread_state = closing }

pub shutdown : Scheduler → Scheduler
shutdown s = record s { thread_state = terminated; event_list = []; event_ids = λ i. false }

-- A new scheduler.
pub init : Scheduler
init = record {
  last_event_id = 0;
  event_list = [];
  event_ids = λ i. false;
  thread_state = terminated;
}
