-- ===== src/Common/Dispatcher.antt =====
-- The dispatcher of src/Common/Dispatcher.h and Dispatcher.cpp.
-- What a task's function and OutputMessagePool::sendAll do is an argument: each turns the state of the
-- rest of the program into another, and lists the calls of addTask that it makes. `shutdown` holds the
-- task lock, which is not recursive, while it runs tasks: a call of addTask from them never returns.
pub mod Rounds
pub mod Shutdown
mod Tests
use lotospp.Base.{
  ℕ, zero, suc, Bool, true, false, not, ◌&&◌, List, [], ◌∷◌, ◌++◌, Option, none, some,
  if◌then◌else◌, length,
}
use lotospp.Common.Task.{Task, has_expired}

pub data DispatcherState : Type 0 where
  running closing terminated : DispatcherState

pub record Dispatcher : Type 0 where
  pub task_list : List Task
  pub thread_state : DispatcherState
  pub locked : Bool

abbrev pub is_running : DispatcherState → Bool
is_running running = true
is_running _ = false

abbrev pub is_terminated : DispatcherState → Bool
is_terminated terminated = true
is_terminated _ = false

-- How a call ends.
pub data Ends {ℓ} (A : Type ℓ) : Type ℓ where
  done : A → Ends A
  deadlock : Ends A
  out_of_fuel : Ends A

-- A call of addTask: the task, and whether it goes to the front.
abbrev pub Added : Type 0
Added = Task × Bool

pub init : Dispatcher
init = record { task_list = []; thread_state = terminated; locked = false }

-- addTask, by a thread that does not hold the lock: the dispatcher, and whether the thread is
-- signalled. A task for a dispatcher that does not run is dropped.
pub put_task : Dispatcher → Added → Dispatcher × Bool
put_task d (task, push_front) =
    if is_running d.thread_state
    then (
      record d { task_list = if push_front then task ∷ d.task_list else d.task_list ++ task ∷ [] },
      elim d.task_list [ [] ↦ true | t ∷ ts ↦ false ],
    )
    else (d, false)

pub add_task : Dispatcher → Added → Ends (Dispatcher × Bool)
unfolding put_task
add_task d call = if d.locked then deadlock else done (put_task d call)

pub add_tasks : Dispatcher → List Added → Ends Dispatcher
unfolding add_task
add_tasks d [] = done d
add_tasks d (call ∷ calls) = elim (add_task d call) [
  | done (d', signal) ↦ add_tasks d' calls
  | deadlock ↦ deadlock
  | out_of_fuel ↦ out_of_fuel
]

-- `none` is the failed assertion.
pub start : Dispatcher → Option Dispatcher
start d = if is_terminated d.thread_state then some (record d { thread_state = running }) else none

pub stop : Dispatcher → Dispatcher
stop d = record d { thread_state = closing }

-- The rest of the program: its state, the functions of the tasks, sendAll and startExecutionFrame.
module _ {W : Type 0} (call : Task → W → W × List Added) (send_all : W → W × List Added)
    (start_frame : W → W) where
  -- A task runs, and then the messages are sent.
  pub execute : Dispatcher → W → Task → Ends (Dispatcher × W)
  unfolding add_tasks
  execute d w task =
      let (w₁, added₁) = call task w in
      let (w₂, added₂) = send_all w₁ in
      elim (add_tasks d (added₁ ++ added₂)) [
        | done d' ↦ done (d', w₂)
        | deadlock ↦ deadlock
        | out_of_fuel ↦ out_of_fuel
      ]

  -- A round of dispatcherThread behind its wait, on the tasks that wait, at time `now`.
  pub round_at : ℕ → Dispatcher → W → List Task → Ends (Dispatcher × W)
  unfolding execute
  round_at now d w [] = done (d, w)
  round_at now d w (task ∷ rest) =
      let popped = record d { task_list = rest } in
      if is_terminated d.thread_state
      then done (d, w)
      else if has_expired now task
      then done (popped, w)
      else execute popped (start_frame w) task

  pub round : ℕ → Dispatcher → W → Ends (Dispatcher × W)
  unfolding round_at
  round now d w = round_at now d w d.task_list

  -- One turn of flush's loop on the tasks that wait, before the turns `rest` that follow.
  pub flush_at :
      (Dispatcher → W → Ends (Dispatcher × W)) → Dispatcher → W → List Task → Ends (Dispatcher × W)
  unfolding execute
  flush_at more d w [] = done (d, w)
  flush_at more d w (task ∷ rest) = elim (execute (record d { task_list = rest }) w task) [
    | done (d', w') ↦ more d' w'
    | deadlock ↦ deadlock
    | out_of_fuel ↦ out_of_fuel
  ]

  -- `flush` runs every task, expired or not.
  pub flush : ℕ → Dispatcher → W → Ends (Dispatcher × W)
  unfolding flush_at
  flush zero d w = out_of_fuel
  flush (suc fuel) d w = flush_at (flush fuel) d w d.task_list

  pub shutdown : Dispatcher → W → Ends (Dispatcher × W)
  unfolding flush
  shutdown d w =
      elim (flush (suc (length d.task_list)) (record d { thread_state = terminated; locked = true })
        w) [
          | done (d', w') ↦ done (record d' { locked = false }, w')
          | deadlock ↦ deadlock
          | out_of_fuel ↦ out_of_fuel
        ]
