-- ===== src/Common/Dispatcher/Shutdown.antt =====
-- Shutting the dispatcher of src/Common/Dispatcher.cpp down.
use lotospp.Base.{suc, ◌≡◌, refl, true, false, List, [], ◌∷◌, ◌++◌, length, arith}
use lotospp.Common.Task.{Task}
use lotospp.Common.Dispatcher.{
  Dispatcher, terminated, done, deadlock, Added, add_task, add_tasks, execute, flush_at, flush,
  shutdown,
}
use lotospp.Common.Dispatcher.Rounds.{IsQuiet}

module _ {W : Type 0} (call : Task → W → W × List Added) (send_all : W → W × List Added)
    (start_frame : W → W) where
  -- The state after all tasks have run in this order, expired or not.
  unfoldable pub after_flush : List Task → W → W
  after_flush [] w = w
  after_flush (t ∷ ts) w = after_flush ts (send_all (call t w).0).0

  flush-after_flush :
      (ts : List Task) (d : Dispatcher) (w : W)
      → IsQuiet call send_all start_frame
      → d.task_list ≡ ts
      → flush call send_all start_frame (suc (length ts)) d w
        ≡ done (record d { task_list = [] }, after_flush ts w)
  unfolding flush flush_at execute add_tasks after_flush
  flush-after_flush [] d w q l = ground arith
  flush-after_flush (t ∷ ts) d w q l = ground (
    arith,
    q t w,
    q t (call t w).0,
    flush-after_flush ts (record d { task_list = ts }) (send_all (call t w).0).0 q refl,
  )

  -- Where nothing adds tasks, `shutdown` ends, with the dispatcher terminated and unlocked, no task
  -- waiting, and every task that waited run once in order, expired or not.
  pub shutdown-after_flush :
      (d : Dispatcher) (w : W)
      → IsQuiet call send_all start_frame
      → shutdown call send_all start_frame d w
        ≡ done (
          record d { task_list = []; thread_state = terminated; locked = false },
          after_flush d.task_list w,
        )
  unfolding shutdown
  shutdown-after_flush d w q = rw (
    flush-after_flush d.task_list (record d { thread_state = terminated; locked = true }) w q refl,
    shutdown,
  )

  -- If the first task that waits adds a task while it runs, or its sending of messages does,
  -- `shutdown` never returns: it holds the lock that addTask waits for.
  pub shutdown_deadlock :
      (d : Dispatcher) (w : W) (t : Task) (ts : List Task) (a : Added) (added : List Added)
      → d.task_list ≡ t ∷ ts
      → (call t w).1 ++ (send_all (call t w).0).1 ≡ a ∷ added
      → shutdown call send_all start_frame d w ≡ deadlock
  unfolding shutdown flush flush_at execute add_tasks add_task
  shutdown_deadlock d w t ts a added l e = ground arith
