-- ===== src/Common/Dispatcher/Tests.antt =====
-- Dispatchers at concrete inputs.
use lotospp.Base.{ℕ, ◌≡◌, refl, true, false, List, [], ◌∷◌, ◌++◌, none, some}
use lotospp.Common.Task.{Task, has_expired}
use lotospp.Common.Dispatcher.{
  Dispatcher, running, terminated, done, deadlock, Added, add_tasks, shutdown,
}
use lotospp.Common.Dispatcher.Rounds.{
  at_end, add_tasks-at_end, rounds, after_tasks, rounds-after_tasks,
}
use lotospp.Common.Dispatcher.Shutdown.{after_flush, shutdown-after_flush, shutdown_deadlock}

-- The rest of the program as the list of the functions that were called.
abbrev log_call : Task → List ℕ → List ℕ × List Added
log_call t w = (w ++ t.function ∷ [], [])

abbrev log_and_add : Task → List ℕ → List ℕ × List Added
log_and_add t w = (w ++ t.function ∷ [], (t, true) ∷ [])

abbrev send_nothing : List ℕ → List ℕ × List Added
send_nothing w = (w, [])

abbrev same_frame : List ℕ → List ℕ
same_frame w = w

abbrev tasks : List Task
tasks =
    record { function = 1; expiration = none }
    ∷ record { function = 2; expiration = some 5 }
    ∷ record { function = 3; expiration = some 90 }
    ∷ []

abbrev waiting : Dispatcher
waiting = record { task_list = tasks; thread_state = running; locked = false }

expired_is_skipped : after_tasks log_call send_nothing same_frame 50 tasks [] ≡ 1 ∷ 3 ∷ []
unfolding after_tasks has_expired
expired_is_skipped = refl

expired_is_flushed : after_flush log_call send_nothing same_frame tasks [] ≡ 1 ∷ 2 ∷ 3 ∷ []
unfolding after_flush
expired_is_flushed = refl

tasks_are_added :
    add_tasks waiting (at_end tasks) ≡ done (record waiting { task_list = tasks ++ tasks })
tasks_are_added = add_tasks-at_end tasks waiting refl refl

rounds-after_tasks_example :
    rounds log_call send_nothing same_frame 3 50 waiting []
    ≡ done (
      record waiting { task_list = [] },
      after_tasks log_call send_nothing same_frame 50 tasks [],
    )
rounds-after_tasks_example =
    rounds-after_tasks log_call send_nothing same_frame tasks 50 waiting [] (λ t w. (refl, refl))
      refl refl

shutdown-after_flush_example :
    shutdown log_call send_nothing same_frame waiting []
    ≡ done (
      record waiting { task_list = []; thread_state = terminated; locked = false },
      after_flush log_call send_nothing same_frame tasks [],
    )
shutdown-after_flush_example =
    shutdown-after_flush log_call send_nothing same_frame waiting [] (λ t w. (refl, refl))

sender_is_stuck : shutdown log_and_add send_nothing same_frame waiting [] ≡ deadlock
sender_is_stuck =
    shutdown_deadlock log_and_add send_nothing same_frame waiting []
      (record { function = 1; expiration = none })
      (record { function = 2; expiration = some 5 }
        ∷ record { function = 3; expiration = some 90 }
        ∷ [])
      (record { function = 1; expiration = none }, true) [] refl refl
