-- ===== src/Common/Scheduler/Tests.antt =====
-- Schedulers at concrete inputs.
use lotospp.Base.{ℕ, ◌≤◌, ◌<◌, ◌≡◌, refl, true, false, List, [], ◌∷◌, some, arith}
use lotospp.Common.Scheduler.{
  Scheduler, SchedulerTask, running, insert, erase, last_id, add_event, stop_event, init,
  create_scheduler_task,
}
use lotospp.Common.Scheduler.Queue.{Queued}
use lotospp.Common.Scheduler.Invariant.{
  IsValid, Call, adds, starts, stops_event, wakes, run, step, add_event_id, run-init-IsValid,
}
use lotospp.Common.Scheduler.Drain.{
  timeouts, active_tasks, timeouts-active_tasks, timeouts-stop_event,
}

abbrev task : ℕ → ℕ → ℕ → SchedulerTask
task n id cycle = record { ident = n; function = n; event_id = id; cycle = cycle }

-- The last id is about to wrap.
abbrev worn : Scheduler
worn = record {
  last_event_id = last_id;
  event_list = task 1 4 10 ∷ task 2 7 30 ∷ [];
  event_ids = λ i. erase (λ j. true) 0 i;
  thread_state = running;
}

wraps : (add_event worn (task 3 0 20)).1.event_id ≡ 1
unfolding add_event
wraps = refl

short_delay :
    create_scheduler_task 1000 5 3 9
    ≡ some (record { ident = 5; function = 9; event_id = 0; cycle = 1020 })
unfolding create_scheduler_task
short_delay = refl

add_event_id_worn :
    (0 < (add_event worn (task 3 0 20)).1.event_id)
    × ((add_event worn (task 3 0 20)).1.event_id ≤ last_id)
    × ((add_event worn (task 3 0 20)).0.event_ids (add_event worn (task 3 0 20)).1.event_id ≡ true)
    × Queued (add_event worn (task 3 0 20)).1.event_id (add_event worn (task 3 0 20)).0.event_list
    × ((add_event worn (task 3 0 20)).0.last_event_id ≤ last_id)
    × (0 < 0 → (add_event worn (task 3 0 20)).1.event_id ≡ 0)
add_event_id_worn = add_event_id worn (task 3 0 20) refl (omega arith) (omega arith)

abbrev calls : List Call
calls = starts ∷ adds (task 1 0 30) ∷ adds (task 2 0 20) ∷ stops_event 1 ∷ wakes false ∷ []

abbrev reached : Scheduler
reached = record {
  last_event_id = 2;
  event_list = task 1 1 30 ∷ [];
  event_ids = erase (erase (insert (insert (λ j. false) 1) 2) 1) 2;
  thread_state = running;
}

run-init-IsValid_example : IsValid reached
unfolding run step init
run-init-IsValid_example = run-init-IsValid reached calls refl

timeouts-active_tasks_example :
    (s' : Scheduler) × (timeouts 2 worn ≡ some (s', active_tasks worn.event_ids worn.event_list))
    × (s'.event_list ≡ [])
timeouts-active_tasks_example =
    timeouts-active_tasks (task 1 4 10 ∷ task 2 7 30 ∷ []) worn refl refl (omega arith)

timeouts-stop_event_example :
    (s' : Scheduler) × ((stop_event worn 4).1 ≡ true)
    × (timeouts 2 (stop_event worn 4).0
        ≡ some (s', active_tasks (erase worn.event_ids 4) worn.event_list))
    × (s'.event_list ≡ [])
timeouts-stop_event_example = timeouts-stop_event worn 4 refl refl refl (omega arith)
