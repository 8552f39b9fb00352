-- ===== src/Common/Dispatcher/Rounds.antt =====
-- The dispatcher thread of src/Common/Dispatcher.cpp: tasks run first in, first out.
use lotospp.Base.{
  ℕ, zero, suc, ◌≡◌, refl, inl, inr, true, false, List, [], ◌∷◌, ◌++◌, if◌then◌else◌, length, arith,
  Bool-cases, append-nil, append_assoc,
}
use lotospp.Common.Task.{Task, has_expired}
use lotospp.Common.Dispatcher.{
  Dispatcher, is_running, is_terminated, Ends, done, deadlock, out_of_fuel, Added, put_task,
  add_task, add_tasks, execute, round_at, round,
}

-- The calls as addTask makes them by default, at the end of the list.
abbrev pub at_end : List Task → List Added
at_end [] = []
at_end (t ∷ ts) = (t, false) ∷ at_end ts

-- A running dispatcher takes the tasks in the order of the calls, behind those that wait.
pub add_tasks-at_end :
    (ts : List Task) (d : Dispatcher)
    → is_running d.thread_state ≡ true
    → d.locked ≡ false
    → add_tasks d (at_end ts) ≡ done (record d { task_list = d.task_list ++ ts })
unfolding add_tasks add_task put_task
add_tasks-at_end [] d r l = ground (arith, append-nil d.task_list)
add_tasks-at_end (t ∷ ts) d r l = ground (
  arith,
  add_tasks-at_end ts (record d { task_list = d.task_list ++ t ∷ [] }),
  append_assoc d.task_list (t ∷ []) ts,
)

module _ {W : Type 0} (call : Task → W → W × List Added) (send_all : W → W × List Added)
    (start_frame : W → W) where
  -- `n` rounds at time `now`.
  unfoldable pub rounds : ℕ → ℕ → Dispatcher → W → Ends (Dispatcher × W)
  rounds zero now d w = done (d, w)
  rounds (suc n) now d w = elim (round call send_all start_frame now d w) [
    | done (d', w') ↦ rounds n now d' w'
    | deadlock ↦ deadlock
    | out_of_fuel ↦ out_of_fuel
  ]

  -- The state after the tasks that did not expire have run in this order, each in a frame of its own
  -- and with its messages sent.
  unfoldable pub after_tasks : ℕ → List Task → W → W
  after_tasks now [] w = w
  after_tasks now (t ∷ ts) w =
      if has_expired now t
      then after_tasks now ts w
      else after_tasks now ts (send_all (call t (start_frame w)).0).0

  -- No task and no sending of messages adds a task.
  abbrev pub IsQuiet : Type 0
  IsQuiet = (t : Task) (w : W) → ((call t w).1 ≡ []) × ((send_all w).1 ≡ [])

  -- Where nothing adds tasks, as many rounds as tasks wait empty the list of a dispatcher that has not
  -- ended, and run the tasks that did not expire in the order of the list, once each.
  pub rounds-after_tasks :
      (ts : List Task) (now : ℕ) (d : Dispatcher) (w : W)
      → IsQuiet
      → d.task_list ≡ ts
      → is_terminated d.thread_state ≡ false
      → rounds (length ts) now d w ≡ done (record d { task_list = [] }, after_tasks now ts w)
  unfolding rounds after_tasks round round_at execute add_tasks
  rounds-after_tasks [] now d w q l r = ground arith
  rounds-after_tasks (t ∷ ts) now d w q l r = elim (Bool-cases (has_expired now t)) [
    | inl late ↦ ground (arith, rounds-after_tasks ts now (record d { task_list = ts }) w q refl r)
    | inr fine ↦
        let w₁ : W = (call t (start_frame w)).0 in
        ground (
          arith,
          q t (start_frame w),
          q t w₁,
          rounds-after_tasks ts now (record d { task_list = ts }) (send_all w₁).0 q refl r,
        )
  ]
