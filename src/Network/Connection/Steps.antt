-- ===== src/Network/Connection/Steps.antt =====
-- The life of a connection of src/Network/Connection.cpp, as the steps that its callers, its timers
-- and the threads that run its tasks can take in any order.
use lotospp.Base.{ℕ, ◌-◌, ◌<◌, ◌≡◌, ◌⊎◌, inl, inr, Bool, true, ◌||◌, arith, Bool-cases}
use lotospp.Network.Connection.{
  Connection, ErrorCode, is_aborted, close_connection, close_connection_task, release_connection,
  on_stop_operation, accept_connection, parse_packet, Written, send, on_read_timeout,
  on_write_timeout, handle_timeout, add_ref, un_ref,
}
use lotospp.Network.Connection.Lifecycle.{
  IsValid, Keeps, close_connection-IsValid, close_connection_task-IsValid,
  release_connection-IsValid, on_stop_operation-IsValid, start_read-IsValid, parse_packet-IsValid,
  send-IsValid, on_write_timeout-IsValid, on_read_timeout-IsValid,
}

-- A call from outside, or a posted task that runs. A timer finds the weak pointer expired once the
-- connection was stopped.
pub data Step (c : Connection) : Connection → Type 0 where
  closes : Step c (close_connection c)
  runs_close :
      0 < c.close_tasks
      → Step c (close_connection_task (record c { close_tasks = c.close_tasks - 1 }))
  runs_release :
      0 < c.release_events
      → Step c (release_connection (record c { release_events = c.release_events - 1 }))
  runs_stop :
      0 < c.stop_operations
      → Step c (on_stop_operation (record c { stop_operations = c.stop_operations - 1 }))
  accepts : (starts : Bool) → Step c (accept_connection c starts)
  reads :
      (error : ErrorCode) (makes : Bool) (handler : Connection → Connection) (starts : Bool)
      → Keeps handler
      → Step c (parse_packet c error makes handler starts)
  sends : (msg : ℕ) (outcome : Written) → Step c (send c msg outcome).0
  write_times_out :
      (expired : Bool) (error : ErrorCode)
      → (expired ≡ true) ⊎ (c.stops ≡ 0)
      → Step c (handle_timeout on_write_timeout expired error c)
  read_times_out :
      (expired : Bool) (error : ErrorCode)
      → (expired ≡ true) ⊎ (c.stops ≡ 0)
      → Step c (handle_timeout on_read_timeout expired error c)
  refs : Step c (add_ref c)
  unrefs : Step c (un_ref c)

pub data Reach (c : Connection) : Connection → Type 0 where
  here : Reach c c
  next : {d e : Connection} → Reach c d → Step d e → Reach c e

handle_timeout-IsValid :
    (on_timeout : Connection → Connection) (c : Connection) (expired : Bool) (error : ErrorCode)
    → (c.stops ≡ 0 → IsValid (on_timeout c))
    → (expired ≡ true) ⊎ (c.stops ≡ 0)
    → IsValid c
    → IsValid (handle_timeout on_timeout expired error c)
unfolding handle_timeout
handle_timeout-IsValid on_timeout c expired error k h v =
    elim (Bool-cases (is_aborted error || expired)) [
      | inl ignored ↦ rw (ignored, handle_timeout) v
      | inr runs ↦ rw (runs, handle_timeout) (k (ground arith))
    ]

pub Step-IsValid : {c d : Connection} → Step c d → IsValid c → IsValid d
unfolding accept_connection add_ref un_ref
Step-IsValid {c} closes v = close_connection-IsValid c v
Step-IsValid {c} (runs_close h) v = close_connection_task-IsValid c h v
Step-IsValid {c} (runs_release h) v = release_connection-IsValid c h v
Step-IsValid {c} (runs_stop h) v = on_stop_operation-IsValid c h v
Step-IsValid {c} (accepts starts) v = start_read-IsValid c starts v
Step-IsValid {c} (reads error makes handler starts k) v =
    parse_packet-IsValid c error makes handler starts k v
Step-IsValid {c} (sends msg outcome) v = send-IsValid c msg outcome v
Step-IsValid {c} (write_times_out expired error h) v =
    handle_timeout-IsValid on_write_timeout c expired error (λ s. on_write_timeout-IsValid c s v) h
      v
Step-IsValid {c} (read_times_out expired error h) v =
    handle_timeout-IsValid on_read_timeout c expired error (λ s. on_read_timeout-IsValid c s v) h v
Step-IsValid refs v = record {
  tasks = v.tasks;
  releases = v.releases;
  live = v.live;
  gone = v.gone;
  safe = v.safe;
}
Step-IsValid unrefs v = record {
  tasks = v.tasks;
  releases = v.releases;
  live = v.live;
  gone = v.gone;
  safe = v.safe;
}
