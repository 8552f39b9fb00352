-- ===== src/Network/Connection/Lifecycle.antt =====
-- What each method of src/Network/Connection.cpp does to the connection's invariant.
use lotospp.Base.{
  ℕ, ◌+◌, ◌-◌, ◌<◌, ◌≡◌, refl, ◌∙◌, inl, inr, Bool, true, false, not, ◌||◌, [], ◌∷◌, ◌++◌,
  if◌then◌else◌, increment, decrement, is_zero, is_positive, arith, Bool-cases,
}
use lotospp.Network.Connection.{
  Connection, opened, deleted, ErrorCode, is_open, is_request_close, is_closed, init,
  close_connection, close_socket, delete_connection_task, release_connection, close_connection_task,
  on_stop_operation, start_read, check_read, check_write, deliver, parse_packet, on_write_operation,
  Written, wrote, threw, internal_send, send, on_read_timeout, on_write_timeout,
}

-- A close task is outstanding exactly while a close is requested, and the release of the connection is
-- under way or done, once, exactly when it is closed. An open connection has its socket, a socket is
-- deleted only by the stop, and no deleted socket was used.
pub record IsValid (c : Connection) : Type 0 where
  pub tasks : c.close_tasks ≡ (if is_request_close c.state then 1 else 0)
  pub releases :
      c.release_events + c.stop_operations + c.stops ≡ (if is_closed c.state then 1 else 0)
  pub live : is_open c.state ≡ true → c.socket ≡ opened
  pub gone : c.socket ≡ deleted → c.stops ≡ 1
  pub safe : c.fault ≡ false

pub init-IsValid : IsValid init
unfolding init
init-IsValid = record {
  tasks = refl;
  releases = omega arith;
  live = λ e. refl;
  gone = λ e. cc;
  safe = refl;
}

pub close_connection-IsValid : (c : Connection) → IsValid c → IsValid (close_connection c)
unfolding close_connection
close_connection-IsValid c v = ground arith

-- The socket is closed and then the connection, in whatever state it is, if nothing stopped it yet.
shut-IsValid :
    (c : Connection) → c.stops ≡ 0 → IsValid c → IsValid (close_connection (close_socket c))
unfolding close_connection close_socket
shut-IsValid c s v = ground arith

pub close_connection_task-IsValid :
    (c : Connection)
    → 0 < c.close_tasks
    → IsValid c
    → IsValid (close_connection_task (record c { close_tasks = c.close_tasks - 1 }))
unfolding close_connection_task close_socket release_connection delete_connection_task
close_connection_task-IsValid c h v = ground arith

pub release_connection-IsValid :
    (c : Connection)
    → 0 < c.release_events
    → IsValid c
    → IsValid (release_connection (record c { release_events = c.release_events - 1 }))
unfolding release_connection delete_connection_task
release_connection-IsValid c h v = ground arith

pub on_stop_operation-IsValid :
    (c : Connection)
    → 0 < c.stop_operations
    → IsValid c
    → IsValid (on_stop_operation (record c { stop_operations = c.stop_operations - 1 }))
unfolding on_stop_operation
on_stop_operation-IsValid c h v = ground arith

pub start_read-IsValid :
    (c : Connection) (starts : Bool) → IsValid c → IsValid (start_read c starts)
unfolding start_read close_connection
start_read-IsValid c starts v = ground arith

check_read-IsValid : (c : Connection) (error : ErrorCode) → IsValid c → IsValid (check_read c error)
unfolding check_read close_connection
check_read-IsValid c error v = ground arith

check_write-IsValid :
    (c : Connection) (error : ErrorCode) → IsValid c → IsValid (check_write c error)
unfolding check_write close_connection
check_write-IsValid c error v = ground arith

check_write-stops : (c : Connection) (error : ErrorCode) → (check_write c error).stops ≡ c.stops
unfolding check_write close_connection
check_write-stops c error = ground arith

-- A protocol's handler that keeps the invariant, as every chain of steps does.
abbrev pub Keeps : (Connection → Connection) → Type 0
Keeps handler = (c : Connection) → IsValid c → IsValid (handler c)

deliver-IsValid :
    (c : Connection) (makes : Bool) (handler : Connection → Connection) (starts : Bool)
    → Keeps handler
    → IsValid c
    → IsValid (deliver c makes handler starts)
unfolding deliver
deliver-IsValid c makes handler starts k v = elim (Bool-cases (c.received_first || c.protocol)) [
  | inl known ↦
      rw (known, deliver)
        (start_read-IsValid _ starts (k (record c { received_first = true }) (ground arith)))
  | inr new ↦ elim (Bool-cases makes) [
    | inl made ↦
        rw (new, made, deliver)
          (start_read-IsValid _ starts
            (k (record c { received_first = true; protocol = true }) (ground arith)))
    | inr none_made ↦
        rw (new, none_made, deliver)
          (close_connection-IsValid (record c { received_first = true }) (ground arith))
  ]
]

pub parse_packet-IsValid :
    (c : Connection) (error : ErrorCode) (makes : Bool) (handler : Connection → Connection)
    (starts : Bool)
    → Keeps handler
    → IsValid c
    → IsValid (parse_packet c error makes handler starts)
unfolding parse_packet
parse_packet-IsValid c error makes handler starts k v =
    let w = check_read-IsValid c error v in
    elim (Bool-cases
      (not (is_open (check_read c error).state) || (check_read c error).read_error)) [
        | inl bad ↦ rw (bad, parse_packet) (close_connection-IsValid (check_read c error) w)
        | inr good ↦
            rw (good, parse_packet)
              (deliver-IsValid
                (record (check_read c error) {
                  pending_read = decrement (check_read c error).pending_read;
                })
                makes handler starts k
                (record {
                  tasks = w.tasks;
                  releases = w.releases;
                  live = w.live;
                  gone = w.gone;
                  safe = w.safe;
                }))
      ]

on_write_operation-IsValid :
    (c : Connection) (error : ErrorCode)
    → c.stops ≡ 0
    → IsValid c
    → IsValid (on_write_operation c error)
unfolding on_write_operation
on_write_operation-IsValid c error s v =
    let w = check_write-IsValid c error v in
    elim (Bool-cases
      (not (is_open (check_write c error).state) || (check_write c error).write_error)) [
        | inl bad ↦
            rw (bad, on_write_operation)
              (shut-IsValid (check_write c error) (check_write-stops c error ∙ s) w)
        | inr good ↦
            rw (good, on_write_operation)
              (record {
                tasks = w.tasks;
                releases = w.releases;
                live = w.live;
                gone = w.gone;
                safe = w.safe;
              })
      ]

internal_send-IsValid :
    (c : Connection) (msg : ℕ) (outcome : Written)
    → c.stops ≡ 0
    → IsValid c
    → IsValid (internal_send c msg outcome)
unfolding internal_send
internal_send-IsValid c msg threw s v = record {
  tasks = v.tasks;
  releases = v.releases;
  live = v.live;
  gone = v.gone;
  safe = v.safe;
}
internal_send-IsValid c msg (wrote error complete) s v =
    let w =
      on_write_operation-IsValid
        (record c { pending_write = increment c.pending_write; written = c.written ++ msg ∷ [] })
        error s
        (record {
          tasks = v.tasks;
          releases = v.releases;
          live = v.live;
          gone = v.gone;
          safe = v.safe;
        }) in
    record { tasks = w.tasks; releases = w.releases; live = w.live; gone = w.gone; safe = w.safe }

pub send-IsValid :
    (c : Connection) (msg : ℕ) (outcome : Written) → IsValid c → IsValid (send c msg outcome).0
unfolding send
send-IsValid c msg outcome v = elim (Bool-cases (not (is_open c.state) || c.write_error)) [
  | inl refused ↦ rw (refused, send) v
  | inr taken ↦ elim (Bool-cases (is_zero c.pending_write)) [
    | inl idle ↦ rw (taken, idle, send) (internal_send-IsValid c msg outcome (ground arith) v)
    | inr busy ↦
        rw (taken, busy, send)
          (record {
            tasks = v.tasks;
            releases = v.releases;
            live = v.live;
            gone = v.gone;
            safe = v.safe;
          })
  ]
]

pub on_write_timeout-IsValid :
    (c : Connection) → c.stops ≡ 0 → IsValid c → IsValid (on_write_timeout c)
unfolding on_write_timeout
on_write_timeout-IsValid c s v = elim (Bool-cases (is_positive c.pending_write || c.write_error)) [
  | inl late ↦ rw (late, on_write_timeout) (shut-IsValid c s v)
  | inr fine ↦ rw (fine, on_write_timeout) v
]

pub on_read_timeout-IsValid :
    (c : Connection) → c.stops ≡ 0 → IsValid c → IsValid (on_read_timeout c)
unfolding on_read_timeout
on_read_timeout-IsValid c s v = elim (Bool-cases (is_positive c.pending_read || c.read_error)) [
  | inl late ↦ rw (late, on_read_timeout) (shut-IsValid c s v)
  | inr fine ↦ rw (fine, on_read_timeout) v
]
