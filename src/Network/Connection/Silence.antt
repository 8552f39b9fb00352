-- ===== src/Network/Connection/Silence.antt =====
-- A connection of src/Network/Connection.cpp that is not open: it takes no message any more.
use lotospp.Base.{◌≡◌, refl, ◌∙◌, Bool, false, arith}
use lotospp.Network.Connection.{
  Connection, ErrorCode, is_open, close_connection, close_connection_task, close_socket,
  release_connection, delete_connection_task, on_stop_operation, start_read, accept_connection,
  check_read, parse_packet, send, on_read_timeout, on_write_timeout, handle_timeout, add_ref,
  un_ref,
}
use lotospp.Network.Connection.Steps.{
  Step, Reach, closes, runs_close, runs_release, runs_stop, accepts, reads, sends, write_times_out,
  read_times_out, refs, unrefs, here, next,
}

-- What does not change any more.
pub record SameMessages (c d : Connection) : Type 0 where
  pub not_open : is_open d.state ≡ false
  pub written : d.written ≡ c.written
  pub queued : d.queued ≡ c.queued

check_read-SameMessages :
    (c : Connection) (error : ErrorCode)
    → is_open c.state ≡ false
    → SameMessages c (check_read c error)
unfolding check_read close_connection
check_read-SameMessages c error o = ground arith

close_connection-SameMessages :
    (c : Connection) → is_open c.state ≡ false → SameMessages c (close_connection c)
unfolding close_connection
close_connection-SameMessages c o = ground arith

parse_packet-SameMessages :
    (c : Connection) (error : ErrorCode) (makes : Bool) (handler : Connection → Connection)
    (starts : Bool)
    → is_open c.state ≡ false
    → SameMessages c (parse_packet c error makes handler starts)
unfolding parse_packet
parse_packet-SameMessages c error makes handler starts o =
    let w = check_read-SameMessages c error o in
    let u = close_connection-SameMessages (check_read c error) w.not_open in
    rw (w.not_open, parse_packet)
      (record {
        not_open = u.not_open;
        written = u.written ∙ w.written;
        queued = u.queued ∙ w.queued;
      })

pub Step-SameMessages : {c d : Connection} → Step c d → is_open c.state ≡ false → SameMessages c d
unfolding accept_connection start_read add_ref un_ref close_connection close_connection_task
    close_socket release_connection delete_connection_task on_stop_operation send handle_timeout
    on_write_timeout on_read_timeout
Step-SameMessages closes o = ground arith
Step-SameMessages (runs_close h) o = ground arith
Step-SameMessages (runs_release h) o = ground arith
Step-SameMessages (runs_stop h) o = ground arith
Step-SameMessages (accepts starts) o = ground arith
Step-SameMessages {c} (reads error makes handler starts k) o =
    parse_packet-SameMessages c error makes handler starts o
Step-SameMessages (sends msg outcome) o = ground arith
Step-SameMessages (write_times_out expired error h) o = ground arith
Step-SameMessages (read_times_out expired error h) o = ground arith
Step-SameMessages refs o = ground arith
Step-SameMessages unrefs o = ground arith

-- Once a connection is not open, no step in any order opens it again, sends a message over it or
-- puts one aside for it.
pub Reach-SameMessages : {c d : Connection} → Reach c d → is_open c.state ≡ false → SameMessages c d
Reach-SameMessages here o = record { not_open = o; written = refl; queued = refl }
Reach-SameMessages (next r s) o =
    let w = Reach-SameMessages r o in
    let u = Step-SameMessages s w.not_open in
    record { not_open = u.not_open; written = u.written ∙ w.written; queued = u.queued ∙ w.queued }
