-- ===== src/Network/Connection.antt =====
-- A connection, src/Network/Connection.h and Connection.cpp.
-- Each method holds the connection's lock, which is recursive, so it is one step. What it hands to
-- others is counted in the record: the posted calls of closeConnectionTask (dispatcher), of
-- releaseConnection (scheduler) and of onStopOperation (io_service) that did not run yet, and the
-- calls of onStopOperation that did. What the sockets and the protocol answer are arguments.
mod Lifecycle
pub mod Steps
pub mod Silence
mod Tests
use lotospp.Base.{
  ℕ, suc, ◌+◌, ◌-◌, ◌%◌, ◌^◌, Bool, true, false, not, ◌&&◌, ◌||◌, List, [], ◌∷◌, ◌++◌, ltb, ◌==◌,
  if◌then◌else◌, ℤ, pos, increment, decrement, is_zero, is_positive,
}

pub data ConnectionState : Type 0 where
  state_open state_request_close state_closing state_closed : ConnectionState

-- What becomes of the socket: `deleted` once onStopOperation has run.
pub data Socket : Type 0 where
  opened closed deleted : Socket

-- The values of boost::system::error_code that the code tells apart.
pub data ErrorCode : Type 0 where
  success operation_aborted eof connection_reset connection_aborted other : ErrorCode

-- Static members are `log_error` alone; `protocol` says that m_protocol is set, `fault` that a
-- deleted socket was used, `written` and `queued` are the messages sent and put aside.
pub record Connection : Type 0 where
  pub state : ConnectionState
  pub socket : Socket
  pub received_first : Bool
  pub write_error : Bool
  pub read_error : Bool
  pub pending_write : ℤ
  pub pending_read : ℤ
  pub ref_count : ℕ
  pub protocol : Bool
  pub log_error : Bool
  pub close_tasks : ℕ
  pub release_events : ℕ
  pub stop_operations : ℕ
  pub stops : ℕ
  pub fault : Bool
  pub written : List ℕ
  pub queued : List ℕ

abbrev pub is_open : ConnectionState → Bool
is_open state_open = true
is_open _ = false

abbrev pub is_request_close : ConnectionState → Bool
is_request_close state_request_close = true
is_request_close _ = false

abbrev pub is_closed : ConnectionState → Bool
is_closed state_closed = true
is_closed _ = false

abbrev pub is_error : ErrorCode → Bool
is_error success = false
is_error _ = true

abbrev pub is_aborted : ErrorCode → Bool
is_aborted operation_aborted = true
is_aborted _ = false

-- A connection over an open socket.
pub init : Connection
init = record {
  state = state_open;
  socket = opened;
  received_first = false;
  write_error = false;
  read_error = false;
  pending_write = pos 0;
  pending_read = pos 0;
  ref_count = 0;
  protocol = false;
  log_error = true;
  close_tasks = 0;
  release_events = 0;
  stop_operations = 0;
  stops = 0;
  fault = false;
  written = [];
  queued = [];
}

pub close_connection : Connection → Connection
close_connection c =
    if is_closed c.state || is_request_close c.state
    then c
    else record c { state = state_request_close; close_tasks = suc c.close_tasks }

-- closeSocket, on what the socket is.
pub close_socket_at : Socket → Connection → Connection
close_socket_at opened c = record c { socket = closed; pending_read = pos 0; pending_write = pos 0 }
close_socket_at closed c = c
close_socket_at deleted c = record c { fault = true }

pub close_socket : Connection → Connection
unfolding close_socket_at
close_socket c = close_socket_at c.socket c

pub delete_connection_task : Connection → Connection
delete_connection_task c = record c { stop_operations = suc c.stop_operations }

pub release_connection : Connection → Connection
unfolding delete_connection_task
release_connection c =
    if ltb 0 c.ref_count
    then record c { release_events = suc c.release_events }
    else delete_connection_task c

pub close_connection_task : Connection → Connection
unfolding close_socket release_connection
close_connection_task c =
    let closing = record c { protocol = false; state = state_closing } in
    if is_request_close c.state
    then if is_zero closing.pending_write || closing.write_error
      then record (release_connection (close_socket closing)) { state = state_closed }
      else closing
    else c

-- The socket is closed if it is open, and deleted; it may be deleted already, which is a fault.
pub on_stop_operation : Connection → Connection
on_stop_operation c = record c {
  socket = deleted;
  stops = suc c.stops;
  fault = c.fault || elim c.socket [ deleted ↦ true | _ ↦ false ];
}

-- An asynchronous read is started; where boost throws, the connection is closed together with the
-- first error that is logged, and with that one only.
pub start_read : Connection → Bool → Connection
unfolding close_connection
start_read c starts =
    let reading = record c { pending_read = increment c.pending_read } in
    if starts
    then reading
    else if c.log_error
    then close_connection (record reading { log_error = false })
    else reading

-- acceptConnection without a protocol.
pub accept_connection : Connection → Bool → Connection
unfolding start_read
accept_connection = start_read

-- acceptConnection with a protocol that sends first: `on_connect` is its onConnect.
pub accept_with_protocol : Connection → (Connection → Connection) → Bool → Connection
unfolding accept_connection
accept_with_protocol c on_connect starts =
    accept_connection (on_connect (record c { protocol = true })) starts

pub handle_read_error : Connection → ErrorCode → Connection
unfolding close_connection
handle_read_error c error = record (if is_aborted error then c else close_connection c) {
  read_error = true;
}

pub handle_write_error : Connection → ErrorCode → Connection
unfolding close_connection
handle_write_error c error = record (if is_aborted error then c else close_connection c) {
  write_error = true;
}

-- The error that a read or a write reports, if it reports one.
pub check_read : Connection → ErrorCode → Connection
unfolding handle_read_error
check_read c error = if is_error error then handle_read_error c error else c

pub check_write : Connection → ErrorCode → Connection
unfolding handle_write_error
check_write c error = if is_error error then handle_write_error c error else c

-- A packet for an open connection. `makes` says whether the service makes a protocol, `handler` is
-- what the protocol does to the connection with the message, `starts` whether the next read starts.
pub deliver : Connection → Bool → (Connection → Connection) → Bool → Connection
unfolding close_connection start_read
deliver c makes handler starts =
    let first = record c { received_first = true } in
    if c.received_first || c.protocol
    then start_read (handler first) starts
    else if makes
    then start_read (handler (record first { protocol = true })) starts
    else close_connection first

pub parse_packet : Connection → ErrorCode → Bool → (Connection → Connection) → Bool → Connection
unfolding check_read close_connection deliver
parse_packet c error makes handler starts =
    let c' = check_read c error in
    if not (is_open c'.state) || c'.read_error
    then close_connection c'
    else deliver (record c' { pending_read = decrement c'.pending_read }) makes handler starts

pub on_write_operation : Connection → ErrorCode → Connection
unfolding check_write close_socket close_connection
on_write_operation c error =
    let c' = check_write c error in
    if not (is_open c'.state) || c'.write_error
    then close_connection (close_socket c')
    else record c' { pending_write = decrement c'.pending_write }

-- How the call of boost::asio::write ends: with an error code, and whether all bytes were written,
-- or by an exception before it.
pub data Written : Type 0 where
  wrote : ErrorCode → Bool → Written
  threw : Written

pub internal_send : Connection → ℕ → Written → Connection
unfolding on_write_operation
internal_send c msg threw = record c {
  pending_write = increment c.pending_write;
  log_error = false;
}
internal_send c msg (wrote error complete) =
    let c' =
      on_write_operation
        (record c { pending_write = increment c.pending_write; written = c.written ++ msg ∷ [] })
        error in
    record c' { log_error = c'.log_error && complete }

-- `false` means that the message was not taken.
pub send : Connection → ℕ → Written → Connection × Bool
unfolding internal_send
send c msg outcome =
    if not (is_open c.state) || c.write_error
    then (c, false)
    else if is_zero c.pending_write
    then (internal_send c msg outcome, true)
    else (record c { queued = c.queued ++ msg ∷ [] }, true)

pub on_read_timeout : Connection → Connection
unfolding close_socket close_connection
on_read_timeout c =
    if is_positive c.pending_read || c.read_error then close_connection (close_socket c) else c

pub on_write_timeout : Connection → Connection
unfolding close_socket close_connection
on_write_timeout c =
    if is_positive c.pending_write || c.write_error then close_connection (close_socket c) else c

-- handleWriteTimeout and handleReadTimeout: the weak pointer may have expired.
pub handle_timeout : (Connection → Connection) → Bool → ErrorCode → Connection → Connection
handle_timeout on_timeout expired error c = if is_aborted error || expired then c else on_timeout c

pub add_ref : Connection → Connection
add_ref c = record c { ref_count = (c.ref_count + 1) % 2 ^ 32 }

pub un_ref : Connection → Connection
un_ref c = record c { ref_count = (c.ref_count + 2 ^ 32 - 1) % 2 ^ 32 }
