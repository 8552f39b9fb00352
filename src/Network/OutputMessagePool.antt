-- ===== src/Network/OutputMessagePool.antt =====
-- The pool of messages of src/Network/OutputMessage.h and OutputMessage.cpp. A message is its place in
-- the order of their creation; its bytes are those of NetworkMessage, which getOutputMessage resets.
-- What Connection::send answers and the clock are arguments.
pub mod Send
pub mod Single
pub mod Release
mod Tests
use lotospp.Base.{
  ℕ, zero, suc, ◌+◌, ◌-◌, ◌%◌, ◌^◌, Bool, true, false, not, List, [], ◌∷◌, ◌++◌, Option, none, some,
  ltb, ◌==◌, if◌then◌else◌,
}

pub data MessageState : Type 0 where
  free allocated allocated_no_autosend waiting : MessageState

pub record OutputMessage : Type 0 where
  pub state : MessageState
  pub protocol : Option ℕ
  pub connection : Option ℕ
  pub frame : ℕ

-- freeMessage.
abbrev pub free_message : OutputMessage
free_message = record { state = free; protocol = none; connection = none; frame = 0 }

-- `created` counts the messages; the references are those of all protocols and connections.
pub record Pool : Type 0 where
  pub created : ℕ
  pub messages : ℕ → OutputMessage
  pub output_messages : List ℕ
  pub auto_send : List ℕ
  pub to_add : List ℕ
  pub frame_time : ℕ
  pub is_open : Bool
  pub protocol_refs : ℕ → ℕ
  pub connection_refs : ℕ → ℕ

abbrev pub set_message : Pool → ℕ → OutputMessage → ℕ → OutputMessage
set_message p id m i = if i == id then m else p.messages i

-- addRef and unRef on a uint32_t.
unfoldable pub increment : ℕ → ℕ
increment n = (n + 1) % 2 ^ 32

unfoldable pub decrement : ℕ → ℕ
decrement n = (n + (2 ^ 32 - 1)) % 2 ^ 32

abbrev pub change : (ℕ → ℕ) → (ℕ → ℕ) → ℕ → ℕ → ℕ
change f refs x y = if y == x then f (refs y) else refs y

pub start_execution_frame : ℕ → Pool → Pool
start_execution_frame now p = record p { frame_time = now; is_open = true }

pub stop : Pool → Pool
stop p = record p { is_open = false }

-- The last of the messages `id` and those behind it, and the others.
pub pop_back : ℕ → List ℕ → List ℕ × ℕ
pop_back id [] = ([], id)
pop_back id (next ∷ ids) = let (others, last) = pop_back next ids in (id ∷ others, last)

-- A message off the pool's list; a new one where the list is empty.
pub take_from : Pool → List ℕ → Pool × ℕ
take_from p [] = (
  record p { created = p.created + 1; messages = set_message p p.created free_message },
  p.created,
)
take_from p (id ∷ ids) =
    let (others, last) = pop_back id ids in (record p { output_messages = others }, last)

pub take_message : Pool → Pool × ℕ
take_message p = take_from p p.output_messages

pub configure : Pool → ℕ → ℕ → ℕ → Bool → Pool
configure p id protocol connection autosend = record p {
  messages = set_message p id (record {
    state = if autosend then allocated else allocated_no_autosend;
    protocol = some protocol;
    connection = some connection;
    frame = p.frame_time;
  });
  auto_send = if autosend then p.auto_send ++ id ∷ [] else p.auto_send;
  protocol_refs = change increment p.protocol_refs protocol;
  connection_refs = change increment p.connection_refs connection;
}

-- getOutputMessage for a protocol with the connection `conn`.
pub get_output_message : Pool → ℕ → Option ℕ → Bool → Pool × Option ℕ
get_output_message p protocol none autosend = (p, none)
get_output_message p protocol (some connection) autosend =
    let (q, id) = take_message p in
    if not p.is_open then (p, none) else (configure q id protocol connection autosend, some id)

abbrev pub unref : (ℕ → ℕ) → Option ℕ → ℕ → ℕ
unref refs none y = refs y
unref refs (some x) y = change decrement refs x y

pub internal_release : Pool → ℕ → Pool
internal_release p id =
    let m : OutputMessage = p.messages id in
    record p {
      messages = set_message p id free_message;
      output_messages = p.output_messages ++ id ∷ [];
      protocol_refs = unref p.protocol_refs m.protocol;
      connection_refs = unref p.connection_refs m.connection;
    }

pub add_to_auto_send : Pool → ℕ → Pool
add_to_auto_send p id = record p { to_add = p.to_add ++ id ∷ [] }

-- What sendAll does with a message: it is too old and goes to onSendMessage, Connection::send takes it,
-- or refuses it and it goes to onSendMessage, or it has no connection.
pub data Sent : Type 0 where
  dropped : ℕ → Sent
  sent refused : ℕ → ℕ → Sent
  no_connection : ℕ → Sent

-- read_timeout * 1000; SYS_TIME and the frames are unsigned words of 64 bits.
abbrev pub max_age : ℕ
max_age = 30000

pub is_old : ℕ → ℕ → Bool
is_old now frame = ltb max_age ((now + 2 ^ 64 - frame) % 2 ^ 64)

-- The first loop of sendAll.
pub queue_loop : ℕ → List ℕ → Pool → Pool × List Sent
queue_loop now [] p = (p, [])
queue_loop now (id ∷ ids) p =
    let m : OutputMessage = p.messages id in
    let (q, es) = queue_loop now ids p in
    let queued : Pool = record p {
      messages = set_message p id (record m { state = allocated });
      auto_send = p.auto_send ++ id ∷ [];
    } in
    let (q', es') = queue_loop now ids queued in
    if is_old now m.frame then (q, dropped id ∷ es) else (q', es')

pub deliver : (ℕ → ℕ → Bool) → ℕ → Option ℕ → Sent
deliver send id none = no_connection id
deliver send id (some connection) =
    if send connection id then sent connection id else refused connection id

-- The second loop of sendAll.
pub send_loop : (ℕ → ℕ → Bool) → Pool → List ℕ → List Sent
send_loop send p [] = []
send_loop send p (id ∷ ids) = deliver send id (p.messages id).connection ∷ send_loop send p ids

pub send_all : ℕ → (ℕ → ℕ → Bool) → Pool → Pool × List Sent
send_all now send p =
    let (q, es) = queue_loop now p.to_add p in
    (record q { to_add = []; auto_send = [] }, es ++ send_loop send q q.auto_send)

abbrev pub is_single : MessageState → Bool
is_single allocated_no_autosend = true
is_single _ = false

-- `none` where the state is another, and only a warning is written.
pub send_single : (ℕ → ℕ → Bool) → Pool → ℕ → Option Sent
send_single send p id =
    if is_single (p.messages id).state
    then some (deliver send id (p.messages id).connection)
    else none
