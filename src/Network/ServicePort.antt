-- ===== src/Network/ServicePort.antt =====
-- A port that the server listens on: src/Network/ServicePort.h and ServicePort.cpp, built with IPv6 as by
-- default. An acceptor is a number, and what the system answers is an argument. The log is left out, and
-- m_logError with it, which nothing else reads.
pub mod Restart
mod Tests
use lotospp.Base.{
  ℕ, zero, suc, ◌+◌, ◌-◌, Bool, true, false, not, ◌&&◌, ◌||◌, List, [], ◌∷◌, ◌++◌, map, Option,
  none, some, if◌then◌else◌, codes,
}

-- Service.h: whether the protocol sends first, and its name.
pub record Service : Type 0 where
  pub single_socket : Bool
  pub protocol_name : List ℕ

-- What a port calls, in the order of the calls. A connection is given a protocol, or none yet; an event
-- opens the port of that number after five seconds.
pub data PortCall : Type 0 where
  async_accept close_acceptor add_event : ℕ → PortCall
  accept_connection : Bool → PortCall
  close_socket : PortCall

-- `next` numbers the acceptors; `scheduled` are the events that have not run.
pub record ServicePort : Type 0 where
  pub acceptors : List ℕ
  pub services : List Service
  pub server_port : ℕ
  pub pending_start : Bool
  pub next : ℕ
  pub scheduled : ℕ
  pub calls : List PortCall

abbrev pub new_port : ServicePort
new_port = record {
  acceptors = [];
  services = [];
  server_port = 0;
  pending_start = false;
  next = 0;
  scheduled = 0;
  calls = [];
}

pub call : PortCall → ServicePort → ServicePort
call c p = record p { calls = p.calls ++ c ∷ [] }

abbrev pub is_single_front : List Service → Bool
is_single_front [] = false
is_single_front (s ∷ ss) = s.single_socket

abbrev pub is_single_socket : ServicePort → Bool
is_single_socket p = is_single_front p.services

-- The names behind the first one.
pub more_names : List Service → List ℕ
more_names [] = []
more_names (s ∷ ss) = codes ", " ++ s.protocol_name ++ more_names ss

pub get_protocol_names : ServicePort → List ℕ
unfolding more_names
get_protocol_names p = elim p.services [ [] ↦ [] | s ∷ ss ↦ s.protocol_name ++ more_names ss ]

-- accept; `posted` says that the system took the call.
pub accept : ℕ → Bool → ServicePort → ServicePort
unfolding call
accept acceptor posted p = if posted then call (async_accept acceptor) p else p

pub close : ServicePort → ServicePort
close p = record p { acceptors = []; calls = p.calls ++ map close_acceptor p.acceptors }

-- The event for a new start.
pub schedule : ServicePort → ServicePort
unfolding call
schedule p = record (call (add_event p.server_port) p) {
  pending_start = true;
  scheduled = p.scheduled + 1;
}

-- What an accept ends with: a socket with its remote address or without one, or an error. `is_open`
-- is the socket's, `posted` is for the next accept.
pub data Accepted : Type 0 where
  known_address : Bool → Accepted
  no_address : Bool → Bool → Accepted
  aborted other_error : Accepted

abbrev pub no_services : List Service → Bool
no_services [] = true
no_services (s ∷ ss) = false

unfoldable pub on_accept : ℕ → Accepted → ServicePort → ServicePort
unfolding accept call close schedule
on_accept acceptor (known_address posted) p =
    if no_services p.services
    then p
    else accept acceptor posted (call (accept_connection (is_single_socket p)) p)
on_accept acceptor (no_address is_open posted) p =
    if no_services p.services
    then p
    else accept acceptor posted (if is_open then call close_socket p else p)
on_accept acceptor aborted p = p
on_accept acceptor other_error p =
    let closed = close p in if closed.pending_start then closed else schedule closed

-- What the system answers to `open`: none where the acceptor for IPv6 throws, or whether it is open and
-- whether it is for IPv6 only; whether the acceptor for IPv4 can be made; and whether accepts are taken.
pub record Opening : Type 0 where
  pub v6 : Option (Bool × Bool)
  pub v4 : Bool
  pub posted : Bool

pub add_acceptor : Bool → ServicePort → ServicePort
unfolding accept
add_acceptor posted p = record (accept p.next posted p) {
  acceptors = p.acceptors ++ p.next ∷ [];
  next = p.next + 1;
}

-- The acceptors, behind the assignments of `open`.
unfoldable pub open_acceptors : Option (Bool × Bool) → Bool → Bool → ServicePort → ServicePort
unfolding schedule add_acceptor
open_acceptors none v4 posted p = schedule p
open_acceptors (some (is_open, v6_only)) v4 posted p =
    let both = add_acceptor posted p in
    if not is_open || v6_only then if v4 then add_acceptor posted both else schedule both else both

unfoldable pub open_port : ℕ → Opening → ServicePort → ServicePort
open_port port o p =
    open_acceptors o.v6 o.v4 o.posted (record p { server_port = port; pending_start = false })

-- The event, for a port that is still there.
unfoldable pub open_acceptor : ℕ → Opening → ServicePort → ServicePort
open_acceptor port o p = open_port port o (record p { scheduled = p.scheduled - 1 })

-- The loop of addService asks every service.
unfoldable pub has_single : List Service → Bool
has_single [] = false
has_single (s ∷ ss) = s.single_socket || has_single ss

unfoldable pub add_service : Service → ServicePort → ServicePort × Bool
unfolding has_single
add_service s p =
    if has_single p.services
    then (p, false)
    else (record p { services = p.services ++ s ∷ [] }, true)

-- The protocol of the first service, as its name.
pub make_protocol : ServicePort → Option (List ℕ)
make_protocol p = elim p.services [ [] ↦ none | s ∷ ss ↦ some s.protocol_name ]
