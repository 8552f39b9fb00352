-- ===== src/Network/ServicePort/Restart.antt =====
-- The new start of a port of src/Network/ServicePort.cpp that could not listen.
use lotospp.Base.{
  ℕ, ◌-◌, ◌<◌, ◌≡◌, refl, Bool, true, false, Option, none, some, if◌then◌else◌, arith,
}
use lotospp.Network.ServicePort.{
  Service, PortCall, ServicePort, new_port, call, accept, close, schedule, Accepted, known_address,
  no_address, aborted, other_error, on_accept, Opening, add_acceptor, open_acceptors, open_port,
  open_acceptor, add_service, is_single_socket, close_socket, accept_connection,
}

-- What can happen to a port that is open, or will be: an accept ends, the event runs while there is one,
-- the server stops, or a service is added.
pub data Step : ServicePort → ServicePort → Type 0 where
  accepted : (p : ServicePort) (acceptor : ℕ) (a : Accepted) → Step p (on_accept acceptor a p)
  restarted :
      (p : ServicePort) (port : ℕ) (o : Opening) → 0 < p.scheduled → Step p (open_acceptor port o p)
  stopped : (p : ServicePort) → Step p (close p)
  added : (p : ServicePort) (s : Service) → Step p (add_service s p).0

pub data Reach (p : ServicePort) : ServicePort → Type 0 where
  here : Reach p p
  next : {q r : ServicePort} → Reach p q → Step q r → Reach p r

-- One event is scheduled while a start is pending, and none otherwise.
abbrev pub IsScheduled : ServicePort → Type 0
IsScheduled p = p.scheduled ≡ (if p.pending_start then 1 else 0)

call-IsScheduled : (c : PortCall) (p : ServicePort) → IsScheduled p → IsScheduled (call c p)
unfolding call
call-IsScheduled c p h = h

accept-IsScheduled :
    (acceptor : ℕ) (posted : Bool) (p : ServicePort)
    → IsScheduled p
    → IsScheduled (accept acceptor posted p)
unfolding accept call
accept-IsScheduled acceptor true p h = h
accept-IsScheduled acceptor false p h = h

add_acceptor-state :
    (posted : Bool) (p : ServicePort)
    → ((add_acceptor posted p).scheduled ≡ p.scheduled)
      × ((add_acceptor posted p).pending_start ≡ p.pending_start)
unfolding add_acceptor accept call
add_acceptor-state true p = (refl, refl)
add_acceptor-state false p = (refl, refl)

on_accept-IsScheduled :
    (acceptor : ℕ) (a : Accepted) (p : ServicePort)
    → IsScheduled p
    → IsScheduled (on_accept acceptor a p)
unfolding on_accept close schedule call
on_accept-IsScheduled acceptor (known_address posted) p h =
    let c : ServicePort = call (accept_connection (is_single_socket p)) p in
    ground (arith, accept-IsScheduled acceptor posted c h)
on_accept-IsScheduled acceptor (no_address is_open posted) p h =
    let c = if is_open then call close_socket p else p in
    let k : IsScheduled c = ground arith in ground (arith, accept-IsScheduled acceptor posted c k)
on_accept-IsScheduled acceptor aborted p h = h
on_accept-IsScheduled acceptor other_error p h = ground arith

-- Opening a port that has no event left schedules one where it fails.
open_acceptors-IsScheduled :
    (v6 : Option (Bool × Bool)) (v4 posted : Bool) (p : ServicePort)
    → p.scheduled ≡ 0
    → p.pending_start ≡ false
    → IsScheduled (open_acceptors v6 v4 posted p)
unfolding open_acceptors schedule call
open_acceptors-IsScheduled none v4 posted p h k = ground arith
open_acceptors-IsScheduled (some (is_open, v6_only)) v4 posted p h k =
    let first : ServicePort = add_acceptor posted p in
    let (a, b) = add_acceptor-state posted p in
    let (c, d) = add_acceptor-state posted first in ground arith

open_port-IsScheduled :
    (port : ℕ) (o : Opening) (p : ServicePort) → p.scheduled ≡ 0 → IsScheduled (open_port port o p)
unfolding open_port
open_port-IsScheduled port o p h =
    open_acceptors-IsScheduled o.v6 o.v4 o.posted
      (record p { server_port = port; pending_start = false }) h refl

open_acceptors-services :
    (v6 : Option (Bool × Bool)) (v4 posted : Bool) (p : ServicePort)
    → (open_acceptors v6 v4 posted p).services ≡ p.services
unfolding open_acceptors schedule call add_acceptor accept
open_acceptors-services none v4 posted p = refl
open_acceptors-services (some (is_open, v6_only)) v4 posted p = ground arith

-- The services stay.
pub open_port-services :
    (port : ℕ) (o : Opening) (p : ServicePort) → (open_port port o p).services ≡ p.services
unfolding open_port
open_port-services port o p =
    open_acceptors-services o.v6 o.v4 o.posted
      (record p { server_port = port; pending_start = false })

Step-IsScheduled : {p q : ServicePort} → Step p q → IsScheduled p → IsScheduled q
unfolding open_acceptor add_service close
Step-IsScheduled (accepted p acceptor a) h = on_accept-IsScheduled acceptor a p h
Step-IsScheduled (restarted p port o l) h =
    open_port-IsScheduled port o (record p { scheduled = p.scheduled - 1 }) (ground arith)
Step-IsScheduled (stopped p) h = h
Step-IsScheduled (added p s) h = ground arith

-- A port that was opened once, whatever happens to it then in any order: at most one event to start it
-- again is scheduled at a time, and one exactly while pendingStart is set.
pub Reach-IsScheduled :
    (port : ℕ) (o : Opening) {p : ServicePort} → Reach (open_port port o new_port) p → IsScheduled p
Reach-IsScheduled port o here = open_port-IsScheduled port o new_port refl
Reach-IsScheduled port o (next r s) = Step-IsScheduled s (Reach-IsScheduled port o r)
