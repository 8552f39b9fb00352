-- ===== src/Network/ServiceManager.antt =====
-- The server's ports: src/Network/ServiceManager.h and ServiceManager.cpp. The map from ports is a list in
-- the order of the ports.
pub mod Ports
mod Tests
use lotospp.Base.{
  ℕ, Bool, true, false, not, ◌||◌, List, [], ◌∷◌, ◌++◌, map, Option, none, some, ltb, ◌==◌,
  if◌then◌else◌,
}
use lotospp.Network.ServicePort.{
  Service, ServicePort, new_port, is_single_socket, Opening, open_port, add_service,
}

-- What the manager asks of the io_service, the pool of messages and the timer.
pub data ManagerCall : Type 0 where
  post_stop : ℕ → ManagerCall
  run_service stop_pool start_death_timer stop_service : ManagerCall

abbrev pub Ports : Type 0
Ports = List (ℕ × ServicePort)

pub record ServiceManager : Type 0 where
  pub acceptors : Ports
  pub running : Bool
  pub calls : List ManagerCall

abbrev pub new_manager : ServiceManager
new_manager = record { acceptors = []; running = false; calls = [] }

unfoldable pub find : ℕ → Ports → Option ServicePort
find port [] = none
find port ((k, p) ∷ ps) = if k == port then some p else find port ps

-- The assignment through operator[].
unfoldable pub put : ℕ → ServicePort → Ports → Ports
put port p [] = (port, p) ∷ []
put port p ((k, q) ∷ ps) =
    let rest = put port p ps in
    if ltb port k
    then (port, p) ∷ (k, q) ∷ ps
    else if k == port
    then (port, p) ∷ ps
    else (k, q) ∷ rest

unfoldable pub add_at :
    ℕ → Service → Option ServicePort → Opening → ServiceManager → ServiceManager × Bool
add_at port s none o m =
    let (p, added) = add_service s (open_port port o new_port) in
    (record m { acceptors = put port p m.acceptors }, added)
add_at port s (some p) o m =
    let (p', added) = add_service s p in
    if is_single_socket p || s.single_socket
    then (m, false)
    else (record m { acceptors = put port p' m.acceptors }, added)

-- add for a protocol with the service.
unfoldable pub add : ℕ → Service → Opening → ServiceManager → ServiceManager × Bool
add port s o m = if port == 0 then (m, false) else add_at port s (find port m.acceptors) o m

-- remove deletes the object that the shared pointer in its hand deletes again: `none`.
pub remove : ℕ → ServiceManager → Option (ServiceManager × Bool)
remove port m =
    if port == 0
    then some (m, false)
    else elim (find port m.acceptors) [ none ↦ some (m, false) | some p ↦ none ]

-- `none` is the failed assertion of a second run. The io_service runs till it is stopped.
unfoldable pub run : ServiceManager → Option ServiceManager
run m =
    if m.running
    then none
    else some (record m { running = true; calls = m.calls ++ run_service ∷ [] })

abbrev pub keys : Ports → List ℕ
keys = map (λ e. e.0)

unfoldable pub stop : ServiceManager → ServiceManager
stop m =
    if m.running
    then record {
      acceptors = [];
      running = false;
      calls = m.calls ++ map post_stop (keys m.acceptors) ++ stop_pool ∷ start_death_timer ∷ [];
    }
    else m

-- die, three seconds after a stop.
pub die : ServiceManager → ServiceManager
die m = record m { calls = m.calls ++ stop_service ∷ [] }

pub is_running : ServiceManager → Bool
is_running m = elim m.acceptors [ [] ↦ false | e ∷ es ↦ true ]

-- std::list::unique keeps the first of equal neighbours.
unfoldable pub unique_from : ℕ → List ℕ → List ℕ
unique_from k [] = []
unique_from k (x ∷ xs) =
    let kept = x ∷ unique_from x xs in
    let dropped = unique_from k xs in if k == x then dropped else kept

unfoldable pub unique : List ℕ → List ℕ
unfolding unique_from
unique [] = []
unique (x ∷ xs) = x ∷ unique_from x xs

unfoldable pub get_ports : ServiceManager → List ℕ
unfolding unique
get_ports m = unique (keys m.acceptors)
