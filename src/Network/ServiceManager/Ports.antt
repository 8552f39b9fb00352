-- ===== src/Network/ServiceManager/Ports.antt =====
-- The ports of src/Network/ServiceManager.cpp and the services on them.
use lotospp.Base.{
  ℕ, ◌<◌, ◌≡◌, refl, sym, subst, inl, inr, Bool, true, false, not, ◌||◌, List, [], ◌∷◌, ◌++◌, none,
  some, ltb, ◌==◌, arith, Bool-cases, Option-cases,
}
use lotospp.Network.ServicePort.{
  Service, ServicePort, new_port, is_single_socket, is_single_front, Opening, open_port, has_single,
  add_service,
}
use lotospp.Network.ServicePort.Restart.{open_port-services}
use lotospp.Network.ServiceManager.{
  Ports, ServiceManager, new_manager, find, put, add_at, add, remove, run, keys, stop, unique_from,
  unique, get_ports,
}

-- One service, or several of which none is for a single socket.
unfoldable pub is_proper : List Service → Bool
is_proper [] = false
is_proper (s ∷ []) = true
is_proper (s ∷ t ∷ ss) = not (has_single (s ∷ t ∷ ss))

-- The ports are above `low` and in order, and their services are proper.
abbrev pub IsProper : ℕ → Ports → Type 0
IsProper low [] = Unit
IsProper low ((k, p) ∷ ps) = (low < k) × (is_proper p.services ≡ true) × IsProper k ps

put-IsProper :
    (low port : ℕ) (p : ServicePort) (ps : Ports)
    → low < port
    → is_proper p.services ≡ true
    → IsProper low ps
    → IsProper low (put port p ps)
unfolding put
put-IsProper low port p [] l s h = (l, s, tt)
put-IsProper low port p ((k, q) ∷ ps) l s (m, t, h) = elim (Bool-cases (ltb port k)) [
  | inl before ↦ rw before (l, s, (ground arith, t, h))
  | inr other ↦ elim (Bool-cases (k == port)) [
    | inl same ↦
        let e : k ≡ port = ground arith in rw (other, same) (l, s, subst (λ i. IsProper i ps) e h)
    | inr behind ↦ rw (other, behind) (m, t, put-IsProper k port p ps (ground arith) s h)
  ]
]

find-IsProper :
    (low port : ℕ) (p : ServicePort) (ps : Ports)
    → IsProper low ps
    → find port ps ≡ some p
    → is_proper p.services ≡ true
unfolding find
find-IsProper low port p [] h e = absurd (ground arith)
find-IsProper low port p ((k, q) ∷ ps) (m, t, h) e = ground (arith, find-IsProper k port p ps h)

has_single-append :
    (ss : List Service) (s : Service)
    → has_single (ss ++ s ∷ []) ≡ (has_single ss || s.single_socket)
unfolding has_single
has_single-append [] s = ground arith
has_single-append (t ∷ ss) s = ground (arith, has_single-append ss s)

-- Proper services of which the first is for no single socket have none that is.
proper_front :
    (ss : List Service) → is_proper ss ≡ true → is_single_front ss ≡ false → has_single ss ≡ false
unfolding is_proper has_single
proper_front [] h e = refl
proper_front (s ∷ []) h e = ground arith
proper_front (s ∷ t ∷ ss) h e = ground arith

append-proper :
    (ss : List Service) (s : Service)
    → is_proper ss ≡ true
    → has_single ss ≡ false
    → s.single_socket ≡ false
    → is_proper (ss ++ s ∷ []) ≡ true
unfolding is_proper has_single
append-proper [] s h n e = absurd (ground arith)
append-proper (t ∷ []) s h n e = ground arith
append-proper (t ∷ u ∷ ss) s h n e = ground (arith, has_single-append ss s)

add_service-proper :
    (s : Service) (p : ServicePort)
    → is_proper p.services ≡ true
    → (is_single_socket p || s.single_socket) ≡ false
    → is_proper (add_service s p).0.services ≡ true
unfolding add_service
add_service-proper s p h e =
    let n = proper_front p.services h (ground arith) in
    ground (arith, append-proper p.services s h n (ground arith))

-- The first service of a port.
add_service-first :
    (s : Service) (p : ServicePort)
    → p.services ≡ []
    → is_proper (add_service s p).0.services ≡ true
unfolding add_service is_proper has_single
add_service-first s p e = ground arith

add-IsProper :
    (port : ℕ) (s : Service) (o : Opening) (m : ServiceManager)
    → IsProper 0 m.acceptors
    → IsProper 0 (add port s o m).0.acceptors
unfolding add add_at
add-IsProper port s o m h = elim (Bool-cases (port == 0)) [
  | inl zero_port ↦ rw zero_port h
  | inr other ↦ elim (Option-cases (find port m.acceptors)) [
    | inl missing ↦
        let first =
          add_service-first s (open_port port o new_port) (open_port-services port o new_port) in
        rw (other, missing)
          (put-IsProper 0 port (add_service s (open_port port o new_port)).0 m.acceptors
            (ground arith) first h)
    | inr (p, found) ↦
        let proper = find-IsProper 0 port p m.acceptors h found in
        elim (Bool-cases (is_single_socket p || s.single_socket)) [
          | inl refused ↦ rw (other, found, refused) h
          | inr free ↦
              rw (other, found, free)
                (put-IsProper 0 port (add_service s p).0 m.acceptors (ground arith)
                  (add_service-proper s p proper free) h)
        ]
  ]
]

-- A call of the manager's interface; a run that fails its assertion ends the program, and remove is no part
-- of it, since it deletes an object twice where it finds one.
pub data ManagerStep : ServiceManager → ServiceManager → Type 0 where
  adds :
      (m : ServiceManager) (port : ℕ) (s : Service) (o : Opening) → ManagerStep m (add port s o m).0
  runs : {m m' : ServiceManager} → run m ≡ some m' → ManagerStep m m'
  stops : (m : ServiceManager) → ManagerStep m (stop m)

pub data Managed : ServiceManager → Type 0 where
  created : Managed new_manager
  step : {m m' : ServiceManager} → Managed m → ManagerStep m m' → Managed m'

run-acceptors : (m m' : ServiceManager) → run m ≡ some m' → m'.acceptors ≡ m.acceptors
unfolding run
run-acceptors m m' e = ground arith

stop-IsProper : (m : ServiceManager) → IsProper 0 m.acceptors → IsProper 0 (stop m).acceptors
unfolding stop
stop-IsProper m h = elim (Bool-cases m.running) [ inl on ↦ rw on tt | inr off ↦ rw off h ]

-- Behind any calls of add, run and stop the manager's ports are in order, none is 0, and each has services: one, or
-- several of which none is for a single socket.
pub Managed-IsProper : {m : ServiceManager} → Managed m → IsProper 0 m.acceptors
Managed-IsProper created = tt
Managed-IsProper (step r (adds m port s o)) = add-IsProper port s o m (Managed-IsProper r)
Managed-IsProper (step {m} {m'} r (runs e)) =
    subst (IsProper 0) (sym (run-acceptors m m' e)) (Managed-IsProper r)
Managed-IsProper (step r (stops m)) = stop-IsProper m (Managed-IsProper r)

unique_from-keys : (k : ℕ) (ps : Ports) → IsProper k ps → unique_from k (keys ps) ≡ keys ps
unfolding unique_from
unique_from-keys k [] h = refl
unique_from-keys k ((j, p) ∷ ps) (l, s, h) = ground (arith, unique_from-keys j ps h)

unique-keys : (low : ℕ) (ps : Ports) → IsProper low ps → unique (keys ps) ≡ keys ps
unfolding unique
unique-keys low [] h = refl
unique-keys low ((j, p) ∷ ps) (l, s, h) = ground (arith, unique_from-keys j ps h)

-- getPorts of such a manager lists each of its ports once.
pub get_ports_lem : {m : ServiceManager} → Managed m → get_ports m ≡ keys m.acceptors
unfolding get_ports
get_ports_lem {m} r = unique-keys 0 m.acceptors (Managed-IsProper r)

find-put : (port : ℕ) (p : ServicePort) (ps : Ports) → find port (put port p ps) ≡ some p
unfolding find put
find-put port p [] = ground arith
find-put port p ((k, q) ∷ ps) = ground (arith, find-put port p ps)

-- A port to which a service was added cannot be removed: remove deletes it twice.
pub remove-add :
    (port : ℕ) (s : Service) (o : Opening) (m : ServiceManager)
    → (add port s o m).1 ≡ true
    → remove port (add port s o m).0 ≡ none
unfolding remove add add_at
remove-add port s o m e = elim (Option-cases (find port m.acceptors)) [
  | inl missing ↦
      ground (arith, find-put port (add_service s (open_port port o new_port)).0 m.acceptors)
  | inr (p, found) ↦ ground (arith, find-put port (add_service s p).0 m.acceptors)
]
