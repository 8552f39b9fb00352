-- ===== src/Network/ServicePort/Tests.antt =====
-- A port at concrete answers of the system.
use lotospp.Base.{◌≡◌, refl, true, false, [], ◌∷◌, some, none, arith}
use lotospp.Network.ServicePort.{
  ServicePort, new_port, other_error, on_accept, Opening, open_port, open_acceptors, open_acceptor,
  schedule, close, call, add_acceptor, accept, add_event, async_accept, close_acceptor,
}
use lotospp.Network.ServicePort.Restart.{
  accepted, restarted, here, next, IsScheduled, Reach-IsScheduled,
}

-- The acceptor for IPv6 takes IPv4 as well.
abbrev dual : Opening
dual = record { v6 = some (true, false); v4 = true; posted = true }

abbrev failing : Opening
failing = record { v6 = none; v4 = false; posted = true }

abbrev lost : ServicePort
lost = on_accept 0 other_error (open_port 4000 dual new_port)

lost_calls : lost.calls ≡ async_accept 0 ∷ close_acceptor 0 ∷ add_event 4000 ∷ []
unfolding open_port open_acceptors add_acceptor accept call on_accept close schedule
lost_calls = refl

-- A listening port fails, and its new start fails once.
Reach-IsScheduled_example : IsScheduled (open_acceptor 4000 failing lost)
unfolding open_port open_acceptors add_acceptor accept call on_accept close schedule
Reach-IsScheduled_example = Reach-IsScheduled 4000 dual (
    next (next here (accepted (open_port 4000 dual new_port) 0 other_error))
      (restarted lost 4000 failing (omega arith)))
