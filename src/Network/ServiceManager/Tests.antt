-- ===== src/Network/ServiceManager/Tests.antt =====
-- The server's ports at concrete services.
use lotospp.Base.{◌≡◌, refl, true, false, some, none, codes}
use lotospp.Network.ServicePort.{
  Service, Opening, add_service, has_single, open_port, open_acceptors,
}
use lotospp.Network.ServiceManager.{
  ServiceManager, new_manager, add, add_at, find, remove, get_ports, keys,
}
use lotospp.Network.ServiceManager.Ports.{
  IsProper, adds, created, step, Managed-IsProper, get_ports_lem, remove-add,
}

abbrev telnet : Service
telnet = record { single_socket = true; protocol_name = codes "telnet protocol" }

abbrev opened : Opening
opened = record { v6 = some (true, false); v4 = true; posted = true }

abbrev serving : ServiceManager
serving = (add 4000 telnet opened new_manager).0

Managed-IsProper_example : IsProper 0 serving.acceptors
Managed-IsProper_example = Managed-IsProper (step created (adds new_manager 4000 telnet opened))

get_ports_of_server : get_ports serving ≡ keys serving.acceptors
get_ports_of_server = get_ports_lem (step created (adds new_manager 4000 telnet opened))

remove-add_example : remove 4000 serving ≡ none
unfolding add add_at add_service has_single find open_port open_acceptors
remove-add_example = remove-add 4000 telnet opened new_manager refl
