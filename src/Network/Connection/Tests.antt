-- ===== src/Network/Connection/Tests.antt =====
-- Connections at concrete inputs.
use lotospp.Base.{◌≡◌, refl, true, [], ◌∷◌}
use lotospp.Network.Connection.{
  Connection, eof, success, wrote, init, close_connection, parse_packet, send, add_ref,
}
use lotospp.Network.Connection.Steps.{here, next, sends}
use lotospp.Network.Connection.Silence.{SameMessages, Reach-SameMessages}

sent_one : (send init 7 (wrote success true)).0.written ≡ 7 ∷ []
unfolding send init
sent_one = refl

-- The peer closes: the first message of the connection is dropped and a close is requested.
read_eof : (parse_packet init eof true (λ c. c) true).close_tasks ≡ 1
unfolding parse_packet init
read_eof = refl

abbrev referred : Connection
referred = close_connection (add_ref init)

Reach-SameMessages_example : SameMessages referred (send referred 5 (wrote success true)).0
unfolding close_connection add_ref init
Reach-SameMessages_example = Reach-SameMessages (next here (sends 5 (wrote success true))) refl
