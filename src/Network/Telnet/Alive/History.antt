-- ===== src/Network/Telnet/Alive/History.antt =====
-- Histories of telnet sessions, of any length.
use lotospp.Base.{◌≡◌, refl, ◌∙◌, false, List, [], ◌∷◌, some, arith}
use lotospp.Network.Telnet.{Store, and_then}
use lotospp.Network.Telnet.Alive.{
  Event, perform, perform_all, switches, has_switch, IsSound, first_packet, packet, release, clean,
}
use lotospp.Network.Telnet.Alive.First.{first_packet-IsSound}
use lotospp.Network.Telnet.Alive.Packets.{parse_packet-IsSound}
use lotospp.Network.Telnet.Alive.Clean.{cleanup-IsSound}
use lotospp.Network.Telnet.Alive.Release.{release-IsSound}

perform-IsSound :
    (e : Event) (w : Store)
    → switches e ≡ false
    → IsSound w
    → (w' : Store) × (perform e w ≡ some w') × IsSound w'
unfolding perform
perform-IsSound (first_packet t) w n s = first_packet-IsSound t w s
perform-IsSound (packet t len o) w n s = parse_packet-IsSound t len o w n s
perform-IsSound (release t) w n s = release-IsSound t w s
perform-IsSound clean w n s = cleanup-IsSound w s

-- First packets, packets, releases and clean-ups in any order, where no uRead throws SWAPPED, use no deleted
-- user and no null pointer. From a sound store the history comes to a sound store: each
-- protocol's user is not deleted, is no other protocol's and has two references.
pub perform_all-IsSound :
    (es : List Event) (w : Store)
    → has_switch es ≡ false
    → IsSound w
    → (w' : Store) × (perform_all es w ≡ some w') × IsSound w'
unfolding perform_all has_switch
perform_all-IsSound [] w n s = (w, refl, s)
perform_all-IsSound (e ∷ es) w n s =
    let (w₁, e₁, s₁) = perform-IsSound e w (ground arith) s in
    let (w₂, e₂, s₂) = perform_all-IsSound es w₁ (ground arith) s₁ in
    (w₂, (λ i. and_then (e₁ i) (perform_all es)) ∙ e₂, s₂)
