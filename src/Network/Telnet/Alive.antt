-- ===== src/Network/Telnet/Alive.antt =====
-- Histories of telnet sessions over src/Network/Protocols/Telnet.cpp, src/Network/Protocol.cpp and
-- src/Common/Talker.cpp: first packets, packets, releases and clean-ups in any order.
pub mod Frames
mod First
mod Packets
mod Clean
mod Release
pub mod History
use lotospp.Base.{
  ℕ, ◌<◌, ◌≡◌, pos, Bool, true, false, not, ◌&&◌, ◌||◌, List, [], ◌∷◌, Option, none, some, ◌==◌,
}
use lotospp.Network.Telnet.{
  Store, Outcome, thrown_swapped, parse_first_packet, parse_packet, release_protocol, cleanup,
  and_then,
}

pub data Event : Type 0 where
  first_packet : ℕ → Event
  packet : ℕ → ℕ → Outcome → Event
  release : ℕ → Event
  clean : Event

unfoldable pub perform : Event → Store → Option Store
perform (first_packet t) w = parse_first_packet t w
perform (packet t len o) w = parse_packet t len o w
perform (release t) w = release_protocol t w
perform clean w = cleanup w

unfoldable pub perform_all : List Event → Store → Option Store
perform_all [] w = some w
perform_all (e ∷ es) w = and_then (perform e w) (perform_all es)

-- No uRead of the history throws SWAPPED.
abbrev pub switches : Event → Bool
switches (packet t len (thrown_swapped old)) = true
switches e = false

unfoldable pub has_switch : List Event → Bool
has_switch [] = false
has_switch (e ∷ es) = switches e || has_switch es

unfoldable pub is_in : ℕ → List ℕ → Bool
is_in u [] = false
is_in u (v ∷ vs) = (u == v) || is_in u vs

unfoldable pub is_distinct : List ℕ → Bool
is_distinct [] = true
is_distinct (u ∷ us) = not (is_in u us) && is_distinct us

-- A user with both references, of setUser and of connect.
abbrev pub IsKept : ℕ → Store → Type 0
IsKept u w = ((w.users u).refs ≡ pos 2) × ((w.users u).deleted ≡ false) × (u < w.next_user)

-- Every protocol's user is kept and waits for no release, no two protocols share one, and those that wait
-- for their release are kept and wait once.
pub record IsSound (w : Store) : Type 0 where
  pub used :
      (t u : ℕ) → (w.telnets t).user ≡ some u → IsKept u w × (is_in u w.to_release_things ≡ false)
  pub one : (t t' u : ℕ) → (w.telnets t).user ≡ some u → (w.telnets t').user ≡ some u → t ≡ t'
  pub freed : (u : ℕ) → is_in u w.to_release_things ≡ true → IsKept u w
  pub once : is_distinct w.to_release_things ≡ true
