-- ===== src/Network/Telnet.antt =====
-- The protocol of a telnet session and its user: src/Network/Protocol.cpp, Protocols/Telnet.cpp, the
-- constructor and destructor of src/Common/User.cpp, and the things that src/Common/Talker.cpp and Thing.cpp
-- release. Users and protocols are numbers, and the store has an object for each. `none` is an access
-- through a null pointer or to a deleted user. The texts that are sent are no part of the store.
pub mod Sessions
pub mod Release
pub mod Reads
pub mod Alive
mod Tests
use lotospp.Base.{
  ℕ, ◌+◌, ℤ, pos, negsuc, increment, decrement, is_positive, Bool, true, false, not, ◌&&◌, ◌||◌,
  List, [], ◌∷◌, ◌++◌, Option, none, some, ltb, ◌==◌, if◌then◌else◌,
}
use lotospp.Network.OutputMessagePool.{increment as ref, decrement as unref}

-- `refs` is the count of the Thing, and `listed` says that listUser has the user.
pub record UserObject : Type 0 where
  pub client : Option ℕ
  pub refs : ℤ
  pub listed : Bool
  pub deleted : Bool

pub record Telnet : Type 0 where
  pub user : Option ℕ
  pub connection : Bool
  pub ref_count : ℕ
  pub accept_packets : Bool
  pub deleted : Bool

-- The protocols whose connections were told to close, the things that the talker will release, and the
-- events for another releaseProtocol.
pub record Store : Type 0 where
  pub users : ℕ → UserObject
  pub telnets : ℕ → Telnet
  pub next_user : ℕ
  pub closed : List ℕ
  pub to_release_things : List ℕ
  pub releases : List ℕ

abbrev pub put_user : ℕ → UserObject → Store → Store
put_user u o w = record w { users = λ i. if i == u then o else w.users i }

abbrev pub put_telnet : ℕ → Telnet → Store → Store
put_telnet t o w = record w { telnets = λ i. if i == t then o else w.telnets i }

-- Thing::addRef.
abbrev pub add_ref : ℕ → Store → Store
add_ref u w = put_user u (record (w.users u) { refs = increment (w.users u).refs }) w

-- Protocol::setUser.
unfoldable pub set_user : ℕ → Option ℕ → Store → Store
set_user t none w = put_telnet t (record (w.telnets t) { user = none }) w
set_user t (some u) w = add_ref u (put_telnet t (record (w.telnets t) { user = some u }) w)

-- The constructor for a client.
unfoldable pub create_user : ℕ → Store → Store
create_user t w =
    let u : UserObject = record {
      client = some t;
      refs = pos 0;
      listed = false;
      deleted = false;
    } in
    set_user t (some w.next_user)
      (record (put_user w.next_user u w) { next_user = w.next_user + 1 })

abbrev pub add_list : ℕ → Store → Store
add_list u w = put_user u (record (w.users u) { listed = true }) w

abbrev pub remove_list : ℕ → Store → Store
remove_list u w = put_user u (record (w.users u) { listed = false }) w

-- The destructor, behind the test of the client.
abbrev pub destroy : ℕ → Store → Store
destroy u w = put_user u (record (w.users u) { client = none; listed = false; deleted = true }) w

abbrev pub clear_client : Option ℕ → Store → Store
clear_client none w = w
clear_client (some t) w = set_user t none w

unfoldable pub delete_user : ℕ → Store → Option Store
delete_user u w =
    if (w.users u).deleted then none else some (destroy u (clear_client (w.users u).client w))

-- User::disconnect, through Protocol::disconnect.
abbrev pub close_client : Option ℕ → Store → Store
close_client none w = w
close_client (some t) w =
    if (w.telnets t).connection then record w { closed = w.closed ++ t ∷ [] } else w

unfoldable pub disconnect_user : ℕ → Store → Store
disconnect_user u w = close_client (w.users u).client w

-- Telnet::connect.
abbrev pub connect_pointer : Option ℕ → ℕ → Store → Option Store
connect_pointer none t w = none
connect_pointer (some u) t w =
    let unreferenced : Telnet = record (w.telnets t) {
      ref_count = unref (w.telnets t).ref_count;
      accept_packets = true;
    } in
    let w' = add_ref u (put_telnet t unreferenced w) in
    some (put_user u (record (w'.users u) { client = some t }) w')

unfoldable pub connect : ℕ → Store → Option Store
connect t w = connect_pointer (w.telnets t).user t w

-- Telnet::parseFirstPacket.
unfoldable pub parse_first_packet : ℕ → Store → Option Store
parse_first_packet t w =
    let w' = add_list w.next_user (create_user t w) in
    connect t (put_telnet t (record (w'.telnets t) { ref_count = ref (w'.telnets t).ref_count }) w')

-- uConnect of the user `u` where the session `old` has its name: behind the texts.
abbrev pub switch_client : Option ℕ → ℕ → ℕ → Store → Option Store
switch_client none u old w = none
switch_client (some t) u old w =
    let w₁ = set_user t (some old) (disconnect_user old w) in
    let w₂ = put_user old (record (w₁.users old) { client = some t }) w₁ in
    some (remove_list u (put_user u (record (w₂.users u) { client = none }) w₂))

unfoldable pub switch_to : ℕ → ℕ → Store → Option Store
switch_to u old w = switch_client (w.users u).client u old w

-- How uRead ends: it returns, or throws a stage. The stage SWAPPED is thrown behind a switch.
pub data Outcome : Type 0 where
  returned thrown_disconnect thrown_other : Outcome
  thrown_swapped : ℕ → Outcome

-- `delete user; user=nullptr;`, where `user` is the protocol's.
abbrev pub forget_user : ℕ → Option Store → Option Store
forget_user t none = none
forget_user t (some w) = some (put_telnet t (record (w.telnets t) { user = none }) w)

abbrev pub drop_pointer : Option ℕ → ℕ → Store → Option Store
drop_pointer none t w = some w
drop_pointer (some u) t w = forget_user t (delete_user u w)

unfoldable pub drop_user : ℕ → Store → Option Store
drop_user t w = drop_pointer (w.telnets t).user t w

abbrev pub drop_behind : ℕ → Option Store → Option Store
drop_behind t none = none
drop_behind t (some w) = drop_user t w

-- The call of uRead and its handlers.
unfoldable pub handle : ℕ → ℕ → Outcome → Store → Option Store
handle t u returned w = some w
handle t u thrown_other w = some w
handle t u thrown_disconnect w = drop_user t (disconnect_user u w)
handle t u (thrown_swapped old) w = drop_behind t (switch_to u old w)

-- Telnet::parsePacket of a message of that length.
unfoldable pub parse_packet : ℕ → ℕ → Outcome → Store → Option Store
parse_packet t len outcome w = elim (w.telnets t).user [
  | none ↦ some w
  | some u ↦ if not (w.telnets t).accept_packets || (len == 0) then some w else handle t u outcome w
]

-- Telnet::deleteProtocolTask, behind the assertion on the count of references.
unfoldable pub free_user : Option ℕ → Store → Store
free_user none w = w
free_user (some u) w = record w { to_release_things = w.to_release_things ++ u ∷ [] }

unfoldable pub delete_protocol_task : ℕ → Store → Option Store
delete_protocol_task t w =
    let gone : Telnet = record (w.telnets t) { user = none; connection = false; deleted = true } in
    if (w.telnets t).ref_count == 0
    then some (put_telnet t gone (free_user (w.telnets t).user w))
    else none

-- Telnet::releaseProtocol: the user's client is cleared where it is this protocol.
abbrev pub is_client : Option ℕ → ℕ → Bool
is_client none t = false
is_client (some c) t = c == t

unfoldable pub leave_user : Option ℕ → ℕ → Store → Store
leave_user none t w = w
leave_user (some u) t w =
    if is_client (w.users u).client t
    then put_user u (record (w.users u) { client = none }) w
    else w

-- Protocol::releaseProtocol.
unfoldable pub release_from : ℕ → Store → Option Store
release_from t w =
    if ltb 0 (w.telnets t).ref_count
    then some (record w { releases = w.releases ++ t ∷ [] })
    else delete_protocol_task t w

unfoldable pub release_protocol : ℕ → Store → Option Store
release_protocol t w = release_from t (leave_user (w.telnets t).user t w)

-- Thing::unRef deletes at a count that is not positive.
unfoldable pub un_ref : ℕ → Store → Option Store
un_ref u w =
    let refs = decrement (w.users u).refs in
    let w' = put_user u (record (w.users u) { refs = refs }) w in
    if (w.users u).deleted then none else if is_positive refs then some w' else delete_user u w'

-- The rest behind a release that came to its end.
abbrev pub and_then : Option Store → (Store → Option Store) → Option Store
and_then none f = none
and_then (some w) f = f w

-- Talker::cleanup.
unfoldable pub un_ref_all : List ℕ → Store → Option Store
un_ref_all [] w = some w
un_ref_all (u ∷ us) w = and_then (un_ref u w) (un_ref_all us)

abbrev pub clear_things : Option Store → Option Store
clear_things none = none
clear_things (some w) = some (record w { to_release_things = [] })

unfoldable pub cleanup : Store → Option Store
cleanup w = clear_things (un_ref_all w.to_release_things w)

-- Telnet::onRecvFirstMessage.
pub on_recv_first_message : ℕ → ℕ → Outcome → Store → Option Store
on_recv_first_message t len outcome w =
    and_then (parse_first_packet t w) (parse_packet t len outcome)
