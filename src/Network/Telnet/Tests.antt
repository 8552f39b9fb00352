-- ===== src/Network/Telnet/Tests.antt =====
-- Telnet sessions in concrete stores.
use lotospp.Base.{◌≡◌, refl, pos, true, false, [], ◌∷◌, none, some, arith, codes, List}
use lotospp.Network.Telnet.{
  Store, thrown_other, thrown_disconnect, thrown_swapped, parse_packet, parse_first_packet,
  release_protocol, cleanup,
}
use lotospp.Network.Telnet.Sessions.{IsUp, disconnect_deletes, swapped_deletes_other}
use lotospp.Network.Telnet.Release.{released_leaks}
use lotospp.Network.Telnet.Alive.{
  Event, first_packet, packet, release, clean, perform_all, has_switch, is_in, is_distinct, IsSound,
}
use lotospp.Network.Telnet.Alive.History.{perform_all-IsSound}
use lotospp.Network.Telnet.Reads.{receive, quit_ends}
use lotospp.Network.NetworkMessage.{set_read_pos, read_bytes}
use lotospp.Common.User.Input.Pieces.{is_plain}
use lotospp.Common.User.Input.Line.{is_one_line, edit_all}
use lotospp.Common.User.Input.Keys.{edit}
use lotospp.Common.User.Login.{login_id, login_level}
use lotospp.Common.User.Input.{Reader}
use lotospp.Common.User.Input.Fixtures.{message, alone, typing}

-- Each protocol has the user of its own number.
abbrev two_sessions : Store
two_sessions = record {
  users = λ u. record { client = some u; refs = pos 2; listed = true; deleted = false };
  telnets = λ t. record {
    user = some t;
    connection = true;
    ref_count = 0;
    accept_packets = true;
    deleted = false;
  };
  next_user = 2;
  closed = [];
  to_release_things = [];
  releases = [];
}

abbrev session_up : IsUp 1 1 two_sessions
session_up = record { user = refl; accepts = refl; client = refl; alive = refl }

disconnect_deletes_two :
    (w' : Store) × (parse_packet 1 4 thrown_disconnect two_sessions ≡ some w')
    × (w'.closed ≡ 1 ∷ [])
    × ((w'.users 1).deleted ≡ true)
    × ((w'.users 1).listed ≡ false)
    × ((w'.telnets 1).user ≡ none)
disconnect_deletes_two = disconnect_deletes 1 1 4 two_sessions session_up refl (omega arith)

swapped_deletes_other_example :
    (w' : Store) × (parse_packet 1 4 (thrown_swapped 0) two_sessions ≡ some w')
    × ((w'.users 0).deleted ≡ true)
    × ((w'.users 0).listed ≡ false)
    × ((w'.telnets 1).user ≡ none)
    × ((w'.users 1).deleted ≡ false)
    × ((w'.users 1).client ≡ none)
swapped_deletes_other_example =
    swapped_deletes_other 1 1 0 4 two_sessions session_up refl refl (omega arith)

abbrev unused : Store
unused = record two_sessions {
  telnets = λ t. record {
    user = none;
    connection = true;
    ref_count = 0;
    accept_packets = false;
    deleted = false;
  };
}

released_leaks_example :
    (w₁ w₂ w₃ : Store) × (parse_first_packet 1 unused ≡ some w₁)
    × (release_protocol 1 w₁ ≡ some w₂)
    × (cleanup w₂ ≡ some w₃)
    × ((w₃.telnets 1).deleted ≡ true)
    × ((w₃.users 2).deleted ≡ false)
    × ((w₃.users 2).listed ≡ true)
    × ((w₃.users 2).refs ≡ pos 1)
    × (w₃.to_release_things ≡ [])
released_leaks_example = released_leaks 1 unused refl refl

-- A client that has typed `qui` at the prompt for a name.
abbrev leaving : Reader
leaving =
    let r : Reader = typing login_id (codes "qui") in
    record r { user = record r.user { level = login_level } }

quit_ends_example :
    (w' : Store) × (receive alone 20 1
        (set_read_pos (message (b't' ∷ b'\r' ∷ [])) 0)
        leaving
        two_sessions
      ≡ some w')
    × (w'.closed ≡ 1 ∷ [])
    × ((w'.users 1).deleted ≡ true)
    × ((w'.users 1).listed ≡ false)
    × ((w'.telnets 1).user ≡ none)
unfolding read_bytes is_plain is_one_line edit_all edit
quit_ends_example =
    quit_ends alone 20 1 1 (message (b't' ∷ b'\r' ∷ [])) (b't' ∷ []) leaving two_sessions
      (record { pos = refl; size = refl; fits = omega arith; same = refl }) refl refl refl refl refl
      (omega arith) refl session_up refl

-- No user is there.
fresh-IsSound : IsSound unused
unfolding is_in is_distinct
fresh-IsSound = record {
  used = λ t u p. absurd (ground (arith, p));
  one = λ t t' u p p'. absurd (ground (arith, p));
  freed = λ u i. absurd (ground (arith, i));
  once = refl;
}

-- Two sessions, of which one leaves and the other is released before the clean-up.
abbrev one_leaves : List Event
one_leaves =
    first_packet 0
    ∷ packet 0 4 thrown_other
    ∷ first_packet 1
    ∷ packet 0 4 thrown_disconnect
    ∷ release 1
    ∷ clean
    ∷ []

perform_all-IsSound_example : (w' : Store) × (perform_all one_leaves unused ≡ some w') × IsSound w'
unfolding has_switch
perform_all-IsSound_example = perform_all-IsSound one_leaves unused refl fresh-IsSound
