-- ===== src/Network/Telnet/Reads.antt =====
-- The call of uRead in Telnet::parsePacket of src/Network/Protocols/Telnet.cpp, on the user's part of the
-- program: a packet from the bytes to what becomes of the session.
use lotospp.Base.{
  ℕ, ◌<◌, ◌≤◌, ◌≡◌, refl, sym, subst, ap, ◌∙◌, true, false, List, [], ◌∷◌, ◌++◌, Option, none, some,
  take, length, codes, arith,
}
use lotospp.Common.User.Login.{
  login_id, disconnect, swapped, login_level, Effect, take_over, stage_thrown, conversion_error,
  login, run_command, command_or, find_command,
}
use lotospp.Common.User.Input
use lotospp.Common.User.Input.{
  Reader, Env, Reading, raised, undefined, hung, endless, u_read, enter_line, logged_in,
  log_in_with, emit,
}
use lotospp.Common.User.Input.Pieces.{is_plain}
use lotospp.Common.User.Input.Line.{is_one_line, edit_all, u_read-enter_line}
use lotospp.Network.NetworkMessage.{NetworkMessage, set_read_pos}
use lotospp.Network.NetworkMessage.Log.{Represents, get_raw-Represents}
use lotospp.Network.Telnet
use lotospp.Network.Telnet.{
  Store, Outcome, thrown_disconnect, thrown_swapped, thrown_other, parse_packet,
}
use lotospp.Network.Telnet.Sessions.{IsUp, disconnect_deletes}

-- The session that uConnect switched to.
unfoldable pub taken_over : List Effect → Option ℕ
taken_over [] = none
taken_over (take_over id ∷ es) = some id
taken_over (e ∷ es) = taken_over es

abbrev swapped_to : Option ℕ → Outcome
swapped_to none = thrown_other
swapped_to (some id) = thrown_swapped id

-- The handler for what uRead throws. `none` is a conversion error, which parsePacket does not catch, or a
-- read that comes to no end.
unfoldable pub outcome : Reading → Option Outcome
unfolding taken_over
outcome (Input.returned r) = some Telnet.returned
outcome (raised (stage_thrown disconnect) r) = some thrown_disconnect
outcome (raised (stage_thrown swapped) r) = some (swapped_to (taken_over r.sent))
outcome (raised (stage_thrown _) r) = some thrown_other
outcome (raised conversion_error r) = none
outcome undefined = none
outcome hung = none
outcome endless = none

abbrev pub packet_for : ℕ → ℕ → Store → Option Outcome → Option Store
packet_for t len w none = none
packet_for t len w (some o) = parse_packet t len o w

-- parsePacket of a session whose user reads the message.
unfoldable pub receive : Env → ℕ → ℕ → NetworkMessage → Reader → Store → Option Store
receive env fuel t msg r w = packet_for t msg.msg_size w (outcome (u_read env fuel msg r))

outcome-quit :
    (env : Env) (r : Reader)
    → r.user.stage ≡ login_id
    → r.user.level ≡ login_level
    → env.iequals (codes "quit") r.text ≡ true
    → outcome (enter_line env r) ≡ some thrown_disconnect
unfolding outcome enter_line logged_in log_in_with login find_command run_command command_or emit
outcome-quit env r stage level q = rw (level, stage, q) refl

not_empty : (xs : List ℕ) (x : ℕ) → 0 < length (xs ++ x ∷ [])
not_empty [] x = omega arith
not_empty (y ∷ xs) x = omega arith

-- A session at the stage LOGIN_ID and the level LOGIN, whose client types a line of plain bytes that
-- makes `quit` of the text so far: the packet with its carriage return closes the connection, deletes the user
-- and takes it off the list of users.
pub quit_ends :
    (env : Env) (fuel t u : ℕ) (m : NetworkMessage) (bytes : List ℕ) (r : Reader) (w : Store)
    → Represents m (bytes ++ b'\r' ∷ [])
    → is_plain bytes ≡ true
    → is_one_line bytes ≡ true
    → r.telopt.bpos ≡ 0
    → r.user.stage ≡ login_id
    → r.user.level ≡ login_level
    → r.tbpos ≤ length r.text
    → env.iequals (codes "quit") (edit_all (take r.tbpos r.text) bytes) ≡ true
    → IsUp t u w
    → (w.telnets t).connection ≡ true
    → (w' : Store) × (receive env fuel t (set_read_pos m 0) r w ≡ some w')
      × (w'.closed ≡ w.closed ++ t ∷ [])
      × ((w'.users u).deleted ≡ true)
      × ((w'.users u).listed ≡ false)
      × ((w'.telnets t).user ≡ none)
unfolding receive
quit_ends env fuel t u m bytes r w h p one b stage level f q up c =
    let (r', e, text, pos, user, line) =
      u_read-enter_line env fuel m bytes r h p one b (rw stage refl) f in
    let thrown =
      outcome-quit env r' (ap (λ x. x.stage) user ∙ stage) (ap (λ x. x.level) user ∙ level)
        (ap (env.iequals (codes "quit")) text ∙ q) in
    let size = (get_raw-Represents m (bytes ++ b'\r' ∷ []) h).1 in
    let n : ℕ = (set_read_pos m 0).msg_size in
    let l : 0 < n = subst (λ k. 0 < k) (sym size) (not_empty bytes b'\r') in
    let (w', d, closed, gone, off, none_left) = disconnect_deletes t u n w up c l in
    (
      w',
      (λ i. packet_for t n w (outcome (e i))) ∙ (λ i. packet_for t n w (thrown i)) ∙ d,
      closed,
      gone,
      off,
      none_left,
    )
