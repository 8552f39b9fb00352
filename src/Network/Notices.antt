-- ===== src/Network/Notices.antt =====
-- What a protocol sends by itself: Protocol::write, getOutputBuffer and onSendMessage of
-- src/Network/Protocol.cpp, and the notices of src/Network/Protocols/Telnet.cpp. `memory` is what stands in the
-- message of the pool, `send` what Connection::send answers. `none` is an access through a null pointer.
pub mod Sending
pub mod Buffer
mod Tests
use lotospp.Base.{
  ℕ, ◌-◌, Bool, true, false, List, [], ◌∷◌, ◌++◌, Option, none, some, ltb, ◌==◌, if◌then◌else◌,
  codes,
}
use lotospp.Common.User.Print.{until_nul}
use lotospp.Common.User.Telopt.{
  telcmd_will, telcmd_wont, telcmd_do, telcmd_iac, telopt_echo, telopt_sga, telopt_term,
  telopt_naws,
}
use lotospp.Network.NetworkMessage.{NetworkMessage, max_size, reset}
use lotospp.Network.NetworkMessage.Log.{Write, byte, text, perform_all}
use lotospp.Network.OutputMessagePool.{Pool, Sent, get_output_message, deliver, send_single}

-- AddString of a std::string.
abbrev pub string : List ℕ → Write
string s = text (until_nul s)

-- The pool behind a call, the message with its calls, and what becomes of it.
abbrev pub Sending : Type 0
Sending = Option (Pool × NetworkMessage × Option Sent)

abbrev pub sent_as : Pool → Option Sent → Option NetworkMessage → Sending
sent_as p s none = none
sent_as p s (some m) = some (p, m, s)

-- Behind getOutputMessage, which resets the message.
abbrev pub fill_message :
    (Pool → ℕ → Option Sent) → List Write → NetworkMessage → Pool × Option ℕ → Sending
fill_message sends calls memory (p, none) = none
fill_message sends calls memory (p, some id) =
    sent_as p (sends p id) (perform_all (reset memory) calls)

-- A message with these calls, through OutputMessagePool::send.
unfoldable pub send_calls :
    (ℕ → ℕ → Bool) → Pool → ℕ → Option ℕ → List Write → NetworkMessage → Sending
send_calls send p protocol connection calls memory =
    fill_message (send_single send) calls memory (get_output_message p protocol connection false)

-- Protocol::write, which sends without the pool.
unfoldable pub write : (ℕ → ℕ → Bool) → Pool → ℕ → Option ℕ → List ℕ → NetworkMessage → Sending
write send p protocol connection str memory =
    fill_message (λ q id. some (deliver send id connection)) (string str ∷ []) memory
      (get_output_message p protocol connection false)

-- Telnet::onConnect: the texts and options of the greeting.
unfoldable pub greeting : List ℕ → List ℕ → List ℕ → List Write
greeting server version address =
    string (codes "\n")
    ∷ string server
    ∷ string (codes "\n")
    ∷ string (codes "Lotos++")
    ∷ string (codes " version ")
    ∷ string version
    ∷ string (codes "\n")
    ∷ string (codes "\n\nconnection from: ")
    ∷ string address
    ∷ string (codes "\n")
    ∷ byte telcmd_iac
    ∷ byte telcmd_will
    ∷ byte telopt_sga
    ∷ byte telcmd_iac
    ∷ byte telcmd_will
    ∷ byte telopt_echo
    ∷ byte telcmd_iac
    ∷ byte telcmd_do
    ∷ byte telopt_term
    ∷ byte telcmd_iac
    ∷ byte telcmd_do
    ∷ byte telopt_naws
    ∷ []

unfoldable pub send_echo_on : List Write
send_echo_on = byte telcmd_iac ∷ byte telcmd_wont ∷ byte telopt_echo ∷ []

unfoldable pub send_echo_off : List Write
send_echo_off = byte telcmd_iac ∷ byte telcmd_will ∷ byte telopt_echo ∷ []

unfoldable pub send_term_coords : List Write
send_term_coords = byte telcmd_iac ∷ byte telcmd_do ∷ byte telopt_naws ∷ []

unfoldable pub set_xterm_title : List ℕ → List Write
set_xterm_title title = string (codes "\u{1b}]0;") ∷ string title ∷ byte 7 ∷ []

abbrev pub line_wrap_on : List ℕ
line_wrap_on = codes "\u{1b}[7h"

abbrev pub line_wrap_off : List ℕ
line_wrap_off = codes "\u{1b}[7l"

-- m_outputBuffer, with the message that it points to.
pub record Buffered : Type 0 where
  pub pool : Pool
  pub buffer : Option (ℕ × NetworkMessage)

abbrev pub has_room : Option (ℕ × NetworkMessage) → Bool
has_room none = false
has_room (some (id, m)) = ltb m.msg_size (max_size - 4096)

-- A buffer from the pool, where the pool has one.
abbrev pub buffered : NetworkMessage → Pool × Option ℕ → Buffered
buffered memory (p, none) = record { pool = p; buffer = none }
buffered memory (p, some id) = record { pool = p; buffer = some (id, reset memory) }

-- Protocol::getOutputBuffer: what m_outputBuffer is, and the buffer that is returned.
unfoldable pub get_output_buffer :
    ℕ → Option ℕ → NetworkMessage → Buffered → Buffered × Option (ℕ × NetworkMessage)
get_output_buffer protocol none memory b = if has_room b.buffer then (b, b.buffer) else (b, none)
get_output_buffer protocol (some connection) memory b =
    let b' = buffered memory (get_output_message b.pool protocol (some connection) true) in
    if has_room b.buffer then (b, b.buffer) else (b', b'.buffer)

-- Protocol::onSendMessage.
abbrev pub is_buffer : ℕ → Option (ℕ × NetworkMessage) → Bool
is_buffer id none = false
is_buffer id (some (id', m)) = id == id'

unfoldable pub on_send_message : ℕ → Buffered → Buffered
on_send_message id b = if is_buffer id b.buffer then record b { buffer = none } else b
