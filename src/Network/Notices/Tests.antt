-- ===== src/Network/Notices/Tests.antt =====
-- What protocols send by themselves, at concrete inputs.
use lotospp.Base.{ℕ, ◌≡◌, refl, true, [], ◌∷◌, ◌++◌, none, some, codes, arith, Bool}
use lotospp.Common.User.Print.{until_nul}
use lotospp.Network.NetworkMessage.{NetworkMessage, le_bytes}
use lotospp.Network.NetworkMessage.Log.{append, append_all, Represents, text}
use lotospp.Network.OutputMessagePool.{Pool, free_message, deliver}
use lotospp.Network.Notices.{
  Buffered, send_calls, write, send_echo_off, set_xterm_title, get_output_buffer,
}
use lotospp.Network.Notices.Sending.{send_calls_lem, written, write_lem}
use lotospp.Network.Notices.Buffer.{TakesWhole, get_output_buffer-takes}

abbrev new_pool : Pool
new_pool = record {
  created = 0;
  messages = λ i. free_message;
  output_messages = [];
  auto_send = [];
  to_add = [];
  frame_time = 1000;
  is_open = true;
  protocol_refs = λ x. 0;
  connection_refs = λ x. 0;
}

abbrev old_memory : NetworkMessage
old_memory = record { msg_size = 3; read_pos = 2; msg_buf = λ i. 7 }

abbrev accepts : ℕ → ℕ → Bool
accepts connection id = true

send_echo_off_sent :
    (q : Pool) × (id : ℕ) × (m : NetworkMessage) × (send_calls accepts new_pool 4
        (some 9)
        send_echo_off
        old_memory
      ≡ some (q, m, some (deliver accepts id (some 9))))
    × Represents m (append_all [] send_echo_off)
unfolding send_echo_off le_bytes
send_echo_off_sent =
    send_calls_lem accepts new_pool 4 9 send_echo_off old_memory refl
      (omega arith, (omega arith, (omega arith, tt)))

send_echo_off_bytes : append_all [] send_echo_off ≡ 255 ∷ 251 ∷ 1 ∷ []
unfolding append_all append send_echo_off le_bytes
send_echo_off_bytes = refl

-- The NUL of AddString stands in the title's escape sequence.
title_bytes :
    append_all [] (set_xterm_title (codes "me")) ≡ 27 ∷ codes "]0;" ++ 0 ∷ codes "me" ++ 0 ∷ 7 ∷ []
unfolding append_all append set_xterm_title le_bytes until_nul
title_bytes = refl

write_lem_example :
    (q : Pool) × (id : ℕ) × (m : NetworkMessage) × (write accepts new_pool 4
        (some 9)
        (codes "hi")
        old_memory
      ≡ some (q, m, some (deliver accepts id (some 9))))
    × Represents m (written (codes "hi"))
unfolding until_nul
write_lem_example = write_lem accepts new_pool 4 9 (codes "hi") old_memory refl (omega arith)

get_output_buffer-takes_example :
    (b' : Buffered) × (id : ℕ) × (m : NetworkMessage) × (get_output_buffer 4
        (some 9)
        old_memory
        (record { pool = new_pool; buffer = none })
      ≡ (b', some (id, m)))
    × (b'.buffer ≡ some (id, m))
    × TakesWhole (text (codes "hi")) m
get_output_buffer-takes_example =
    get_output_buffer-takes 4 9 old_memory (record { pool = new_pool; buffer = none })
      (text (codes "hi")) refl tt (omega arith) (omega arith)
