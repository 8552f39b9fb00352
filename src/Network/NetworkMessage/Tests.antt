-- ===== src/Network/NetworkMessage/Tests.antt =====
-- Messages at concrete inputs.
use lotospp.Base.{◌≡◌, refl, List, [], ◌∷◌, some, codes, arith}
use lotospp.Network.NetworkMessage.{
  NetworkMessage, le_bytes, has_nul, reset, get_uint, get_raw, get_string, add_uint, add_string,
  set_read_pos,
}
use lotospp.Network.NetworkMessage.Log.{
  Write, byte, u16, text, perform, perform_all, append, append_all, Represents, reset-Represents,
  perform-append, get_raw-perform_all,
}
use lotospp.Network.NetworkMessage.RoundTrip.{get_uint-add_uint, get_string-add_string}

abbrev blank : NetworkMessage
blank = record { msg_size = 7; read_pos = 3; msg_buf = λ i. 0 }

abbrev hello : List Write
hello = byte 65 ∷ u16 513 ∷ text (codes "hi") ∷ []

hello_log : append_all [] hello ≡ 65 ∷ 1 ∷ 2 ∷ 104 ∷ 105 ∷ 0 ∷ []
unfolding append_all append le_bytes
hello_log = refl

perform-append_example :
    (m' : NetworkMessage) × (perform (reset blank) (u16 513) ≡ some m')
    × Represents m' (append [] (u16 513))
unfolding le_bytes
perform-append_example =
    perform-append (reset blank) [] (u16 513) (reset-Represents blank) (omega arith)

get_raw-perform_all_example :
    (m' : NetworkMessage) × (perform_all (reset blank) hello ≡ some m')
    × (get_raw (set_read_pos m' 0) ≡ some (append_all [] hello, m'))
unfolding le_bytes
get_raw-perform_all_example = get_raw-perform_all blank hello (omega arith)

get_uint-add_uint_example :
    (m' : NetworkMessage) × (add_uint 4 blank 70000 ≡ some m')
    × (get_uint 4 (set_read_pos m' 3) ≡ some (70000, m'))
get_uint-add_uint_example = get_uint-add_uint 4 70000 blank (omega arith) (omega arith)

get_string-add_string_example :
    (m' : NetworkMessage) × (add_string (reset blank) (codes "hi") ≡ some m')
    × (get_string (set_read_pos m' 0) ≡ some (0 ∷ [], m'))
unfolding has_nul
get_string-add_string_example = get_string-add_string blank (codes "hi") refl (omega arith)
