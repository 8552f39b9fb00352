-- ===== src/Common/User/Input/Tests.antt =====
-- What a user types, at concrete inputs.
use lotospp.Base.{inl, ℕ, ◌≡◌, refl, List, [], ◌∷◌, ◌++◌, codes, arith}
use lotospp.Common.User.Login.{cmd_line, login_pwd}
use lotospp.Network.NetworkMessage.{NetworkMessage, set_read_pos, read_bytes}
use lotospp.Common.User.Input.{Reader, returned, and_then, u_read, enter_line}
use lotospp.Common.User.Input.Fixtures.{message, alone, typing}
use lotospp.Common.User.Input.Pieces.{is_plain, u_read-pieces}
use lotospp.Common.User.Input.Keys.{edit}
use lotospp.Common.User.Input.Line.{is_one_line, edit_all, u_read-enter_line}
use lotospp.Common.User.Input.Secret.{hide, u_read-hide}

abbrev sai_back_y : List ℕ
sai_back_y = codes "sai\u{8}y"

sai_back_y_is_say : edit_all [] sai_back_y ≡ codes "say"
unfolding edit_all edit
sai_back_y_is_say = refl

u_read-enter_line_example :
    (r' : Reader) × (u_read alone 20
        (set_read_pos (message (sai_back_y ++ b'\r' ∷ [])) 0)
        (typing cmd_line [])
      ≡ enter_line alone r')
    × (r'.text ≡ edit_all [] sai_back_y)
    × (r'.tbpos ≡ 0)
    × (r'.user ≡ (typing cmd_line []).user)
    × (r'.splitline ≡ (typing cmd_line []).splitline)
unfolding read_bytes is_plain is_one_line
u_read-enter_line_example =
    u_read-enter_line alone 20 (message (sai_back_y ++ b'\r' ∷ [])) sai_back_y (typing cmd_line [])
      (record { pos = refl; size = refl; fits = omega arith; same = refl }) refl refl refl refl
      (omega arith)

u_read-pieces_example :
    u_read alone 20 (set_read_pos (message (codes "say hi")) 0) (typing cmd_line [])
    ≡ and_then
        (u_read alone 20 (set_read_pos (message (codes "say")) 0) (typing cmd_line []))
        (u_read alone 20 (set_read_pos (message (codes " hi")) 0))
unfolding read_bytes is_plain
u_read-pieces_example =
    u_read-pieces alone 20 (message (codes "say hi")) (message (codes "say"))
      (message (codes " hi")) (codes "say") (codes " hi") (typing cmd_line [])
      (record { pos = refl; size = refl; fits = omega arith; same = refl })
      (record { pos = refl; size = refl; fits = omega arith; same = refl })
      (record { pos = refl; size = refl; fits = omega arith; same = refl }) refl refl refl

u_read-hide_example :
    (r₁ r₂ : Reader) × (u_read alone 20
        (set_read_pos (message (codes "pass")) 0)
        (typing login_pwd [])
      ≡ returned r₁)
    × (u_read alone 20 (set_read_pos (message (codes "****")) 0) (typing login_pwd [])
        ≡ returned r₂)
    × (r₁.sent ≡ r₂.sent)
unfolding read_bytes hide is_plain is_one_line
u_read-hide_example =
    u_read-hide alone 20 (message (codes "pass")) (message (codes "****")) (codes "pass")
      (typing login_pwd []) (record { pos = refl; size = refl; fits = omega arith; same = refl })
      (record { pos = refl; size = refl; fits = omega arith; same = refl }) refl refl (inl refl)
      refl (omega arith)

abbrev unread : NetworkMessage
unread = record (message (codes "say hi\r")) { read_pos = 0 }
