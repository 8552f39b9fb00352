-- ===== src/Common/User/Input.antt =====
-- What a user types: uRead, parseLine, prompt, runCmdLine, uWrite and kick of src/Common/User.cpp, over
-- the line splitter, the login and the option parser, and the commands of src/Commands. The
-- rest of the input is walked along; `left` is the number of its bytes by `len` and the index.
mod Terms
pub mod Kept
pub mod Fixtures
pub mod Keys
pub mod Line
pub mod Ends
pub mod Secret
mod Tests
pub mod Pieces
unfoldable pub use Terms.*
use lotospp.Base.{
  ℕ, zero, suc, ◌+◌, ◌-◌, Bool, true, false, ◌&&◌, ◌||◌, not, List, [], ◌∷◌, ◌++◌, Option, none,
  some, ltb, leb, ◌==◌, if◌then◌else◌, length, take, drop, set, codes,
}
use lotospp.Common.User.Login.{
  Stage, new_user, login_id, login_name, login_pwd, login_new_pwd, login_reenter_pwd, login_prompt,
  cmd_line, old_pwd, new_pwd, reenter_pwd, suicide, disconnect, swapped, Level, login_level,
  novice_level, stored_level, User, Effect, print, write, logout, remove_creature, remove_list,
  tell, Thrown, Result, Session,
}
use lotospp.Common.User.Telopt.{Telopt, telcmd_iac, byte_at, parse_telopt}
use lotospp.Common.User.Print.{until_nul}
use lotospp.Strings.Splitline.{Splitline, parse, wordptr}
use lotospp.Strings.Misc.{clean_string}
use lotospp.Network.NetworkMessage.{NetworkMessage, get_raw}

unfoldable pub emit : List Effect → Reader → Reader
emit es r = record r { sent = r.sent ++ es }

pub u_write : List ℕ → Reader → Reader
unfolding emit
u_write message r = if r.client && not (length message == 0) then emit (write message ∷ []) r else r

pub kick : Bool → Effect
kick client = if client then logout else remove_creature

unfoldable pub prompt_text : Env → User → Option (List ℕ)
prompt_text env u = elim u.stage [
  | login_id ↦ some (codes "Login: ")
  | login_name ↦ some (codes "Login: ")
  | login_pwd ↦ some (codes "Enter password: ")
  | login_new_pwd ↦ some (codes "Enter a password: ")
  | login_reenter_pwd ↦ some (codes "Re-enter password: ")
  | cmd_line ↦ some (until_nul u.name ++ codes "@" ++ until_nul env.server ++ codes ">\n")
  | old_pwd ↦ some (codes "Enter old password: ")
  | new_pwd ↦ some (codes "Enter new password: ")
  | reenter_pwd ↦ some (codes "Re-enter new password: ")
  | suicide ↦ some (codes "Enter password: ")
  | new_user ↦ none
  | login_prompt ↦ none
  | disconnect ↦ none
  | swapped ↦ none
]

unfoldable pub prompt : Env → Reader → Reader
prompt env r = elim (prompt_text env r.user) [ none ↦ r | some text ↦ emit (print text ∷ []) r ]

-- The loop over listUser, whose other entries are the environment's.
pub tell_all : List ℕ → List Session → List Effect
tell_all text [] = []
tell_all text (u ∷ us) = tell u.id text ∷ tell_all text us

-- Say::execute.
unfoldable pub say : Env → Reader → Reading
say env r =
    if ltb (length r.splitline.word) 2
    then returned (emit (print (codes "Usage: .say <text>\n") ∷ []) r)
    else elim (wordptr r.splitline 1) [
      | none ↦ undefined
      | some text ↦
          let said = until_nul text ++ codes "\n" in
          let heard = until_nul r.user.name ++ codes " say: " ++ said in
          returned (emit (print (codes "You say: " ++ said) ∷ tell_all heard env.others) r)
    ]

-- Quit::execute.
unfoldable pub quit : Reader → Reading
quit r = returned (emit (kick r.client ∷ remove_list ∷ []) r)

-- The commands behind the test for a dot.
unfoldable pub run_word : Env → List ℕ → Reader → Reading
run_word env w r =
    if env.iequals w (codes "say")
    then and_then (say env r) (λ r'. returned (prompt env r'))
    else if env.iequals w (codes "quit")
    then quit r
    else returned (emit (print (codes "Unknown command.\n") ∷ []) r)

-- runCmdLine on the words of the line.
unfoldable pub run_words : Env → List (List ℕ) → Reader → Reading
run_words env [] r = returned r
run_words env ([] ∷ ws) r = returned r
run_words env ((c ∷ w) ∷ ws) r =
    if c == b'.'
    then if length w == 0
      then returned (prompt env (emit (print (codes "Missing command.\n") ∷ []) r))
      else run_word env w r
    else run_word env (c ∷ w) r

unfoldable pub run_cmd_line : Env → Reader → Reading
run_cmd_line env r = run_words env r.splitline.word r

-- The swap of the text buffers behind a line.
unfoldable pub swap_buffer : Reader → Reader
swap_buffer r = record r { text = r.other_text; other_text = r.text }

-- parseLine, on the line split; a stage that is no command line is an internal error.
unfoldable pub parsed : Env → Splitline → Reader → Reading
parsed env splitline r =
    let r' : Reader = record r { splitline = splitline } in
    let reset : Reader = record r' { user = record r.user { stage = cmd_line } } in
    let error = codes "INTERNAL ERROR: Invalid stage in User::parseLine()!\n" in
    and_then
      (if is_cmd_line r.user.stage
        then run_cmd_line env r'
        else returned (prompt env (emit (print error ∷ []) reset)))
      (λ r''. returned (swap_buffer r''))

unfoldable pub parse_line : Env → Reader → Reading
parse_line env r =
    let line = clean_string r.text in
    elim (parse r.splitline line) [
      | none ↦ undefined
      | some splitline ↦ parsed env splitline (record r { text = line })
    ]

-- A line at the level LOGIN, behind login.
unfoldable pub logged_in : Env → Reader → Result → Reading
logged_in env r result =
    let r' = emit result.effects (record r { user = result.user }) in
    elim result.thrown [
      | some t ↦ raised t r'
      | none ↦ returned (if is_login result.user.level then prompt env r' else r')
    ]

-- The end of a line, behind the echo.
unfoldable pub enter_line : Env → Reader → Reading
enter_line env r =
    if is_login r.user.level
    then elim (log_in_with env r.user r.text) [
      | none ↦ undefined
      | some result ↦ logged_in env r result
    ]
    else parse_line env r

-- `erase(tbpos)` throws for a position behind the text.
unfoldable pub end_line : Env → Reader → Reading
end_line env r =
    if ltb (length r.text) r.tbpos
    then undefined
    else let r' : Reader = record r { text = take r.tbpos r.text; tbpos = 0 } in
      enter_line env
        (if r.telopt.has_echo && r.telopt.has_sga then u_write (codes "\r\n") r' else r')

unfoldable pub back_space : Reader → Reading
back_space r =
    if r.tbpos == 0
    then returned r
    else if ltb (length r.text) (r.tbpos - 1)
    then undefined
    else returned (
        u_write (codes "\u{8} \u{8}")
          (record r { text = take (r.tbpos - 1) r.text; tbpos = r.tbpos - 1 }))

-- The echo of an ordinary byte.
pub echo : Stage → ℕ → List ℕ
echo stage c = if is_secret stage then codes "*" else c ∷ []

-- `replace` at the position puts a byte over another or at the end, and throws behind the text.
unfoldable pub type_byte : ℕ → Reader → Reading
type_byte c r =
    if ltb (length r.text) r.tbpos
    then undefined
    else let text = if r.tbpos == length r.text then r.text ++ c ∷ [] else set r.text r.tbpos c in
      returned (u_write (echo r.user.stage c) (record r { text = text; tbpos = r.tbpos + 1 }))

-- The `switch` of uRead, and the test before it.
unfoldable pub read_byte : Env → ℕ → Reader → Reading
read_byte env c r =
    if is_new r.user.stage
    then returned r
    else if c == b'\r'
    then end_line env r
    else if (c == 0) || (c == b'\n')
    then returned r
    else if (c == ascii_bs) || (c == ascii_del)
    then back_space r
    else type_byte c r

-- What the part of the loop for telnet options comes to: the end of uRead, or `len` and the input from
-- where the loop goes on.
pub data Options : Type 0 where
  finished : Reading → Options
  remains : ℕ → List ℕ → Reader → Options

-- Behind parseTelopt.
unfoldable pub after_options : Reader → Option (Telopt × Bool) → Options
after_options r none = finished hung
after_options r (some (t, complete)) =
    let r' : Reader = record r { telopt = t; user = record r.user { stage = t.stage } } in
    let emptied : Reader = record r' { telopt = record t { bpos = 0 } } in
    if not complete || (t.bpos == 0)
    then finished (returned r')
    else remains t.bpos (take t.bpos t.buff) emptied

-- `fuel` is that of parseTelopt. `replace` throws for a position behind the buffer.
unfoldable pub options : Env → ℕ → ℕ → List ℕ → Reader → Options
options env fuel left rest r =
    let t : Telopt = r.telopt in
    let buff = take t.bpos t.buff ++ rest ++ drop (t.bpos + left) t.buff in
    let t' : Telopt = record t {
      buff = buff;
      bpos = t.bpos + left;
      stage = r.user.stage;
      is_login = is_login r.user.level;
    } in
    if ltb (length t.buff) t.bpos
    then finished undefined
    else after_options r (parse_telopt env.terms fuel t')

-- The loop of uRead; `fuel'` is that of the option parser.
unfoldable pub read_loop : Env → ℕ → ℕ → ℕ → List ℕ → Reader → Reading
read_loop env fuel' zero left rest r = endless
read_loop env fuel' (suc fuel) zero rest r = returned r
read_loop env fuel' (suc fuel) (suc left) rest r =
    elim ((byte_at rest 0 == telcmd_iac) || not (r.telopt.bpos == 0)) [
      | true ↦ elim (options env fuel' (suc left) rest r) [
        | finished reading ↦ reading
        | remains len input r' ↦
            and_then (read_byte env (byte_at input 0) r')
              (read_loop env fuel' fuel (len - 1) (drop 1 input))
      ]
      | false ↦
          and_then (read_byte env (byte_at rest 0) r) (read_loop env fuel' fuel left (drop 1 rest))
    ]

-- uRead. The loop has one turn more than the bytes of the message and of the buffer.
unfoldable pub u_read : Env → ℕ → NetworkMessage → Reader → Reading
u_read env fuel' msg r = elim (get_raw msg) [
  | none ↦ undefined
  | some (input, m) ↦ read_loop env fuel' (suc (msg.msg_size + r.telopt.bpos)) msg.msg_size input r
]
