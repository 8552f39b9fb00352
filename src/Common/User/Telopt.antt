-- ===== src/Common/User/Telopt.antt =====
-- The telnet option parser of src/Common/User.cpp: parseTelopt, getTermsize and getTermtype.
-- `buff` is a std::string, in which the position behind the end holds a NUL, as do all that a read
-- beyond it is taken to give. Which terminals the
-- configuration lists as knowing ANSI codes is an argument.
pub mod Rounds
pub mod Plain
mod Tests
use lotospp.Base.{
  ℕ, zero, suc, ◌+◌, ◌-◌, ◌*◌, ◌%◌, ◌^◌, Bool, true, false, ◌&&◌, ◌||◌, not, List, [], ◌∷◌, ◌++◌,
  Option, none, some, ltb, leb, ◌==◌, if◌then◌else◌, take, drop, codes,
}
use lotospp.Common.User.Login.{Stage, login_id}

abbrev pub telcmd_se : ℕ
telcmd_se = 240

abbrev pub telcmd_ayt : ℕ
telcmd_ayt = 246

abbrev pub telcmd_sb : ℕ
telcmd_sb = 250

abbrev pub telcmd_will : ℕ
telcmd_will = 251

abbrev pub telcmd_wont : ℕ
telcmd_wont = 252

abbrev pub telcmd_do : ℕ
telcmd_do = 253

abbrev pub telcmd_dont : ℕ
telcmd_dont = 254

abbrev pub telcmd_iac : ℕ
telcmd_iac = 255

abbrev pub telopt_echo : ℕ
telopt_echo = 1

abbrev pub telopt_sga : ℕ
telopt_sga = 3

abbrev pub telopt_term : ℕ
telopt_term = 24

abbrev pub telopt_naws : ℕ
telopt_naws = 31

-- What uPrintf is called for.
pub data Notice : Type 0 where
  unexpected_sub unexpected_do unexpected_dont : ℕ → Notice
  ask_term unexpected_will no_size no_term no_character_mode echo_refused here iac : Notice
  corrupt_size corrupt_type not_ansi login_prompted : Notice
  default_size size new_size : ℕ → ℕ → Notice
  terminal_type : List ℕ → Notice

-- The members that the parser uses; the flags of flagsTelnet by name, and whether the level is LOGIN.
pub record Telopt : Type 0 where
  pub buff : List ℕ
  pub bpos : ℕ
  pub has_echo : Bool
  pub has_sga : Bool
  pub has_termtype : Bool
  pub has_termsize : Bool
  pub got_info : Bool
  pub is_ansi : Bool
  pub term_cols : ℕ
  pub term_rows : ℕ
  pub term_type : List ℕ
  pub stage : Stage
  pub is_login : Bool
  pub notices : List Notice

unfoldable pub byte_at : List ℕ → ℕ → ℕ
byte_at [] i = 0
byte_at (x ∷ xs) zero = x
byte_at (x ∷ xs) (suc i) = byte_at xs i

pub say : Notice → Telopt → Telopt
say n t = record t { notices = t.notices ++ n ∷ [] }

-- The position behind `pos`, where an IAC that stands for 255 is skipped.
pub next_pos : List ℕ → ℕ → ℕ
next_pos buff pos = if byte_at buff pos == telcmd_iac then pos + 1 else pos

pub size_at : List ℕ → ℕ → ℕ → ℕ
size_at buff pos1 pos2 = (byte_at buff pos1 * 256 + byte_at buff pos2) % 2 ^ 16

-- The end of getTermsize: the sizes that were read, or the former ones for zeros.
pub set_size : ℕ → ℕ → Telopt → Telopt
set_size cols rows t =
    let cols' : ℕ = if t.term_cols == 0 then cols else t.term_cols in
    let rows' : ℕ = if t.term_rows == 0 then rows else t.term_rows in
    let default : Bool = (t.term_cols == 0) || (t.term_rows == 0) in
    let t' : Telopt = record t { term_cols = cols'; term_rows = rows' } in
    if t.is_login
    then record (say (if default then default_size cols' rows' else size cols' rows') t') {
      has_termsize = true;
    }
    else say (new_size cols' rows') t'

-- The sizes that were read up to `row2`, or zeros where the option does not end there.
pub check_size : ℕ → ℕ → ℕ → Telopt → Telopt
check_size cols rows row2 t =
    let corrupt : Telopt = say corrupt_size (record t { term_cols = 0; term_rows = 0 }) in
    if (byte_at t.buff (row2 + 1) == telcmd_iac) && (byte_at t.buff (row2 + 2) == telcmd_se)
    then set_size cols rows t
    else set_size cols rows corrupt

-- getTermsize: the state, and the shift or 0.
pub get_termsize : Telopt → Telopt × ℕ
get_termsize t =
    let b : List ℕ = t.buff in
    let col1 : ℕ = next_pos b 3 in
    let col2 : ℕ = next_pos b (col1 + 1) in
    let row1 : ℕ = next_pos b (col2 + 1) in
    let row2 : ℕ = next_pos b (row1 + 1) in
    let empty : Telopt = record t { term_cols = 0; term_rows = 0 } in
    let read : Telopt = record t {
      term_cols = size_at b col1 col2;
      term_rows = size_at b row1 row2;
    } in
    if ltb t.bpos 9
    then (t, 0)
    else if ltb t.bpos col2
    then (empty, 0)
    else if ltb (t.bpos - 3) row2
    then (read, 0)
    else (check_size t.term_cols t.term_rows row2 read, row2 + 3)

-- The loop of getTermtype over `fuel` positions from `i`: the position of the option's end, or `none`
-- where `i` comes to bpos.
pub find_end : ℕ → List ℕ → ℕ → ℕ → Option ℕ
find_end zero buff bpos i = none
find_end (suc fuel) buff bpos i =
    let rest = find_end fuel buff bpos (i + 1) in
    if (byte_at buff i == telcmd_iac) && ltb i (bpos - 1) && (byte_at buff (i + 1) == telcmd_se)
    then some i
    else rest

-- The end of getTermtype, behind the assignment of the type.
pub set_type : (List ℕ → Bool) → Telopt → Telopt
set_type terms t =
    let ansi : Bool = terms t.term_type in
    let t' : Telopt =
      say (terminal_type t.term_type) (record t { has_termtype = true; is_ansi = ansi }) in
    if ansi then t' else say not_ansi t'

-- getTermtype: the state, and the shift or 0.
pub get_termtype : (List ℕ → Bool) → Telopt → Telopt × ℕ
get_termtype terms t =
    if ltb t.bpos 6
    then (t, 0)
    else if not (byte_at t.buff 3 == 0)
    then (set_type terms (record (say corrupt_type t) { term_type = codes "<unresolved>" }), 4)
    else elim (find_end (t.bpos - 4) t.buff t.bpos 4) [
      | none ↦ (t, 0)
      | some i ↦
          if i == 4
          then (set_type terms (record t { term_type = codes "<unresolved>" }), i + 2)
          else (
            set_type terms (record t { buff = take i t.buff; term_type = drop 4 (take i t.buff) }),
            i + 2,
          )
    ]

-- A turn of the loop of parseTelopt: it returns false, or shifts the buffer.
pub data Turn : Type 0 where
  incomplete : Telopt → Turn
  shifted : ℕ → Telopt → Turn

pub shift_or_wait : Telopt × ℕ → Turn
shift_or_wait (t, shift) = if shift == 0 then incomplete t else shifted shift t

pub sub_option : (List ℕ → Bool) → Telopt → Turn
sub_option terms t =
    let opt : ℕ = byte_at t.buff 2 in
    if opt == telopt_naws
    then shift_or_wait (get_termsize t)
    else if opt == telopt_term
    then shift_or_wait (get_termtype terms t)
    else shifted 0 (say (unexpected_sub opt) t)

pub on_will : ℕ → Telopt → Telopt
on_will opt t =
    if opt == telopt_naws
    then t
    else if opt == telopt_term
    then say ask_term t
    else say unexpected_will t

pub on_wont : ℕ → Telopt → Telopt
on_wont opt t =
    if opt == telopt_naws
    then record (say no_size t) { has_termsize = true }
    else if opt == telopt_term
    then record (say no_term t) { has_termtype = true; term_type = codes "<unresolved>" }
    else say unexpected_will t

pub on_do : ℕ → Telopt → Telopt
on_do opt t =
    if opt == telopt_sga
    then record t { has_sga = true }
    else if opt == telopt_echo
    then record t { has_echo = true }
    else say (unexpected_do opt) t

pub on_dont : ℕ → Telopt → Telopt
on_dont opt t =
    if opt == telopt_sga
    then record (say no_character_mode t) { has_sga = true }
    else if opt == telopt_echo
    then record (say echo_refused t) { has_echo = true }
    else say (unexpected_dont opt) t

pub command : (ℕ → Telopt → Telopt) → Telopt → Turn
command on t = if ltb t.bpos 3 then incomplete t else shifted 3 (on (byte_at t.buff 2) t)

pub turn : (List ℕ → Bool) → Telopt → Turn
turn terms t =
    let cmd : ℕ = byte_at t.buff 1 in
    if ltb t.bpos 2
    then incomplete t
    else if cmd == telcmd_sb
    then sub_option terms t
    else if cmd == telcmd_will
    then command on_will t
    else if cmd == telcmd_wont
    then command on_wont t
    else if cmd == telcmd_do
    then command on_do t
    else if cmd == telcmd_dont
    then command on_dont t
    else if cmd == telcmd_ayt
    then shifted 2 (say here t)
    else if cmd == telcmd_iac
    then shifted 2 (say iac t)
    else shifted 2 t

unfoldable pub erase : ℕ → Telopt → Telopt
erase shift t = record t { bpos = t.bpos - shift; buff = drop shift t.buff }

pub at_iac : Telopt → Bool
at_iac t = not (t.bpos == 0) && (byte_at t.buff 0 == telcmd_iac)

-- Behind the loop.
pub finish : Telopt → Telopt
finish t =
    if not t.got_info && t.has_echo && t.has_sga && t.has_termtype && t.has_termsize
    then record (say login_prompted t) { got_info = true; stage = login_id }
    else t

-- parseTelopt: the state and the result; `none` means that the fuel ran out.
unfoldable pub parse_telopt : (List ℕ → Bool) → ℕ → Telopt → Option (Telopt × Bool)
parse_telopt terms zero t = none
parse_telopt terms (suc fuel) t =
    if at_iac t
    then elim (turn terms t) [
      | incomplete t' ↦ some (t', false)
      | shifted shift t' ↦ parse_telopt terms fuel (erase shift t')
    ]
    else some (finish t, true)
