-- ===== src/Common/User/Telopt/Tests.antt =====
-- The telnet option parser at concrete inputs.
use lotospp.Base.{
  ℕ, ◌≡◌, refl, Bool, true, false, List, [], ◌∷◌, ◌++◌, none, some, length, codes, arith,
}
use lotospp.Common.User.Login.{new_user}
use lotospp.Common.User.Telopt.{
  Telopt, byte_at, say, next_pos, size_at, set_size, check_size, get_termsize, find_end, set_type,
  get_termtype, at_iac, parse_telopt,
}
use lotospp.Common.User.Telopt.Rounds.{is_stuck, parse_telopt_hangs}
use lotospp.Common.User.Telopt.Plain.{parse_telopt_returns}

abbrev received : List ℕ → Telopt
received bytes = record {
  buff = bytes;
  bpos = length bytes;
  has_echo = false;
  has_sga = false;
  has_termtype = false;
  has_termsize = false;
  got_info = false;
  is_ansi = false;
  term_cols = 80;
  term_rows = 25;
  term_type = [];
  stage = new_user;
  is_login = true;
  notices = [];
}

-- No terminal is listed.
abbrev plain : List ℕ → Bool
plain term = false

-- IAC SB NAWS 0 100 0 40 IAC SE.
abbrev window : Telopt
window = received (255 ∷ 250 ∷ 31 ∷ 0 ∷ 100 ∷ 0 ∷ 40 ∷ 255 ∷ 240 ∷ [])

window_columns : (get_termsize window).0.term_cols ≡ 100
unfolding get_termsize check_size set_size next_pos size_at byte_at say
window_columns = refl

window_shift : (get_termsize window).1 ≡ 9
unfolding get_termsize check_size set_size next_pos size_at byte_at say
window_shift = refl

-- IAC SB TERM IS "vt" IAC SE and the text "hi", which is lost.
abbrev terminal : Telopt
terminal = received (255 ∷ 250 ∷ 24 ∷ 0 ∷ codes "vt" ++ 255 ∷ 240 ∷ codes "hi")

text_behind_type : (get_termtype plain terminal).0.buff ≡ 255 ∷ 250 ∷ 24 ∷ 0 ∷ codes "vt"
unfolding get_termtype find_end set_type byte_at say
text_behind_type = refl

-- IAC SB 32, a request for the terminal's speed.
abbrev speed : Telopt
speed = received (255 ∷ 250 ∷ 32 ∷ [])

parse_telopt_hangs_example : parse_telopt plain 1000 speed ≡ none
unfolding is_stuck at_iac byte_at
parse_telopt_hangs_example = parse_telopt_hangs plain 1000 speed refl

-- IAC DO SGA.
abbrev answer : Telopt
answer = received (255 ∷ 253 ∷ 3 ∷ [])

parse_telopt_returns_example : (r : Telopt × Bool) × (parse_telopt plain 4 answer ≡ some r)
parse_telopt_returns_example = parse_telopt_returns plain 4 answer (omega arith) refl
