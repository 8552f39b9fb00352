-- ===== src/Common/User/Input/Fixtures.antt =====
-- A message, sessions and an environment for the tests of what a user types.
use lotospp.Base.{ℕ, false, true, List, [], ◌∷◌, none, length, get_or, codes}
use lotospp.Common.User.Login.{Stage, cmd_line, novice_level, equals}
use lotospp.Common.User.Telopt.{Telopt}
use lotospp.Network.NetworkMessage.{NetworkMessage}
use lotospp.Common.User.Input.{Reader, Env}

abbrev pub message : List ℕ → NetworkMessage
message bytes = record {
  msg_size = length bytes;
  read_pos = length bytes;
  msg_buf = λ i. get_or bytes i 0;
}

-- Nobody else is there, and the database is empty.
abbrev pub alone : Env
alone = record {
  db = λ name. none;
  create = λ name hash. 9;
  crypt_new = λ p. 7 ∷ p;
  crypt_with = λ p setting. 7 ∷ p;
  past_level = novice_level;
  past_command = none;
  server = codes "home";
  version_text = codes "1";
  own_address = codes "10.0.0.1";
  others = [];
  iequals = equals;
  to_lower_copy = λ s. s;
  terms = λ term. false;
}

abbrev no_options : Telopt
no_options = record {
  buff = [];
  bpos = 0;
  has_echo = true;
  has_sga = true;
  has_termtype = true;
  has_termsize = true;
  got_info = true;
  is_ansi = false;
  term_cols = 80;
  term_rows = 25;
  term_type = [];
  stage = cmd_line;
  is_login = false;
  notices = [];
}

-- The user has typed the text.
abbrev pub typing : Stage → List ℕ → Reader
typing stage text = record {
  user = record {
    stage = stage;
    level = novice_level;
    name = codes "Anna";
    password = none;
    attempts = 0;
    guid = 4;
  };
  telopt = no_options;
  text = text;
  other_text = [];
  tbpos = length text;
  splitline = record {
    line = [];
    word = [];
    word_ptr = [];
    start_quote = false;
    end_quote = false;
  };
  client = true;
  sent = [];
}
