-- ===== src/Common/User/Input/Terms.antt =====
-- What uRead of src/Common/User.cpp works on: the members of User that it uses, what it needs of the
-- other components, and how it ends.
use lotospp.Base.{ℕ, Bool, true, false, List, Option}
use lotospp.Common.User.Login.{
  Stage, new_user, login_pwd, login_new_pwd, login_reenter_pwd, cmd_line, old_pwd, new_pwd,
  reenter_pwd, suicide, Level, login_level, User, Effect, Thrown, Result, Session, Account,
  LoginCom, login,
}
use lotospp.Common.User.Telopt.{Telopt}
use lotospp.Strings.Splitline.{Splitline}

abbrev pub ascii_bs : ℕ
ascii_bs = 8

abbrev pub ascii_del : ℕ
ascii_del = 127

-- `text` is the text buffer that `buffnum` selects, and `other_text` the other one. The stage is the
-- user's; that of `telopt` is set before the parser runs. `sent` are the calls so far,
-- but for the notices of the parser. The member `com` is `splitline`.
pub record Reader : Type 0 where
  pub user : User
  pub telopt : Telopt
  pub text : List ℕ
  pub other_text : List ℕ
  pub tbpos : ℕ
  pub splitline : Splitline
  pub client : Bool
  pub sent : List Effect

-- The arguments of the login and of the parser, and the other sessions.
pub record Env : Type 0 where
  pub db : List ℕ → Option Account
  pub create : List ℕ → List ℕ → ℕ
  pub crypt_new : List ℕ → List ℕ
  pub crypt_with : List ℕ → List ℕ → List ℕ
  pub past_level : Level
  pub past_command : Option LoginCom
  pub server : List ℕ
  pub version_text : List ℕ
  pub own_address : List ℕ
  pub others : List Session
  pub iequals : List ℕ → List ℕ → Bool
  pub to_lower_copy : List ℕ → List ℕ
  pub terms : List ℕ → Bool

-- `undefined` is an access through a null pointer or outside a text, or the exception for it; `hung`
-- means that the parser's fuel ran out, and `endless` that the loop's did.
pub data Reading : Type 0 where
  returned : Reader → Reading
  raised : Thrown → Reader → Reading
  undefined hung endless : Reading

abbrev pub and_then : Reading → (Reader → Reading) → Reading
and_then (returned r) f = f r
and_then (raised t r) f = raised t r
and_then undefined f = undefined
and_then hung f = hung
and_then endless f = endless

unfoldable pub log_in_with : Env → User → List ℕ → Option Result
log_in_with env =
    login env.db env.create env.crypt_new env.crypt_with env.past_level env.past_command env.server
      env.version_text env.own_address env.others env.iequals env.to_lower_copy

abbrev pub is_login : Level → Bool
is_login login_level = true
is_login _ = false

abbrev pub is_new : Stage → Bool
is_new new_user = true
is_new _ = false

abbrev pub is_cmd_line : Stage → Bool
is_cmd_line cmd_line = true
is_cmd_line _ = false

-- The stages at which a password is typed.
abbrev pub is_secret : Stage → Bool
is_secret stage = elim stage [
  | login_pwd ↦ true
  | login_new_pwd ↦ true
  | login_reenter_pwd ↦ true
  | old_pwd ↦ true
  | new_pwd ↦ true
  | reenter_pwd ↦ true
  | suicide ↦ true
  | _ ↦ false
]
