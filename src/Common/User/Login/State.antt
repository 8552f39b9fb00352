-- ===== src/Common/User/Login/State.antt =====
-- What the login of src/Common/User.cpp works on: the members of User that it uses, the enumerations of
-- src/Common/Enums, the calls that it makes, and its operations on text.
use lotospp.Base.{ℕ, ◌-◌, Bool, ◌&&◌, ◌||◌, List, [], ◌∷◌, Option, leb, if◌then◌else◌}
pub use lotospp.Base.{equals}

pub data Stage : Type 0 where
  disconnect swapped new_user login_id login_pwd login_name login_new_pwd login_reenter_pwd : Stage
  login_prompt cmd_line old_pwd new_pwd reenter_pwd suicide : Stage

-- UserLevel_LOGIN, UserLevel_NOVICE, and a level that the database gives.
pub data Level : Type 0 where
  login_level novice_level : Level
  stored_level : ℕ → Level

pub record User : Type 0 where
  pub stage : Stage
  pub level : Level
  pub name : List ℕ
  pub password : Option (List ℕ)
  pub attempts : ℕ
  pub guid : ℕ

-- What the calls of other objects are, in their order.
pub data Effect : Type 0 where
  print write : List ℕ → Effect
  logout remove_creature remove_list echo_on : Effect
  kick_user prompt_user : ℕ → Effect
  tell : ℕ → List ℕ → Effect
  create_account : List ℕ → List ℕ → Effect
  take_over : ℕ → Effect

-- What is thrown: a stage, or the enum_conversion_error of UserLevel::fromInteger.
pub data Thrown : Type 0 where
  stage_thrown : Stage → Thrown
  conversion_error : Thrown

-- The user, the effects, and what was thrown, if anything was.
pub record Result : Type 0 where
  pub user : User
  pub effects : List Effect
  pub thrown : Option Thrown

pub record Session : Type 0 where
  pub id : ℕ
  pub name : List ℕ
  pub address : List ℕ
  pub is_login : Bool

-- A row of the table of users.
pub record Account : Type 0 where
  pub id : ℕ
  pub level : ℕ
  pub password : List ℕ

abbrev pub min_username_len : ℕ
min_username_len = 3

abbrev pub max_username_len : ℕ
max_username_len = 12

abbrev pub min_password_len : ℕ
min_password_len = 6

abbrev pub max_login_attempts : ℕ
max_login_attempts = 3

unfoldable pub is_alpha : ℕ → Bool
is_alpha c = (leb b'a' c && leb c b'z') || (leb b'A' c && leb c b'Z')

unfoldable pub to_upper : ℕ → ℕ
to_upper c = if leb b'a' c && leb c b'z' then c - 32 else c

pub capitalise : List ℕ → List ℕ
capitalise [] = []
capitalise (c ∷ cs) = to_upper c ∷ cs

pub data LoginCom : Type 0 where
  quit who version : LoginCom
