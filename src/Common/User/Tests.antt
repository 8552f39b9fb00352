-- ===== src/Common/User/Tests.antt =====
-- A user's methods at concrete inputs.
use lotospp.Base.{
  ℕ, ◌≡◌, refl, ◌⊎◌, true, List, [], ◌∷◌, Option, none, some, codes, arith, if◌then◌else◌,
}
use lotospp.Common.User.Login.{
  User, login_pwd, login_name, login_prompt, login_level, novice_level, cmd_line, Account, Result,
  conversion_error, print, login, enter_password, log_in, load, connect, echo_on, create_account,
  write, find_command, equals, capitalise,
}
use lotospp.Common.User.Login.Accounts.{
  step, login_throws, new_account, any_name, cmd_line_needs_password,
}
use lotospp.Common.User.Print.{
  print_loop, print_text, crlf, drop_last_slash, until_nul, print_text_lem,
}

last_slash_is_lost : print_text (codes "a/b\n/") ≡ codes "a/b\r\n"
unfolding print_text print_loop
last_slash_is_lost = refl

print_text_lem_example :
    print_text (codes "a//b\n/") ≡ crlf (drop_last_slash (until_nul (codes "a//b\n/")))
print_text_lem_example = print_text_lem (codes "a//b\n/")

-- One account, anna, and a hash that marks the password with a 7.
abbrev anna : Account
anna = record { id = 4; level = 1; password = 7 ∷ codes "secret" }

abbrev table : List ℕ → Option Account
table name = if equals name (codes "Anna") then some anna else none

abbrev marked : List ℕ → List ℕ
marked p = 7 ∷ p

abbrev marked_with : List ℕ → List ℕ → List ℕ
marked_with p setting = 7 ∷ p

abbrev first_row : List ℕ → List ℕ → ℕ
first_row name hash = 9

-- For a name that is in lower case already.
abbrev unchanged : List ℕ → List ℕ
unchanged s = s

abbrev line : User → List ℕ → Option Result
line =
    step table first_row marked marked_with novice_level none (codes "home") (codes "1")
      (codes "10.0.0.1") [] equals unchanged

abbrev at_password : Option (List ℕ) → User
at_password p = record {
  stage = login_pwd;
  level = login_level;
  name = codes "Anna";
  password = p;
  attempts = 0;
  guid = 0;
}

login_throws_once :
    (r : Result) × (line (at_password (some (7 ∷ codes "secret"))) (codes "secret") ≡ some r)
    × (r.thrown ≡ some conversion_error)
    × (r.user.stage ≡ login_pwd)
    × (r.effects ≡ [])
login_throws_once =
    login_throws table first_row marked marked_with novice_level none (codes "home") (codes "1")
      (codes "10.0.0.1") [] equals unchanged (at_password (some (7 ∷ codes "secret")))
      (codes "secret") (codes "secret") 7 anna refl (omega arith) refl refl refl (omega arith)

new_account_example :
    (r r' : Result) × (line (at_password none) (codes "secret") ≡ some r)
    × (line r.user (codes "secret") ≡ some r')
    × (r'.user.stage ≡ login_prompt)
    × (r'.user.level ≡ novice_level)
    × (r'.thrown ≡ none)
    × (r'.effects
        ≡ echo_on
          ∷ create_account (codes "Anna") (marked (codes "secret"))
          ∷ write (codes "press [ENTER] to login")
          ∷ [])
new_account_example =
    new_account table first_row marked marked_with novice_level none (codes "home") (codes "1")
      (codes "10.0.0.1") [] equals unchanged (at_password none) (codes "secret") (λ p. refl) refl
      refl (omega arith)

abbrev at_name : User
at_name = record (at_password none) { stage = login_name }

any_name_example :
    (r : Result) × (line at_name (codes "b0b!") ≡ some r)
    × (r.user.stage ≡ login_pwd)
    × (r.user.name ≡ capitalise (unchanged (codes "b0b!")))
unfolding find_command
any_name_example =
    any_name table first_row marked marked_with novice_level none (codes "home") (codes "1")
      (codes "10.0.0.1") [] equals unchanged at_name (codes "b0b!") refl refl refl (omega arith)
      (omega arith)

-- An account whose level is none of the four; the level read behind the end is NOVICE.
abbrev odd_table : List ℕ → Option Account
odd_table name = some (record anna { level = 9 })

abbrev odd_line : User → List ℕ → Option Result
odd_line =
    step odd_table first_row marked marked_with novice_level none (codes "home") (codes "1")
      (codes "10.0.0.1") [] equals unchanged

abbrev matching : User
matching = at_password (some (7 ∷ codes "secret"))

abbrev logged_in : Result
logged_in = record {
  user = record matching { stage = cmd_line; level = novice_level; password = none; guid = 4 };
  effects = print (codes "Anna@home>\n") ∷ [];
  thrown = none;
}

cmd_line_needs_password_example :
    (matching.stage ≡ cmd_line)
    ⊎ ((hash : List ℕ) × (matching.stage ≡ login_pwd)
        × (matching.password ≡ some hash)
        × (equals hash (marked_with (codes "secret") hash) ≡ true))
unfolding login enter_password log_in load connect
cmd_line_needs_password_example =
    cmd_line_needs_password odd_table first_row marked marked_with novice_level none (codes "home")
      (codes "1") (codes "10.0.0.1") [] equals unchanged matching (codes "secret") logged_in refl
      refl
