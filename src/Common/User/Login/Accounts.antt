-- ===== src/Common/User/Login/Accounts.antt =====
-- What the login of src/Common/User.cpp lets through.
use lotospp.Base.{
  equals_refl, ℕ, Bool, ◌%◌, ◌^◌, ◌<◌, ◌≤◌, ◌≡◌, ◌≢◌, refl, ◌⊎◌, inl, inr, true, false, List, [],
  ◌∷◌, Option, none, some, length, arith, Bool-cases, Option-cases, codes,
}
use lotospp.Common.User.Login.{
  Stage, new_user, login_id, login_name, login_pwd, login_reenter_pwd, login_prompt, cmd_line,
  disconnect, swapped, login_new_pwd, old_pwd, new_pwd, reenter_pwd, suicide, Level, novice_level,
  User, Effect, print, echo_on, create_account, write, conversion_error, Result, Session, Account,
  LoginCom, quit, who, version, equals, capitalise, find_command, attempt, letters_only, preload,
  load, enter_name, run_command, log_in, new_password, enter_password, confirm_password, command_or,
  login,
}

-- An attempt leads back to the name, or leaves the stage.
attempt-stage :
    (u : User) (es : List Effect)
    → ((attempt u es).0.stage ≡ login_name) ⊎ ((attempt u es).0.stage ≡ u.stage)
unfolding attempt
attempt-stage u es = ground arith

Stage-cases : (s : Stage) → (s ≡ login_pwd) ⊎ (s ≢ login_pwd)
Stage-cases login_pwd = inl refl
Stage-cases new_user = inr (λ e. cc)
Stage-cases login_id = inr (λ e. cc)
Stage-cases login_name = inr (λ e. cc)
Stage-cases login_reenter_pwd = inr (λ e. cc)
Stage-cases login_prompt = inr (λ e. cc)
Stage-cases cmd_line = inr (λ e. cc)
Stage-cases disconnect = inr (λ e. cc)
Stage-cases swapped = inr (λ e. cc)
Stage-cases login_new_pwd = inr (λ e. cc)
Stage-cases old_pwd = inr (λ e. cc)
Stage-cases new_pwd = inr (λ e. cc)
Stage-cases reenter_pwd = inr (λ e. cc)
Stage-cases suicide = inr (λ e. cc)

module _ (db : List ℕ → Option Account) (create : List ℕ → List ℕ → ℕ) (crypt_new : List ℕ → List ℕ)
    (crypt_with : List ℕ → List ℕ → List ℕ) (past_level : Level) (past_command : Option LoginCom)
    (server version_text own_address : List ℕ) (others : List Session)
    (iequals : List ℕ → List ℕ → Bool) (to_lower_copy : List ℕ → List ℕ) where
  abbrev pub step : User → List ℕ → Option Result
  step =
      login db create crypt_new crypt_with past_level past_command server version_text own_address
        others iequals to_lower_copy

  -- With the password of an account, of 6 characters or more, whose level is one of the four that
  -- exist, the login does not go on: the load throws an enum_conversion_error, and the stage
  -- stays at the password.
  pub login_throws :
      (u : User) (inpstr hash : List ℕ) (c : ℕ) (row : Account)
      → u.stage ≡ login_pwd
      → 6 ≤ length inpstr
      → u.password ≡ some (c ∷ hash)
      → equals (c ∷ hash) (crypt_with inpstr (c ∷ hash)) ≡ true
      → db u.name ≡ some row
      → row.level < 4
      → (r : Result) × (step u inpstr ≡ some r)
        × (r.thrown ≡ some conversion_error)
        × (r.user.stage ≡ login_pwd)
        × (r.effects ≡ [])
  unfolding login enter_password log_in load
  login_throws u inpstr hash c row s l p e d m = (
    record {
      user = record u { guid = row.id; password = some row.password };
      effects = [];
      thrown = some conversion_error;
    },
    ground arith,
    refl,
    s,
    refl,
  )

  -- Where the hash function accepts its own hash as the setting, a user without a password at the
  -- password's stage who enters the same 6 characters or more twice is given the level NOVICE,
  -- and the account is created with the hash.
  pub new_account :
      (u : User) (inpstr : List ℕ)
      → ((p : List ℕ) → crypt_with p (crypt_new p) ≡ crypt_new p)
      → u.stage ≡ login_pwd
      → u.password ≡ none
      → 6 ≤ length inpstr
      → (r r' : Result) × (step u inpstr ≡ some r)
        × (step r.user inpstr ≡ some r')
        × (r'.user.stage ≡ login_prompt)
        × (r'.user.level ≡ novice_level)
        × (r'.thrown ≡ none)
        × (r'.effects
            ≡ echo_on
              ∷ create_account u.name (crypt_new inpstr)
              ∷ write (codes "press [ENTER] to login")
              ∷ [])
  unfolding login enter_password new_password confirm_password
  new_account u inpstr h s p l =
      let hash : List ℕ = crypt_new inpstr in
      let u' : User = record u { password = some hash; stage = login_reenter_pwd } in
      (
        record { user = u'; effects = print (codes "\n\nconfirm: ") ∷ []; thrown = none },
        record {
          user = record u' {
            level = novice_level;
            guid = create u.name hash % 2 ^ 32;
            password = none;
            stage = login_prompt;
          };
          effects =
              echo_on ∷ create_account u.name hash ∷ write (codes "press [ENTER] to login") ∷ [];
          thrown = none;
        },
        ground arith,
        ground (arith, h inpstr, equals_refl hash),
        refl,
        refl,
        refl,
        refl,
      )

  abbrev naming : User → List ℕ → Result
  naming =
      enter_name db create crypt_new crypt_with past_level past_command server version_text
        own_address others iequals to_lower_copy

  preload-name :
      (u : User) (user_name : List ℕ)
      → (preload db create crypt_new crypt_with past_level past_command server version_text
          own_address others iequals to_lower_copy u user_name).0.name
        ≡ u.name
  unfolding preload
  preload-name u user_name = ground arith

  enter_name_any :
      (u : User) (inpstr : List ℕ)
      → 3 ≤ length inpstr
      → length inpstr ≤ 12
      → ((naming u inpstr).user.stage ≡ login_pwd)
        × ((naming u inpstr).user.name ≡ capitalise (to_lower_copy inpstr))
  unfolding enter_name
  enter_name_any u inpstr l m =
      let n =
        preload-name
          (record (letters_only inpstr u []).0 { name = capitalise (to_lower_copy inpstr) })
          inpstr in
      (ground arith, ground arith)

  -- At the name's stage a line of 3 to 12 characters that is no command, with no command read
  -- behind the end of the map, is accepted whatever its characters are: the user is asked for the
  -- password, with the name in the library's lower case but for its first letter.
  pub any_name :
      (u : User) (inpstr : List ℕ)
      → u.stage ≡ login_name
      → find_command iequals inpstr ≡ none
      → past_command ≡ none
      → 3 ≤ length inpstr
      → length inpstr ≤ 12
      → (r : Result) × (step u inpstr ≡ some r)
        × (r.user.stage ≡ login_pwd)
        × (r.user.name ≡ capitalise (to_lower_copy inpstr))
  unfolding login command_or run_command
  any_name u inpstr s f p l m =
      let (a, b) = enter_name_any u inpstr l m in
      (
        enter_name db create crypt_new crypt_with past_level past_command server version_text
            own_address others iequals to_lower_copy u inpstr,
        ground arith,
        a,
        b,
      )

  enter_name-stage :
      (u : User) (inpstr : List ℕ) → (naming u inpstr).user.stage ≡ cmd_line → u.stage ≡ cmd_line
  unfolding enter_name
  enter_name-stage u inpstr h =
      let short = attempt-stage u (print (codes "\ntoo short\n\n") ∷ []) in
      let long = attempt-stage u (print (codes "\ntoo long\n\n") ∷ []) in ground arith

  run_command-stage :
      (command : Option LoginCom) (u : User) (inpstr : List ℕ)
      → (run_command db create crypt_new crypt_with past_level past_command server version_text
          own_address others iequals to_lower_copy command u inpstr).user.stage
        ≡ cmd_line
      → u.stage ≡ cmd_line
  unfolding run_command
  run_command-stage none u inpstr h = enter_name-stage u inpstr h
  run_command-stage (some quit) u inpstr h = h
  run_command-stage (some who) u inpstr h = h
  run_command-stage (some version) u inpstr h = h

  -- Where a line at the password's stage does not match the hash, the command line is not reached.
  mismatch-stage :
      (u : User) (inpstr hash : List ℕ)
      → u.password ≡ some hash
      → equals hash (crypt_with inpstr hash) ≡ false
      → (enter_password db create crypt_new crypt_with past_level past_command server version_text
          own_address others iequals to_lower_copy u inpstr).user.stage
        ≡ cmd_line
      → u.stage ≡ cmd_line
  unfolding enter_password new_password
  mismatch-stage u inpstr hash p e h =
      let short = attempt-stage u (print (codes "\n\ntoo short\n\n") ∷ []) in
      let wrong = attempt-stage u (print (codes "\n\nwrong password\n\n") ∷ []) in ground arith

  no_password-stage :
      (u : User) (inpstr : List ℕ)
      → u.password ≡ none
      → (enter_password db create crypt_new crypt_with past_level past_command server version_text
          own_address others iequals to_lower_copy u inpstr).user.stage
        ≡ cmd_line
      → u.stage ≡ cmd_line
  unfolding enter_password new_password
  no_password-stage u inpstr p h =
      let short = attempt-stage u (print (codes "\n\ntoo short\n\n") ∷ []) in ground arith

  confirm_password-stage :
      (u : User) (inpstr : List ℕ) (r : Result)
      → confirm_password db create crypt_new crypt_with past_level past_command server version_text
          own_address others iequals to_lower_copy u inpstr
        ≡ some r
      → r.user.stage ≡ cmd_line
      → u.stage ≡ cmd_line
  unfolding confirm_password
  confirm_password-stage u inpstr r e h =
      let wrong = attempt-stage u (print (codes "\n\npassword nomatch\n\n") ∷ []) in ground arith

  -- A call of login that ends at the stage of the command line began there, or at the password's
  -- stage with a line whose hash is the stored one.
  pub cmd_line_needs_password :
      (u : User) (inpstr : List ℕ) (r : Result)
      → step u inpstr ≡ some r
      → r.user.stage ≡ cmd_line
      → (u.stage ≡ cmd_line)
        ⊎ ((hash : List ℕ) × (u.stage ≡ login_pwd)
            × (u.password ≡ some hash)
            × (equals hash (crypt_with inpstr hash) ≡ true))
  unfolding login
  cmd_line_needs_password u inpstr r e s = elim (Stage-cases u.stage) [
    | inr other ↦
        let c : Option LoginCom =
          command_or db create crypt_new crypt_with past_level past_command server version_text
            own_address others iequals to_lower_copy (find_command iequals inpstr) in
        inl (ground (arith, run_command-stage c u inpstr, confirm_password-stage u inpstr r))
    | inl pwd ↦ elim (Option-cases u.password) [
      | inl missing ↦ inl (ground (arith, no_password-stage u inpstr missing))
      | inr (hash, p) ↦ elim (Bool-cases (equals hash (crypt_with inpstr hash))) [
        | inl match ↦ inr (hash, pwd, p, match)
        | inr differ ↦ inl (ground (arith, mismatch-stage u inpstr hash p differ))
      ]
    ]
  ]
