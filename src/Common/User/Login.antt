-- ===== src/Common/User/Login.antt =====
-- The login of User::login, attempt, uConnect and prompt of src/Common/User.cpp, and IOUser::load of
-- src/Common/IOUser.cpp. What the database holds and the hash function are arguments. The other
-- sessions are the entries of listUser without this one.
pub mod Accounts
mod State
unfoldable pub use State.*
use lotospp.Base.{
  ◌^◌, ℕ, zero, suc, ◌+◌, ◌-◌, ◌%◌, Bool, true, false, ◌&&◌, ◌||◌, not, List, [], ◌∷◌, ◌++◌, Option,
  none, some, ltb, leb, ◌==◌, if◌then◌else◌, length, codes,
}

-- The loop over the commands; `none` is the end of the map.
unfoldable pub find_command : (List ℕ → List ℕ → Bool) → List ℕ → Option LoginCom
find_command iequals inpstr =
    if iequals (codes "quit") inpstr
    then some quit
    else if iequals (codes "who") inpstr
    then some who
    else if iequals (codes "version") inpstr
    then some version
    else none

-- A call of `attempt`, behind the effects so far.
pub attempt : User → List Effect → User × List Effect
attempt u es =
    let attempts : ℕ = (u.attempts + 1) % 256 in
    if attempts == max_login_attempts
    then (
      record u { attempts = attempts },
      es ++ print (codes "\nmax attempts\n") ∷ logout ∷ remove_list ∷ [],
    )
    else (record u { attempts = attempts; stage = login_name; password = none }, es)

-- The loop over the letters of a name, which goes on after an attempt.
pub letters_only : List ℕ → User → List Effect → User × List Effect
letters_only [] u es = (u, es)
letters_only (c ∷ cs) u es =
    let (u', es') = attempt u (es ++ print (codes "\nletters only\n\n") ∷ []) in
    if is_alpha c then letters_only cs u es else letters_only cs u' es'

-- The names of the sessions that have logged in, four in a row and each 19 wide.
pub pad : ℕ → List ℕ → List ℕ
pad zero name = name
pad (suc n) [] = b' ' ∷ pad n []
pad (suc n) (c ∷ name) = c ∷ pad n name

pub who_loop : ℕ → List Session → List Effect
who_loop i [] = if i == 0 then print (codes "no1 :(\n") ∷ [] else []
who_loop i (u ∷ us) =
    let rest = who_loop i us in
    let entry = print (pad 19 u.name) ∷ who_loop (i + 1) us in
    if u.is_login then rest else if (i + 1) % 4 == 0 then print (codes "\n") ∷ entry else entry

-- The loop that ends the sessions that wait for a password of the same name.
pub kick_hung : (List ℕ → List ℕ → Bool) → List ℕ → List Session → List Effect
kick_hung iequals name [] = []
kick_hung iequals name (u ∷ us) =
    let rest = kick_hung iequals name us in
    if u.is_login && iequals u.name name then kick_user u.id ∷ rest else rest

abbrev pub returns : User × List Effect → Result
returns (u, es) = record { user = u; effects = es; thrown = none }

-- `db` answers the query for a name, `iequals` and `to_lower_copy` are the library's. `past_level` and `past_command` are what the code
-- reads behind the end of a map. `create` is the id of a new row.
module _ (db : List ℕ → Option Account) (create : List ℕ → List ℕ → ℕ) (crypt_new : List ℕ → List ℕ)
    (crypt_with : List ℕ → List ℕ → List ℕ) (past_level : Level) (past_command : Option LoginCom)
    (server version_text own_address : List ℕ) (others : List Session)
    (iequals : List ℕ → List ℕ → Bool) (to_lower_copy : List ℕ → List ℕ) where
  -- IOUser::load with `preload`.
  pub preload : User → List ℕ → User × Bool
  preload u user_name = elim (db user_name) [
    | none ↦ (u, false)
    | some row ↦ (record u { guid = row.id; password = some row.password }, true)
  ]

  -- IOUser::load without it. UserLevel::fromInteger throws for the four levels that exist.
  unfoldable pub load : User → List ℕ → Result
  load u user_name = elim (db user_name) [
    | none ↦ returns (u, [])
    | some row ↦
        let u' : User = record u { guid = row.id; password = some row.password } in
        if ltb row.level 4
        then record { user = u'; effects = []; thrown = some conversion_error }
        else returns (record u' { level = past_level }, [])
  ]

  -- uConnect: the first session of the same name takes the client over.
  unfoldable pub connect : List Session → User → Result
  connect [] u = returns (u, print (u.name ++ codes "@" ++ server ++ codes ">\n") ∷ [])
  connect (s ∷ ss) u =
      let rest = connect ss u in
      if equals u.name s.name
      then record {
        user = u;
        effects =
            print (codes "\n\nalready logged in - switching to old session ...\n")
            ∷ print (codes "old addr: " ++ s.address)
            ∷ tell s.id (codes "\nswapping this session to addr " ++ own_address ++ codes "\n\n")
            ∷ take_over s.id
            ∷ remove_list
            ∷ prompt_user s.id
            ∷ [];
        thrown = some (stage_thrown swapped);
      }
      else rest

  -- The name, at the stages NEW, LOGIN_ID and LOGIN_NAME, behind the commands.
  pub enter_name : User → List ℕ → Result
  enter_name u inpstr =
      if ltb (length inpstr) min_username_len
      then returns (attempt u (print (codes "\ntoo short\n\n") ∷ []))
      else if ltb max_username_len (length inpstr)
      then returns (attempt u (print (codes "\ntoo long\n\n") ∷ []))
      else let (u₁, es) = letters_only inpstr u [] in
        let name : List ℕ = capitalise (to_lower_copy inpstr) in
        let (u₂, found) = preload (record u₁ { name = name }) inpstr in
        returns (
          record u₂ { level = login_level; stage = login_pwd },
          es
              ++ kick_hung iequals name others
              ++ (if found then [] else print (codes "creating new account\n") ∷ []),
        )

  unfoldable pub run_command : Option LoginCom → User → List ℕ → Result
  run_command (some quit) u inpstr = record {
    user = u;
    effects = print (codes "\n\n*** Login abandoned ***\n\n") ∷ [];
    thrown = some (stage_thrown disconnect);
  }
  run_command (some who) u inpstr = returns (u, who_loop 0 others)
  run_command (some version) u inpstr =
      returns (u, print (codes "\nLotos++ ") ∷ print version_text ∷ print (codes "\n") ∷ [])
  run_command none u inpstr = enter_name u inpstr

  -- Behind the load of a user whose password was right.
  unfoldable pub log_in : Result → Result
  log_in r = elim r.thrown [
    | none ↦ connect others (record r.user { password = none; stage = cmd_line })
    | some t ↦ r
  ]

  pub new_password : User → List ℕ → Result
  new_password u inpstr = returns (
    record u { password = some (crypt_new inpstr); stage = login_reenter_pwd },
    print (codes "\n\nconfirm: ") ∷ [],
  )

  unfoldable pub enter_password : User → List ℕ → Result
  enter_password u inpstr =
      if ltb (length inpstr) min_password_len
      then returns (attempt u (print (codes "\n\ntoo short\n\n") ∷ []))
      else elim u.password [
        | none ↦ new_password u inpstr
        | some [] ↦ new_password u inpstr
        | some (c ∷ hash) ↦
            if equals (c ∷ hash) (crypt_with inpstr (c ∷ hash))
            then log_in (load u u.name)
            else returns (attempt u (print (codes "\n\nwrong password\n\n") ∷ []))
      ]

  -- `none` for the password is a null pointer, which the code would read through.
  pub confirm_password : User → List ℕ → Option Result
  confirm_password u inpstr = elim u.password [
    | none ↦ none
    | some hash ↦ some (
        if equals hash (crypt_with inpstr hash)
        then returns (
          record u {
            level = novice_level;
            guid = create u.name hash % 2 ^ 32;
            password = none;
            stage = login_prompt;
          },
          echo_on ∷ create_account u.name hash ∷ write (codes "press [ENTER] to login") ∷ [],
        )
        else returns (attempt u (print (codes "\n\npassword nomatch\n\n") ∷ [])))
  ]

  unfoldable pub command_or : Option LoginCom → Option LoginCom
  command_or none = past_command
  command_or (some c) = some c

  unfoldable pub login : User → List ℕ → Option Result
  login u inpstr = elim u.stage [
    | new_user ↦ some (run_command (command_or (find_command iequals inpstr)) u inpstr)
    | login_id ↦ some (run_command (command_or (find_command iequals inpstr)) u inpstr)
    | login_name ↦ some (run_command (command_or (find_command iequals inpstr)) u inpstr)
    | login_pwd ↦ some (enter_password u inpstr)
    | login_reenter_pwd ↦ confirm_password u inpstr
    | login_prompt ↦ some (returns (u, []))
    | cmd_line ↦ some (returns (u, []))
    | disconnect ↦ some (returns (u, []))
    | swapped ↦ some (returns (u, []))
    | login_new_pwd ↦ some (returns (u, []))
    | old_pwd ↦ some (returns (u, []))
    | new_pwd ↦ some (returns (u, []))
    | reenter_pwd ↦ some (returns (u, []))
    | suicide ↦ some (returns (u, []))
  ]
