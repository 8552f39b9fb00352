-- ===== src/Common/User/Input/Ends.antt =====
-- When uRead of src/Common/User.cpp ends.
use lotospp.Base.{ℕ, ◌<◌, ◌≤◌, ◌≡◌, Bool, List, none}
use lotospp.Common.User.Telopt.{Telopt, parse_telopt}
use lotospp.Network.NetworkMessage.{NetworkMessage}
use lotospp.Common.User.Input.{
  Env, Reading, returned, raised, undefined, hung, endless, Options, finished, remains,
}

-- The option parser never returns on some state.
abbrev pub Hangs : (List ℕ → Bool) → Type 0
Hangs terms = (t : Telopt) × ((fuel : ℕ) → parse_telopt terms fuel t ≡ none)

-- A run that is cut short is one that the option parser never ends.
abbrev EndsOrHangs : Env → Reading → Type 0
EndsOrHangs env (returned _) = Unit
EndsOrHangs env (raised _ _) = Unit
EndsOrHangs env undefined = Unit
EndsOrHangs env hung = Hangs env.terms
EndsOrHangs env endless = ⊥

-- Either way the options end or leave less to read.
abbrev Leaves : Env → ℕ → Options → Type 0
Leaves env n (finished x) = EndsOrHangs env x
Leaves env n (remains len input r) = (0 < len) × (len ≤ n) × (r.telopt.bpos ≡ 0)
