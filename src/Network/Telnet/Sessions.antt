-- ===== src/Network/Telnet/Sessions.antt =====
-- The users of telnet sessions of src/Network/Protocols/Telnet.cpp, and which of them are deleted.
use lotospp.Base.{
  ℕ, ◌<◌, ◌≡◌, refl, ap, ◌∙◌, true, false, [], ◌∷◌, ◌++◌, Option, none, some, ◌==◌, if◌then◌else◌,
  arith, Bool-cases, inl, inr,
}
use lotospp.Network.Telnet.{
  Store, put_user, put_telnet, destroy, clear_client, drop_pointer, forget_user, drop_behind,
  switch_client, close_client, remove_list, set_user, delete_user, disconnect_user, switch_to,
  Outcome, thrown_disconnect, thrown_swapped, drop_user, handle, parse_packet,
}

-- A session that is up: a protocol that takes packets, and its user, which points back.
pub record IsUp (t u : ℕ) (w : Store) : Type 0 where
  pub user : (w.telnets t).user ≡ some u
  pub accepts : (w.telnets t).accept_packets ≡ true
  pub client : (w.users u).client ≡ some t
  pub alive : (w.users u).deleted ≡ false

handle_packet :
    (t u len : ℕ) (o : Outcome) (w : Store)
    → IsUp t u w
    → 0 < len
    → parse_packet t len o w ≡ handle t u o w
unfolding parse_packet
handle_packet t u len o w h l = ground (arith, h.user, h.accepts)

-- The store behind `delete user; user=nullptr;` where the user's client is `c`.
abbrev dropped : ℕ → ℕ → ℕ → Store → Store
dropped t u c w =
    let w' = destroy u (set_user c none w) in
    put_telnet t (record (w'.telnets t) { user = none }) w'

delete_user_lem :
    (u c : ℕ) (w : Store)
    → (w.users u).client ≡ some c
    → (w.users u).deleted ≡ false
    → delete_user u w ≡ some (destroy u (set_user c none w))
unfolding delete_user
delete_user_lem u c w k a = λ i. if a i then none else some (destroy u (clear_client (k i) w))

drop_user_lem :
    (t u c : ℕ) (w : Store)
    → (w.telnets t).user ≡ some u
    → (w.users u).client ≡ some c
    → (w.users u).deleted ≡ false
    → drop_user t w ≡ some (dropped t u c w)
unfolding drop_user
drop_user_lem t u c w h k a =
    (λ i. drop_pointer (h i) t w) ∙ (λ i. forget_user t (delete_user_lem u c w k a i))

dropped_facts :
    (t u c : ℕ) (w : Store)
    → ((dropped t u c w).closed ≡ w.closed)
      × (((dropped t u c w).users u).deleted ≡ true)
      × (((dropped t u c w).users u).listed ≡ false)
      × (((dropped t u c w).telnets t).user ≡ none)
unfolding set_user
dropped_facts t u c w = (refl, ground arith, ground arith, ground arith)

-- A session whose uRead throws DISCONNECT: its connection is told to close, and its user is deleted and off the
-- list of users.
pub disconnect_deletes :
    (t u len : ℕ) (w : Store)
    → IsUp t u w
    → (w.telnets t).connection ≡ true
    → 0 < len
    → (w' : Store) × (parse_packet t len thrown_disconnect w ≡ some w')
      × (w'.closed ≡ w.closed ++ t ∷ [])
      × ((w'.users u).deleted ≡ true)
      × ((w'.users u).listed ≡ false)
      × ((w'.telnets t).user ≡ none)
unfolding handle disconnect_user
disconnect_deletes t u len w h c l =
    let e = handle_packet t u len thrown_disconnect w h l in
    let w₁ : Store = record w { closed = w.closed ++ t ∷ [] } in
    let (a, b, b', b'') = dropped_facts t u t w₁ in
    let closes : disconnect_user u w ≡ w₁ =
      (λ i. close_client (h.client i) w) ∙ (λ i. if c i then w₁ else w) in
    (
      dropped t u t w₁,
      e ∙ (λ k. drop_user t (closes k)) ∙ drop_user_lem t u t w₁ h.user h.client h.alive,
      a,
      b,
      b',
      b'',
    )

-- What the switch of a client leaves of both users.
abbrev after_switch : ℕ → ℕ → ℕ → Store → Store
after_switch t u old w =
    let w' = put_user old (record (w.users old) { client = some t }) w in
    remove_list u (put_user u (record (w'.users u) { client = none }) w')

after_switch-old :
    (t u old : ℕ) (w : Store)
    → (old == u) ≡ false
    → (((after_switch t u old w).users old).client ≡ some t)
      × (((after_switch t u old w).users old).deleted ≡ (w.users old).deleted)
after_switch-old t u old w n = rw n (ground arith, ground arith)

after_switch-new :
    (t u old : ℕ) (w : Store)
    → (u == old) ≡ false
    → (((after_switch t u old w).users u).client ≡ none)
      × (((after_switch t u old w).users u).deleted ≡ (w.users u).deleted)
after_switch-new t u old w n = rw n (ground arith, ground arith)

dropped-other :
    (t u old : ℕ) (w : Store)
    → (u == old) ≡ false
    → (((dropped t old t w).users u).client ≡ (w.users u).client)
      × (((dropped t old t w).users u).deleted ≡ (w.users u).deleted)
unfolding set_user
dropped-other t u old w n = rw n (refl, refl)

set_user-facts :
    (t old u : ℕ) (w : Store)
    → (((set_user t (some old) w).telnets t).user ≡ some old)
      × (((set_user t (some old) w).users u).deleted ≡ (w.users u).deleted)
unfolding set_user
set_user-facts t old u w = (
  ground arith,
  elim (Bool-cases (u == old)) [
    | inl e ↦ let same : old ≡ u = ground arith in rw e (ap (λ x. (w.users x).deleted) same)
    | inr e ↦ rw e refl
  ],
)

close_client-users : (c : Option ℕ) (w : Store) → (close_client c w).users ≡ w.users
close_client-users none w = refl
close_client-users (some t) w = ground arith

-- A session whose uRead throws SWAPPED, behind a login under the name of another session: it is the user of that
-- session, to which the protocol was switched, who is deleted and taken off the list. The user
-- that should be is not deleted, and has no client any more.
pub swapped_deletes_other :
    (t u old len : ℕ) (w : Store)
    → IsUp t u w
    → (w.users old).deleted ≡ false
    → (old == u) ≡ false
    → 0 < len
    → (w' : Store) × (parse_packet t len (thrown_swapped old) w ≡ some w')
      × ((w'.users old).deleted ≡ true)
      × ((w'.users old).listed ≡ false)
      × ((w'.telnets t).user ≡ none)
      × ((w'.users u).deleted ≡ false)
      × ((w'.users u).client ≡ none)
unfolding handle switch_to disconnect_user
swapped_deletes_other t u old len w h a n l =
    let e = handle_packet t u len (thrown_swapped old) w h l in
    let w₀ = disconnect_user old w in
    let w₁ = set_user t (some old) w₀ in
    let w₂ = after_switch t u old w₁ in
    let (f, b, b', b'') = dropped_facts t old t w₂ in
    let switched : switch_to u old w ≡ some w₂ = λ i. switch_client (h.client i) u old w in
    let n' : (u == old) ≡ false = ground arith in
    let same : w₀.users ≡ w.users = close_client-users (w.users old).client w in
    let (pointer, stays) = set_user-facts t old old w₀ in
    let (pointer', stays') = set_user-facts t old u w₀ in
    let (client, alive) = after_switch-old t u old w₁ n in
    let (lost, alive') = after_switch-new t u old w₁ n' in
    let (k, k') = dropped-other t u old w₂ n' in
    let d =
      drop_user_lem t old t w₂ pointer client (alive ∙ stays ∙ (λ i. (same i old).deleted) ∙ a) in
    (
      dropped t old t w₂,
      e ∙ (λ i. drop_behind t (switched i)) ∙ d,
      b,
      b',
      b'',
      k' ∙ alive' ∙ stays' ∙ (λ i. (same i u).deleted) ∙ h.alive,
      k ∙ lost,
    )
