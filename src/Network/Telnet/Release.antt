-- ===== src/Network/Telnet/Release.antt =====
-- The user of a telnet session whose protocol is released: src/Network/Protocols/Telnet.cpp and
-- src/Common/Talker.cpp.
use lotospp.Base.{
  ℕ, ◌≡◌, refl, ap, ◌∙◌, pos, true, false, [], ◌∷◌, ◌++◌, none, some, ◌==◌, ltb, if◌then◌else◌,
  arith,
}
use lotospp.Network.OutputMessagePool.{increment, decrement}
use lotospp.Network.Telnet.{
  Telnet, Store, put_user, put_telnet, add_ref, add_list, set_user, create_user, connect,
  connect_pointer, parse_first_packet, free_user, delete_protocol_task, is_client, leave_user,
  release_from, release_protocol, and_then, un_ref, un_ref_all, clear_things, cleanup,
}

-- The user `u` of the protocol `t` has two references, of setUser and of connect.
record IsNew (t u : ℕ) (w : Store) : Type 0 where
  user : (w.telnets t).user ≡ some u
  idle : (w.telnets t).ref_count ≡ 0
  client : (w.users u).client ≡ some t
  refs : (w.users u).refs ≡ pos 2
  listed : (w.users u).listed ≡ true
  alive : (w.users u).deleted ≡ false
  things : w.to_release_things ≡ []

==_same : (n : ℕ) → (n == n) ≡ true
==_same n = ground arith

first_IsNew :
    (t : ℕ) (w : Store)
    → (w.telnets t).ref_count ≡ 0
    → w.to_release_things ≡ []
    → (w' : Store) × (parse_first_packet t w ≡ some w') × IsNew t w.next_user w'
unfolding parse_first_packet create_user set_user connect increment decrement
first_IsNew t w c n =
    let u : ℕ = w.next_user in
    let w₁ = add_list u (create_user t w) in
    let w₂ =
      put_telnet t (record (w₁.telnets t) { ref_count = increment (w₁.telnets t).ref_count }) w₁ in
    let o : Telnet = record (w₂.telnets t) {
      ref_count = decrement (w₂.telnets t).ref_count;
      accept_packets = true;
    } in
    let w₃ = add_ref u (put_telnet t o w₂) in
    let w₄ = put_user u (record (w₃.users u) { client = some t }) w₃ in
    let tt_same = ==_same t in
    let uu_same = ==_same u in
    let pointer : (w₂.telnets t).user ≡ some u = rw tt_same refl in
    (
      w₄,
      (λ i. connect_pointer (pointer i) t w₂),
      record {
        user = rw tt_same refl;
        idle = rw (tt_same, c) refl;
        client = rw uu_same refl;
        refs = rw uu_same refl;
        listed = rw uu_same refl;
        alive = rw uu_same refl;
        things = n;
      },
    )

release_IsNew :
    (t u : ℕ) (w : Store)
    → IsNew t u w
    → (w' : Store) × (release_protocol t w ≡ some w')
      × ((w'.telnets t).deleted ≡ true)
      × ((w'.users u).refs ≡ pos 2)
      × ((w'.users u).listed ≡ true)
      × ((w'.users u).deleted ≡ false)
      × (w'.to_release_things ≡ u ∷ [])
unfolding release_protocol release_from leave_user delete_protocol_task free_user
release_IsNew t u w h =
    let w₁ = put_user u (record (w.users u) { client = none }) w in
    let gone : Telnet = record (w.telnets t) { user = none; connection = false; deleted = true } in
    let w₂ : Store = record w₁ { to_release_things = w.to_release_things ++ u ∷ [] } in
    let tt_same = ==_same t in
    let uu_same = ==_same u in
    let mine : is_client (w.users u).client t ≡ true = (λ i. is_client (h.client i) t) ∙ tt_same in
    let left : leave_user (w.telnets t).user t w ≡ w₁ =
      (λ i. leave_user (h.user i) t w) ∙ (λ i. if mine i then w₁ else w) in
    let freed : free_user (w.telnets t).user w₁ ≡ w₂ = λ i. free_user (h.user i) w₁ in
    let zero_refs : ((w.telnets t).ref_count == 0) ≡ true = ground (arith, h.idle) in
    let last : delete_protocol_task t w₁ ≡ some (put_telnet t gone w₂) =
      λ i. if zero_refs i then some (put_telnet t gone (freed i)) else none in
    let idle : ltb 0 (w.telnets t).ref_count ≡ false = ground (arith, h.idle) in
    (
      put_telnet t gone w₂,
      (λ i. release_from t (left i))
          ∙ (λ i. if idle i then some (record w₁ { releases = w.releases ++ t ∷ [] }) else last i),
      rw tt_same refl,
      rw uu_same h.refs,
      rw uu_same h.listed,
      rw uu_same h.alive,
      ap (λ x. x ++ u ∷ []) h.things,
    )

cleanup_one :
    (u : ℕ) (w : Store)
    → (w.users u).refs ≡ pos 2
    → (w.users u).listed ≡ true
    → (w.users u).deleted ≡ false
    → w.to_release_things ≡ u ∷ []
    → (w' : Store) × (cleanup w ≡ some w')
      × (w'.telnets ≡ w.telnets)
      × ((w'.users u).deleted ≡ false)
      × ((w'.users u).listed ≡ true)
      × ((w'.users u).refs ≡ pos 1)
      × (w'.to_release_things ≡ [])
unfolding cleanup un_ref_all un_ref
cleanup_one u w r l a n =
    let w₁ = put_user u (record (w.users u) { refs = pos 1 }) w in
    let uu_same = ==_same u in
    let one : un_ref u w ≡ some w₁ = rw (a, r) refl in
    (
      record w₁ { to_release_things = [] },
      (λ i. clear_things (un_ref_all (n i) w))
          ∙ (λ i. clear_things (and_then (one i) (un_ref_all []))),
      refl,
      rw uu_same a,
      rw uu_same l,
      rw uu_same refl,
      refl,
    )

-- A new session over an unused protocol: when its protocol is released and the talker cleans up, its user
-- is left with a reference that nobody holds, is not deleted and stays on the list of users.
pub released_leaks :
    (t : ℕ) (w : Store)
    → (w.telnets t).ref_count ≡ 0
    → w.to_release_things ≡ []
    → (w₁ w₂ w₃ : Store) × (parse_first_packet t w ≡ some w₁)
      × (release_protocol t w₁ ≡ some w₂)
      × (cleanup w₂ ≡ some w₃)
      × ((w₃.telnets t).deleted ≡ true)
      × ((w₃.users w.next_user).deleted ≡ false)
      × ((w₃.users w.next_user).listed ≡ true)
      × ((w₃.users w.next_user).refs ≡ pos 1)
      × (w₃.to_release_things ≡ [])
released_leaks t w c n =
    let (w₁, e₁, h) = first_IsNew t w c n in
    let (w₂, e₂, gone, refs, listed, alive, things) = release_IsNew t w.next_user w₁ h in
    let (w₃, e₃, same, alive', listed', refs', things') =
      cleanup_one w.next_user w₂ refs listed alive things in
    (w₁, w₂, w₃, e₁, e₂, e₃, (λ i. (same i t).deleted) ∙ gone, alive', listed', refs', things')
