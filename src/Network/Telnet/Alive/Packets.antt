-- ===== src/Network/Telnet/Alive/Packets.antt =====
-- Packets over a store of telnet sessions: Telnet::parsePacket of src/Network/Protocols/Telnet.cpp and the
-- destructor of src/Common/User.cpp.
use lotospp.Base.{
  ℕ, ◌<◌, ◌≡◌, refl, sym, subst, ap, ◌∙◌, false, not, ◌||◌, [], ◌∷◌, ◌++◌, Option, none, some, ◌==◌,
  if◌then◌else◌, arith, Bool-cases, Option-cases, inl, inr,
}
use lotospp.Network.Telnet.{
  Store, Outcome, parse_packet, put_telnet, destroy, clear_client, delete_user, drop_pointer,
  forget_user, drop_user, close_client, disconnect_user, handle, set_user,
}
use lotospp.Network.Telnet.Alive.{switches, is_in, is_distinct, IsKept, IsSound, packet}
use lotospp.Network.Telnet.Alive.Frames.{other_user, waiting_other}

-- A step that takes the pointer of one protocol away, and leaves all users alone but its own.
record Drops (t u : ℕ) (w w' : Store) : Type 0 where
  gone : (w'.telnets t).user ≡ none
  fewer : (t' v : ℕ) → (w'.telnets t').user ≡ some v → (w.telnets t').user ≡ some v
  refs : (v : ℕ) → (v == u) ≡ false → (w'.users v).refs ≡ (w.users v).refs
  deleted : (v : ℕ) → (v == u) ≡ false → (w'.users v).deleted ≡ (w.users v).deleted
  next : w'.next_user ≡ w.next_user
  things : w'.to_release_things ≡ w.to_release_things

Drops-IsSound :
    (t u : ℕ) (w w' : Store) → IsSound w → (w.telnets t).user ≡ some u → Drops t u w w' → IsSound w'
Drops-IsSound t u w w' s h d =
    let keep : (v : ℕ) → (v == u) ≡ false → IsKept v w → IsKept v w' =
      λ v n k. (d.refs v n ∙ k.0, d.deleted v n ∙ k.1, subst (λ x. v < x) (sym d.next) k.2) in
    let same : (v : ℕ) → is_in v w'.to_release_things ≡ is_in v w.to_release_things =
      λ v. ap (is_in v) d.things in
    record {
      used = λ t' v p. (
        keep v (other_user t u t' v w w' s h d.gone (d.fewer t' v) p)
            (s.used t' v (d.fewer t' v p)).0,
        same v ∙ (s.used t' v (d.fewer t' v p)).1,
      );
      one = λ t' t'' v p p'. s.one t' t'' v (d.fewer t' v p) (d.fewer t'' v p');
      freed = λ v f.
          keep v (waiting_other u v w (s.used t u h).1 (sym (same v) ∙ f))
            (s.freed v (sym (same v) ∙ f));
      once = ap is_distinct d.things ∙ s.once;
    }

-- The store behind `delete user; user=nullptr;`, where `c` is the user's client.
abbrev forgotten : ℕ → ℕ → Option ℕ → Store → Store
forgotten t u c w =
    let w' = destroy u (clear_client c w) in put_telnet t (record (w'.telnets t) { user = none }) w'

clear_client-Drops : (t u : ℕ) (c : Option ℕ) (w : Store) → Drops t u w (forgotten t u c w)
unfolding set_user
clear_client-Drops t u none w = record {
  gone = ground arith;
  fewer = λ t' v p. elim (Bool-cases (t' == t)) [
    | inl e ↦ absurd (ground (arith, p))
    | inr e ↦ ground (arith, p)
  ];
  refs = λ v n. rw n refl;
  deleted = λ v n. rw n refl;
  next = refl;
  things = refl;
}
clear_client-Drops t u (some c) w = record {
  gone = ground arith;
  fewer = λ t' v p. elim (Bool-cases (t' == t)) [
    | inl e ↦ absurd (ground (arith, p))
    | inr e ↦ elim (Bool-cases (t' == c)) [
      | inl e' ↦ absurd (ground (arith, p))
      | inr e' ↦ ground (arith, p)
    ]
  ];
  refs = λ v n. rw n refl;
  deleted = λ v n. rw n refl;
  next = refl;
  things = refl;
}

drop_user-IsSound :
    (t u : ℕ) (w : Store)
    → IsSound w
    → (w.telnets t).user ≡ some u
    → (w' : Store) × (drop_user t w ≡ some w') × IsSound w'
unfolding drop_user delete_user
drop_user-IsSound t u w s h =
    let w' = forgotten t u (w.users u).client w in
    let alive = (s.used t u h).0.1 in
    (
      w',
      (λ i. drop_pointer (h i) t w) ∙ (λ i.
          forget_user t
            (if alive i then none else some (destroy u (clear_client (w.users u).client w)))),
      Drops-IsSound t u w w' s h (clear_client-Drops t u (w.users u).client w),
    )

close_client-IsSound :
    (c : Option ℕ) (w : Store)
    → IsSound w
    → IsSound (close_client c w) × ((close_client c w).telnets ≡ w.telnets)
close_client-IsSound none w s = (s, refl)
close_client-IsSound (some t) w s =
    let told : IsSound (record w { closed = w.closed ++ t ∷ [] }) = record {
      used = s.used;
      one = s.one;
      freed = s.freed;
      once = s.once;
    } in
    elim (Bool-cases (w.telnets t).connection) [
      | inl e ↦ rw e (told, refl)
      | inr e ↦ rw e (s, refl)
    ]

handle-IsSound :
    (t u len : ℕ) (o : Outcome) (w : Store)
    → switches (packet t len o) ≡ false
    → IsSound w
    → (w.telnets t).user ≡ some u
    → (w' : Store) × (handle t u o w ≡ some w') × IsSound w'
unfolding handle disconnect_user
handle-IsSound t u len Outcome.returned w n s h = (w, refl, s)
handle-IsSound t u len Outcome.thrown_other w n s h = (w, refl, s)
handle-IsSound t u len (Outcome.thrown_swapped old) w n s h = absurd (ground arith)
handle-IsSound t u len Outcome.thrown_disconnect w n s h =
    let (s', same) = close_client-IsSound (w.users u).client w s in
    drop_user-IsSound t u (close_client (w.users u).client w) s' ((λ i. (same i t).user) ∙ h)

pub parse_packet-IsSound :
    (t len : ℕ) (o : Outcome) (w : Store)
    → switches (packet t len o) ≡ false
    → IsSound w
    → (w' : Store) × (parse_packet t len o w ≡ some w') × IsSound w'
unfolding parse_packet
parse_packet-IsSound t len o w n s = elim (Option-cases (w.telnets t).user) [
  | inl e ↦ (w, ground (arith, e), s)
  | inr (u, e) ↦ elim (Bool-cases (not (w.telnets t).accept_packets || (len == 0))) [
    | inl ignored ↦ (w, ground (arith, e, ignored), s)
    | inr taken ↦
        let (w', e', s') = handle-IsSound t u len o w n s e in
        let reads : parse_packet t len o w ≡ handle t u o w = ground (arith, e, taken) in
        (w', reads ∙ e', s')
  ]
]
