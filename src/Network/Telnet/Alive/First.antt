-- ===== src/Network/Telnet/Alive/First.antt =====
-- The first packet over a store of telnet sessions: Telnet::parseFirstPacket and connect of
-- src/Network/Protocols/Telnet.cpp.
use lotospp.Base.{
  ℕ, ◌+◌, ◌≡◌, refl, sym, subst, ap, ◌∙◌, pos, true, false, some, ◌==◌, arith, Bool-cases, some_inj,
  ◌⊎◌, inl, inr,
}
use lotospp.Network.OutputMessagePool.{increment, decrement}
use lotospp.Network.Telnet.{
  Telnet, Store, add_ref, add_list, create_user, connect, connect_pointer, put_user,
  parse_first_packet, put_telnet, set_user,
}
use lotospp.Network.Telnet.Alive.{is_in, is_distinct, IsKept, IsSound}
use lotospp.Network.Telnet.Alive.Frames.{==_same}

not_waiting : (w : Store) → IsSound w → is_in w.next_user w.to_release_things ≡ false
not_waiting w s = elim (Bool-cases (is_in w.next_user w.to_release_things)) [
  | inr e ↦ e
  | inl e ↦ let below = (s.freed w.next_user e).2 in absurd (omega arith)
]

-- A step that makes a user for a protocol.
record Adds (t : ℕ) (w w' : Store) : Type 0 where
  new : (w'.telnets t).user ≡ some w.next_user
  rest : (t' : ℕ) → (t' == t) ≡ false → (w'.telnets t').user ≡ (w.telnets t').user
  refs : (v : ℕ) → (v == w.next_user) ≡ false → (w'.users v).refs ≡ (w.users v).refs
  deleted : (v : ℕ) → (v == w.next_user) ≡ false → (w'.users v).deleted ≡ (w.users v).deleted
  new_refs : (w'.users w.next_user).refs ≡ pos 2
  new_alive : (w'.users w.next_user).deleted ≡ false
  next : w'.next_user ≡ w.next_user + 1
  things : w'.to_release_things ≡ w.to_release_things

-- A protocol's user is the new one, or was a protocol's before.
Adds-cases :
    (t t' v : ℕ) (w w' : Store)
    → Adds t w w'
    → (w'.telnets t').user ≡ some v
    → ((t' ≡ t) × (v ≡ w.next_user)) ⊎ ((w.telnets t').user ≡ some v)
Adds-cases t t' v w w' a p = elim (Bool-cases (t' == t)) [
  | inl e ↦
      let same : t' ≡ t = ground arith in
      let p' = subst (λ x. (w'.telnets x).user ≡ some v) same p in
      inl (same, some_inj (sym p' ∙ a.new))
  | inr e ↦ inr (sym (a.rest t' e) ∙ p)
]

IsKept-Adds : (t v : ℕ) (w w' : Store) → Adds t w w' → IsKept v w → IsKept v w'
IsKept-Adds t v w w' a (r, d, l) =
    let other : (v == w.next_user) ≡ false = ground arith in
    (a.refs v other ∙ r, a.deleted v other ∙ d, omega (arith, a.next))

used-Adds :
    (t t' v : ℕ) (w w' : Store)
    → IsSound w
    → Adds t w w'
    → (w'.telnets t').user ≡ some v
    → IsKept v w' × (is_in v w'.to_release_things ≡ false)
used-Adds t t' v w w' s a p = elim (Adds-cases t t' v w w' a p) [
  | inl (e, e') ↦
      subst (λ x. IsKept x w' × (is_in x w'.to_release_things ≡ false)) (sym e')
        (
          (a.new_refs, a.new_alive, omega (arith, a.next)),
          ap (is_in w.next_user) a.things ∙ not_waiting w s,
        )
  | inr before ↦
      let (k, n) = s.used t' v before in (IsKept-Adds t v w w' a k, ap (is_in v) a.things ∙ n)
]

one-Adds :
    (t t' t'' v : ℕ) (w w' : Store)
    → IsSound w
    → Adds t w w'
    → (w'.telnets t').user ≡ some v
    → (w'.telnets t'').user ≡ some v
    → t' ≡ t''
one-Adds t t' t'' v w w' s a p p' = elim (Adds-cases t t' v w w' a p) [
  | inl (e, k) ↦ elim (Adds-cases t t'' v w w' a p') [
    | inl (e', k') ↦ e ∙ sym e'
    | inr before ↦ let below = (s.used t'' v before).0.2 in absurd (omega arith)
  ]
  | inr before ↦ elim (Adds-cases t t'' v w w' a p') [
    | inl (e', k') ↦ let below = (s.used t' v before).0.2 in absurd (omega arith)
    | inr before' ↦ s.one t' t'' v before before'
  ]
]

Adds-IsSound : (t : ℕ) (w w' : Store) → IsSound w → Adds t w w' → IsSound w'
Adds-IsSound t w w' s a = record {
  used = λ t' v p. used-Adds t t' v w w' s a p;
  one = λ t' t'' v p p'. one-Adds t t' t'' v w w' s a p p';
  freed = λ v f. IsKept-Adds t v w w' a (s.freed v (sym (ap (is_in v) a.things) ∙ f));
  once = ap is_distinct a.things ∙ s.once;
}

-- The protocol of a first packet.
pub first_packet-IsSound :
    (t : ℕ) (w : Store) → IsSound w → (w' : Store) × (parse_first_packet t w ≡ some w') × IsSound w'
unfolding parse_first_packet create_user set_user connect increment decrement
first_packet-IsSound t w s =
    let u : ℕ = w.next_user in
    let w₁ = add_list u (create_user t w) in
    let w₂ =
      put_telnet t (record (w₁.telnets t) { ref_count = increment (w₁.telnets t).ref_count }) w₁ in
    let o : Telnet = record (w₂.telnets t) {
      ref_count = decrement (w₂.telnets t).ref_count;
      accept_packets = true;
    } in
    let w₃ = add_ref u (put_telnet t o w₂) in
    let w₄ = put_user u (record (w₃.users u) { client = some t }) w₃ in
    let tt_same = ==_same t in
    let pointer : (w₂.telnets t).user ≡ some u = rw tt_same refl in
    (
      w₄,
      (λ i. connect_pointer (pointer i) t w₂),
      Adds-IsSound t w w₄ s (record {
        new = rw tt_same refl;
        rest = λ t' n. rw n refl;
        refs = λ v n. rw n refl;
        deleted = λ v n. rw n refl;
        new_refs = rw (==_same u) refl;
        new_alive = rw (==_same u) refl;
        next = refl;
        things = refl;
      }),
    )
