-- ===== src/Network/Telnet/Alive/Release.antt =====
-- The release of protocols: releaseProtocol and deleteProtocolTask of src/Network/Protocols/Telnet.cpp.
use lotospp.Base.{
  ℕ, ◌<◌, ◌≡◌, refl, sym, subst, ap, ◌∙◌, true, false, ◌||◌, [], ◌∷◌, ◌++◌, Option, none, some,
  ◌==◌, ltb, if◌then◌else◌, arith, Bool-cases, Option-cases, inl, inr,
}
use lotospp.Network.Telnet.{
  free_user, delete_protocol_task, leave_user, is_client, release_from, Telnet, Store, put_user,
  release_protocol, put_telnet,
}
use lotospp.Network.Telnet.Alive.{is_in, is_distinct, IsKept, IsSound}
use lotospp.Network.Telnet.Alive.Frames.{
  is_in-append, is_distinct-append, ==_same, equal, other_user, Keeps-IsSound, pointer_before,
}

-- A step that lets the user of a protocol wait for its release.
record Frees (t u : ℕ) (w w' : Store) : Type 0 where
  gone : (w'.telnets t).user ≡ none
  fewer : (t' v : ℕ) → (w'.telnets t').user ≡ some v → (w.telnets t').user ≡ some v
  users : w'.users ≡ w.users
  next : w'.next_user ≡ w.next_user
  things : w'.to_release_things ≡ w.to_release_things ++ u ∷ []

Frees-IsSound :
    (t u : ℕ) (w w' : Store) → IsSound w → (w.telnets t).user ≡ some u → Frees t u w w' → IsSound w'
Frees-IsSound t u w w' s h f =
    let keep : (v : ℕ) → IsKept v w → IsKept v w' = λ v k. (
      (λ i. (f.users i v).refs) ∙ k.0,
      (λ i. (f.users i v).deleted) ∙ k.1,
      subst (λ x. v < x) (sym f.next) k.2,
    ) in
    let now : (v : ℕ) → is_in v w'.to_release_things ≡ (is_in v w.to_release_things || (v == u)) =
      λ v. ap (is_in v) f.things ∙ is_in-append v u w.to_release_things in
    record {
      used = λ t' v p.
          let (k, n) = s.used t' v (f.fewer t' v p) in
          let differs = other_user t u t' v w w' s h f.gone (f.fewer t' v) p in
          (keep v k, now v ∙ ground (arith, n, differs));
      one = λ t' t'' v p p'. s.one t' t'' v (f.fewer t' v p) (f.fewer t'' v p');
      freed = λ v i. elim (Bool-cases (v == u)) [
        | inl e ↦ keep v (subst (λ x. IsKept x w) (sym (equal v u e)) (s.used t u h).0)
        | inr e ↦ keep v (s.freed v (ground (arith, now v)))
      ];
      once =
          ap is_distinct f.things
          ∙ is_distinct-append u w.to_release_things s.once (s.used t u h).1;
    }

leave_user-IsSound :
    (c : Option ℕ) (t : ℕ) (w : Store)
    → IsSound w
    → IsSound (leave_user c t w) × ((leave_user c t w).telnets ≡ w.telnets)
unfolding leave_user
leave_user-IsSound none t w s = (s, refl)
leave_user-IsSound (some u) t w s = elim (Bool-cases (is_client (w.users u).client t)) [
  | inl e ↦ (
    rw e (
        Keeps-IsSound w (put_user u (record (w.users u) { client = none }) w) s (record {
          fewer = λ t' v p. p;
          refs = λ v. elim (Bool-cases (v == u)) [
            | inl i ↦ rw i (ap (λ x. (w.users x).refs) (sym (equal v u i)))
            | inr i ↦ rw i refl
          ];
          deleted = λ v. elim (Bool-cases (v == u)) [
            | inl i ↦ rw i (ap (λ x. (w.users x).deleted) (sym (equal v u i)))
            | inr i ↦ rw i refl
          ];
          next = refl;
          things = refl;
        })),
    rw e refl,
  )
  | inr e ↦ rw e (s, refl)
]

delete_protocol_task-IsSound :
    (t : ℕ) (w : Store)
    → IsSound w
    → ((w.telnets t).ref_count == 0) ≡ true
    → (w' : Store) × (delete_protocol_task t w ≡ some w') × IsSound w'
unfolding delete_protocol_task free_user
delete_protocol_task-IsSound t w s z =
    let gone : Telnet = record (w.telnets t) { user = none; connection = false; deleted = true } in
    let done : Store → Option Store = λ x. some (put_telnet t gone x) in
    elim (Option-cases (w.telnets t).user) [
      | inl e ↦ (
        put_telnet t gone w,
        (λ i. if z i then done (free_user (w.telnets t).user w) else none)
            ∙ (λ i. done (free_user (e i) w)),
        Keeps-IsSound w (put_telnet t gone w) s (record {
          fewer = λ t' v p. pointer_before t t' v gone w refl p;
          refs = λ v. refl;
          deleted = λ v. refl;
          next = refl;
          things = refl;
        }),
      )
      | inr (u, e) ↦
          let w' = put_telnet t gone (free_user (some u) w) in
          (
            w',
            (λ i. if z i then done (free_user (w.telnets t).user w) else none)
                ∙ (λ i. done (free_user (e i) w)),
            Frees-IsSound t u w w' s e (record {
              gone = rw (==_same t) refl;
              fewer = λ t' v p. pointer_before t t' v gone w refl p;
              users = refl;
              next = refl;
              things = refl;
            }),
          )
    ]

pub release-IsSound :
    (t : ℕ) (w : Store) → IsSound w → (w' : Store) × (release_protocol t w ≡ some w') × IsSound w'
unfolding release_protocol release_from
release-IsSound t w s =
    let (s', same) = leave_user-IsSound (w.telnets t).user t w s in
    let w₁ = leave_user (w.telnets t).user t w in
    elim (Bool-cases (ltb 0 (w₁.telnets t).ref_count)) [
      | inl e ↦ (
        record w₁ { releases = w₁.releases ++ t ∷ [] },
        rw e refl,
        record { used = s'.used; one = s'.one; freed = s'.freed; once = s'.once },
      )
      | inr e ↦
          let (w', e', s'') = delete_protocol_task-IsSound t w₁ s' (ground arith) in
          (w', rw e e', s'')
    ]
