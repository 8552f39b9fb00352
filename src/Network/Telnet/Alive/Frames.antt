-- ===== src/Network/Telnet/Alive/Frames.antt =====
-- What steps of telnet sessions leave alone of the users and protocols of a store: src/Network/Protocols/Telnet.cpp.
use lotospp.Base.{
  ℕ, ◌<◌, ◌≡◌, refl, sym, subst, ap, ◌∙◌, true, false, ◌||◌, List, [], ◌∷◌, ◌++◌, none, some, ◌==◌,
  arith, Bool-cases, inl, inr,
}
use lotospp.Network.Telnet.{Telnet, Store, put_telnet}
use lotospp.Network.Telnet.Alive.{is_in, is_distinct, IsKept, IsSound}

pub is_in-append : (u v : ℕ) (us : List ℕ) → is_in u (us ++ v ∷ []) ≡ (is_in u us || (u == v))
unfolding is_in
is_in-append u v [] = ground arith
is_in-append u v (x ∷ us) = ground (arith, is_in-append u v us)

pub is_distinct-append :
    (v : ℕ) (us : List ℕ)
    → is_distinct us ≡ true
    → is_in v us ≡ false
    → is_distinct (us ++ v ∷ []) ≡ true
unfolding is_distinct is_in
is_distinct-append v [] d n = refl
is_distinct-append v (x ∷ us) d n = ground (arith, is_distinct-append v us, is_in-append x v us)

pub ==_same : (n : ℕ) → (n == n) ≡ true
==_same n = ground arith

-- A step that gives no protocol a user and leaves all users alone.
pub record Keeps (w w' : Store) : Type 0 where
  pub fewer : (t v : ℕ) → (w'.telnets t).user ≡ some v → (w.telnets t).user ≡ some v
  pub refs : (v : ℕ) → (w'.users v).refs ≡ (w.users v).refs
  pub deleted : (v : ℕ) → (w'.users v).deleted ≡ (w.users v).deleted
  pub next : w'.next_user ≡ w.next_user
  pub things : w'.to_release_things ≡ w.to_release_things

pub Keeps-IsSound : (w w' : Store) → IsSound w → Keeps w w' → IsSound w'
Keeps-IsSound w w' s k =
    let keep : (v : ℕ) → IsKept v w → IsKept v w' =
      λ v h. (k.refs v ∙ h.0, k.deleted v ∙ h.1, subst (λ x. v < x) (sym k.next) h.2) in
    let same : (v : ℕ) → is_in v w'.to_release_things ≡ is_in v w.to_release_things =
      λ v. ap (is_in v) k.things in
    record {
      used = λ t v p. let (h, n) = s.used t v (k.fewer t v p) in (keep v h, same v ∙ n);
      one = λ t t' v p p'. s.one t t' v (k.fewer t v p) (k.fewer t' v p');
      freed = λ v f. keep v (s.freed v (sym (same v) ∙ f));
      once = ap is_distinct k.things ∙ s.once;
    }

-- Where a protocol lost its user, the others have other users.
pub other_user :
    (t u t' v : ℕ) (w w' : Store)
    → IsSound w
    → (w.telnets t).user ≡ some u
    → (w'.telnets t).user ≡ none
    → ((w'.telnets t').user ≡ some v → (w.telnets t').user ≡ some v)
    → (w'.telnets t').user ≡ some v
    → (v == u) ≡ false
other_user t u t' v w w' s h gone fewer p = elim (Bool-cases (v == u)) [
  | inr e ↦ e
  | inl e ↦
      let same : v ≡ u = ground arith in
      let tt = s.one t' t u (subst (λ x. (w.telnets t').user ≡ some x) same (fewer p)) h in
      let clash = subst (λ x. (w'.telnets x).user ≡ some v) tt p in absurd (ground arith)
]

pub waiting_other :
    (u v : ℕ) (w : Store)
    → is_in u w.to_release_things ≡ false
    → is_in v w.to_release_things ≡ true
    → (v == u) ≡ false
waiting_other u v w n f = elim (Bool-cases (v == u)) [
  | inr e ↦ e
  | inl e ↦
      let same : v ≡ u = ground arith in
      let clash = subst (λ x. is_in x w.to_release_things ≡ true) same f in absurd (ground arith)
]

-- The users of the protocols behind the loss of one.
pub pointer_before :
    (t t' v : ℕ) (o : Telnet) (w : Store)
    → o.user ≡ none
    → ((put_telnet t o w).telnets t').user ≡ some v
    → (w.telnets t').user ≡ some v
pointer_before t t' v o w n p = elim (Bool-cases (t' == t)) [
  | inl e ↦ absurd (ground (arith, p))
  | inr e ↦ ground (arith, p)
]

pub in_differs : (u v : ℕ) (us : List ℕ) → is_in u us ≡ false → is_in v us ≡ true → (v == u) ≡ false
in_differs u v us n i = elim (Bool-cases (v == u)) [
  | inr e ↦ e
  | inl e ↦
      let same : v ≡ u = ground arith in
      let clash = subst (λ x. is_in x us ≡ true) same i in absurd (ground arith)
]

pub out_differs : (v u : ℕ) (us : List ℕ) → is_in v (u ∷ us) ≡ false → (v == u) ≡ false
unfolding is_in
out_differs v u us n = ground arith

pub equal : (v u : ℕ) → (v == u) ≡ true → v ≡ u
equal v u e = ground arith
