-- ===== src/Network/Telnet/Alive/Clean.antt =====
-- Talker::cleanup of src/Common/Talker.cpp over a store of telnet sessions.
use lotospp.Base.{
  ℕ, ◌<◌, ◌≡◌, refl, sym, subst, ap, ◌∙◌, pos, true, false, List, [], ◌∷◌, some, ◌==◌, arith,
}
use lotospp.Network.OutputMessagePool.{decrement}
use lotospp.Network.Telnet.{un_ref, un_ref_all, clear_things, Store, put_user, cleanup, and_then}
use lotospp.Network.Telnet.Alive.{is_in, is_distinct, IsKept, IsSound}
use lotospp.Network.Telnet.Alive.Frames.{in_differs, out_differs}

-- The clean-up of things that are kept and wait once, one behind the other.
record Cleaned (us : List ℕ) (w w' : Store) : Type 0 where
  telnets : w'.telnets ≡ w.telnets
  next : w'.next_user ≡ w.next_user
  refs : (v : ℕ) → is_in v us ≡ false → (w'.users v).refs ≡ (w.users v).refs
  deleted : (v : ℕ) → is_in v us ≡ false → (w'.users v).deleted ≡ (w.users v).deleted

abbrev unreferenced : ℕ → Store → Store
unreferenced u w = put_user u (record (w.users u) { refs = pos 1 }) w

un_ref-IsKept : (u : ℕ) (w : Store) → IsKept u w → un_ref u w ≡ some (unreferenced u w)
unfolding un_ref decrement
un_ref-IsKept u w (r, d, l) = rw (d, r) refl

unreferenced-IsKept :
    (u v : ℕ) (w : Store) → (v == u) ≡ false → IsKept v w → IsKept v (unreferenced u w)
unreferenced-IsKept u v w n (r, d, l) = (rw n r, rw n d, l)

un_ref_all-Cleaned :
    (us : List ℕ) (w : Store)
    → is_distinct us ≡ true
    → ((v : ℕ) → is_in v us ≡ true → IsKept v w)
    → (w' : Store) × (un_ref_all us w ≡ some w') × Cleaned us w w'
unfolding un_ref_all is_distinct is_in
un_ref_all-Cleaned [] w d k =
    (w, refl, record { telnets = refl; next = refl; refs = λ v n. refl; deleted = λ v n. refl })
un_ref_all-Cleaned (u ∷ us) w d k =
    let w₁ = unreferenced u w in
    let first = un_ref-IsKept u w (k u (ground arith)) in
    let not_here : is_in u us ≡ false = ground arith in
    let later : (v : ℕ) → is_in v us ≡ true → IsKept v w₁ =
      λ v i. unreferenced-IsKept u v w (in_differs u v us not_here i) (k v (ground arith)) in
    let (w', e, c) = un_ref_all-Cleaned us w₁ (ground arith) later in
    (
      w',
      (λ i. and_then (first i) (un_ref_all us)) ∙ e,
      record {
        telnets = c.telnets;
        next = c.next;
        refs = λ v n. c.refs v (ground arith) ∙ rw (out_differs v u us n) refl;
        deleted = λ v n. c.deleted v (ground arith) ∙ rw (out_differs v u us n) refl;
      },
    )

pub cleanup-IsSound : (w : Store) → IsSound w → (w' : Store) × (cleanup w ≡ some w') × IsSound w'
unfolding cleanup is_in is_distinct
cleanup-IsSound w s =
    let (w', e, c) = un_ref_all-Cleaned w.to_release_things w s.once s.freed in
    let before : (t u : ℕ) → (w'.telnets t).user ≡ some u → (w.telnets t).user ≡ some u =
      λ t u p. (λ i. (sym c.telnets i t).user) ∙ p in
    (
      record w' { to_release_things = [] },
      ap clear_things e,
      record {
        used = λ t u p.
            let ((r, d, l), n) = s.used t u (before t u p) in
            ((c.refs u n ∙ r, c.deleted u n ∙ d, subst (λ x. u < x) (sym c.next) l), refl);
        one = λ t t' u p p'. s.one t t' u (before t u p) (before t' u p');
        freed = λ u i. absurd (ground arith);
        once = refl;
      },
    )
