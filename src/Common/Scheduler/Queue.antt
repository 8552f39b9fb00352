-- ===== src/Common/Scheduler/Queue.antt =====
-- The queue of src/Common/Scheduler.cpp: order, membership and distinct ids.
use Prim.{⊥}
use lotospp.Base.{ℕ, ◌≤◌, ◌≡◌, ◌≢◌, refl, sym, ◌⊎◌, inl, inr, List, [], ◌∷◌, ltb, arith, Bool-cases}
use lotospp.Common.Scheduler.{SchedulerTask, push}

-- No task of the queue is due before time `c`.
abbrev pub NotBefore : ℕ → List SchedulerTask → Type 0
NotBefore c [] = Unit {0}
NotBefore c (t ∷ ts) = (c ≤ t.cycle) × NotBefore c ts

-- The queue is in the order of the times at which its tasks are due.
abbrev pub IsSorted : List SchedulerTask → Type 0
IsSorted [] = Unit {0}
IsSorted (t ∷ ts) = NotBefore t.cycle ts × IsSorted ts

-- Some task of the queue has the id.
abbrev pub Queued : ℕ → List SchedulerTask → Type 0
Queued i [] = ⊥
Queued i (t ∷ ts) = (t.event_id ≡ i) ⊎ Queued i ts

-- No task of the queue has the id.
abbrev pub Apart : ℕ → List SchedulerTask → Type 0
Apart i [] = Unit {0}
Apart i (t ∷ ts) = (t.event_id ≢ i) × Apart i ts

abbrev pub AreDistinct : List SchedulerTask → Type 0
AreDistinct [] = Unit {0}
AreDistinct (t ∷ ts) = Apart t.event_id ts × AreDistinct ts

NotBefore-mono : (c d : ℕ) (ts : List SchedulerTask) → c ≤ d → NotBefore d ts → NotBefore c ts
NotBefore-mono c d [] h n = tt
NotBefore-mono c d (t ∷ ts) h (a, n) = (omega arith, NotBefore-mono c d ts h n)

NotBefore-push :
    (c : ℕ) (t : SchedulerTask) (ts : List SchedulerTask)
    → c ≤ t.cycle
    → NotBefore c ts
    → NotBefore c (push t ts)
unfolding push
NotBefore-push c t [] h n = (h, tt)
NotBefore-push c t (u ∷ us) h (a, n) = elim (Bool-cases (ltb t.cycle u.cycle)) [
  | inl before ↦ rw before (h, (a, n))
  | inr after ↦ rw after (a, NotBefore-push c t us h n)
]

pub push-IsSorted :
    (t : SchedulerTask) (ts : List SchedulerTask) → IsSorted ts → IsSorted (push t ts)
unfolding push
push-IsSorted t [] s = (tt, tt)
push-IsSorted t (u ∷ us) (n, s) = elim (Bool-cases (ltb t.cycle u.cycle)) [
  | inl before ↦
      rw before ((ground arith, NotBefore-mono t.cycle u.cycle us (ground arith) n), (n, s))
  | inr after ↦ rw after (NotBefore-push u.cycle t us (ground arith) n, push-IsSorted t us s)
]

pub Queued-push_self : (t : SchedulerTask) (ts : List SchedulerTask) → Queued t.event_id (push t ts)
unfolding push
Queued-push_self t [] = inl refl
Queued-push_self t (u ∷ us) = elim (Bool-cases (ltb t.cycle u.cycle)) [
  | inl before ↦ rw before (inl refl)
  | inr after ↦ rw after (inr (Queued-push_self t us))
]

pub Queued-push :
    (i : ℕ) (t : SchedulerTask) (ts : List SchedulerTask) → Queued i ts → Queued i (push t ts)
unfolding push
Queued-push i t [] q = absurd q
Queued-push i t (u ∷ us) q = elim (Bool-cases (ltb t.cycle u.cycle)) [
  | inl before ↦ rw before (inr q)
  | inr after ↦ rw after (elim q [ inl e ↦ inl e | inr q' ↦ inr (Queued-push i t us q') ])
]

Apart-push :
    (i : ℕ) (t : SchedulerTask) (ts : List SchedulerTask)
    → t.event_id ≢ i
    → Apart i ts
    → Apart i (push t ts)
unfolding push
Apart-push i t [] n a = (n, tt)
Apart-push i t (u ∷ us) n (m, a) = elim (Bool-cases (ltb t.cycle u.cycle)) [
  | inl before ↦ rw before (n, (m, a))
  | inr after ↦ rw after (m, Apart-push i t us n a)
]

-- A task with a new id keeps the ids distinct.
pub push-AreDistinct :
    (t : SchedulerTask) (ts : List SchedulerTask)
    → Apart t.event_id ts
    → AreDistinct ts
    → AreDistinct (push t ts)
unfolding push
push-AreDistinct t [] a d = (tt, tt)
push-AreDistinct t (u ∷ us) (n, a) (b, d) = elim (Bool-cases (ltb t.cycle u.cycle)) [
  | inl before ↦ rw before ((n, a), (b, d))
  | inr after ↦ rw after (Apart-push u.event_id t us (λ e. n (sym e)) b, push-AreDistinct t us a d)
]
