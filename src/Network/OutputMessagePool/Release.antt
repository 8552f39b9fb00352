-- ===== src/Network/OutputMessagePool/Release.antt =====
-- A message of the pool of src/Network/OutputMessage.cpp from getOutputMessage to its release.
use lotospp.Base.{
  ℕ, ◌^◌, ◌<◌, ◌≡◌, refl, sym, ap, subst, ◌∙◌, Bool, true, List, [], ◌∷◌, ◌++◌, some, arith,
}
use lotospp.Network.OutputMessagePool.{
  free_message, Pool, increment, decrement, pop_back, take_from, take_message, configure,
  get_output_message, internal_release,
}

decrement-increment : (n : ℕ) → n < 2 ^ 32 → decrement (increment n) ≡ n
unfolding decrement increment
decrement-increment n l = omega arith

pop_back_lem : (id : ℕ) (ids : List ℕ) → (pop_back id ids).0 ++ (pop_back id ids).1 ∷ [] ≡ id ∷ ids
unfolding pop_back
pop_back_lem id [] = refl
pop_back_lem id (next ∷ ids) = ap (id ∷◌) (pop_back_lem next ids)

-- The pool's messages, or the new one that is made where there is none.
unfoldable pub stock : ℕ → List ℕ → List ℕ
stock created [] = created ∷ []
stock created (id ∷ ids) = id ∷ ids

take_from_lem :
    (p : Pool) (ids : List ℕ)
    → p.output_messages ≡ ids
    → ((take_from p ids).0.output_messages ++ (take_from p ids).1 ∷ [] ≡ stock p.created ids)
      × ((take_from p ids).0.protocol_refs ≡ p.protocol_refs)
      × ((take_from p ids).0.connection_refs ≡ p.connection_refs)
unfolding take_from stock
take_from_lem p [] e = (ap (◌++ (p.created ∷ [])) e, refl, refl)
take_from_lem p (id ∷ ids) e = (pop_back_lem id ids, refl, refl)

configure-release :
    (t : Pool) (id protocol connection : ℕ) (autosend : Bool) (x : ℕ)
    → t.protocol_refs x < 2 ^ 32
    → t.connection_refs x < 2 ^ 32
    → ((internal_release (configure t id protocol connection autosend) id).protocol_refs x
        ≡ t.protocol_refs x)
      × ((internal_release (configure t id protocol connection autosend) id).connection_refs x
          ≡ t.connection_refs x)
      × ((internal_release (configure t id protocol connection autosend) id).messages id
          ≡ free_message)
unfolding configure internal_release
configure-release t id protocol connection autosend x hp hc =
    let p = decrement-increment (t.protocol_refs x) hp in
    let c = decrement-increment (t.connection_refs x) hc in
    (ground arith, ground arith, ground arith)

configure-list :
    (t : Pool) (id protocol connection : ℕ) (autosend : Bool)
    → (internal_release (configure t id protocol connection autosend) id).output_messages
      ≡ t.output_messages ++ id ∷ []
unfolding configure internal_release
configure-list t id protocol connection autosend = refl

-- An open pool gives a message to a protocol with a connection. Released as it is, the message is free,
-- the references of all protocols and connections are as before, and the pool's list is what it was, or
-- the new message alone where it was empty. The counters are uint32_t.
pub release_undoes_get :
    (p : Pool) (protocol connection : ℕ) (autosend : Bool)
    → p.is_open ≡ true
    → ((x : ℕ) → p.protocol_refs x < 2 ^ 32)
    → ((x : ℕ) → p.connection_refs x < 2 ^ 32)
    → (q : Pool) × (id : ℕ) × (get_output_message p protocol (some connection) autosend
        ≡ (q, some id))
      × ((x : ℕ) → (internal_release q id).protocol_refs x ≡ p.protocol_refs x)
      × ((x : ℕ) → (internal_release q id).connection_refs x ≡ p.connection_refs x)
      × ((internal_release q id).messages id ≡ free_message)
      × ((internal_release q id).output_messages ≡ stock p.created p.output_messages)
unfolding get_output_message take_message
release_undoes_get p protocol connection autosend o hp hc =
    let (a, b, c) = take_from_lem p p.output_messages refl in
    let t : Pool = (take_from p p.output_messages).0 in
    let id : ℕ = (take_from p p.output_messages).1 in
    let bound : (x : ℕ) → t.protocol_refs x < 2 ^ 32 =
      subst (λ r. (x : ℕ) → r x < 2 ^ 32) (sym b) hp in
    let bound' : (x : ℕ) → t.connection_refs x < 2 ^ 32 =
      subst (λ r. (x : ℕ) → r x < 2 ^ 32) (sym c) hc in
    (
      configure t id protocol connection autosend,
      id,
      rw (o),
      λ x.
          (configure-release t id protocol connection autosend x (bound x) (bound' x)).0
          ∙ ap (λ r. r x) b,
      λ x.
          (configure-release t id protocol connection autosend x (bound x) (bound' x)).1
          ∙ ap (λ r. r x) c,
      (configure-release t id protocol connection autosend 0 (bound 0) (bound' 0)).2,
      configure-list t id protocol connection autosend ∙ a,
    )
