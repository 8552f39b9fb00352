-- ===== src/Network/OutputMessagePool/Tests.antt =====
-- The pool of messages at concrete inputs.
use lotospp.Base.{ℕ, ◌+◌, ◌≡◌, refl, Bool, true, false, [], ◌∷◌, some, ◌==◌, if◌then◌else◌, arith}
use lotospp.Network.OutputMessagePool.{
  allocated, free_message, Pool, get_output_message, internal_release,
}
use lotospp.Network.OutputMessagePool.Release.{stock, release_undoes_get}

-- Messages 0 and 1 are in the pool, 2 to 4 are out; 3 is old.
abbrev pool : Pool
pool = record {
  created = 5;
  messages = λ i. if i == 0 then free_message else record {
    state = allocated;
    protocol = some 7;
    connection = some (20 + i);
    frame = if i == 3 then 1000 else 50000;
  };
  output_messages = 0 ∷ 1 ∷ [];
  auto_send = 2 ∷ [];
  to_add = 3 ∷ 4 ∷ [];
  frame_time = 60000;
  is_open = true;
  protocol_refs = λ x. 3;
  connection_refs = λ x. 1;
}

abbrev all_but_24 : ℕ → ℕ → Bool
all_but_24 connection id = if connection == 24 then false else true

release_undoes_get_example :
    (q : Pool) × (id : ℕ) × (get_output_message pool 7 (some 22) true ≡ (q, some id))
    × ((x : ℕ) → (internal_release q id).protocol_refs x ≡ pool.protocol_refs x)
    × ((x : ℕ) → (internal_release q id).connection_refs x ≡ pool.connection_refs x)
    × ((internal_release q id).messages id ≡ free_message)
    × ((internal_release q id).output_messages ≡ stock pool.created pool.output_messages)
release_undoes_get_example =
    release_undoes_get pool 7 22 true refl (λ x. omega arith) (λ x. omega arith)
