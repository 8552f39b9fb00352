-- ===== src/Network/OutputMessagePool/Single.antt =====
-- A message of the pool of src/Network/OutputMessage.cpp that is sent by itself.
use lotospp.Base.{ℕ, ◌≡◌, refl, Bool, true, false, ◌==◌, some, arith}
use lotospp.Network.OutputMessagePool.{
  Pool, get_output_message, deliver, send_single, take_message, configure,
}

-- An open pool gives a protocol with a connection a message that `send` hands to this connection.
pub send_single-get_output_message :
    (send : ℕ → ℕ → Bool) (p : Pool) (protocol connection : ℕ)
    → p.is_open ≡ true
    → (q : Pool) × (id : ℕ) × (get_output_message p protocol (some connection) false ≡ (q, some id))
      × (send_single send q id ≡ some (deliver send id (some connection)))
unfolding get_output_message configure send_single
send_single-get_output_message send p protocol connection o =
    let (t, id) = take_message p in
    let same : (id == id) ≡ true = ground arith in
    (configure t id protocol connection false, id, rw o refl, rw same refl)

pub get_output_message-gives :
    (p : Pool) (protocol connection : ℕ) (autosend : Bool)
    → p.is_open ≡ true
    → (q : Pool) × (id : ℕ) × (get_output_message p protocol (some connection) autosend
        ≡ (q, some id))
unfolding get_output_message
get_output_message-gives p protocol connection autosend o =
    let (t, id) = take_message p in (configure t id protocol connection autosend, id, rw o refl)
