-- ===== src/Network/OutputMessagePool/Send.antt =====
-- What sendAll of src/Network/OutputMessage.cpp sends, and in which order.
use lotospp.Base.{ℕ, Bool, List, [], ◌∷◌, ◌++◌, Option, if◌then◌else◌}
use lotospp.Network.OutputMessagePool.{Pool, allocated, set_message, Sent, is_old, deliver}

-- The messages of a list that are too old, and those that are not, by the frames of the messages.
unfoldable pub old_ones : ℕ → (ℕ → ℕ) → List ℕ → List ℕ
old_ones now frame [] = []
old_ones now frame (id ∷ ids) =
    let rest = old_ones now frame ids in if is_old now (frame id) then id ∷ rest else rest

unfoldable pub fresh_ones : ℕ → (ℕ → ℕ) → List ℕ → List ℕ
fresh_ones now frame [] = []
fresh_ones now frame (id ∷ ids) =
    let rest = fresh_ones now frame ids in if is_old now (frame id) then rest else id ∷ rest

abbrev pub frames : Pool → ℕ → ℕ
frames p i = (p.messages i).frame

abbrev pub connections : Pool → ℕ → Option ℕ
connections p i = (p.messages i).connection

-- The first loop's step for a message that is not too old.
abbrev queued : Pool → ℕ → Pool
queued p id = record p {
  messages = set_message p id (record (p.messages id) { state = allocated });
  auto_send = p.auto_send ++ id ∷ [];
}

-- What the second loop does with a list of messages, by their connections.
unfoldable pub deliveries : (ℕ → ℕ → Bool) → (ℕ → Option ℕ) → List ℕ → List Sent
deliveries send connection [] = []
deliveries send connection (id ∷ ids) =
    deliver send id (connection id) ∷ deliveries send connection ids
