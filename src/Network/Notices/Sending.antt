-- ===== src/Network/Notices/Sending.antt =====
-- What messages hold that a protocol of src/Network/Protocol.cpp sends by itself.
use lotospp.Base.{
  ℕ, ◌+◌, ◌<◌, ◌^◌, ◌≡◌, ◌∙◌, Bool, true, List, [], ◌∷◌, ◌++◌, some, length, length-append, ltb,
  subst, arith, if◌then◌else◌,
}
use lotospp.Common.User.Print.{until_nul}
use lotospp.Network.NetworkMessage.{NetworkMessage, reset}
use lotospp.Network.NetworkMessage.Log.{
  Write, AreShort, append, append_all, perform_all, Represents, perform_all-append_all,
  reset-Represents,
}
use lotospp.Network.OutputMessagePool.{Pool, deliver, send_single}
use lotospp.Network.OutputMessagePool.Single.{send_single-get_output_message}
use lotospp.Network.Notices.{string, fill_message, sent_as, send_calls, write}

-- An open pool and a protocol with a connection: the message that is sent holds the calls one behind the other,
-- each whole or, where it is too long or has no room, not at all, and the connection is handed it.
pub send_calls_lem :
    (send : ℕ → ℕ → Bool) (p : Pool) (protocol connection : ℕ) (calls : List Write)
    (memory : NetworkMessage)
    → p.is_open ≡ true
    → AreShort calls
    → (q : Pool) × (id : ℕ) × (m : NetworkMessage) × (send_calls send p protocol
          (some connection)
          calls
          memory
        ≡ some (q, m, some (deliver send id (some connection))))
      × Represents m (append_all [] calls)
unfolding send_calls
send_calls_lem send p protocol connection calls memory o s =
    let (q, id, e, e') = send_single-get_output_message send p protocol connection o in
    let (m, d, r) = perform_all-append_all (reset memory) [] calls (reset-Represents memory) s in
    (
      q,
      id,
      m,
      (λ i. fill_message (send_single send) calls memory (e i))
          ∙ (λ i. sent_as q (e' i) (perform_all (reset memory) calls))
          ∙ (λ i. sent_as q (some (deliver send id (some connection))) (d i)),
      r,
    )

-- What Protocol::write puts into its message.
unfoldable pub written : List ℕ → List ℕ
written str = if ltb 8192 (length (until_nul str)) then [] else until_nul str ++ 0 ∷ []

append_all-written : (str : List ℕ) → append_all [] (string str ∷ []) ≡ written str
unfolding append_all append written
append_all-written str = let size = length-append (until_nul str) (0 ∷ []) in ground (arith, size)

-- Protocol::write of an open pool, over a connection: it hands the connection a message of the text up to its
-- first NUL, with a NUL behind it, where the text has at most 8192 bytes, and an empty message where it is
-- longer. The length of the text fits a uint32_t.
pub write_lem :
    (send : ℕ → ℕ → Bool) (p : Pool) (protocol connection : ℕ) (str : List ℕ)
    (memory : NetworkMessage)
    → p.is_open ≡ true
    → length (until_nul str) + 1 < 2 ^ 32
    → (q : Pool) × (id : ℕ) × (m : NetworkMessage) × (write send p protocol
          (some connection)
          str
          memory
        ≡ some (q, m, some (deliver send id (some connection))))
      × Represents m (written str)
unfolding write
write_lem send p protocol connection str memory o l =
    let (q, id, e, e') = send_single-get_output_message send p protocol connection o in
    let size = length-append (until_nul str) (0 ∷ []) in
    let calls : List Write = string str ∷ [] in
    let (m, d, r) =
      perform_all-append_all (reset memory) [] calls (reset-Represents memory)
        (ground (arith, size), tt) in
    (
      q,
      id,
      m,
      (λ i. fill_message (λ q id. some (deliver send id (some connection))) calls memory (e i))
          ∙ (λ i. sent_as q (some (deliver send id (some connection))) (d i)),
      subst (Represents m) (append_all-written str) r,
    )
