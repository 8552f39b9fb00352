-- ===== src/Network/Notices/Buffer.antt =====
-- The buffer for messages that are sent together: Protocol::getOutputBuffer of src/Network/Protocol.cpp.
use lotospp.Base.{
  ℕ, ◌-◌, ◌≤◌, ◌<◌, ◌≡◌, refl, true, false, List, [], ◌++◌, Option, none, some, length, arith,
  subst, Bool-cases, inl, inr, Option-cases,
}
use lotospp.Network.NetworkMessage.{NetworkMessage, max_size, reset}
use lotospp.Network.NetworkMessage.Log.{
  Write, byte, text, IsShort, append, payload, Represents, reset-Represents, perform,
  perform-append,
}
use lotospp.Network.OutputMessagePool.Single.{get_output_message-gives}
use lotospp.Network.Notices.{Buffered, has_room, get_output_buffer}

-- A message with room for 4096 bytes keeps a call whole that has no more.
keeps_whole :
    (log : List ℕ) (w : Write)
    → length log < max_size - 4096
    → length (payload w) ≤ 4096
    → append log w ≡ log ++ payload w
unfolding append
keeps_whole log (text bs) l p = ground arith
keeps_whole log (byte v) l p = ground arith
keeps_whole log (Write.u16 v) l p = ground arith
keeps_whole log (Write.u32 v) l p = ground arith
keeps_whole log (Write.u64 v) l p = ground arith
keeps_whole log (Write.bytes bs) l p = ground arith

-- A buffer, if there is one, whose bytes are a log.
abbrev pub IsLogged : Option (ℕ × NetworkMessage) → Type 0
IsLogged none = Prim.Unit {0}
IsLogged (some (id, m)) = (log : List ℕ) × Represents m log

-- The buffer that is given holds a log, and behind a call the log with it.
abbrev pub TakesWhole : Write → NetworkMessage → Type 0
TakesWhole w m =
    (log : List ℕ) × (m' : NetworkMessage) × Represents m log
    × (perform m w ≡ some m')
    × Represents m' (log ++ payload w)

takes_whole :
    (m : NetworkMessage) (log : List ℕ) (w : Write)
    → Represents m log
    → length log < max_size - 4096
    → IsShort w
    → length (payload w) ≤ 4096
    → TakesWhole w m
takes_whole m log w r l s p =
    let (m', e, r') = perform-append m log w r s in
    (log, m', r, e, subst (Represents m') (keeps_whole log w l p) r')

new_buffer :
    (protocol connection : ℕ) (memory : NetworkMessage) (b : Buffered)
    → b.pool.is_open ≡ true
    → has_room b.buffer ≡ false
    → (b' : Buffered) × (id : ℕ) × (get_output_buffer protocol (some connection) memory b
        ≡ (b', some (id, reset memory)))
      × (b'.buffer ≡ some (id, reset memory))
unfolding get_output_buffer
new_buffer protocol connection memory b o n =
    let (q, id, e) = get_output_message-gives b.pool protocol connection true o in
    (record { pool = q; buffer = some (id, reset memory) }, id, rw (n, e) refl, refl)

old_buffer :
    (protocol connection id : ℕ) (memory m : NetworkMessage) (b : Buffered)
    → b.buffer ≡ some (id, m)
    → has_room b.buffer ≡ true
    → get_output_buffer protocol (some connection) memory b ≡ (b, some (id, m))
unfolding get_output_buffer
old_buffer protocol connection id memory m b e n = rw (n, e) refl

-- getOutputBuffer of a protocol with a connection and an open pool: the buffer that it returns is
-- m_outputBuffer, and takes a call of at most 4096 bytes whole, whatever was in the buffer before.
pub get_output_buffer-takes :
    (protocol connection : ℕ) (memory : NetworkMessage) (b : Buffered) (w : Write)
    → b.pool.is_open ≡ true
    → IsLogged b.buffer
    → IsShort w
    → length (payload w) ≤ 4096
    → (b' : Buffered) × (id : ℕ) × (m : NetworkMessage) × (get_output_buffer protocol
          (some connection)
          memory
          b
        ≡ (b', some (id, m)))
      × (b'.buffer ≡ some (id, m))
      × TakesWhole w m
get_output_buffer-takes protocol connection memory b w o k s p =
    elim (Bool-cases (has_room b.buffer)) [
      | inr full ↦
          let (b', id, e, e') = new_buffer protocol connection memory b o full in
          (
            b',
            id,
            reset memory,
            e,
            e',
            takes_whole (reset memory) [] w (reset-Represents memory) (omega arith) s p,
          )
      | inl roomy ↦ elim (Option-cases b.buffer) [
        | inl e ↦ absurd (ground (arith, e))
        | inr ((id, m), e) ↦
            let (log, r) = subst IsLogged e k in
            let fits : length log < max_size - 4096 = ground (arith, e, r.size) in
            (
              b,
              id,
              m,
              old_buffer protocol connection id memory m b e roomy,
              e,
              takes_whole m log w r fits s p,
            )
      ]
    ]
