-- ===== src/Network/NetworkMessage/Log.antt =====
-- A message that is only written to is a bounded log of bytes: the abstract view of the Add methods
-- of src/Network/NetworkMessage.cpp, with the proof that they implement it.
use lotospp.Base.{
  ◌⊎◌, ℕ, ◌+◌, ◌%◌, ◌^◌, ◌≤◌, ◌<◌, ◌≡◌, refl, ◌&&◌, List, [], inl, inr, Bool-cases, ◌∷◌, ◌++◌,
  Option, none, some, ltb, leb, if◌then◌else◌, length, length-append, arith, append_assoc,
}
use lotospp.Network.NetworkMessage.{
  NetworkMessage, max_size, size_mod, write_bytes, read_bytes, le_bytes, reset, can_add, get_raw,
  put_bytes, add_uint, add_byte, add_u16, add_u32, add_u64, add_bytes, add_string, set_read_pos,
}
use lotospp.Network.NetworkMessage.Memory.{
  write_bytes-below, read_bytes-agree, read_bytes-write_bytes, read_bytes-add,
}

-- One call of an Add method.
pub data Write : Type 0 where
  byte u16 u32 u64 : ℕ → Write
  bytes text : List ℕ → Write

unfoldable pub perform : NetworkMessage → Write → Option NetworkMessage
unfolding add_byte add_u16 add_u32 add_u64 add_bytes add_string
perform m (byte v) = add_byte m v
perform m (u16 v) = add_u16 m v
perform m (u32 v) = add_u32 m v
perform m (u64 v) = add_u64 m v
perform m (bytes bs) = add_bytes m bs
perform m (text bs) = add_string m bs

unfoldable pub perform_all : NetworkMessage → List Write → Option NetworkMessage
perform_all m [] = some m
perform_all m (w ∷ ws) = elim (perform m w) [ none ↦ none | some m' ↦ perform_all m' ws ]

-- The bytes that a call stands for.
abbrev pub payload : Write → List ℕ
payload (byte v) = le_bytes 1 v
payload (u16 v) = le_bytes 2 v
payload (u32 v) = le_bytes 4 v
payload (u64 v) = le_bytes 8 v
payload (bytes bs) = bs
payload (text bs) = bs ++ 0 ∷ []

-- A call longer than this is refused whatever the room.
abbrev pub call_limit : Write → ℕ
call_limit (text bs) = 8193
call_limit _ = 8192

-- The abstract log: a call is kept whole or dropped whole.
unfoldable pub append : List ℕ → Write → List ℕ
append log w =
    if leb (length (payload w)) (call_limit w) && ltb (length log + length (payload w)) max_size
    then log ++ payload w
    else log

unfoldable pub append_all : List ℕ → List Write → List ℕ
append_all log [] = log
append_all log (w ∷ ws) = append_all (append log w) ws

-- `strlen` and the size of AddBytes fit a uint32_t.
abbrev pub IsShort : Write → Type 0
IsShort w = length (payload w) < 2 ^ 32

abbrev pub AreShort : List Write → Type 0
AreShort [] = Prim.Unit {0}
AreShort (w ∷ ws) = IsShort w × AreShort ws

-- A message whose bytes are a log.
pub record Represents (m : NetworkMessage) (log : List ℕ) : Type 0 where
  pub pos : m.read_pos ≡ length log
  pub size : m.msg_size ≡ length log
  pub fits : length log < max_size
  pub same : read_bytes m.msg_buf 0 (length log) ≡ log

stored :
    (buf : ℕ → ℕ) (log bs : List ℕ)
    → read_bytes buf 0 (length log) ≡ log
    → read_bytes (write_bytes buf (length log) bs) 0 (length (log ++ bs)) ≡ log ++ bs
stored buf log bs e =
    rw
      (
        length-append log bs,
        read_bytes-add (write_bytes buf (length log) bs) 0 (length log) (length bs),
      )
      (ground (
        arith,
        e,
        read_bytes-agree (write_bytes buf (length log) bs) buf 0 (length log)
            (λ j h. write_bytes-below buf (length log) bs j (omega arith)),
        read_bytes-write_bytes buf (length log) bs,
      ))

-- Bytes that fit are stored, and the log grows by them.
put_bytes-Represents :
    (m : NetworkMessage) (log bs : List ℕ)
    → Represents m log
    → length log + length bs < max_size
    → (m' : NetworkMessage) × (put_bytes m bs ≡ some m') × Represents m' (log ++ bs)
unfolding put_bytes
put_bytes-Represents m log bs r h = (
  record {
    msg_size = (m.msg_size + length bs) % size_mod;
    read_pos = (m.read_pos + length bs) % size_mod;
    msg_buf = write_bytes m.msg_buf m.read_pos bs;
  },
  ground arith,
  record {
    pos = omega (arith, length-append log bs);
    size = omega (arith, length-append log bs);
    fits = omega (arith, length-append log bs);
    same = rw r.pos (stored m.msg_buf log bs r.same);
  },
)

-- The log takes a call whole, or the call is too long or finds no room.
append-cases :
    (log : List ℕ) (w : Write)
    → ((length (payload w) ≤ call_limit w)
        × (length log + length (payload w) < max_size)
        × (append log w ≡ log ++ payload w))
      ⊎ (((call_limit w < length (payload w)) ⊎ (max_size ≤ length log + length (payload w)))
          × (append log w ≡ log))
unfolding append
append-cases log w = elim (Bool-cases (ltb (call_limit w) (length (payload w)))) [
  | inl long ↦ inr (inl (ground arith), ground arith)
  | inr short ↦ elim (Bool-cases (ltb (length log + length (payload w)) max_size)) [
    | inl room ↦ inl (ground arith, ground arith, ground arith)
    | inr full ↦ inr (inr (ground arith), ground arith)
  ]
]

-- A call that the log takes is stored.
perform_room :
    (m : NetworkMessage) (log : List ℕ) (w : Write)
    → Represents m log
    → IsShort w
    → length (payload w) ≤ call_limit w
    → length log + length (payload w) < max_size
    → (m' : NetworkMessage) × (perform m w ≡ some m') × Represents m' (log ++ payload w)
unfolding perform add_byte add_uint can_add
perform_room m log (byte v) r s l h =
    let (m', e, r') = put_bytes-Represents m log (le_bytes 1 v) r h in
    (m', ground (arith, r.pos), r')
perform_room m log (u16 v) r s l h =
    let (m', e, r') = put_bytes-Represents m log (le_bytes 2 v) r h in
    (m', ground (arith, r.pos), r')
perform_room m log (u32 v) r s l h =
    let (m', e, r') = put_bytes-Represents m log (le_bytes 4 v) r h in
    (m', ground (arith, r.pos), r')
perform_room m log (u64 v) r s l h =
    let (m', e, r') = put_bytes-Represents m log (le_bytes 8 v) r h in
    (m', ground (arith, r.pos), r')
perform_room m log (bytes bs) r s l h =
    let (m', e, r') = put_bytes-Represents m log bs r h in (m', ground (arith, r.pos), r')
perform_room m log (text bs) r s l h =
    let (m₁, e₁, r₁) = put_bytes-Represents m log bs r (omega (arith, length-append bs (0 ∷ []))) in
    let (m₂, e₂, r₂) =
      put_bytes-Represents m₁ (log ++ bs) (0 ∷ []) r₁
        (omega (arith, length-append bs (0 ∷ []), length-append log bs)) in
    (
      m₂,
      ground (arith, r.pos, e₁, e₂, r₁.pos, length-append bs (0 ∷ []), length-append log bs),
      rw (← append_assoc log bs (0 ∷ [])) r₂,
    )

-- A call that the log drops leaves the message alone.
perform_full :
    (m : NetworkMessage) (log : List ℕ) (w : Write)
    → Represents m log
    → IsShort w
    → (call_limit w < length (payload w)) ⊎ (max_size ≤ length log + length (payload w))
    → perform m w ≡ some m
unfolding perform add_byte add_uint can_add
perform_full m log (byte v) r s h = ground (arith, r.pos, r.fits)
perform_full m log (u16 v) r s h = ground (arith, r.pos, r.fits)
perform_full m log (u32 v) r s h = ground (arith, r.pos, r.fits)
perform_full m log (u64 v) r s h = ground (arith, r.pos, r.fits)
perform_full m log (bytes bs) r s h = ground (arith, r.pos, r.fits)
perform_full m log (text bs) r s h = ground (arith, r.pos, r.fits, length-append bs (0 ∷ []))

-- On a message that stands for a log of bytes, every Add method ends without a store outside the
-- array, and leaves a message that stands for the log after `append`, which takes the bytes of the
-- call whole or not at all; texts and byte blocks are shorter than 2^32.
pub perform-append :
    (m : NetworkMessage) (log : List ℕ) (w : Write)
    → Represents m log
    → IsShort w
    → (m' : NetworkMessage) × (perform m w ≡ some m') × Represents m' (append log w)
perform-append m log w r s = elim (append-cases log w) [
  | inl (short, room, e) ↦ rw e (perform_room m log w r s short room)
  | inr (h, e) ↦ (m, perform_full m log w r s h, rw e r)
]

pub perform_all-append_all :
    (m : NetworkMessage) (log : List ℕ) (ws : List Write)
    → Represents m log
    → AreShort ws
    → (m' : NetworkMessage) × (perform_all m ws ≡ some m') × Represents m' (append_all log ws)
unfolding perform_all append_all
perform_all-append_all m log [] r s = (m, refl, r)
perform_all-append_all m log (w ∷ ws) r (s, ss) =
    let (m₁, e₁, r₁) = perform-append m log w r s in
    let (m₂, e₂, r₂) = perform_all-append_all m₁ (append log w) ws r₁ ss in
    (m₂, rw (e₁, perform_all) e₂, r₂)

pub reset-Represents : (m : NetworkMessage) → Represents (reset m) []
unfolding reset read_bytes
reset-Represents m = record { pos = refl; size = refl; fits = omega arith; same = refl }

-- GetRaw from position 0 returns the log and leaves the message as it was.
pub get_raw-Represents :
    (m : NetworkMessage) (log : List ℕ)
    → Represents m log
    → (get_raw (set_read_pos m 0) ≡ some (log, m)) × ((set_read_pos m 0).msg_size ≡ length log)
unfolding get_raw set_read_pos
get_raw-Represents m log r = (ground (arith, r.pos, r.size, r.fits, r.same), r.size)

-- After any sequence of Add calls with short arguments on a reset message, no store fell outside
-- the array, and GetRaw from position 0 returns exactly the bytes of the abstract log.
pub get_raw-perform_all :
    (m : NetworkMessage) (ws : List Write)
    → AreShort ws
    → (m' : NetworkMessage) × (perform_all (reset m) ws ≡ some m')
      × (get_raw (set_read_pos m' 0) ≡ some (append_all [] ws, m'))
get_raw-perform_all m ws s =
    let (m', e, r) = perform_all-append_all (reset m) [] ws (reset-Represents m) s in
    (m', e, (get_raw-Represents m' (append_all [] ws) r).0)
