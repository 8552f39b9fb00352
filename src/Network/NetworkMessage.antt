-- ===== src/Network/NetworkMessage.antt =====
-- The message buffer of src/Network/NetworkMessage.h and NetworkMessage.cpp.
-- The buffer's bytes are a function of the index below `max_size`; `none` stands for an access
-- outside the array, which is undefined behaviour in the source. Positions and lengths are
-- `size_t`s, of 64 bits.
pub mod Memory
pub mod Log
pub mod RoundTrip
mod Tests
use lotospp.Base.{
  ℕ, zero, suc, ◌+◌, ◌-◌, ◌*◌, ◌/◌, ◌%◌, ◌^◌, Bool, ◌||◌, List, [], ◌∷◌, Option, none, some, ltb,
  leb, ◌==◌, if◌then◌else◌, length,
}

-- NetworkMessage::MAXSIZE and max_body_length.
abbrev pub max_size : ℕ
max_size = 15340

-- The number of values of a `size_t`.
abbrev pub size_mod : ℕ
size_mod = 2 ^ 64

pub record NetworkMessage : Type 0 where
  pub msg_size : ℕ
  pub read_pos : ℕ
  pub msg_buf : ℕ → ℕ

-- The value that an operation returns, and the message that it leaves.
abbrev pub Read : Type 0 → Type 0
Read A = Option (A × NetworkMessage)

abbrev pub write : (ℕ → ℕ) → ℕ → ℕ → ℕ → ℕ
write buf i v j = if j == i then v else buf j

-- The bytes `bs` stored from index `i` on.
pub write_bytes : (ℕ → ℕ) → ℕ → List ℕ → ℕ → ℕ
write_bytes buf i [] = buf
write_bytes buf i (b ∷ bs) = write_bytes (write buf i b) (i + 1) bs

-- The `n` bytes from index `i` on.
unfoldable pub read_bytes : (ℕ → ℕ) → ℕ → ℕ → List ℕ
read_bytes buf i zero = []
read_bytes buf i (suc n) = buf i ∷ read_bytes buf (i + 1) n

-- An unsigned integer of `n` bytes in memory, lowest byte first, as on the platforms of the build.
unfoldable pub le_bytes : ℕ → ℕ → List ℕ
le_bytes zero v = []
le_bytes (suc n) v = v % 256 ∷ le_bytes n (v / 256)

pub le_value : List ℕ → ℕ
le_value [] = 0
le_value (b ∷ bs) = b + 256 * le_value bs

pub reset : NetworkMessage → NetworkMessage
reset m = record m { msg_size = 0; read_pos = 0 }

-- `size` is a uint32_t, so the sum is a `size_t`.
pub can_add : NetworkMessage → ℕ → Bool
can_add m size = ltb ((size + m.read_pos) % size_mod) max_size

pub get_at : NetworkMessage → ℕ → Option ℕ
get_at m pos = if ltb pos max_size then some (m.msg_buf pos) else none

-- GetByte, GetU16, GetU32 and GetU64 differ in the number of bytes alone.
pub get_uint : ℕ → NetworkMessage → Read ℕ
unfolding read_bytes le_value
get_uint n m =
    if leb (m.read_pos + n) max_size
    then some (
      le_value (read_bytes m.msg_buf m.read_pos n),
      record m { read_pos = (m.read_pos + n) % size_mod },
    )
    else none

pub get_byte : NetworkMessage → Read ℕ
unfolding get_uint
get_byte = get_uint 1

pub get_u16 : NetworkMessage → Read ℕ
unfolding get_uint
get_u16 = get_uint 2

pub get_u32 : NetworkMessage → Read ℕ
unfolding get_uint
get_u32 = get_uint 4

pub get_u64 : NetworkMessage → Read ℕ
unfolding get_uint
get_u64 = get_uint 8

-- The length read is a uint16_t.
pub get_raw : NetworkMessage → Read (List ℕ)
unfolding read_bytes
get_raw m =
    let stringlen = (m.msg_size + size_mod - m.read_pos) % 2 ^ 16 in
    if leb max_size m.msg_size
    then some ([], m)
    else if leb (m.read_pos + stringlen) max_size
    then some (
      read_bytes m.msg_buf m.read_pos stringlen,
      record m { read_pos = (m.read_pos + stringlen) % size_mod },
    )
    else none

-- `std::string(raw, p)` with `p` the position of the first NUL: what stands from there on.
pub from_nul : List ℕ → List ℕ
from_nul [] = []
from_nul (b ∷ bs) = if b == 0 then b ∷ bs else from_nul bs

pub has_nul : List ℕ → Bool
has_nul [] = Bool.false
has_nul (b ∷ bs) = b == 0 || has_nul bs

pub get_string : NetworkMessage → Read (List ℕ)
unfolding get_raw from_nul has_nul
get_string m = elim (get_raw m) [
  | none ↦ none
  | some (raw, m') ↦ some (if has_nul raw then from_nul raw else raw, m')
]

-- `count` is an int: its bit pattern, extended to a `size_t` by its sign.
pub skip_bytes : NetworkMessage → ℕ → NetworkMessage
skip_bytes m count = record m { read_pos = (m.read_pos + extended) % size_mod }
  where
    extended : ℕ
    extended = if ltb count (2 ^ 31) then count else count + (size_mod - 2 ^ 32)

-- Bytes stored at the read position, which moves past them with the length.
pub put_bytes : NetworkMessage → List ℕ → Option NetworkMessage
unfolding write_bytes
put_bytes m bs =
    if leb (m.read_pos + length bs) max_size
    then some (record m {
      msg_size = (m.msg_size + length bs) % size_mod;
      read_pos = (m.read_pos + length bs) % size_mod;
      msg_buf = write_bytes m.msg_buf m.read_pos bs;
    })
    else none

-- AddByte, AddU16, AddU32 and AddU64 differ in the number of bytes alone. A message without room is
-- left alone.
pub add_uint : ℕ → NetworkMessage → ℕ → Option NetworkMessage
unfolding can_add put_bytes le_bytes
add_uint n m value = if can_add m n then put_bytes m (le_bytes n value) else some m

pub add_byte : NetworkMessage → ℕ → Option NetworkMessage
unfolding add_uint
add_byte = add_uint 1

pub add_u16 : NetworkMessage → ℕ → Option NetworkMessage
unfolding add_uint
add_u16 = add_uint 2

pub add_u32 : NetworkMessage → ℕ → Option NetworkMessage
unfolding add_uint
add_u32 = add_uint 4

pub add_u64 : NetworkMessage → ℕ → Option NetworkMessage
unfolding add_uint
add_u64 = add_uint 8

-- AddBytes: the length of `bytes` is the uint32_t argument `size`.
pub add_bytes : NetworkMessage → List ℕ → Option NetworkMessage
unfolding can_add put_bytes
add_bytes m bytes =
    if can_add m (length bytes)
    then if ltb 8192 (length bytes) then some m else put_bytes m bytes
    else some m

-- AddString: `value` has no NUL, and `strlen` is cut to a uint32_t in the guards. The NUL that
-- `strcpy` stores after the text is stored again by AddByte.
pub add_string : NetworkMessage → List ℕ → Option NetworkMessage
unfolding can_add put_bytes add_byte
add_string m value =
    if can_add m ((length value % 2 ^ 32 + 1) % 2 ^ 32)
    then if ltb 8192 (length value % 2 ^ 32)
      then some m
      else elim (put_bytes m value) [ none ↦ none | some m' ↦ add_byte m' 0 ]
    else some m

-- The int32_t argument is given as the `size_t` that it converts to.
pub set_message_length : NetworkMessage → ℕ → NetworkMessage
set_message_length m new_size = record m { msg_size = new_size }

pub set_read_pos : NetworkMessage → ℕ → NetworkMessage
set_read_pos m pos = record m { read_pos = pos }
