-- ===== src/Network/NetworkMessage/RoundTrip.antt =====
-- What the getters of src/Network/NetworkMessage.cpp return of what the Add methods stored.
use lotospp.Base.{
  ℕ, ◌+◌, ◌%◌, ◌^◌, ◌≤◌, ◌<◌, ◌≡◌, refl, ap, true, false, List, [], ◌∷◌, ◌++◌, some, length,
  length-append, arith,
}
use lotospp.Network.NetworkMessage.{
  NetworkMessage, max_size, size_mod, write_bytes, read_bytes, le_bytes, reset, can_add, get_uint,
  get_string, from_nul, has_nul, put_bytes, add_uint, add_string, set_read_pos,
}
use lotospp.Network.NetworkMessage.Memory.{
  length-le_bytes, le_value-le_bytes, read_bytes-write_bytes,
}
use lotospp.Network.NetworkMessage.Log.{
  text, perform, perform_all, append, append_all, get_raw-perform_all,
}

-- An integer that fits its width of n bytes and finds room is read back by the getter of the same
-- width from the position at which it was added.
pub get_uint-add_uint :
    (n v : ℕ) (m : NetworkMessage)
    → v < 256 ^ n
    → m.read_pos + n < max_size
    → (m' : NetworkMessage) × (add_uint n m v ≡ some m')
      × (get_uint n (set_read_pos m' m.read_pos) ≡ some (v, m'))
unfolding add_uint get_uint put_bytes can_add set_read_pos
get_uint-add_uint n v m fits room = (
  record {
    msg_size = (m.msg_size + length (le_bytes n v)) % size_mod;
    read_pos = (m.read_pos + length (le_bytes n v)) % size_mod;
    msg_buf = write_bytes m.msg_buf m.read_pos (le_bytes n v);
  },
  ground (arith, length-le_bytes n v),
  ground (
    arith,
    length-le_bytes n v,
    le_value-le_bytes n v,
    ap (λ (k : ℕ). read_bytes (write_bytes m.msg_buf m.read_pos (le_bytes n v)) m.read_pos k)
        (length-le_bytes n v),
    read_bytes-write_bytes m.msg_buf m.read_pos (le_bytes n v),
  ),
)

nul-found :
    (bs : List ℕ)
    → has_nul bs ≡ false
    → (has_nul (bs ++ 0 ∷ []) ≡ true) × (from_nul (bs ++ 0 ∷ []) ≡ 0 ∷ [])
unfolding has_nul from_nul
nul-found [] h = (refl, refl)
nul-found (b ∷ bs) h = ground (arith, nul-found bs)

-- GetString returns what follows the text, not the text: of any text that AddString stored in a
-- reset message, it returns the single NUL.
pub get_string-add_string :
    (m : NetworkMessage) (bs : List ℕ)
    → has_nul bs ≡ false
    → length bs ≤ 8192
    → (m' : NetworkMessage) × (add_string (reset m) bs ≡ some m')
      × (get_string (set_read_pos m' 0) ≡ some (0 ∷ [], m'))
unfolding get_string perform perform_all append append_all
get_string-add_string m bs h short =
    let (m', e, r) =
      get_raw-perform_all m (text bs ∷ []) (omega (arith, length-append bs (0 ∷ [])), tt) in
    (m', ground arith, ground (arith, e, r, nul-found bs, length-append bs (0 ∷ [])))
