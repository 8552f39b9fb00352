-- ===== src/Network/NetworkMessage/Memory.antt =====
-- Facts about stored bytes and their integers, shared by the proofs on messages.
use lotospp.Base.{
  ℕ, zero, suc, ◌+◌, ◌/◌, ◌^◌, ◌<◌, ◌≡◌, refl, ap, ◌∙◌, List, [], ◌∷◌, ◌++◌, length, arith,
}
use native.Mathlib.Nat.{pow-suc}
use lotospp.Network.NetworkMessage.{write, write_bytes, read_bytes, le_bytes, le_value}

pub length-le_bytes : (n v : ℕ) → length (le_bytes n v) ≡ n
unfolding le_bytes
length-le_bytes zero v = refl
length-le_bytes (suc n) v = ap suc (length-le_bytes n (v / 256))

pub length-read_bytes : (buf : ℕ → ℕ) (i n : ℕ) → length (read_bytes buf i n) ≡ n
unfolding read_bytes
length-read_bytes buf i zero = refl
length-read_bytes buf i (suc n) = ap suc (length-read_bytes buf (i + 1) n)

-- An unsigned integer that fits its bytes is read back from them.
pub le_value-le_bytes : (n v : ℕ) → v < 256 ^ n → le_value (le_bytes n v) ≡ v
unfolding le_value le_bytes
le_value-le_bytes zero v h = omega arith
le_value-le_bytes (suc n) v h =
    omega (arith, le_value-le_bytes n (v / 256) (omega (arith, pow-suc 256 n)))

-- A store leaves the bytes below it alone.
pub write_bytes-below :
    (buf : ℕ → ℕ) (i : ℕ) (bs : List ℕ) (j : ℕ) → j < i → write_bytes buf i bs j ≡ buf j
unfolding write_bytes
write_bytes-below buf i [] j h = refl
write_bytes-below buf i (b ∷ bs) j h =
    write_bytes-below (write buf i b) (i + 1) bs j (omega arith) ∙ ground arith

-- Bytes that two buffers share are read alike.
pub read_bytes-agree :
    (f g : ℕ → ℕ) (i n : ℕ)
    → ((j : ℕ) → j < i + n → f j ≡ g j)
    → read_bytes f i n ≡ read_bytes g i n
unfolding read_bytes
read_bytes-agree f g i zero h = refl
read_bytes-agree f g i (suc n) h =
    ground (arith, h i, read_bytes-agree f g (i + 1) n (λ j p. h j (omega arith)))

-- What was stored is read back.
pub read_bytes-write_bytes :
    (buf : ℕ → ℕ) (i : ℕ) (bs : List ℕ) → read_bytes (write_bytes buf i bs) i (length bs) ≡ bs
unfolding read_bytes write_bytes
read_bytes-write_bytes buf i [] = refl
read_bytes-write_bytes buf i (b ∷ bs) = ground (
  arith,
  write_bytes-below (write buf i b) (i + 1) bs i,
  read_bytes-write_bytes (write buf i b) (i + 1) bs,
)

pub read_bytes-add :
    (buf : ℕ → ℕ) (i m n : ℕ)
    → read_bytes buf i (m + n) ≡ read_bytes buf i m ++ read_bytes buf (i + m) n
unfolding read_bytes
read_bytes-add buf i zero n =
    let e : zero + n ≡ n = omega arith in let e' : i + zero ≡ i = omega arith in rw (e, e')
read_bytes-add buf i (suc m) n =
    let e : suc m + n ≡ suc (m + n) = omega arith in
    let e' : i + suc m ≡ i + 1 + m = omega arith in
    rw (e, e') (ap (λ bs. buf i ∷ bs) (read_bytes-add buf (i + 1) m n))
