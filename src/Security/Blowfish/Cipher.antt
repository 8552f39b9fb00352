-- ===== src/Security/Blowfish/Cipher.antt =====
-- The cipher inside BF_crypt of src/Security/Blowfish.cpp: BF_ROUND, BF_ENCRYPT_1B, BF_body, BF_swap.
-- Arrays of words are functions of the index, and a BF_LONG is a number below 2 ^ 32.
use lotospp.Base.{
  ℕ, zero, suc, ◌+◌, ◌*◌, ◌/◌, ◌%◌, ◌^◌, List, [], ◌∷◌, ◌++◌, ltb, ◌==◌, if◌then◌else◌, bit_or,
  bit_and, bit_xor,
}

abbrev pub Words : Type 0
Words = ℕ → ℕ

abbrev pub word_mod : ℕ
word_mod = 2 ^ 32

-- data.ctx, with the 4 * 256 words of S in a row.
pub record Context : Type 0 where
  pub p : Words
  pub s : Words

abbrev pub put : Words → ℕ → ℕ → Words
put a i v j = if j == i then v else a j

-- tmp3 of BF_ROUND.
pub substitute : Words → ℕ → ℕ
substitute s l =
    let tmp3 = (s (0x100 + bit_and (l / 2 ^ 16) 0xFF) + s (l / 2 ^ 24)) % word_mod in
    (bit_xor tmp3 (s (0x200 + bit_and (l / 2 ^ 8) 0xFF)) + s (0x300 + bit_and l 0xFF)) % word_mod

pub bf_round : Context → ℕ → ℕ → ℕ → ℕ
bf_round c l r n = bit_xor (bit_xor r (c.p (n + 1))) (substitute c.s l)

-- `fuel` rounds from round `n`; the halves change places after each.
pub bf_rounds : ℕ → ℕ → Context → ℕ × ℕ → ℕ × ℕ
bf_rounds zero n c lr = lr
bf_rounds (suc fuel) n c (l, r) = bf_rounds fuel (n + 1) c (bf_round c l r n, l)

abbrev pub exchange : Context → ℕ × ℕ → ℕ × ℕ
exchange c (l, r) = (bit_xor r (c.p 17), l)

pub encrypt_1b : Context → ℕ × ℕ → ℕ × ℕ
encrypt_1b c (l, r) = exchange c (bf_rounds 16 0 c (bit_xor l (c.p 0), r))

pub store_p : Context → ℕ → ℕ × ℕ → Context
store_p c i (l, r) = record c { p = put (put c.p i l) (i + 1) r }

pub store_s : Context → ℕ → ℕ × ℕ → Context
store_s c i (l, r) = record c { s = put (put c.s i l) (i + 1) r }

-- A loop over the pairs of an array from index `i`: `mix` changes the halves, the block is encrypted
-- and stored.
pub fill :
    (Context → ℕ → ℕ × ℕ → Context)
    → (ℕ → ℕ × ℕ → ℕ × ℕ)
    → ℕ
    → ℕ
    → Context
    → ℕ × ℕ
    → Context × (ℕ × ℕ)
fill store mix zero i c lr = (c, lr)
fill store mix (suc pairs) i c lr =
    let lr' = encrypt_1b c (mix i lr) in fill store mix pairs (i + 2) (store c i lr') lr'

abbrev pub same : ℕ → ℕ × ℕ → ℕ × ℕ
same i lr = lr

pub bf_body : Context → Context
bf_body c =
    let (c', lr) = fill store_p same 9 0 c (0, 0) in
    let (c'', lr') = fill store_s same 512 0 c' lr in c''

-- The halves with the words of the salt from `salt[i & 3]`.
abbrev pub salted : Words → ℕ → ℕ × ℕ → ℕ × ℕ
salted salt i (l, r) = (bit_xor l (salt (i % 4)), bit_xor r (salt ((i + 1) % 4)))

-- The loops that put the salt into P and S. The second takes two pairs a turn, the salt from word 2.
pub bf_salt : Words → Context → Context
bf_salt salt c =
    let (c', lr) = fill store_p (salted salt) 9 0 c (0, 0) in
    let (c'', lr') = fill store_s (λ i. salted salt (i + 18)) 512 0 c' lr in c''

pub xor_p : Words → Context → Context
xor_p words c = record c { p = λ i. if ltb i 18 then bit_xor (c.p i) (words i) else c.p i }

-- The main loop, `count` times.
pub bf_main : ℕ → Words → Words → Context → Context
bf_main zero expanded salt c = c
bf_main (suc count) expanded salt c =
    bf_main count expanded salt (bf_body (xor_p (λ i. salt (i % 4)) (bf_body (xor_p expanded c))))

pub encrypt_times : ℕ → Context → ℕ × ℕ → ℕ × ℕ
encrypt_times zero c lr = lr
encrypt_times (suc n) c lr = encrypt_times n c (encrypt_1b c lr)

abbrev pub pair : ℕ × ℕ → List ℕ
pair (l, r) = l ∷ r ∷ []

abbrev pub bf_magic : Context → List ℕ
bf_magic c =
    pair (encrypt_times 64 c (0x4F727068, 0x65616E42))
    ++ pair (encrypt_times 64 c (0x65686F6C, 0x64657253))
    ++ pair (encrypt_times 64 c (0x63727944, 0x6F756274))

-- A word with its bytes in the other order, as on a machine that stores the low byte first.
pub swap_word : ℕ → ℕ
swap_word x =
    let tmp = bit_or (x * 2 ^ 16 % word_mod) (x / 2 ^ 16) in
    bit_or (bit_and tmp 0x00FF00FF * 2 ^ 8 % word_mod) (bit_and (tmp / 2 ^ 8) 0x00FF00FF)

-- Words in memory, low byte first.
pub to_bytes : List ℕ → List ℕ
to_bytes [] = []
to_bytes (x ∷ xs) = x % 256 ∷ x / 2 ^ 8 % 256 ∷ x / 2 ^ 16 % 256 ∷ x / 2 ^ 24 % 256 ∷ to_bytes xs

pub to_words : List ℕ → List ℕ
to_words (b0 ∷ b1 ∷ b2 ∷ b3 ∷ bs) = (b0 + b1 * 2 ^ 8 + b2 * 2 ^ 16 + b3 * 2 ^ 24) ∷ to_words bs
to_words _ = []
