-- ===== src/Security/Blowfish/Crypt.antt =====
-- BF_set_key and BF_crypt of src/Security/Blowfish.cpp. The tables of src/external/bf_pi.h are arguments.
mod Text
mod Setting
pub mod Repeat
use lotospp.Base.{
  ℕ, zero, suc, ◌+◌, ◌-◌, ◌*◌, ◌/◌, ◌%◌, ◌^◌, Bool, true, false, ◌&&◌, ◌||◌, not, List, [], ◌∷◌,
  ◌++◌, Option, none, some, ltb, leb, ◌==◌, if◌then◌else◌, bit_or, bit_and, bit_xor, char_lt, map,
  length, take, drop,
}
use lotospp.Security.Blowfish.Encoding.{entry, itoa64, atoi64, decode, encode}
use lotospp.Security.Blowfish.Cipher.{
  Words, Context, word_mod, put, bf_salt, bf_main, bf_magic, swap_word, to_bytes, to_words,
}

-- The variables of BF_set_key: the place of `ptr` in the key, tmp[0], tmp[1] and the rest.
pub record KeyState : Type 0 where
  pub ptr : ℕ
  pub correct : ℕ
  pub buggy : ℕ
  pub sign : ℕ
  pub diff : ℕ

-- (BF_word_signed)(signed char) as a BF_LONG.
abbrev pub sign_extend : ℕ → ℕ
sign_extend c = if leb 128 c then word_mod - 256 + c else c

-- The inner loop, `fuel` bytes from byte `j` of the word. Behind the key stands its NUL.
pub key_bytes : ℕ → ℕ → List ℕ → KeyState → KeyState
key_bytes zero j key k = k
key_bytes (suc fuel) j key k =
    let c = entry key k.ptr in
    let buggy = bit_or (k.buggy * 2 ^ 8 % word_mod) (sign_extend c) in
    key_bytes fuel (j + 1) key (record {
      ptr = if c == 0 then 0 else k.ptr + 1;
      correct = bit_or (k.correct * 2 ^ 8 % word_mod) c;
      buggy = buggy;
      sign = if j == 0 then k.sign else bit_or k.sign (bit_and buggy 0x80);
      diff = k.diff;
    })

-- The outer loop from word `i`: the state, the expanded and the initial words.
pub key_words : ℕ → ℕ → List ℕ → Words → ℕ → KeyState → Words × Words → KeyState × (Words × Words)
key_words zero i key init_p bug k words = (k, words)
key_words (suc fuel) i key init_p bug k (expanded, initial) =
    let k' = key_bytes 4 0 key (record k { correct = 0; buggy = 0 }) in
    let tmp = if bug == 0 then k'.correct else k'.buggy in
    key_words fuel (i + 1) key init_p bug
      (record k' { diff = bit_or k'.diff (bit_xor k'.correct k'.buggy) })
      (put expanded i tmp, put initial i (bit_xor (init_p i) tmp))

-- What the safety measure flips in the first initial word.
pub safety_sign : ℕ → ℕ → ℕ → ℕ
safety_sign safety sign diff =
    let diff' = bit_and (bit_or diff (diff / 2 ^ 16)) 0xFFFF + 0xFFFF in
    bit_and (sign * 2 ^ 9 % word_mod) (bit_and (word_mod - 1 - diff') safety)

-- The expanded and the initial words.
pub set_key : List ℕ → Words → ℕ → Words × Words
set_key key init_p flags =
    let start : KeyState = record { ptr = 0; correct = 0; buggy = 0; sign = 0; diff = 0 } in
    let (k, (expanded, initial)) =
      key_words 18 0 key init_p (bit_and flags 1) start (λ i. 0, λ i. 0) in
    (
      expanded,
      put initial 0 (bit_xor (initial 0) (safety_sign (bit_and flags 2 * 2 ^ 15) k.sign k.diff)),
    )

abbrev pub flags_by_subtype : List ℕ
flags_by_subtype =
    2 ∷ 4 ∷ 0 ∷ 0 ∷ 0 ∷ 0 ∷ 0 ∷ 0 ∷ 0 ∷ 0 ∷ 0 ∷ 0 ∷ 0 ∷ 0 ∷ 0 ∷ 0 ∷ 0 ∷ 0 ∷ 0 ∷ 0 ∷ 0 ∷ 0 ∷ 0 ∷ 1
    ∷ 4 ∷ 0 ∷ []

unfoldable pub subtype_flags : List ℕ → ℕ
subtype_flags setting = entry flags_by_subtype (entry setting 2 - b'a')

-- The test of the first seven characters; behind the text stands a NUL, which no comparison passes.
unfoldable pub is_setting : List ℕ → Bool
is_setting setting =
    (entry setting 0 == b'$')
    && (entry setting 1 == b'2')
    && not (char_lt (entry setting 2) b'a' || ltb b'z' (entry setting 2))
    && not (subtype_flags setting == 0)
    && (entry setting 3 == b'$')
    && not (char_lt (entry setting 4) b'0' || ltb b'3' (entry setting 4))
    && not (char_lt (entry setting 5) b'0' || ltb b'9' (entry setting 5))
    && not ((entry setting 4 == b'3') && ltb b'1' (entry setting 5))
    && (entry setting 6 == b'$')

-- At most 31 rounds' bits, so the shift stays in a BF_LONG.
unfoldable pub rounds_of : List ℕ → ℕ
rounds_of setting = 2 ^ ((entry setting 4 - b'0') * 10 + (entry setting 5 - b'0'))

-- The 31 characters of the hash behind the salt.
pub hash : Words → Words → List ℕ → ℕ → ℕ → List ℕ → List ℕ
hash init_p init_s key flags count salt_bytes =
    let salt = entry (map swap_word (to_words salt_bytes)) in
    let (expanded, initial) = set_key key init_p flags in
    let c = bf_main count expanded salt (bf_salt salt (record { p = initial; s = init_s })) in
    encode (take 23 (to_bytes (map swap_word (bf_magic c))))

-- `fault` is a read outside the setting or a table.
pub data Crypt : Type 0 where
  hashed : List ℕ → Crypt
  erange einval fault : Crypt

-- The character 28 of the setting as it is written: only the bits of it that the salt has are kept.
pub canonical : ℕ → ℕ
canonical last = entry itoa64 (bit_and (entry atoi64 (last - 0x20)) 0x30)

-- The last steps, on the setting's first 29 characters.
pub write_output : List ℕ → List ℕ → Crypt
write_output setting text =
    let last = entry setting 28 in
    if ltb (length setting) 29 || char_lt last 0x20
    then fault
    else hashed (take 28 setting ++ canonical last ∷ text)

pub crypt_salted : Words → Words → List ℕ → List ℕ → Option (List ℕ) → Crypt
crypt_salted init_p init_s key setting none = einval
crypt_salted init_p init_s key setting (some salt) =
    write_output setting (hash init_p init_s key (subtype_flags setting) (rounds_of setting) salt)

pub bf_crypt : Words → Words → List ℕ → List ℕ → ℕ → ℕ → Crypt
bf_crypt init_p init_s key setting size min =
    if ltb size 61
    then erange
    else if not (is_setting setting)
    then einval
    else if ltb (rounds_of setting) min
    then einval
    else crypt_salted init_p init_s key setting (decode 16 (drop 7 setting))
