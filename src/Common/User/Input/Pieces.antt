-- ===== src/Common/User/Input/Pieces.antt =====
-- uRead of src/Common/User.cpp on input without telnet options: the pieces in which it comes.
use lotospp.Base.{
  ℕ, zero, suc, ◌+◌, ◌<◌, ◌≡◌, refl, sym, subst, ◌∙◌, inl, inr, Bool, true, not, List, [], ◌∷◌,
  ◌++◌, length, all, ◌==◌, arith,
}
use lotospp.Common.User.Telopt.{telcmd_iac, byte_at}
use lotospp.Network.NetworkMessage.{NetworkMessage, set_read_pos}
use lotospp.Network.NetworkMessage.Log.{Represents, get_raw-Represents}
use lotospp.Common.User.Input.{
  Reader, Env, Reading, returned, and_then, u_read, read_byte, read_loop,
}
use lotospp.Common.User.Input.Kept.{
  Reading-cases, and_then_assoc, KeepsTelopt, and_then-KeepsTelopt, read_byte-KeepsTelopt,
  read_byte-telopt,
}

-- No byte is an IAC.
unfoldable pub is_plain : List ℕ → Bool
is_plain = all (λ c. not (c == telcmd_iac))

-- One byte after the other.
unfoldable pub read_bytes_of : Env → List ℕ → Reader → Reading
read_bytes_of env [] r = returned r
read_bytes_of env (c ∷ cs) r = and_then (read_byte env c r) (read_bytes_of env cs)

-- Where no option is pending and none comes, the loop reads byte by byte.
pub read_loop-plain :
    (env : Env) (fuel' fuel : ℕ) (bytes : List ℕ) (r : Reader)
    → is_plain bytes ≡ true
    → r.telopt.bpos ≡ 0
    → length bytes < fuel
    → read_loop env fuel' fuel (length bytes) bytes r ≡ read_bytes_of env bytes r
unfolding read_loop read_bytes_of is_plain byte_at
read_loop-plain env fuel' zero bytes r p b l = absurd (omega arith)
read_loop-plain env fuel' (suc fuel) [] r p b l = refl
read_loop-plain env fuel' (suc fuel) (c ∷ cs) r p b l =
    let rest : (r' : Reader)
        → r'.telopt ≡ r.telopt
        → read_loop env fuel' fuel (length cs) cs r' ≡ read_bytes_of env cs r' =
      λ r' e. read_loop-plain env fuel' fuel cs r' (ground arith) (ground arith) (omega arith) in
    elim (Reading-cases (read_byte env c r)) [
      | inl (r', e) ↦ ground (arith, rest r' (read_byte-telopt env c r r' e))
      | inr stops ↦
          ground
            (arith, stops (read_loop env fuel' fuel (length cs) cs), stops (read_bytes_of env cs))
    ]

pub read_bytes_of-append :
    (env : Env) (xs ys : List ℕ) (r : Reader)
    → read_bytes_of env (xs ++ ys) r ≡ and_then (read_bytes_of env xs r) (read_bytes_of env ys)
unfolding read_bytes_of
read_bytes_of-append env [] ys r = refl
read_bytes_of-append env (x ∷ xs) ys r =
    (λ k. and_then (read_byte env x r) (λ r'. read_bytes_of-append env xs ys r' k))
    ∙ sym (and_then_assoc (read_byte env x r) (read_bytes_of env xs) (read_bytes_of env ys))

-- uRead of a message that stands for plain bytes, read from its beginning.
pub u_read-plain :
    (env : Env) (fuel' : ℕ) (m : NetworkMessage) (bytes : List ℕ) (r : Reader)
    → Represents m bytes
    → is_plain bytes ≡ true
    → r.telopt.bpos ≡ 0
    → u_read env fuel' (set_read_pos m 0) r ≡ read_bytes_of env bytes r
unfolding u_read
u_read-plain env fuel' m bytes r h p b =
    let (raw, size) = get_raw-Represents m bytes h in
    ground (
      arith,
      raw,
      size,
      read_loop-plain env fuel' (suc (length bytes + r.telopt.bpos)) bytes r p b (omega arith),
    )

read_bytes_of-KeepsTelopt :
    (env : Env) (bytes : List ℕ) (r : Reader) → KeepsTelopt r.telopt (read_bytes_of env bytes r)
unfolding read_bytes_of
read_bytes_of-KeepsTelopt env [] r = refl
read_bytes_of-KeepsTelopt env (c ∷ cs) r =
    and_then-KeepsTelopt r.telopt (read_byte env c r) (read_bytes_of env cs)
      (read_byte-KeepsTelopt env c r)
      (λ r' e.
        subst (λ t. KeepsTelopt t (read_bytes_of env cs r')) e
          (read_bytes_of-KeepsTelopt env cs r'))

is_plain-append :
    (xs ys : List ℕ) → is_plain xs ≡ true → is_plain ys ≡ true → is_plain (xs ++ ys) ≡ true
unfolding is_plain
is_plain-append [] ys p q = q
is_plain-append (x ∷ xs) ys p q = ground (arith, is_plain-append xs ys)

-- Input without telnet options, and with none pending, may come in pieces: reading a message of two
-- texts one behind the other is reading a message of the first, and then, unless that
-- raised something or did not end, a message of the second.
pub u_read-pieces :
    (env : Env) (fuel' : ℕ) (m m₁ m₂ : NetworkMessage) (xs ys : List ℕ) (r : Reader)
    → Represents m (xs ++ ys)
    → Represents m₁ xs
    → Represents m₂ ys
    → is_plain xs ≡ true
    → is_plain ys ≡ true
    → r.telopt.bpos ≡ 0
    → u_read env fuel' (set_read_pos m 0) r
      ≡ and_then (u_read env fuel' (set_read_pos m₁ 0) r) (u_read env fuel' (set_read_pos m₂ 0))
u_read-pieces env fuel' m m₁ m₂ xs ys r h h₁ h₂ p q b =
    let whole = u_read-plain env fuel' m (xs ++ ys) r h (is_plain-append xs ys p q) b in
    let split = read_bytes_of-append env xs ys r in
    let first = u_read-plain env fuel' m₁ xs r h₁ p b in
    elim (Reading-cases (read_bytes_of env xs r)) [
      | inl (r', e) ↦
          let same = subst (KeepsTelopt r.telopt) e (read_bytes_of-KeepsTelopt env xs r) in
          let second = u_read-plain env fuel' m₂ ys r' h₂ q (ground arith) in
          ground (arith, whole, split, first, second)
      | inr stops ↦
          let second = stops (u_read env fuel' (set_read_pos m₂ 0)) in
          ground (arith, whole, split, first, second, stops (read_bytes_of env ys))
    ]
