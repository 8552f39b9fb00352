-- ===== src/Common/User/Telopt/Rounds.antt =====
-- The loop of parseTelopt of src/Common/User.cpp: when it ends, and when it does not.
use lotospp.Base.{
  ℕ, zero, suc, ◌+◌, ◌-◌, ◌<◌, ◌≤◌, ◌≡◌, refl, ◌⊎◌, inl, inr, Bool, true, ◌&&◌, not, List, none,
  some, leb, ◌==◌, drop, take, codes, Bool-cases, Option-cases, arith,
}
use lotospp.Common.User.Telopt.{
  telcmd_sb, telopt_term, telopt_naws, Telopt, Turn, incomplete, shifted, byte_at, say,
  unexpected_sub, Notice, corrupt_size, corrupt_type, next_pos, size_at, set_size, check_size,
  set_type, get_termsize, get_termtype, find_end, shift_or_wait, sub_option, on_will, on_wont,
  on_do, on_dont, command, turn, erase, at_iac, finish, parse_telopt,
}

-- The client sent IAC SB and something that is neither NAWS nor TERM.
unfoldable pub is_stuck : Telopt → Bool
is_stuck t =
    at_iac t
    && leb 2 t.bpos
    && (byte_at t.buff 1 == telcmd_sb)
    && not (byte_at t.buff 2 == telopt_naws)
    && not (byte_at t.buff 2 == telopt_term)

-- From an unexpected sub option on the loop never ends, whatever the fuel.
pub parse_telopt_hangs :
    (terms : List ℕ → Bool) (fuel : ℕ) (t : Telopt)
    → is_stuck t ≡ true
    → parse_telopt terms fuel t ≡ none
unfolding is_stuck parse_telopt at_iac turn sub_option erase say
parse_telopt_hangs terms zero t h = refl
parse_telopt_hangs terms (suc fuel) t h =
    ground
      (arith, parse_telopt_hangs terms fuel (erase 0 (say (unexpected_sub (byte_at t.buff 2)) t)))

say-bpos : (n : Notice) (t : Telopt) → (say n t).bpos ≡ t.bpos
unfolding say
say-bpos n t = refl

set_size-bpos : (c r : ℕ) (t : Telopt) → (set_size c r t).bpos ≡ t.bpos
unfolding set_size say
set_size-bpos c r t = ground arith

set_type-bpos : (terms : List ℕ → Bool) (t : Telopt) → (set_type terms t).bpos ≡ t.bpos
unfolding set_type say
set_type-bpos terms t = ground arith

check_size-bpos : (c r n : ℕ) (t : Telopt) → (check_size c r n t).bpos ≡ t.bpos
unfolding check_size say
check_size-bpos c r n t =
    let corrupt : Telopt = say corrupt_size (record t { term_cols = 0; term_rows = 0 }) in
    ground (arith, set_size-bpos c r t, set_size-bpos c r corrupt)

-- The terminal size takes no more than the buffer holds.
get_termsize-shift :
    (t : Telopt)
    → ((get_termsize t).1 ≤ t.bpos)
      × ((get_termsize t).0.bpos ≡ t.bpos)
      × (((get_termsize t).1 ≡ 0) ⊎ (2 ≤ (get_termsize t).1))
unfolding get_termsize
get_termsize-shift t =
    let b : List ℕ = t.buff in
    let col1 : ℕ = next_pos b 3 in
    let col2 : ℕ = next_pos b (col1 + 1) in
    let row1 : ℕ = next_pos b (col2 + 1) in
    let row2 : ℕ = next_pos b (row1 + 1) in
    let read : Telopt = record t {
      term_cols = size_at b col1 col2;
      term_rows = size_at b row1 row2;
    } in
    let e = check_size-bpos t.term_cols t.term_rows row2 read in
    (ground arith, ground arith, ground arith)

find_end-bound :
    (fuel : ℕ) (buff : List ℕ) (bpos i j : ℕ)
    → find_end fuel buff bpos i ≡ some j
    → (i ≤ j) × (j < bpos - 1)
unfolding find_end
find_end-bound zero buff bpos i j h = absurd (ground arith)
find_end-bound (suc fuel) buff bpos i j h = ground (arith, find_end-bound fuel buff bpos (i + 1) j)

get_termtype-shift :
    (terms : List ℕ → Bool) (t : Telopt)
    → ((get_termtype terms t).1 ≤ t.bpos)
      × ((get_termtype terms t).0.bpos ≡ t.bpos)
      × (((get_termtype terms t).1 ≡ 0) ⊎ (2 ≤ (get_termtype terms t).1))
unfolding get_termtype
get_termtype-shift terms t =
    let corrupt : Telopt = record (say corrupt_type t) { term_type = codes "<unresolved>" } in
    let unresolved : Telopt = record t { term_type = codes "<unresolved>" } in
    let c = set_type-bpos terms corrupt in
    let s : (say corrupt_type t).bpos ≡ t.bpos = say-bpos corrupt_type t in
    let u = set_type-bpos terms unresolved in
    elim (Option-cases (find_end (t.bpos - 4) t.buff t.bpos 4)) [
      | inl endless ↦ (ground arith, ground arith, ground arith)
      | inr (i, found) ↦
          let (l, h) = find_end-bound (t.bpos - 4) t.buff t.bpos 4 i found in
          let r =
            set_type-bpos terms
              (record t { buff = take i t.buff; term_type = drop 4 (take i t.buff) }) in
          (ground arith, ground arith, ground arith)
    ]

-- What a turn of the loop does to the buffer: it shifts it by two bytes or more that it holds, unless
-- it is stuck at a sub option.
pub turn-shift :
    (terms : List ℕ → Bool) (t : Telopt) (shift : ℕ) (t' : Telopt)
    → at_iac t ≡ true
    → turn terms t ≡ shifted shift t'
    → (is_stuck t ≡ true) ⊎ ((2 ≤ shift) × (shift ≤ t.bpos) × (t'.bpos ≡ t.bpos))
unfolding is_stuck turn sub_option shift_or_wait command on_will on_wont on_do on_dont say
turn-shift terms t shift t' h e = elim (Bool-cases (is_stuck t)) [
  | inl stuck ↦ inl stuck
  | inr free ↦
      let (a, b, c) = get_termsize-shift t in
      let (a', b', c') = get_termtype-shift terms t in
      inr (ground arith, ground arith, ground arith)
]

pub finish-bpos : (t : Telopt) → (finish t).bpos ≡ t.bpos
unfolding finish say
finish-bpos t = ground arith

pub erase-bpos : (n : ℕ) (t : Telopt) → (erase n t).bpos ≡ t.bpos - n
unfolding erase
erase-bpos n t = refl

pub Turn-cases :
    (r : Turn) → ((t : Telopt) × (r ≡ incomplete t)) ⊎ ((n : ℕ) × (t : Telopt) × (r ≡ shifted n t))
Turn-cases (incomplete t) = inl (t, refl)
Turn-cases (shifted n t) = inr (n, t, refl)

pub erased :
    (n : ℕ) (t' t : Telopt) (fuel : ℕ)
    → 2 ≤ n
    → n ≤ t.bpos
    → t'.bpos ≡ t.bpos
    → t.bpos < suc fuel
    → (erase n t').bpos < fuel
unfolding erase
erased n t' t fuel two fits same l = omega arith
