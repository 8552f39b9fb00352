-- ===== src/Common/User/Input/Line.antt =====
-- The line that a user types at uRead of src/Common/User.cpp, as an editor of its bytes.
use lotospp.Base.{
  ℕ, ◌≤◌, ◌≡◌, refl, subst, ◌∙◌, inl, inr, Bool, true, false, ◌&&◌, not, List, [], ◌∷◌, ◌++◌,
  length, take, all, ◌==◌, arith, Bool-cases, codes,
}
use lotospp.Network.NetworkMessage.{NetworkMessage, set_read_pos}
use lotospp.Network.NetworkMessage.Log.{Represents}
use lotospp.Common.User.Input.{
  Reader, Env, Reading, returned, raised, undefined, hung, endless, and_then, u_read, read_byte,
  u_write, emit, end_line, enter_line, is_new,
}
use lotospp.Common.User.Input.Pieces.{is_plain, read_bytes_of, u_read-plain, read_bytes_of-append}
use lotospp.Common.User.Input.Keys.{edit, IsEdited, read_byte-edit}

unfoldable pub edit_all : List ℕ → List ℕ → List ℕ
edit_all line [] = line
edit_all line (c ∷ cs) = edit_all (edit line c) cs

-- No byte ends the line.
unfoldable pub is_one_line : List ℕ → Bool
is_one_line = all (λ c. not (c == b'\r'))

IsEdited-trans :
    (line line' : List ℕ) (r r' r'' : Reader)
    → IsEdited line r r'
    → IsEdited line' r' r''
    → IsEdited line' r r''
IsEdited-trans line line' r r' r'' h h' = record {
  user = h'.user ∙ h.user;
  telopt = h'.telopt ∙ h.telopt;
  other_text = h'.other_text ∙ h.other_text;
  splitline = h'.splitline ∙ h.splitline;
  client = h'.client ∙ h.client;
  fits = h'.fits;
  typed = h'.typed;
}

read_bytes_of-edit_all :
    (env : Env) (bytes : List ℕ) (r : Reader)
    → is_new r.user.stage ≡ false
    → is_one_line bytes ≡ true
    → r.tbpos ≤ length r.text
    → (r' : Reader) × (read_bytes_of env bytes r ≡ returned r')
      × IsEdited (edit_all (take r.tbpos r.text) bytes) r r'
unfolding read_bytes_of edit_all is_one_line
read_bytes_of-edit_all env [] r known one f = (
  r,
  refl,
  record {
    user = refl;
    telopt = refl;
    other_text = refl;
    splitline = refl;
    client = refl;
    fits = f;
    typed = refl;
  },
)
read_bytes_of-edit_all env (c ∷ cs) r known one f =
    let (r₁, e₁, h₁) = read_byte-edit env c r known (ground arith) f in
    let (r₂, e₂, h₂) =
      read_bytes_of-edit_all env cs r₁ (ground (arith, h₁.user)) (ground arith) h₁.fits in
    let line : List ℕ = edit (take r.tbpos r.text) c in
    let h₂' : IsEdited (edit_all line cs) r₁ r₂ =
      subst (λ l. IsEdited (edit_all l cs) r₁ r₂) h₁.typed h₂ in
    (r₂, ground arith, IsEdited-trans line (edit_all line cs) r r₁ r₂ h₁ h₂')

plain_end : (bytes : List ℕ) → is_plain bytes ≡ true → is_plain (bytes ++ b'\r' ∷ []) ≡ true
unfolding is_plain
plain_end [] p = refl
plain_end (x ∷ xs) p = ground (arith, plain_end xs)

and_then-returned : (x : Reading) → and_then x returned ≡ x
and_then-returned (returned r) = refl
and_then-returned (raised t r) = refl
and_then-returned undefined = refl
and_then-returned hung = refl
and_then-returned endless = refl

-- A carriage return enters the line, and the position is at its start again.
read_byte-enter_line :
    (env : Env) (r : Reader)
    → is_new r.user.stage ≡ false
    → r.tbpos ≤ length r.text
    → (r' : Reader) × (read_byte env b'\r' r ≡ enter_line env r')
      × (r'.text ≡ take r.tbpos r.text)
      × (r'.tbpos ≡ 0)
      × (r'.user ≡ r.user)
      × (r'.splitline ≡ r.splitline)
unfolding end_line read_byte u_write emit
read_byte-enter_line env r known f =
    let r₁ : Reader = record r { text = take r.tbpos r.text; tbpos = 0 } in
    elim (Bool-cases (r.telopt.has_echo && r.telopt.has_sga && r.client)) [
      | inl echoed ↦ (
        u_write (codes "\r\n") r₁,
        ground arith,
        ground arith,
        ground arith,
        ground arith,
        ground arith,
      )
      | inr silent ↦ (r₁, ground arith, refl, refl, refl, refl)
    ]

-- Bytes without telnet options, without a carriage return and with one behind them: uRead enters
-- the line that the bytes make of what was typed before. No option is pending, the stage is not NEW,
-- and the position is in the text.
pub u_read-enter_line :
    (env : Env) (fuel' : ℕ) (m : NetworkMessage) (bytes : List ℕ) (r : Reader)
    → Represents m (bytes ++ b'\r' ∷ [])
    → is_plain bytes ≡ true
    → is_one_line bytes ≡ true
    → r.telopt.bpos ≡ 0
    → is_new r.user.stage ≡ false
    → r.tbpos ≤ length r.text
    → (r' : Reader) × (u_read env fuel' (set_read_pos m 0) r ≡ enter_line env r')
      × (r'.text ≡ edit_all (take r.tbpos r.text) bytes)
      × (r'.tbpos ≡ 0)
      × (r'.user ≡ r.user)
      × (r'.splitline ≡ r.splitline)
unfolding read_bytes_of
u_read-enter_line env fuel' m bytes r h p one b known f =
    let whole = u_read-plain env fuel' m (bytes ++ b'\r' ∷ []) r h (plain_end bytes p) b in
    let split = read_bytes_of-append env bytes (b'\r' ∷ []) r in
    let (r₁, e₁, h₁) = read_bytes_of-edit_all env bytes r known one f in
    let (r₂, e₂, text, pos, user, line) =
      read_byte-enter_line env r₁ (ground (arith, h₁.user)) h₁.fits in
    let last = and_then-returned (read_byte env b'\r' r₁) in
    (r₂, ground arith, text ∙ h₁.typed, pos, user ∙ h₁.user, line ∙ h₁.splitline)
