-- ===== src/Common/User/Input/Secret.antt =====
-- What uRead of src/Common/User.cpp sends while a password is typed.
use lotospp.Base.{
  ◌⊎◌, ℕ, ◌+◌, ◌-◌, ◌≤◌, ◌≡◌, refl, sym, ap, ◌∙◌, true, false, ◌||◌, List, [], ◌∷◌, ◌++◌, map,
  length, length-append, length-take, length-set, take, set, ◌==◌, if◌then◌else◌, arith, Bool-cases,
  inl, inr, codes,
}
use lotospp.Common.User.Login.{
  Stage, new_user, disconnect, swapped, login_id, login_pwd, login_name, login_new_pwd,
  login_reenter_pwd, login_prompt, cmd_line, old_pwd, new_pwd, reenter_pwd, suicide,
}
use lotospp.Network.NetworkMessage.{NetworkMessage, set_read_pos}
use lotospp.Network.NetworkMessage.Log.{Represents}
use lotospp.Common.User.Input.{
  Reader, Env, Reading, returned, u_read, read_byte, type_byte, back_space, u_write, emit, ascii_bs,
  ascii_del, is_new, is_secret, echo,
}
use lotospp.Common.User.Input.Pieces.{is_plain, read_bytes_of, u_read-plain}
use lotospp.Common.User.Input.Line.{is_one_line}
use lotospp.Common.User.Input.Keys.{read_byte-edit}

-- A byte with its value hidden, unless it is one that uRead ignores or that erases.
unfoldable pub hide : ℕ → ℕ
hide c = if (c == 0) || (c == b'\n') || (c == ascii_bs) || (c == ascii_del) then c else b'*'

-- Two readers of the same user that have typed texts of the same length, and sent the same.
pub record AreAlike (r s : Reader) : Type 0 where
  pub user : r.user ≡ s.user
  pub client : r.client ≡ s.client
  pub tbpos : r.tbpos ≡ s.tbpos
  pub size : length r.text ≡ length s.text
  pub fits : r.tbpos ≤ length r.text
  pub sent : r.sent ≡ s.sent

u_write-AreAlike :
    (text : List ℕ) (r s : Reader) → AreAlike r s → AreAlike (u_write text r) (u_write text s)
unfolding u_write emit
u_write-AreAlike text r s h = record {
  user = ground (arith, h.user, h.client);
  client = ground (arith, h.client);
  tbpos = ground (arith, h.tbpos, h.client);
  size = ground (arith, h.size, h.client);
  fits = ground (arith, h.fits);
  sent = ground (arith, h.sent, h.client);
}

-- Both do an operation and stay alike.
abbrev BothReturn : Reading → Reading → Type 0
BothReturn x y = (r s : Reader) × (x ≡ returned r) × (y ≡ returned s) × AreAlike r s

back_space-BothReturn : (r s : Reader) → AreAlike r s → BothReturn (back_space r) (back_space s)
unfolding back_space
back_space-BothReturn r s h =
    let r₁ : Reader = record r { text = take (r.tbpos - 1) r.text; tbpos = r.tbpos - 1 } in
    let s₁ : Reader = record s { text = take (s.tbpos - 1) s.text; tbpos = s.tbpos - 1 } in
    let n = length-take (r.tbpos - 1) r.text in
    let k = length-take (s.tbpos - 1) s.text in
    let h₁ : AreAlike r₁ s₁ = record {
      user = h.user;
      client = h.client;
      tbpos = ground (arith, h.tbpos);
      size = omega (arith, n, k, h.tbpos, h.size);
      fits = omega (arith, n, h.fits);
      sent = h.sent;
    } in
    elim (Bool-cases (r.tbpos == 0)) [
      | inl start ↦ (r, s, ground arith, ground (arith, h.tbpos), h)
      | inr within ↦ (
        u_write (codes "\u{8} \u{8}") r₁,
        u_write (codes "\u{8} \u{8}") s₁,
        ground (arith, h.fits),
        ground (arith, h.fits, h.tbpos, h.size),
        u_write-AreAlike (codes "\u{8} \u{8}") r₁ s₁ h₁,
      )
    ]

type_byte-BothReturn :
    (c d : ℕ) (r s : Reader)
    → is_secret r.user.stage ≡ true
    → AreAlike r s
    → BothReturn (type_byte c r) (type_byte d s)
unfolding type_byte echo
type_byte-BothReturn c d r s secret h =
    let text = if r.tbpos == length r.text then r.text ++ c ∷ [] else set r.text r.tbpos c in
    let text' = if s.tbpos == length s.text then s.text ++ d ∷ [] else set s.text s.tbpos d in
    let r₁ : Reader = record r { text = text; tbpos = r.tbpos + 1 } in
    let s₁ : Reader = record s { text = text'; tbpos = s.tbpos + 1 } in
    let n = length-append r.text (c ∷ []) in
    let k = length-append s.text (d ∷ []) in
    let n' = length-set r.text r.tbpos c in
    let k' = length-set s.text s.tbpos d in
    let h₁ : AreAlike r₁ s₁ = record {
      user = h.user;
      client = h.client;
      tbpos = ground (arith, h.tbpos);
      size = ground (arith, n, k, n', k', h.size, h.tbpos);
      fits = ground (arith, n, n', h.fits);
      sent = h.sent;
    } in
    (
      u_write (codes "*") r₁,
      u_write (codes "*") s₁,
      ground (arith, h.fits),
      ground (arith, h.fits, h.tbpos, h.size, h.user),
      u_write-AreAlike (codes "*") r₁ s₁ h₁,
    )

read_byte-hide :
    (env : Env) (c : ℕ) (r s : Reader)
    → is_new r.user.stage ≡ false
    → is_secret r.user.stage ≡ true
    → (c == b'\r') ≡ false
    → AreAlike r s
    → BothReturn (read_byte env c r) (read_byte env (hide c) s)
unfolding read_byte hide
read_byte-hide env c r s known secret other h =
    let (r₁, s₁, e₁, d₁, h₁) = back_space-BothReturn r s h in
    let (r₂, s₂, e₂, d₂, h₂) = type_byte-BothReturn c (hide c) r s secret h in
    elim (Bool-cases ((c == 0) || (c == b'\n'))) [
      | inl ignored ↦ (r, s, ground arith, ground (arith, h.user), h)
      | inr more ↦ elim (Bool-cases ((c == ascii_bs) || (c == ascii_del))) [
        | inl erases ↦ (r₁, s₁, ground arith, ground (arith, h.user), h₁)
        | inr typed ↦ (r₂, s₂, ground arith, ground (arith, h.user), h₂)
      ]
    ]

read_byte-user :
    (env : Env) (c : ℕ) (r r' : Reader)
    → is_new r.user.stage ≡ false
    → (c == b'\r') ≡ false
    → r.tbpos ≤ length r.text
    → read_byte env c r ≡ returned r'
    → r'.user ≡ r.user
read_byte-user env c r r' known other f e =
    let (r₁, e₁, h) = read_byte-edit env c r known other f in
    let same : returned r' ≡ returned r₁ = sym e ∙ e₁ in
    let same' : r' ≡ r₁ = ap reader_of same in ap (λ x. x.user) same' ∙ h.user
  where
    reader_of : Reading → Reader
    reader_of (returned x) = x
    reader_of _ = r

read_bytes_of-hide :
    (env : Env) (bytes : List ℕ) (r s : Reader)
    → is_new r.user.stage ≡ false
    → is_secret r.user.stage ≡ true
    → is_one_line bytes ≡ true
    → AreAlike r s
    → BothReturn (read_bytes_of env bytes r) (read_bytes_of env (map hide bytes) s)
unfolding read_bytes_of is_one_line
read_bytes_of-hide env [] r s known secret one h = (r, s, refl, refl, h)
read_bytes_of-hide env (c ∷ cs) r s known secret one h =
    let (r₁, s₁, e₁, d₁, h₁) = read_byte-hide env c r s known secret (ground arith) h in
    let u = read_byte-user env c r r₁ known (ground arith) h.fits e₁ in
    let (r₂, s₂, e₂, d₂, h₂) =
      read_bytes_of-hide env cs r₁ s₁ (ground (arith, u)) (ground (arith, u)) (ground arith) h₁ in
    (r₂, s₂, ground arith, ground arith, h₂)

is_plain-hide : (bytes : List ℕ) → is_plain bytes ≡ true → is_plain (map hide bytes) ≡ true
unfolding is_plain hide
is_plain-hide [] p = refl
is_plain-hide (c ∷ cs) p = ground (arith, is_plain-hide cs)

is_secret-is_new : (stage : Stage) → is_secret stage ≡ true → is_new stage ≡ false
is_secret-is_new disconnect e = refl
is_secret-is_new swapped e = refl
is_secret-is_new login_id e = refl
is_secret-is_new login_pwd e = refl
is_secret-is_new login_name e = refl
is_secret-is_new login_new_pwd e = refl
is_secret-is_new login_reenter_pwd e = refl
is_secret-is_new login_prompt e = refl
is_secret-is_new cmd_line e = refl
is_secret-is_new old_pwd e = refl
is_secret-is_new new_pwd e = refl
is_secret-is_new reenter_pwd e = refl
is_secret-is_new suicide e = refl
is_secret-is_new new_user e = sym e

-- While the password of a login is typed, once or again, uRead sends the same whatever its bytes are: a
-- message whose ordinary bytes are all stars, with the erasing bytes in the same places, gives the same
-- calls. No option comes or is pending, no byte ends the line, and the position is in the text.
pub u_read-hide :
    (env : Env) (fuel' : ℕ) (m m' : NetworkMessage) (bytes : List ℕ) (r : Reader)
    → Represents m bytes
    → Represents m' (map hide bytes)
    → is_plain bytes ≡ true
    → is_one_line bytes ≡ true
    → (r.user.stage ≡ login_pwd) ⊎ (r.user.stage ≡ login_reenter_pwd)
    → r.telopt.bpos ≡ 0
    → r.tbpos ≤ length r.text
    → (r₁ r₂ : Reader) × (u_read env fuel' (set_read_pos m 0) r ≡ returned r₁)
      × (u_read env fuel' (set_read_pos m' 0) r ≡ returned r₂)
      × (r₁.sent ≡ r₂.sent)
u_read-hide env fuel' m m' bytes r h h' p one typing b f =
    let secret : is_secret r.user.stage ≡ true = elim typing [
      | inl e ↦ ap is_secret e
      | inr e ↦ ap is_secret e
    ] in
    let known : is_new r.user.stage ≡ false = is_secret-is_new r.user.stage secret in
    let alike : AreAlike r r = record {
      user = refl;
      client = refl;
      tbpos = refl;
      size = refl;
      fits = f;
      sent = refl;
    } in
    let (r₁, r₂, e, d, k) = read_bytes_of-hide env bytes r r known secret one alike in
    let first = u_read-plain env fuel' m bytes r h p b in
    let second = u_read-plain env fuel' m' (map hide bytes) r h' (is_plain-hide bytes p) b in
    (r₁, r₂, first ∙ e, second ∙ d, k.sent)
