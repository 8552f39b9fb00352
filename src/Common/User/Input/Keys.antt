-- ===== src/Common/User/Input/Keys.antt =====
-- What a byte does to the line that is typed at uRead of src/Common/User.cpp.
use lotospp.Base.{
  take-set, take-all, take-take, ℕ, suc, ◌+◌, ◌-◌, ◌≤◌, ◌≡◌, refl, ◌∙◌, inl, inr, false, ◌||◌, List,
  [], ◌∷◌, ◌++◌, length, length-append, length-take, length-set, take, set, ◌==◌, if◌then◌else◌,
  arith, Bool-cases, codes,
}
use lotospp.Common.User.Input.{
  Reader, Env, returned, read_byte, type_byte, back_space, u_write, emit, ascii_bs, ascii_del,
  is_new, echo,
}

-- What a byte does to a line: nothing for a NUL or a line feed, the last byte goes for a
-- backspace or a delete, and any other byte is put behind the line.
unfoldable pub edit : List ℕ → ℕ → List ℕ
edit line c =
    if (c == 0) || (c == b'\n')
    then line
    else if (c == ascii_bs) || (c == ascii_del)
    then take (length line - 1) line
    else line ++ c ∷ []

-- The text is as long as the position says, or longer, and the rest is as it was.
pub record IsEdited (line : List ℕ) (r r' : Reader) : Type 0 where
  pub user : r'.user ≡ r.user
  pub telopt : r'.telopt ≡ r.telopt
  pub other_text : r'.other_text ≡ r.other_text
  pub splitline : r'.splitline ≡ r.splitline
  pub client : r'.client ≡ r.client
  pub fits : r'.tbpos ≤ length r'.text
  pub typed : take r'.tbpos r'.text ≡ line

u_write-IsEdited :
    (s line : List ℕ) (r r' : Reader) → IsEdited line r r' → IsEdited line r (u_write s r')
unfolding u_write emit
u_write-IsEdited s line r r' h = record {
  user = ground (arith, h.user);
  telopt = ground (arith, h.telopt);
  other_text = ground (arith, h.other_text);
  splitline = ground (arith, h.splitline);
  client = ground (arith, h.client);
  fits = ground (arith, h.fits);
  typed = ground (arith, h.typed);
}

-- A byte that ends no line edits the typed text.
type_byte-edit :
    (c : ℕ) (r : Reader)
    → r.tbpos ≤ length r.text
    → (r' : Reader) × (type_byte c r ≡ returned r') × IsEdited (take r.tbpos r.text ++ c ∷ []) r r'
unfolding type_byte
type_byte-edit c r f =
    let text = if r.tbpos == length r.text then r.text ++ c ∷ [] else set r.text r.tbpos c in
    let r₁ : Reader = record r { text = text; tbpos = r.tbpos + 1 } in
    let long : r.tbpos + 1 ≤ length text =
      ground (arith, length-append r.text (c ∷ []), length-set r.text r.tbpos c) in
    let e : take (suc r.tbpos) text ≡ take r.tbpos r.text ++ c ∷ [] =
      elim (Bool-cases (r.tbpos == length r.text)) [
        | inl end ↦ ground (
          arith,
          take-all (suc r.tbpos) (r.text ++ c ∷ []),
          length-append r.text (c ∷ []),
          take-all r.tbpos r.text,
        )
        | inr within ↦ ground (arith, take-set r.tbpos r.text c)
      ] in
    (
      u_write (echo r.user.stage c) r₁,
      ground arith,
      u_write-IsEdited (echo r.user.stage c) (take r.tbpos r.text ++ c ∷ []) r r₁ (record {
        user = refl;
        telopt = refl;
        other_text = refl;
        splitline = refl;
        client = refl;
        fits = long;
        typed = ground (arith, e);
      }),
    )

back_space-edit :
    (r : Reader)
    → r.tbpos ≤ length r.text
    → (r' : Reader) × (back_space r ≡ returned r')
      × IsEdited (take (length (take r.tbpos r.text) - 1) (take r.tbpos r.text)) r r'
unfolding back_space
back_space-edit r f =
    let cut : List ℕ = take (r.tbpos - 1) r.text in
    let r₁ : Reader = record r { text = cut; tbpos = r.tbpos - 1 } in
    let n : length (take r.tbpos r.text) ≡ r.tbpos = omega (arith, length-take r.tbpos r.text) in
    let e : take (r.tbpos - 1) cut ≡ cut =
      take-take (r.tbpos - 1) (r.tbpos - 1) r.text (omega arith) in
    let e' : take (r.tbpos - 1) (take r.tbpos r.text) ≡ cut =
      take-take (r.tbpos - 1) r.tbpos r.text (omega arith) in
    let line : List ℕ = take (length (take r.tbpos r.text) - 1) (take r.tbpos r.text) in
    let e'' : line ≡ cut = (λ k. take (n k - 1) (take r.tbpos r.text)) ∙ e' in
    elim (Bool-cases (r.tbpos == 0)) [
      | inl start ↦ (
        r,
        ground arith,
        record {
          user = refl;
          telopt = refl;
          other_text = refl;
          splitline = refl;
          client = refl;
          fits = f;
          typed = ground arith;
        },
      )
      | inr within ↦ (
        u_write (codes "\u{8} \u{8}") r₁,
        ground arith,
        u_write-IsEdited (codes "\u{8} \u{8}") line r r₁ (record {
          user = refl;
          telopt = refl;
          other_text = refl;
          splitline = refl;
          client = refl;
          fits = omega (arith, length-take (r.tbpos - 1) r.text);
          typed = ground (arith, e, e'');
        }),
      )
    ]

pub read_byte-edit :
    (env : Env) (c : ℕ) (r : Reader)
    → is_new r.user.stage ≡ false
    → (c == b'\r') ≡ false
    → r.tbpos ≤ length r.text
    → (r' : Reader) × (read_byte env c r ≡ returned r')
      × IsEdited (edit (take r.tbpos r.text) c) r r'
unfolding read_byte edit
read_byte-edit env c r known other f =
    let (back, e, h) = back_space-edit r f in
    let (put, e', h') = type_byte-edit c r f in
    elim (Bool-cases ((c == 0) || (c == b'\n'))) [
      | inl ignored ↦ (
        r,
        ground arith,
        rw ignored (record {
          user = refl;
          telopt = refl;
          other_text = refl;
          splitline = refl;
          client = refl;
          fits = f;
          typed = refl;
        }),
      )
      | inr more ↦ elim (Bool-cases ((c == ascii_bs) || (c == ascii_del))) [
        | inl erases ↦ (back, ground arith, rw (more, erases) h)
        | inr typed ↦ (put, ground arith, rw (more, typed) h')
      ]
    ]
