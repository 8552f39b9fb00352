-- ===== src/Common/User/Input/Kept.antt =====
-- What reading a byte in uRead of src/Common/User.cpp leaves alone: the state of the option parser.
use lotospp.Base.{
  ℕ, ◌≡◌, refl, subst, ◌∙◌, ◌⊎◌, inl, inr, if◌then◌else◌, List, [], ◌∷◌, ltb, length, take, codes,
  arith, Bool-cases, Option-cases,
}
use lotospp.Common.User.Login.{print, cmd_line}
use lotospp.Common.User.Telopt.{Telopt}
use lotospp.Strings.Splitline.{Splitline, parse, wordptr}
use lotospp.Strings.Misc.{clean_string}
use lotospp.Common.User.Input.{
  Reader, Env, Reading, returned, raised, undefined, hung, endless, and_then, log_in_with, emit,
  u_write, prompt, prompt_text, say, quit, run_word, run_words, run_cmd_line, swap_buffer, parsed,
  parse_line, logged_in, enter_line, end_line, back_space, type_byte, read_byte, is_cmd_line,
}

pub Reading-cases :
    (x : Reading) → ((r : Reader) × (x ≡ returned r)) ⊎ ((f : Reader → Reading) → and_then x f ≡ x)
Reading-cases (returned r) = inl (r, refl)
Reading-cases (raised t r) = inr (λ f. refl)
Reading-cases undefined = inr (λ f. refl)
Reading-cases hung = inr (λ f. refl)
Reading-cases endless = inr (λ f. refl)

pub and_then_assoc :
    (x : Reading) (f g : Reader → Reading)
    → and_then (and_then x f) g ≡ and_then x (λ r. and_then (f r) g)
and_then_assoc (returned r) f g = refl
and_then_assoc (raised t r) f g = refl
and_then_assoc undefined f g = refl
and_then_assoc hung f g = refl
and_then_assoc endless f g = refl

-- The state of the option parser is left alone, and no fuel runs out.
abbrev pub KeepsTelopt : Telopt → Reading → Type 0
KeepsTelopt t (returned r) = r.telopt ≡ t
KeepsTelopt t (raised _ _) = Unit
KeepsTelopt t undefined = Unit
KeepsTelopt t hung = ⊥
KeepsTelopt t endless = ⊥

pub and_then-KeepsTelopt :
    (t : Telopt) (x : Reading) (f : Reader → Reading)
    → KeepsTelopt t x
    → ((r : Reader) → r.telopt ≡ t → KeepsTelopt t (f r))
    → KeepsTelopt t (and_then x f)
and_then-KeepsTelopt t (returned r) f k h = h r k
and_then-KeepsTelopt t (raised _ _) f k h = k
and_then-KeepsTelopt t undefined f k h = k
and_then-KeepsTelopt t hung f k h = k
and_then-KeepsTelopt t endless f k h = k

u_write-telopt : (s : List ℕ) (r : Reader) → (u_write s r).telopt ≡ r.telopt
unfolding u_write emit
u_write-telopt s r = ground arith

prompt-telopt : (env : Env) (r : Reader) → (prompt env r).telopt ≡ r.telopt
unfolding prompt emit
prompt-telopt env r = elim (Option-cases (prompt_text env r.user)) [
  | inl e ↦ ground arith
  | inr (text, e) ↦ ground arith
]

say-KeepsTelopt : (env : Env) (r : Reader) → KeepsTelopt r.telopt (say env r)
unfolding say emit
say-KeepsTelopt env r = elim (Bool-cases (ltb (length r.splitline.word) 2)) [
  | inl e ↦ ground arith
  | inr e ↦ elim (Option-cases (wordptr r.splitline 1)) [
    | inl e' ↦ ground arith
    | inr (text, e') ↦ ground arith
  ]
]

run_word-KeepsTelopt :
    (env : Env) (w : List ℕ) (r : Reader) → KeepsTelopt r.telopt (run_word env w r)
unfolding run_word quit emit
run_word-KeepsTelopt env w r =
    let k : KeepsTelopt r.telopt (and_then (say env r) (λ r'. returned (prompt env r'))) =
      and_then-KeepsTelopt r.telopt (say env r) (λ r'. returned (prompt env r'))
        (say-KeepsTelopt env r) (λ r' e. prompt-telopt env r' ∙ e) in
    ground (arith, k)

run_words-KeepsTelopt :
    (env : Env) (ws : List (List ℕ)) (r : Reader) → KeepsTelopt r.telopt (run_words env ws r)
unfolding run_words emit
run_words-KeepsTelopt env [] r = refl
run_words-KeepsTelopt env ([] ∷ ws) r = refl
run_words-KeepsTelopt env ((c ∷ w) ∷ ws) r =
    let missing = emit (print (codes "Missing command.\n") ∷ []) r in
    ground (
      arith,
      prompt-telopt env missing,
      run_word-KeepsTelopt env w r,
      run_word-KeepsTelopt env (c ∷ w) r,
    )

parsed-KeepsTelopt :
    (env : Env) (line : Splitline) (r : Reader) → KeepsTelopt r.telopt (parsed env line r)
unfolding parsed run_cmd_line swap_buffer emit
parsed-KeepsTelopt env line r =
    let r' : Reader = record r { splitline = line } in
    let reset : Reader = record r' { user = record r.user { stage = cmd_line } } in
    let error = print (codes "INTERNAL ERROR: Invalid stage in User::parseLine()!\n") in
    let x =
      if is_cmd_line r.user.stage
      then run_words env line.word r'
      else returned (prompt env (emit (error ∷ []) reset)) in
    let k : KeepsTelopt r.telopt x = ground (
      arith,
      run_words-KeepsTelopt env line.word r',
      prompt-telopt env (emit (error ∷ []) reset),
    ) in
    and_then-KeepsTelopt r.telopt x (λ r''. returned (swap_buffer r'')) k (λ r'' e. e)

parse_line-KeepsTelopt : (env : Env) (r : Reader) → KeepsTelopt r.telopt (parse_line env r)
unfolding parse_line
parse_line-KeepsTelopt env r = elim (Option-cases (parse r.splitline (clean_string r.text))) [
  | inl e ↦ ground arith
  | inr (line, e) ↦
      let k = parsed-KeepsTelopt env line (record r { text = clean_string r.text }) in ground arith
]

enter_line-KeepsTelopt : (env : Env) (r : Reader) → KeepsTelopt r.telopt (enter_line env r)
unfolding enter_line logged_in emit
enter_line-KeepsTelopt env r = elim (Option-cases (log_in_with env r.user r.text)) [
  | inl e ↦ ground (arith, parse_line-KeepsTelopt env r)
  | inr (result, e) ↦ elim (Option-cases result.thrown) [
    | inl e' ↦
        let r' : Reader = emit result.effects (record r { user = result.user }) in
        ground (arith, parse_line-KeepsTelopt env r, prompt-telopt env r')
    | inr (t, e') ↦ ground (arith, parse_line-KeepsTelopt env r)
  ]
]

end_line-KeepsTelopt : (env : Env) (r : Reader) → KeepsTelopt r.telopt (end_line env r)
unfolding end_line
end_line-KeepsTelopt env r =
    let r' : Reader = record r { text = take r.tbpos r.text; tbpos = 0 } in
    let echoed : Reader = u_write (codes "\r\n") r' in
    let e : echoed.telopt ≡ r.telopt = u_write-telopt (codes "\r\n") r' in
    ground (arith, enter_line-KeepsTelopt env r', enter_line-KeepsTelopt env echoed, e)

pub read_byte-KeepsTelopt :
    (env : Env) (c : ℕ) (r : Reader) → KeepsTelopt r.telopt (read_byte env c r)
unfolding read_byte back_space type_byte u_write emit
read_byte-KeepsTelopt env c r = ground (arith, end_line-KeepsTelopt env r)

-- Where the loop goes on, the parser's state is what it was.
pub read_byte-telopt :
    (env : Env) (c : ℕ) (r r' : Reader) → read_byte env c r ≡ returned r' → r'.telopt ≡ r.telopt
read_byte-telopt env c r r' e = subst (KeepsTelopt r.telopt) e (read_byte-KeepsTelopt env c r)
