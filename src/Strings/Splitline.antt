-- ===== src/Strings/Splitline.antt =====
-- The command line splitter of src/Strings/Splitline.h and Splitline.cpp.
-- A text is the list of its bytes. The loops over a line walk what is left of it and count the
-- index along; the loop of `parse` takes fuel, and `none` means that the fuel ran out.
pub mod Scan
pub mod Plain
pub mod Words
pub mod Pointers
mod Tests
use lotospp.Base.{
  ℕ, zero, suc, ◌+◌, ◌-◌, Bool, true, false, not, ◌&&◌, ◌||◌, List, [], ◌∷◌, ◌++◌, Option, none,
  some, leb, ltb, ◌==◌, if◌then◌else◌, length, take, drop, get_elem?, char_lt,
}

pub record Splitline : Type 0 where
  pub line : List ℕ
  pub word : List (List ℕ)
  pub word_ptr : List ℕ
  pub start_quote : Bool
  pub end_quote : Bool

-- std::string::substr at a position within the text.
abbrev pub substr : List ℕ → ℕ → ℕ → List ℕ
substr s pos n = take n (drop pos s)

pub reset : Splitline → Splitline
reset s = record s { word = [] }

-- The first index, from `o1` on, of a byte that is no white space; `rest` is the line from `o1` on.
pub skip_space : List ℕ → ℕ → ℕ
skip_space [] o1 = o1
skip_space (c ∷ rest) o1 = if char_lt c 33 then skip_space rest (o1 + 1) else o1

-- The end of a word without quotes.
pub scan_plain : List ℕ → ℕ → ℕ
scan_plain [] o2 = o2
scan_plain (c ∷ rest) o2 = if char_lt c 33 then o2 else scan_plain rest (o2 + 1)

-- The end of a quoted word, and whether a closing quote was found; `prev` is the byte at `prev`.
pub scan_quoted : List ℕ → ℕ → ℕ → ℕ × Bool
scan_quoted [] o2 prev = (o2, false)
scan_quoted (c ∷ rest) o2 prev =
    if c == b'"' && not (prev == b'\\') then (o2 + 1, true) else scan_quoted rest (o2 + 1) c

-- In the first round `prev` is the index of the byte itself.
pub scan_from_quote : List ℕ → ℕ → ℕ × Bool
unfolding scan_quoted
scan_from_quote [] o2 = (o2, false)
scan_from_quote (c ∷ rest) o2 = scan_quoted (c ∷ rest) o2 c

-- What getWord returns, and what it leaves in `o1` and in the object.
pub record Found : Type 0 where
  pub o1 : ℕ
  pub o2 : ℕ
  pub start_quote : Bool
  pub end_quote : Bool

-- The part of getWord behind the white space, on the line from `o1` on.
pub get_word_at : List ℕ → ℕ → Found → Found
unfolding scan_plain scan_from_quote
get_word_at [] o1 before = record before { o1 = o1; o2 = 0 }
get_word_at (c ∷ rest) o1 before =
    if c == b'"'
    then (let (o2, closed) = scan_from_quote rest (o1 + 1) in
        record {
          o1 = o1;
          o2 = if o2 == o1 || o2 == o1 + 1 then 0 else o2;
          start_quote = true;
          end_quote = closed;
        })
    else (let o2 = scan_plain (c ∷ rest) o1 in
        record { o1 = o1; o2 = if o2 == o1 then 0 else o2; start_quote = false; end_quote = false })

pub get_word : Splitline → ℕ → Found
unfolding skip_space get_word_at
get_word s o1 =
    let at = skip_space (drop o1 s.line) o1 in
    get_word_at (drop at s.line) at
      (record { o1 = at; o2 = 0; start_quote = s.start_quote; end_quote = s.end_quote })

-- Every backslash that stands before a quote is taken out; the search goes on behind the quote.
pub unescape : List ℕ → List ℕ
unescape [] = []
unescape (c ∷ []) = c ∷ []
unescape (c ∷ d ∷ rest) =
    let found = d ∷ unescape rest in
    let passed = c ∷ unescape (d ∷ rest) in if c == b'\\' && d == b'"' then found else passed

pub add_word : Splitline → ℕ → ℕ → Splitline
unfolding unescape
add_word s o1 o2 = record s {
  word_ptr = s.word_ptr ++ o1 ∷ [];
  word =
      s.word
      ++ (if s.start_quote
          then unescape (
              if s.end_quote
              then substr s.line (o1 + 1) (o2 - o1 - 2)
              else substr s.line 1 (length s.line))
          else substr s.line o1 (o2 - o1))
        ∷ [];
}

-- The loop of `parse`. A word that ends at 0 is no word.
pub parse_loop : ℕ → Splitline → ℕ → Option Splitline
unfolding get_word add_word
parse_loop zero s o1 = none
parse_loop (suc fuel) s o1 =
    let f = get_word s o1 in
    let s' = record s { start_quote = f.start_quote; end_quote = f.end_quote } in
    let rest = parse_loop fuel (add_word s' f.o1 f.o2) f.o2 in if f.o2 == 0 then some s' else rest

-- An empty line leaves the last line and its pointers in place.
pub parse : Splitline → List ℕ → Option Splitline
unfolding parse_loop reset
parse s [] = some (reset s)
parse s (c ∷ line) = parse_loop (suc (length (c ∷ line))) (record (reset s) { line = c ∷ line }) 0

pub shift : Splitline → Splitline
unfolding reset
shift s = elim s.word [ [] ↦ s | w ∷ [] ↦ reset s | w ∷ v ∷ ws ↦ record s { word = v ∷ ws } ]

-- `none` for an index past the pointers, and for the std::out_of_range of `substr`.
pub wordptr : Splitline → ℕ → Option (List ℕ)
wordptr s pos = elim (get_elem? s.word_ptr pos) [
  | none ↦ none
  | some p ↦ if leb p (length s.line) then some (drop p s.line) else none
]
