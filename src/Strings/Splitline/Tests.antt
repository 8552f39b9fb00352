-- ===== src/Strings/Splitline/Tests.antt =====
-- Lines at concrete inputs.
use lotospp.Base.{ℕ, ◌≡◌, refl, false, List, [], ◌∷◌, Option, some, none, codes, arith}
use lotospp.Strings.Splitline.{Splitline, parse, wordptr}
use lotospp.Strings.Splitline.Scan.{parse_total}
use lotospp.Strings.Splitline.Plain.{has_quote, words}
use lotospp.Strings.Splitline.Words.{Points, parse-words}
use lotospp.Strings.Splitline.Pointers.{wordptr-parse}

abbrev fresh : Splitline
fresh = record { line = []; word = []; word_ptr = []; start_quote = false; end_quote = false }

abbrev texts : Option Splitline → List (List ℕ)
texts none = []
texts (some s) = s.word

quoted_line :
    texts (parse fresh (codes ".say \"a \\\"b\\\" c\" d"))
    ≡ codes ".say" ∷ codes "a \"b\" c" ∷ codes "d" ∷ []
unfolding parse
quoted_line = refl

-- A closing quote is missing behind the first word: the line is taken from its second byte on.
open_quote : texts (parse fresh (codes "tell \"bob")) ≡ codes "tell" ∷ codes "ell \"bob" ∷ []
unfolding parse
open_quote = refl

abbrev said : Splitline
said = record {
  line = codes "say hi";
  word = codes "say" ∷ codes "hi" ∷ [];
  word_ptr = 0 ∷ 4 ∷ [];
  start_quote = false;
  end_quote = false;
}

abbrev said_twice : Splitline
said_twice = record {
  line = codes ".say hello";
  word = codes ".say" ∷ codes "hello" ∷ [];
  word_ptr = 0 ∷ 4 ∷ 0 ∷ 5 ∷ [];
  start_quote = false;
  end_quote = false;
}

parse_total_open : (s' : Splitline) × (parse said (codes "a \"") ≡ some s')
parse_total_open = parse_total said (codes "a \"")

parse-words_example :
    (s' : Splitline) × (parse fresh (codes " say  hi") ≡ some s')
    × (s'.word ≡ words (codes " say  hi"))
    × (fresh.word_ptr ≡ [] → Points (codes " say  hi") s'.word s'.word_ptr)
unfolding has_quote
parse-words_example = parse-words fresh (codes " say  hi") refl

wordptr-parse_example : wordptr said_twice 1 ≡ some (codes " hello")
unfolding parse
wordptr-parse_example =
    wordptr-parse said said_twice (codes ".say hello") 1 4 (λ e. cc) refl (omega arith) refl
