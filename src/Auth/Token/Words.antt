-- ===== src/Auth/Token/Words.antt =====
-- `str::split_whitespace` and `[String]::join`, which auth.rs and valid_token.rs apply to scopes.
use Prim.Native.Char.{Char, code}
use Prim.Native.String
use Prim.Native.String.{String}
use mathlib.Core.Logic.{inl, inr}
use apollo_mcp_server.Prelude.{
  ℕ, ◌≡◌, ◌≢◌, Bool, false, ◌&&◌, ◌||◌, List, [], ◌∷◌, leb, nat_eq, All, Bool-cases, if◌then◌else◌,
}

-- `char::is_whitespace`: the code points with the Unicode property White_Space.
unfoldable pub is_whitespace : ℕ → Bool
is_whitespace c =
    (leb 9 c && leb c 13)
    || nat_eq c 32
    || nat_eq c 0x85
    || nat_eq c 0xa0
    || nat_eq c 0x1680
    || (leb 0x2000 c && leb c 0x200a)
    || nat_eq c 0x2028
    || nat_eq c 0x2029
    || nat_eq c 0x202f
    || nat_eq c 0x205f
    || nat_eq c 0x3000

-- A word in front of others, unless it is empty.
flush : String → List String → List String
flush String.[] words = words
flush (String.◌∷◌ c s) words = (String.◌∷◌ c s) ∷ words

-- The word at the very start of a text, which may be empty, and the words behind it.
words : String → String × List String
words String.[] = (String.[], [])
words (String.◌∷◌ c s) =
    let (word, rest) = words s in
    if is_whitespace (code c) then (String.[], flush word rest) else (String.◌∷◌ c word, rest)

unfoldable pub split_whitespace : String → List String
unfolding words flush is_whitespace
split_whitespace s = let (word, rest) = words s in flush word rest

abbrev space : Char
space = " "

-- `join(" ")`
unfoldable pub join : List String → String
join [] = String.[]
join (word ∷ []) = word
join (word ∷ next ∷ rest) = String.◌++◌ word (String.◌∷◌ space (join (next ∷ rest)))

abbrev pub NoWhitespace : String → Type 0
NoWhitespace String.[] = Unit
NoWhitespace (String.◌∷◌ c s) = (is_whitespace (code c) ≡ false) × NoWhitespace s

-- A scope that survives a space-delimited list: it is not empty and holds no whitespace.
abbrev pub IsWord : String → Type 0
IsWord word = (word ≢ String.[]) × NoWhitespace word

cons_ne_nil : (c : Char) (s : String) → String.◌∷◌ c s ≢ String.[]
cons_ne_nil c s h = cc

flush-IsWord :
    (word : String) (rest : List String)
    → NoWhitespace word
    → All IsWord rest
    → All IsWord (flush word rest)
unfolding flush
flush-IsWord String.[] rest h k = k
flush-IsWord (String.◌∷◌ c s) rest h k = ((cons_ne_nil c s, h), k)

words-IsWord : (s : String) → NoWhitespace (words s).0 × All IsWord (words s).1
unfolding words
words-IsWord String.[] = (tt, tt)
words-IsWord (String.◌∷◌ c s) =
    let (here, rest) = words-IsWord s in
    elim (Bool-cases (is_whitespace (code c))) [
      | inl blank ↦ rw blank (tt, flush-IsWord (words s).0 (words s).1 here rest)
      | inr letter ↦ rw letter ((letter, here), rest)
    ]

-- Every word that the split returns is a word.
pub split_whitespace-IsWord : (s : String) → All IsWord (split_whitespace s)
unfolding split_whitespace
split_whitespace-IsWord s =
    flush-IsWord (words s).0 (words s).1 (words-IsWord s).0 (words-IsWord s).1
