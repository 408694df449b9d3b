-- ===== src/Base/Texts.antt =====
-- Go's text helpers, over the characters of a text.

use Prim.Native.Nat.{Ordering, ℕ}
use Prim.Native.Char.{Char, code}
use Prim.Native.String.{String, compare}
use mathlib.Core.Bool.{true, false, Bool, ◌||◌, ◌&&◌}
use mathlib.Core.List.{◌++◌, reverse, List, [], ◌∷◌}
use stattii.Base.Tests.{eqb, if◌then◌else◌, leb}

-- The texts that `fmt.Sprintf` and `+` join.
abbrev pub concat : List String → String
concat [] = ""
concat (s ∷ rest) = Prim.Native.String.◌++◌ s (concat rest)

-- strings.Join
abbrev pub join : String → List String → String
join sep [] = ""
join sep (s ∷ []) = s
join sep (s ∷ t ∷ rest) = concat (s ∷ sep ∷ join sep (t ∷ rest) ∷ [])

abbrev pub chars : String → List Char
chars String.[] = []
chars (String.◌∷◌ c s) = c ∷ chars s

-- The code points of a text, which Go's `range` over it visits.
abbrev pub codes : String → List ℕ
codes String.[] = []
codes (String.◌∷◌ c s) = code c ∷ codes s

abbrev pub of_chars : List Char → String
of_chars [] = String.[]
of_chars (c ∷ cs) = String.◌∷◌ c (of_chars cs)

abbrev pub space : Char
space = " "

-- unicode.IsSpace
unfoldable pub is_space : Char → Bool
is_space c =
    let n = code c in
    eqb n 32
    || leb 9 n && leb n 13
    || eqb n 0x85
    || eqb n 0xa0
    || eqb n 0x1680
    || leb 0x2000 n && leb n 0x200a
    || eqb n 0x2028
    || eqb n 0x2029
    || eqb n 0x202f
    || eqb n 0x205f
    || eqb n 0x3000

unfoldable pub push_word : List Char → List (List Char) → List (List Char)
push_word [] words = words
push_word (c ∷ cs) words = (c ∷ cs) ∷ words

-- strings.Fields: `word` holds the characters of the word at hand.
unfoldable pub words_from : List Char → List Char → List (List Char)
unfolding push_word
words_from word [] = push_word word []
words_from word (c ∷ cs) =
    let rest = words_from (if is_space c then [] else word ++ c ∷ []) cs in
    if is_space c then push_word word rest else rest

-- strings.Join(words, " ")
unfoldable pub join_words : List (List Char) → List Char
join_words [] = []
join_words (w ∷ []) = w
join_words (w ∷ v ∷ rest) = w ++ space ∷ join_words (v ∷ rest)

-- strings.Join(strings.Fields(s), " ")
unfoldable pub one_line : String → List Char
unfolding words_from join_words
one_line s = join_words (words_from [] (chars s))

unfoldable pub drop_spaces : List Char → List Char
drop_spaces [] = []
drop_spaces (c ∷ cs) = let rest = drop_spaces cs in if is_space c then rest else c ∷ cs

-- strings.TrimSpace
unfoldable pub trim_space : String → String
unfolding drop_spaces
trim_space s = of_chars (reverse (drop_spaces (reverse (drop_spaces (chars s)))))

-- `a < b`, byte by byte.
abbrev pub precedes : String → String → Bool
precedes a b = elim (compare a b) [ Ordering.lt ↦ true | _ ↦ false ]
