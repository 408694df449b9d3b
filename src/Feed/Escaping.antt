-- ===== src/Feed/Escaping.antt =====
-- What `escape` of internal/ics/ics.go writes, and what unescapeText of internal/icsimport/parse.go
-- reads back.

use stattii.Base.{
  All, All-append, Bool, Bool-cases, [], ap, arith, eqb, false, if◌then◌else◌, inl, inr, refl, ℕ,
  ◌&&◌, ◌++◌, ◌∙◌, ◌∷◌, ◌≡◌,
}
use stattii.Feed.Defs.{Codes, cr, escape, escape_from, escape_rune, lf}
use stattii.Feed.Reader.{unify_breaks, unify_from}
use stattii.Recurrence.{unescape_text}

-- Neither of the characters that end a line.
abbrev pub IsPlain : ℕ → Type 0
IsPlain c = (eqb c cr ≡ false) × (eqb c lf ≡ false)

-- The importer's reading of a text of code points.
abbrev pub unescaped_codes : Codes → Codes
unescaped_codes = unescape_text (λ n. n) lf

unescape-escape_rune :
    (c : ℕ) (rest : Codes)
    → unescaped_codes (escape_rune c ++ rest) ≡ (if eqb c cr then lf else c) ∷ unescaped_codes rest
unfolding escape_rune unescape_text
unescape-escape_rune c [] = ground arith
unescape-escape_rune c (d ∷ rest) = ground arith

unescape-escape_from :
    (paired : Bool) (s : Codes) → unescaped_codes (escape_from paired s) ≡ unify_from paired s
unfolding escape_from unify_from unescape_text
unescape-escape_from paired [] = refl
unescape-escape_from paired (c ∷ cs) = elim (Bool-cases (paired && eqb c lf)) [
  | inl e ↦ rw e (unescape-escape_from (eqb c cr) cs)
  | inr e ↦ rw e (
      unescape-escape_rune c (escape_from (eqb c cr) cs)
      ∙ ap (◌∷◌ (if eqb c cr then lf else c)) (unescape-escape_from (eqb c cr) cs))
]

-- The importer reads an escaped text back as the text, with each of its line breaks (CR LF, CR or
-- LF) as one LF.
pub unescape_text-escape : (s : Codes) → unescape_text (λ n. n) lf (escape s) ≡ unify_breaks s
unfolding escape unify_breaks
unescape_text-escape s = unescape-escape_from false s

escape_rune-IsPlain : (c : ℕ) → All IsPlain (escape_rune c)
unfolding escape_rune
escape_rune-IsPlain c = ground arith

escape_from-IsPlain : (after : Bool) (s : Codes) → All IsPlain (escape_from after s)
unfolding escape_from
escape_from-IsPlain after [] = tt
escape_from-IsPlain after (c ∷ cs) = elim (Bool-cases (after && eqb c lf)) [
  | inl e ↦ rw e (escape_from-IsPlain (eqb c cr) cs)
  | inr e ↦ rw e (
      All-append IsPlain (escape_rune c) _ (escape_rune-IsPlain c)
        (escape_from-IsPlain (eqb c cr) cs))
]

pub escape-IsPlain : (s : Codes) → All IsPlain (escape s)
unfolding escape
escape-IsPlain s = escape_from-IsPlain false s
