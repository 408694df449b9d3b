-- ===== src/Feed/Folding.antt =====
-- `line` of internal/ics/ics.go: what `unfold` of internal/icsimport/parse.go reads of it, and how
-- long its lines are.

use stattii.Base.{
  All, Bool, Bool-cases, List, Option, [], ap, append-nil, append_assoc, arith, false, inl, inr,
  ltb, none, refl, some, ℕ, ◌++◌, ◌+◌, ◌<◌, ◌∙◌, ◌∷◌, ◌≡◌, ◌≤◌,
}
use stattii.Feed.Defs.{Codes, fold_runes, rune_len}
use stattii.Feed.Escaping.{IsPlain}
use stattii.Feed.Reader.{octets_from}
use stattii.Recurrence.{continues, gather, replace_crlf, split_lines}

-- The importer's three passes over a text of code points.
abbrev pub gathered : Option Codes → List Codes → List Codes
gathered = gather (λ n. n)

abbrev pub physical : Codes → Codes → List Codes
physical word s = split_lines (λ n. n) word (replace_crlf (λ n. n) s)

abbrev pub continues_line : ℕ → Bool
continues_line = continues (λ n. n)

-- What precedes the lines at hand.
abbrev pub emitted : Option Codes → List Codes → List Codes
emitted none ls = ls
emitted (some p) ls = p ∷ ls

-- In a physical line that continues the logical line `cur`, after `v`.
gather_folded :
    (octets : ℕ) (cur v s rest : Codes)
    → All IsPlain s
    → gathered (some cur) (physical (b' ' ∷ v) (fold_runes octets s ++ rest))
      ≡ gathered (some (cur ++ (v ++ s))) (physical [] rest)
unfolding fold_runes gather split_lines replace_crlf
gather_folded octets cur v [] rest h = rw append-nil
gather_folded octets cur v (r ∷ rs) rest h =
    let broken = gather_folded (1 + rune_len r) (cur ++ v) (r ∷ []) rs rest h.1 in
    let same = gather_folded (octets + rune_len r) cur (v ++ r ∷ []) rs rest h.1 in
    elim (Bool-cases (ltb 74 (octets + rune_len r))) [
      | inl e ↦ rw (e, h.0.0, h.0.1) (broken ∙ rw (append_assoc cur v (r ∷ rs)))
      | inr e ↦ rw (e, h.0.0, h.0.1) (same ∙ rw (append_assoc v (r ∷ []) rs))
    ]

gather_start :
    (before : Option Codes) (c : ℕ) (word : Codes) (ls : List Codes)
    → continues_line c ≡ false
    → gathered before ((c ∷ word) ∷ ls) ≡ emitted before (gathered (some (c ∷ word)) ls)
unfolding gather
gather_start none c word ls h = refl
gather_start (some p) c word ls h = rw h

-- In the first physical line of a logical line.
pub gather_first :
    (octets : ℕ) (before : Option Codes) (c : ℕ) (word s rest : Codes)
    → continues_line c ≡ false
    → All IsPlain s
    → gathered before (physical (c ∷ word) (fold_runes octets s ++ rest))
      ≡ emitted before (gathered (some (c ∷ (word ++ s))) (physical [] rest))
unfolding fold_runes split_lines replace_crlf
gather_first octets before c word [] rest letter h =
    gather_start before c word (physical [] rest) letter ∙ rw append-nil
gather_first octets before c word (r ∷ rs) rest letter h =
    let o1 = 1 + rune_len r in
    let folded = gather_folded o1 (c ∷ word) (r ∷ []) rs rest h.1 in
    let same = gather_first (octets + rune_len r) before c (word ++ r ∷ []) rs rest letter h.1 in
    elim (Bool-cases (ltb 74 (octets + rune_len r))) [
      | inl e ↦
          rw (e, h.0.0, h.0.1)
            (gather_start before c word (physical (b' ' ∷ r ∷ []) (fold_runes o1 rs ++ rest)) letter
              ∙ ap (emitted before) folded)
      | inr e ↦ rw (e, h.0.0, h.0.1) (same ∙ rw (append_assoc word (r ∷ []) rs))
    ]

rune_len_pos : (c : ℕ) → (0 < rune_len c) × (rune_len c ≤ 4)
unfolding rune_len
rune_len_pos c = ground arith

-- The bound of every physical line, and the shape of the list of lengths.
abbrev pub WithinLimit : List ℕ → Type 0
WithinLimit = All (λ n. n ≤ 74)

pub octets-fold_runes :
    (octets : ℕ) (s rest : Codes)
    → octets ≤ 74
    → All IsPlain s
    → WithinLimit (octets_from 0 rest)
    → WithinLimit (octets_from octets (fold_runes octets s ++ rest))
unfolding fold_runes octets_from
octets-fold_runes octets [] rest b h k = (b, k)
octets-fold_runes octets (r ∷ rs) rest b h k =
    let (low, high) = rune_len_pos r in
    elim (Bool-cases (ltb 74 (octets + rune_len r))) [
      | inl e ↦
          rw (e, h.0.0, h.0.1) (b, octets-fold_runes (1 + rune_len r) rs rest (omega arith) h.1 k)
      | inr e ↦
          rw (e, h.0.0, h.0.1)
            (octets-fold_runes (octets + rune_len r) rs rest (ground arith) h.1 k)
    ]
