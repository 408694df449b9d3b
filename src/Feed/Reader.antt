-- ===== src/Feed/Reader.antt =====
-- How long the lines of a feed are, by RFC 5545, and what an escaped text stands for.

use stattii.Base.{Bool, List, [], eqb, false, if◌then◌else◌, ℕ, ◌&&◌, ◌+◌, ◌∷◌}
use stattii.Feed.Defs.{Codes, cr, lf, rune_len}

-- The lengths in octets of the physical lines, without their ends.
unfoldable pub octets_from : ℕ → Codes → List ℕ
octets_from n [] = n ∷ []
octets_from n (c ∷ cs) =
    let ended = n ∷ octets_from 0 cs in
    let skip = octets_from n cs in
    let more = octets_from (n + rune_len c) cs in
    if eqb c lf then ended else if eqb c cr then skip else more

unfoldable pub line_octets : Codes → List ℕ
unfolding octets_from
line_octets s = octets_from 0 s

-- The line breaks of a text, each as one LF.
unfoldable pub unify_from : Bool → Codes → Codes
unify_from paired [] = []
unify_from paired (c ∷ cs) =
    let rest = unify_from (eqb c cr) cs in
    if paired && eqb c lf then rest else (if eqb c cr then lf else c) ∷ rest

unfoldable pub unify_breaks : Codes → Codes
unfolding unify_from
unify_breaks s = unify_from false s
