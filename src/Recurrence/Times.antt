-- ===== src/Recurrence/Times.antt =====
-- splitProp and parseICSTime of internal/icsimport/parse.go.

use stattii.Base.{
  Bool, Char, List, Option, Result, String, [], chars, concat, eqb, err, false, find_last,
  if◌then◌else◌, length, message, none, not, of_chars, ok, reverse, some, true, ℕ, ◌&&◌, ◌++◌, ◌==◌,
  ◌||◌, ◌∷◌,
}
use stattii.Recurrence.Defs.{Std, Zone}
use stattii.Recurrence.Rule.{cut_at, ends_in_z, split_on, starts_with_char}

abbrev pub Params : Type 0
Params = List (String × String)

-- `params[key]`: the last value of the key, or the empty text.
abbrev pub param : String → Params → String
param key ps = elim (find_last (λ (p : String × String). p.0 == key) ps) [
  | none ↦ ""
  | some p ↦ p.1
]

-- The text before the first colon outside quotes, and what follows it.
unfoldable pub cut_value : Bool → List Char → List Char → List Char × List Char
cut_value quoted word [] = (word, [])
cut_value quoted word (c ∷ cs) =
    let next =
      cut_value (if starts_with_char c "\"" then not quoted else quoted) (word ++ c ∷ []) cs in
    if starts_with_char c ":" && not quoted then (word, cs) else next

unfoldable pub trim_quotes : List Char → List Char
trim_quotes [] = []
trim_quotes (c ∷ cs) = let rest = trim_quotes cs in if starts_with_char c "\"" then rest else c ∷ cs

-- strings.Trim(v, `"`)
abbrev pub unquoted : String → String
unquoted v = of_chars (reverse (trim_quotes (reverse (trim_quotes (chars v)))))

unfoldable pub param_of : Std → Option (String × String) → Params
unfolding trim_quotes
param_of std none = []
param_of std (some (k, v)) = (std.to_upper k, unquoted v) ∷ []

unfoldable pub params_of : Std → List String → Params
unfolding param_of cut_at
params_of std [] = []
params_of std (p ∷ rest) = param_of std (cut_at "=" p) ++ params_of std rest

pub record Prop : Type 0 where
  pub name : String
  pub params : Params
  pub value : String

unfoldable pub prop_parts : Std → List String → String → Prop
unfolding params_of
prop_parts std [] value = record { name = ""; params = []; value = value }
prop_parts std (n ∷ ps) value = record {
  name = std.to_upper n;
  params = params_of std ps;
  value = value;
}

-- splitProp
unfoldable pub split_prop : Std → List Char → Prop
unfolding prop_parts cut_value split_on
split_prop std line =
    let (head, value) = cut_value false [] line in
    prop_parts std (split_on ";" (of_chars head)) (of_chars value)

-- A time, whether it is a date only, and its location.
pub record IcsTime : Type 0 where
  pub at : ℕ
  pub all_day : Bool
  pub zone : Zone

abbrev pub timed : Std → String → String → Bool → Zone → Option ℕ → Result IcsTime
timed std layout value all_day z none = err (message (std.parse_error layout value))
timed std layout value all_day z (some t) = ok (record { at = t; all_day = all_day; zone = z })

unfoldable pub local_time : Std → String → String → Option Zone → Result IcsTime
local_time std value tzid none = err (message (concat ("unknown TZID " ∷ std.quote tzid ∷ [])))
local_time std value tzid (some z) =
    timed std "20060102T150405" value false z (z.parse "20060102T150405" value)

-- parseICSTime
unfoldable pub parse_ics_time : Std → String → Params → Result IcsTime
unfolding local_time
parse_ics_time std value ps =
    let tzid = param "TZID" ps in
    if param "VALUE" ps == "DATE" || eqb (length (chars value)) 8
    then timed std "20060102" value true std.local (std.local.parse "20060102" value)
    else if ends_in_z (chars value)
    then timed std "20060102T150405Z" value false std.utc (std.parse_utc "20060102T150405Z" value)
    else local_time std value tzid (if tzid == "" then some std.local else std.load_location tzid)
