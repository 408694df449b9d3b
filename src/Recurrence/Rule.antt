-- ===== src/Recurrence/Rule.antt =====
-- parseRule of internal/icsimport/expand.go.

use stattii.Base.{
  Bool, Char, Error, List, Option, Result, String, [], chars, code, concat, eqb, err, false,
  if◌then◌else◌, is_nonzero, length, ltb, map, message, negsuc, none, of_chars, ok, pos, some, suc,
  trim_space, zero, ℕ, ℤ, ◌++◌, ◌-◌, ◌==◌, ◌>>=◌, ◌||◌, ◌∷◌,
}
use stattii.Recurrence.Defs.{ByDay, Rule, Std, Zone, max_count, max_interval, one_second}

abbrev pub starts_with_char : Char → Char → Bool
starts_with_char c d = eqb (code c) (code d)

unfoldable pub split_from : Char → List Char → List Char → List (List Char)
split_from sep word [] = word ∷ []
split_from sep word (c ∷ cs) =
    let cut = word ∷ split_from sep [] cs in
    let more = split_from sep (word ++ c ∷ []) cs in if starts_with_char c sep then cut else more

-- strings.Split, by one character.
unfoldable pub split_on : Char → String → List String
unfolding split_from
split_on sep s = map of_chars (split_from sep [] (chars s))

unfoldable pub cut_from : Char → List Char → List Char → Option (String × String)
cut_from sep word [] = none
cut_from sep word (c ∷ cs) =
    let more = cut_from sep (word ++ c ∷ []) cs in
    if starts_with_char c sep then some (of_chars word, of_chars cs) else more

-- strings.Cut, by one character.
unfoldable pub cut_at : Char → String → Option (String × String)
unfolding cut_from
cut_at sep s = cut_from sep [] (chars s)

-- time.Weekday of the two letters.
abbrev pub weekday_of : String → Option ℕ
weekday_of s =
    if s == "SU"
    then some 0
    else if s == "MO"
    then some 1
    else if s == "TU"
    then some 2
    else if s == "WE"
    then some 3
    else if s == "TH"
    then some 4
    else if s == "FR"
    then some 5
    else if s == "SA"
    then some 6
    else none

-- The first n characters, and the rest.
abbrev pub split_chars : ℕ → List Char → List Char × List Char
split_chars zero cs = ([], cs)
split_chars (suc n) [] = ([], [])
split_chars (suc n) (c ∷ cs) = let (front, back) = split_chars n cs in (c ∷ front, back)

abbrev pub bad : Std → String → String → Error
bad std what v = message (concat ("bad " ∷ what ∷ " " ∷ std.quote v ∷ []))

abbrev pub above : Std → String → String → ℕ → Error
above std what v limit =
    message
      (concat (what ∷ " " ∷ std.quote v ∷ " above the " ∷ std.format_number limit ∷ " limit" ∷ []))

-- A number from 1 to the limit: INTERVAL and COUNT.
unfoldable pub positive_below : Std → String → ℕ → String → Option ℤ → Result ℕ
positive_below std what limit v none = err (bad std what v)
positive_below std what limit v (some (negsuc n)) = err (bad std what v)
positive_below std what limit v (some (pos n)) =
    if eqb n 0
    then err (bad std what v)
    else if ltb limit n
    then err (above std what v limit)
    else ok n

-- The ordinal before the two letters of a BYDAY entry.
unfoldable pub ordinal_of : Std → String → Option ℤ
ordinal_of std front = if front == "" then some (pos 0) else std.atoi front

unfoldable pub by_day_of : Std → String → Option ℤ → Option ℕ → Result ByDay
by_day_of std d none wd = err (bad std "BYDAY" d)
by_day_of std d (some ord) none = err (bad std "BYDAY" d)
by_day_of std d (some ord) (some wd) = ok (record { ord = ord; weekday = wd })

unfoldable pub parse_by_day : Std → String → Result ByDay
unfolding ordinal_of by_day_of
parse_by_day std s =
    let d = trim_space s in
    let (front, back) = split_chars (length (chars d) - 2) (chars d) in
    by_day_of std d (ordinal_of std (of_chars front)) (weekday_of (of_chars back))

-- The entries of a list that must all be good, in order.
abbrev pub parse_all {ℓ} : {A : Type ℓ} → (String → Result A) → List String → Result (List A)
parse_all parse [] = ok []
parse_all parse (s ∷ rest) = do a ← parse s; others ← parse_all parse rest; ok (a ∷ others)

unfoldable pub month_of : Std → String → Option ℤ → Result ℕ
month_of std m none = err (bad std "BYMONTH" m)
month_of std m (some (negsuc n)) = err (bad std "BYMONTH" m)
month_of std m (some (pos n)) = if ltb n 1 || ltb 12 n then err (bad std "BYMONTH" m) else ok n

unfoldable pub nonzero_of : Std → String → String → Option ℤ → Result ℤ
nonzero_of std what m none = err (bad std what m)
nonzero_of std what m (some n) = if is_nonzero n then ok n else err (bad std what m)

abbrev pub ends_in_z : List Char → Bool
ends_in_z [] = false
ends_in_z (c ∷ []) = starts_with_char c "Z"
ends_in_z (c ∷ d ∷ cs) = ends_in_z (d ∷ cs)

-- The last second of the day that starts at a time.
abbrev pub whole_day : Zone → Option ℕ → Option ℕ
whole_day z none = none
whole_day z (some t) = some (z.add_days t (pos 1) - one_second)

unfoldable pub until_of : Std → Zone → String → Option ℕ
until_of std z v =
    if ends_in_z (chars v)
    then std.parse_utc "20060102T150405Z" v
    else if eqb (length (chars v)) 8
    then whole_day z (z.parse "20060102" v)
    else z.parse "20060102T150405" v

abbrev pub until_result : Std → String → Option ℕ → Result ℕ
until_result std v none = err (bad std "UNTIL" v)
until_result std v (some t) = ok t

-- One part of the rule, by its name in capitals; `k` is the name as written.
unfoldable pub rule_part : Std → Zone → Rule → String → String → String → Result Rule
unfolding positive_below parse_by_day month_of nonzero_of until_of split_on
rule_part std z r k name v =
    if name == "FREQ"
    then ok (record r { freq = std.to_upper v })
    else if name == "INTERVAL"
    then positive_below std "INTERVAL" max_interval v (std.atoi v)
      >>= (λ n. ok (record r { interval = n }))
    else if name == "UNTIL"
    then until_result std v (until_of std z v) >>= (λ t. ok (record r { until_at = t }))
    else if name == "COUNT"
    then positive_below std "COUNT" max_count v (std.atoi v) >>= (λ n. ok (record r { count = n }))
    else if name == "BYDAY"
    then parse_all (parse_by_day std) (split_on "," v)
      >>= (λ ds. ok (record r { by_day = r.by_day ++ ds }))
    else if name == "BYMONTH"
    then parse_all (λ m. month_of std m (std.atoi m)) (split_on "," v)
      >>= (λ ms. ok (record r { by_month = r.by_month ++ ms }))
    else if name == "BYMONTHDAY"
    then parse_all (λ m. nonzero_of std "BYMONTHDAY" m (std.atoi m)) (split_on "," v)
      >>= (λ ms. ok (record r { by_month_day = r.by_month_day ++ ms }))
    else if name == "BYSETPOS"
    then parse_all (λ m. nonzero_of std "BYSETPOS" m (std.atoi m)) (split_on "," v)
      >>= (λ ps. ok (record r { by_set_pos = r.by_set_pos ++ ps }))
    else if name == "WKST"
    then ok r
    else err (message (concat ("unsupported RRULE part " ∷ std.quote k ∷ [])))

unfoldable pub rule_cut : Std → Zone → Rule → String → Option (String × String) → Result Rule
unfolding rule_part
rule_cut std z r part none =
    err (message (concat ("unsupported RRULE part " ∷ std.quote part ∷ [])))
rule_cut std z r part (some (k, v)) = rule_part std z r k (std.to_upper k) v

unfoldable pub rule_parts : Std → Zone → Rule → List String → Result Rule
unfolding rule_cut cut_at
rule_parts std z r [] = ok r
rule_parts std z r (part ∷ rest) = do
  r1 ← rule_cut std z r part (cut_at "=" part)
  rule_parts std z r1 rest

abbrev pub is_known_freq : String → Bool
is_known_freq f = f == "DAILY" || f == "WEEKLY" || f == "MONTHLY" || f == "YEARLY"

abbrev pub check_freq : Std → Rule → Result Rule
check_freq std r =
    if is_known_freq r.freq
    then ok r
    else err (message (concat ("unsupported FREQ " ∷ std.quote r.freq ∷ [])))

abbrev pub empty_rule : Rule
empty_rule = record {
  freq = "";
  interval = 1;
  until_at = 0;
  count = 0;
  by_day = [];
  by_month = [];
  by_month_day = [];
  by_set_pos = [];
}

-- parseRule
unfoldable pub parse_rule : Std → String → Zone → Result Rule
unfolding rule_parts split_on
parse_rule std s z = rule_parts std z empty_rule (split_on ";" s) >>= check_freq std
