-- ===== src/Feed/Defs.antt =====
-- Feed, status, escape and line of internal/ics/ics.go, over the code points of a text. Time and
-- number formatting come from `Env`.

use stattii.Base.{
  Bool, List, String, [], codes, eqb, false, if◌then◌else◌, ltb, ℕ, ◌&&◌, ◌++◌, ◌+◌, ◌==◌, ◌||◌,
  ◌∷◌,
}
use stattii.Model.{Event, EventStatus, cancelled, confirmed, is_zero, scheduled}
use stattii.Service.{Env}

abbrev pub Codes : Type 0
Codes = List ℕ

abbrev pub cr : ℕ
cr = b'\r'

abbrev pub lf : ℕ
lf = b'\n'

abbrev pub backslash : ℕ
backslash = b'\\'

-- utf8.RuneLen, of a code point that a text can hold.
unfoldable pub rune_len : ℕ → ℕ
rune_len c = if ltb c 0x80 then 1 else if ltb c 0x800 then 2 else if ltb c 0x10000 then 3 else 4

-- The loop of `line`; the number is `octets`.
unfoldable pub fold_runes : ℕ → Codes → Codes
unfolding rune_len
fold_runes octets [] = cr ∷ lf ∷ []
fold_runes octets (r ∷ rs) =
    let broken = cr ∷ lf ∷ b' ' ∷ r ∷ fold_runes (1 + rune_len r) rs in
    let same = r ∷ fold_runes (octets + rune_len r) rs in
    if ltb 74 (octets + rune_len r) then broken else same

-- line
unfoldable pub line : Codes → Codes
unfolding fold_runes
line s = fold_runes 0 s

-- What the replacer writes for a character that it meets by itself.
unfoldable pub escape_rune : ℕ → Codes
escape_rune c =
    if eqb c backslash
    then backslash ∷ backslash ∷ []
    else if eqb c b';'
    then backslash ∷ b';' ∷ []
    else if eqb c b','
    then backslash ∷ b',' ∷ []
    else if eqb c cr || eqb c lf
    then backslash ∷ b'n' ∷ []
    else c ∷ []

-- The pair CR LF is one match: the flag says that a CR stands before, so a LF adds nothing.
unfoldable pub escape_from : Bool → Codes → Codes
unfolding escape_rune
escape_from paired [] = []
escape_from paired (c ∷ cs) =
    (if paired && eqb c lf then [] else escape_rune c) ++ escape_from (eqb c cr) cs

-- escape
unfoldable pub escape : Codes → Codes
unfolding escape_from
escape s = escape_from false s

-- status
abbrev pub status_word : EventStatus → String
status_word confirmed = "CONFIRMED"
status_word cancelled = "CANCELLED"
status_word scheduled = "TENTATIVE"

abbrev pub stamp_fmt : String
stamp_fmt = "20060102T150405Z"

unfoldable pub stamped : Env → String → ℕ → Codes
stamped env name t = codes name ++ codes (env.format_time stamp_fmt t)

-- The arguments of the calls of `line` for one event.
unfoldable pub event_lines : Env → ℕ → Event → List Codes
unfolding stamped
event_lines env now e =
    codes "BEGIN:VEVENT"
    ∷ (codes "UID:" ++ (codes e.id ++ codes "@stattii"))
    ∷ stamped env "DTSTAMP:" now
    ∷ stamped env "DTSTART:" e.starts_at
    ∷ ((if is_zero e.ends_at then [] else stamped env "DTEND:" e.ends_at ∷ [])
        ++ (codes "SUMMARY:" ++ escape (codes e.title))
          ∷ (codes "SEQUENCE:" ++ codes (env.format_number e.seq))
          ∷ (codes "STATUS:" ++ codes (status_word e.status))
          ∷ codes "END:VEVENT"
          ∷ [])

unfoldable pub all_event_lines : Env → ℕ → List Event → List Codes
unfolding event_lines
all_event_lines env now [] = []
all_event_lines env now (e ∷ rest) = event_lines env now e ++ all_event_lines env now rest

abbrev pub calendar_name : String → List Codes
calendar_name name = if name == "" then [] else (codes "X-WR-CALNAME:" ++ escape (codes name)) ∷ []

unfoldable pub feed_lines : Env → String → List Event → ℕ → List Codes
unfolding all_event_lines
feed_lines env name events now =
    codes "BEGIN:VCALENDAR"
    ∷ codes "VERSION:2.0"
    ∷ codes "PRODID:-//stattii//stattii//EN"
    ∷ codes "CALSCALE:GREGORIAN"
    ∷ (calendar_name name ++ (all_event_lines env now events ++ codes "END:VCALENDAR" ∷ []))

unfoldable pub write_lines : List Codes → Codes
unfolding line
write_lines [] = []
write_lines (s ∷ rest) = line s ++ write_lines rest

-- Feed
unfoldable pub feed : Env → String → List Event → ℕ → Codes
unfolding feed_lines write_lines
feed env name events now = write_lines (feed_lines env name events now)
