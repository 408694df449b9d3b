-- ===== src/Feed/Lines.antt =====
-- `Feed` of internal/ics/ics.go as the importer reads it: its content lines and their lengths.

use stattii.Base.{
  All, All-append, Bool, Bool-cases, List, Option, String, [], ap, arith, codes, false,
  if◌then◌else◌, inl, inr, ltb, none, not, refl, some, true, ℕ, ◌++◌, ◌+◌, ◌==◌, ◌∙◌, ◌∷◌, ◌≡◌, ◌≤◌,
}
use stattii.Feed.Defs.{
  Codes, all_event_lines, calendar_name, escape, event_lines, feed, feed_lines, fold_runes, line,
  rune_len, stamp_fmt, stamped, status_word, write_lines,
}
use stattii.Feed.Escaping.{IsPlain, escape-IsPlain}
use stattii.Feed.Folding.{
  WithinLimit, continues_line, emitted, gather_first, gathered, octets-fold_runes, physical,
}
use stattii.Feed.Reader.{line_octets, octets_from}
use stattii.Model.{Event, EventStatus, cancelled, confirmed, is_zero, scheduled}
use stattii.Recurrence.{gather, replace_crlf, split_lines, unfold_lines}
use stattii.Service.{Env}

abbrev starts_line : Codes → Bool
starts_line [] = false
starts_line (c ∷ cs) = not (continues_line c)

-- A content line that a reader can tell from its neighbours.
abbrev pub IsContent : Codes → Type 0
IsContent s = (starts_line s ≡ true) × All IsPlain s

rune_len-lt : (c : ℕ) → ltb 74 (0 + rune_len c) ≡ false
unfolding rune_len
rune_len-lt c = ground arith

gather-write_lines :
    (before : Option Codes) (ss : List Codes)
    → All IsContent ss
    → gathered before (physical [] (write_lines ss)) ≡ emitted before ss
unfolding write_lines line fold_runes gather split_lines replace_crlf
gather-write_lines none [] h = refl
gather-write_lines (some p) [] h = refl
gather-write_lines before ([] ∷ rest) h = cc
gather-write_lines before ((c ∷ cs) ∷ rest) h =
    let letter : continues_line c ≡ false = ground (arith, h.0.0) in
    rw (rune_len-lt c, h.0.1.0.0, h.0.1.0.1)
      (gather_first (0 + rune_len c) before c [] cs (write_lines rest) letter h.0.1.1
        ∙ ap (emitted before) (gather-write_lines (some (c ∷ cs)) rest h.1))

octets-write_lines :
    (ss : List Codes) → All IsContent ss → WithinLimit (octets_from 0 (write_lines ss))
unfolding write_lines line octets_from
octets-write_lines [] h = (omega arith, tt)
octets-write_lines (s ∷ rest) h =
    octets-fold_runes 0 s (write_lines rest) (omega arith) h.0.1 (octets-write_lines rest h.1)

IsContent-append : (p x : Codes) → IsContent p → All IsPlain x → IsContent (p ++ x)
IsContent-append [] x h k = cc h.0
IsContent-append (c ∷ cs) x h k = (h.0, All-append IsPlain (c ∷ cs) x h.1 k)

IsPlain-status : (s : EventStatus) → All IsPlain (codes (status_word s))
IsPlain-status confirmed = ground arith
IsPlain-status cancelled = ground arith
IsPlain-status scheduled = ground arith

-- The texts that the feed takes from outside hold no line break: formatted times and numbers, and
-- the ids that NewID draws.
module _ (env : Env) (times : (t : ℕ) → All IsPlain (codes (env.format_time stamp_fmt t)))
    (numbers : (n : ℕ) → All IsPlain (codes (env.format_number n))) where
  end-IsContent : (t : ℕ) → All IsContent (if is_zero t then [] else stamped env "DTEND:" t ∷ [])
  unfolding stamped
  end-IsContent t = elim (Bool-cases (is_zero t)) [
    | inl e ↦ rw e tt
    | inr e ↦ rw e (IsContent-append (codes "DTEND:") _ (ground arith) (times t), tt)
  ]

  abbrev tail_lines : Event → List Codes
  tail_lines e =
      (codes "SUMMARY:" ++ escape (codes e.title))
      ∷ (codes "SEQUENCE:" ++ codes (env.format_number e.seq))
      ∷ (codes "STATUS:" ++ codes (status_word e.status))
      ∷ codes "END:VEVENT"
      ∷ []

  event_lines-IsContent :
      (now : ℕ) (e : Event) → All IsPlain (codes e.id) → All IsContent (event_lines env now e)
  unfolding event_lines stamped
  event_lines-IsContent now e h =
      let id : All IsPlain (codes e.id ++ codes "@stattii") =
        All-append IsPlain (codes e.id) (codes "@stattii") h (ground arith) in
      let rest : All IsContent (tail_lines e) = (
        IsContent-append (codes "SUMMARY:") _ (ground arith) (escape-IsPlain (codes e.title)),
        (
          IsContent-append (codes "SEQUENCE:") _ (ground arith) (numbers e.seq),
          (
            IsContent-append (codes "STATUS:") _ (ground arith) (IsPlain-status e.status),
            (ground arith, tt),
          ),
        ),
      ) in
      (
        ground arith,
        (
          IsContent-append (codes "UID:") _ (ground arith) id,
          (
            IsContent-append (codes "DTSTAMP:") _ (ground arith) (times now),
            (
              IsContent-append (codes "DTSTART:") _ (ground arith) (times e.starts_at),
              All-append IsContent
                  (if is_zero e.ends_at then [] else stamped env "DTEND:" e.ends_at ∷ [])
                  (tail_lines e) (end-IsContent e.ends_at) rest,
            ),
          ),
        ),
      )

  all_event_lines-IsContent :
      (now : ℕ) (events : List Event)
      → All (λ e. All IsPlain (codes e.id)) events
      → All IsContent (all_event_lines env now events)
  unfolding all_event_lines
  all_event_lines-IsContent now [] h = tt
  all_event_lines-IsContent now (e ∷ rest) h =
      All-append IsContent (event_lines env now e) _ (event_lines-IsContent now e h.0)
        (all_event_lines-IsContent now rest h.1)

  calendar_name-IsContent : (name : String) → All IsContent (calendar_name name)
  calendar_name-IsContent name = elim (Bool-cases (name == "")) [
    | inl e ↦ rw e tt
    | inr e ↦ rw e (
      IsContent-append (codes "X-WR-CALNAME:") _ (ground arith) (escape-IsPlain (codes name)),
      tt,
    )
  ]

  feed_lines-IsContent :
      (name : String) (events : List Event) (now : ℕ)
      → All (λ e. All IsPlain (codes e.id)) events
      → All IsContent (feed_lines env name events now)
  unfolding feed_lines
  feed_lines-IsContent name events now h =
      let last : All IsContent (codes "END:VCALENDAR" ∷ []) = (ground arith, tt) in
      let body =
        All-append IsContent (all_event_lines env now events) _
          (all_event_lines-IsContent now events h) last in
      (
        ground arith,
        (
          ground arith,
          (
            ground arith,
            (
              ground arith,
              All-append IsContent (calendar_name name) _ (calendar_name-IsContent name) body,
            ),
          ),
        ),
      )

  -- Where formatted times and numbers and the ids of the events hold no line break, the importer's
  -- unfold reads the feed back as exactly the lines that Feed hands to `line`, in their order,
  -- whatever the titles and the calendar's name hold.
  pub unfold_lines-feed :
      (name : String) (events : List Event) (now : ℕ)
      → All (λ e. All IsPlain (codes e.id)) events
      → unfold_lines (λ n. n) (feed env name events now) ≡ feed_lines env name events now
  unfolding feed unfold_lines
  unfold_lines-feed name events now h =
      gather-write_lines none (feed_lines env name events now)
        (feed_lines-IsContent name events now h)

  -- Where formatted times and numbers and the ids of the events hold no line break, no physical
  -- line of the feed is longer than 74 octets, its end not counted.
  pub octets-feed-le :
      (name : String) (events : List Event) (now : ℕ)
      → All (λ e. All IsPlain (codes e.id)) events
      → All (λ n. n ≤ 74) (line_octets (feed env name events now))
  unfolding feed line_octets
  octets-feed-le name events now h =
      octets-write_lines (feed_lines env name events now) (feed_lines-IsContent name events now h)
