-- ===== src/Settings.antt =====
-- Config.validate and Config.fill of internal/core/service.go. A duration of zero is unset, and no
-- duration is negative.

use stattii.Base.{
  Bool, Char, List, Result, String, [], chars, code, concat, eqb, err, if◌then◌else◌, leb, ltb,
  message, not, of_chars, ok, reverse, ℕ, ◌&&◌, ◌*◌, ◌+◌, ◌==◌, ◌>>=◌, ◌||◌, ◌∷◌,
}
use stattii.Links.{hour}
use stattii.Scheduler.{confirm_grace}
use stattii.Service.{Config, Env}

-- time.Minute
abbrev pub one_minute : ℕ
one_minute = 60_000_000_000

abbrev pub min_fetch_every : ℕ
min_fetch_every = one_minute

-- The error of a calendar that is fetched by itself.
unfoldable pub check_fetch : Env → Config → Result (Unit {0})
check_fetch env c =
    if ltb 0 c.calendar_fetch_every && c.calendar_source == ""
    then err (message "calendar_fetch_every is set but calendar_source is empty — nothing to fetch")
    else if ltb 0 c.calendar_fetch_every && ltb c.calendar_fetch_every min_fetch_every
    then err (
        message (
          concat (
            "calendar_fetch_every "
            ∷ env.format_duration c.calendar_fetch_every
            ∷ " is below the minimum of "
            ∷ env.format_duration min_fetch_every
            ∷ [])))
    else ok tt

-- A nudge that could never fire.
abbrev pub is_idle_nudge : Config → Bool
is_idle_nudge c =
    not (eqb c.nudge_lead 0)
    && (leb c.reminder_lead c.nudge_lead || leb c.nudge_lead (c.deadline_lead + confirm_grace))

unfoldable pub check_nudge : Env → Config → Result (Unit {0})
check_nudge env c =
    if is_idle_nudge c
    then err (
        message (
          concat (
            "nudge_lead "
            ∷ env.format_duration c.nudge_lead
            ∷ " must lie between deadline_lead+"
            ∷ env.format_duration confirm_grace
            ∷ " ("
            ∷ env.format_duration (c.deadline_lead + confirm_grace)
            ∷ ") and reminder_lead ("
            ∷ env.format_duration c.reminder_lead
            ∷ ")"
            ∷ [])))
    else ok tt

-- Config.validate
unfoldable pub validate_config : Env → Config → Result (Unit {0})
unfolding check_fetch check_nudge
validate_config env c = check_fetch env c >>= (λ _. check_nudge env c)

abbrev pub or_default : ℕ → ℕ → ℕ
or_default n default = if eqb n 0 then default else n

abbrev pub drop_slashes : List Char → List Char
drop_slashes [] = []
drop_slashes (c ∷ cs) = let rest = drop_slashes cs in if eqb (code c) 47 then rest else c ∷ cs

-- strings.TrimRight(s, "/")
unfoldable pub trim_slashes : String → String
trim_slashes s = of_chars (reverse (drop_slashes (reverse (chars s))))

-- Config.fill
unfoldable pub fill_config : Config → Config
unfolding trim_slashes
fill_config c = record c {
  reminder_lead = or_default c.reminder_lead (48 * hour);
  deadline_lead = or_default c.deadline_lead (24 * hour);
  retry_delay = or_default c.retry_delay one_minute;
  max_attempts = or_default c.max_attempts 5;
  escalate_after = or_default c.escalate_after (10 * one_minute);
  outbox_retention = or_default c.outbox_retention (2160 * hour);
  calendar_window = or_default c.calendar_window (1440 * hour);
  base_url = trim_slashes c.base_url;
}
