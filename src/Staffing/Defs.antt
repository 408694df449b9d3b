-- ===== src/Staffing/Defs.antt =====
-- Unassign, unassignLocked, UnassignSeries and PatchChannels of internal/core/people.go.

use stattii.Base.{
  Bool, List, Option, Result, String, [], any_of, count_where, eqb, err, false, if◌then◌else◌, ltb,
  message, none, not, not_found, ok, reject, remove_first, some, trim_space, true, ℕ, ◌&&◌, ◌++◌,
  ◌+◌, ◌==◌, ◌∷◌,
}
use stattii.Links.{is_none, revoke_links_locked}
use stattii.Model.{
  Address, Assignment, Event, Response, SeriesAssignment, event, is_cancelled, is_confirm, person,
  response_for,
}
use stattii.Service.{Service, audit_locked, flag, number, save_locked, text}

abbrev pub is_assignment : String → String → Assignment → Bool
is_assignment event_id person_id a = a.event_id == event_id && a.person_id == person_id

abbrev pub drop_assignment : String → String → Service → Service
drop_assignment event_id person_id w = record w {
  tables = record w.tables {
    assignments = remove_first (is_assignment event_id person_id) w.tables.assignments;
  };
}

abbrev pub confirmed_by : Option Response → Bool
confirmed_by none = false
confirmed_by (some r) = is_confirm r.action

-- unassignLocked
unfoldable pub unassign_locked : String → String → Service → Bool × Service
unfolding revoke_links_locked
unassign_locked event_id person_id w =
    if any_of (is_assignment event_id person_id) w.tables.assignments
    then (let (revoked, w1) =
          revoke_links_locked event_id person_id (drop_assignment event_id person_id w) in
        (
          true,
          audit_locked "unassigned"
              (("event_id", text event_id)
                ∷ ("person_id", text person_id)
                ∷ ("links_revoked", number revoked)
                ∷ ("was_confirmer", flag (confirmed_by (response_for w1.tables event_id person_id)))
                ∷ [])
              w1,
        ))
    else (false, w)

unfoldable pub unassign_done : Bool × Service → Result (Unit {0}) × Service
unassign_done (true, w) = (ok tt, save_locked w)
unassign_done (false, w) = (err not_found, w)

-- Unassign
unfoldable pub unassign : String → String → Service → Result (Unit {0}) × Service
unfolding unassign_locked unassign_done
unassign event_id person_id w = unassign_done (unassign_locked event_id person_id w)

-- A future occurrence of the series that is not cancelled.
abbrev pub is_upcoming : String → ℕ → Event → Bool
is_upcoming source_uid now e =
    e.source_uid == source_uid && not (is_cancelled e.status) && ltb now e.starts_at

unfoldable pub unassign_each : String → String → ℕ → List Event → ℕ → Service → ℕ × Service
unfolding unassign_locked
unassign_each source_uid person_id now [] n w = (n, w)
unassign_each source_uid person_id now (e ∷ rest) n w =
    if is_upcoming source_uid now e
    then (let (hit, w1) = unassign_locked e.id person_id w in
        unassign_each source_uid person_id now rest (if hit then n + 1 else n) w1)
    else unassign_each source_uid person_id now rest n w

abbrev pub is_series_row : String → String → SeriesAssignment → Bool
is_series_row source_uid person_id s = s.source_uid == source_uid && s.person_id == person_id

abbrev pub drop_series_rows : String → String → Service → Service
drop_series_rows source_uid person_id w = record w {
  tables = record w.tables {
    series_assignments = reject (is_series_row source_uid person_id) w.tables.series_assignments;
  };
}

-- UnassignSeries; where no row and no assignment matched, the state is what it was.
unfoldable pub unassign_series : String → String → Service → Result ℕ × Service
unfolding unassign_each
unassign_series source_uid person_id w =
    if source_uid == ""
    then (err (message "missing source_uid"), w)
    else (let rows = count_where (is_series_row source_uid person_id) w.tables.series_assignments in
        let (n, w1) =
          unassign_each source_uid person_id w.now w.tables.events 0
            (drop_series_rows source_uid person_id w) in
        if eqb rows 0 && eqb n 0 then (err not_found, w1) else (
          ok n,
          save_locked (
              audit_locked "series.unassigned"
                (("source_uid", text source_uid)
                  ∷ ("person_id", text person_id)
                  ∷ ("events", number n)
                  ∷ [])
                w1),
        ))

-- The first e-mail and the first telegram entry, and the others in their order.
pub record Slots : Type 0 where
  pub email : Option String
  pub telegram : Option String
  pub others : List Address

abbrev pub is_free : Option String → Bool
is_free none = true
is_free (some _) = false

unfoldable pub slot_row : Address → Slots → Slots
slot_row ch s =
    if ch.kind == "email" && is_free s.email
    then record s { email = some ch.to }
    else if ch.kind == "telegram" && is_free s.telegram
    then record s { telegram = some ch.to }
    else record s { others = s.others ++ ch ∷ [] }

unfoldable pub fill_slots : List Address → Slots → Slots
unfolding slot_row
fill_slots [] s = s
fill_slots (ch ∷ rest) s = fill_slots rest (slot_row ch s)

abbrev pub text_or_empty : Option String → String
text_or_empty none = ""
text_or_empty (some s) = s

-- A slot after the patch: none keeps it.
abbrev pub patched : Option String → Option String → String
patched none slot = text_or_empty slot
patched (some s) slot = trim_space s

abbrev pub slot_rows : String → String → List Address
slot_rows kind to = if to == "" then [] else record { kind = kind; to = to } ∷ []

-- PatchChannels
unfoldable pub patch_channels : List Address → Option String → Option String → List Address
unfolding fill_slots
patch_channels existing email telegram =
    let s = fill_slots existing (record { email = none; telegram = none; others = [] }) in
    slot_rows "email" (patched email s.email)
    ++ (slot_rows "telegram" (patched telegram s.telegram) ++ s.others)

-- assignLocked of service.go
unfoldable pub assign_locked : String → String → String → Service → Bool × Service
assign_locked event_id person_id role w =
    if any_of (is_assignment event_id person_id) w.tables.assignments then (false, w) else (
      true,
      audit_locked "assigned"
          (("event_id", text event_id) ∷ ("person_id", text person_id) ∷ ("role", text role) ∷ [])
          (record w {
            tables = record w.tables {
              assignments =
                  w.tables.assignments
                  ++ record { event_id = event_id; person_id = person_id; role = role } ∷ [];
            };
          }),
    )

-- Assign; the id that its error wraps is not modelled.
unfoldable pub assign : String → String → String → Service → Result (Unit {0}) × Service
unfolding assign_locked
assign event_id person_id role w =
    if is_none (event w.tables event_id)
    then (err not_found, w)
    else if is_none (person w.tables person_id)
    then (err not_found, w)
    else (let (added, w1) = assign_locked event_id person_id role w in
        (ok tt, if added then save_locked w1 else w1))
