-- ===== src/Guests/Rsvp.antt =====
-- RSVPInput.Validate and RSVP of internal/core/invite.go.

use stattii.Base.{
  Bool, List, Option, Result, String, [], already_cancelled, chars, code, eqb, err, false,
  find_first, if◌then◌else◌, leb, length, ltb, map, message, none, not, of_chars, ok, one_line,
  some, space, trim_space, true, update_first, ℕ, ◌&&◌, ◌++◌, ◌==◌, ◌>>=◌, ◌||◌, ◌∷◌,
}
use stattii.Guests.Invites.{lookup_invite_locked}
use stattii.Model.{Event, Guest, GuestStatus, guests_for, is_cancelled, valid_answer}
use stattii.Scheduler.{parse_email}
use stattii.Service.{
  Env, Service, an_answer, audit_locked, fire_webhooks_locked, flag, new_id, of_fields, save_locked,
  text,
}

pub record RsvpInput : Type 0 where
  pub name : String
  pub email : String
  pub status : GuestStatus
  pub note : String

abbrev pub max_guests_per_event : ℕ
max_guests_per_event = 500

abbrev pub max_guest_name : ℕ
max_guest_name = 80

abbrev pub max_guest_note : ℕ
max_guest_note = 280

-- strings.Join(strings.Fields(s), " ")
unfoldable pub clean_name : String → String
unfolding one_line
clean_name s = of_chars (one_line s)

-- A CR or a LF becomes a space, and spaces at the ends go.
unfoldable pub clean_note : String → String
unfolding trim_space
clean_note s =
    trim_space
      (of_chars (map (λ c. if eqb (code c) 13 || eqb (code c) 10 then space else c) (chars s)))

-- The e-mail's check: an empty one is none.
unfoldable pub clean_email : Env → String → Result String
unfolding parse_email trim_space
clean_email env s = if trim_space s == "" then ok "" else elim (parse_email env (trim_space s)) [
  | none ↦ err (message "that email address does not look right")
  | some a ↦ ok a
]

unfoldable pub checked_rsvp : RsvpInput → String → Result RsvpInput
unfolding clean_note clean_name
checked_rsvp i email =
    if ltb max_guest_note (length (chars (clean_note i.note)))
    then err (message "the message can be at most 280 characters")
    else ok (record i { name = clean_name i.name; email = email; note = clean_note i.note })

-- RSVPInput.Validate: the normalised input, or the error.
unfoldable pub validate_rsvp : Env → RsvpInput → Result RsvpInput
unfolding checked_rsvp clean_email
validate_rsvp env i =
    if clean_name i.name == ""
    then err (message "your name is required")
    else if ltb max_guest_name (length (chars (clean_name i.name)))
    then err (message "the name can be at most 80 characters")
    else if not (valid_answer i.status)
    then err (message "the answer must be \"yes\" or \"no\"")
    else clean_email env i.email >>= checked_rsvp i

abbrev pub email_conflict : Env → String → String → Bool
email_conflict env given stored =
    not (given == "") && not (stored == "") && not (env.equal_fold given stored)

abbrev pub email_set : String → String → Bool
email_set given stored = not (given == "") && stored == ""

-- The writes to the guest's row.
unfoldable pub answered_row : RsvpInput → ℕ → Guest → Guest
answered_row i now g = record g {
  email = if email_set i.email g.email then i.email else g.email;
  status = i.status;
  note = i.note;
  updated_at = now;
}

unfoldable pub new_guest : String → String → String → ℕ → Guest
new_guest id event_id name now = record {
  id = id;
  event_id = event_id;
  name = name;
  email = "";
  status = GuestStatus.other "";
  note = "";
  created_at = now;
  updated_at = 0;
}

abbrev pub map_guests : (List Guest → List Guest) → Service → Service
map_guests f w = record w { tables = record w.tables { guests = f w.tables.guests } }

-- The audit line, the webhook and the save; `g` is the row before the answer.
unfoldable pub note_rsvp : RsvpInput → Guest → Bool → Service → Guest × Service
unfolding answered_row
note_rsvp i g is_new w =
    let g' = answered_row i w.now g in
    let w1 =
      audit_locked "guest.rsvp"
        (("event_id", text g.event_id)
          ∷ ("guest_id", text g.id)
          ∷ ("status", an_answer g'.status)
          ∷ ("new", flag is_new)
          ∷ ("email_set", flag (email_set i.email g.email))
          ∷ ("email_conflict", flag (email_conflict w.env i.email g.email))
          ∷ [])
        w in
    let w2 =
      fire_webhooks_locked "guest.rsvp"
        (of_fields (
          ("event_id", text g.event_id)
          ∷ ("guest_id", text g.id)
          ∷ ("status", an_answer g'.status)
          ∷ ("new", flag is_new)
          ∷ []))
        w1 in
    (g', save_locked w2)

-- The guest of this event that goes by a name.
abbrev pub goes_by : Env → String → String → Guest → Bool
goes_by env event_id name g = g.event_id == event_id && env.equal_fold g.name name

-- The row that a first answer adds.
unfoldable pub first_row : RsvpInput → Event → Service → Guest
unfolding new_guest
first_row i e w = new_guest (w.env.new_id "gu" w.drawn) e.id i.name w.now

-- A first answer.
unfoldable pub enlist : RsvpInput → Event → Service → Guest × Service
unfolding note_rsvp answered_row first_row new_id
enlist i e w =
    let (id, w1) = new_id "gu" w in
    note_rsvp i (first_row i e w) true
      (map_guests (λ gs. gs ++ answered_row i w1.now (first_row i e w) ∷ []) w1)

-- A later answer under the same name.
unfoldable pub renew : Guest → RsvpInput → Event → Service → Guest × Service
unfolding note_rsvp answered_row
renew g i e w =
    note_rsvp i g false
      (map_guests (update_first (goes_by w.env e.id i.name) (answered_row i w.now)) w)

unfoldable pub rsvp_found : Option Guest → RsvpInput → Event → Service → Result Guest × Service
unfolding renew enlist
rsvp_found (some g) i e w = let (g', w1) = renew g i e w in (ok g', w1)
rsvp_found none i e w =
    if leb max_guests_per_event (length (guests_for w.tables e.id))
    then (err (message "the guest list is full — please contact the host directly"), w)
    else (let (g', w1) = enlist i e w in (ok g', w1))

unfoldable pub rsvp_resolved : RsvpInput → Result Event → Service → Result Guest × Service
unfolding rsvp_found
rsvp_resolved i (err x) w = (err x, w)
rsvp_resolved i (ok e) w =
    if is_cancelled e.status
    then (err already_cancelled, w)
    else rsvp_found (find_first (goes_by w.env e.id i.name) w.tables.guests) i e w

unfoldable pub rsvp_validated : String → Result RsvpInput → Service → Result Guest × Service
unfolding rsvp_resolved
rsvp_validated token (err x) w = (err x, w)
rsvp_validated token (ok i) w = rsvp_resolved i (lookup_invite_locked token w) w

-- RSVP
unfoldable pub rsvp : String → RsvpInput → Service → Result Guest × Service
unfolding rsvp_validated validate_rsvp
rsvp token i w = rsvp_validated token (validate_rsvp w.env i) w
