-- ===== src/Guests/Cap.antt =====
-- The cap on the guest list of an event, in RSVP of internal/core/invite.go.

use stattii.Base.{
  Bool, Bool-cases, List, Option, Result, String, [], arith, eq_iff, err, false, find_first,
  if◌then◌else◌, inl, inr, leb, length, none, ok, refl, select, some, subst, sym, update_first, ℕ,
  ◌++◌, ◌+◌, ◌==◌, ◌∷◌, ◌≡◌, ◌≤◌,
}
use stattii.Guests.Invites.{lookup_invite_locked}
use stattii.Guests.Kept.{enlist-guests, renew-guests}
use stattii.Guests.Rsvp.{
  RsvpInput, answered_row, first_row, goes_by, max_guests_per_event, new_guest, rsvp, rsvp_found,
  rsvp_resolved, rsvp_validated, validate_rsvp,
}
use stattii.Model.{Event, Guest, guests_for, is_cancelled}
use stattii.Service.{Service}

-- The guests of one event.
abbrev pub guest_count : String → List Guest → ℕ
guest_count event_id gs = length (select (λ g. g.event_id == event_id) gs)

guest_count-update :
    (p : Guest → Bool) (i : RsvpInput) (now : ℕ) (event_id : String) (gs : List Guest)
    → guest_count event_id (update_first p (answered_row i now) gs) ≡ guest_count event_id gs
unfolding answered_row
guest_count-update p i now event_id [] = refl
guest_count-update p i now event_id (g ∷ gs) =
    ground (arith, guest_count-update p i now event_id gs)

guest_count-append :
    (event_id : String) (gs : List Guest) (g : Guest)
    → guest_count event_id (gs ++ g ∷ [])
      ≡ guest_count event_id gs + (if g.event_id == event_id then 1 else 0)
guest_count-append event_id [] g = ground arith
guest_count-append event_id (h ∷ hs) g = ground (arith, guest_count-append event_id hs g)

abbrev pub InCap : String → Service → Type 0
InCap event_id w = guest_count event_id w.tables.guests ≤ max_guests_per_event

module _ (event_id : String) where
  added :
      (i : RsvpInput) (e : Event) (w : Service)
      → InCap event_id w
      → leb max_guests_per_event (length (guests_for w.tables e.id)) ≡ false
      → guest_count event_id (w.tables.guests ++ answered_row i w.now (first_row i e w) ∷ [])
        ≤ max_guests_per_event
  unfolding answered_row first_row new_guest
  added i e w h room =
      rw (guest_count-append event_id w.tables.guests (answered_row i w.now (first_row i e w)))
        (elim (Bool-cases (e.id == event_id)) [
          | inl same ↦ rw same (
              subst
                (λ id.
                  leb max_guests_per_event (guest_count id w.tables.guests) ≡ false
                  → guest_count event_id w.tables.guests + 1 ≤ max_guests_per_event)
                (sym ((eq_iff e.id event_id).0 same)) (λ few. ground arith) room)
          | inr apart ↦ rw apart (omega arith)
        ])

  rsvp_found-InCap :
      (found : Option Guest) (i : RsvpInput) (e : Event) (w : Service)
      → InCap event_id w
      → InCap event_id (rsvp_found found i e w).1
  unfolding rsvp_found
  rsvp_found-InCap (some g) i e w h = rw (renew-guests g i e w) (
      omega
        (arith, guest_count-update (goes_by w.env e.id i.name) i w.now event_id w.tables.guests))
  rsvp_found-InCap none i e w h =
      elim (Bool-cases (leb max_guests_per_event (length (guests_for w.tables e.id)))) [
        | inl full ↦ rw (full, rsvp_found) h
        | inr room ↦ rw (room, rsvp_found) (rw (enlist-guests i e w) (added i e w h room))
      ]

  rsvp_resolved-InCap :
      (i : RsvpInput) (r : Result Event) (w : Service)
      → InCap event_id w
      → InCap event_id (rsvp_resolved i r w).1
  unfolding rsvp_resolved
  rsvp_resolved-InCap i (err x) w h = h
  rsvp_resolved-InCap i (ok e) w h = elim (Bool-cases (is_cancelled e.status)) [
    | inl off ↦ rw (off, rsvp_resolved) h
    | inr on ↦
        rw (on, rsvp_resolved)
          (rsvp_found-InCap (find_first (goes_by w.env e.id i.name) w.tables.guests) i e w h)
  ]

  rsvp_validated-InCap :
      (token : String) (r : Result RsvpInput) (w : Service)
      → InCap event_id w
      → InCap event_id (rsvp_validated token r w).1
  unfolding rsvp_validated
  rsvp_validated-InCap token (err x) w h = h
  rsvp_validated-InCap token (ok i) w h = rsvp_resolved-InCap i (lookup_invite_locked token w) w h

-- An event whose guest list holds no more than MaxGuestsPerEvent guests still holds no more after
-- RSVP, whatever is answered, to this or to another event.
pub rsvp-InCap :
    (event_id token : String) (i : RsvpInput) (w : Service)
    → guest_count event_id w.tables.guests ≤ max_guests_per_event
    → guest_count event_id (rsvp token i w).1.tables.guests ≤ max_guests_per_event
unfolding rsvp
rsvp-InCap event_id token i w h = rsvp_validated-InCap event_id token (validate_rsvp w.env i) w h
