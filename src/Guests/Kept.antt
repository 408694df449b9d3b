-- ===== src/Guests/Kept.antt =====
-- RSVP of internal/core/invite.go, on the guest list: what an answer may change.

use stattii.Base.{
  Bool, Bool-cases, List, Option, Result, String, [], ap, arith, err, false, find_first, inl, inr,
  leb, length, none, ok, refl, some, true, update_first, ℕ, ◌++◌, ◌==◌, ◌∙◌, ◌∷◌, ◌≡◌,
}
use stattii.Guests.Invites.{lookup_invite_locked}
use stattii.Guests.Rsvp.{
  RsvpInput, answered_row, enlist, first_row, goes_by, max_guests_per_event, note_rsvp, renew, rsvp,
  rsvp_found, rsvp_resolved, rsvp_validated, validate_rsvp,
}
use stattii.Model.{Event, Guest, Tables, guests_for, is_cancelled}
use stattii.Service.{Service, new_id}
use stattii.Service.Frame.{audit-Emits, save-Emits}
use stattii.Service.Frame.Messages.{fire-Emits}

-- One guest before and after: an answer, a note and a first e-mail may be new.
pub record Kept (g g' : Guest) : Type 0 where
  pub id : g'.id ≡ g.id
  pub event_id : g'.event_id ≡ g.event_id
  pub name : g'.name ≡ g.name
  pub created_at : g'.created_at ≡ g.created_at
  pub email : (g.email == "") ≡ false → g'.email ≡ g.email

-- Row by row, with guests added at the end only.
abbrev pub AllKept : List Guest → List Guest → Type 0
AllKept [] gs' = Unit
AllKept (g ∷ gs) [] = ⊥
AllKept (g ∷ gs) (g' ∷ gs') = Kept g g' × AllKept gs gs'

Kept-refl : (g : Guest) → Kept g g
Kept-refl g = record {
  id = refl;
  event_id = refl;
  name = refl;
  created_at = refl;
  email = λ h. refl;
}

AllKept-append : (gs hs : List Guest) → AllKept gs (gs ++ hs)
AllKept-append [] hs = tt
AllKept-append (g ∷ gs) hs = (Kept-refl g, AllKept-append gs hs)

AllKept-refl : (gs : List Guest) → AllKept gs gs
AllKept-refl [] = tt
AllKept-refl (g ∷ gs) = (Kept-refl g, AllKept-refl gs)

answered_row-Kept : (i : RsvpInput) (now : ℕ) (g : Guest) → Kept g (answered_row i now g)
unfolding answered_row
answered_row-Kept i now g = record {
  id = refl;
  event_id = refl;
  name = refl;
  created_at = refl;
  email = λ h. ground arith;
}

update-AllKept :
    (p : Guest → Bool) (i : RsvpInput) (now : ℕ) (gs : List Guest)
    → AllKept gs (update_first p (answered_row i now) gs)
update-AllKept p i now [] = tt
update-AllKept p i now (g ∷ gs) = elim (Bool-cases (p g)) [
  | inl e ↦ rw e (answered_row-Kept i now g, AllKept-refl gs)
  | inr e ↦ rw e (Kept-refl g, update-AllKept p i now gs)
]

-- What follows the writes to the list leaves the tables alone.
pub note_rsvp-tables :
    (i : RsvpInput) (g : Guest) (is_new : Bool) (w : Service)
    → (note_rsvp i g is_new w).1.tables ≡ w.tables
unfolding note_rsvp
note_rsvp-tables i g is_new w =
    (save-Emits _).tables
    ∙ (fire-Emits "guest.rsvp" _ _).tables
    ∙ (audit-Emits "guest.rsvp" _ w).tables

pub enlist-guests :
    (i : RsvpInput) (e : Event) (w : Service)
    → (enlist i e w).1.tables.guests
      ≡ w.tables.guests ++ answered_row i w.now (first_row i e w) ∷ []
unfolding enlist new_id
enlist-guests i e w = ap (λ (t : Tables). t.guests) (note_rsvp-tables i (first_row i e w) true _)

pub renew-guests :
    (g : Guest) (i : RsvpInput) (e : Event) (w : Service)
    → (renew g i e w).1.tables.guests
      ≡ update_first (goes_by w.env e.id i.name) (answered_row i w.now) w.tables.guests
unfolding renew
renew-guests g i e w = ap (λ (t : Tables). t.guests) (note_rsvp-tables i g false _)

rsvp_found-AllKept :
    (found : Option Guest) (i : RsvpInput) (e : Event) (w : Service)
    → AllKept w.tables.guests (rsvp_found found i e w).1.tables.guests
unfolding rsvp_found
rsvp_found-AllKept (some g) i e w =
    rw (renew-guests g i e w) (update-AllKept (goes_by w.env e.id i.name) i w.now w.tables.guests)
rsvp_found-AllKept none i e w =
    elim (Bool-cases (leb max_guests_per_event (length (guests_for w.tables e.id)))) [
      | inl full ↦ rw (full, rsvp_found) (AllKept-refl w.tables.guests)
      | inr room ↦
          rw (room, rsvp_found) (rw (enlist-guests i e w) (AllKept-append w.tables.guests _))
    ]

rsvp_resolved-AllKept :
    (i : RsvpInput) (r : Result Event) (w : Service)
    → AllKept w.tables.guests (rsvp_resolved i r w).1.tables.guests
unfolding rsvp_resolved
rsvp_resolved-AllKept i (err x) w = AllKept-refl w.tables.guests
rsvp_resolved-AllKept i (ok e) w = elim (Bool-cases (is_cancelled e.status)) [
  | inl off ↦ rw (off, rsvp_resolved) (AllKept-refl w.tables.guests)
  | inr on ↦
      rw (on, rsvp_resolved)
        (rsvp_found-AllKept (find_first (goes_by w.env e.id i.name) w.tables.guests) i e w)
]

rsvp_validated-AllKept :
    (token : String) (r : Result RsvpInput) (w : Service)
    → AllKept w.tables.guests (rsvp_validated token r w).1.tables.guests
unfolding rsvp_validated
rsvp_validated-AllKept token (err x) w = AllKept-refl w.tables.guests
rsvp_validated-AllKept token (ok i) w = rsvp_resolved-AllKept i (lookup_invite_locked token w) w

-- Whoever holds the link and whatever they send: RSVP removes no guest, and leaves of every guest
-- the id, the event, the name and, where there is one, the e-mail address; a new guest comes last.
pub rsvp-AllKept :
    (token : String) (i : RsvpInput) (w : Service)
    → AllKept w.tables.guests (rsvp token i w).1.tables.guests
unfolding rsvp
rsvp-AllKept token i w = rsvp_validated-AllKept token (validate_rsvp w.env i) w
