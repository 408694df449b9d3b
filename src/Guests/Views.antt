-- ===== src/Guests/Views.antt =====
-- Invite and RemoveGuest of internal/core/invite.go.

use stattii.Base.{
  Bool, List, Option, Result, String, [], any_of, count_where, err, false, find_last, if◌then◌else◌,
  map, none, not, not_found, ok, remove_first, some, sort_by, true, ℕ, ◌&&◌, ◌==◌, ◌∷◌,
}
use stattii.Guests.Invites.{active_invite_locked, invite_url, is_coming, is_declined}
use stattii.Guests.Rsvp.{map_guests}
use stattii.Links.{is_none}
use stattii.Model.{Guest, InviteLink, OutboxItem, Purpose, event, guests_for, is_propagation}
use stattii.Service.{Config, OutboxState, Service, audit_locked, outbox_state, save_locked, text}

pub record GuestView : Type 0 where
  pub guest : Guest
  pub last_notice : Option Purpose
  pub notice_state : Option OutboxState

pub record InviteStatus : Type 0 where
  pub event_id : String
  pub url : String
  pub active : Bool
  pub yes_count : ℕ
  pub no_count : ℕ
  pub guests : List GuestView

-- A propagation message of this event to this guest.
abbrev pub is_notice_to : String → String → OutboxItem → Bool
is_notice_to event_id guest_id o =
    not (o.guest_id == "")
    && o.event_id == event_id
    && is_propagation o.purpose
    && o.guest_id == guest_id

unfoldable pub guest_view : Config → Option OutboxItem → Guest → GuestView
unfolding outbox_state
guest_view cfg none g = record { guest = g; last_notice = none; notice_state = none }
guest_view cfg (some o) g = record {
  guest = g;
  last_notice = some o.purpose;
  notice_state = some (outbox_state cfg o);
}

abbrev pub guest_views : String → Service → List GuestView
guest_views event_id w =
    map (λ g. guest_view w.cfg (find_last (is_notice_to event_id g.id) w.outbox) g)
      (guests_for w.tables event_id)

unfoldable pub invite_status : String → Option InviteLink → Service → InviteStatus
unfolding sort_by guest_view
invite_status event_id opened w = record {
  event_id = event_id;
  url = elim opened [ none ↦ "" | some l ↦ invite_url w l.token ];
  active = elim opened [ none ↦ false | some _ ↦ true ];
  yes_count = count_where is_coming (guests_for w.tables event_id);
  no_count = count_where is_declined (guests_for w.tables event_id);
  guests = sort_by (λ v. v.guest.created_at) (guest_views event_id w);
}

-- Invite
unfoldable pub invite : String → Service → Result InviteStatus
unfolding invite_status
invite event_id w =
    if is_none (event w.tables event_id)
    then err not_found
    else ok (invite_status event_id (active_invite_locked event_id w) w)

abbrev pub is_guest_of : String → String → Guest → Bool
is_guest_of event_id guest_id g = g.id == guest_id && g.event_id == event_id

-- RemoveGuest
unfoldable pub remove_guest : String → String → Service → Result (Unit {0}) × Service
remove_guest event_id guest_id w =
    if any_of (is_guest_of event_id guest_id) w.tables.guests
    then (
      ok tt,
      save_locked (
          audit_locked "guest.removed"
            (("event_id", text event_id) ∷ ("guest_id", text guest_id) ∷ [])
            (map_guests (remove_first (is_guest_of event_id guest_id)) w)),
    )
    else (err not_found, w)
