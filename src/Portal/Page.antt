-- ===== src/Portal/Page.antt =====
-- Portal of internal/core/portal.go: what a person sees. sort.Slice keeps the order of equal starts.

use stattii.Base.{
  Bool, List, Option, Result, String, err, false, ltb, map, none, not_found, ok, reject, some,
  sort_by, true,
}
use stattii.Links.{event_expiry}
use stattii.Model.{Event, Person, Response, TrustLevel, direct, events_for, propose, response_for}
use stattii.Portal.Changing.{person_by_portal_locked}
use stattii.Service.{Service}

pub record PortalItem : Type 0 where
  pub event : Event
  pub response : Option Response

pub record PortalView : Type 0 where
  pub person : Person
  pub can_propose : Bool
  pub direct_changes : Bool
  pub items : List PortalItem

abbrev pub is_direct : TrustLevel → Bool
is_direct direct = true
is_direct _ = false

abbrev pub may_propose : TrustLevel → Bool
may_propose propose = true
may_propose direct = true
may_propose _ = false

unfoldable pub portal_items : Person → Service → List PortalItem
portal_items p w =
    map (λ (e : Event). record { event = e; response = response_for w.tables e.id p.id })
      (reject (λ e. ltb (event_expiry e) w.now) (events_for w.tables p.id))

unfoldable pub portal_of : Option Person → Service → Result PortalView
unfolding portal_items sort_by
portal_of none w = err not_found
portal_of (some p) w = ok (record {
  person = p;
  can_propose = may_propose p.trust;
  direct_changes = is_direct p.trust;
  items = sort_by (λ (i : PortalItem). i.event.starts_at) (portal_items p w);
})

-- Portal
unfoldable pub portal : String → Service → Result PortalView
unfolding portal_of
portal token w = portal_of (person_by_portal_locked token w.tables) w
