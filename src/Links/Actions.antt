-- ===== src/Links/Actions.antt =====
-- ResolveAction and ApplyAction of internal/core/links.go.

use stattii.Base.{Option, Result, String, err, if◌then◌else◌, none, ok, some, ◌>>=◌}
use stattii.Lifecycle.{cancel_locked, confirm_locked}
use stattii.Links.Defs.{Resolved, lookup_link_locked}
use stattii.Model.{
  ActionKind, Event, Person, Response, Via, cancel, confirm, event, is_cancelled, link, other,
  person, response_for,
}
use stattii.Service.{Service, save_locked}

pub record ActionView : Type 0 where
  pub event : Event
  pub person : Person
  pub action : ActionKind
  pub decided : Option Response

-- `*e` through a pointer that was resolved before the call: the row that now has its place.
abbrev pub reread : Event → Option Event → Event
reread e none = e
reread e (some e') = e'

unfoldable pub action_view : Resolved → Service → ActionView
action_view r w = record {
  event = reread r.event (stattii.Model.event w.tables r.event.id);
  person = r.person;
  action = r.link.action;
  decided = response_for w.tables r.event.id r.person.id;
}

-- ResolveAction
unfoldable pub resolve_action : String → Service → Result ActionView
unfolding lookup_link_locked action_view
resolve_action token w = do r ← lookup_link_locked token w; ok (action_view r w)

-- `saveLocked` and the view after an action that succeeded.
unfoldable pub acted : Resolved → Result Event × Service → Result ActionView × Service
unfolding action_view
acted r (err e, w) = (err e, w)
acted r (ok _, w) = (let w' = save_locked w in (ok (action_view r w'), w'))

unfoldable pub apply_resolved :
    String → Resolved → ActionKind → Service → Result ActionView × Service
unfolding acted
apply_resolved reason r ActionKind.confirm w =
    acted r (confirm_locked r.event.id r.person.id Via.link w)
apply_resolved reason r ActionKind.cancel w =
    if is_cancelled r.event.status
    then acted r (ok r.event, w)
    else acted r (cancel_locked r.event.id r.person.id reason Via.link w)
apply_resolved reason r (ActionKind.other _) w = acted r (ok r.event, w)

unfoldable pub apply_found : String → Result Resolved → Service → Result ActionView × Service
unfolding apply_resolved
apply_found reason (err e) w = (err e, w)
apply_found reason (ok r) w = apply_resolved reason r r.link.action w

-- ApplyAction
unfoldable pub apply_action : String → String → Service → Result ActionView × Service
unfolding apply_found lookup_link_locked
apply_action token reason w = apply_found reason (lookup_link_locked token w) w
