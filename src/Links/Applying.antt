-- ===== src/Links/Applying.antt =====
-- ApplyAction: what a POST on an action link does.

use stattii.Base.{Result, String, err, ok, refl}
use stattii.Lifecycle.Answers.{cancel_locked-Refuses, confirm_locked-Refuses}
use stattii.Links.Actions.{acted, apply_action, apply_found, apply_resolved}
use stattii.Links.Defs.{Resolved, lookup_link_locked}
use stattii.Model.{ActionKind, Event, Via, is_cancelled}
use stattii.Service.{Service}
use stattii.Service.Health.Acknowledged.{Acknowledged, Acknowledged-if, Refuses}
use stattii.Service.Health.Durability.{save-Durable}

acted-Acknowledged :
    (w : Service) (r : Resolved) (x : Result Event × Service)
    → Refuses w x
    → Acknowledged w (acted r x)
unfolding acted
acted-Acknowledged w r (ok e, v) h = save-Durable v
acted-Acknowledged w r (err e, v) h = h

apply_resolved-Acknowledged :
    (reason : String) (r : Resolved) (action : ActionKind) (w : Service)
    → Acknowledged w (apply_resolved reason r action w)
unfolding apply_resolved
apply_resolved-Acknowledged reason r ActionKind.confirm w =
    acted-Acknowledged w r _ (confirm_locked-Refuses r.event.id r.person.id Via.link w)
apply_resolved-Acknowledged reason r ActionKind.cancel w =
    Acknowledged-if (is_cancelled r.event.status) w (acted r (ok r.event, w)) _
      (acted-Acknowledged w r (ok r.event, w) tt)
      (acted-Acknowledged w r _ (cancel_locked-Refuses r.event.id r.person.id reason Via.link w))
apply_resolved-Acknowledged reason r (ActionKind.other _) w =
    acted-Acknowledged w r (ok r.event, w) tt

apply_found-Acknowledged :
    (reason : String) (found : Result Resolved) (w : Service)
    → Acknowledged w (apply_found reason found w)
unfolding apply_found
apply_found-Acknowledged reason (err e) w = refl
apply_found-Acknowledged reason (ok r) w = apply_resolved-Acknowledged reason r r.link.action w

-- A press that is refused changes nothing, and one that is acknowledged is durable.
pub apply_action-Acknowledged :
    (token reason : String) (w : Service) → Acknowledged w (apply_action token reason w)
unfolding apply_action
apply_action-Acknowledged token reason w =
    apply_found-Acknowledged reason (lookup_link_locked token w) w
