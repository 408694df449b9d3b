-- ===== src/Poller/Presses.antt =====
-- telegramApply of cmd_serve.go joins the check of the presser to the action.

use stattii.Base.{
  Bool, Result, String, any_of, ap, err, false, ok, refl, subst, sym, true, ◌||◌, ◌∙◌, ◌≡◌,
}
use stattii.Links.{ActionView, Resolved, apply_action, lookup_link_locked, verify_telegram_actor}
use stattii.Links.Applying.{apply_action-Acknowledged}
use stattii.Links.Authority.{Judged, Verdict, is_own, is_shared, verify_telegram_actor-Verdict}
use stattii.Poller.Defs.{applied_result, apply_verified, telegram_apply}
use stattii.Service.{Service}
use stattii.Service.Health.Acknowledged.{Acknowledged}
use stattii.Service.Health.Durability.{Durable}

-- An error leaves the tables, and a press that is acknowledged was made over a live link by someone
-- whose telegram channel is the presser's, or is a chat that cannot be compared; the result is
-- durable.
abbrev pub Guarded : String → String → Service → Result String × Service → Type 0
Guarded token from_id w (err x, v) = v.tables ≡ w.tables
Guarded token from_id w (ok _, v) =
    (r : Resolved) × (lookup_link_locked token w ≡ ok r)
    × ((any_of (is_own from_id) r.person.channels || any_of is_shared r.person.channels) ≡ true)
    × Durable v

apply_action-Guarded :
    (token from_id : String) (r : Resolved) (w : Service) (acted : Result ActionView × Service)
    (v : Service)
    → lookup_link_locked token w ≡ ok r
    → (any_of (is_own from_id) r.person.channels || any_of is_shared r.person.channels) ≡ true
    → v.tables ≡ w.tables
    → Acknowledged v acted
    → Guarded token from_id w (applied_result acted)
unfolding applied_result
apply_action-Guarded token from_id r w (err x, u) v live allowed same a =
    ap (λ (s : Service). s.tables) a ∙ same
apply_action-Guarded token from_id r w (ok view, u) v live allowed same a = (r, live, allowed, a)

Judged-Guarded :
    (token from_id : String) (r : Resolved) (own shared : Bool) (w : Service)
    (checked : Result (Unit {0}) × Service)
    → lookup_link_locked token w ≡ ok r
    → (any_of (is_own from_id) r.person.channels || any_of is_shared r.person.channels)
      ≡ (own || shared)
    → Judged from_id r own shared w checked
    → Guarded token from_id w (apply_verified token checked)
unfolding apply_verified
Judged-Guarded token from_id r true shared w checked live allowed j =
    subst (λ c. Guarded token from_id w (apply_verified token c)) (sym j)
      (apply_action-Guarded token from_id r w (apply_action token "" w) w live allowed refl
        (apply_action-Acknowledged token "" w))
Judged-Guarded token from_id r false true w (ok _, v) live allowed j =
    apply_action-Guarded token from_id r w (apply_action token "" v) v live allowed j.1.tables
      (apply_action-Acknowledged token "" v)
Judged-Guarded token from_id r false true w (err x, v) live allowed j = j.1.tables
Judged-Guarded token from_id r false false w (ok _, v) live allowed j = absurd (let bad = j.0 in cc)
Judged-Guarded token from_id r false false w (err x, v) live allowed j = j.1.tables

Verdict-Guarded :
    (token from_id : String) (found : Result Resolved) (w : Service)
    (checked : Result (Unit {0}) × Service)
    → lookup_link_locked token w ≡ found
    → Verdict from_id found w checked
    → Guarded token from_id w (apply_verified token checked)
unfolding apply_verified
Verdict-Guarded token from_id (err e) w checked live j =
    subst (λ c. Guarded token from_id w (apply_verified token c)) (sym j) refl
Verdict-Guarded token from_id (ok r) w checked live j =
    Judged-Guarded token from_id r (any_of (is_own from_id) r.person.channels)
      (any_of is_shared r.person.channels) w checked live refl j

-- A press of a button, whoever makes it: a refused one leaves the tables as they were; one that is
-- acknowledged came over a live link from someone who has the person's telegram channel, where the
-- channels can be compared, and after it the disk holds the state or the failed save is on record.
pub telegram_apply-Guarded :
    (token from_id : String) (w : Service)
    → Guarded token from_id w (telegram_apply token from_id w)
unfolding telegram_apply
telegram_apply-Guarded token from_id w =
    Verdict-Guarded token from_id (lookup_link_locked token w) w
      (verify_telegram_actor token from_id w) refl (verify_telegram_actor-Verdict token from_id w)
