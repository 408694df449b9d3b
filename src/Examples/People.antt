-- ===== src/Examples/People.antt =====
-- Runs of the theorems on links, deletions and unassignments on the demo service.

use stattii.Base.{[], arith, err, false, none, not_found, ok, refl, some, ◌∷◌, ◌≡◌, ◌≤◌}
use stattii.Deletion.{delete_event, delete_person}
use stattii.Deletion.Erasure.{EventDeletion, delete_event-EventDeletion}
use stattii.Deletion.Persons.{PersonDeletion, delete_person-PersonDeletion}
use stattii.Examples.Fixtures.{
  ada, called_off, demo, demo-NamedTxns, demo_tables, meeting, other_link,
}
use stattii.Links.{
  Resolved, apply_action, in_scope, is_positive, is_positive_signed, is_private_chat_id,
  lookup_link_locked, resolve_link, resolve_rows, revoke_links_locked, verify_telegram_actor,
}
use stattii.Links.Applying.{apply_action-Acknowledged}
use stattii.Links.Authority.{Verdict, verify_telegram_actor-Verdict}
use stattii.Links.Revocation.{Valid, lookup_link-Valid, revoked_link_dead}
use stattii.Model.{ChangeKind}
use stattii.Onboarding.{
  bind_found, bind_person, bind_telegram, bind_token, is_rebound, may_bind, note_rebound,
  with_telegram,
}
use stattii.Onboarding.Binding.{Bound, bind_telegram-Bound}
use stattii.Portal.{max_open_proposals, open_proposals}
use stattii.Portal.Requests.{serve, serve-InBudget, submit}
use stattii.Registry.{PersonUpdate, update_person}
use stattii.Registry.Patching.{Patching, update_person-Patching}
use stattii.Service.{Service, audit_fuel, audit_locked, audited, enqueue_locked, save_locked, saved}
use stattii.Service.Health.Acknowledged.{Acknowledged}
use stattii.Staffing.{unassign, unassign_done, unassign_locked}
use stattii.Staffing.Capabilities.{unassigned_link_dead}

abbrev later : Resolved
later = record { link = other_link; event = called_off; person = ada }

lookup_link-Valid_example : Valid "later" demo later
unfolding lookup_link_locked resolve_link resolve_rows
lookup_link-Valid_example = lookup_link-Valid "later" demo later refl

revoked_link_dead_example : in_scope "ev1" "" other_link ≡ false
unfolding lookup_link_locked resolve_link resolve_rows revoke_links_locked audit_locked audit_fuel
    audited
revoked_link_dead_example = revoked_link_dead "ev1" "" "later" demo later (λ h. absurd (cc)) refl

apply_action-Acknowledged_example : Acknowledged demo (apply_action "yes" "" demo)
apply_action-Acknowledged_example = apply_action-Acknowledged "yes" "" demo

delete_event-EventDeletion_example :
    EventDeletion (some meeting) "ev1" demo (delete_event "ev1" demo)
delete_event-EventDeletion_example = delete_event-EventDeletion "ev1" demo

delete_person-PersonDeletion_example : PersonDeletion (some ada) "p1" demo (delete_person "p1" demo)
delete_person-PersonDeletion_example = delete_person-PersonDeletion "p1" demo

unassigned_link_dead_example : in_scope "ev1" "p1" other_link ≡ false
unfolding lookup_link_locked resolve_link resolve_rows unassign unassign_locked unassign_done
    revoke_links_locked audit_locked audit_fuel audited save_locked saved
unassigned_link_dead_example =
    unassigned_link_dead "ev1" "p1" "later" demo later (λ h. absurd (cc)) refl refl

verify_telegram_actor-Verdict_example :
    Verdict "7" (ok later) demo (verify_telegram_actor "later" "7" demo)
unfolding lookup_link_locked resolve_link resolve_rows
verify_telegram_actor-Verdict_example = verify_telegram_actor-Verdict "later" "7" demo

-- A direct change through the portal files no proposal.
serve-InBudget_example :
    open_proposals "p1" (serve (submit "port" ChangeKind.move "ev1" "" "later" 2000 0) demo)
    ≤ max_open_proposals
serve-InBudget_example =
    serve-InBudget "p1" (submit "port" ChangeKind.move "ev1" "" "later" 2000 0) demo demo-NamedTxns
      (omega arith)

-- Ada's channels are replaced by one that can be used.
abbrev moved_in : PersonUpdate
moved_in = record {
  name = none;
  trust = none;
  channels = some (record { kind = "telegram"; to = "42" } ∷ []);
}

update_person-Patching_example : Patching "p1" demo (update_person "p1" moved_in demo)
update_person-Patching_example = update_person-Patching "p1" moved_in demo

-- The service while a link for Ada is out.
abbrev onboarded : Service
onboarded = record demo {
  tables = record demo_tables {
    telegram_onboardings =
        record { token = "tok"; person_id = "p1"; created_at = 50; expires_at = 500 } ∷ [];
  };
}

bind_telegram-Bound_example :
    Bound "tok" "42" "42" onboarded (bind_telegram "tok" "42" "42" onboarded)
bind_telegram-Bound_example = bind_telegram-Bound "tok" "42" "42" onboarded

-- A second /start with the same token is ignored.
second_start :
    (let v = (bind_telegram "tok" "42" "42" onboarded).1 in
      (bind_telegram "tok" "43" "43" v).0 ≡ err not_found)
unfolding bind_telegram bind_token bind_found may_bind is_private_chat_id is_positive_signed
    is_positive bind_person note_rebound with_telegram is_rebound enqueue_locked save_locked saved
    audit_locked audit_fuel audited
second_start = refl
