-- ===== src/Portal/Filing.antt =====
-- fileProposalLocked of internal/core/portal.go and ProposeMoveViaLink of links.go.

use stattii.Base.{
  Bool, Result, String, [], concat, count_where, err, false, if◌then◌else◌, leb, message, ok,
  proposal_budget, ℕ, ◌&&◌, ◌++◌, ◌==◌, ◌∷◌,
}
use stattii.Links.{Resolved, lookup_link_locked}
use stattii.Model.{ChangeKind, Proposal, Via, is_zero}
use stattii.Service.{
  Fields, Service, a_via, audit_locked, fire_webhooks_locked, new_id, notify_admin_locked,
  of_proposal, save_locked, text, when,
}

-- MaxOpenProposalsPerPerson
abbrev pub max_open_proposals : ℕ
max_open_proposals = 10

abbrev pub is_open : String → Proposal → Bool
is_open person_id p = p.person_id == person_id && is_zero p.decided_at

abbrev pub open_proposals : String → Service → ℕ
open_proposals person_id w = count_where (is_open person_id) w.tables.proposals

abbrev pub add_proposal : Proposal → Service → Service
add_proposal p w = record w {
  tables = record w.tables { proposals = w.tables.proposals ++ p ∷ [] };
}

abbrev pub kind_text : ChangeKind → String
kind_text ChangeKind.cancel = "cancel"
kind_text ChangeKind.move = "move"
kind_text ChangeKind.create = "create"
kind_text (ChangeKind.other s) = s

abbrev pub created_fields : Proposal → Via → Fields
created_fields p via =
    ("proposal_id", text p.id)
    ∷ ("person_id", text p.person_id)
    ∷ ("kind", text (kind_text p.kind))
    ∷ ("event_id", text p.event_id)
    ∷ ("via", a_via via)
    ∷ []

-- What follows the record of a proposal.
unfoldable pub announce_proposal : Proposal → String → Via → String → Service → Service
announce_proposal p name via body w = save_locked (
    notify_admin_locked (concat ("Proposal from " ∷ name ∷ [])) body (
      fire_webhooks_locked "proposal.created" (of_proposal p)
        (audit_locked "proposal.created" (created_fields p via) w)))

-- fileProposalLocked
unfoldable pub file_proposal_locked :
    Proposal → String → Via → String → Service → Result Proposal × Service
unfolding new_id announce_proposal
file_proposal_locked draft name via body w =
    if leb max_open_proposals (open_proposals draft.person_id w)
    then (err proposal_budget, w)
    else (let (id, w1) = new_id "pr" w in
        let p = record draft { id = id; created_at = w1.now } in
        (ok p, announce_proposal p name via body (add_proposal p w1)))

abbrev pub draft_of : String → ChangeKind → String → String → String → ℕ → ℕ → Proposal
draft_of person_id kind event_id title note start end = record {
  id = "";
  person_id = person_id;
  kind = kind;
  event_id = event_id;
  title = title;
  starts_at = start;
  ends_at = end;
  note = note;
  created_at = 0;
  decided_at = 0;
  accepted = false;
}

unfoldable pub propose_resolved :
    ℕ → ℕ → String → Result Resolved → Service → Result Proposal × Service
unfolding file_proposal_locked
propose_resolved start end note (err e) w = (err e, w)
propose_resolved start end note (ok r) w =
    file_proposal_locked (draft_of r.person.id ChangeKind.move r.event.id "" note start end)
      r.person.name Via.link
      (concat (
        r.person.name
        ∷ " proposes to move "
        ∷ w.env.quote r.event.title
        ∷ " to "
        ∷ when w.ctx start
        ∷ "."
        ∷ []))
      w

-- ProposeMoveViaLink
unfoldable pub propose_move_via_link : String → ℕ → ℕ → String → Service → Result Proposal × Service
unfolding propose_resolved
propose_move_via_link token start end note w =
    if is_zero start
    then (err (message "starts_at is required"), w)
    else propose_resolved start end note (lookup_link_locked token w) w
