-- ===== src/Portal/Deciding.antt =====
-- DecideProposal and RotatePortal of internal/core/portal.go.

use stattii.Base.{
  Bool, Option, Result, String, [], concat, err, false, find_first, if◌then◌else◌, message, none,
  not, not_found, ok, some, true, update_first, ◌==◌, ◌∷◌,
}
use stattii.Links.{portal_url}
use stattii.Model.{Person, Proposal, Purpose, Via, is_person, is_zero, person}
use stattii.Portal.Changing.{apply_change_locked}
use stattii.Portal.Filing.{kind_text}
use stattii.Service.{
  Service, audit_locked, enqueue_to_person_locked, fire_webhooks_locked, flag, mail, new_token,
  of_proposal, save_locked, text,
}

abbrev pub is_proposal : String → Proposal → Bool
is_proposal id p = p.id == id

abbrev pub put_proposal : Proposal → Service → Service
put_proposal p w = record w {
  tables = record w.tables {
    proposals = update_first (is_proposal p.id) (λ _. p) w.tables.proposals;
  };
}

abbrev pub verdict_text : Bool → String
verdict_text true = "accepted"
verdict_text false = "declined"

unfoldable pub tell_proposer : Proposal → Bool → Option Person → Service → Service
tell_proposer pr accept none w = w
tell_proposer pr accept (some p) w =
    (enqueue_to_person_locked p
      (mail Purpose.proposal "" "" (concat ("Proposal " ∷ verdict_text accept ∷ [])) (
        concat ("Your proposal (" ∷ kind_text pr.kind ∷ ") was " ∷ verdict_text accept ∷ "." ∷ [])))
      w).1

-- What follows the apply that gates the decision.
unfoldable pub record_decision :
    Proposal → Bool → Result (Unit {0}) × Service → Result Proposal × Service
unfolding tell_proposer
record_decision pr accept (err e, w) = (err e, w)
record_decision pr accept (ok _, w) =
    let pr1 = record pr { decided_at = w.now; accepted = accept } in
    let w1 =
      audit_locked "proposal.decided" (("proposal_id", text pr.id) ∷ ("accepted", flag accept) ∷ [])
        (put_proposal pr1 w) in
    let w2 = fire_webhooks_locked "proposal.decided" (of_proposal pr1) w1 in
    (ok pr1, save_locked (tell_proposer pr1 accept (person w2.tables pr.person_id) w2))

unfoldable pub decide_found : Bool → Option Proposal → Service → Result Proposal × Service
unfolding apply_change_locked record_decision
decide_found accept none w = (err not_found, w)
decide_found accept (some pr) w =
    if not (is_zero pr.decided_at)
    then (err (message "proposal already decided"), w)
    else record_decision pr accept (
        if accept
        then apply_change_locked pr.kind pr.person_id pr.event_id pr.title pr.note pr.starts_at
            pr.ends_at Via.proposal w
        else (ok tt, w))

-- DecideProposal
unfoldable pub decide_proposal : String → Bool → Service → Result Proposal × Service
unfolding decide_found
decide_proposal id accept w = decide_found accept (find_first (is_proposal id) w.tables.proposals) w

abbrev pub put_person : Person → Service → Service
put_person p w = record w {
  tables = record w.tables { people = update_first (is_person p.id) (λ _. p) w.tables.people };
}

unfoldable pub rotate_found : Option Person → Service → Result String × Service
unfolding new_token
rotate_found none w = (err not_found, w)
rotate_found (some p) w =
    let (token, w1) = new_token w in
    let w2 = save_locked (
      audit_locked "portal.rotated" (("person_id", text p.id) ∷ [])
        (put_person (record p { portal_token = token }) w1)) in
    (ok (portal_url w2 token), w2)

-- RotatePortal
unfoldable pub rotate_portal : String → Service → Result String × Service
unfolding rotate_found
rotate_portal person_id w = rotate_found (person w.tables person_id) w
