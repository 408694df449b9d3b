-- ===== src/Portal/Requests.antt =====
-- Every request that files or decides a proposal keeps the budget.

use stattii.Base.{
  Bool, Bool-cases, List, Option, Result, String, [], ap, arith, eq_iff, err, false, find_first,
  find_first-holds, if◌then◌else◌, inl, inr, message, none, not, not_found, ok, refl, some, subst,
  sym, true, ℕ, ◌&&◌, ◌∙◌, ◌∷◌, ◌≡◌, ◌≤◌,
}
use stattii.Lifecycle.Transactions.{NamedTxns}
use stattii.Links.{Resolved, lookup_link_locked}
use stattii.Model.{
  ChangeKind, Person, Proposal, Tables, TrustLevel, Via, direct, is_zero, person, propose, respond,
}
use stattii.Portal.Budget.{InBudget, decided-count, file_proposal-InBudget, same-InBudget}
use stattii.Portal.Changing.{
  applied_now, apply_change_locked, assigned_locked, filed, person_by_portal_locked, portal_submit,
  submit_as, submit_checked, submit_trusted, targets_event,
}
use stattii.Portal.Deciding.{
  decide_found, decide_proposal, is_proposal, put_proposal, record_decision, tell_proposer,
}
use stattii.Portal.Filing.{
  draft_of, max_open_proposals, open_proposals, propose_move_via_link, propose_resolved,
}
use stattii.Portal.Unchanged.{SameProposals, apply_change-SameProposals}
use stattii.Service.{
  Service, audit_locked, fire_webhooks_locked, flag, of_proposal, save_locked, text,
}
use stattii.Service.Frame.{audit-Emits, save-Emits}
use stattii.Service.Frame.Messages.{fire-Emits, person-Emits}

-- A request that may touch the proposals.
pub data Request : Type 0 where
  submit : String → ChangeKind → String → String → String → ℕ → ℕ → Request
  propose_move : String → ℕ → ℕ → String → Request
  decide : String → Bool → Request

-- The service after it.
abbrev pub serve : Request → Service → Service
serve (submit token kind event_id title note start end) w =
    (portal_submit token kind event_id title note start end w).1
serve (propose_move token start end note) w = (propose_move_via_link token start end note w).1
serve (decide id accept) w = (decide_proposal id accept w).1

module _ (id : String) where
  InBudget-if :
      {A : Type 0} (b : Bool) (x y : A × Service)
      → InBudget id x.1
      → InBudget id y.1
      → InBudget id (if b then x else y).1
  InBudget-if true x y h k = h
  InBudget-if false x y h k = k

  save-InBudget : (w : Service) → InBudget id w → InBudget id (save_locked w)
  save-InBudget w h =
      same-InBudget id w (save_locked w) (ap (λ (s : Tables). s.proposals) (save-Emits w).tables) h

  applied-InBudget :
      (r : Result (Unit {0}) × Service) → InBudget id r.1 → InBudget id (applied_now r).1
  unfolding applied_now
  applied-InBudget (ok a, w) h = save-InBudget w h
  applied-InBudget (err e, w) h = h

  filed-InBudget : {A : Type 0} (r : Result A × Service) → InBudget id r.1 → InBudget id (filed r).1
  unfolding filed
  filed-InBudget (ok a, w) h = h
  filed-InBudget (err e, w) h = h

  submit_trusted-InBudget :
      (trust : TrustLevel) (p : Person) (kind : ChangeKind) (event_id title note : String)
      (start end : ℕ) (w : Service)
      → NamedTxns w.env
      → InBudget id w
      → InBudget id (submit_trusted trust p kind event_id title note start end w).1
  unfolding submit_trusted
  submit_trusted-InBudget direct p kind event_id title note start end w named h =
      let r = apply_change_locked kind p.id event_id title note start end Via.portal w in
      applied-InBudget r (
        same-InBudget id w r.1
          (apply_change-SameProposals kind p.id event_id title note start end Via.portal w named) h)
  submit_trusted-InBudget propose p kind event_id title note start end w named h =
      filed-InBudget _ (
        file_proposal-InBudget id (draft_of p.id kind event_id title note start end) p.name
          Via.portal _ w h)
  submit_trusted-InBudget respond p kind event_id title note start end w named h = h
  submit_trusted-InBudget (TrustLevel.other t) p kind event_id title note start end w named h = h

  submit_checked-InBudget :
      (check : Result (Unit {0})) (p : Person) (kind : ChangeKind) (event_id title note : String)
      (start end : ℕ) (w : Service)
      → NamedTxns w.env
      → InBudget id w
      → InBudget id (submit_checked check p kind event_id title note start end w).1
  unfolding submit_checked
  submit_checked-InBudget (err e) p kind event_id title note start end w named h = h
  submit_checked-InBudget (ok _) p kind event_id title note start end w named h =
      InBudget-if (targets_event kind && not (assigned_locked event_id p.id w)) (err not_found, w)
        (submit_trusted p.trust p kind event_id title note start end w) h
        (submit_trusted-InBudget p.trust p kind event_id title note start end w named h)

  submit_as-InBudget :
      (found : Option Person) (kind : ChangeKind) (event_id title note : String) (start end : ℕ)
      (w : Service)
      → NamedTxns w.env
      → InBudget id w
      → InBudget id (submit_as found kind event_id title note start end w).1
  unfolding submit_as
  submit_as-InBudget none kind event_id title note start end w named h = h
  submit_as-InBudget (some p) kind event_id title note start end w named h =
      submit_checked-InBudget _ p kind event_id title note start end w named h

  propose_resolved-InBudget :
      (start end : ℕ) (note : String) (found : Result Resolved) (w : Service)
      → InBudget id w
      → InBudget id (propose_resolved start end note found w).1
  unfolding propose_resolved
  propose_resolved-InBudget start end note (err e) w h = h
  propose_resolved-InBudget start end note (ok r) w h =
      file_proposal-InBudget id (draft_of r.person.id ChangeKind.move r.event.id "" note start end)
        r.person.name Via.link _ w h

  tell-SameProposals :
      (pr : Proposal) (accept : Bool) (found : Option Person) (w : Service)
      → SameProposals w (tell_proposer pr accept found w)
  unfolding tell_proposer
  tell-SameProposals pr accept none w = refl
  tell-SameProposals pr accept (some p) w =
      ap (λ (s : Tables). s.proposals) (person-Emits p _ w refl).tables

  record_decision-InBudget :
      (key : String) (pr : Proposal) (accept : Bool) (r : Result (Unit {0}) × Service)
      → find_first (is_proposal key) r.1.tables.proposals ≡ some pr
      → is_zero pr.decided_at ≡ true
      → InBudget id r.1
      → InBudget id (record_decision pr accept r).1
  unfolding record_decision
  record_decision-InBudget key pr accept (err e, w) found fresh h = h
  record_decision-InBudget key pr accept (ok a, w) found fresh h =
      let pr1 : Proposal = record pr { decided_at = w.now; accepted = accept } in
      let w1 = put_proposal pr1 w in
      let w2 =
        audit_locked "proposal.decided"
          (("proposal_id", text pr.id) ∷ ("accepted", flag accept) ∷ []) w1 in
      let w3 = fire_webhooks_locked "proposal.decided" (of_proposal pr1) w2 in
      let w4 = tell_proposer pr1 accept (person w3.tables pr.person_id) w3 in
      let at_id =
        (eq_iff pr.id key).0 (find_first-holds (is_proposal key) w.tables.proposals found) in
      let fewer =
        decided-count id pr.id pr pr1 w.tables.proposals
          (subst (λ i. find_first (is_proposal i) w.tables.proposals ≡ some pr) (sym at_id) found)
          refl fresh in
      let start : InBudget id w1 = omega (arith, fewer, h) in
      save-InBudget w4 (
        same-InBudget id w1 w4
          (tell-SameProposals pr1 accept (person w3.tables pr.person_id) w3
            ∙ ap (λ (s : Tables). s.proposals)
                ((fire-Emits "proposal.decided" (of_proposal pr1) w2).tables
                  ∙ (audit-Emits "proposal.decided" _ w1).tables))
          start)

  decide_found-InBudget :
      (key : String) (accept : Bool) (found : Option Proposal) (w : Service)
      → NamedTxns w.env
      → find_first (is_proposal key) w.tables.proposals ≡ found
      → InBudget id w
      → InBudget id (decide_found accept found w).1
  unfolding decide_found
  decide_found-InBudget key accept none w named found h = h
  decide_found-InBudget key accept (some pr) w named found h =
      elim (Bool-cases (is_zero pr.decided_at)) [
        | inr late ↦ rw (late, decide_found) h
        | inl fresh ↦ rw (fresh, decide_found) (gated accept fresh)
      ]
    where
      gated :
          (yes' : Bool)
          → is_zero pr.decided_at ≡ true
          → InBudget id
              (record_decision pr accept (
                if yes'
                then apply_change_locked pr.kind pr.person_id pr.event_id pr.title pr.note
                    pr.starts_at pr.ends_at Via.proposal w
                else (ok tt, w))).1
      gated true fresh =
          let r =
            apply_change_locked pr.kind pr.person_id pr.event_id pr.title pr.note pr.starts_at
              pr.ends_at Via.proposal w in
          let same =
            apply_change-SameProposals pr.kind pr.person_id pr.event_id pr.title pr.note
              pr.starts_at pr.ends_at Via.proposal w named in
          record_decision-InBudget key pr accept r
            (ap (λ (ps : List Proposal). find_first (is_proposal key) ps) same ∙ found) fresh
            (same-InBudget id w r.1 same h)
      gated false fresh = record_decision-InBudget key pr accept (ok tt, w) found fresh h

  -- Where no transaction id is empty: whoever files or decides, through the portal, an action link
  -- or the operator, a person within the budget of undecided proposals stays within it.
  pub serve-InBudget :
      (request : Request) (w : Service)
      → NamedTxns w.env
      → open_proposals id w ≤ max_open_proposals
      → open_proposals id (serve request w) ≤ max_open_proposals
  unfolding portal_submit propose_move_via_link decide_proposal
  serve-InBudget (submit token kind event_id title note start end) w named h =
      submit_as-InBudget (person_by_portal_locked token w.tables) kind event_id title note start end
        w named h
  serve-InBudget (propose_move token start end note) w named h =
      InBudget-if (is_zero start) (err (message "starts_at is required"), w)
        (propose_resolved start end note (lookup_link_locked token w) w) h
        (propose_resolved-InBudget start end note (lookup_link_locked token w) w h)
  serve-InBudget (decide key accept) w named h =
      decide_found-InBudget key accept (find_first (is_proposal key) w.tables.proposals) w named
        refl h
