-- ===== src/Portal/Unchanged.antt =====
-- What a change on behalf of a person leaves alone: every proposal.

use stattii.Base.{
  Bool, Bool-cases, Option, Result, String, already_cancelled, any_of, ap, err, false, forbidden,
  gone, inl, inr, message, none, not_found, ok, proposal_budget, refl, some, true, wrong_actor, ℕ,
  ◌∙◌, ◌≡◌,
}
use stattii.Lifecycle.{cancel_locked, create_locked, map_events, move_locked, new_event}
use stattii.Lifecycle.Branches.{
  CancelOutcome, CancelsRow, MoveOutcome, MovesRow, cancel_locked-outcome, move_locked-outcome,
}
use stattii.Lifecycle.Transactions.{NamedTxns}
use stattii.Model.{ChangeKind, Event, EventInput, Tables, Via, event, is_cancelled}
use stattii.Portal.Changing.{apply_change_locked, forget, forget_cancelled, portal_input}
use stattii.Service.{Service, new_id}
use stattii.Service.Frame.{audit-Emits}
use stattii.Service.Frame.Messages.{fire-Emits}
use stattii.Staffing.{assign_locked, is_assignment}

-- A step that leaves every proposal as it is.
abbrev pub SameProposals : Service → Service → Type 0
SameProposals w v = v.tables.proposals ≡ w.tables.proposals

refused-SameProposals :
    {A : Type 0} (w : Service) (x : Result A) (r : Result A × Service)
    → r ≡ (x, w)
    → SameProposals w r.1
refused-SameProposals w x r h = ap (λ y. y.1.tables.proposals) h

cancel-SameProposals :
    (found : Option Event) (person_id reason : String) (via : Via) (w : Service)
    (r : Result Event × Service)
    → CancelOutcome found person_id reason via w r
    → SameProposals w r.1
cancel-SameProposals none person_id reason via w r h = refused-SameProposals w _ r h
cancel-SameProposals (some e) person_id reason via w r h = row (is_cancelled e.status) h
  where
    row : (done : Bool) → CancelsRow done e person_id reason via w r → SameProposals w r.1
    row true k = refused-SameProposals w _ r k
    row false (e', k, c, t) = ap (λ (s : Tables). s.proposals) t.tables

move-SameProposals :
    (zero back : Bool) (found : Option Event) (start end : ℕ) (note : String) (w : Service)
    (r : Result Event × Service)
    → MoveOutcome zero back found start end note w r
    → SameProposals w r.1
move-SameProposals true back found start end note w r h = refused-SameProposals w _ r h
move-SameProposals false true found start end note w r h = refused-SameProposals w _ r h
move-SameProposals false false none start end note w r h = refused-SameProposals w _ r h
move-SameProposals false false (some e) start end note w r h = row (is_cancelled e.status) h
  where
    row : (done : Bool) → MovesRow done e start end note w r → SameProposals w r.1
    row true k = refused-SameProposals w _ r k
    row false (e', k, c, t) = ap (λ (s : Tables). s.proposals) t.tables

create-SameProposals :
    (i : EventInput) (actor : String) (w : Service) → SameProposals w (create_locked i actor w).1
unfolding create_locked new_event map_events new_id
create-SameProposals i actor w =
    ap (λ (s : Tables). s.proposals) (fire-Emits "event.created" _ _).tables
    ∙ ap (λ (s : Tables). s.proposals) (audit-Emits "event.created" _ _).tables

assign-SameProposals :
    (event_id person_id role : String) (w : Service)
    → SameProposals w (assign_locked event_id person_id role w).1
unfolding assign_locked
assign-SameProposals event_id person_id role w =
    elim (Bool-cases (any_of (is_assignment event_id person_id) w.tables.assignments)) [
      | inl e ↦ rw (e, assign_locked) refl
      | inr e ↦
          rw (e, assign_locked)
            (ap (λ (s : Tables). s.proposals) (audit-Emits "assigned" _ _).tables)
    ]

forget-same {ℓ} : {A : Type ℓ} (r : Result A × Service) → (forget r).1 ≡ r.1
forget-same (ok a, w) = refl
forget-same (err e, w) = refl

forget_cancelled-same {ℓ} : {A : Type ℓ} (r : Result A × Service) → (forget_cancelled r).1 ≡ r.1
forget_cancelled-same (ok a, w) = refl
forget_cancelled-same (err already_cancelled, w) = refl
forget_cancelled-same (err not_found, w) = refl
forget_cancelled-same (err gone, w) = refl
forget_cancelled-same (err forbidden, w) = refl
forget_cancelled-same (err wrong_actor, w) = refl
forget_cancelled-same (err proposal_budget, w) = refl
forget_cancelled-same (err (message s), w) = refl

pub apply_change-SameProposals :
    (kind : ChangeKind) (person_id event_id title note : String) (start end : ℕ) (via : Via)
    (w : Service)
    → NamedTxns w.env
    → SameProposals w (apply_change_locked kind person_id event_id title note start end via w).1
unfolding apply_change_locked
apply_change-SameProposals ChangeKind.cancel person_id event_id title note start end via w named =
    ap (λ (v : Service). v.tables.proposals)
      (forget_cancelled-same (cancel_locked event_id person_id note via w))
    ∙ cancel-SameProposals (event w.tables event_id) person_id note via w _
        (cancel_locked-outcome event_id person_id note via w named)
apply_change-SameProposals ChangeKind.move person_id event_id title note start end via w named =
    ap (λ (v : Service). v.tables.proposals)
      (forget-same (move_locked event_id start end note person_id w))
    ∙ move-SameProposals _ _ (event w.tables event_id) start end note w _
        (move_locked-outcome event_id start end note person_id w named)
apply_change-SameProposals ChangeKind.create person_id event_id title note start end via w named =
    let c = create_locked (portal_input title note start end) person_id w in
    assign-SameProposals c.0.id person_id "" c.1
    ∙ create-SameProposals (portal_input title note start end) person_id w
apply_change-SameProposals (ChangeKind.other k) person_id event_id title note start end via w
      named =
    refl
