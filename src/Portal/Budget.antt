-- ===== src/Portal/Budget.antt =====
-- The budget of undecided proposals holds, whatever files them.

use stattii.Base.{
  Bool-cases, List, String, [], ap, arith, count_where, count_where-append, eq_iff, false,
  find_first, inl, inr, leb, some, subst, suc, sym, true, update_first, ◌++◌, ◌==◌, ◌∙◌, ◌∷◌, ◌≡◌,
  ◌≤◌,
}
use stattii.Model.{Proposal, Tables, Via, is_zero}
use stattii.Portal.Deciding.{is_proposal}
use stattii.Portal.Filing.{
  add_proposal, announce_proposal, created_fields, file_proposal_locked, is_open,
  max_open_proposals, open_proposals,
}
use stattii.Portal.Unchanged.{SameProposals}
use stattii.Service.{Service, new_id, of_proposal}
use stattii.Service.Frame.{audit-Emits, notify-Emits, save-Emits}
use stattii.Service.Frame.Messages.{fire-Emits}

-- The number of the person's undecided proposals, at most the budget.
abbrev pub InBudget : String → Service → Type 0
InBudget person_id w = open_proposals person_id w ≤ max_open_proposals

pub same-InBudget :
    (id : String) (w v : Service) → SameProposals w v → InBudget id w → InBudget id v
same-InBudget id w v h k =
    subst (λ (ps : List Proposal). count_where (is_open id) ps ≤ max_open_proposals) (sym h) k

announce-SameProposals :
    (p : Proposal) (name : String) (via : Via) (body : String) (w : Service)
    → SameProposals w (announce_proposal p name via body w)
unfolding announce_proposal
announce-SameProposals p name via body w =
    ap (λ (s : Tables). s.proposals)
      ((save-Emits _).tables
        ∙ (notify-Emits _ _ _).tables
        ∙ (fire-Emits "proposal.created" (of_proposal p) _).tables
        ∙ (audit-Emits "proposal.created" (created_fields p via) w).tables)

-- One more proposal, filed by someone with room for it.
added-InBudget :
    (id : String) (p : Proposal) (ps : List Proposal)
    → count_where (is_open id) ps ≤ max_open_proposals
    → leb max_open_proposals (count_where (is_open p.person_id) ps) ≡ false
    → count_where (is_open id) (ps ++ p ∷ []) ≤ max_open_proposals
added-InBudget id p ps h room = elim (Bool-cases (p.person_id == id)) [
  | inl e ↦
      let here =
        subst (λ i. leb max_open_proposals (count_where (is_open i) ps) ≡ false)
          ((eq_iff p.person_id id).0 e) room in
      rw (count_where-append (is_open id) ps (p ∷ [])) (ground (arith, h, here))
  | inr e ↦ rw (count_where-append (is_open id) ps (p ∷ []), e) (ground (arith, h))
]

pub file_proposal-InBudget :
    (id : String) (draft : Proposal) (name : String) (via : Via) (body : String) (w : Service)
    → InBudget id w
    → InBudget id (file_proposal_locked draft name via body w).1
unfolding file_proposal_locked new_id
file_proposal-InBudget id draft name via body w h =
    elim (Bool-cases (leb max_open_proposals (open_proposals draft.person_id w))) [
      | inl full ↦ rw (full, file_proposal_locked) h
      | inr room ↦
          let p : Proposal = record draft { id = w.env.new_id "pr" w.drawn; created_at = w.now } in
          let added : Service = add_proposal p (record w { drawn = suc w.drawn }) in
          rw (room, file_proposal_locked)
            (same-InBudget id added (announce_proposal p name via body added)
              (announce-SameProposals p name via body added)
              (added-InBudget id p w.tables.proposals h room))
    ]

-- A decided row in place of an undecided one.
pub decided-count :
    (id key : String) (old new : Proposal) (ps : List Proposal)
    → find_first (is_proposal key) ps ≡ some old
    → new.person_id ≡ old.person_id
    → is_zero old.decided_at ≡ true
    → count_where (is_open id) (update_first (is_proposal key) (λ _. new) ps)
      ≤ count_where (is_open id) ps
decided-count id key old new [] h same fresh = omega arith
decided-count id key old new (p ∷ ps) h same fresh = elim (Bool-cases (is_proposal key p)) [
  | inl hit ↦
      let it = some_proposal p old (rw hit at h) in
      rw (hit, it, same, fresh)
        (elim (Bool-cases (old.person_id == id)) [
          | inl e ↦ rw e (elim (Bool-cases (is_zero new.decided_at)) [
            | inl z ↦ rw z (omega arith)
            | inr z ↦ rw z (omega arith)
          ])
          | inr e ↦ rw e (omega arith)
        ])
  | inr miss ↦
      let rest = decided-count id key old new ps (rw miss at h) same fresh in
      rw miss (ground (arith, rest))
]
  where
    some_proposal : (x y : Proposal) → some x ≡ some y → x ≡ y
    some_proposal x y q = cc
