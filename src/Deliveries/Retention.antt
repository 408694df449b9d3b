-- ===== src/Deliveries/Retention.antt =====
-- What pruneOutboxLocked keeps.

use stattii.Base.{
  Bool, Bool-cases, List, [], ap, append-nil, arith, count_where, eqb, false, if◌then◌else◌, inl,
  inr, not, refl, reject, select, select-append, sym, ℕ, ◌&&◌, ◌++◌, ◌∙◌, ◌∷◌, ◌≡◌,
}
use stattii.Deliveries.Reports.{prunable, prune_outbox_locked}
use stattii.Model.{OutboxItem, is_delivered}
use stattii.Service.{Service}
use stattii.Service.Health.Episodes.{outbox-audit, store_pages}

abbrev pub undelivered : OutboxItem → Bool
undelivered o = not (is_delivered o)

select-reject :
    (p q : OutboxItem → Bool) (os : List OutboxItem)
    → ((o : OutboxItem) → (p o && q o) ≡ false)
    → select p (reject q os) ≡ select p os
select-reject p q [] h = refl
select-reject p q (o ∷ os) h = ground (arith, select-reject p q os h, h o)

kept-undelivered :
    (now : ℕ) (w : Service) (os : List OutboxItem)
    → select undelivered (reject (prunable now w) os) ≡ select undelivered os
kept-undelivered now w os = select-reject undelivered (prunable now w) os (λ o. ground arith)

-- The pages that a failed audit line of the pruning adds.
abbrev pub prune_pages : ℕ → Service → List OutboxItem
prune_pages now w =
    if eqb (count_where (prunable now w) w.outbox) 0
    then []
    else store_pages (w.env.audit_result w.audits) "audit write failed" w

-- Pruning loses no undelivered message and keeps their order, whatever else it drops: after it
-- they are those from before, then the page of an audit failure if one begins here.
pub prune-undelivered :
    (now : ℕ) (w : Service)
    → select undelivered (prune_outbox_locked now w).1.outbox
      ≡ select undelivered w.outbox ++ select undelivered (prune_pages now w)
unfolding prune_outbox_locked
prune-undelivered now w = elim (Bool-cases (eqb (count_where (prunable now w) w.outbox) 0)) [
  | inl e ↦ rw (e, prune_outbox_locked) (sym (append-nil (select undelivered w.outbox)))
  | inr e ↦
      rw (e, prune_outbox_locked)
        (ap (select undelivered)
            (outbox-audit _ _ (record w { outbox = reject (prunable now w) w.outbox }))
          ∙ select-append undelivered (reject (prunable now w) w.outbox) _
          ∙ ap
              (λ os.
                os
                ++ select undelivered
                    (store_pages (w.env.audit_result w.audits) "audit write failed" w))
              (kept-undelivered now w w.outbox))
]
