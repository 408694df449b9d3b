-- ===== src/Lifecycle/Tail.antt =====
-- The tail that cancelLocked, moveLocked and ReinstateEvent share: the fan-out, the webhook and the
-- alarm for a fan-out that reached nobody.

use stattii.Base.{
  Bool, List, String, ap, append-nil, append_assoc, ap₂, length, ltb, map, map-append, select,
  select-append, ℕ, ◌++◌, ◌∙◌, ◌≡◌, ◌≢◌,
}
use stattii.Lifecycle.FanOut.{fan_out_locked, nobody_told_locked, put_event}
use stattii.Lifecycle.Propagation.{Announced, fan_out_lem, next_txn, owed_for}
use stattii.Lifecycle.Recipients.{in_txn, letters, letters-NoTxn, unstamped}
use stattii.Model.{Event, OutboxItem, Purpose}
use stattii.Service.{Service, fire_webhooks_locked, of_event}
use stattii.Service.Frame.{
  Emits, Emits-refl, Emits-trans, Emits-if, Emits-page, NoTxn, audit-Emits, notify-Emits,
}
use stattii.Service.Frame.Messages.{fire-Emits}

-- The tail's record of one transaction over the state `w` in which it began.
pub record Told (e : Event) (purpose : Purpose) (subject body : String) (w : Service) (row : Event)
    (after : Service) : Type 0 where
  pub ctx : after.ctx ≡ w.ctx
  pub process : after.process ≡ w.process
  pub tables : after.tables ≡ (put_event row w).tables
  pub sent : List OutboxItem
  pub outbox : after.outbox ≡ w.outbox ++ sent
  pub messages : letters (next_txn w) sent ≡ owed_for e purpose subject body w
  pub recorded : row ≡ record e {
    fan_out_at = w.now;
    fan_out_count = length (owed_for e purpose subject body w);
    fan_out_txn_id = next_txn w;
  }

pub nobody_told-Emits :
    (e : Event) (purpose : Purpose) (n : ℕ) (page : Bool) (w : Service)
    → Emits NoTxn w (nobody_told_locked e purpose n page w)
unfolding nobody_told_locked
nobody_told-Emits e purpose n page w = Emits-if (ltb 0 n) (Emits-refl w) (
    Emits-if page (Emits-trans (Emits-page (audit-Emits _ _ w)) (Emits-page (notify-Emits _ _ _)))
      (Emits-page (audit-Emits _ _ w)))

-- Whatever is emitted after the fan-out belongs to no transaction.
Announced-Told :
    {e : Event} {purpose : Purpose} {subject body : String} {w : Service} {r : ℕ × Event × Service}
    {after : Service}
    → next_txn w ≢ ""
    → Announced e purpose subject body w r
    → Emits NoTxn r.2 after
    → Told e purpose subject body w r.1 after
Announced-Told {e} {purpose} {subject} {body} {w} {r} named a b = record {
  ctx = b.ctx ∙ a.ctx;
  process = b.process ∙ a.process;
  tables = b.tables ∙ a.tables;
  sent = a.sent ++ b.sent;
  outbox = b.outbox ∙ ap (λ o. o ++ b.sent) a.outbox ∙ append_assoc w.outbox a.sent b.sent;
  messages =
      ap (map unstamped) (select-append (in_txn (next_txn w)) a.sent b.sent)
      ∙ map-append unstamped (select (in_txn (next_txn w)) a.sent)
          (select (in_txn (next_txn w)) b.sent)
      ∙ ap₂ (λ l m. l ++ m) a.messages (letters-NoTxn b.sent named b.all)
      ∙ append-nil _;
  recorded =
      a.row
      ∙ ap {A = ℕ} {B = Event}
          (λ n. record e { fan_out_at = w.now; fan_out_count = n; fan_out_txn_id = next_txn w })
          a.count;
}

module _ (e : Event) (purpose : Purpose) (subject body : String) (w : Service) where
  pub tail-Told :
      (event : String) (page : Bool)
      → next_txn w ≢ ""
      → (let r = fan_out_locked e purpose subject body w in
          Told e purpose subject body w r.1 (
            nobody_told_locked r.1 purpose r.0 page
              (fire_webhooks_locked event (of_event r.1) r.2)))
  tail-Told event page named =
      let r = fan_out_locked e purpose subject body w in
      Announced-Told {r = r} named (fan_out_lem e purpose subject body w named) (
        Emits-trans (fire-Emits event (of_event r.1) r.2)
          (nobody_told-Emits r.1 purpose r.0 page _))
