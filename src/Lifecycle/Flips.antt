-- ===== src/Lifecycle/Flips.antt =====
-- cancelLocked, moveLocked and ReinstateEvent as transactions, with every branch of the first two.

use stattii.Base.{
  All-append, Bool, Bool-cases, List, String, [], ap, append-nil, append_assoc, concat, find_first,
  if◌then◌else◌, inl, inr, not, refl, subst, sym, true, ℕ, ◌++◌, ◌==◌, ◌∙◌, ◌∷◌, ◌≡◌, ◌≢◌,
}
use stattii.Lifecycle.Changes.{
  cancel_body, cancel_flip, cancel_live, cancelled_row, canceller, clean_reason, person_name,
}
use stattii.Lifecycle.Creation.{record_response}
use stattii.Lifecycle.FanOut.{fan_out_locked, nobody_told_locked, put_event}
use stattii.Lifecycle.Fields.{Reinstated, reinstated_row-Reinstated}
use stattii.Lifecycle.Moves.{
  move_body, move_live, moved_row, reinstate_body, reinstate_live, reinstated_row,
}
use stattii.Lifecycle.Propagation.{next_txn}
use stattii.Lifecycle.Tail.{tail-Told}
use stattii.Lifecycle.Transactions.{Flipped, Flipped-Told, NamedTxns, Transaction}
use stattii.Model.{
  ActionKind, Event, Purpose, Response, Tables, Via, cancellation, event, is_deadline, is_person,
  moved, reinstated,
}
use stattii.Service.{Context, Fields, Service, audit_locked, fire_webhooks_locked, of_event}
use stattii.Service.Frame.{Emits-page, NoTxn, audit-Emits}

-- The answers after a decision that may name a person.
abbrev pub answered : String → String → ActionKind → Via → ℕ → List Response → List Response
answered event_id person_id action via now responses =
    if person_id == ""
    then responses
    else responses
      ++ record { at = now; event_id = event_id; person_id = person_id; action = action; via = via }
        ∷ []

module _ (e1 : Event) (w : Service) where
  put-Flipped : Flipped e1 w.tables.responses w (put_event e1 w)
  unfolding put_event
  put-Flipped = record {
    ctx = refl;
    process = refl;
    tables = refl;
    sent = [];
    outbox = sym (append-nil w.outbox);
    all = tt;
  }

  -- An audit line after the flip.
  audit-Flipped :
      {responses : List Response} {before : Service} (kind : String) (fields : Fields)
      → Flipped e1 responses w before
      → Flipped e1 responses w (audit_locked kind fields before)
  audit-Flipped {before = before} kind fields f =
      let a = Emits-page (audit-Emits kind fields before) in
      record {
        ctx = a.ctx ∙ f.ctx;
        process = a.process ∙ f.process;
        tables = a.tables ∙ f.tables;
        sent = f.sent ++ a.sent;
        outbox = a.outbox ∙ ap (λ o. o ++ a.sent) f.outbox ∙ append_assoc w.outbox f.sent a.sent;
        all = All-append NoTxn f.sent a.sent f.all a.all;
      }

  respond-Flipped :
      (event_id person_id : String) (action : ActionKind) (via : Via)
      → Flipped e1
          (answered event_id person_id action via w.now w.tables.responses)
          w
          (record_response event_id person_id action via (put_event e1 w))
  unfolding put_event record_response
  respond-Flipped event_id person_id action via = elim (Bool-cases (person_id == "")) [
    | inl e ↦ rw (e, record_response) put-Flipped
    | inr e ↦
        rw (e, record_response)
          (audit-Flipped "response" _ (record {
            ctx = refl;
            process = refl;
            tables = refl;
            sent = [];
            outbox = sym (append-nil w.outbox);
            all = tt;
          }))
  ]

-- A context and tables that a flip may still read.
canceller-tables :
    (person_id : String) (t t' : Tables)
    → t.people ≡ t'.people
    → canceller person_id t ≡ canceller person_id t'
unfolding canceller
canceller-tables person_id t t' h =
    ap
      (λ ps.
        if person_id == ""
        then "the organizer"
        else person_name (find_first (is_person person_id) ps))
      h

named_at : (w v : Service) → NamedTxns w.env → v.ctx ≡ w.ctx → next_txn v ≢ ""
named_at w v named h = subst (λ c. c.env.new_id "tx" v.drawn ≢ "") (sym h) (named v.drawn)

-- A flip and the tail over a body that reads only the context and the people.
flip-Transaction :
    {responses : List Response} {w before : Service} (e1 : Event) (purpose : Purpose)
    (subject event : String) (body : Context → Tables → String) (page : Bool)
    → NamedTxns w.env
    → ((c : Context) (t t' : Tables) → t.people ≡ t'.people → body c t ≡ body c t')
    → Flipped e1 responses w before
    → (let r = fan_out_locked e1 purpose subject (body before.ctx before.tables) before in
        Transaction e1 purpose subject
          (body w.ctx w.tables)
          responses
          w
          r.1
          (nobody_told_locked r.1 purpose r.0 page (fire_webhooks_locked event (of_event r.1) r.2)))
flip-Transaction {responses} {w} {before} e1 purpose subject event body page named reads f =
    let b = body before.ctx before.tables in
    let r = fan_out_locked e1 purpose subject b before in
    let told = named_at w before named f.ctx in
    subst
      (λ text.
        Transaction e1 purpose subject text responses w r.1
          (nobody_told_locked r.1 purpose r.0 page (fire_webhooks_locked event (of_event r.1) r.2)))
      (ap (λ c. body c before.tables) f.ctx
        ∙ reads w.ctx before.tables w.tables (ap (λ t. t.people) f.tables))
      (Flipped-Told purpose subject b told f
        (tail-Told e1 purpose subject b before event page told))

cancel_flip-Flipped :
    (e : Event) (person_id reason : String) (via : Via) (w : Service)
    → Flipped
        (cancelled_row e reason w.now)
        (answered e.id person_id ActionKind.cancel via w.now w.tables.responses)
        w
        (cancel_flip e person_id reason via w)
unfolding cancel_flip
cancel_flip-Flipped e person_id reason via w =
    audit-Flipped _ w _ _
      (respond-Flipped (cancelled_row e reason w.now) w e.id person_id ActionKind.cancel via)

-- cancelLocked on a live event is one cancellation transaction.
pub cancel_live-Transaction :
    (w : Service) (e : Event) (person_id reason : String) (via : Via)
    → NamedTxns w.env
    → (let e1 = cancelled_row e (clean_reason reason) w.now in
        let r = cancel_live e person_id reason via w in
        Transaction e1 cancellation
          (concat ("CANCELLED: " ∷ e1.title ∷ []))
          (cancel_body e1 (canceller person_id w.tables) (clean_reason reason) w.ctx)
          (answered e.id person_id ActionKind.cancel via w.now w.tables.responses)
          w
          r.0
          r.1)
unfolding cancel_live
cancel_live-Transaction w e person_id reason via named =
    let e1 = cancelled_row e (clean_reason reason) w.now in
    flip-Transaction e1 cancellation _ "event.cancelled"
      (λ c t. cancel_body e1 (canceller person_id t) (clean_reason reason) c)
      (not (is_deadline via)) named
      (λ c t t' h.
        ap (λ by. cancel_body e1 by (clean_reason reason) c) (canceller-tables person_id t t' h))
      (cancel_flip-Flipped e person_id (clean_reason reason) via w)

-- moveLocked on a live event is one move transaction.
pub move_live-Transaction :
    (w : Service) (e : Event) (start end : ℕ) (note actor : String)
    → NamedTxns w.env
    → (let e1 = moved_row e start end note in
        let r = move_live e start end note actor w in
        Transaction e1 moved
          (concat ("MOVED: " ∷ e1.title ∷ []))
          (move_body e1 e.starts_at start end w.ctx)
          w.tables.responses
          w
          r.0
          r.1)
unfolding move_live
move_live-Transaction w e start end note actor named =
    let e1 = moved_row e start end note in
    flip-Transaction e1 moved _ "event.moved" (λ c t. move_body e1 e.starts_at start end c)
      (not (actor == "import")) named (λ c t t' h. refl)
      (audit-Flipped e1 w "event.moved" _ (put-Flipped e1 w))

-- The change that ReinstateEvent makes to an event, before it is saved, with the fields of its row.
pub reinstate_live-Transaction :
    (w : Service) (e : Event) (actor : String)
    → NamedTxns w.env
    → (let e1 = reinstated_row e in
        let r = reinstate_live e actor w in
        Reinstated e r.0
        × Transaction e1 reinstated
            (concat ("REINSTATED: " ∷ e1.title ∷ []))
            (reinstate_body e1 w.ctx)
            w.tables.responses
            w
            r.0
            r.1)
unfolding reinstate_live
reinstate_live-Transaction w e actor named =
    let e1 = reinstated_row e in
    let t =
      flip-Transaction e1 reinstated _ "event.reinstated" (λ c t. reinstate_body e1 c) true named
        (λ c t t' h. refl) (audit-Flipped e1 w "event.reinstated" _ (put-Flipped e1 w)) in
    (reinstated_row-Reinstated e _ _ _ _ t.recorded, t)
