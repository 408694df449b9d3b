-- ===== src/Scheduler/OptIn.antt =====
-- The dead-man-switch cancels only what opted in to it.

use stattii.Base.{
  Bool, Bool-cases, List, Option, Result, String, [], ap, arith, eq_iff, eq_refl, err, false,
  find_first, find_first-holds, find_first-update_first, inl, inr, none, ok, refl, some, subst, sym,
  true, update_first, ℕ, ◌||◌, ◌∙◌, ◌∷◌, ◌≡◌,
}
use stattii.Lifecycle.{cancel_locked, cancelled_row, put_event}
use stattii.Lifecycle.Branches.{CancelOutcome, CancelsRow, cancel_locked-outcome}
use stattii.Lifecycle.Transactions.{NamedTxns}
use stattii.Model.{
  Event, OutboxItem, Tables, Via, assignees, auto_cancels, event, has_id, is_cancelled,
}
use stattii.Scheduler.Asks.{event_ids, visit_each, visit_found}
use stattii.Scheduler.Deadlines.{
  deadline_due, fire_deadline, meet_deadline, no_response, staffing_note, switched,
  tick_deadlines_locked,
}
use stattii.Scheduler.Spared.{
  AllSpared, AllSpared-refl, AllSpared-trans, Spared, some_event, update-AllSpared,
}
use stattii.Service.{Context, Service, audit_locked, fire_webhooks_locked, of_event, text}
use stattii.Service.Frame.{Emits, Emits-page, Emits-trans, NoTxn, audit-Emits, notify-Emits}
use stattii.Service.Frame.Messages.{fire-Emits}

-- A step that spares every row, under the same context.
abbrev pub SparedBy : Service → Service → Type 0
SparedBy w v = (v.ctx ≡ w.ctx) × AllSpared w.tables.events v.tables.events

pub SparedBy-Emits : {P : OutboxItem → Type 0} (w v : Service) → Emits P w v → SparedBy w v
SparedBy-Emits w v a = (
  a.ctx,
  subst (λ (t : Tables). AllSpared w.tables.events t.events) (sym a.tables)
      (AllSpared-refl w.tables.events),
)

pub SparedBy-trans : (u v w : Service) → SparedBy u v → SparedBy v w → SparedBy u w
SparedBy-trans u v w h k =
    (k.0 ∙ h.0, AllSpared-trans u.tables.events v.tables.events w.tables.events h.1 k.1)

-- The switch's cancellation, on the row that it finds.
cancel_row-SparedBy :
    (done : Bool) (e : Event) (id reason : String) (via : Via) (w : Service)
    (r : Result Event × Service)
    → find_first (has_id id) w.tables.events ≡ some e
    → auto_cancels e.if_unconfirmed ≡ true
    → CancelsRow done e "" reason via w r
    → SparedBy w r.1
unfolding cancelled_row
cancel_row-SparedBy true e id reason via w r h opted c =
    subst (λ (x : Result Event × Service). SparedBy w x.1) (sym c)
      (refl, AllSpared-refl w.tables.events)
cancel_row-SparedBy false e id reason via w r h opted (row, done, c, t) =
    let es = w.tables.events in
    let named : row.id ≡ id =
      ap (λ (x : Event). x.id) t.recorded
      ∙ (eq_iff e.id id).0 (find_first-holds (has_id id) es h) in
    let spared : Spared e row = record {
      same = ap (λ (x : Event). x.if_unconfirmed) t.recorded;
      willing = ground (arith, opted);
    } in
    (
      t.ctx,
      subst (λ (s : Tables). AllSpared es s.events) (sym t.tables)
          (subst (λ i. AllSpared es (update_first (has_id i) (λ _. row) es)) (sym named)
            (update-AllSpared id e row es h spared)),
    )

-- The same, whatever the lookup finds.
cancel-SparedBy :
    (found : Option Event) (id reason : String) (via : Via) (w : Service)
    (r : Result Event × Service)
    → find_first (has_id id) w.tables.events ≡ found
    → ((e : Event) → found ≡ some e → auto_cancels e.if_unconfirmed ≡ true)
    → CancelOutcome found "" reason via w r
    → SparedBy w r.1
cancel-SparedBy none id reason via w r h opted c =
    subst (λ (x : Result Event × Service). SparedBy w x.1) (sym c)
      (refl, AllSpared-refl w.tables.events)
cancel-SparedBy (some e) id reason via w r h opted c =
    cancel_row-SparedBy (is_cancelled e.status) e id reason via w r h (opted e refl) c

switched-SparedBy :
    (staffing : String) (r : Result Event × Service) → SparedBy r.1 (switched staffing r)
unfolding switched
switched-SparedBy staffing (err x, w) = (refl, AllSpared-refl w.tables.events)
switched-SparedBy staffing (ok e, w) = SparedBy-Emits w _ (notify-Emits _ _ w)

module _ (now : ℕ) (e : Event) (w : Service) (found : event w.tables e.id ≡ some e)
    (named : NamedTxns w.env) where
  fired : Event
  fired = record e { deadline_fired_at = now }

  -- The state before the switch.
  ready : Service
  ready =
      fire_webhooks_locked "deadline.passed" (of_event fired)
        (audit_locked "deadline.passed" (("event_id", text e.id) ∷ []) (put_event fired w))

  ready-Emits : Emits NoTxn (put_event fired w) ready
  unfolding ready
  ready-Emits =
      Emits-trans (Emits-page (audit-Emits _ _ _)) (fire-Emits "deadline.passed" (of_event fired) _)

  ready-SparedBy : SparedBy w ready
  unfolding put_event fired
  ready-SparedBy =
      SparedBy-trans w (put_event fired w) ready
        (
          refl,
          update-AllSpared e.id e fired w.tables.events found
              (record { same = refl; willing = ground arith }),
        )
        (SparedBy-Emits _ _ ready-Emits)

  ready-find : event ready.tables e.id ≡ some fired
  unfolding put_event fired
  ready-find =
      ap (λ (t : Tables). event t e.id) ready-Emits.tables
      ∙ find_first-update_first (has_id e.id) (λ _. fired) w.tables.events found (eq_refl e.id)

  switch-SparedBy :
      auto_cancels e.if_unconfirmed ≡ true
      → SparedBy ready (cancel_locked e.id "" "Not confirmed in time." Via.deadline ready).1
  unfolding fired
  switch-SparedBy opted =
      cancel-SparedBy (event ready.tables e.id) e.id "Not confirmed in time." Via.deadline ready _
        refl
        (λ x h.
          subst (λ (y : Event). auto_cancels y.if_unconfirmed ≡ true)
            (some_event fired x (sym ready-find ∙ h)) opted)
        (cancel_locked-outcome e.id "" "Not confirmed in time." Via.deadline ready
          (subst (λ (c : Context). NamedTxns c.env) (sym ready-SparedBy.0) named))

  fire_deadline-SparedBy : SparedBy w (fire_deadline now e w)
  unfolding fire_deadline ready fired no_response
  fire_deadline-SparedBy = elim (Bool-cases (auto_cancels e.if_unconfirmed)) [
    | inl opted ↦
        let r = cancel_locked e.id "" "Not confirmed in time." Via.deadline ready in
        let note = staffing_note e (assignees w.tables e.id) in
        rw (opted, fire_deadline)
          (SparedBy-trans w ready (switched note r) ready-SparedBy (
            SparedBy-trans ready r.1 (switched note r) (switch-SparedBy opted)
              (switched-SparedBy note r)))
    | inr silent ↦
        let note = staffing_note e (assignees w.tables e.id) in
        rw (silent, fire_deadline)
          (SparedBy-trans w ready (no_response fired note ready) ready-SparedBy
            (SparedBy-Emits ready (no_response fired note ready) (notify-Emits _ _ ready)))
  ]

  meet_deadline-SparedBy : SparedBy w (meet_deadline now e w).1
  unfolding meet_deadline
  meet_deadline-SparedBy = elim (Bool-cases (deadline_due now e w)) [
    | inl due ↦ rw (due, meet_deadline) fire_deadline-SparedBy
    | inr early ↦ rw (early, meet_deadline) (refl, AllSpared-refl w.tables.events)
  ]

-- A pass whose step spares every row.
module _ (step : Event → Service → Bool × Service)
    (spares : (e : Event) (w : Service)
      → event w.tables e.id ≡ some e
      → NamedTxns w.env
      → SparedBy w (step e w).1) where
  visit-SparedBy :
      (id : String) (found : Option Event) (w : Service)
      → event w.tables id ≡ found
      → NamedTxns w.env
      → SparedBy w (visit_found step found w).1
  unfolding visit_found
  visit-SparedBy id none w h named = (refl, AllSpared-refl w.tables.events)
  visit-SparedBy id (some e) w h named =
      spares e w
        (subst (λ i. event w.tables i ≡ some e)
          (sym ((eq_iff e.id id).0 (find_first-holds (has_id id) w.tables.events h))) h)
        named

  pub visit_each-SparedBy :
      (ids : List String) (changed : Bool) (w : Service)
      → NamedTxns w.env
      → SparedBy w (visit_each step ids changed w).1
  unfolding visit_each
  visit_each-SparedBy [] changed w named = (refl, AllSpared-refl w.tables.events)
  visit_each-SparedBy (id ∷ ids) changed w named =
      let v = visit_found step (event w.tables id) w in
      let one = visit-SparedBy id (event w.tables id) w refl named in
      SparedBy-trans w v.1 (visit_each step ids (changed || v.0) v.1).1 one (
        visit_each-SparedBy ids (changed || v.0) v.1
          (subst (λ (c : Context). NamedTxns c.env) (sym one.0) named))

-- The deadline pass.
pub tick_deadlines-SparedBy :
    (now : ℕ) (w : Service) → NamedTxns w.env → SparedBy w (tick_deadlines_locked now w).1
unfolding tick_deadlines_locked
tick_deadlines-SparedBy now w named =
    visit_each-SparedBy (meet_deadline now) (meet_deadline-SparedBy now) (event_ids w) false w named
