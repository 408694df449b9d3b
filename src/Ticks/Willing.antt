-- ===== src/Ticks/Willing.antt =====
-- A round of Tick of internal/core/outbox.go cancels only what opted in to the switch.

use stattii.Base.{
  Bool-cases, List, Option, [], any_of, arith, false, inl, inr, ltb, none, not, refl, some, subst,
  sym, ℕ, ◌&&◌, ◌+◌, ◌||◌, ◌∷◌, ◌≡◌,
}
use stattii.Deliveries.{
  OutboxAttempt, collect_outbox_locked, deliver, prune_outbox_locked, record_deliveries,
}
use stattii.Lifecycle.{put_event}
use stattii.Lifecycle.Transactions.{NamedTxns}
use stattii.Model.{Event, Person, assignees, event, is_zero}
use stattii.Redaction.{SendError}
use stattii.Scheduler.{
  ChannelProblem, any_valid_channel, ask_each, audit_problems, channel_problems_locked, event_ids,
  is_pressing, no_people, note_channel_problems_locked, note_problems, nudge, nudge_due,
  page_problems, people_fields, reachable_of, remind, reminder_due, scanned, send_reminder,
  silent_people, tick_deadlines_locked, tick_nudges_locked, tick_reminders_locked, warn_broken,
  warn_unreachable,
}
use stattii.Scheduler.OptIn.{
  SparedBy, SparedBy-Emits, SparedBy-trans, tick_deadlines-SparedBy, visit_each-SparedBy,
}
use stattii.Scheduler.Spared.{AllSpared, AllSpared-refl, Spared}
use stattii.Service.{
  Context, Service, audit_locked, fire_webhooks_locked, notify_admin_locked, of_event, text,
}
use stattii.Service.Frame.{
  Emits, Emits-if, Emits-page, Emits-refl, Emits-trans, IsPage, audit-Emits, notify-Emits,
  save-Emits,
}
use stattii.Service.Frame.Messages.{fire-Emits}
use stattii.Ticks.Asking.{
  SameEvents, SameEvents-Emits, SameEvents-SparedBy, SameEvents-trans, ask_each-SameEvents,
  put_event-SparedBy,
}
use stattii.Ticks.Defs.{save_changed, tick, tick_locked}
use stattii.Ticks.Sending.{collect-SameEvents, prune-SameEvents, record_deliveries-SameEvents}

stamped-Spared :
    (e : Event) (f : Event → Event)
    → (f e).if_unconfirmed ≡ e.if_unconfirmed
    → (f e).status ≡ e.status
    → Spared e (f e)
stamped-Spared e f same status = record { same = same; willing = rw status (ground arith) }

module _ (now : ℕ) (e : Event) (w : Service) (found : event w.tables e.id ≡ some e) where
  warn_unreachable-SparedBy : (ps : List Person) → SparedBy w (warn_unreachable now e ps w).1
  unfolding warn_unreachable
  warn_unreachable-SparedBy ps =
      let e1 = record e { unreachable_notified_at = now } in
      let w0 = put_event e1 w in
      let w1 = audit_locked "staffing.unreachable" (people_fields e1 ps w) w0 in
      elim (Bool-cases (
        not (no_people ps)
        && is_zero e.unreachable_notified_at
        && ltb (now + w.cfg.deadline_lead) e.starts_at)) [
          | inr quiet ↦ rw (quiet, warn_unreachable) (refl, AllSpared-refl w.tables.events)
          | inl warn ↦
              rw (warn, warn_unreachable)
                (SparedBy-trans w w0 (notify_admin_locked _ _ w1)
                  (put_event-SparedBy e e1 w w (refl, refl) found refl
                    (stamped-Spared e (λ r. record r { unreachable_notified_at = now }) refl refl))
                  (SparedBy-Emits w0 _ (Emits-trans (audit-Emits _ _ w0) (notify-Emits _ _ w1))))
        ]

  warn_broken-Emits :
      (e1 : Event) (ps : List Person) (v : Service) → Emits IsPage v (warn_broken e1 ps v)
  unfolding warn_broken
  warn_broken-Emits e1 ps v = elim (Bool-cases (any_valid_channel v.env ps)) [
    | inl e ↦ rw (e, warn_broken) (Emits-refl v)
    | inr e ↦ rw (e, warn_broken) (Emits-trans (audit-Emits _ _ v) (notify-Emits _ _ _))
  ]

  send_reminder-SparedBy : (ps : List Person) → SparedBy w (send_reminder now e ps w)
  unfolding send_reminder
  send_reminder-SparedBy ps =
      let e1 = record e { reminder_sent_at = now } in
      let asked = ask_each e "Please confirm: " ps w in
      let w1 = put_event e1 asked in
      let w2 = warn_broken e1 ps w1 in
      let w3 = audit_locked "reminder.sent" (("event_id", text e.id) ∷ []) w2 in
      SparedBy-trans w w1 (fire_webhooks_locked "reminder.sent" (of_event e1) w3)
        (put_event-SparedBy e e1 w asked (ask_each-SameEvents e "Please confirm: " ps w) found refl
          (stamped-Spared e (λ r. record r { reminder_sent_at = now }) refl refl))
        (SparedBy-Emits w1 (fire_webhooks_locked "reminder.sent" (of_event e1) w3) (
          Emits-trans (Emits-page (Emits-trans (warn_broken-Emits e1 ps w1) (audit-Emits _ _ w2)))
            (fire-Emits "reminder.sent" (of_event e1) w3)))

  remind-SparedBy : SparedBy w (remind now e w).1
  unfolding remind
  remind-SparedBy =
      let ps = assignees w.tables e.id in
      elim (Bool-cases (reminder_due now w.cfg e)) [
        | inr early ↦ rw (early, remind) (refl, AllSpared-refl w.tables.events)
        | inl due ↦ elim (Bool-cases (no_people (reachable_of ps))) [
          | inl nobody ↦ rw (due, nobody, remind) (warn_unreachable-SparedBy ps)
          | inr somebody ↦ rw (due, somebody, remind) (send_reminder-SparedBy ps)
        ]
      ]

  nudge-SparedBy : SparedBy w (nudge now e w).1
  unfolding nudge
  nudge-SparedBy =
      let silent = silent_people e w.tables in
      let e1 = record e { nudge_sent_at = now } in
      let asked = ask_each e "Reminder — please confirm: " silent w in
      let w1 = put_event e1 asked in
      elim (Bool-cases (not (nudge_due now w.cfg e) || no_people silent)) [
        | inl early ↦ rw (early, nudge) (refl, AllSpared-refl w.tables.events)
        | inr due ↦
            rw (due, nudge)
              (SparedBy-trans w w1 (audit_locked "reminder.nudged" (people_fields e silent w1) w1)
                (put_event-SparedBy e e1 w asked
                  (ask_each-SameEvents e "Reminder — please confirm: " silent w) found refl
                  (stamped-Spared e (λ r. record r { nudge_sent_at = now }) refl refl))
                (SparedBy-Emits w1 _
                  (audit-Emits "reminder.nudged" (people_fields e silent w1) w1)))
      ]

tick_reminders-SparedBy :
    (now : ℕ) (w : Service) → NamedTxns w.env → SparedBy w (tick_reminders_locked now w).1
unfolding tick_reminders_locked
tick_reminders-SparedBy now w named =
    visit_each-SparedBy (remind now) (λ e v found _. remind-SparedBy now e v found) (event_ids w)
      false w named

tick_nudges-SparedBy :
    (now : ℕ) (w : Service) → NamedTxns w.env → SparedBy w (tick_nudges_locked now w).1
unfolding tick_nudges_locked
tick_nudges-SparedBy now w named = elim (Bool-cases (is_zero w.cfg.nudge_lead)) [
  | inl off ↦ rw (off, tick_nudges_locked) (refl, AllSpared-refl w.tables.events)
  | inr lead ↦
      rw (lead, tick_nudges_locked)
        (visit_each-SparedBy (nudge now) (λ e v found _. nudge-SparedBy now e v found) (event_ids w)
          false w named)
]

audit_problems-Emits :
    (cs : List ChannelProblem) (w : Service) → Emits IsPage w (audit_problems cs w)
unfolding audit_problems
audit_problems-Emits [] w = Emits-refl w
audit_problems-Emits (c ∷ cs) w =
    Emits-trans (audit-Emits "channel.invalid" _ w) (audit_problems-Emits cs _)

note_problems-Emits :
    (cs : List ChannelProblem) (w : Service) → Emits IsPage w (note_problems cs w).1
unfolding note_problems page_problems
note_problems-Emits [] w = Emits-refl w
note_problems-Emits (c ∷ cs) w =
    Emits-trans (audit_problems-Emits (c ∷ cs) w) (elim (Bool-cases (any_of is_pressing (c ∷ cs))) [
      | inl e ↦ rw e (notify-Emits _ _ _)
      | inr e ↦ rw e (Emits-refl _)
    ])

scan-SameEvents : (w : Service) → SameEvents w (note_channel_problems_locked w).1
unfolding note_channel_problems_locked
scan-SameEvents w = elim (Bool-cases w.process.channels_scanned) [
  | inl e ↦ rw (e, note_channel_problems_locked) (refl, refl)
  | inr e ↦
      rw (e, note_channel_problems_locked)
        (let a = note_problems-Emits (channel_problems_locked (scanned w)) (scanned w) in
          SameEvents-Emits (scanned w) _ a)
]

still_named : (w v : Service) → SparedBy w v → NamedTxns w.env → NamedTxns v.env
still_named w v h named = subst (λ (c : Context). NamedTxns c.env) (sym h.0) named

-- The locked half of a round.
tick_locked-SparedBy : (now : ℕ) (w : Service) → NamedTxns w.env → SparedBy w (tick_locked now w).1
unfolding tick_locked
tick_locked-SparedBy now w named =
    let a = note_channel_problems_locked w in
    let b = tick_reminders_locked now a.1 in
    let c = tick_nudges_locked now b.1 in
    let d = tick_deadlines_locked now c.1 in
    let f = collect_outbox_locked now none d.1 in
    let g = prune_outbox_locked now f.1 in
    let changed = a.0 || b.0 || c.0 || d.0 || f.0.1 || g.0 in
    let h = save_changed changed g.1 in
    let first : SparedBy w a.1 = SameEvents-SparedBy w a.1 (scan-SameEvents w) in
    let second = tick_reminders-SparedBy now a.1 (still_named w a.1 first named) in
    let to_b = SparedBy-trans w a.1 b.1 first second in
    let third = tick_nudges-SparedBy now b.1 (still_named w b.1 to_b named) in
    let to_c = SparedBy-trans w b.1 c.1 to_b third in
    let fourth = tick_deadlines-SparedBy now c.1 (still_named w c.1 to_c named) in
    let to_d = SparedBy-trans w c.1 d.1 to_c fourth in
    let rest : SameEvents d.1 h = SameEvents-trans d.1 f.1 h (collect-SameEvents now none d.1) (
      SameEvents-trans f.1 g.1 h (prune-SameEvents now f.1)
        (SameEvents-Emits g.1 h (Emits-if changed (save-Emits g.1) (Emits-refl g.1)))) in
    SparedBy-trans w d.1 h to_d (SameEvents-SparedBy d.1 h rest)

-- A whole round of Tick, where no transaction id is empty and whatever the sends come back with: no
-- event is added or lost, the choice of what silence means stays, and no event is cancelled that
-- was not cancelled before and did not opt in to the switch.
pub tick-AllSpared :
    (now : ℕ) (send : OutboxAttempt → Option SendError) (w : Service)
    → NamedTxns w.env
    → AllSpared w.tables.events (tick now send w).tables.events
unfolding tick
tick-AllSpared now send w named =
    let r = tick_locked now w in
    let v = record_deliveries now (deliver send r.0) r.1 in
    (SparedBy-trans w r.1 v (tick_locked-SparedBy now w named)
      (SameEvents-SparedBy r.1 v (record_deliveries-SameEvents now (deliver send r.0) r.1))).1
