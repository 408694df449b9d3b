-- ===== src/Lifecycle/FanOut.antt =====
-- fanOutLocked, nobodyToldLocked and nobodyToldBodyLocked of internal/core/service.go. A pointer
-- into `State.Events` is the event's current row, which `put_event` writes back.

use stattii.Base.{
  Bool, List, String, [], any_of, concat, false, if◌then◌else◌, length, ltb, true, update_first, ℕ,
  ◌&&◌, ◌+◌, ◌==◌, ◌||◌, ◌∷◌,
}
use stattii.Model.{
  Broadcast, Event, Guest, OutboxItem, Person, Purpose, assignees, cancellation, escalation,
  guests_for, has_id, is_propagation, moved, onboarding, reinstated, reminder, vanished,
}
use stattii.Service.{
  Service, a_purpose, a_status, audit_locked, enqueue_locked, enqueue_to_person_locked, mail,
  new_id, notify_admin_locked, text, webhooks_matching_locked, when,
}

unfoldable pub map_events : (List Event → List Event) → Service → Service
map_events f w = record w { tables = record w.tables { events = f w.tables.events } }

-- A write through the pointer that `State.Event` returned.
unfoldable pub put_event : Event → Service → Service
unfolding map_events
put_event e w = map_events (update_first (has_id e.id) (λ _. e)) w

-- One message of a propagation transaction, as the three loops build it.
unfoldable pub notice : Event → Purpose → String → String → String → String → String → OutboxItem
notice e purpose txn kind to subject body = record (mail purpose kind to subject body) {
  event_id = e.id;
  txn_id = txn;
}

unfoldable pub send_broadcasts :
    (String → String → OutboxItem) → List Broadcast → ℕ → Service → ℕ × Service
send_broadcasts item [] n w = (n, w)
send_broadcasts item (b ∷ rest) n w =
    send_broadcasts item rest (n + 1) (enqueue_locked (item b.kind b.to) w).1

unfoldable pub send_people :
    (String → String → OutboxItem) → List Person → ℕ → Service → ℕ × Service
send_people item [] n w = (n, w)
send_people item (p ∷ rest) n w =
    let (ids, w') = enqueue_to_person_locked p (item "" "") w in
    send_people item rest (n + length ids) w'

-- `seen[key]`
abbrev pub seen_key : String → List String → Bool
seen_key key seen = any_of (λ k. k == key) seen

-- A guest without an address, or with one that an earlier guest gave.
abbrev pub skips_guest : (String → String) → Guest → List String → Bool
skips_guest lower g seen = g.email == "" || seen_key (lower g.email) seen

unfoldable pub send_guest :
    Bool → (String → String → OutboxItem) → Guest → ℕ → Service → ℕ × Service
send_guest true item g n w = (n, w)
send_guest false item g n w =
    (n + 1, (enqueue_locked (record (item "email" g.email) { guest_id = g.id }) w).1)

-- One mail per address, whatever the guest's answer; `lower` is strings.ToLower.
unfoldable pub send_guests :
    (String → String)
    → (String → String → OutboxItem)
    → List Guest
    → List String
    → ℕ
    → Service
    → ℕ × Service
unfolding send_guest
send_guests lower item [] seen n w = (n, w)
send_guests lower item (g ∷ rest) seen n w =
    let skip = skips_guest lower g seen in
    let (n', w') = send_guest skip item g n w in
    send_guests lower item rest (if skip then seen else lower g.email ∷ seen) n' w'

-- fanOutLocked: the count, and the event's row after it.
unfoldable pub fan_out_locked : Event → Purpose → String → String → Service → ℕ × Event × Service
unfolding notice send_broadcasts send_people send_guests put_event new_id
fan_out_locked e purpose subject body w =
    let (txn, w1) = new_id "tx" w in
    let item = λ (kind to : String). notice e purpose txn kind to subject body in
    let (n1, w2) = send_broadcasts item w1.tables.broadcasts 0 w1 in
    let (n2, w3) = send_people item (assignees w2.tables e.id) n1 w2 in
    let (n3, w4) = send_guests w3.env.to_lower item (guests_for w3.tables e.id) [] n2 w3 in
    let e' = record e { fan_out_at = w4.now; fan_out_count = n3; fan_out_txn_id = txn } in
    (n3, e', put_event e' w4)

-- The word of nobodyToldBodyLocked for a purpose: any other purpose stands for itself.
unfoldable pub told_word : Purpose → String
told_word cancellation = "cancelled"
told_word moved = "moved"
told_word reinstated = "reinstated"
told_word reminder = "reminder"
told_word vanished = "vanished"
told_word Purpose.proposal = "proposal"
told_word escalation = "escalation"
told_word Purpose.webhook = "webhook"
told_word onboarding = "onboarding"
told_word Purpose.test = "test"

unfoldable pub nobody_told_body_locked : Event → Purpose → Service → String
unfolding told_word webhooks_matching_locked
nobody_told_body_locked e purpose w =
    let what = told_word purpose in
    concat (
      e.title
      ∷ " on "
      ∷ when w.ctx e.starts_at
      ∷ " was "
      ∷ what
      ∷ ", but the notice reached NOBODY:\n"
      ∷ "- no broadcast target is configured (stattii broadcast add),\n"
      ∷ "- no responsible person has a channel (see /admin/people),\n"
      ∷ "- no party guest left an address.\n"
      ∷ "Tell people by hand now, then fix one of the three so the next notice goes out by itself."
      ∷ (if is_propagation purpose
            && ltb 0 (webhooks_matching_locked (concat ("event." ∷ what ∷ [])) w)
          then "\nA webhook consumer was notified — but no person."
          else "")
      ∷ [])

-- nobodyToldLocked
unfoldable pub nobody_told_locked : Event → Purpose → ℕ → Bool → Service → Service
unfolding nobody_told_body_locked
nobody_told_locked e purpose n page w =
    if ltb 0 n
    then w
    else (let w1 =
          audit_locked "propagation.empty"
            (("event_id", text e.id)
              ∷ ("purpose", a_purpose purpose)
              ∷ ("title", text e.title)
              ∷ ("status", a_status e.status)
              ∷ [])
            w in
        if page
        then notify_admin_locked (concat ("Nobody was told: " ∷ e.title ∷ []))
            (nobody_told_body_locked e purpose w1) w1
        else w1)
