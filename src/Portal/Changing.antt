-- ===== src/Portal/Changing.antt =====
-- applyChangeLocked, PortalRespond, PortalSubmit, DecideProposal and RotatePortal of
-- internal/core/portal.go.

use stattii.Base.{
  Bool, Option, Result, String, [], already_cancelled, any_of, concat, err, false, find_first,
  forbidden, if◌then◌else◌, message, none, not, not_found, ok, some, true, ℕ, ◌&&◌, ◌==◌, ◌∷◌,
}
use stattii.Lifecycle.{
  cancel_locked, confirm_locked, create_locked, move_locked, save_if_ok, validate_input,
}
use stattii.Model.{
  ActionKind, ChangeKind, EventInput, Person, Tables, TrustLevel, Via, direct, is_zero, propose,
  respond, unset,
}
use stattii.Portal.Filing.{draft_of, file_proposal_locked, kind_text}
use stattii.Service.{Env, Service, save_locked}
use stattii.Staffing.{assign_locked, is_assignment}

abbrev pub holds_portal : String → Person → Bool
holds_portal token p = p.portal_token == token

-- personByPortalLocked
abbrev pub person_by_portal_locked : String → Tables → Option Person
person_by_portal_locked token t =
    if token == "" then none else find_first (holds_portal token) t.people

-- assignedLocked
abbrev pub assigned_locked : String → String → Service → Bool
assigned_locked event_id person_id w =
    any_of (is_assignment event_id person_id) w.tables.assignments

abbrev pub forget {ℓ} : {A : Type ℓ} → Result A × Service → Result (Unit {0}) × Service
forget (ok a, w) = (ok tt, w)
forget (err e, w) = (err e, w)

-- Cancelling what is cancelled is a no-op.
abbrev pub forget_cancelled {ℓ} : {A : Type ℓ} → Result A × Service → Result (Unit {0}) × Service
forget_cancelled (err already_cancelled, w) = (ok tt, w)
forget_cancelled (err e, w) = (err e, w)
forget_cancelled (ok a, w) = (ok tt, w)

abbrev pub portal_input : String → String → ℕ → ℕ → EventInput
portal_input title note start end = record {
  title = title;
  location = "";
  note = note;
  starts_at = start;
  ends_at = end;
  if_unconfirmed = unset;
  source_uid = "";
  source_key = "";
}

-- applyChangeLocked
unfoldable pub apply_change_locked :
    ChangeKind
    → String
    → String
    → String
    → String
    → ℕ
    → ℕ
    → Via
    → Service
    → Result (Unit {0}) × Service
unfolding cancel_locked move_locked create_locked assign_locked
apply_change_locked ChangeKind.cancel person_id event_id title note start end via w =
    forget_cancelled (cancel_locked event_id person_id note via w)
apply_change_locked ChangeKind.move person_id event_id title note start end via w =
    forget (move_locked event_id start end note person_id w)
apply_change_locked ChangeKind.create person_id event_id title note start end via w =
    let (e, w1) = create_locked (portal_input title note start end) person_id w in
    (ok tt, (assign_locked e.id person_id "" w1).1)
apply_change_locked (ChangeKind.other k) person_id event_id title note start end via w =
    (err (message (concat ("unknown kind " ∷ w.env.quote k ∷ []))), w)

unfoldable pub respond_as :
    Option Person → String → ActionKind → Service → Result (Unit {0}) × Service
unfolding confirm_locked cancel_locked
respond_as none event_id action w = (err not_found, w)
respond_as (some p) event_id action w =
    if not (assigned_locked event_id p.id w)
    then (err not_found, w)
    else save_if_ok (elim action [
      | ActionKind.confirm ↦ forget (confirm_locked event_id p.id Via.portal w)
      | ActionKind.cancel ↦ forget (cancel_locked event_id p.id "" Via.portal w)
      | ActionKind.other a ↦ (err (message (concat ("unknown action " ∷ w.env.quote a ∷ []))), w)
    ])

-- PortalRespond
unfoldable pub portal_respond : String → String → ActionKind → Service → Result (Unit {0}) × Service
unfolding respond_as
portal_respond token event_id action w =
    respond_as (person_by_portal_locked token w.tables) event_id action w

-- The checks of PortalSubmit that do not depend on the person.
unfoldable pub check_change : Env → ChangeKind → String → String → ℕ → ℕ → Result (Unit {0})
unfolding validate_input
check_change env ChangeKind.create title note start end =
    validate_input (portal_input title note start end)
check_change env ChangeKind.move title note start end =
    if is_zero start then err (message "starts_at is required for a move") else ok tt
check_change env ChangeKind.cancel title note start end = ok tt
check_change env (ChangeKind.other k) title note start end =
    err (message (concat ("unknown kind " ∷ env.quote k ∷ [])))

abbrev pub targets_event : ChangeKind → Bool
targets_event ChangeKind.cancel = true
targets_event ChangeKind.move = true
targets_event _ = false

-- Whether the change was applied.
unfoldable pub applied_now : Result (Unit {0}) × Service → Result Bool × Service
applied_now (ok _, w) = (ok true, save_locked w)
applied_now (err e, w) = (err e, w)

unfoldable pub filed {ℓ} : {A : Type ℓ} → Result A × Service → Result Bool × Service
filed (ok _, w) = (ok false, w)
filed (err e, w) = (err e, w)

unfoldable pub submit_trusted :
    TrustLevel
    → Person
    → ChangeKind
    → String
    → String
    → String
    → ℕ
    → ℕ
    → Service
    → Result Bool × Service
unfolding apply_change_locked applied_now file_proposal_locked filed
submit_trusted direct p kind event_id title note start end w =
    applied_now (apply_change_locked kind p.id event_id title note start end Via.portal w)
submit_trusted propose p kind event_id title note start end w = filed (
    file_proposal_locked (draft_of p.id kind event_id title note start end) p.name Via.portal
      (concat (
        p.name
        ∷ " proposes: "
        ∷ kind_text kind
        ∷ " "
        ∷ event_id
        ∷ " "
        ∷ title
        ∷ "\nDecide: stattii proposal list / decide"
        ∷ []))
      w)
submit_trusted respond p kind event_id title note start end w = (err forbidden, w)
submit_trusted (TrustLevel.other t) p kind event_id title note start end w = (err forbidden, w)

unfoldable pub submit_checked :
    Result (Unit {0})
    → Person
    → ChangeKind
    → String
    → String
    → String
    → ℕ
    → ℕ
    → Service
    → Result Bool × Service
unfolding submit_trusted
submit_checked (err e) p kind event_id title note start end w = (err e, w)
submit_checked (ok _) p kind event_id title note start end w =
    if targets_event kind && not (assigned_locked event_id p.id w)
    then (err not_found, w)
    else submit_trusted p.trust p kind event_id title note start end w

unfoldable pub submit_as :
    Option Person → ChangeKind → String → String → String → ℕ → ℕ → Service → Result Bool × Service
unfolding check_change submit_checked
submit_as none kind event_id title note start end w = (err not_found, w)
submit_as (some p) kind event_id title note start end w =
    submit_checked (check_change w.env kind title note start end) p kind event_id title note start
      end w

-- PortalSubmit
unfoldable pub portal_submit :
    String → ChangeKind → String → String → String → ℕ → ℕ → Service → Result Bool × Service
unfolding submit_as
portal_submit token kind event_id title note start end w =
    submit_as (person_by_portal_locked token w.tables) kind event_id title note start end w
