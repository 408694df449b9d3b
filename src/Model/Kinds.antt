-- ===== src/Model/Kinds.antt =====
-- The string-typed enumerations of internal/core. A type whose values come from a request has a
-- constructor for any other text; the event status is only ever written by the code itself.

use stattii.Base.{String, Bool, true, false}

pub data TrustLevel : Type 0 where
  respond propose direct : TrustLevel
  other : String → TrustLevel

-- TrustLevel.Valid
abbrev pub valid_trust : TrustLevel → Bool
valid_trust (TrustLevel.other _) = false
valid_trust _ = true

pub data EventStatus : Type 0 where
  scheduled confirmed cancelled : EventStatus

abbrev pub is_cancelled : EventStatus → Bool
is_cancelled cancelled = true
is_cancelled _ = false

abbrev pub is_scheduled : EventStatus → Bool
is_scheduled scheduled = true
is_scheduled _ = false

-- Event.IfUnconfirmed, the dead-man-switch.
pub data IfUnconfirmed : Type 0 where
  unset notify cancel : IfUnconfirmed
  other : String → IfUnconfirmed

abbrev pub auto_cancels : IfUnconfirmed → Bool
auto_cancels IfUnconfirmed.cancel = true
auto_cancels _ = false

pub data ActionKind : Type 0 where
  confirm cancel : ActionKind
  other : String → ActionKind

abbrev pub is_confirm : ActionKind → Bool
is_confirm ActionKind.confirm = true
is_confirm _ = false

abbrev pub is_cancel : ActionKind → Bool
is_cancel ActionKind.cancel = true
is_cancel _ = false

-- Proposal.Kind
pub data ChangeKind : Type 0 where
  cancel move create : ChangeKind
  other : String → ChangeKind

-- How a decision came in: Response.Via, and the `via` of a cancellation.
pub data Via : Type 0 where
  link portal api proposal deadline : Via

abbrev pub is_deadline : Via → Bool
is_deadline Via.deadline = true
is_deadline _ = false

-- OutboxItem.Purpose
pub data Purpose : Type 0 where
  reminder vanished cancellation moved reinstated : Purpose
  proposal escalation webhook onboarding test : Purpose

abbrev pub is_escalation : Purpose → Bool
is_escalation escalation = true
is_escalation _ = false

-- The purposes of a propagation transaction.
abbrev pub is_propagation : Purpose → Bool
is_propagation cancellation = true
is_propagation moved = true
is_propagation reinstated = true
is_propagation _ = false

pub data GuestStatus : Type 0 where
  coming declined : GuestStatus
  other : String → GuestStatus

-- GuestStatus.Valid
abbrev pub valid_answer : GuestStatus → Bool
valid_answer (GuestStatus.other _) = false
valid_answer _ = true
