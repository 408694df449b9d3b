-- ===== src/Model/Rows.antt =====
-- The rows of the state: one record for each struct of internal/core.

use stattii.Base.{Bool, List, Option, String, ℕ}
use stattii.Model.Kinds.{
  ActionKind, ChangeKind, EventStatus, GuestStatus, IfUnconfirmed, Purpose, TrustLevel, Via,
}

pub record Event : Type 0 where
  pub id : String
  pub title : String
  pub location : String
  pub note : String
  pub starts_at : ℕ
  pub ends_at : ℕ
  pub status : EventStatus
  pub seq : ℕ
  pub if_unconfirmed : IfUnconfirmed
  pub cancel_reason : String
  pub created_at : ℕ
  pub cancelled_at : ℕ
  pub reminder_sent_at : ℕ
  pub deadline_fired_at : ℕ
  pub unreachable_notified_at : ℕ
  pub nudge_sent_at : ℕ
  pub fan_out_at : ℕ
  pub fan_out_count : ℕ
  pub fan_out_txn_id : String
  pub source_uid : String
  pub source_key : String
  pub vanished_at : ℕ

-- The payload for creating an event.
pub record EventInput : Type 0 where
  pub title : String
  pub location : String
  pub note : String
  pub starts_at : ℕ
  pub ends_at : ℕ
  pub if_unconfirmed : IfUnconfirmed
  pub source_uid : String
  pub source_key : String

-- One way to reach a person or an audience.
pub record Address : Type 0 where
  pub kind : String
  pub to : String

pub record Person : Type 0 where
  pub id : String
  pub name : String
  pub trust : TrustLevel
  pub portal_token : String
  pub channels : List Address

pub record Assignment : Type 0 where
  pub event_id : String
  pub person_id : String
  pub role : String

pub record ActionLink : Type 0 where
  pub token : String
  pub event_id : String
  pub person_id : String
  pub action : ActionKind
  pub revoked_at : ℕ

pub record Response : Type 0 where
  pub at : ℕ
  pub event_id : String
  pub person_id : String
  pub action : ActionKind
  pub via : Via

pub record Proposal : Type 0 where
  pub id : String
  pub person_id : String
  pub kind : ChangeKind
  pub event_id : String
  pub title : String
  pub starts_at : ℕ
  pub ends_at : ℕ
  pub note : String
  pub created_at : ℕ
  pub decided_at : ℕ
  pub accepted : Bool

pub record Broadcast : Type 0 where
  pub id : String
  pub name : String
  pub kind : String
  pub to : String

pub record Webhook : Type 0 where
  pub id : String
  pub url : String
  pub secret : String
  pub events : List String

pub record Button : Type 0 where
  pub label : String
  pub payload : String

pub record OutboxItem : Type 0 where
  pub id : String
  pub event_id : String
  pub person_id : String
  pub guest_id : String
  pub purpose : Purpose
  pub txn_id : String
  pub kind : String
  pub to : String
  pub subject : String
  pub body : String
  pub buttons : List Button
  pub headers : List (String × String)
  pub attempts : ℕ
  pub next_attempt : ℕ
  pub delivered_at : ℕ
  pub escalated_at : ℕ
  pub last_error : String
  pub created_at : ℕ

-- import.go
pub record SeriesAssignment : Type 0 where
  pub source_uid : String
  pub person_id : String
  pub role : String

-- invite.go
pub record InviteLink : Type 0 where
  pub token : String
  pub event_id : String
  pub created_at : ℕ
  pub revoked_at : ℕ

pub record Guest : Type 0 where
  pub id : String
  pub event_id : String
  pub name : String
  pub email : String
  pub status : GuestStatus
  pub note : String
  pub created_at : ℕ
  pub updated_at : ℕ

-- telegram_onboard.go
pub record TelegramOnboarding : Type 0 where
  pub token : String
  pub person_id : String
  pub created_at : ℕ
  pub expires_at : ℕ

-- What one calendar fetch did; import.go
pub record ImportReport : Type 0 where
  pub fetched_at : ℕ
  pub created : ℕ
  pub moved : ℕ
  pub updated : ℕ
  pub unchanged : ℕ
  pub vanished : List String
  pub conflicts : List String
  pub skipped : List String
  pub silent : List String
  pub suspect : Bool

-- icsimport/expand.go
pub record Occurrence : Type 0 where
  pub key : String
  pub uid : String
  pub summary : String
  pub location : String
  pub start : ℕ
  pub finish : ℕ

pub record Skipped : Type 0 where
  pub uid : String
  pub summary : String
  pub reason : String

-- The tables of `State`, without its outbox.
pub record Tables : Type 0 where
  pub events : List Event
  pub people : List Person
  pub assignments : List Assignment
  pub links : List ActionLink
  pub responses : List Response
  pub proposals : List Proposal
  pub broadcasts : List Broadcast
  pub webhooks : List Webhook
  pub series_assignments : List SeriesAssignment
  pub invites : List InviteLink
  pub guests : List Guest
  pub telegram_onboardings : List TelegramOnboarding
  pub last_import : Option ImportReport
