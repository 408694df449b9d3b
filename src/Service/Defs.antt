-- ===== src/Service/Defs.antt =====
-- The state behind the one mutex, and what the service takes from outside: the random source, the
-- clock, the store's answers, and the formatters of the standard library whose text it only passes
-- on. The clock `now` stands still within one operation, as under the tests' SetClock.

use stattii.Base.{Bool, List, Option, String, suc, ℕ}
use stattii.Model.{
  Address, Event, EventStatus, GuestStatus, OutboxItem, Proposal, Purpose, Tables, TrustLevel, Via,
}

-- A value of the `map[string]any` that an audit line or a webhook carries.
pub data Value : Type 0 where
  text : String → Value
  texts : List String → Value
  number moment : ℕ → Value
  flag : Bool → Value
  a_status : EventStatus → Value
  an_answer : GuestStatus → Value
  a_trust : TrustLevel → Value
  a_via : Via → Value
  a_purpose : Purpose → Value

abbrev pub Fields : Type 0
Fields = List (String × Value)

-- What `fireWebhooksLocked` is given to marshal.
pub data Payload : Type 0 where
  of_event : Event → Payload
  of_proposal : Proposal → Payload
  of_fields : Fields → Payload

-- `url.Parse`, as far as the code reads its result.
pub record Url : Type 0 where
  pub scheme : String
  pub host : String
  pub escaped_path : String
  pub raw_query : String
  pub has_user : Bool

-- The n-th draw of crypto/rand as an id or a token, the store's n-th answer (none is success), and
-- pure functions of the standard library. `reallocates` says whether an append to a slice of that
-- length moves it to a new array.
pub record Env : Type 0 where
  pub new_id : String → ℕ → String
  pub new_token : ℕ → String
  pub audit_result : ℕ → Option String
  pub save_result : ℕ → Option String
  pub format_time : String → ℕ → String
  pub format_number : ℕ → String
  pub marshal : String → ℕ → Payload → Option String
  pub sign : String → String → String
  pub to_lower : String → String
  pub equal_fold : String → String → Bool
  pub parse_address : String → Option String
  pub parse_url : String → Option Url
  pub replace_urls : (String → String) → String → String
  pub replace_all : String → String → String → String
  pub quote : String → String
  pub format_duration : ℕ → String
  pub reallocates : ℕ → Bool

-- Durations are in the unit of the times.
pub record Config : Type 0 where
  pub base_url : String
  pub reminder_lead : ℕ
  pub deadline_lead : ℕ
  pub nudge_lead : ℕ
  pub retry_delay : ℕ
  pub max_attempts : ℕ
  pub escalate_after : ℕ
  pub outbox_retention : ℕ
  pub admin_notify : Option Address
  pub calendar_source : String
  pub calendar_window : ℕ
  pub calendar_fetch_every : ℕ

pub record Context : Type 0 where
  pub env : Env
  pub cfg : Config
  pub now : ℕ

-- The fields of `Service` that live in memory only, but for the store's health.
pub record Process : Type 0 where
  pub import_failed : Bool
  pub channels_scanned : Bool
  pub sending : List (String × ℕ)
  pub sending_to : List (String × ℕ)
  pub telegram_bot : String

-- One line of audit.jsonl; the time that the store stamps on it is not modelled.
pub record AuditEntry : Type 0 where
  pub kind : String
  pub fields : Fields

-- What `state.json` holds.
pub record State : Type 0 where
  pub tables : Tables
  pub outbox : List OutboxItem

pub record Service : Type 0 where
  pub ctx : Context
  pub open ctx use *
  pub tables : Tables
  pub open tables use *
  pub process : Process
  pub open process use *
  pub outbox : List OutboxItem
  pub save_failed : Bool
  pub audit_failed : Bool
  pub drawn : ℕ
  pub audits : ℕ
  pub saves : ℕ
  pub log : List AuditEntry
  pub disk : Option State

-- NewID
unfoldable pub new_id : String → Service → String × Service
new_id prefix w = (w.env.new_id prefix w.drawn, record w { drawn = suc w.drawn })

-- NewToken
unfoldable pub new_token : Service → String × Service
new_token w = (w.env.new_token w.drawn, record w { drawn = suc w.drawn })

abbrev pub time_fmt : String
time_fmt = "Mon, 02 Jan 2006 15:04 MST"

abbrev pub when : Context → ℕ → String
when c t = c.env.format_time time_fmt t
