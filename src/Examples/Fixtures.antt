-- ===== src/Examples/Fixtures.antt =====
-- An event with one responsible, a broadcast target, a guest, a link and two outbox rows.

use stattii.Base.{String, [], concat, false, none, some, suc, true, zero, ℕ, ◌==◌, ◌∷◌}
use stattii.Lifecycle.Transactions.{NamedTxns}
use stattii.Links.Minting.{NamedTokens}
use stattii.Model.{
  ActionKind, ActionLink, Event, Guest, GuestStatus, IfUnconfirmed, OutboxItem, Person, Tables,
  cancellation, cancelled, direct, scheduled,
}
use stattii.Service.{Config, Env, Service}

abbrev pub tally_marks : ℕ → String
tally_marks zero = ""
tally_marks (suc n) = concat ("i" ∷ tally_marks n ∷ [])

-- Ids and tokens are drawn in order; every write succeeds.
abbrev pub demo_env : Env
demo_env = record {
  new_id = λ prefix n. String.◌∷◌ "#" (concat (prefix ∷ tally_marks n ∷ []));
  new_token = λ n. String.◌∷◌ "t" (tally_marks n);
  audit_result = λ n. none;
  save_result = λ n. none;
  format_time = λ layout t. "then";
  format_number = λ n. tally_marks n;
  marshal = λ event t payload. some "{}";
  sign = λ secret body. "mac";
  to_lower = λ s. s;
  equal_fold = λ a b. a == b;
  parse_address = λ s. some s;
  parse_url = λ s. none;
  replace_urls = λ f s. s;
  replace_all = λ s a b. s;
  quote = λ s. s;
  format_duration = λ d. "a while";
  reallocates = λ n. true;
}

abbrev pub demo_cfg : Config
demo_cfg = record {
  base_url = "https://s";
  reminder_lead = 50;
  deadline_lead = 20;
  nudge_lead = 30;
  retry_delay = 5;
  max_attempts = 5;
  escalate_after = 40;
  outbox_retention = 100;
  calendar_source = "webcal://x/feed.ics";
  calendar_window = 5000;
  calendar_fetch_every = 0;
  admin_notify = some (record { kind = "email"; to = "admin@x" });
}

abbrev pub meeting : Event
meeting = record {
  id = "ev1";
  title = "Meeting";
  location = "";
  note = "";
  starts_at = 1000;
  ends_at = 1100;
  status = scheduled;
  seq = 0;
  if_unconfirmed = IfUnconfirmed.cancel;
  cancel_reason = "";
  created_at = 10;
  cancelled_at = 0;
  reminder_sent_at = 0;
  deadline_fired_at = 0;
  unreachable_notified_at = 0;
  nudge_sent_at = 0;
  fan_out_at = 0;
  fan_out_count = 0;
  fan_out_txn_id = "";
  source_uid = "";
  source_key = "";
  vanished_at = 0;
}

abbrev pub called_off : Event
called_off = record meeting {
  id = "ev2";
  status = cancelled;
  cancelled_at = 20;
  fan_out_at = 20;
  fan_out_count = 2;
  fan_out_txn_id = "tx-old";
}

abbrev pub ada : Person
ada = record {
  id = "p1";
  name = "Ada";
  trust = direct;
  portal_token = "port";
  channels =
      record { kind = "email"; to = "ada@x" }
      ∷ record { kind = "webhook"; to = "https://h/s" }
      ∷ [];
}

abbrev pub confirm_link : ActionLink
confirm_link = record {
  token = "yes";
  event_id = "ev1";
  person_id = "p1";
  action = ActionKind.confirm;
  revoked_at = 0;
}

-- A link of another event, which a revocation for `ev1` leaves alone.
abbrev pub other_link : ActionLink
other_link = record confirm_link { token = "later"; event_id = "ev2" }

abbrev pub visitor : Guest
visitor = record {
  id = "g1";
  event_id = "ev1";
  name = "Guest";
  email = "guest@x";
  status = GuestStatus.other "";
  note = "";
  created_at = 10;
  updated_at = 10;
}

abbrev pub demo_tables : Tables
demo_tables = record {
  events = meeting ∷ called_off ∷ [];
  people = ada ∷ [];
  assignments = record { event_id = "ev1"; person_id = "p1"; role = "host" } ∷ [];
  links = confirm_link ∷ other_link ∷ [];
  responses = [];
  proposals = [];
  broadcasts = record { id = "b1"; name = "list"; kind = "email"; to = "list@x" } ∷ [];
  webhooks = [];
  series_assignments = [];
  invites = [];
  guests = visitor ∷ [];
  telegram_onboardings = [];
  last_import = none;
}

abbrev pub waiting : OutboxItem
waiting = record {
  id = "ob1";
  event_id = "ev2";
  person_id = "p1";
  guest_id = "";
  purpose = cancellation;
  txn_id = "tx-old";
  kind = "email";
  to = "ada@x";
  subject = "CANCELLED";
  body = "off";
  buttons = [];
  headers = [];
  attempts = 1;
  next_attempt = 90;
  delivered_at = 0;
  escalated_at = 0;
  last_error = "busy";
  created_at = 20;
}

abbrev pub arrived_row : OutboxItem
arrived_row = record waiting { id = "ob2"; to = "list@x"; attempts = 1; delivered_at = 30 }

abbrev pub demo : Service
demo = record {
  ctx = record { env = demo_env; cfg = demo_cfg; now = 100 };
  tables = demo_tables;
  process = record {
    import_failed = false;
    channels_scanned = true;
    sending = [];
    sending_to = [];
    telegram_bot = "";
  };
  outbox = waiting ∷ arrived_row ∷ [];
  save_failed = false;
  audit_failed = false;
  drawn = 3;
  audits = 0;
  saves = 0;
  log = [];
  disk = none;
}

-- The same service over a store that fails.
abbrev pub failing : Service
failing = record demo {
  ctx = record {
    env = record demo_env {
      save_result = λ n. some "disk full";
      audit_result = λ n. some "disk full";
    };
    cfg = demo_cfg;
    now = 100;
  };
}

pub demo-NamedTxns : NamedTxns demo_env
demo-NamedTxns n = λ h. cc

pub demo-NamedTokens : NamedTokens demo_env
demo-NamedTokens n = λ h. cc
