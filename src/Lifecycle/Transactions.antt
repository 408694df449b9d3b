-- ===== src/Lifecycle/Transactions.antt =====
-- One status flip is one transaction: what cancelLocked, moveLocked and ReinstateEvent do to the
-- tables and to the outbox, from the state before the call.

use stattii.Base.{
  All, Bool, List, String, [], ap, append_assoc, ap₂, arith, eq_refl, length, map, map-append, refl,
  select, select-append, subst, sym, true, update_first, ℕ, ◌++◌, ◌∙◌, ◌∷◌, ◌≡◌, ◌≢◌,
}
use stattii.Lifecycle.FanOut.{put_event}
use stattii.Lifecycle.Propagation.{letter_of, next_txn, owed_for}
use stattii.Lifecycle.Recipients.{in_txn, letters, letters-NoTxn, owed, owed-tables, unstamped}
use stattii.Lifecycle.Tail.{Told}
use stattii.Model.{Event, OutboxItem, Purpose, Response, Tables, has_id}
use stattii.Service.{Context, Env, Service}
use stattii.Service.Frame.{NoTxn}

-- The ids of crypto/rand are never empty: each begins with its prefix.
abbrev pub NamedTxns : Env → Type 0
NamedTxns env = (n : ℕ) → env.new_id "tx" n ≢ ""

-- The tables after a transaction that rewrites the event's row.
abbrev pub with_row : Tables → Event → List Response → Tables
with_row t row responses = record t {
  events = update_first (has_id row.id) (λ _. row) t.events;
  responses = responses;
}

-- A flip of `e` to the row `e1`, with the answers `responses` on record.
pub record Transaction (e1 : Event) (purpose : Purpose) (subject body : String)
    (responses : List Response) (w : Service) (row : Event) (after : Service) : Type 0 where
  pub ctx : after.ctx ≡ w.ctx
  pub process : after.process ≡ w.process
  pub tables : after.tables ≡ with_row w.tables row responses
  pub txn : String
  pub drawn_at : ℕ
  pub minted : txn ≡ w.env.new_id "tx" drawn_at
  pub named : txn ≢ ""
  pub sent : List OutboxItem
  pub outbox : after.outbox ≡ w.outbox ++ sent
  pub messages :
      letters txn sent ≡ owed w.env.to_lower (letter_of e1 purpose txn subject body) e1.id w.tables
  pub recorded : row ≡ record e1 {
    fan_out_at = w.now;
    fan_out_count =
        length (owed w.env.to_lower (letter_of e1 purpose txn subject body) e1.id w.tables);
    fan_out_txn_id = txn;
  }

-- What precedes the fan-out: the row, the answer and the audit lines.
pub record Flipped (e1 : Event) (responses : List Response) (w before : Service) : Type 0 where
  pub ctx : before.ctx ≡ w.ctx
  pub process : before.process ≡ w.process
  pub tables : before.tables ≡ with_row w.tables e1 responses
  pub sent : List OutboxItem
  pub outbox : before.outbox ≡ w.outbox ++ sent
  pub all : All NoTxn sent

-- A second write through the same pointer replaces the first.
update_first_twice :
    (p : Event → Bool) (a b : Event) (es : List Event)
    → p a ≡ true
    → update_first p (λ _. b) (update_first p (λ _. a) es) ≡ update_first p (λ _. b) es
update_first_twice p a b [] h = refl
update_first_twice p a b (e ∷ es) h = ground (arith, update_first_twice p a b es h)

put-with_row :
    (t : Tables) (e1 row : Event) (responses : List Response)
    → row.id ≡ e1.id
    → record (with_row t e1 responses) {
      events = update_first (has_id row.id) (λ _. row) (with_row t e1 responses).events;
    }
      ≡ with_row t row responses
put-with_row t e1 row responses h =
    ap {A = List Event} {B = Tables} (λ es. record t { events = es; responses = responses })
      (subst
        (λ i.
          update_first (has_id i) (λ _. row) (update_first (has_id e1.id) (λ _. e1) t.events)
          ≡ update_first (has_id i) (λ _. row) t.events)
        (sym h) (update_first_twice (has_id e1.id) e1 row t.events (eq_refl e1.id)))

owed-with_row :
    (lower : String → String) (item : String → String → OutboxItem) (id : String) (t : Tables)
    (row : Event) (responses : List Response)
    → owed lower item id (with_row t row responses) ≡ owed lower item id t
owed-with_row lower item id t row responses =
    owed-tables lower item id (with_row t row responses) t refl refl refl refl

-- The flip and the shared tail make the transaction.
module _ {e1 : Event} {responses : List Response} {w before : Service} (purpose : Purpose)
    (subject body : String) where
  owed-Flipped :
      Flipped e1 responses w before
      → owed_for e1 purpose subject body before
        ≡ owed w.env.to_lower (letter_of e1 purpose (next_txn before) subject body) e1.id w.tables
  owed-Flipped f =
      ap₂ (λ c t. owed c.env.to_lower (letter_of e1 purpose (next_txn before) subject body) e1.id t)
        f.ctx f.tables
      ∙ owed-with_row w.env.to_lower (letter_of e1 purpose (next_txn before) subject body) e1.id
          w.tables e1 responses

  pub Flipped-Told :
      {row : Event} {after : Service}
      → next_txn before ≢ ""
      → Flipped e1 responses w before
      → Told e1 purpose subject body before row after
      → Transaction e1 purpose subject body responses w row after
  unfolding put_event
  Flipped-Told {row} {after} named f t = record {
    ctx = t.ctx ∙ f.ctx;
    process = t.process ∙ f.process;
    tables =
        t.tables
        ∙ ap {A = Tables} {B = Tables}
            (λ ts. record ts { events = update_first (has_id row.id) (λ _. row) ts.events })
            f.tables
        ∙ put-with_row w.tables e1 row responses (ap (λ e. e.id) t.recorded);
    txn = next_txn before;
    drawn_at = before.drawn;
    minted = ap (λ (c : Context). c.env.new_id "tx" before.drawn) f.ctx;
    named = named;
    sent = f.sent ++ t.sent;
    outbox = t.outbox ∙ ap (λ o. o ++ t.sent) f.outbox ∙ append_assoc w.outbox f.sent t.sent;
    messages =
        ap (map unstamped) (select-append (in_txn (next_txn before)) f.sent t.sent)
        ∙ map-append unstamped (select (in_txn (next_txn before)) f.sent)
            (select (in_txn (next_txn before)) t.sent)
        ∙ ap₂ (λ l m. l ++ m) (letters-NoTxn f.sent named f.all) (t.messages ∙ owed-Flipped f);
    recorded =
        t.recorded
        ∙ ap₂ {A = Context} {B = List OutboxItem} {C = Event}
            (λ c l. record e1 {
              fan_out_at = c.now;
              fan_out_count = length l;
              fan_out_txn_id = next_txn before;
            })
            f.ctx (owed-Flipped f);
  }
