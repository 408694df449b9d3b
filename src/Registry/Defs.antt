-- ===== src/Registry/Defs.antt =====
-- AddPerson, AddBroadcast, AddWebhook, DeleteBroadcast and DeleteWebhook of internal/core/service.go,
-- with restoreShown and shownChannels of redact.go.

use stattii.Base.{
  Bool, Char, List, Option, Result, String, [], any_of, chars, concat, err, false, find_first,
  if◌then◌else◌, map, message, none, not, not_found, ok, remove_first, some, true, ◌&&◌, ◌++◌, ◌==◌,
  ◌>>=◌, ◌||◌, ◌∷◌,
}
use stattii.Model.{
  Address, Broadcast, Person, TrustLevel, Webhook, direct, propose, respond, valid_trust,
}
use stattii.Redaction.{is_char, redact_target, redacted_mark, shown_address, shown_target}
use stattii.Scheduler.{problem}
use stattii.Service.{
  Env, Service, a_trust, audit_locked, entry, new_id, new_token, save_locked, text,
}

abbrev pub is_prefix : List Char → List Char → Bool
is_prefix [] cs = true
is_prefix (p ∷ ps) [] = false
is_prefix (p ∷ ps) (c ∷ cs) = let rest = is_prefix ps cs in if is_char p c then rest else false

-- strings.Contains
abbrev pub contains : List Char → List Char → Bool
contains p [] = is_prefix p []
contains p (c ∷ cs) = let rest = contains p cs in if is_prefix p (c ∷ cs) then true else rest

-- The stored webhook targets under their displays, in the order of the channels.
unfoldable pub shown_pool : Env → List Address → List (String × String)
shown_pool env [] = []
shown_pool env (ch ∷ rest) =
    let pool = shown_pool env rest in
    if ch.kind == "webhook" then (shown_target env ch.to, ch.to) ∷ pool else pool

abbrev pub is_shown : String → String × String → Bool
is_shown display entry = entry.0 == display

unfoldable pub restored_from :
    Env
    → Address
    → Option (String × String)
    → List (String × String)
    → Result (Address × List (String × String))
restored_from env ch none pool = err (
    message (
      concat (
        "webhook "
        ∷ env.quote ch.to
        ∷ " is the redacted display of a target, not a target — give the full URL"
        ∷ [])))
restored_from env ch (some entry) pool =
    ok (record ch { to = entry.1 }, remove_first (is_shown ch.to) pool)

unfoldable pub restore_channel :
    Env → Address → List (String × String) → Result (Address × List (String × String))
unfolding restored_from
restore_channel env ch pool =
    if ch.kind == "webhook" && contains (chars redacted_mark) (chars ch.to)
    then restored_from env ch (find_first (is_shown ch.to) pool) pool
    else ok (ch, pool)

unfoldable pub restore_each : Env → List Address → List (String × String) → Result (List Address)
unfolding restore_channel
restore_each env [] pool = ok []
restore_each env (ch ∷ rest) pool = do
  restored ← restore_channel env ch pool
  others ← restore_each env rest restored.1
  ok (restored.0 ∷ others)

-- restoreShown
unfoldable pub restore_shown : Env → List Address → List Address → Result (List Address)
unfolding shown_pool restore_each
restore_shown env stored incoming = restore_each env incoming (shown_pool env stored)

-- shownChannels
abbrev pub shown_channel : Env → Address → Address
shown_channel env ch = record ch { to = shown_address env ch.kind ch.to }

abbrev pub shown_channels : Env → List Address → List Address
shown_channels env chs = map (shown_channel env) chs

-- `for _, ch := range channels { if err := ch.Validate(); err != nil { return err } }`
unfoldable pub check_channels : Env → List Address → Result (Unit {0})
check_channels env [] = ok tt
check_channels env (ch ∷ rest) =
    let others = check_channels env rest in
    if problem env ch == "" then others else err (message (problem env ch))

-- An empty trust level is that of answering.
abbrev pub default_trust : TrustLevel → TrustLevel
default_trust (TrustLevel.other s) = if s == "" then respond else TrustLevel.other s
default_trust t = t

abbrev pub trust_text : TrustLevel → String
trust_text respond = "respond"
trust_text propose = "propose"
trust_text direct = "direct"
trust_text (TrustLevel.other s) = s

unfoldable pub register_person :
    String → TrustLevel → List Address → Service → Result Person × Service
unfolding new_id new_token
register_person name trust channels w =
    let (id, w1) = new_id "pe" w in
    let (token, w2) = new_token w1 in
    let p : Person = record {
      id = id;
      name = name;
      trust = trust;
      portal_token = token;
      channels = channels;
    } in
    let w3 = record w2 { tables = record w2.tables { people = w2.tables.people ++ p ∷ [] } } in
    let w4 = save_locked (
      audit_locked "person.created"
        (("person_id", text id) ∷ ("name", text name) ∷ ("trust", a_trust trust) ∷ []) w3) in
    (ok (record p { channels = shown_channels w4.env channels }), w4)

unfoldable pub person_checked :
    String → TrustLevel → List Address → Result (Unit {0}) → Service → Result Person × Service
unfolding register_person
person_checked name trust channels (err e) w = (err e, w)
person_checked name trust channels (ok _) w = register_person name trust channels w

unfoldable pub person_restored :
    String → TrustLevel → Result (List Address) → Service → Result Person × Service
unfolding person_checked check_channels
person_restored name trust (err e) w = (err e, w)
person_restored name trust (ok channels) w =
    person_checked name trust channels (check_channels w.env channels) w

-- AddPerson
unfoldable pub add_person : String → TrustLevel → List Address → Service → Result Person × Service
unfolding person_restored restore_shown
add_person name trust channels w =
    if name == ""
    then (err (message "name is required"), w)
    else if not (valid_trust (default_trust trust))
    then (
      err (
          message (
            concat (
              "invalid trust "
              ∷ w.env.quote (trust_text (default_trust trust))
              ∷ " (use respond, propose, or direct)"
              ∷ []))),
      w,
    )
    else person_restored name (default_trust trust) (restore_shown w.env [] channels) w

-- AddBroadcast
unfoldable pub add_broadcast : String → String → String → Service → Result Broadcast × Service
unfolding new_id
add_broadcast name kind to w =
    if kind == "" || to == ""
    then (err (message "kind and to are required"), w)
    else (let (id, w1) = new_id "bc" w in
        let b : Broadcast = record { id = id; name = name; kind = kind; to = to } in
        let w2 = record w1 {
          tables = record w1.tables { broadcasts = w1.tables.broadcasts ++ b ∷ [] };
        } in
        let w3 = save_locked (
          audit_locked "broadcast.created" (("broadcast_id", text id) ∷ ("kind", text kind) ∷ [])
            w2) in
        (ok (record b { to = shown_address w3.env kind to }), w3))

-- AddWebhook
unfoldable pub add_webhook : String → List String → Service → Result Webhook × Service
unfolding new_id new_token
add_webhook url events w =
    if url == ""
    then (err (message "url is required"), w)
    else (let (id, w1) = new_id "wh" w in
        let (secret, w2) = new_token w1 in
        let h : Webhook = record { id = id; url = url; secret = secret; events = events } in
        let w3 = record w2 {
          tables = record w2.tables { webhooks = w2.tables.webhooks ++ h ∷ [] };
        } in
        let w4 = save_locked (
          audit_locked "webhook.created"
            (("webhook_id", text id) ∷ ("url", text (redact_target w3.env url)) ∷ []) w3) in
        (ok (record h { url = shown_target w4.env url }), w4))

abbrev pub is_webhook : String → Webhook → Bool
is_webhook id h = h.id == id

abbrev pub is_broadcast : String → Broadcast → Bool
is_broadcast id b = b.id == id

-- DeleteWebhook
unfoldable pub delete_webhook : String → Service → Result (Unit {0}) × Service
delete_webhook id w =
    if any_of (is_webhook id) w.tables.webhooks
    then (
      ok tt,
      save_locked (
          audit_locked "webhook.deleted" (("webhook_id", text id) ∷ []) (record w {
            tables = record w.tables { webhooks = remove_first (is_webhook id) w.tables.webhooks };
          })),
    )
    else (err not_found, w)

-- DeleteBroadcast
unfoldable pub delete_broadcast : String → Service → Result (Unit {0}) × Service
delete_broadcast id w =
    if any_of (is_broadcast id) w.tables.broadcasts
    then (
      ok tt,
      save_locked (
          audit_locked "broadcast.deleted" (("broadcast_id", text id) ∷ []) (record w {
            tables = record w.tables {
              broadcasts = remove_first (is_broadcast id) w.tables.broadcasts;
            };
          })),
    )
    else (err not_found, w)
