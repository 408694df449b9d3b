-- ===== src/Import/Fetch.antt =====
-- FetchCalendar of internal/core/import.go and fetchOnce of scheduler.go. The HTTP client is a
-- function from the address to its answer; a body is a text.

use stattii.Base.{
  Bool, Char, Error, List, Option, Result, String, [], chars, concat, eqb, err, error_message,
  if◌then◌else◌, ltb, message, none, not, of_chars, ok, some, ℕ, ◌++◌, ◌+◌, ◌-◌, ◌==◌, ◌>>=◌, ◌||◌,
  ◌∷◌,
}
use stattii.Import.Bookkeeping.{note_import_result_locked}
use stattii.Import.Sync.{sync_calendar}
use stattii.Model.{ImportReport, Occurrence, Skipped}
use stattii.Recurrence.{Std, expand, parse_feed}
use stattii.Redaction.{SendError, error_text, plain, redact_urls, url_error}
use stattii.Registry.{is_prefix}
use stattii.Scheduler.{byte_length}
use stattii.Service.{Env, Service, save_locked}

-- The request that cannot be built, the transport's failure, or a status and the body as read.
pub data FetchAnswer : Type 0 where
  no_request no_response : SendError → FetchAnswer
  response : ℕ → Result String → FetchAnswer

-- 5 << 20
abbrev pub max_feed : ℕ
max_feed = 5_242_880

-- time.Hour times 24
abbrev pub one_day : ℕ
one_day = 86_400_000_000_000

abbrev pub drop_chars : List Char → List Char → List Char
drop_chars [] cs = cs
drop_chars (_ ∷ _) [] = []
drop_chars (_ ∷ ps) (_ ∷ cs) = drop_chars ps cs

-- strings.Replace(s, old, new, 1), for an old text that is not empty.
unfoldable pub replace_once : List Char → List Char → List Char → List Char
replace_once old new [] = []
replace_once old new (c ∷ cs) =
    let later = c ∷ replace_once old new cs in
    if is_prefix old (c ∷ cs) then new ++ drop_chars old (c ∷ cs) else later

abbrev pub is_web_address : List Char → Bool
is_web_address cs = is_prefix (chars "https://") cs || is_prefix (chars "http://") cs

-- The address to fetch.
unfoldable pub fetch_address : String → Result String
unfolding replace_once
fetch_address src =
    let cs = replace_once (chars "webcal://") (chars "https://") (chars src) in
    if src == ""
    then err (message "no calendar_source configured")
    else if is_web_address cs
    then ok (of_chars cs)
    else err (message "calendar_source must be an http(s) or webcal URL")

-- The error of a request that cannot be built: only the reason of a *url.Error.
unfoldable pub request_error : Env → SendError → Error
unfolding redact_urls
request_error env (plain s) = message (redact_urls env s)
request_error env (url_error op reason s) =
    message (concat ("calendar_source is not a usable URL: " ∷ reason ∷ []))

-- A feed that outgrows the cap is refused.
unfoldable pub checked_feed : Env → String → Result String
checked_feed env raw =
    if ltb max_feed (byte_length (chars raw))
    then err (
        message
          (concat ("fetch calendar: feed exceeds " ∷ env.format_number max_feed ∷ " bytes" ∷ [])))
    else ok raw

-- The body that the feed is read from.
unfoldable pub fetched_body : Env → FetchAnswer → Result String
unfolding request_error redact_urls checked_feed
fetched_body env (no_request e) = err (request_error env e)
fetched_body env (no_response e) =
    err (message (concat ("fetch calendar: " ∷ redact_urls env (error_text e) ∷ [])))
fetched_body env (response status body) =
    if not (eqb status 200)
    then err (message (concat ("fetch calendar: HTTP " ∷ env.format_number status ∷ [])))
    else (body >>= checked_feed env)

-- Where the expansion ran out of fuel there is no result.
unfoldable pub sync_expanded :
    List Skipped
    → Option (List Occurrence × List Skipped)
    → ℕ
    → Service
    → Option (Result ImportReport × Service)
unfolding sync_calendar
sync_expanded skips none until w = none
sync_expanded skips (some (occs, more)) until w =
    let (rep, w1) = sync_calendar occs (skips ++ more) until w in some (ok rep, w1)

unfoldable pub sync_body : Std → Result String → Service → Option (Result ImportReport × Service)
unfolding parse_feed expand sync_expanded
sync_body std (err x) w = some (err x, w)
sync_body std (ok raw) w =
    let (events, skips) = parse_feed std raw in
    let until = w.now + w.cfg.calendar_window in
    sync_expanded skips (expand std events (w.now - one_day) until) until w

-- FetchCalendar
unfoldable pub fetch_calendar :
    Std → (String → FetchAnswer) → Service → Option (Result ImportReport × Service)
unfolding fetch_address fetched_body sync_body
fetch_calendar std client w =
    sync_body std (fetch_address w.cfg.calendar_source >>= (λ url. fetched_body w.env (client url)))
      w

abbrev pub failure_of {ℓ} : {A : Type ℓ} → Result A → Option String
failure_of (ok _) = none
failure_of (err x) = some (error_message x)

unfoldable pub book_import : Bool → Option (Result ImportReport × Service) → Option Service
unfolding note_import_result_locked error_message
book_import ended none = none
book_import ended (some (r, w)) =
    let (changed, w1) = note_import_result_locked ended (failure_of r) w in
    some (if changed then save_locked w1 else w1)

-- fetchOnce; `ended` says that the context is over.
unfoldable pub fetch_once : Std → (String → FetchAnswer) → Bool → Service → Option Service
unfolding fetch_calendar book_import
fetch_once std client ended w = book_import ended (fetch_calendar std client w)

-- CalendarConfigured
abbrev pub calendar_configured : Service → Bool
calendar_configured w = not (w.cfg.calendar_source == "")
