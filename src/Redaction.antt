-- ===== src/Redaction.antt =====
-- The credential cut-off of internal/core/redact.go: what of a target or an error a record shows.
-- The regular expression and the URL parser are the standard library's, in `Env`.

use stattii.Base.{
  Bool, Char, List, Option, String, [], chars, code, concat, count_where, eqb, false, if◌then◌else◌,
  length, ltb, map, none, not, of_chars, reverse, some, suc, trim_space, zero, ℕ, ◌&&◌, ◌==◌, ◌||◌,
  ◌∷◌,
}
use stattii.Model.{OutboxItem}
use stattii.Service.{Env, Url}

abbrev pub redacted_mark : String
redacted_mark = "[redacted]"

abbrev pub drop_while : (Char → Bool) → List Char → List Char
drop_while p [] = []
drop_while p (c ∷ cs) = let rest = drop_while p cs in if p c then rest else c ∷ cs

-- strings.TrimRight
abbrev pub trim_right : (Char → Bool) → List Char → List Char
trim_right p cs = reverse (drop_while p (reverse cs))

abbrev pub is_char : Char → Char → Bool
is_char a c = eqb (code a) (code c)

-- `.,;:`
abbrev pub is_punctuation : Char → Bool
is_punctuation c = is_char "." c || is_char "," c || is_char ";" c || is_char ":" c

abbrev pub ends_with_char : Char → List Char → Bool
ends_with_char a [] = false
ends_with_char a (c ∷ []) = is_char a c
ends_with_char a (c ∷ d ∷ rest) = ends_with_char a (d ∷ rest)

abbrev pub drop_last : List Char → List Char
drop_last [] = []
drop_last (c ∷ []) = []
drop_last (c ∷ d ∷ rest) = c ∷ drop_last (d ∷ rest)

-- A match without the punctuation, and the closing bracket, that are not part of the URL.
unfoldable pub trimmed_url : List Char → List Char
trimmed_url raw =
    let trimmed = trim_right is_punctuation raw in
    if ends_with_char "]" trimmed
      && ltb (count_where (is_char "[") trimmed) (count_where (is_char "]") trimmed)
    then trim_right is_punctuation (drop_last trimmed)
    else trimmed

abbrev pub skip : ℕ → List Char → List Char
skip zero cs = cs
skip (suc n) [] = []
skip (suc n) (c ∷ cs) = skip n cs

-- `raw[:strings.Index(raw, "://")]`: the pattern makes it the letters before the first colon.
abbrev pub scheme_of : List Char → List Char
scheme_of [] = []
scheme_of (c ∷ cs) = let rest = c ∷ scheme_of cs in if is_char ":" c then [] else rest

abbrev pub no_text : String → Bool
no_text s = s == ""

unfoldable pub cut_parsed : Env → List Char → String → Option Url → String
cut_parsed env raw rest none =
    concat (env.to_lower (of_chars (scheme_of raw)) ∷ "://" ∷ redacted_mark ∷ rest ∷ [])
cut_parsed env raw rest (some u) =
    if no_text u.host
    then concat (env.to_lower (of_chars (scheme_of raw)) ∷ "://" ∷ redacted_mark ∷ rest ∷ [])
    else if not (no_text u.escaped_path) && not (u.escaped_path == "/")
        || not (no_text u.raw_query)
        || u.has_user
    then concat (u.scheme ∷ "://" ∷ u.host ∷ "/" ∷ redacted_mark ∷ rest ∷ [])
    else concat (u.scheme ∷ "://" ∷ u.host ∷ rest ∷ [])

-- The replacement of one match.
unfoldable pub cut_url : Env → String → String
unfolding cut_parsed trimmed_url
cut_url env s =
    let raw = chars s in
    let trimmed = trimmed_url raw in
    cut_parsed env raw (of_chars (skip (length trimmed) raw)) (env.parse_url (of_chars trimmed))

-- redactURLs
unfoldable pub redact_urls : Env → String → String
unfolding cut_url
redact_urls env s = env.replace_urls (cut_url env) s

-- strings.TrimSuffix(_, ":")
abbrev pub without_colon : String → String
without_colon s = if ends_with_char ":" (chars s) then of_chars (drop_last (chars s)) else s

unfoldable pub target_parsed : Option Url → String
target_parsed none = redacted_mark
target_parsed (some u) =
    if no_text u.scheme || no_text u.host
    then redacted_mark
    else concat (u.scheme ∷ "://" ∷ without_colon u.host ∷ [])

-- redactTarget
unfoldable pub redact_target : Env → String → String
unfolding target_parsed
redact_target env raw = target_parsed (env.parse_url (trim_space raw))

-- shownTarget
unfoldable pub shown_target : Env → String → String
unfolding redact_target
shown_target env raw =
    let out = redact_target env raw in
    if not (out == redacted_mark) && not (out == raw) && not (concat (out ∷ "/" ∷ []) == raw)
    then concat (out ∷ "/" ∷ redacted_mark ∷ [])
    else out

-- shownAddress
unfoldable pub shown_address : Env → String → String → String
unfolding shown_target
shown_address env kind to = if kind == "webhook" then shown_target env to else to

-- shownOutbox
unfoldable pub shown_item : Env → OutboxItem → OutboxItem
unfolding shown_address
shown_item env o = record o { to = shown_address env o.kind o.to }

abbrev pub shown_outbox : Env → List OutboxItem → List OutboxItem
shown_outbox env items = map (shown_item env) items

-- redactAddress
unfoldable pub redact_address : Env → String → String → String
unfolding redact_target redact_urls
redact_address env kind to = if kind == "webhook" then redact_target env to else redact_urls env to

-- The error of a send: its text, with the operation and the reason where it is a *url.Error.
pub data SendError : Type 0 where
  plain : String → SendError
  url_error : String → String → String → SendError

abbrev pub error_text : SendError → String
error_text (plain s) = s
error_text (url_error op reason s) = s

-- redactTargetIn
unfoldable pub redact_target_in : Env → String → String → String
unfolding redact_target redact_urls
redact_target_in env msg target =
    redact_urls env
      (if no_text target then msg else env.replace_all msg target (redact_target env target))

unfoldable pub redact_webhook_error : Env → String → SendError → String
unfolding redact_target_in redact_target redact_urls
redact_webhook_error env to (plain s) = redact_target_in env s to
redact_webhook_error env to (url_error op reason s) =
    concat (op ∷ " " ∷ env.quote (redact_target env to) ∷ ": " ∷ redact_urls env reason ∷ [])

-- The text of redactDeliveryErr's error.
unfoldable pub redact_delivery_err : Env → String → String → SendError → String
unfolding redact_webhook_error redact_urls
redact_delivery_err env kind to e =
    if kind == "webhook"
    then redact_webhook_error env to e
    else if kind == "telegram"
    then redact_urls env (error_text e)
    else error_text e
