-- ===== src/Links/Defs.antt =====
-- linksLocked, GenerateLinks, revokeLinksLocked, RevokeLinks and lookupLinkLocked.

use stattii.Base.{
  Bool, List, Option, Result, String, [], concat, count_where, err, false, find_first, gone,
  if◌then◌else◌, ltb, map, message, none, not, not_found, ok, some, true, ℕ, ◌&&◌, ◌*◌, ◌++◌, ◌+◌,
  ◌==◌, ◌||◌, ◌∷◌,
}
use stattii.Model.{
  ActionKind, ActionLink, Event, Person, event, is_cancel, is_confirm, is_zero, person,
}
use stattii.Service.{Service, audit_locked, new_token, number, save_locked, text}

-- time.Hour, in the nanoseconds of a `time.Duration`.
abbrev pub hour : ℕ
hour = 3_600_000_000_000

-- eventExpiry
abbrev pub event_expiry : Event → ℕ
event_expiry e = if not (is_zero e.ends_at) then e.ends_at else e.starts_at + 6 * hour

abbrev pub map_links : (List ActionLink → List ActionLink) → Service → Service
map_links f w = record w { tables = record w.tables { links = f w.tables.links } }

-- An unrevoked link of this person for this event.
abbrev pub is_active : String → String → ActionLink → Bool
is_active event_id person_id l =
    l.event_id == event_id && l.person_id == person_id && is_zero l.revoked_at

-- The loop over the links keeps the token of the last one that fits.
unfoldable pub pick_token : (ActionLink → Bool) → String → List ActionLink → String
pick_token fits tok [] = tok
pick_token fits tok (l ∷ rest) = pick_token fits (if fits l then l.token else tok) rest

unfoldable pub new_link : String → String → ActionKind → String → ActionLink
new_link event_id person_id action token = record {
  token = token;
  event_id = event_id;
  person_id = person_id;
  action = action;
  revoked_at = 0;
}

-- `if tok == "" { tok = NewToken(); … append … }`
unfoldable pub ensure_link : String → String → ActionKind → String → Service → String × Service
unfolding new_link new_token
ensure_link event_id person_id action tok w =
    if tok == ""
    then (let (t, w') = new_token w in
        (t, map_links (λ ls. ls ++ new_link event_id person_id action t ∷ []) w'))
    else (tok, w)

abbrev pub confirms : String → String → ActionLink → Bool
confirms event_id person_id l = is_active event_id person_id l && is_confirm l.action

abbrev pub cancels : String → String → ActionLink → Bool
cancels event_id person_id l = is_active event_id person_id l && is_cancel l.action

-- linksLocked: the confirm and the cancel token.
unfoldable pub links_locked : String → String → Service → (String × String) × Service
unfolding pick_token ensure_link
links_locked event_id person_id w =
    let c = pick_token (confirms event_id person_id) "" w.tables.links in
    let x = pick_token (cancels event_id person_id) "" w.tables.links in
    let (c', w1) = ensure_link event_id person_id ActionKind.confirm c w in
    let (x', w2) = ensure_link event_id person_id ActionKind.cancel x w1 in ((c', x'), w2)

abbrev pub action_url : Service → String → String
action_url w token = concat (w.cfg.base_url ∷ "/a/" ∷ token ∷ [])

abbrev pub portal_url : Service → String → String
portal_url w token = concat (w.cfg.base_url ∷ "/p/" ∷ token ∷ [])

abbrev pub is_none {ℓ} : {A : Type ℓ} → Option A → Bool
is_none none = true
is_none (some _) = false

-- GenerateLinks
unfoldable pub generate_links : String → String → Service → Result (String × String) × Service
unfolding links_locked
generate_links event_id person_id w =
    if is_none (event w.tables event_id) || is_none (person w.tables person_id)
    then (err not_found, w)
    else (let ((c, x), w1) = links_locked event_id person_id w in
        let w2 = save_locked w1 in (ok (action_url w2 c, action_url w2 x), w2))

-- The rows that a revocation covers; an empty id covers every one.
abbrev pub in_scope : String → String → ActionLink → Bool
in_scope event_id person_id l =
    (event_id == "" || l.event_id == event_id) && (person_id == "" || l.person_id == person_id)

abbrev pub to_revoke : String → String → ActionLink → Bool
to_revoke event_id person_id l = is_zero l.revoked_at && in_scope event_id person_id l

abbrev pub revoke_row : String → String → ℕ → ActionLink → ActionLink
revoke_row event_id person_id now l =
    if to_revoke event_id person_id l then record l { revoked_at = now } else l

-- revokeLinksLocked
unfoldable pub revoke_links_locked : String → String → Service → ℕ × Service
revoke_links_locked event_id person_id w =
    let n = count_where (to_revoke event_id person_id) w.tables.links in
    let w1 = map_links (map (revoke_row event_id person_id w.now)) w in
    (
      n,
      if ltb 0 n
          then audit_locked "links.revoked"
              (("event_id", text event_id)
                ∷ ("person_id", text person_id)
                ∷ ("count", number n)
                ∷ [])
              w1
          else w1,
    )

-- RevokeLinks
unfoldable pub revoke_links : String → String → Service → Result ℕ × Service
unfolding revoke_links_locked
revoke_links event_id person_id w =
    if event_id == "" && person_id == ""
    then (err (message "event_id or person_id is required"), w)
    else if not (event_id == "") && is_none (event w.tables event_id)
    then (err not_found, w)
    else if not (person_id == "") && is_none (person w.tables person_id)
    then (err not_found, w)
    else (let (n, w1) = revoke_links_locked event_id person_id w in
        (ok n, if ltb 0 n then save_locked w1 else w1))

abbrev pub has_token : String → ActionLink → Bool
has_token token l = l.token == token

pub record Resolved : Type 0 where
  pub link : ActionLink
  pub event : Event
  pub person : Person

unfoldable pub resolve_rows : ℕ → ActionLink → Option Event → Option Person → Result Resolved
resolve_rows now l none p = err not_found
resolve_rows now l (some e) none = err not_found
resolve_rows now l (some e) (some p) =
    if ltb (event_expiry e) now then err gone else ok (record { link = l; event = e; person = p })

unfoldable pub resolve_link : Service → Option ActionLink → Result Resolved
unfolding resolve_rows
resolve_link w none = err not_found
resolve_link w (some l) =
    if not (is_zero l.revoked_at)
    then err gone
    else resolve_rows w.now l (event w.tables l.event_id) (person w.tables l.person_id)

-- lookupLinkLocked
unfoldable pub lookup_link_locked : String → Service → Result Resolved
unfolding resolve_link
lookup_link_locked token w = resolve_link w (find_first (has_token token) w.tables.links)
