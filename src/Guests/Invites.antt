-- ===== src/Guests/Invites.antt =====
-- inviteURL, activeInviteLocked, CreateInvite, RevokeInvite, lookupInviteLocked and ResolveInvite of
-- internal/core/invite.go.

use stattii.Base.{
  Bool, List, Option, Result, String, [], concat, count_where, err, false, find_first, gone,
  if◌then◌else◌, ltb, none, not, not_found, ok, some, true, update_first, ℕ, ◌&&◌, ◌++◌, ◌==◌,
  ◌>>=◌, ◌∷◌,
}
use stattii.Links.{event_expiry}
use stattii.Model.{Event, Guest, InviteLink, coming, declined, event, guests_for, is_zero}
use stattii.Service.{Service, audit_locked, new_token, save_locked, text}

abbrev pub invite_url : Service → String → String
invite_url w token = concat (w.cfg.base_url ∷ "/i/" ∷ token ∷ [])

abbrev pub is_open_invite : String → InviteLink → Bool
is_open_invite event_id l = l.event_id == event_id && is_zero l.revoked_at

-- activeInviteLocked
abbrev pub active_invite_locked : String → Service → Option InviteLink
active_invite_locked event_id w = find_first (is_open_invite event_id) w.tables.invites

abbrev pub map_invites : (List InviteLink → List InviteLink) → Service → Service
map_invites f w = record w { tables = record w.tables { invites = f w.tables.invites } }

abbrev pub new_invite : String → String → ℕ → InviteLink
new_invite event_id token now = record {
  token = token;
  event_id = event_id;
  created_at = now;
  revoked_at = 0;
}

unfoldable pub mint_invite : String → Service → String × Service
unfolding new_token
mint_invite event_id w =
    let (token, w1) = new_token w in
    let w2 = map_invites (λ ls. ls ++ new_invite event_id token w1.now ∷ []) w1 in
    (
      invite_url w token,
      save_locked (audit_locked "invite.created" (("event_id", text event_id) ∷ []) w2),
    )

unfoldable pub invite_found : Option InviteLink → String → Service → String × Service
unfolding mint_invite
invite_found none event_id w = mint_invite event_id w
invite_found (some l) event_id w = (invite_url w l.token, w)

unfoldable pub invite_for : Option Event → String → Service → Result String × Service
unfolding invite_found
invite_for none event_id w = (err not_found, w)
invite_for (some e) event_id w =
    let (url, w1) = invite_found (active_invite_locked event_id w) event_id w in (ok url, w1)

-- CreateInvite
unfoldable pub create_invite : String → Service → Result String × Service
unfolding invite_for
create_invite event_id w = invite_for (event w.tables event_id) event_id w

unfoldable pub revoke_found : Option InviteLink → String → Service → Result (Unit {0}) × Service
revoke_found none event_id w = (err not_found, w)
revoke_found (some l) event_id w = (
  ok tt,
  save_locked (
      audit_locked "invite.revoked" (("event_id", text event_id) ∷ []) (
        map_invites (update_first (is_open_invite event_id) (λ r. record r { revoked_at = w.now }))
          w)),
)

-- RevokeInvite
unfoldable pub revoke_invite : String → Service → Result (Unit {0}) × Service
unfolding revoke_found
revoke_invite event_id w = revoke_found (active_invite_locked event_id w) event_id w

abbrev pub has_invite_token : String → InviteLink → Bool
has_invite_token token l = l.token == token

unfoldable pub invited_event : ℕ → Option Event → Result Event
invited_event now none = err not_found
invited_event now (some e) = if ltb (event_expiry e) now then err gone else ok e

unfoldable pub resolve_invite_row : Service → Option InviteLink → Result Event
unfolding invited_event
resolve_invite_row w none = err not_found
resolve_invite_row w (some l) =
    if not (is_zero l.revoked_at) then err gone else invited_event w.now (event w.tables l.event_id)

-- lookupInviteLocked; its callers use the event only.
unfoldable pub lookup_invite_locked : String → Service → Result Event
unfolding resolve_invite_row
lookup_invite_locked token w =
    resolve_invite_row w (find_first (has_invite_token token) w.tables.invites)

pub record InviteView : Type 0 where
  pub event : Event
  pub yes_count : ℕ
  pub no_count : ℕ

abbrev pub is_coming : Guest → Bool
is_coming g = elim g.status [ coming ↦ true | _ ↦ false ]

abbrev pub is_declined : Guest → Bool
is_declined g = elim g.status [ declined ↦ true | _ ↦ false ]

-- ResolveInvite
unfoldable pub resolve_invite : String → Service → Result InviteView
unfolding lookup_invite_locked
resolve_invite token w = do
  e ← lookup_invite_locked token w
  ok (record {
    event = e;
    yes_count = count_where is_coming (guests_for w.tables e.id);
    no_count = count_where is_declined (guests_for w.tables e.id);
  })
