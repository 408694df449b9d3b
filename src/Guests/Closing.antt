-- ===== src/Guests/Closing.antt =====
-- CreateInvite and RevokeInvite of internal/core/invite.go: one open link for an event, and what a
-- closed one still does.

use stattii.Base.{
  Bool, Bool-cases, List, Result, String, [], ap, arith, eq_refl, err, false, find_first,
  find_first-holds, gone, inl, inr, ok, refl, some, subst, sym, true, update_first, ◌∙◌, ◌∷◌, ◌≡◌,
}
use stattii.Guests.Invites.{
  active_invite_locked, has_invite_token, is_open_invite, lookup_invite_locked, map_invites,
  resolve_invite, resolve_invite_row, revoke_found, revoke_invite,
}
use stattii.Guests.Rsvp.{RsvpInput, rsvp, rsvp_validated}
use stattii.Model.{InviteLink, Tables, is_zero}
use stattii.Service.{Fields, Service, audit_locked, save_locked, text}
use stattii.Service.Frame.{audit-Emits, save-Emits}

-- The row that two searches both find first is the one that an update at one of them writes.
find_first-update_found {ℓ} :
    {A : Type ℓ} (p q : A → Bool) (f : A → A) (xs : List A) {x : A}
    → find_first p xs ≡ some x
    → find_first q xs ≡ some x
    → q (f x) ≡ true
    → find_first q (update_first p f xs) ≡ some (f x)
find_first-update_found p q f [] h k l = ground arith
find_first-update_found p q f (y ∷ ys) {x} h k l = elim (Bool-cases (p y)) [
  | inl e ↦
      let y_eq : y ≡ x = ground arith in
      rw e (subst (λ z. find_first q (f z ∷ ys) ≡ some (f x)) (sym y_eq) (rw l refl))
  | inr e ↦
      let further : find_first p ys ≡ some x = ground arith in
      rw e (elim (Bool-cases (q y)) [
        | inl hit ↦
            let y_eq : y ≡ x = ground arith in
            let holds = find_first-holds p ys further in absurd (ground (arith, ap p y_eq))
        | inr miss ↦ rw miss (find_first-update_found p q f ys further (ground arith) l)
      ])
]

save_audit-tables :
    (kind : String) (fields : Fields) (w : Service)
    → (save_locked (audit_locked kind fields w)).tables ≡ w.tables
save_audit-tables kind fields w = (save-Emits _).tables ∙ (audit-Emits kind fields w).tables

save_audit-ctx :
    (kind : String) (fields : Fields) (w : Service)
    → (save_locked (audit_locked kind fields w)).ctx ≡ w.ctx
save_audit-ctx kind fields w = (save-Emits _).ctx ∙ (audit-Emits kind fields w).ctx

module _ (event_id : String) (l : InviteLink) (w : Service)
    (active : active_invite_locked event_id w ≡ some l)
    (found : find_first (has_invite_token l.token) w.tables.invites ≡ some l)
    (late : is_zero w.now ≡ false) where
  closed : Service
  closed = save_locked (
      audit_locked "invite.revoked" (("event_id", text event_id) ∷ []) (
        map_invites (update_first (is_open_invite event_id) (λ r. record r { revoked_at = w.now }))
          w))

  revoke_invite-closed : revoke_invite event_id w ≡ (ok tt, closed)
  unfolding revoke_invite closed
  revoke_invite-closed = rw (active, revoke_found) refl

  closed-tables : closed.tables ≡ record w.tables {
    invites =
        update_first
          (is_open_invite event_id)
          (λ r. record r { revoked_at = w.now })
          w.tables.invites;
  }
  unfolding closed
  closed-tables = save_audit-tables "invite.revoked" _ _

  closed-find :
      find_first (has_invite_token l.token) closed.tables.invites
      ≡ some (record l { revoked_at = w.now })
  closed-find =
      ap (λ (t : Tables). find_first (has_invite_token l.token) t.invites) closed-tables
      ∙ find_first-update_found (is_open_invite event_id) (has_invite_token l.token)
          (λ r. record r { revoked_at = w.now }) w.tables.invites active found (eq_refl l.token)

  closed-gone : lookup_invite_locked l.token closed ≡ err gone
  unfolding lookup_invite_locked
  closed-gone = rw (closed-find, resolve_invite_row) (rw late refl)

  rsvp_validated-gone : (r : Result RsvpInput) → (rsvp_validated l.token r closed).1 ≡ closed
  unfolding rsvp_validated
  rsvp_validated-gone (err x) = refl
  rsvp_validated-gone (ok i) = rw closed-gone refl

-- Where the event's open link is the one that its token finds, and the clock does not stand at the
-- zero time: once RevokeInvite has run, the link is gone for ResolveInvite, an RSVP over it changes
-- nothing, and no guest is lost.
pub revoke_invite-Closes :
    (event_id : String) (l : InviteLink) (i : RsvpInput) (w : Service)
    → active_invite_locked event_id w ≡ some l
    → find_first (has_invite_token l.token) w.tables.invites ≡ some l
    → is_zero w.now ≡ false
    → (let v = (revoke_invite event_id w).1 in
        (resolve_invite l.token v ≡ err gone)
        × ((rsvp l.token i v).1 ≡ v)
        × (v.tables.guests ≡ w.tables.guests))
unfolding resolve_invite rsvp
revoke_invite-Closes event_id l i w active found late =
    rw (revoke_invite-closed event_id l w active found late) (
      rw (closed-gone event_id l w active found late) refl,
      rsvp_validated-gone event_id l w active found late _,
      ap (λ (t : Tables). t.guests) (closed-tables event_id l w active found late),
    )
