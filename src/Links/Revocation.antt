-- ===== src/Links/Revocation.antt =====
-- Revoked links, and what a link that resolves guarantees.

use stattii.Base.{
  Bool-cases, List, Option, String, [], ap, arith, count_where, eq_iff, false, find_first,
  find_first-holds, inl, inr, ltb, map, none, ok, refl, some, subst, true, ℕ, ◌∙◌, ◌∷◌, ◌≡◌, ◌≢◌,
  ◌≤◌,
}
use stattii.Links.Defs.{
  Resolved, event_expiry, has_token, in_scope, lookup_link_locked, map_links, resolve_link,
  resolve_rows, revoke_links_locked, revoke_row, to_revoke,
}
use stattii.Model.{ActionLink, Event, Person, event, is_zero, person}
use stattii.Service.{Service}
use stattii.Service.Frame.{Emits-refl, Emits-if, audit-Emits}

find_first-token :
    (token : String) (ls : List ActionLink) (l : ActionLink)
    → find_first (has_token token) ls ≡ some l
    → l.token ≡ token
find_first-token token ls l h = (eq_iff l.token token).0 (find_first-holds (has_token token) ls h)

-- What lookupLinkLocked promises of a link that it resolves.
pub record Valid (token : String) (w : Service) (r : Resolved) : Type 0 where
  pub found : find_first (has_token token) w.tables.links ≡ some r.link
  pub named : r.link.token ≡ token
  pub live : is_zero r.link.revoked_at ≡ true
  pub event : event w.tables r.link.event_id ≡ some r.event
  pub person : person w.tables r.link.person_id ≡ some r.person
  pub in_time : w.now ≤ event_expiry r.event

resolve_rows-ok :
    (now : ℕ) (l : ActionLink) (e : Option Event) (p : Option Person) (r : Resolved)
    → resolve_rows now l e p ≡ ok r
    → (l ≡ r.link) × (e ≡ some r.event) × (p ≡ some r.person) × (now ≤ event_expiry r.event)
unfolding resolve_rows
resolve_rows-ok now l none p r h = absurd (cc)
resolve_rows-ok now l (some e) none r h = absurd (cc)
resolve_rows-ok now l (some e) (some p) r h = ground arith

resolve_link-ok :
    (token : String) (w : Service) (found : Option ActionLink) (r : Resolved)
    → find_first (has_token token) w.tables.links ≡ found
    → resolve_link w found ≡ ok r
    → Valid token w r
unfolding resolve_link
resolve_link-ok token w none r e h = absurd (cc)
resolve_link-ok token w (some l) r e h = elim (Bool-cases (is_zero l.revoked_at)) [
  | inl live ↦ resolved live (resolve_rows-ok w.now l _ _ r (rw (live, resolve_link) at h))
  | inr dead ↦ absurd (refused dead)
]
  where
    refused : is_zero l.revoked_at ≡ false → ⊥
    refused dead = let k = rw (dead, resolve_link) at h in cc

    resolved :
        is_zero l.revoked_at ≡ true
        → (l ≡ r.link)
          × (event w.tables l.event_id ≡ some r.event)
          × (person w.tables l.person_id ≡ some r.person)
          × (w.now ≤ event_expiry r.event)
        → Valid token w r
    resolved live q = record {
      found = e ∙ ap some q.0;
      named = find_first-token token w.tables.links r.link (e ∙ ap some q.0);
      live = subst (λ k. is_zero k.revoked_at ≡ true) q.0 live;
      event = subst (λ k. event w.tables k.event_id ≡ some r.event) q.0 q.1;
      person = subst (λ k. person w.tables k.person_id ≡ some r.person) q.0 q.2;
      in_time = q.3;
    }

-- A link resolves only unrevoked, in time, and to the event and the person that it names.
pub lookup_link-Valid :
    (token : String) (w : Service) (r : Resolved)
    → lookup_link_locked token w ≡ ok r
    → Valid token w r
unfolding lookup_link_locked
lookup_link-Valid token w r h =
    resolve_link-ok token w (find_first (has_token token) w.tables.links) r refl h

some_eq : {k l : ActionLink} → some k ≡ some l → k ≡ l
some_eq e = cc

module _ (event_id person_id : String) where
  revoke_row-done :
      (now : ℕ) (l : ActionLink)
      → now ≢ 0
      → to_revoke event_id person_id (revoke_row event_id person_id now l) ≡ false
  revoke_row-done now l h = elim (Bool-cases (to_revoke event_id person_id l)) [
    | inl e ↦ rw e (ground arith)
    | inr e ↦ rw e e
  ]

  find_first-revoked :
      (token : String) (now : ℕ) (ls : List ActionLink) (l : ActionLink)
      → now ≢ 0
      → find_first (has_token token) (map (revoke_row event_id person_id now) ls) ≡ some l
      → to_revoke event_id person_id l ≡ false
  find_first-revoked token now [] l h e = absurd (cc)
  find_first-revoked token now (k ∷ ks) l h e =
      elim (Bool-cases (has_token token (revoke_row event_id person_id now k))) [
        | inl hit ↦
            subst (λ x. to_revoke event_id person_id x ≡ false) (some_eq (rw hit at e))
              (revoke_row-done now k h)
        | inr miss ↦ find_first-revoked token now ks l h (rw miss at e)
      ]

  revoke_links-tables :
      (w : Service)
      → (revoke_links_locked event_id person_id w).1.tables
        ≡ record w.tables { links = map (revoke_row event_id person_id w.now) w.tables.links }
  unfolding revoke_links_locked
  revoke_links-tables w =
      (Emits-if (ltb 0 (count_where (to_revoke event_id person_id) w.tables.links))
        (audit-Emits _ _ (map_links (map (revoke_row event_id person_id w.now)) w))
        (Emits-refl (map_links (map (revoke_row event_id person_id w.now)) w))).tables

  -- After a revocation, at any time but the zero time, no link in its scope resolves.
  pub revoked_link_dead :
      (token : String) (w : Service) (r : Resolved)
      → w.now ≢ 0
      → lookup_link_locked token (revoke_links_locked event_id person_id w).1 ≡ ok r
      → in_scope event_id person_id r.link ≡ false
  revoked_link_dead token w r h e =
      let after = (revoke_links_locked event_id person_id w).1 in
      let v = lookup_link-Valid token after r e in
      let done = find_first-revoked token w.now w.tables.links r.link h (
        subst (λ t. find_first (has_token token) t.links ≡ some r.link) (revoke_links-tables w)
          v.found) in
      ground (arith, v.live, done)
