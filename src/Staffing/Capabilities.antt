-- ===== src/Staffing/Capabilities.antt =====
-- A link is a capability of the assignment: what an unassignment leaves of them. And what a patch
-- of the channel form cannot touch.

use stattii.Base.{
  Bool, Bool-cases, List, Option, String, [], any_of, ap, append-nil, append_assoc, ap₂, arith, err,
  false, find_first, gone, if◌then◌else◌, inl, inr, none, not, ok, refl, select, select-append,
  some, sym, true, ◌&&◌, ◌++◌, ◌==◌, ◌∙◌, ◌∷◌, ◌≡◌, ◌≢◌,
}
use stattii.Links.{
  Resolved, has_token, in_scope, lookup_link_locked, resolve_link, resolve_rows,
  revoke_links_locked,
}
use stattii.Links.Revocation.{revoked_link_dead}
use stattii.Model.{ActionLink, Address, Tables, event, is_zero, person}
use stattii.Service.{Context, Service}
use stattii.Service.Frame.{Emits, Emits-trans, IsPage, audit-Emits, save-Emits}
use stattii.Staffing.Defs.{
  Slots, drop_assignment, fill_slots, is_assignment, is_free, patch_channels, patched, slot_row,
  slot_rows, unassign, unassign_done, unassign_locked,
}

-- Resolving a link reads the tables and the clock only.
resolve_link-reads :
    (u v : Service) (found : Option ActionLink)
    → v.ctx ≡ u.ctx
    → v.tables ≡ u.tables
    → resolve_link v found ≡ resolve_link u found
unfolding resolve_link
resolve_link-reads u v none c t = refl
resolve_link-reads u v (some l) c t =
    ap₂
      (λ (k : Context) (s : Tables).
        if not (is_zero l.revoked_at)
        then err gone
        else resolve_rows k.now l (event s l.event_id) (person s l.person_id))
      c t

lookup_link-reads :
    (token : String) (u v : Service)
    → v.ctx ≡ u.ctx
    → v.tables ≡ u.tables
    → lookup_link_locked token v ≡ lookup_link_locked token u
unfolding lookup_link_locked
lookup_link-reads token u v c t =
    resolve_link-reads u v (find_first (has_token token) v.tables.links) c t
    ∙ ap (λ (s : Tables). resolve_link u (find_first (has_token token) s.links)) t

module _ (event_id person_id : String) where
  revoked_by_unassign : Service → Service
  revoked_by_unassign w =
      (revoke_links_locked event_id person_id (drop_assignment event_id person_id w)).1

  unassign-Emits :
      (w : Service)
      → any_of (is_assignment event_id person_id) w.tables.assignments ≡ true
      → Emits IsPage (revoked_by_unassign w) (unassign event_id person_id w).1
  unfolding unassign unassign_locked unassign_done revoked_by_unassign
  unassign-Emits w here =
      rw (here, unassign, unassign_locked) (Emits-trans (audit-Emits _ _ _) (save-Emits _))

  -- After an unassignment that succeeds, at any time but the zero time, no link of this person for
  -- this event resolves.
  pub unassigned_link_dead :
      (token : String) (w : Service) (r : Resolved)
      → w.now ≢ 0
      → any_of (is_assignment event_id person_id) w.tables.assignments ≡ true
      → lookup_link_locked token (unassign event_id person_id w).1 ≡ ok r
      → in_scope event_id person_id r.link ≡ false
  unfolding revoked_by_unassign
  unassigned_link_dead token w r h here e =
      let tail = unassign-Emits w here in
      revoked_link_dead event_id person_id token (drop_assignment event_id person_id w) r h
        (sym (lookup_link-reads token (revoked_by_unassign w) _ tail.ctx tail.tables) ∙ e)

-- Neither the e-mail nor the telegram slot of the form.
abbrev pub is_other : Address → Bool
is_other ch = not (ch.kind == "email") && not (ch.kind == "telegram")

slot_row-others :
    (ch : Address) (s : Slots)
    → select is_other (slot_row ch s).others ≡ select is_other s.others ++ select is_other (ch ∷ [])
unfolding slot_row
slot_row-others ch s = elim (Bool-cases (ch.kind == "email" && is_free s.email)) [
  | inl e ↦
      let no : is_other ch ≡ false = ground (arith, e) in
      rw (e, slot_row, no) (sym (append-nil (select is_other s.others)))
  | inr e ↦
      rw (e, slot_row)
        (elim (Bool-cases (ch.kind == "telegram" && is_free s.telegram)) [
          | inl f ↦
              let no : is_other ch ≡ false = ground (arith, f) in
              rw (f, no) (sym (append-nil (select is_other s.others)))
          | inr f ↦ rw f (select-append is_other s.others (ch ∷ []))
        ])
]

fill_slots-others :
    (chs : List Address) (s : Slots)
    → select is_other (fill_slots chs s).others ≡ select is_other s.others ++ select is_other chs
unfolding fill_slots
fill_slots-others [] s = sym (append-nil (select is_other s.others))
fill_slots-others (ch ∷ chs) s =
    fill_slots-others chs (slot_row ch s)
    ∙ ap (λ os. os ++ select is_other chs) (slot_row-others ch s)
    ∙ append_assoc (select is_other s.others) (select is_other (ch ∷ [])) (select is_other chs)
    ∙ ap (λ os. select is_other s.others ++ os) (sym (select-append is_other (ch ∷ []) chs))

slot_rows-others :
    (kind to : String)
    → (not (kind == "email") && not (kind == "telegram")) ≡ false
    → select is_other (slot_rows kind to) ≡ []
slot_rows-others kind to h = elim (Bool-cases (to == "")) [
  | inl e ↦ rw e refl
  | inr e ↦ rw (e, h) refl
]

-- A form that cannot show a channel never deletes it: whatever the patch of the two slots, the
-- channels of any other kind stay as they are, in their order.
patch_channels-others :
    (chs : List Address) (email telegram : Option String)
    → select is_other (patch_channels chs email telegram) ≡ select is_other chs
unfolding patch_channels
patch_channels-others chs email telegram =
    let empty : Slots = record { email = none; telegram = none; others = [] } in
    let s = fill_slots chs empty in
    let mails = slot_rows "email" (patched email s.email) in
    let chats = slot_rows "telegram" (patched telegram s.telegram) in
    select-append is_other mails (chats ++ s.others)
    ∙ ap₂ (λ xs ys. xs ++ ys) (slot_rows-others "email" _ refl)
        (select-append is_other chats s.others
          ∙ ap (λ xs. xs ++ select is_other s.others) (slot_rows-others "telegram" _ refl))
    ∙ fill_slots-others chs empty
