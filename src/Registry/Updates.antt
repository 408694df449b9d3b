-- ===== src/Registry/Updates.antt =====
-- UpdatePerson of internal/core/people.go, with its page for someone who became unreachable.

use stattii.Base.{
  Bool, List, Option, Result, String, [], concat, err, false, if◌then◌else◌, join, length, ltb, map,
  message, none, not, not_found, ok, select, some, true, update_first, ℕ, ◌&&◌, ◌++◌, ◌==◌, ◌>>=◌,
  ◌∷◌,
}
use stattii.Guests.{clean_name}
use stattii.Model.{
  Address, Event, Person, TrustLevel, events_for, is_cancelled, is_person, person, reachable,
  valid_trust,
}
use stattii.Registry.Defs.{check_channels, restore_shown, shown_channels, trust_text}
use stattii.Service.{
  Env, Fields, Service, a_trust, audit_locked, notify_admin_locked, number, save_locked, text,
  texts, when,
}

-- A patch: what is none is left alone.
pub record PersonUpdate : Type 0 where
  pub name : Option String
  pub trust : Option TrustLevel
  pub channels : Option (List Address)

unfoldable pub checked_name : Option String → Result (Option String)
checked_name none = ok none
checked_name (some n) =
    if clean_name n == "" then err (message "name is required") else ok (some (clean_name n))

unfoldable pub checked_trust : Env → Option TrustLevel → Result (Option TrustLevel)
checked_trust env none = ok none
checked_trust env (some t) =
    if valid_trust t
    then ok (some t)
    else err (
        message (
          concat (
            "invalid trust "
            ∷ env.quote (trust_text t)
            ∷ " (use respond, propose, or direct)"
            ∷ [])))

unfoldable pub checked_channels :
    Env → Person → Option (List Address) → Result (Option (List Address))
unfolding restore_shown check_channels
checked_channels env p none = ok none
checked_channels env p (some incoming) = do
  restored ← restore_shown env p.channels incoming
  _ ← check_channels env restored
  ok (some restored)

-- sameChannels
abbrev pub same_channels : List Address → List Address → Bool
same_channels [] [] = true
same_channels [] (_ ∷ _) = false
same_channels (_ ∷ _) [] = false
same_channels (a ∷ xs) (b ∷ ys) =
    let rest = same_channels xs ys in if a.kind == b.kind && a.to == b.to then rest else false

-- channelKinds
abbrev pub channel_kinds : List Address → List String
channel_kinds chs = map (λ (ch : Address). ch.kind) chs

-- The row so far, the fields that changed, and the audit line's own fields.
pub record Patch : Type 0 where
  pub row : Person
  pub changed : List String
  pub fields : Fields

unfoldable pub set_name : Option String → Patch → Patch
set_name none x = x
set_name (some n) x =
    if n == x.row.name
    then x
    else record x { row = record x.row { name = n }; changed = x.changed ++ "name" ∷ [] }

unfoldable pub set_trust : Option TrustLevel → Patch → Patch
set_trust none x = x
set_trust (some t) x = if trust_text t == trust_text x.row.trust then x else record {
  row = record x.row { trust = t };
  changed = x.changed ++ "trust" ∷ [];
  fields = x.fields ++ ("trust_from", a_trust x.row.trust) ∷ ("trust_to", a_trust t) ∷ [];
}

unfoldable pub set_channels : Option (List Address) → Patch → Patch
set_channels none x = x
set_channels (some chs) x = if same_channels x.row.channels chs then x else record {
  row = record x.row { channels = chs };
  changed = x.changed ++ "channels" ∷ [];
  fields =
      x.fields
      ++ ("channels_from", texts (channel_kinds x.row.channels))
        ∷ ("channels_to", texts (channel_kinds chs))
        ∷ [];
}

unfoldable pub patch_of : Option String → Option TrustLevel → Option (List Address) → Person → Patch
unfolding set_name set_trust set_channels
patch_of name trust channels p = set_channels channels (
    set_trust trust
      (set_name name (record { row = p; changed = []; fields = ("person_id", text p.id) ∷ [] })))

-- An event that still asks for its people.
abbrev pub is_ahead_of : ℕ → Event → Bool
is_ahead_of now e = not (is_cancelled e.status) && ltb now e.starts_at

abbrev pub upcoming_line : Service → Event → String
upcoming_line w e = concat ("- " ∷ e.title ∷ " (" ∷ when w.ctx e.starts_at ∷ ")" ∷ [])

unfoldable pub page_unreachable : Person → List Event → Service → Service
page_unreachable p [] w = w
page_unreachable p (e ∷ es) w =
    let w1 =
      audit_locked "person.unreachable"
        (("person_id", text p.id) ∷ ("events", number (length (e ∷ es))) ∷ []) w in
    notify_admin_locked (concat ("Now unreachable: " ∷ p.name ∷ []))
      (concat (
        p.name
        ∷ " has no channel left but is responsible for upcoming events:\n"
        ∷ join "\n" (map (upcoming_line w) (e ∷ es))
        ∷ "\n\nTheir confirmation asks cannot go out; deadlines will fire without an ask. "
        ∷ "Add a channel under /admin/people or assign someone reachable."
        ∷ []))
      w1

-- noteUnreachablePersonLocked
unfoldable pub note_unreachable_person_locked : Person → Service → Service
unfolding page_unreachable
note_unreachable_person_locked p w =
    page_unreachable p (select (is_ahead_of w.now) (events_for w.tables p.id)) w

abbrev pub write_person : Person → Service → Service
write_person p w = record w {
  tables = record w.tables { people = update_first (is_person p.id) (λ _. p) w.tables.people };
}

-- The audit line, the page and the save; `p` is the row before.
unfoldable pub commit_patch : Person → Patch → Service → Service
unfolding note_unreachable_person_locked
commit_patch p x w =
    let w1 =
      audit_locked "person.updated" (x.fields ++ ("fields", texts x.changed) ∷ [])
        (write_person x.row w) in
    save_locked
      (if reachable p && not (reachable x.row) then note_unreachable_person_locked x.row w1 else w1)

abbrev pub no_fields : List String → Bool
no_fields [] = true
no_fields (_ ∷ _) = false

unfoldable pub apply_patch : Person → Patch → Service → Result Person × Service
unfolding commit_patch
apply_patch p x w = (
  ok (record x.row { channels = shown_channels w.env x.row.channels }),
  if no_fields x.changed then w else commit_patch p x w,
)

unfoldable pub patch_checked :
    Option String
    → Option TrustLevel
    → Result (Option (List Address))
    → Person
    → Service
    → Result Person × Service
unfolding apply_patch patch_of
patch_checked name trust (err e) p w = (err e, w)
patch_checked name trust (ok channels) p w = apply_patch p (patch_of name trust channels p) w

unfoldable pub patch_found :
    Option String
    → Option TrustLevel
    → Option (List Address)
    → Option Person
    → Service
    → Result Person × Service
unfolding patch_checked checked_channels
patch_found name trust channels none w = (err not_found, w)
patch_found name trust channels (some p) w =
    patch_checked name trust (checked_channels w.env p channels) p w

unfoldable pub update_with :
    String
    → Option (List Address)
    → Result (Option String)
    → Result (Option TrustLevel)
    → Service
    → Result Person × Service
unfolding patch_found
update_with id channels (err e) trust w = (err e, w)
update_with id channels (ok name) (err e) w = (err e, w)
update_with id channels (ok name) (ok trust) w =
    patch_found name trust channels (person w.tables id) w

-- UpdatePerson
unfoldable pub update_person : String → PersonUpdate → Service → Result Person × Service
unfolding update_with checked_name checked_trust
update_person id i w =
    update_with id i.channels (checked_name i.name) (checked_trust w.env i.trust) w
