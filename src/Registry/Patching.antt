-- ===== src/Registry/Patching.antt =====
-- What UpdatePerson of internal/core/people.go leaves of a person.

use stattii.Base.{
  All, Bool-cases, List, Option, Result, String, [], err, inl, inr, none, not, ok, refl, some, true,
  ◌&&◌, ◌==◌, ◌>>=◌, ◌∙◌, ◌∷◌, ◌≡◌, ◌⊎◌,
}
use stattii.Model.{Address, Event, Person, TrustLevel, person, reachable, valid_trust}
use stattii.Registry.Defs.{check_channels, restore_shown, trust_text}
use stattii.Registry.Registering.{check_channels_sound}
use stattii.Registry.Updates.{
  Patch, PersonUpdate, apply_patch, checked_channels, checked_name, checked_trust, commit_patch,
  no_fields, note_unreachable_person_locked, page_unreachable, patch_checked, patch_found, patch_of,
  same_channels, set_channels, set_name, set_trust, update_person, update_with, write_person,
}
use stattii.Scheduler.{problem}
use stattii.Service.{Env, Service}
use stattii.Service.Frame.{audit-Emits, notify-Emits, save-Emits}
use stattii.Service.Health.Durability.{Durable, save-Durable}

-- A row that a checked patch may leave: the same person, with channels and a trust level that are
-- the old ones or pass their check.
pub record Follows (env : Env) (p row : Person) : Type 0 where
  pub id : row.id ≡ p.id
  pub portal : row.portal_token ≡ p.portal_token
  pub sound : (row.channels ≡ p.channels) ⊎ All (λ ch. problem env ch ≡ "") row.channels
  pub trusted : (row.trust ≡ p.trust) ⊎ (valid_trust row.trust ≡ true)

abbrev AreSound : Env → Option (List Address) → Type 0
AreSound env none = Unit
AreSound env (some chs) = All (λ ch. problem env ch ≡ "") chs

abbrev IsTrusted : Option TrustLevel → Type 0
IsTrusted none = Unit
IsTrusted (some t) = valid_trust t ≡ true

set_name-Follows :
    (env : Env) (p : Person) (name : Option String) (x : Patch)
    → Follows env p x.row
    → Follows env p (set_name name x).row
unfolding set_name
set_name-Follows env p none x f = f
set_name-Follows env p (some n) x f = elim (Bool-cases (n == x.row.name)) [
  | inl e ↦ rw e f
  | inr e ↦ rw e (record { id = f.id; portal = f.portal; sound = f.sound; trusted = f.trusted })
]

set_trust-Follows :
    (env : Env) (p : Person) (trust : Option TrustLevel) (x : Patch)
    → IsTrusted trust
    → Follows env p x.row
    → Follows env p (set_trust trust x).row
unfolding set_trust
set_trust-Follows env p none x t f = f
set_trust-Follows env p (some l) x t f =
    elim (Bool-cases (trust_text l == trust_text x.row.trust)) [
      | inl e ↦ rw e f
      | inr e ↦ rw e (record { id = f.id; portal = f.portal; sound = f.sound; trusted = inr t })
    ]

set_channels-Follows :
    (env : Env) (p : Person) (channels : Option (List Address)) (x : Patch)
    → AreSound env channels
    → Follows env p x.row
    → Follows env p (set_channels channels x).row
unfolding set_channels
set_channels-Follows env p none x c f = f
set_channels-Follows env p (some chs) x c f = elim (Bool-cases (same_channels x.row.channels chs)) [
  | inl e ↦ rw e f
  | inr e ↦ rw e (record { id = f.id; portal = f.portal; sound = inr c; trusted = f.trusted })
]

patch_of-Follows :
    (env : Env) (name : Option String) (trust : Option TrustLevel)
    (channels : Option (List Address)) (p : Person)
    → IsTrusted trust
    → AreSound env channels
    → Follows env p (patch_of name trust channels p).row
unfolding patch_of
patch_of-Follows env name trust channels p t c = set_channels-Follows env p channels _ c (
    set_trust-Follows env p trust _ t (
      set_name-Follows env p name _
        (record { id = refl; portal = refl; sound = inl refl; trusted = inl refl })))

-- The person was there, and is written as such a row, durably, or nothing changes.
pub record Patched (id : String) (w v : Service) : Type 0 where
  pub before : Person
  pub row : Person
  pub known : person w.tables id ≡ some before
  pub follows : Follows w.env before row
  pub stored : (v ≡ w) ⊎ ((v.tables ≡ (write_person row w).tables) × Durable v)

abbrev pub Patching : String → Service → Result Person × Service → Type 0
Patching id w (err e, v) = v ≡ w
Patching id w (ok _, v) = Patched id w v

note_unreachable-tables :
    (p : Person) (es : List Event) (w : Service) → (page_unreachable p es w).tables ≡ w.tables
unfolding page_unreachable
note_unreachable-tables p [] w = refl
note_unreachable-tables p (e ∷ es) w =
    (notify-Emits _ _ _).tables ∙ (audit-Emits "person.unreachable" _ w).tables

commit_patch-tables :
    (p : Person) (x : Patch) (w : Service)
    → (commit_patch p x w).tables ≡ (write_person x.row w).tables
unfolding commit_patch note_unreachable_person_locked
commit_patch-tables p x w =
    (save-Emits _).tables ∙ elim (Bool-cases (reachable p && not (reachable x.row))) [
      | inl e ↦ rw e (note_unreachable-tables x.row _ _ ∙ (audit-Emits "person.updated" _ _).tables)
      | inr e ↦ rw e (audit-Emits "person.updated" _ _).tables
    ]

commit_patch-Durable : (p : Person) (x : Patch) (w : Service) → Durable (commit_patch p x w)
unfolding commit_patch
commit_patch-Durable p x w = save-Durable _

apply_patch-Patched :
    (id : String) (p : Person) (x : Patch) (w : Service)
    → person w.tables id ≡ some p
    → Follows w.env p x.row
    → Patching id w (apply_patch p x w)
unfolding apply_patch
apply_patch-Patched id p x w k f = record {
  before = p;
  row = x.row;
  known = k;
  follows = f;
  stored = elim (Bool-cases (no_fields x.changed)) [
    | inl e ↦ rw e (inl refl)
    | inr e ↦ rw e (inr (commit_patch-tables p x w, commit_patch-Durable p x w))
  ];
}

patch_sound-Patching :
    (id : String) (name : Option String) (trust : Option TrustLevel) (incoming : List Address)
    (checked : Result (Unit {0})) (p : Person) (w : Service)
    → check_channels w.env incoming ≡ checked
    → person w.tables id ≡ some p
    → IsTrusted trust
    → Patching id w (patch_checked name trust (checked >>= (λ _. ok (some incoming))) p w)
unfolding patch_checked
patch_sound-Patching id name trust incoming (err e) p w c k t = refl
patch_sound-Patching id name trust incoming (ok _) p w c k t =
    apply_patch-Patched id p _ w k (
      patch_of-Follows w.env name trust (some incoming) p t (check_channels_sound w.env incoming c))

patch_restored-Patching :
    (id : String) (name : Option String) (trust : Option TrustLevel)
    (restored : Result (List Address)) (p : Person) (w : Service)
    → person w.tables id ≡ some p
    → IsTrusted trust
    → Patching id w (
        patch_checked name trust
          (restored >>= (λ chs. check_channels w.env chs >>= (λ _. ok (some chs))))
          p
          w)
unfolding patch_checked
patch_restored-Patching id name trust (err e) p w k t = refl
patch_restored-Patching id name trust (ok chs) p w k t =
    patch_sound-Patching id name trust chs (check_channels w.env chs) p w refl k t

patch_found-Patching :
    (id : String) (name : Option String) (trust : Option TrustLevel)
    (channels : Option (List Address)) (found : Option Person) (w : Service)
    → person w.tables id ≡ found
    → IsTrusted trust
    → Patching id w (patch_found name trust channels found w)
unfolding patch_found checked_channels patch_checked
patch_found-Patching id name trust channels none w k t = refl
patch_found-Patching id name trust none (some p) w k t =
    apply_patch-Patched id p _ w k (patch_of-Follows w.env name trust none p t tt)
patch_found-Patching id name trust (some chs) (some p) w k t =
    patch_restored-Patching id name trust (restore_shown w.env p.channels chs) p w k t

update_with-Patching :
    (id : String) (channels : Option (List Address)) (name : Result (Option String))
    (trust : Option TrustLevel) (w : Service)
    → Patching id w (update_with id channels name (checked_trust w.env trust) w)
unfolding update_with checked_trust
update_with-Patching id channels (err e) trust w = refl
update_with-Patching id channels (ok name) none w =
    patch_found-Patching id name none channels (person w.tables id) w refl tt
update_with-Patching id channels (ok name) (some t) w = elim (Bool-cases (valid_trust t)) [
  | inl e ↦ rw e (patch_found-Patching id name (some t) channels (person w.tables id) w refl e)
  | inr e ↦ rw e refl
]

-- On every branch of UpdatePerson: a refusal has no effect; otherwise the person was there, and
-- either nothing changes, or nothing in the tables but the row, which keeps its id and its portal
-- token and has channels and a trust level that are the old ones or pass their check; then the disk
-- holds the state, or the failed save is on record.
pub update_person-Patching :
    (id : String) (i : PersonUpdate) (w : Service) → Patching id w (update_person id i w)
unfolding update_person
update_person-Patching id i w = update_with-Patching id i.channels (checked_name i.name) i.trust w
