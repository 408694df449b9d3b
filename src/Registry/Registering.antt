-- ===== src/Registry/Registering.antt =====
-- What a registration promises of the person that it adds.

use stattii.Base.{
  All, Bool-cases, List, Result, String, [], ap, eq_iff, err, inl, inr, ok, refl, suc, true, ◌++◌,
  ◌==◌, ◌∙◌, ◌∷◌, ◌≡◌,
}
use stattii.Model.{Address, Person, Tables, TrustLevel, valid_trust}
use stattii.Registry.Defs.{
  add_person, check_channels, default_trust, person_checked, person_restored, register_person,
}
use stattii.Scheduler.{problem}
use stattii.Service.{Env, Service, new_id, new_token}
use stattii.Service.Frame.{audit-Emits, save-Emits}
use stattii.Service.Health.Durability.{Durable, save-Durable}

pub check_channels_sound :
    (env : Env) (chs : List Address)
    → check_channels env chs ≡ ok tt
    → All (λ ch. problem env ch ≡ "") chs
unfolding check_channels
check_channels_sound env [] h = tt
check_channels_sound env (ch ∷ chs) h = elim (Bool-cases (problem env ch == "")) [
  | inl e ↦
      ((eq_iff (problem env ch) "").0 e, check_channels_sound env chs (rw (e, check_channels) at h))
  | inr e ↦ absurd (let bad = rw (e, check_channels) at h in cc)
]

-- The person is stored, last in the table, with channels that pass their format check and a valid
-- trust level, and the save is on disk or its failure on record.
pub record Registered (w v : Service) : Type 0 where
  pub row : Person
  pub stored : v.tables.people ≡ w.tables.people ++ row ∷ []
  pub sound : All (λ ch. problem w.env ch ≡ "") row.channels
  pub trusted : valid_trust row.trust ≡ true
  pub kept : Durable v

abbrev pub Registration : Service → Result Person × Service → Type 0
Registration w (ok p, v) = Registered w v
Registration w (err e, v) = v ≡ w

register_person-Registered :
    (name : String) (trust : TrustLevel) (channels : List Address) (w : Service)
    → valid_trust trust ≡ true
    → check_channels w.env channels ≡ ok tt
    → Registration w (register_person name trust channels w)
unfolding register_person new_id new_token
register_person-Registered name trust channels w h k = record {
  row = record {
    id = w.env.new_id "pe" w.drawn;
    name = name;
    trust = trust;
    portal_token = w.env.new_token (suc w.drawn);
    channels = channels;
  };
  stored =
      ap (λ (s : Tables). s.people)
        ((save-Emits _).tables ∙ (audit-Emits "person.created" _ _).tables);
  sound = check_channels_sound w.env channels k;
  trusted = h;
  kept = save-Durable _;
}

person_checked-Registration :
    (name : String) (trust : TrustLevel) (channels : List Address) (check : Result (Unit {0}))
    (w : Service)
    → valid_trust trust ≡ true
    → check_channels w.env channels ≡ check
    → Registration w (person_checked name trust channels check w)
unfolding person_checked
person_checked-Registration name trust channels (err e) w h k = refl
person_checked-Registration name trust channels (ok _) w h k =
    register_person-Registered name trust channels w h k

person_restored-Registration :
    (name : String) (trust : TrustLevel) (restored : Result (List Address)) (w : Service)
    → valid_trust trust ≡ true
    → Registration w (person_restored name trust restored w)
unfolding person_restored
person_restored-Registration name trust (err e) w h = refl
person_restored-Registration name trust (ok channels) w h =
    person_checked-Registration name trust channels (check_channels w.env channels) w h refl

-- AddPerson on every branch: a refusal has no effect, and a person who is added is stored with a
-- valid trust level and only channels that pass their format check, durably.
add_person-Registration :
    (name : String) (trust : TrustLevel) (channels : List Address) (w : Service)
    → Registration w (add_person name trust channels w)
unfolding add_person
add_person-Registration name trust channels w = elim (Bool-cases (name == "")) [
  | inl e ↦ rw (e, add_person) refl
  | inr e ↦
      rw (e, add_person)
        (elim (Bool-cases (valid_trust (default_trust trust))) [
          | inl t ↦ rw t (person_restored-Registration name (default_trust trust) _ w t)
          | inr t ↦ rw t refl
        ])
]
