-- ===== src/Onboarding/Defs.antt =====
-- CreateTelegramOnboarding, TelegramOnboardings, SetTelegramBot and BindTelegram of
-- internal/core/telegram_onboard.go. The channel list of a bound person is written as a whole.

use stattii.Base.{
  Bool, List, Option, Result, String, [], concat, err, find_first, find_last, gone, if◌then◌else◌,
  ltb, none, not, not_found, ok, reject, remove_first, some, true, update_first, ℕ, ◌&&◌, ◌++◌, ◌+◌,
  ◌==◌, ◌∷◌,
}
use stattii.Links.{is_none, is_private_chat_id, is_telegram}
use stattii.Model.{Address, OutboxItem, Person, TelegramOnboarding, is_person, onboarding, person}
use stattii.Registry.{channel_kinds}
use stattii.Service.{
  Service, audit_locked, enqueue_locked, mail, moment, new_token, save_locked, text, texts,
}

-- Nanoseconds of seven days.
abbrev pub telegram_onboard_ttl : ℕ
telegram_onboard_ttl = 604_800_000_000_000

pub record TelegramOnboardView : Type 0 where
  pub person_id : String
  pub url : String
  pub start : String
  pub expires_at : ℕ

-- SetTelegramBot
abbrev pub set_telegram_bot : String → Service → Service
set_telegram_bot username w = record w { process = record w.process { telegram_bot = username } }

-- telegramOnboardViewLocked
unfoldable pub telegram_onboard_view : String → TelegramOnboarding → TelegramOnboardView
telegram_onboard_view bot o = record {
  person_id = o.person_id;
  url = if bot == "" then "" else concat ("https://t.me/" ∷ bot ∷ "?start=" ∷ o.token ∷ []);
  start = concat ("/start " ∷ o.token ∷ []);
  expires_at = o.expires_at;
}

abbrev pub map_onboardings : (List TelegramOnboarding → List TelegramOnboarding) → Service → Service
map_onboardings f w = record w {
  tables = record w.tables { telegram_onboardings = f w.tables.telegram_onboardings };
}

abbrev pub is_for_person : String → TelegramOnboarding → Bool
is_for_person person_id o = o.person_id == person_id

abbrev pub new_onboarding : String → String → ℕ → TelegramOnboarding
new_onboarding token person_id now = record {
  token = token;
  person_id = person_id;
  created_at = now;
  expires_at = now + telegram_onboard_ttl;
}

unfoldable pub mint_onboarding : String → Service → TelegramOnboardView × Service
unfolding new_token telegram_onboard_view
mint_onboarding person_id w =
    let (token, w1) = new_token (map_onboardings (reject (is_for_person person_id)) w) in
    let o = new_onboarding token person_id w.now in
    (
      telegram_onboard_view w.process.telegram_bot o,
      save_locked (
          audit_locked "telegram.onboarding_created"
            (("person_id", text person_id) ∷ ("expires_at", moment o.expires_at) ∷ [])
            (map_onboardings (λ os. os ++ o ∷ []) w1)),
    )

-- CreateTelegramOnboarding
unfoldable pub create_telegram_onboarding : String → Service → Result TelegramOnboardView × Service
unfolding mint_onboarding
create_telegram_onboarding person_id w =
    if is_none (person w.tables person_id)
    then (err not_found, w)
    else (let (v, w1) = mint_onboarding person_id w in (ok v, w1))

abbrev pub still_binds : ℕ → TelegramOnboarding → Bool
still_binds now o = ltb now o.expires_at

-- TelegramOnboardings: the entry of a person in the map, the last one written.
unfoldable pub telegram_onboarding_of : String → Service → Option TelegramOnboardView
unfolding telegram_onboard_view
telegram_onboarding_of person_id w =
    elim (find_last (λ o. still_binds w.now o && is_for_person person_id o)
      w.tables.telegram_onboardings) [
        | none ↦ none
        | some o ↦ some (telegram_onboard_view w.process.telegram_bot o)
      ]

-- The guard: only a private chat, whose id is the sender's, can bind.
unfoldable pub may_bind : String → String → String → Bool
unfolding is_private_chat_id
may_bind token chat_id from_id =
    not (token == "") && chat_id == from_id && is_private_chat_id chat_id

abbrev pub has_start_token : String → TelegramOnboarding → Bool
has_start_token token o = o.token == token

-- The chat in the first telegram slot, or in a new one.
unfoldable pub with_telegram : String → List Address → List Address
with_telegram chat_id [] = record { kind = "telegram"; to = chat_id } ∷ []
with_telegram chat_id (ch ∷ rest) =
    let later = ch ∷ with_telegram chat_id rest in
    if is_telegram ch then record ch { to = chat_id } ∷ rest else later

-- `changed`: the first telegram slot does not hold the chat yet.
unfoldable pub is_rebound : String → List Address → Bool
is_rebound chat_id [] = true
is_rebound chat_id (ch ∷ rest) =
    let later = is_rebound chat_id rest in if is_telegram ch then not (ch.to == chat_id) else later

abbrev pub bound_person : String → Person → Person
bound_person chat_id p = record p { channels = with_telegram chat_id p.channels }

abbrev pub rebind : String → Person → Service → Service
rebind chat_id p w = record w {
  tables = record w.tables {
    people = update_first (is_person p.id) (λ _. bound_person chat_id p) w.tables.people;
  };
}

-- The audit line, where the slot changed.
unfoldable pub note_rebound : String → Person → Service → Service
unfolding is_rebound with_telegram
note_rebound chat_id p w =
    if is_rebound chat_id p.channels
    then audit_locked "person.updated"
        (("person_id", text p.id)
          ∷ ("fields", texts ("channels" ∷ []))
          ∷ ("via", text "telegram")
          ∷ ("channels_from", texts (channel_kinds p.channels))
          ∷ ("channels_to", texts (channel_kinds (with_telegram chat_id p.channels)))
          ∷ [])
        w
    else w

abbrev pub welcome : String → Person → OutboxItem
welcome chat_id p =
    record (mail onboarding "telegram" chat_id "stattii" (
      concat (
        "Connected, " ∷ p.name
        ∷ ": confirmation asks and cancellations for your events will reach you in this chat."
        ∷ []))) { person_id = p.id }

unfoldable pub bind_person : String → Person → Service → Service
unfolding note_rebound with_telegram
bind_person chat_id p w =
    save_locked (enqueue_locked (welcome chat_id p) (note_rebound chat_id p (rebind chat_id p w))).1

-- `w` is the service without the token.
unfoldable pub bind_found :
    String → TelegramOnboarding → Option Person → Service → Result (Unit {0}) × Service
unfolding bind_person
bind_found chat_id o none w = (err gone, save_locked w)
bind_found chat_id o (some p) w =
    if still_binds w.now o then (ok tt, bind_person chat_id p w) else (err gone, save_locked w)

unfoldable pub bind_token :
    String → String → Option TelegramOnboarding → Service → Result (Unit {0}) × Service
unfolding bind_found
bind_token token chat_id none w = (err not_found, w)
bind_token token chat_id (some o) w =
    bind_found chat_id o (person w.tables o.person_id)
      (map_onboardings (remove_first (has_start_token token)) w)

-- BindTelegram
unfoldable pub bind_telegram : String → String → String → Service → Result (Unit {0}) × Service
unfolding bind_token may_bind
bind_telegram token chat_id from_id w =
    if may_bind token chat_id from_id
    then bind_token token chat_id (find_first (has_start_token token) w.tables.telegram_onboardings)
        w
    else (err not_found, w)
