-- ===== src/Onboarding/Binding.antt =====
-- BindTelegram of internal/core/telegram_onboard.go, on every branch.

use stattii.Base.{
  Bool, Bool-cases, List, Option, Result, String, [], any_of, ap, arith, eq_iff, eq_refl, err,
  false, find_first, gone, if◌then◌else◌, inl, inr, map, none, not, not_found, ok, refl,
  remove_first, some, subst, sym, true, update_first, ◌&&◌, ◌++◌, ◌==◌, ◌∙◌, ◌∷◌, ◌≡◌, ◌⊎◌,
}
use stattii.Links.{is_private_chat_id, is_telegram}
use stattii.Links.Authority.{is_own}
use stattii.Model.{Address, Person, TelegramOnboarding, is_person, person}
use stattii.Onboarding.Defs.{
  bind_found, bind_person, bind_telegram, bind_token, bound_person, has_start_token, is_rebound,
  map_onboardings, may_bind, note_rebound, rebind, still_binds, with_telegram,
}
use stattii.Service.{Service, enqueue_locked}
use stattii.Service.Frame.{audit-Emits, save-Emits}

-- The person after the binding: the first telegram channel is the chat, in its place or after all
-- the others where there was none, and nothing else is touched.
pub record Rebound (chat_id : String) (p q : Person) : Type 0 where
  pub id : q.id ≡ p.id
  pub name : q.name ≡ p.name
  pub trust : q.trust ≡ p.trust
  pub portal_token : q.portal_token ≡ p.portal_token
  pub slot : find_first is_telegram q.channels ≡ some (record { kind = "telegram"; to = chat_id })
  pub others : remove_first is_telegram q.channels ≡ remove_first is_telegram p.channels
  pub kinds : map (λ ch. ch.kind) q.channels ≡ (
      if any_of is_telegram p.channels
      then map (λ ch. ch.kind) p.channels
      else map (λ ch. ch.kind) p.channels ++ "telegram" ∷ [])

with_telegram-slot :
    (chat_id : String) (chs : List Address)
    → find_first is_telegram (with_telegram chat_id chs)
      ≡ some (record { kind = "telegram"; to = chat_id })
unfolding with_telegram
with_telegram-slot chat_id [] = refl
with_telegram-slot chat_id (ch ∷ rest) = elim (Bool-cases (is_telegram ch)) [
  | inl e ↦
      rw e (
        rw e (ap (λ k. some (record { kind = k; to = chat_id })) ((eq_iff ch.kind "telegram").0 e)))
  | inr e ↦ rw e (rw e (with_telegram-slot chat_id rest))
]

with_telegram-others :
    (chat_id : String) (chs : List Address)
    → remove_first is_telegram (with_telegram chat_id chs) ≡ remove_first is_telegram chs
unfolding with_telegram
with_telegram-others chat_id [] = refl
with_telegram-others chat_id (ch ∷ rest) = elim (Bool-cases (is_telegram ch)) [
  | inl e ↦ rw e (rw e refl)
  | inr e ↦ rw e (rw e (ap (λ chs. ch ∷ chs) (with_telegram-others chat_id rest)))
]

with_telegram-kinds :
    (chat_id : String) (chs : List Address)
    → map (λ ch. ch.kind) (with_telegram chat_id chs) ≡ (
        if any_of is_telegram chs
        then map (λ ch. ch.kind) chs
        else map (λ ch. ch.kind) chs ++ "telegram" ∷ [])
unfolding with_telegram
with_telegram-kinds chat_id [] = refl
with_telegram-kinds chat_id (ch ∷ rest) = elim (Bool-cases (is_telegram ch)) [
  | inl e ↦ rw e refl
  | inr e ↦ rw e (
      let k = with_telegram-kinds chat_id rest in
      elim (Bool-cases (any_of is_telegram rest)) [
        | inl f ↦ rw f (ap (λ ks. ch.kind ∷ ks) (rw f at k))
        | inr f ↦ rw f (ap (λ ks. ch.kind ∷ ks) (rw f at k))
      ])
]

bound_person-Rebound : (chat_id : String) (p : Person) → Rebound chat_id p (bound_person chat_id p)
bound_person-Rebound chat_id p = record {
  id = refl;
  name = refl;
  trust = refl;
  portal_token = refl;
  slot = with_telegram-slot chat_id p.channels;
  others = with_telegram-others chat_id p.channels;
  kinds = with_telegram-kinds chat_id p.channels;
}

-- The person's own telegram channel, as VerifyTelegramActor looks for it.
with_telegram-own :
    (chat_id : String) (chs : List Address)
    → any_of (is_own chat_id) (with_telegram chat_id chs) ≡ true
unfolding with_telegram
with_telegram-own chat_id [] = rw (eq_refl chat_id) refl
with_telegram-own chat_id (ch ∷ rest) = elim (Bool-cases (is_telegram ch)) [
  | inl e ↦ rw e (ground (arith, e, eq_refl chat_id))
  | inr e ↦ rw e (ground (arith, with_telegram-own chat_id rest))
]

-- A start with a token, from a private chat, whose id is the sender's.
abbrev pub is_private_start : String → String → String → Bool
is_private_start token chat_id from_id =
    not (token == "") && (chat_id == from_id && is_private_chat_id chat_id)

may_bind_lem :
    (token chat_id from_id : String)
    → may_bind token chat_id from_id ≡ is_private_start token chat_id from_id
unfolding may_bind
may_bind_lem token chat_id from_id = ground arith

-- What /start does: a refusal that changes nothing, a token that is spent for nothing, or a person
-- whose telegram channel is the chat from now on, with the token spent.
pub data Bound (token chat_id from_id : String) (w : Service)
    : Result (Unit {0}) × Service → Type 0 where
  ignored :
      is_private_start token chat_id from_id ≡ false
        ⊎ (find_first (has_start_token token) w.tables.telegram_onboardings ≡ none)
      → Bound token chat_id from_id w (err not_found, w)
  spent :
      (o : TelegramOnboarding) (v : Service)
      → find_first (has_start_token token) w.tables.telegram_onboardings ≡ some o
      → (still_binds w.now o ≡ false) ⊎ (person w.tables o.person_id ≡ none)
      → v.tables ≡ record w.tables {
        telegram_onboardings = remove_first (has_start_token token) w.tables.telegram_onboardings;
      }
      → Bound token chat_id from_id w (err gone, v)
  bound :
      (o : TelegramOnboarding) (p q : Person) (v : Service)
      → is_private_start token chat_id from_id ≡ true
      → find_first (has_start_token token) w.tables.telegram_onboardings ≡ some o
      → still_binds w.now o ≡ true
      → person w.tables o.person_id ≡ some p
      → Rebound chat_id p q
      → any_of (is_own from_id) q.channels ≡ true
      → v.tables ≡ record w.tables {
        people = update_first (is_person p.id) (λ _. q) w.tables.people;
        telegram_onboardings = remove_first (has_start_token token) w.tables.telegram_onboardings;
      }
      → Bound token chat_id from_id w (ok tt, v)

bind_person-tables :
    (chat_id : String) (p : Person) (w : Service)
    → (bind_person chat_id p w).tables ≡ (rebind chat_id p w).tables
unfolding bind_person note_rebound enqueue_locked
bind_person-tables chat_id p w =
    (save-Emits _).tables ∙ elim (Bool-cases (is_rebound chat_id p.channels)) [
      | inl e ↦ rw e (audit-Emits "person.updated" _ (rebind chat_id p w)).tables
      | inr e ↦ rw e refl
    ]

may_bind-own :
    (token chat_id from_id : String) → may_bind token chat_id from_id ≡ true → chat_id ≡ from_id
unfolding may_bind
may_bind-own token chat_id from_id h = (eq_iff chat_id from_id).0 (ground (arith, h))

module _ (token chat_id from_id : String) (w : Service)
    (allowed : may_bind token chat_id from_id ≡ true) where
  bind_found-Bound :
      (o : TelegramOnboarding) (found : Option Person)
      → find_first (has_start_token token) w.tables.telegram_onboardings ≡ some o
      → person w.tables o.person_id ≡ found
      → Bound token chat_id from_id w
          (bind_found chat_id o found (map_onboardings (remove_first (has_start_token token)) w))
  unfolding bind_found
  bind_found-Bound o none f g = spent o _ f (inr g) (save-Emits _).tables
  bind_found-Bound o (some p) f g = elim (Bool-cases (still_binds w.now o)) [
    | inr e ↦ rw e (spent o _ f (inl e) (save-Emits _).tables)
    | inl e ↦
        let same = may_bind-own token chat_id from_id allowed in
        rw e (
          bound o p (bound_person chat_id p) _ (sym (may_bind_lem token chat_id from_id) ∙ allowed)
            f e g (bound_person-Rebound chat_id p)
            (subst (λ c. any_of (is_own c) (with_telegram chat_id p.channels) ≡ true) same
              (with_telegram-own chat_id p.channels))
            (bind_person-tables chat_id p _))
  ]

  bind_token-Bound :
      (found : Option TelegramOnboarding)
      → find_first (has_start_token token) w.tables.telegram_onboardings ≡ found
      → Bound token chat_id from_id w (bind_token token chat_id found w)
  unfolding bind_token
  bind_token-Bound none f = ignored (inr f)
  bind_token-Bound (some o) f = bind_found-Bound o (person w.tables o.person_id) f refl

-- On every branch of BindTelegram: a message that no private chat sent, or whose token is unknown,
-- is not found and changes nothing; a token that is over, or whose person is gone, is spent and
-- binds nothing; otherwise it is spent, and nothing else changes in the tables but the person's
-- first telegram channel, which is the chat from then on, in its place or after all the others
-- where there was none, and which makes the sender one whose presses are theirs.
pub bind_telegram-Bound :
    (token chat_id from_id : String) (w : Service)
    → Bound token chat_id from_id w (bind_telegram token chat_id from_id w)
unfolding bind_telegram
bind_telegram-Bound token chat_id from_id w = elim (Bool-cases (may_bind token chat_id from_id)) [
  | inr e ↦ rw e (ignored (inl (sym (may_bind_lem token chat_id from_id) ∙ e)))
  | inl e ↦ rw e (bind_token-Bound token chat_id from_id w e _ refl)
]
