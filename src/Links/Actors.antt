-- ===== src/Links/Actors.antt =====
-- VerifyTelegramActor of internal/core/links.go: whether the presser is the person of the link.

use stattii.Base.{
  Bool, Char, List, Result, String, [], chars, code, eqb, err, false, if◌then◌else◌, leb, ltb, not,
  ok, true, wrong_actor, ℕ, ◌&&◌, ◌*◌, ◌+◌, ◌-◌, ◌==◌, ◌^◌, ◌∷◌,
}
use stattii.Links.Defs.{Resolved, lookup_link_locked}
use stattii.Model.{Address}
use stattii.Service.{Service, audit_locked, text}

abbrev pub is_digit : Char → Bool
is_digit c = leb 48 (code c) && leb (code c) 57

abbrev pub all_digits : List Char → Bool
all_digits [] = true
all_digits (c ∷ cs) = let rest = all_digits cs in if is_digit c then rest else false

abbrev pub digits_value : ℕ → List Char → ℕ
digits_value n [] = n
digits_value n (c ∷ cs) = digits_value (n * 10 + (code c - 48)) cs

-- An unsigned decimal numeral from 1 to the largest int64.
unfoldable pub is_positive : List Char → Bool
is_positive [] = false
is_positive (c ∷ cs) =
    let n = digits_value 0 (c ∷ cs) in all_digits (c ∷ cs) && ltb 0 n && ltb n (2 ^ 63)

unfoldable pub is_positive_signed : List Char → Bool
unfolding is_positive
is_positive_signed [] = false
is_positive_signed (c ∷ cs) = if eqb (code c) 43 then is_positive cs else is_positive (c ∷ cs)

-- isPrivateChatID: strconv.ParseInt takes one leading `+`, and what it takes after a `-` is not
-- positive.
unfoldable pub is_private_chat_id : String → Bool
unfolding is_positive_signed
is_private_chat_id to = is_positive_signed (chars to)

abbrev pub is_telegram : Address → Bool
is_telegram ch = ch.kind == "telegram"

-- The loop: whether a channel is the presser's, and whether one that it passed cannot be compared.
unfoldable pub compare_channels : String → List Address → Bool → Bool × Bool
unfolding is_private_chat_id
compare_channels from_id [] unverifiable = (false, unverifiable)
compare_channels from_id (ch ∷ rest) unverifiable =
    if not (is_telegram ch)
    then compare_channels from_id rest unverifiable
    else if ch.to == from_id
    then (true, unverifiable)
    else compare_channels from_id rest (if is_private_chat_id ch.to then unverifiable else true)

unfoldable pub judge_actor : String → Resolved → Bool × Bool → Service → Result (Unit {0}) × Service
judge_actor from_id r (true, unverifiable) w = (ok tt, w)
judge_actor from_id r (false, true) w = (
  ok tt,
  audit_locked "telegram.actor_unverified"
      (("event_id", text r.event.id)
        ∷ ("person_id", text r.person.id)
        ∷ ("from_id", text from_id)
        ∷ ("reason", text "unverified: not a private chat id")
        ∷ [])
      w,
)
judge_actor from_id r (false, false) w = (
  err wrong_actor,
  audit_locked "telegram.actor_mismatch"
      (("event_id", text r.event.id)
        ∷ ("person_id", text r.person.id)
        ∷ ("from_id", text from_id)
        ∷ [])
      w,
)

unfoldable pub verify_resolved : String → Result Resolved → Service → Result (Unit {0}) × Service
unfolding compare_channels judge_actor
verify_resolved from_id (err e) w = (err e, w)
verify_resolved from_id (ok r) w =
    judge_actor from_id r (compare_channels from_id r.person.channels false) w

-- VerifyTelegramActor
unfoldable pub verify_telegram_actor : String → String → Service → Result (Unit {0}) × Service
unfolding verify_resolved
verify_telegram_actor token from_id w = verify_resolved from_id (lookup_link_locked token w) w
