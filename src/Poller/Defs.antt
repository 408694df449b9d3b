-- ===== src/Poller/Defs.antt =====
-- TelegramPoller of internal/channel/telegram_poller.go, and telegramApply and newTelegramPoller of
-- cmd_serve.go. The ids of chats and senders are their decimal texts; what getUpdates returns is an
-- argument, and log lines and answers that fail are left out.

use stattii.Base.{
  Bool, List, Option, Result, String, [], chars, concat, err, error_message, if◌then◌else◌, leb,
  ltb, map, none, of_chars, ok, some, suc, words_from, wrong_actor, zero, ℕ, ◌++◌, ◌+◌, ◌==◌, ◌||◌,
  ◌∷◌,
}
use stattii.Links.{ActionView, apply_action, verify_telegram_actor}
use stattii.Model.{ActionKind}
use stattii.Onboarding.{bind_telegram}
use stattii.Registry.{is_prefix}
use stattii.Service.{Service}

pub record Callback : Type 0 where
  pub id : String
  pub payload : String
  pub from_id : String

pub record Message : Type 0 where
  pub content : String
  pub chat_id : String
  pub from_id : Option String

pub record Update : Type 0 where
  pub update_id : ℕ
  pub callback : Option Callback
  pub message : Option Message

-- What an action did, for the presser.
abbrev pub action_result : ActionKind → String
action_result ActionKind.confirm = "Recorded: the event takes place."
action_result _ = "Recorded: the event is cancelled — everyone is being notified."

unfoldable pub applied_result : Result ActionView × Service → Result String × Service
applied_result (err x, w) = (err x, w)
applied_result (ok v, w) = (ok (action_result v.action), w)

unfoldable pub apply_verified : String → Result (Unit {0}) × Service → Result String × Service
unfolding apply_action applied_result
apply_verified token (err x, w) = (err x, w)
apply_verified token (ok _, w) = applied_result (apply_action token "" w)

-- telegramApply
unfoldable pub telegram_apply : String → String → Service → Result String × Service
unfolding verify_telegram_actor apply_verified
telegram_apply token from_id w = apply_verified token (verify_telegram_actor token from_id w)

-- The text that answers a press.
abbrev pub press_text : Result String → String
press_text (ok s) = s
press_text (err wrong_actor) = error_message wrong_actor
press_text (err x) = concat ("This action is no longer possible: " ∷ error_message x ∷ [])

-- strings.Fields
abbrev pub fields_of : String → List String
fields_of s = map of_chars (words_from [] (chars s))

abbrev pub is_start : String → Bool
is_start s = s == "/start" || is_prefix (chars "/start@") (chars s)

-- The token of a `/start` with one argument.
unfoldable pub start_token : List String → Option String
start_token (f ∷ token ∷ []) = if is_start f then some token else none
start_token _ = none

unfoldable pub start_chat : Option String → String → Option String → Service → Service
unfolding bind_telegram
start_chat none chat_id from_id w = w
start_chat (some token) chat_id none w = w
start_chat (some token) chat_id (some from_id) w = (bind_telegram token chat_id from_id w).1

-- handleMessage
unfoldable pub handle_message : Message → Service → Service
unfolding start_chat start_token words_from
handle_message m w = start_chat (start_token (fields_of m.content)) m.chat_id m.from_id w

-- A callback, and its answer under the callback's id.
unfoldable pub handle_callback : Callback → Service → (String × String) × Service
unfolding telegram_apply error_message
handle_callback c w =
    let (r, w1) = telegram_apply c.payload c.from_id w in ((c.id, press_text r), w1)

-- One update, and the answers so far; a message comes before a callback.
unfoldable pub handle_update :
    Option Message
    → Option Callback
    → List (String × String)
    → Service
    → List (String × String) × Service
unfolding handle_message handle_callback
handle_update (some m) callback answers w = (answers, handle_message m w)
handle_update none none answers w = (answers, w)
handle_update none (some c) answers w =
    let (answer, w1) = handle_callback c w in (answers ++ answer ∷ [], w1)

-- The poller between two rounds: its offset, the updates that it handled, what it answered, and the
-- service.
pub record Poll : Type 0 where
  pub offset : ℕ
  pub handled : List ℕ
  pub answers : List (String × String)
  pub service : Service

abbrev pub next_offset : ℕ → ℕ → ℕ
next_offset offset id = if leb offset id then id + 1 else offset

unfoldable pub take_update : Update → Poll → Poll
unfolding handle_update
take_update u p =
    let (answers, w) = handle_update u.message u.callback p.answers p.service in
    record {
      offset = next_offset p.offset u.update_id;
      handled = p.handled ++ u.update_id ∷ [];
      answers = answers;
      service = w;
    }

unfoldable pub take_updates : List Update → Poll → Poll
unfolding take_update
take_updates [] p = p
take_updates (u ∷ us) p = take_updates us (take_update u p)

-- One round: nothing where getUpdates fails.
unfoldable pub poll_round : Option (List Update) → Poll → Poll
unfolding take_updates
poll_round none p = p
poll_round (some us) p = take_updates us p

abbrev pub seed_step : ℕ → ℕ → ℕ
seed_step offset id = if ltb offset (id + 1) then id + 1 else offset

-- seedOffset, on the answer of the first call that succeeds.
unfoldable pub seed_offset : List Update → ℕ → ℕ
seed_offset [] offset = offset
seed_offset (u ∷ us) offset = seed_offset us (seed_step offset u.update_id)

-- Run, for a number of rounds; `updates` answers getUpdates in a round, for an offset.
unfoldable pub run_from : (ℕ → ℕ → Option (List Update)) → ℕ → ℕ → Poll → Poll
unfolding poll_round
run_from updates round zero p = p
run_from updates round (suc n) p =
    run_from updates (suc round) n (poll_round (updates round p.offset) p)

unfoldable pub run : List Update → (ℕ → ℕ → Option (List Update)) → ℕ → Service → Poll
unfolding run_from seed_offset
run pending updates n w =
    run_from updates 0 n
      (record { offset = seed_offset pending 0; handled = []; answers = []; service = w })
