-- ===== src/Examples/Polling.antt =====
-- Runs of the telegram poller.

use stattii.Base.{
  All, Bool-cases, List, Option, [], arith, if◌then◌else◌, inl, inr, is_space, leb, none, push_word,
  refl, some, subst, words_from, ℕ, ◌<◌, ◌∷◌, ◌≡◌,
}
use stattii.Examples.Fixtures.{demo}
use stattii.Poller.{Update, fields_of, run, seed_offset, start_token, telegram_apply}
use stattii.Poller.Once.{Rising, Serves, ids_of, run-Rising}
use stattii.Poller.Presses.{Guarded, telegram_apply-Guarded}

abbrev press : Update
press = record {
  update_id = 5;
  callback = some (record { id = "cb"; payload = "yes"; from_id = "7" });
  message = none;
}

-- The Bot API holds one press, and returns it for every offset up to its id.
abbrev presses : ℕ → ℕ → Option (List Update)
presses round offset = if leb offset 5 then some (press ∷ []) else some []

press-Serves : Serves presses
press-Serves round offset us h = elim (Bool-cases (leb offset 5)) [
  | inl e ↦
      let one : press ∷ [] ≡ us = (let h' = rw e at h in cc) in
      subst (λ xs. Rising offset (ids_of xs)) one (ground (arith, e), tt)
  | inr e ↦
      let nothing : [] ≡ us = (let h' = rw e at h in cc) in
      subst (λ xs. Rising offset (ids_of xs)) nothing tt
]

run-Rising_example :
    All (λ i. i < 4) (ids_of (record press { update_id = 3 } ∷ []))
    × Rising 4 (run (record press { update_id = 3 } ∷ []) presses 3 demo).handled
unfolding seed_offset
run-Rising_example = run-Rising (record press { update_id = 3 } ∷ []) presses 3 demo press-Serves

telegram_apply-Guarded_example : Guarded "later" "7" demo (telegram_apply "later" "7" demo)
telegram_apply-Guarded_example = telegram_apply-Guarded "later" "7" demo

-- `/start` in a group names the bot.
started : start_token (fields_of "/start@bot tok") ≡ some "tok"
unfolding start_token words_from push_word is_space
started = refl
