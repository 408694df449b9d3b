-- ===== src/Base/Results.antt =====
-- Fallible code: the errors of internal/core and their propagation.
use Prim.Native.String.{String}

-- The sentinel errors that callers compare with, and the errors that are only a text.
pub data Error : Type 0 where
  not_found gone already_cancelled forbidden wrong_actor proposal_budget : Error
  message : String → Error

pub data Result {ℓ} (A : Type ℓ) : Type ℓ where
  ok : A → Result A
  err : Error → Result A

infixl 5 ◌>>=◌
abbrev pub ◌>>=◌ {ℓ κ} : {A : Type ℓ} {B : Type κ} → Result A → (A → Result B) → Result B
ok a >>= f = f a
err e >>= f = err e

-- `%v` of an error.
unfoldable pub error_message : Error → String
error_message not_found = "not found"
error_message gone = "link expired or revoked"
error_message already_cancelled = "event is already cancelled"
error_message forbidden = "not allowed for this trust level"
error_message wrong_actor = "not addressed to you"
error_message proposal_budget =
    "you already have 10 proposals waiting for a decision — a new one can be filed once the operator has decided one of them"
error_message (message s) = s
