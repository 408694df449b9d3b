-- ===== src/Examples/Outside.antt =====
-- Runs of the theorems on the feed, the limiter and the admin sessions.

use stattii.Access.Agreement.{
  Call, a_login, a_logout, a_lookup, last_word, serve_all, serve_call, unexpired,
}
use stattii.Access.Expiry.{lookup_session-last_word}
use stattii.Access.Limiter.{
  Bucket, Limiter, allow, allow_swept, full_bucket, max_tracked_keys, new_limiter,
}
use stattii.Access.Room.{allow_all, length-allow_all-le}
use stattii.Access.Rounding.{whole, whole-IsRounded}
use stattii.Access.Sessions.{create_session, lookup_session, new_session_store}
use stattii.Access.Sweep.{allow-eq-allow_swept}
use stattii.Base.{
  All, List, String, [], arith, codes, false, inl, inr, length, none, refl, some, ℕ, ◌∷◌, ◌≡◌, ◌≤◌,
}
use stattii.Examples.Fixtures.{demo_env, meeting}
use stattii.Feed.{escape, feed, feed_lines, lf}
use stattii.Feed.Escaping.{unescape_text-escape}
use stattii.Feed.Lines.{octets-feed-le, unfold_lines-feed}
use stattii.Feed.Reader.{line_octets, unify_breaks}
use stattii.Model.{Event}
use stattii.Recurrence.{unescape_text, unfold_lines}
use stattii.Service.{Env}

-- The demo environment, with a number format of its own.
abbrev feed_env : Env
feed_env = record demo_env { format_number = λ n. "7" }

-- A title that tries to add a line to the feed.
abbrev sly : Event
sly = record meeting { title = "a,b\r\nSTATUS:CONFIRMED" }

unescape_text-escape_example :
    unescape_text (λ n. n) lf (escape (codes "a,b\r\nc")) ≡ codes "a,b\nc"
unfolding unify_breaks
unescape_text-escape_example = unescape_text-escape (codes "a,b\r\nc")

unfold_lines-feed_example :
    unfold_lines (λ n. n) (feed feed_env "party" (sly ∷ []) 5)
    ≡ feed_lines feed_env "party" (sly ∷ []) 5
unfold_lines-feed_example =
    unfold_lines-feed feed_env (λ t. ground arith) (λ n. ground arith) "party" (sly ∷ []) 5
      (ground arith)

octets-feed-le_example : All (λ n. n ≤ 74) (line_octets (feed feed_env "party" (sly ∷ []) 5))
octets-feed-le_example =
    octets-feed-le feed_env (λ t. ground arith) (λ n. ground arith) "party" (sly ∷ []) 5
      (ground arith)

abbrev stale : Bucket ℕ
stale = record { tokens = 0; last = 3 }

abbrev crowd : Limiter ℕ
crowd = record {
  burst = 2;
  window = 10;
  seen = ("a", stale) ∷ ("b", stale) ∷ [];
  last_sweep = 1;
  overflow = full_bucket 2;
}

abbrev asks : List (String × ℕ)
asks = ("a", 1) ∷ ("b", 2) ∷ ("a", 3) ∷ ("a", 4) ∷ ("c", 50) ∷ []

length-allow_all-le_example :
    length (allow_all {F = ℕ} asks (new_limiter 2 10)).seen ≤ max_tracked_keys
length-allow_all-le_example = length-allow_all-le ℕ 2 10 asks

-- The third request of a key within a window is refused, and the last request sweeps the others.
one_left :
    (allow "a" 4 (allow_all {F = ℕ} (("a", 1) ∷ ("b", 2) ∷ ("a", 3) ∷ []) (new_limiter 2 10))).0
    ≡ false
unfolding allow new_limiter
one_left = refl

swept_to_one : length (allow_all {F = ℕ} asks (new_limiter 2 10)).seen ≡ 1
unfolding allow new_limiter
swept_to_one = refl

allow-eq-allow_swept_example : (allow "b" 50 crowd).0 ≡ (allow_swept "b" 50 crowd).0
allow-eq-allow_swept_example =
    allow-eq-allow_swept whole-IsRounded "b" 50 crowd (omega arith) (inl refl) (ground arith)
      ((refl, inr refl), ((refl, inr refl), tt)) (omega arith)

abbrev calls : List Call
calls = a_login "s1" "c1" 5 ∷ a_login "s2" "c2" 6 ∷ a_logout "s2" 7 ∷ a_lookup "s1" 8 ∷ []

lookup_session-last_word_example :
    (lookup_session "s1" 9 (serve_all calls (new_session_store 10))).0
    ≡ unexpired 9 (last_word 10 "s1" calls none)
lookup_session-last_word_example = lookup_session-last_word 10 9 "s1" calls (omega arith) refl

-- The first session is alive, the second logged out.
first_alive :
    (lookup_session "s1" 9 (serve_all calls (new_session_store 10))).0
    ≡ some (record { csrf = "c1"; expires = 15 })
unfolding serve_all serve_call create_session lookup_session new_session_store
first_alive = refl
