-- ===== src/Access/Sessions.antt =====
-- The admin sessions of internal/httpapi/adminsession.go. The map is a list with an entry for each
-- id. A session id and its CSRF token are draws that the caller of `create` hands in.

use stattii.Access.Keyed.{has_key}
use stattii.Base.{
  Bool, List, Option, String, [], find_first, if◌then◌else◌, leb, length, ltb, none, reject, some,
  ℕ, ◌+◌, ◌==◌, ◌∷◌,
}

pub record AdminSession : Type 0 where
  pub csrf : String
  pub expires : ℕ

pub record SessionStore : Type 0 where
  pub by_id : List (String × AdminSession)
  pub ttl : ℕ

-- newSessionStore
unfoldable pub new_session_store : ℕ → SessionStore
new_session_store ttl = record { by_id = []; ttl = ttl }

abbrev pub is_expired : ℕ → String × AdminSession → Bool
is_expired now (k, s) = leb s.expires now

-- drop
unfoldable pub drop_session : String → SessionStore → SessionStore
drop_session id st = record st { by_id = reject (has_key id) st.by_id }

-- sweepLocked
unfoldable pub sweep_locked : ℕ → SessionStore → SessionStore
sweep_locked now st = record st { by_id = reject (is_expired now) st.by_id }

-- A write to the map, which replaces the entry of the id.
unfoldable pub put_session : String → AdminSession → SessionStore → SessionStore
unfolding drop_session
put_session id s st = record st { by_id = (id, s) ∷ (drop_session id st).by_id }

-- create
unfoldable pub create_session : String → String → ℕ → SessionStore → AdminSession × SessionStore
unfolding sweep_locked put_session
create_session id csrf now st =
    let s : AdminSession = record { csrf = csrf; expires = now + st.ttl } in
    (s, put_session id s (sweep_locked now st))

unfoldable pub lookup_found :
    Option (String × AdminSession) → String → ℕ → SessionStore → Option AdminSession × SessionStore
unfolding drop_session
lookup_found none id now st = (none, st)
lookup_found (some (k, s)) id now st =
    if ltb now s.expires then (some s, st) else (none, drop_session id st)

-- lookup
unfoldable pub lookup_session : String → ℕ → SessionStore → Option AdminSession × SessionStore
unfolding lookup_found
lookup_session id now st =
    if id == "" then (none, st) else lookup_found (find_first (has_key id) st.by_id) id now st

-- count
unfoldable pub session_count : SessionStore → ℕ
session_count st = length st.by_id
