-- ===== src/Access/Agreement.antt =====
-- What the session store of internal/httpapi/adminsession.go should answer: the specification keeps the
-- latest word on an id and looks at the clock, and a store agrees with it or not.

use stattii.Access.Keyed.{
  UniqueKeys, UniqueKeys-reject, after_reject, find_first-reject, has_key, reject-has_key,
}
use stattii.Access.Sessions.{
  AdminSession, SessionStore, create_session, drop_session, is_expired, lookup_session, put_session,
  sweep_locked,
}
use stattii.Base.{
  Bool-cases, List, Option, Option-cases, String, [], ap, arith, eq_iff, false, find_first,
  find_first-holds, if◌then◌else◌, inl, inr, ltb, none, refl, some, true, ℕ, ◌+◌, ◌==◌, ◌∙◌, ◌∷◌,
  ◌≡◌, ◌≤◌,
}

-- A call on the store: the id, what the call brings, and its time.
pub data Call : Type 0 where
  a_login : String → String → ℕ → Call
  a_lookup : String → ℕ → Call
  a_logout : String → ℕ → Call

abbrev pub time_of : Call → ℕ
time_of (a_login id csrf t) = t
time_of (a_lookup id t) = t
time_of (a_logout id t) = t

unfoldable pub serve_call : Call → SessionStore → SessionStore
serve_call (a_login id csrf t) st = (create_session id csrf t st).1
serve_call (a_lookup id t) st = (lookup_session id t st).1
serve_call (a_logout id t) st = drop_session id st

unfoldable pub serve_all : List Call → SessionStore → SessionStore
serve_all [] st = st
serve_all (c ∷ cs) st = serve_all cs (serve_call c st)

-- The latest word on an id: the session of its last login, unless a logout came after.
unfoldable pub word_after : ℕ → String → Call → Option AdminSession → Option AdminSession
word_after ttl id (a_login j csrf t) known =
    if j == id then some (record { csrf = csrf; expires = t + ttl }) else known
word_after ttl id (a_lookup j t) known = known
word_after ttl id (a_logout j t) known = if j == id then none else known

unfoldable pub last_word : ℕ → String → List Call → Option AdminSession → Option AdminSession
last_word ttl id [] known = known
last_word ttl id (c ∷ cs) known = last_word ttl id cs (word_after ttl id c known)

-- The calls come in the order of their times, none before `now`.
abbrev pub IsOrdered : ℕ → List Call → ℕ → Type 0
IsOrdered now [] end = now ≤ end
IsOrdered now (c ∷ cs) end = (now ≤ time_of c) × IsOrdered (time_of c) cs end

abbrev pub unexpired : ℕ → Option AdminSession → Option AdminSession
unexpired now none = none
unexpired now (some s) = if ltb now s.expires then some s else none

abbrev pub stored : Option (String × AdminSession) → Option AdminSession
stored none = none
stored (some (k, s)) = some s

-- From `now` on, the store and the latest word agree on an id.
pub record Agrees (now : ℕ) (id : String) (st : SessionStore) (known : Option AdminSession)
    : Type 0 where
  pub unique : UniqueKeys st.by_id
  pub same :
      (t : ℕ)
      → now ≤ t
      → unexpired t (stored (find_first (has_key id) st.by_id)) ≡ unexpired t known

unexpired-reject :
    (now t : ℕ) (o : Option (String × AdminSession))
    → now ≤ t
    → unexpired t (stored (after_reject (is_expired now) o)) ≡ unexpired t (stored o)
unfolding after_reject
unexpired-reject now t none h = refl
unexpired-reject now t (some (k, s)) h = ground arith

Agrees-sweep :
    (now t : ℕ) (id : String) (st : SessionStore) (known : Option AdminSession)
    → now ≤ t
    → Agrees now id st known
    → Agrees t id (sweep_locked t st) known
unfolding sweep_locked
Agrees-sweep now t id st known h a = record {
  unique = UniqueKeys-reject (is_expired t) st.by_id a.unique;
  same = λ u k.
      ap (λ (o : Option (String × AdminSession)). unexpired u (stored o))
        (find_first-reject id (is_expired t) st.by_id a.unique)
      ∙ unexpired-reject t u (find_first (has_key id) st.by_id) k
      ∙ a.same u (omega arith);
}

-- A deletion of another id leaves the entry, and one of this id leaves none.
after_reject-other :
    (id j : String) (xs : List (String × AdminSession))
    → (j == id) ≡ false
    → after_reject (has_key j) (find_first (has_key id) xs) ≡ find_first (has_key id) xs
unfolding after_reject
after_reject-other id j xs h = elim (Option-cases (find_first (has_key id) xs)) [
  | inl e ↦ rw e
  | inr ((k, s), e) ↦
      let here : (k == id) ≡ true = find_first-holds (has_key id) xs e in
      let apart : (k == j) ≡ false = ground (arith, eq_iff k id, eq_iff k j, eq_iff j id) in
      rw (e, apart)
]

after_reject_same :
    (id : String) (xs : List (String × AdminSession))
    → after_reject (has_key id) (find_first (has_key id) xs) ≡ none
unfolding after_reject
after_reject_same id xs = elim (Option-cases (find_first (has_key id) xs)) [
  | inl e ↦ rw e
  | inr ((k, s), e) ↦
      let here : (k == id) ≡ true = find_first-holds (has_key id) xs e in rw (e, here)
]

pub found-drop :
    (id j : String) (st : SessionStore)
    → UniqueKeys st.by_id
    → find_first (has_key id) (drop_session j st).by_id
      ≡ (if j == id then none else find_first (has_key id) st.by_id)
unfolding drop_session
found-drop id j st u = find_first-reject id (has_key j) st.by_id u ∙ elim (Bool-cases (j == id)) [
  | inl e ↦ rw (e, (eq_iff j id).0 e) (after_reject_same id st.by_id)
  | inr e ↦ rw e (after_reject-other id j st.by_id e)
]

pub Agrees-drop :
    (now : ℕ) (id j : String) (st : SessionStore) (known : Option AdminSession)
    → Agrees now id st known
    → Agrees now id (drop_session j st) (if j == id then none else known)
Agrees-drop now id j st known a = record {
  unique = unfold drop_session in UniqueKeys-reject (has_key j) st.by_id a.unique;
  same = λ u k.
      rw (found-drop id j st a.unique)
        (elim (Bool-cases (j == id)) [ inl e ↦ rw e refl | inr e ↦ rw e (a.same u k) ]);
}

pub Agrees-login :
    (now : ℕ) (id j csrf : String) (st : SessionStore) (known : Option AdminSession)
    → Agrees now id st known
    → Agrees now id
        (create_session j csrf now st).1
        (if j == id then some (record { csrf = csrf; expires = now + st.ttl }) else known)
unfolding create_session put_session drop_session
Agrees-login now id j csrf st known a =
    let swept = Agrees-sweep now now id st known (omega arith) a in
    let dropped = Agrees-drop now id j (sweep_locked now st) known swept in
    record {
      unique = (reject-has_key j (sweep_locked now st).by_id, dropped.unique);
      same = λ u k. elim (Bool-cases (j == id)) [
        | inl e ↦ rw e refl
        | inr e ↦ rw e (rw e at (dropped.same u k))
      ];
    }
