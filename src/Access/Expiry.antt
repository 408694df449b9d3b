-- ===== src/Access/Expiry.antt =====
-- When a session of internal/httpapi/adminsession.go is alive. The store forgets early and late, at
-- logouts, look-ups and sweeps.

use stattii.Access.Agreement.{
  Agrees, Agrees-drop, Agrees-login, Call, IsOrdered, a_login, a_logout, a_lookup, found-drop,
  last_word, serve_all, serve_call, stored, time_of, unexpired, word_after,
}
use stattii.Access.Keyed.{UniqueKeys, UniqueKeys-reject, has_key}
use stattii.Access.Sessions.{
  AdminSession, SessionStore, create_session, drop_session, lookup_found, lookup_session,
  new_session_store, put_session, sweep_locked,
}
use stattii.Base.{
  Bool-cases, List, Option, Option-cases, String, [], arith, eq_iff, false, find_first, inl, inr,
  ltb, none, refl, some, subst, ℕ, ◌==◌, ◌∙◌, ◌∷◌, ◌≡◌, ◌≤◌,
}

-- A look-up forgets only a session that is past its time.
found-lookup :
    (now t : ℕ) (id j : String) (st : SessionStore)
    → UniqueKeys st.by_id
    → now ≤ t
    → unexpired t (stored (find_first (has_key id) (lookup_session j now st).1.by_id))
      ≡ unexpired t (stored (find_first (has_key id) st.by_id))
unfolding lookup_session lookup_found
found-lookup now t id j st u h = elim (Bool-cases (j == "")) [
  | inl e ↦ rw e
  | inr e ↦ rw e (elim (Option-cases (find_first (has_key j) st.by_id)) [
    | inl f ↦ rw (f, lookup_found)
    | inr ((k, s), f) ↦ elim (Bool-cases (ltb now s.expires)) [
      | inl live ↦ rw (f, lookup_found, live)
      | inr dead ↦
          rw (f, lookup_found, dead, found-drop id j st u)
            (elim (Bool-cases (j == id)) [
              | inl same ↦
                  let f' =
                    subst (λ i. find_first (has_key i) st.by_id ≡ some (k, s))
                      ((eq_iff j id).0 same) f in
                  rw same (rw f' (ground arith))
              | inr apart ↦ rw apart refl
            ])
    ]
  ])
]

UniqueKeys-lookup :
    (now : ℕ) (j : String) (st : SessionStore)
    → UniqueKeys st.by_id
    → UniqueKeys (lookup_session j now st).1.by_id
unfolding lookup_session lookup_found
UniqueKeys-lookup now j st u = elim (Bool-cases (j == "")) [
  | inl e ↦ rw e u
  | inr e ↦ rw e (elim (Option-cases (find_first (has_key j) st.by_id)) [
    | inl f ↦ rw (f, lookup_found) u
    | inr ((k, s), f) ↦ elim (Bool-cases (ltb now s.expires)) [
      | inl live ↦ rw (f, lookup_found, live) u
      | inr dead ↦
          rw (f, lookup_found, dead)
            (unfold drop_session in UniqueKeys-reject (has_key j) st.by_id u)
    ]
  ])
]

Agrees-later :
    (now t : ℕ) (id : String) (st : SessionStore) (known : Option AdminSession)
    → now ≤ t
    → Agrees now id st known
    → Agrees t id st known
Agrees-later now t id st known h a = record {
  unique = a.unique;
  same = λ u k. a.same u (omega arith);
}

Agrees-serve :
    (now : ℕ) (id : String) (c : Call) (st : SessionStore) (known : Option AdminSession)
    → now ≤ time_of c
    → Agrees now id st known
    → Agrees (time_of c) id (serve_call c st) (word_after st.ttl id c known)
unfolding serve_call word_after
Agrees-serve now id (a_login j csrf t) st known h a =
    Agrees-login t id j csrf st known (Agrees-later now t id st known h a)
Agrees-serve now id (a_lookup j t) st known h a = record {
  unique = UniqueKeys-lookup t j st a.unique;
  same = λ u k. found-lookup t u id j st a.unique k ∙ a.same u (omega arith);
}
Agrees-serve now id (a_logout j t) st known h a =
    Agrees-drop t id j st known (Agrees-later now t id st known h a)

ttl-lookup_found :
    (o : Option (String × AdminSession)) (j : String) (t : ℕ) (st : SessionStore)
    → (lookup_found o j t st).1.ttl ≡ st.ttl
unfolding lookup_found drop_session
ttl-lookup_found none j t st = refl
ttl-lookup_found (some (k, s)) j t st = ground arith

ttl-serve : (c : Call) (st : SessionStore) → (serve_call c st).ttl ≡ st.ttl
unfolding serve_call create_session put_session sweep_locked lookup_session drop_session
ttl-serve (a_login j csrf t) st = refl
ttl-serve (a_lookup j t) st =
    ground (arith, ttl-lookup_found (find_first (has_key j) st.by_id) j t st)
ttl-serve (a_logout j t) st = refl

Agrees-serve_all :
    (now end : ℕ) (id : String) (cs : List Call) (st : SessionStore) (known : Option AdminSession)
    → IsOrdered now cs end
    → Agrees now id st known
    → Agrees end id (serve_all cs st) (last_word st.ttl id cs known)
unfolding serve_all last_word
Agrees-serve_all now end id [] st known h a = Agrees-later now end id st known h a
Agrees-serve_all now end id (c ∷ cs) st known h a =
    subst
      (λ ttl.
        Agrees end id (serve_all cs (serve_call c st))
          (last_word ttl id cs (word_after st.ttl id c known)))
      (ttl-serve c st)
      (Agrees-serve_all (time_of c) end id cs (serve_call c st) (word_after st.ttl id c known) h.1
        (Agrees-serve now id c st known h.0 a))

lookup-stored :
    (now : ℕ) (id : String) (st : SessionStore)
    → (id == "") ≡ false
    → (lookup_session id now st).0 ≡ unexpired now (stored (find_first (has_key id) st.by_id))
unfolding lookup_session lookup_found
lookup-stored now id st h = elim (Option-cases (find_first (has_key id) st.by_id)) [
  | inl f ↦ rw (h, f, lookup_found)
  | inr ((k, s), f) ↦ rw (h, f, lookup_found) (ground arith)
]

-- After any calls on a new store, in the order of their times, a look-up of an id that is not empty
-- finds exactly the session of the id's last login, and only while no logout of the id came after
-- and the time of the session is not over.
pub lookup_session-last_word :
    (ttl now : ℕ) (id : String) (cs : List Call)
    → IsOrdered 0 cs now
    → (id == "") ≡ false
    → (lookup_session id now (serve_all cs (new_session_store ttl))).0
      ≡ unexpired now (last_word ttl id cs none)
lookup_session-last_word ttl now id cs ordered named =
    let empty : Agrees 0 id (new_session_store ttl) none =
      unfold new_session_store in record { unique = tt; same = λ t h. refl } in
    let agreed : Agrees now id (serve_all cs (new_session_store ttl)) (last_word ttl id cs none) =
      unfold new_session_store in
      Agrees-serve_all 0 now id cs (new_session_store ttl) none ordered empty in
    lookup-stored now id (serve_all cs (new_session_store ttl)) named
    ∙ agreed.same now (omega arith)
