-- ===== src/Poller/Once.antt =====
-- The poller of internal/channel/telegram_poller.go never replays: no update is handled twice, and
-- none that was pending when the process started.

use stattii.Base.{
  All, All-append, Bool-cases, List, Option, [], arith, inl, inr, leb, ltb, map, none, refl, some,
  subst, suc, sym, zero, ℕ, ◌++◌, ◌+◌, ◌<◌, ◌∷◌, ◌≡◌, ◌≤◌,
}
use stattii.Poller.Defs.{
  Poll, Update, next_offset, poll_round, run, run_from, seed_offset, seed_step, take_update,
  take_updates,
}
use stattii.Service.{Service}

-- Ids that rise strictly, from a first one.
abbrev pub Rising : ℕ → List ℕ → Type 0
Rising lo [] = Unit
Rising lo (i ∷ rest) = (lo ≤ i) × Rising (i + 1) rest

abbrev pub ids_of : List Update → List ℕ
ids_of us = map (λ (u : Update). u.update_id) us

-- What the Bot API says of getUpdates: the updates from the offset on, in the order of their ids.
abbrev pub Serves : (ℕ → ℕ → Option (List Update)) → Type 0
Serves updates =
    (round offset : ℕ) (us : List Update)
    → updates round offset ≡ some us
    → Rising offset (ids_of us)

-- What was handled rises from the first id, and lies below the offset.
record Fresh (lo : ℕ) (p : Poll) : Type 0 where
  rises : Rising lo p.handled
  below : All (λ i. i < p.offset) p.handled
  reached : lo ≤ p.offset

Rising-snoc :
    (lo i : ℕ) (xs : List ℕ)
    → Rising lo xs
    → All (λ j. j < i) xs
    → lo ≤ i
    → Rising lo (xs ++ i ∷ [])
Rising-snoc lo i [] r b h = (h, tt)
Rising-snoc lo i (x ∷ xs) r b h = (r.0, Rising-snoc (x + 1) i xs r.1 b.1 (omega (arith, b.0)))

All-below : (m n : ℕ) (xs : List ℕ) → m ≤ n → All (λ i. i < m) xs → All (λ i. i < n) xs
All-below m n [] h b = tt
All-below m n (x ∷ xs) h b = (omega (arith, b.0), All-below m n xs h b.1)

next_offset-reached : (offset id : ℕ) → offset ≤ id → next_offset offset id ≡ id + 1
next_offset-reached offset id h = elim (Bool-cases (leb offset id)) [
  | inl e ↦ rw e refl
  | inr e ↦ ground (arith, h, e)
]

take_update-Fresh :
    (lo : ℕ) (u : Update) (p : Poll)
    → Fresh lo p
    → p.offset ≤ u.update_id
    → Fresh lo (take_update u p)
unfolding take_update
take_update-Fresh lo u p f h =
    let next = next_offset-reached p.offset u.update_id h in
    let below = All-below p.offset u.update_id p.handled h f.below in
    record {
      rises = Rising-snoc lo u.update_id p.handled f.rises below (omega (arith, f.reached));
      below =
          subst (λ o. All (λ i. i < o) (p.handled ++ u.update_id ∷ [])) (sym next)
            (All-append (λ i. i < u.update_id + 1) p.handled (u.update_id ∷ [])
              (All-below u.update_id (u.update_id + 1) p.handled (omega arith) below)
              (omega arith, tt));
      reached = omega (arith, next, f.reached);
    }

take_update-offset :
    (u : Update) (p : Poll) → p.offset ≤ u.update_id → (take_update u p).offset ≡ u.update_id + 1
unfolding take_update
take_update-offset u p h = next_offset-reached p.offset u.update_id h

take_updates-Fresh :
    (lo : ℕ) (us : List Update) (p : Poll)
    → Fresh lo p
    → Rising p.offset (ids_of us)
    → Fresh lo (take_updates us p)
unfolding take_updates
take_updates-Fresh lo [] p f r = f
take_updates-Fresh lo (u ∷ us) p f r =
    take_updates-Fresh lo us (take_update u p) (take_update-Fresh lo u p f r.0)
      (subst (λ o. Rising o (ids_of us)) (sym (take_update-offset u p r.0)) r.1)

module _ (updates : ℕ → ℕ → Option (List Update)) (serves : Serves updates) where
  poll_round-Fresh :
      (lo round : ℕ) (p : Poll) (found : Option (List Update))
      → updates round p.offset ≡ found
      → Fresh lo p
      → Fresh lo (poll_round found p)
  unfolding poll_round
  poll_round-Fresh lo round p none h f = f
  poll_round-Fresh lo round p (some us) h f =
      take_updates-Fresh lo us p f (serves round p.offset us h)

  run_from-Fresh : (lo round n : ℕ) (p : Poll) → Fresh lo p → Fresh lo (run_from updates round n p)
  unfolding run_from
  run_from-Fresh lo round zero p f = f
  run_from-Fresh lo round (suc n) p f =
      run_from-Fresh lo (suc round) n (poll_round (updates round p.offset) p)
        (poll_round-Fresh lo round p (updates round p.offset) refl f)

seed_step-above : (offset id : ℕ) → (offset ≤ seed_step offset id) × (id < seed_step offset id)
seed_step-above offset id = elim (Bool-cases (ltb offset (id + 1))) [
  | inl e ↦ rw e (ground (arith, e), omega arith)
  | inr e ↦ rw e (omega arith, ground (arith, e))
]

seed_offset-le : (us : List Update) (offset : ℕ) → offset ≤ seed_offset us offset
unfolding seed_offset
seed_offset-le [] offset = omega arith
seed_offset-le (u ∷ us) offset =
    let step = seed_step-above offset u.update_id in
    let rest = seed_offset-le us (seed_step offset u.update_id) in omega (arith, step.0, rest)

seed_offset-above :
    (us : List Update) (offset : ℕ) → All (λ i. i < seed_offset us offset) (ids_of us)
unfolding seed_offset
seed_offset-above [] offset = tt
seed_offset-above (u ∷ us) offset =
    let step = seed_step-above offset u.update_id in
    let rest = seed_offset-le us (seed_step offset u.update_id) in
    (omega (arith, step.1, rest), seed_offset-above us (seed_step offset u.update_id))

-- However many rounds the poller runs and whichever of them fail: every update that the seed saw
-- lies below the offset that the poller starts from, and the ids of the updates that it handles rise
-- strictly from there, so that none is handled twice; getUpdates is assumed to return the updates
-- from its offset on, in the order of their ids.
pub run-Rising :
    (pending : List Update) (updates : ℕ → ℕ → Option (List Update)) (n : ℕ) (w : Service)
    → Serves updates
    → All (λ i. i < seed_offset pending 0) (ids_of pending)
      × Rising (seed_offset pending 0) (run pending updates n w).handled
unfolding run
run-Rising pending updates n w serves =
    let start : Poll = record {
      offset = seed_offset pending 0;
      handled = [];
      answers = [];
      service = w;
    } in
    let ends =
      run_from-Fresh updates serves (seed_offset pending 0) 0 n start
        (record { rises = tt; below = tt; reached = omega arith }) in
    (seed_offset-above pending 0, ends.rises)
