-- ===== src/Deliveries/Selection.antt =====
-- Which rows collectOutboxLocked hands to the sender.

use stattii.Base.{
  All, All-append, Bool, Bool-cases, List, Mem, Option, String, [], arith, eq_iff, false,
  if◌then◌else◌, inl, inr, mem-cons_of_mem, mem-cons_self, none, refl, some, subst, sym, true, ℕ,
  ◌++◌, ◌+◌, ◌<◌, ◌==◌, ◌∙◌, ◌∷◌, ◌≡◌, ◌≤◌,
}
use stattii.Deliveries.Marks.{mark, mark-set_mark, set_mark}
use stattii.Deliveries.Passes.{
  OutboxAttempt, Pass, attempt_of, collect_outbox_locked, collect_row, collect_rows, escalate_row,
  in_selection, is_mine, is_stuck, new_pass, stuck_page, take_row, takes, who_of,
}
use stattii.Model.{OutboxItem, is_delivered}
use stattii.Service.{Config, Context, Service}

-- What makes an attempt eligible, over the outbox `os` and the marks `out` that the pass begins with.
pub record Eligible (cfg : Config) (now : ℕ) (only : Option (List String)) (os : List OutboxItem)
    (out : List (String × ℕ)) (a : OutboxAttempt) : Type 0 where
  pub row : OutboxItem
  pub stored : Mem row os
  pub copied : a ≡ attempt_of row
  pub undelivered : is_delivered row ≡ false
  pub chosen : in_selection only row ≡ true
  pub in_budget : row.attempts < cfg.max_attempts
  pub due : row.next_attempt ≤ now
  pub free : mark (who_of row) out ≡ 0

takes-escalated :
    (cfg : Config) (now : ℕ) (only : Option (List String)) (o : OutboxItem) (at : ℕ) (p : Pass)
    → takes cfg now only (record o { escalated_at = at }) p ≡ takes cfg now only o p
takes-escalated cfg now none o at p = refl
takes-escalated cfg now (some ids) o at p = refl

module _ (c : Context) (now : ℕ) (only : Option (List String)) (all : List OutboxItem)
    (out : List (String × ℕ)) where
  -- The recipients that the pass has taken were free, and it has moved no other mark.
  record Fair (p : Pass) : Type 0 where
    attempts : All (Eligible c.cfg now only all out) p.attempts
    free : (who : String) → is_mine who p ≡ true → mark who out ≡ 0
    same : (who : String) → is_mine who p ≡ false → mark who p.sending_to ≡ mark who out

  -- A taken row's recipient was free when the pass began.
  takes-free :
      (o : OutboxItem) (p : Pass)
      → Fair p
      → takes c.cfg now only o p ≡ true
      → mark (who_of o) out ≡ 0
  takes-free o p f h = elim (Bool-cases (is_mine (who_of o) p)) [
    | inl m ↦ f.free (who_of o) m
    | inr m ↦ ground (arith, h, m, f.same (who_of o) m)
  ]

  mine_free :
      (who k : String) (p : Pass)
      → Fair p
      → mark who out ≡ 0
      → (if who == k then true else is_mine k p) ≡ true
      → mark k out ≡ 0
  mine_free who k p f z h = elim (Bool-cases (who == k)) [
    | inl e ↦ subst (λ x. mark x out ≡ 0) ((eq_iff who k).0 e) z
    | inr e ↦ f.free k (rw e at h)
  ]

  mine_same :
      (who k : String) (n : ℕ) (p : Pass)
      → Fair p
      → (if who == k then true else is_mine k p) ≡ false
      → mark k (set_mark who n p.sending_to) ≡ mark k out
  mine_same who k n p f h = elim (Bool-cases (who == k)) [
    | inl e ↦ absurd (let bad = rw e at h in cc)
    | inr e ↦ mark-set_mark who k n p.sending_to ∙ rw e (f.same k (rw e at h))
  ]

  take_row-Fair :
      (o : OutboxItem) (at : ℕ) (p : Pass)
      → Mem o all
      → is_delivered o ≡ false
      → Fair p
      → takes c.cfg now only o p ≡ true
      → Fair (take_row (record o { escalated_at = at }) p)
  unfolding take_row
  take_row-Fair o at p m d f h =
      let z = takes-free o p f h in
      record {
        attempts =
            All-append (Eligible c.cfg now only all out) p.attempts (attempt_of o ∷ []) f.attempts (
              record {
                row = o;
                stored = m;
                copied = refl;
                undelivered = d;
                chosen = ground (arith, h);
                in_budget = ground (arith, h);
                due = ground (arith, h);
                free = z;
              },
              tt,
            );
        free = λ k g. mine_free (who_of o) k p f z g;
        same = λ k g. mine_same (who_of o) k (mark (who_of o) p.sending_to + 1) p f g;
      }

  Fair-if : (b : Bool) (p q : Pass) → (b ≡ true → Fair q) → Fair p → Fair (if b then q else p)
  Fair-if true p q h f = h refl
  Fair-if false p q h f = f

  -- A stored row, with the time of its escalation overwritten.
  taken-Fair :
      (o : OutboxItem) (at : ℕ) (p : Pass)
      → Mem o all
      → is_delivered o ≡ false
      → Fair p
      → (let k = record o { escalated_at = at } in
          Fair (if takes c.cfg now only k p then take_row k p else p))
  taken-Fair o at p m d f =
      let k = record o { escalated_at = at } in
      Fair-if (takes c.cfg now only k p) p (take_row k p)
        (λ h. take_row-Fair o at p m d f (sym (takes-escalated c.cfg now only o at p) ∙ h)) f

  collect_row-Fair :
      (o : OutboxItem) (p : Pass) → Mem o all → Fair p → Fair (collect_row c now only o p).1
  unfolding collect_row escalate_row
  collect_row-Fair o p m f = elim (Bool-cases (is_delivered o)) [
    | inl d ↦ rw (d, collect_row) f
    | inr d ↦
        rw (d, collect_row)
          (elim (Bool-cases (is_stuck c.cfg now o)) [
            | inl e ↦
                rw (e, escalate_row)
                  (let p' : Pass = record p {
                    changed = true;
                    escalations = p.escalations ++ stuck_page c now o ∷ [];
                  } in
                    taken-Fair o now p' m d
                      (record { attempts = f.attempts; free = f.free; same = f.same }))
            | inr e ↦ rw (e, escalate_row) (taken-Fair o o.escalated_at p m d f)
          ])
  ]

  collect_rows-Fair :
      (os : List OutboxItem) (p : Pass)
      → ((o : OutboxItem) → Mem o os → Mem o all)
      → Fair p
      → Fair (collect_rows c now only os p).1
  unfolding collect_rows
  collect_rows-Fair [] p ms f = f
  collect_rows-Fair (o ∷ os) p ms f =
      collect_rows-Fair os _ (λ k m. ms k (mem-cons_of_mem o m))
        (collect_row-Fair o p (ms o mem-cons_self) f)

-- Every attempt of a pass is a copy of an undelivered row of the outbox that is selected, due and
-- within the attempt limit, and that is addressed to a recipient to whom no earlier pass is still
-- sending.
pub collect-Eligible :
    (now : ℕ) (only : Option (List String)) (w : Service)
    → All
        (Eligible w.cfg now only w.outbox w.process.sending_to)
        (collect_outbox_locked now only w).0.0
unfolding collect_outbox_locked
collect-Eligible now only w =
    (collect_rows-Fair w.ctx now only w.outbox w.process.sending_to w.outbox (new_pass w) (λ o m. m)
      (record { attempts = tt; free = λ who h. absurd (cc); same = λ who h. refl })).attempts
