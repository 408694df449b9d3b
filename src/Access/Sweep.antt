-- ===== src/Access/Sweep.antt =====
-- The sweep of internal/httpapi/limiter.go drops buckets that are as good as new.

use stattii.Access.Keyed.{UniqueKeys, after_reject, find_first-All, find_first-reject, has_key}
use stattii.Access.Limiter.{
  Bucket, Float64, Limiter, allow, allow_found, allow_new, allow_swept, full_bucket, is_idle,
  max_tracked_keys, refill, sweep, take_token,
}
use stattii.Access.Rounding.{IsRounded, at_most-gained, ◌≼◌}
use stattii.Base.{
  All, Bool, Bool-cases, Option, String, ap, arith, count-add-length-reject, eqb, false, find_first,
  inl, inr, leb, length, ltb, none, refl, reject, some, sym, true, ℕ, ◌+◌, ◌-◌, ◌<◌, ◌∙◌, ◌≡◌,
}

module _ {F : Type 0} ⦃d : Float64 F⦄ where
  -- A tracked bucket was used, and its tokens are no less than nothing.
  abbrev pub IsUsed : String × Bucket F → Type 0
  IsUsed e = (eqb e.1.last 0 ≡ false) × (d.nought ≼ e.1.tokens)

  -- What the limiter answers where the map has room, by the key's entry.
  abbrev pub answer_of : Option (String × Bucket F) → Limiter F → ℕ → Bool
  answer_of none l now = (take_token l.burst l.window now (full_bucket l.burst)).0
  answer_of (some (k, b)) l now = (take_token l.burst l.window now b).0

  allow_found-answer :
      (hit : Option (String × Bucket F)) (key : String) (now : ℕ) (l : Limiter F)
      → length l.seen < max_tracked_keys
      → (allow_found hit key now l).0 ≡ answer_of hit l now
  unfolding allow_found allow_new
  allow_found-answer none key now l room =
      let e : leb max_tracked_keys (length l.seen) ≡ false = ground arith in rw e
  allow_found-answer (some (k, b)) key now l room = refl

  module _ (r : IsRounded F) where
    refill-idle :
        (burst : F) (window now : ℕ) (k : String) (b : Bucket F)
        → 0 < window
        → d.nought ≼ burst
        → IsUsed (k, b)
        → is_idle window now (k, b) ≡ true
        → refill burst window now b ≡ burst
    unfolding refill
    refill-idle burst window now k b positive b0 h idle = rw (h.0) (
        at_most-gained r burst b.tokens window (now - b.last) positive (ground (arith, idle)) b0
          (h.1))

    -- A bucket that was idle for longer than the window answers as a new one does.
    take_token-idle :
        (burst : F) (window now : ℕ) (k : String) (b : Bucket F)
        → 0 < window
        → d.nought ≼ burst
        → IsUsed (k, b)
        → is_idle window now (k, b) ≡ true
        → take_token burst window now b ≡ take_token burst window now (full_bucket burst)
    unfolding take_token
    take_token-idle burst window now k b positive b0 h idle =
        rw (refill-idle burst window now k b positive b0 h idle) (unfold refill in refl)

    answer-after_reject :
        (hit : Option (String × Bucket F)) (now : ℕ) (l l' : Limiter F)
        → 0 < l.window
        → d.nought ≼ l.burst
        → l'.burst ≡ l.burst
        → l'.window ≡ l.window
        → ((e : String × Bucket F) → hit ≡ some e → IsUsed e)
        → answer_of (after_reject (is_idle l.window now) hit) l' now ≡ answer_of hit l now
    unfolding after_reject
    answer-after_reject none now l l' positive b0 p q used = rw (p, q)
    answer-after_reject (some (k, b)) now l l' positive b0 p q used =
        elim (Bool-cases (is_idle l.window now (k, b))) [
          | inl e ↦
              rw (e, p, q)
                (ap (λ (r : Bool × Bucket F). r.0)
                  (sym (take_token-idle l.burst l.window now k b positive b0 (used (k, b) refl) e)))
          | inr e ↦ rw (e, p, q)
        ]

    -- The sweep never changes an answer, where float64 rounds as IEEE 754 says: where the window is
    -- positive and the burst no less than nothing, no key is tracked twice, every tracked bucket
    -- was used and holds no less than nothing, and the map has room, the limiter answers as one
    -- that never sweeps.
    pub allow-eq-allow_swept :
        (key : String) (now : ℕ) (l : Limiter F)
        → 0 < l.window
        → d.nought ≼ l.burst
        → UniqueKeys l.seen
        → All IsUsed l.seen
        → length l.seen < max_tracked_keys
        → (allow key now l).0 ≡ (allow_swept key now l).0
    unfolding allow allow_swept sweep
    allow-eq-allow_swept key now l positive b0 unique used room =
        elim (Bool-cases (ltb (l.last_sweep + l.window) now)) [
          | inl e ↦
              let l' : Limiter F = record l {
                seen = reject (is_idle l.window now) l.seen;
                last_sweep = now;
              } in
              let fewer : length l'.seen < max_tracked_keys =
                omega (arith, count-add-length-reject (is_idle l.window now) l.seen) in
              rw e (
                allow_found-answer (find_first (has_key key) l'.seen) key now l' fewer
                ∙ ap (λ (o : Option (String × Bucket F)). answer_of o l' now)
                    (find_first-reject key (is_idle l.window now) l.seen unique)
                ∙ answer-after_reject (find_first (has_key key) l.seen) now l l' positive b0 refl
                    refl (λ x p. find_first-All IsUsed key l.seen used p)
                ∙ sym (allow_found-answer (find_first (has_key key) l.seen) key now l room))
          | inr e ↦ rw e
        ]
