-- ===== src/Access/Room.antt =====
-- How much the limiter of internal/httpapi/limiter.go remembers.

use stattii.Access.Keyed.{has_key}
use stattii.Access.Limiter.{
  Bucket, Float64, Limiter, allow, allow_found, allow_new, allow_swept, is_idle, max_tracked_keys,
  new_limiter, sweep,
}
use stattii.Base.{
  Bool, Bool-cases, List, Option, String, [], arith, count-add-length-reject, find_first, inl, inr,
  leb, length, length-append, length-update_first, ltb, none, reject, some, ℕ, ◌+◌, ◌∷◌, ◌≤◌,
}

length-reject-le {ℓ} : {A : Type ℓ} (p : A → Bool) (xs : List A) → length (reject p xs) ≤ length xs
length-reject-le p xs = omega (arith, count-add-length-reject p xs)

length-sweep-le : {F : Type 0} (now : ℕ) (l : Limiter F) → length (sweep now l).seen ≤ length l.seen
unfolding sweep
length-sweep-le now l = elim (Bool-cases (ltb (l.last_sweep + l.window) now)) [
  | inl e ↦ rw e (length-reject-le (is_idle l.window now) l.seen)
  | inr e ↦ rw e (omega arith)
]

-- Requests, each by its key and at its time.
abbrev pub allow_all : {F : Type 0} ⦃d : Float64 F⦄ → List (String × ℕ) → Limiter F → Limiter F
allow_all [] l = l
allow_all ((key, now) ∷ asks) l = allow_all asks (allow key now l).1

module _ {F : Type 0} ⦃d : Float64 F⦄ where
  length-allow_new-le :
      (key : String) (now : ℕ) (l : Limiter F)
      → length l.seen ≤ max_tracked_keys
      → length (allow_new key now l).1.seen ≤ max_tracked_keys
  unfolding allow_new
  length-allow_new-le key now l h = elim (Bool-cases (leb max_tracked_keys (length l.seen))) [
    | inl e ↦ rw e h
    | inr e ↦ rw (e, length-append) (ground arith)
  ]

  length-allow_found-le :
      (hit : Option (String × Bucket F)) (key : String) (now : ℕ) (l : Limiter F)
      → length l.seen ≤ max_tracked_keys
      → length (allow_found hit key now l).1.seen ≤ max_tracked_keys
  unfolding allow_found
  length-allow_found-le none key now l h = length-allow_new-le key now l h
  length-allow_found-le (some (k, b)) key now l h =
      rw (length-update_first (has_key key) _ l.seen) h

  length-allow-le :
      (key : String) (now : ℕ) (l : Limiter F)
      → length l.seen ≤ max_tracked_keys
      → length (allow key now l).1.seen ≤ max_tracked_keys
  unfolding allow allow_swept
  length-allow-le key now l h =
      length-allow_found-le (find_first (has_key key) (sweep now l).seen) key now (sweep now l)
        (omega (arith, length-sweep-le now l))

  length-allow_all_from-le :
      (asks : List (String × ℕ)) (l : Limiter F)
      → length l.seen ≤ max_tracked_keys
      → length (allow_all asks l).seen ≤ max_tracked_keys
  length-allow_all_from-le [] l h = h
  length-allow_all_from-le ((key, now) ∷ asks) l h =
      length-allow_all_from-le asks (allow key now l).1 (length-allow-le key now l h)

-- Whatever requests a new limiter answers, with whatever keys and at whatever times, it tracks no
-- more than maxTrackedKeys of them.
pub length-allow_all-le :
    (F : Type 0) ⦃d : Float64 F⦄ (burst window : ℕ) (asks : List (String × ℕ))
    → length (allow_all {F = F} asks (new_limiter burst window)).seen ≤ max_tracked_keys
unfolding new_limiter
length-allow_all-le F burst window asks =
    length-allow_all_from-le asks (new_limiter {F = F} burst window) (ground arith)
