-- ===== src/Base/Lists.antt =====
-- Go's loops over slices: counting, selecting, finding and changing the first hit.

use Prim.Native.Nat.{ℕ, zero, suc, ◌+◌, ◌≤◌}
use mathlib.Core.Path.{◌≡◌, refl}
use mathlib.Core.Bool.{Bool, true, false}
use mathlib.Core.Option.{Option, none, some}
use mathlib.Core.List.{List, [], ◌∷◌, ◌++◌}
use native.Mathlib.Omega.{arith}
use stattii.Base.Tests.{if◌then◌else◌, leb}

module _ {ℓ} {A : Type ℓ} where
  abbrev pub length : List A → ℕ
  length [] = 0
  length (x ∷ xs) = suc (length xs)

  -- `for _, x := range xs { if p(x) { out = append(out, x) } }`
  abbrev pub select : (A → Bool) → List A → List A
  select p [] = []
  select p (x ∷ xs) = let rest = select p xs in if p x then x ∷ rest else rest

  -- The rows that a filter in place keeps: those that `drop` does not pick.
  abbrev pub reject : (A → Bool) → List A → List A
  reject p [] = []
  reject p (x ∷ xs) = let rest = reject p xs in if p x then rest else x ∷ rest

  abbrev pub count_where : (A → Bool) → List A → ℕ
  count_where p [] = 0
  count_where p (x ∷ xs) = let rest = count_where p xs in if p x then suc rest else rest

  abbrev pub any_of : (A → Bool) → List A → Bool
  any_of p [] = false
  any_of p (x ∷ xs) = let rest = any_of p xs in if p x then true else rest

  -- `for i := range xs { if p(xs[i]) { return &xs[i] } }; return nil`
  abbrev pub find_first : (A → Bool) → List A → Option A
  find_first p [] = none
  find_first p (x ∷ xs) = let rest = find_first p xs in if p x then some x else rest

  -- A write through the pointer that `find_first` returns.
  abbrev pub update_first : (A → Bool) → (A → A) → List A → List A
  update_first p f [] = []
  update_first p f (x ∷ xs) = let rest = x ∷ update_first p f xs in if p x then f x ∷ xs else rest

  -- `append(xs[:i], xs[i+1:]...)` at the first hit.
  abbrev pub remove_first : (A → Bool) → List A → List A
  remove_first p [] = []
  remove_first p (x ∷ xs) = let rest = x ∷ remove_first p xs in if p x then xs else rest

  -- `for i := len(xs) - 1; i >= 0; i--`, or a write per hit: the last hit counts.
  abbrev pub find_last : (A → Bool) → List A → Option A
  find_last p [] = none
  find_last p (x ∷ xs) = elim (find_last p xs) [
    | some y ↦ some y
    | none ↦ if p x then some x else none
  ]

  unfoldable pub insert_by : (A → ℕ) → A → List A → List A
  insert_by key x [] = x ∷ []
  insert_by key x (y ∷ ys) =
      let later = y ∷ insert_by key x ys in if leb (key x) (key y) then x ∷ y ∷ ys else later

  -- sort.SliceStable by a number.
  unfoldable pub sort_by : (A → ℕ) → List A → List A
  unfolding insert_by
  sort_by key [] = []
  sort_by key (x ∷ xs) = insert_by key x (sort_by key xs)

  unfoldable pub insert_less : (A → A → Bool) → A → List A → List A
  insert_less less x [] = x ∷ []
  insert_less less x (y ∷ ys) =
      let later = y ∷ insert_less less x ys in if less y x then later else x ∷ y ∷ ys

  -- sort.Slice by an order.
  unfoldable pub sort_less : (A → A → Bool) → List A → List A
  unfolding insert_less
  sort_less less [] = []
  sort_less less (x ∷ xs) = insert_less less x (sort_less less xs)

  abbrev pub get_elem? : List A → ℕ → Option A
  get_elem? [] i = none
  get_elem? (x ∷ xs) zero = some x
  get_elem? (x ∷ xs) (suc i) = get_elem? xs i

  -- Every element, as a type that computes to a tuple.
  abbrev pub All {κ} : (A → Type κ) → List A → Type κ
  All P [] = Unit
  All P (x ∷ xs) = P x × All P xs

  pub length-append : (xs ys : List A) → length (xs ++ ys) ≡ length xs + length ys
  length-append [] ys = omega arith
  length-append (x ∷ xs) ys = omega (arith, length-append xs ys)

  pub select-append :
      (p : A → Bool) (xs ys : List A) → select p (xs ++ ys) ≡ select p xs ++ select p ys
  select-append p [] ys = refl
  select-append p (x ∷ xs) ys = ground (arith, select-append p xs ys)

  pub count_where-append :
      (p : A → Bool) (xs ys : List A)
      → count_where p (xs ++ ys) ≡ count_where p xs + count_where p ys
  count_where-append p [] ys = omega arith
  count_where-append p (x ∷ xs) ys = ground (arith, count_where-append p xs ys)

  pub count_where-le-length : (p : A → Bool) (xs : List A) → count_where p xs ≤ length xs
  count_where-le-length p [] = omega arith
  count_where-le-length p (x ∷ xs) = ground (arith, count_where-le-length p xs)

  pub count_where-reject : (p : A → Bool) (xs : List A) → count_where p (reject p xs) ≡ 0
  count_where-reject p [] = refl
  count_where-reject p (x ∷ xs) = ground (arith, count_where-reject p xs)

  pub count-add-length-reject :
      (p : A → Bool) (xs : List A) → count_where p xs + length (reject p xs) ≡ length xs
  count-add-length-reject p [] = refl
  count-add-length-reject p (x ∷ xs) = ground (arith, count-add-length-reject p xs)

  pub length-update_first :
      (p : A → Bool) (f : A → A) (xs : List A) → length (update_first p f xs) ≡ length xs
  length-update_first p f [] = refl
  length-update_first p f (x ∷ xs) = ground (arith, length-update_first p f xs)

  -- Where the write keeps what the search tests, the search finds the written row.
  pub find_first-update_first :
      (p : A → Bool) (f : A → A) (xs : List A) {x : A}
      → find_first p xs ≡ some x
      → p (f x) ≡ true
      → find_first p (update_first p f xs) ≡ some (f x)
  find_first-update_first p f [] h k = ground arith
  find_first-update_first p f (y ∷ ys) {x} h k =
      ground (arith, find_first-update_first p f ys {x = x})

  pub find_first-holds :
      (p : A → Bool) (xs : List A) {x : A} → find_first p xs ≡ some x → p x ≡ true
  find_first-holds p [] h = ground arith
  find_first-holds p (y ∷ ys) {x} h = ground (arith, find_first-holds p ys {x = x})

  pub All-append {κ} : (P : A → Type κ) (xs ys : List A) → All P xs → All P ys → All P (xs ++ ys)
  All-append P [] ys h k = k
  All-append P (x ∷ xs) ys h k = (h.0, All-append P xs ys h.1 k)
