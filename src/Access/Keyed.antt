-- ===== src/Access/Keyed.antt =====
-- Go maps with text keys, as lists with an entry for each key.

use stattii.Base.{
  All, Bool, Bool-cases, List, Option, String, [], arith, eq_iff, false, find_first, if◌then◌else◌,
  inl, inr, none, refl, reject, some, subst, true, ◌==◌, ◌∷◌, ◌≡◌,
}

-- The test of a look-up.
abbrev pub has_key {ℓ} : {V : Type ℓ} → String → String × V → Bool
has_key key (k, v) = k == key

pub All-reject {ℓ κ} :
    {A : Type ℓ} (P : A → Type κ) (p : A → Bool) (xs : List A) → All P xs → All P (reject p xs)
All-reject P p [] h = tt
All-reject P p (x ∷ xs) h = elim (Bool-cases (p x)) [
  | inl e ↦ rw e (All-reject P p xs h.1)
  | inr e ↦ rw e (h.0, All-reject P p xs h.1)
]

module _ {ℓ} {V : Type ℓ} where
  abbrev pub UniqueKeys : List (String × V) → Type 0
  UniqueKeys [] = Unit
  UniqueKeys (e ∷ rest) = All (λ f. (f.0 == e.0) ≡ false) rest × UniqueKeys rest

  -- An entry that a filter in place leaves.
  unfoldable pub after_reject : (String × V → Bool) → Option (String × V) → Option (String × V)
  after_reject idle none = none
  after_reject idle (some e) = if idle e then none else some e

  pub find_first-absent :
      (key : String) (xs : List (String × V))
      → All (λ f. (f.0 == key) ≡ false) xs
      → find_first (has_key key) xs ≡ none
  find_first-absent key [] h = refl
  find_first-absent key ((k, b) ∷ rest) h = rw h.0 (find_first-absent key rest h.1)

  pub find_first-reject :
      (key : String) (idle : String × V → Bool) (xs : List (String × V))
      → UniqueKeys xs
      → find_first (has_key key) (reject idle xs) ≡ after_reject idle (find_first (has_key key) xs)
  unfolding after_reject
  find_first-reject key idle [] h = refl
  find_first-reject key idle ((k, b) ∷ rest) h = elim (Bool-cases (k == key)) [
    | inl hit ↦
        let gone = λ (e : idle (k, b) ≡ true). find_first-absent key (reject idle rest) (
          All-reject (λ f. (f.0 == key) ≡ false) idle rest
            (subst (λ j. All (λ f. (f.0 == j) ≡ false) rest) ((eq_iff k key).0 hit) h.0)) in
        elim (Bool-cases (idle (k, b))) [
          | inl e ↦ rw (e, hit, e) (gone e)
          | inr e ↦ rw (e, hit, e) refl
        ]
    | inr miss ↦
        let rest_eq = find_first-reject key idle rest h.1 in
        elim (Bool-cases (idle (k, b))) [
          | inl e ↦ rw (e, miss) rest_eq
          | inr e ↦ rw (e, miss) rest_eq
        ]
  ]

  pub find_first-All {κ} :
      (P : String × V → Type κ) (key : String) (xs : List (String × V)) {e : String × V}
      → All P xs
      → find_first (has_key key) xs ≡ some e
      → P e
  find_first-All P key [] h eq = absurd (ground arith)
  find_first-All P key ((k, b) ∷ xs) {e} h eq = elim (Bool-cases (k == key)) [
    | inl hit ↦ subst P (ground arith) h.0
    | inr miss ↦ find_first-All P key xs h.1 (ground arith)
  ]

  pub UniqueKeys-reject :
      (p : String × V → Bool) (xs : List (String × V)) → UniqueKeys xs → UniqueKeys (reject p xs)
  UniqueKeys-reject p [] h = tt
  UniqueKeys-reject p (x ∷ xs) h = elim (Bool-cases (p x)) [
    | inl e ↦ rw e (UniqueKeys-reject p xs h.1)
    | inr e ↦ rw e (All-reject (λ f. (f.0 == x.0) ≡ false) p xs h.0, UniqueKeys-reject p xs h.1)
  ]

  -- What a deletion of all entries of a key leaves has none of them.
  pub reject-has_key :
      (key : String) (xs : List (String × V))
      → All (λ f. (f.0 == key) ≡ false) (reject (has_key key) xs)
  reject-has_key key [] = tt
  reject-has_key key ((k, v) ∷ xs) = elim (Bool-cases (k == key)) [
    | inl e ↦ rw e (reject-has_key key xs)
    | inr e ↦ rw e (e, reject-has_key key xs)
  ]
