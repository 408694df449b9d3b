-- ===== src/Deliveries/Marks.antt =====
-- The maps of the sends that are out, `sending` by item and `sendingTo` by recipient.

use stattii.Base.{
  Bool, Bool-cases, List, String, [], any_of, concat, eq_iff, if◌then◌else◌, inl, inr, leb, refl,
  reject, sym, true, ℕ, ◌-◌, ◌==◌, ◌∙◌, ◌∷◌, ◌≡◌,
}

-- `m[key]`, 0 where the key is missing.
abbrev pub mark : String → List (String × ℕ) → ℕ
mark key [] = 0
mark key ((k, n) ∷ rest) = let tail = mark key rest in if k == key then n else tail

abbrev pub is_marked : String → List (String × ℕ) → Bool
is_marked key m = any_of (λ kn. kn.0 == key) m

-- `m[key] = n`
abbrev pub set_mark : String → ℕ → List (String × ℕ) → List (String × ℕ)
set_mark key n [] = (key, n) ∷ []
set_mark key n ((k, v) ∷ rest) =
    let tail = (k, v) ∷ set_mark key n rest in if k == key then (k, n) ∷ rest else tail

-- `delete(m, key)`
abbrev pub drop_mark : String → List (String × ℕ) → List (String × ℕ)
drop_mark key m = reject (λ kn. kn.0 == key) m

-- `if m[key]--; m[key] <= 0 { delete(m, key) }`
abbrev pub lower_mark : String → List (String × ℕ) → List (String × ℕ)
lower_mark key m = if leb (mark key m) 1 then drop_mark key m else set_mark key (mark key m - 1) m

-- recipientKey
abbrev pub recipient_key : String → String → String
recipient_key kind to = concat (kind ∷ "\0" ∷ to ∷ [])

pub same_key : (a b c : String) → (a == b) ≡ true → (c == b) ≡ true → (a == c) ≡ true
same_key a b c h k = (eq_iff a c).1 ((eq_iff a b).0 h ∙ sym ((eq_iff c b).0 k))

-- A write under a key is what a read under it finds, and no other key sees it.
pub mark-set_mark :
    (key q : String) (n : ℕ) (m : List (String × ℕ))
    → mark q (set_mark key n m) ≡ (if key == q then n else mark q m)
mark-set_mark key q n [] = refl
mark-set_mark key q n ((k, v) ∷ rest) = elim (Bool-cases (k == key)) [
  | inl e ↦
      rw (e, (eq_iff k key).0 e)
        (elim (Bool-cases (key == q)) [ inl f ↦ rw f refl | inr f ↦ rw f refl ])
  | inr e ↦ rw e (elim (Bool-cases (key == q)) [
    | inl f ↦ elim (Bool-cases (k == q)) [
      | inl g ↦ absurd (let bad = same_key k q key g f in cc)
      | inr g ↦ rw (g, f, mark-set_mark key q n rest) (rw f refl)
    ]
    | inr f ↦ rw (f, mark-set_mark key q n rest) (rw f refl)
  ])
]
