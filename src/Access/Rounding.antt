-- ===== src/Access/Rounding.antt =====
-- What the limiter of internal/httpapi/limiter.go needs of float64: IEEE 754 rounds a sum, a product
-- and a quotient without crossing a number that float64 has, and Duration.Seconds keeps the order.

use native.Mathlib.Nat.{div-eq-sub-div}
use stattii.Access.Limiter.{Float64, at_most, gained}
use stattii.Base.{
  Bool-cases, arith, inl, inr, ltb, refl, sym, true, ℕ, ◌*◌, ◌+◌, ◌-◌, ◌/◌, ◌<◌, ◌≡◌, ◌≤◌, ◌⊎◌,
}

infix 4 ◌≼◌
-- Less, or the same number. NaN is the same as itself and comparable with nothing else.
abbrev pub ◌≼◌ : {F : Type 0} ⦃d : Float64 F⦄ → F → F → Type 0
◌≼◌ ⦃d⦄ a b = (d.lt a b ≡ true) ⊎ (a ≡ b)

-- A duration over another that is positive is a finite quotient.
pub record IsRounded (F : Type 0) ⦃d : Float64 F⦄ : Type 0 where
  pub seconds_mono : (m n : ℕ) → m ≤ n → d.seconds m ≼ d.seconds n
  pub one_le_div :
      (m n : ℕ) → 0 < n → d.seconds n ≼ d.seconds m → d.one ≼ d.div (d.seconds m) (d.seconds n)
  pub le_mul :
      (m n : ℕ) (b : F)
      → 0 < n
      → d.nought ≼ b
      → d.one ≼ d.div (d.seconds m) (d.seconds n)
      → b ≼ d.mul (d.div (d.seconds m) (d.seconds n)) b
  pub le_add : (t b x : F) → d.nought ≼ t → d.nought ≼ b → b ≼ x → b ≼ d.add t x

module _ {F : Type 0} ⦃d : Float64 F⦄ (r : IsRounded F) where
  at_most-eq : (limit n : F) → limit ≼ n → at_most limit n ≡ limit
  at_most-eq limit n (inl h) = rw h refl
  at_most-eq limit n (inr h) = elim (Bool-cases (d.lt limit n)) [
    | inl e ↦ rw e refl
    | inr e ↦ rw e (sym h)
  ]

  -- A bucket that waited for a window is full again.
  pub at_most-gained :
      (burst t : F) (window gap : ℕ)
      → 0 < window
      → window ≤ gap
      → d.nought ≼ burst
      → d.nought ≼ t
      → at_most burst (d.add t (gained burst window gap)) ≡ burst
  at_most-gained burst t window gap positive waited b0 t0 =
      let ratio = r.one_le_div gap window positive (r.seconds_mono window gap waited) in
      at_most-eq burst (d.add t (gained burst window gap)) (
        r.le_add t burst (gained burst window gap) t0 b0
          (r.le_mul gap window burst positive b0 ratio))

-- The laws can be met: whole numbers, with a quotient that rounds down.
instance abbrev pub whole : Float64 ℕ
whole = record {
  nought = 0;
  one = 1;
  add = λ a b. a + b;
  sub = λ a b. a - b;
  mul = λ a b. a * b;
  div = λ a b. a / b;
  lt = ltb;
  of_int = λ n. n;
  seconds = λ n. n;
}

le_whole : (a b : ℕ) → a ≤ b → a ≼ b
le_whole a b h = elim (Bool-cases (ltb a b)) [ inl e ↦ inl e | inr e ↦ inr (ground (arith, h, e)) ]

le_of_whole : (a b : ℕ) → a ≼ b → a ≤ b
le_of_whole a b (inl h) = ground (arith, h)
le_of_whole a b (inr h) = omega (arith, h)

pub whole-IsRounded : IsRounded ℕ
whole-IsRounded = record {
  seconds_mono = le_whole;
  one_le_div = λ m n positive h.
      le_whole 1 (m / n) (omega (arith, div-eq-sub-div positive (le_of_whole n m h)));
  le_mul = λ m n b positive z h. le_whole b (m / n * b) (grind (arith, le_of_whole 1 (m / n) h));
  le_add = λ t b x t0 b0 h. le_whole b (t + x) (omega (arith, le_of_whole b x h));
}
