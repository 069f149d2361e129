-- ===== src/Ledger/Whole.antt =====
-- Whole numbers in the place of prices: an arithmetic without rounding. The theorems on profit and loss
-- count the program's prices in units that are whole, and are proved here.
use optionx_assignment.Common.{
  ℤ, pos, pos_part, neg_part, ◌+ℤ◌, ◌-ℤ◌, ◌*ℤ◌, +ℤ_parts, -ℤ_parts, eq_of_parts, ◌≡◌, ◌+◌, ◌*◌,
  refl, ap, arith, le_ℤ, if◌then◌else◌,
}
use optionx_assignment.Float.{Float64}
use optionx_assignment.Ledger.Exact.{ExactLaws}

-- Nothing is divided here.
abbrev pub whole : Float64
whole = record {
  Carrier = ℤ;
  add = ◌+ℤ◌;
  sub = ◌-ℤ◌;
  mul = ◌*ℤ◌;
  div = λ a b. a;
  of_int = λ n. n;
  le = le_ℤ;
  larger = λ a b. if le_ℤ a b then b else a;
  smaller = λ a b. if le_ℤ a b then a else b;
}

pub +ℤ_assoc : (a b c : ℤ) → a +ℤ b +ℤ c ≡ a +ℤ (b +ℤ c)
+ℤ_assoc a b c = omega (arith, +ℤ_parts, eq_of_parts)

pub +ℤ_comm : (a b : ℤ) → a +ℤ b ≡ b +ℤ a
+ℤ_comm a b = omega (arith, +ℤ_parts, eq_of_parts)

pub +ℤ-zero : (a : ℤ) → a +ℤ pos 0 ≡ a
+ℤ-zero a = omega (arith, +ℤ_parts, eq_of_parts)

pub -ℤ-add : (a b : ℤ) → a -ℤ b +ℤ b ≡ a
-ℤ-add a b = omega (arith, +ℤ_parts, -ℤ_parts, eq_of_parts)

pub +ℤ-sub : (a b : ℤ) → a +ℤ b -ℤ b ≡ a
+ℤ-sub a b = omega (arith, +ℤ_parts, -ℤ_parts, eq_of_parts)

pub *ℤ_parts :
    (a b : ℤ)
    → pos_part (a *ℤ b) + (pos_part a * neg_part b + neg_part a * pos_part b)
      ≡ neg_part (a *ℤ b) + (pos_part a * pos_part b + neg_part a * neg_part b)
unfolding ◌*ℤ◌
*ℤ_parts a b = ground arith

pub *ℤ-sub : (a b c : ℤ) → a *ℤ (b -ℤ c) ≡ a *ℤ b -ℤ a *ℤ c
*ℤ-sub a b c = eq_of_parts _ _ (
    omega (
      arith,
      *ℤ_parts a (b -ℤ c),
      *ℤ_parts a b,
      *ℤ_parts a c,
      -ℤ_parts (a *ℤ b) (a *ℤ c),
      ap (λ t. pos_part a * t) (-ℤ_parts b c),
      ap (λ t. neg_part a * t) (-ℤ_parts b c),
    ))

pub *ℤ-add : (a b c : ℤ) → (a +ℤ b) *ℤ c ≡ a *ℤ c +ℤ b *ℤ c
*ℤ-add a b c = eq_of_parts _ _ (
    omega (
      arith,
      *ℤ_parts (a +ℤ b) c,
      *ℤ_parts a c,
      *ℤ_parts b c,
      +ℤ_parts (a *ℤ c) (b *ℤ c),
      ap (λ t. pos_part c * t) (+ℤ_parts a b),
      ap (λ t. neg_part c * t) (+ℤ_parts a b),
    ))

abbrev pub whole_exact : ExactLaws ⦃fl = whole⦄
whole_exact = record {
  add_assoc = +ℤ_assoc;
  add_comm = +ℤ_comm;
  add-zero = +ℤ-zero;
  sub-add = -ℤ-add;
  add-sub = +ℤ-sub;
  mul-sub = *ℤ-sub;
  mul-add = *ℤ-add;
  of_int-add = λ m n. refl;
}
