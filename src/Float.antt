-- ===== src/Float.antt =====
-- float64, which is no part of the program: its type and operations are a parameter. No law is
-- assumed of them here; a theorem that needs one names it among its hypotheses.
use optionx_assignment.Common.{Bool, ℤ}

pub record Float64 : Type 1 where
  pub Carrier : Type 0
  pub add : Carrier → Carrier → Carrier
  pub sub : Carrier → Carrier → Carrier
  pub mul : Carrier → Carrier → Carrier
  pub div : Carrier → Carrier → Carrier
  pub of_int : ℤ → Carrier
  pub le : Carrier → Carrier → Bool
  pub larger : Carrier → Carrier → Carrier
  pub smaller : Carrier → Carrier → Carrier

abbrev pub Price : ⦃fl : Float64⦄ → Type 0
Price ⦃fl⦄ = fl.Carrier
