-- ===== src/Examples/Profit.antt =====
-- A position that is bought twice, and then sold past zero, in cents: their division rounds, but not here.
use optionx_assignment.Common.{
  ℕ, ℤ, pos, ◌+ℤ◌, ◌-ℤ◌, ◌*ℤ◌, add64, sub64, mul64, neg64, wrap64, ◌≡◌, refl, arith, List, [], ◌∷◌,
}
use optionx_assignment.Order.{Side, buy, sell, Fill}
use optionx_assignment.Ledger.{
  apply_fill, signed_qty, extend, reduce, settle, abs64, sign64, unrealized_pnl,
}
use optionx_assignment.Ledger.Value.{
  AreExact, MarksExactly, apply_fills, profit, gains, value-apply_fills,
}
use optionx_assignment.Actor.State.{zero_position}
use optionx_assignment.Examples.{cents}

abbrev fill_at : Side → ℕ → ℕ → Fill
fill_at side qty price = record {
  order_id = "x";
  token = "T";
  side = side;
  qty = pos qty;
  price = pos price;
}

-- The second purchase makes the average 105; the sale leaves a short position of ten.
abbrev fills : List Fill
fills = fill_at buy 10 100 ∷ fill_at buy 10 110 ∷ fill_at sell 30 120 ∷ []

abbrev in_cents : ℤ → ℤ
in_cents z = z

fills-AreExact : AreExact in_cents zero_position fills
unfolding apply_fill signed_qty extend reduce settle abs64 sign64 add64 sub64 mul64 neg64 wrap64
    ◌+ℤ◌ ◌-ℤ◌ ◌*ℤ◌
fills-AreExact = (
  record { small = omega arith; unrounded = tt },
  (
    record { small = omega arith; unrounded = refl },
    (record { small = omega arith; unrounded = refl }, tt),
  ),
)

start-MarksExactly : MarksExactly in_cents zero_position (pos 130)
unfolding unrealized_pnl
start-MarksExactly = refl

end-MarksExactly : MarksExactly in_cents (apply_fills zero_position fills) (pos 130)
unfolding unrealized_pnl
end-MarksExactly = refl

value-apply_fills_example :
    profit in_cents (apply_fills zero_position fills) (pos 130)
    ≡ gains in_cents (profit in_cents zero_position (pos 130)) (pos 130) fills
value-apply_fills_example =
    value-apply_fills in_cents zero_position fills (pos 130) fills-AreExact start-MarksExactly
      end-MarksExactly

-- 20 units were sold at a profit of 15, and the ten that are short lose ten each.
profit_of_fills : profit in_cents (apply_fills zero_position fills) (pos 130) ≡ pos 200
unfolding profit apply_fills apply_fill signed_qty extend reduce settle abs64 sign64 add64 sub64
    mul64 neg64 wrap64 ◌+ℤ◌ ◌-ℤ◌ ◌*ℤ◌ unrealized_pnl
profit_of_fills = refl
