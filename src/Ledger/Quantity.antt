-- ===== src/Ledger/Quantity.antt =====
-- The quantity that internal/instrument/ledger.go keeps, on every branch and whatever wraps.
use optionx_assignment.Common.{
  ◌≡◌, ◌∙◌, ℤ, pos, negsuc, ◌+ℤ◌, ◌-ℤ◌, ◌*ℤ◌, add64, sub64, mul64, neg64, wrap64, wrap64-InRange64,
  InRange64, arith, half64, ℕ, zero, suc, ◌<◌, lt_ℤ, eq_ℤ, if◌then◌else◌, wrap64_of_InRange64,
}
use optionx_assignment.Float.{Float64}
use optionx_assignment.Order.{Fill}
use optionx_assignment.Ledger.{abs64, sign64, Position, signed_qty, apply_fill}

-- What `apply_fill` computes of the quantity.
next_qty : ℤ → ℤ → ℤ
next_qty q d =
    let r = sub64 (abs64 d) (abs64 q) in
    if eq_ℤ d (pos 0)
    then q
    else if eq_ℤ q (pos 0)
    then d
    else if eq_ℤ (sign64 q) (sign64 d)
    then add64 q d
    else if lt_ℤ (pos 0) r
    then mul64 r (sign64 d)
    else if eq_ℤ r (pos 0)
    then pos 0
    else add64 q d

long_sell :
    (a b : ℕ)
    → suc a < half64
    → b < half64
    → next_qty (pos (suc a)) (negsuc b) ≡ add64 (pos (suc a)) (negsuc b)
unfolding next_qty abs64 sign64 add64 sub64 mul64 neg64 wrap64 ◌-ℤ◌ ◌+ℤ◌ ◌*ℤ◌
long_sell a b h k = ground arith

short_buy :
    (a b : ℕ)
    → a < half64
    → suc b < half64
    → next_qty (negsuc a) (pos (suc b)) ≡ add64 (negsuc a) (pos (suc b))
unfolding next_qty abs64 sign64 add64 sub64 mul64 neg64 wrap64 ◌-ℤ◌ ◌+ℤ◌ ◌*ℤ◌
short_buy a b h k = ground arith

next_qty_lem : (q d : ℤ) → InRange64 q → InRange64 d → next_qty q d ≡ add64 q d
unfolding next_qty sign64 add64 ◌+ℤ◌
next_qty_lem (pos zero) (pos d) h k = ground (arith, wrap64_of_InRange64 (pos d) k)
next_qty_lem (pos zero) (negsuc d) h k = ground (arith, wrap64_of_InRange64 (negsuc d) k)
next_qty_lem (pos (suc q)) (pos zero) h k = ground (arith, wrap64_of_InRange64 (pos (suc q)) h)
next_qty_lem (pos (suc q)) (pos (suc d)) h k = ground arith
next_qty_lem (pos (suc q)) (negsuc d) h k = long_sell q d h k
next_qty_lem (negsuc q) (pos zero) h k = ground (arith, wrap64_of_InRange64 (negsuc q) h)
next_qty_lem (negsuc q) (pos (suc d)) h k = short_buy q d h k
next_qty_lem (negsuc q) (negsuc d) h k = ground arith

pub add64-InRange64 : (a b : ℤ) → InRange64 (add64 a b)
unfolding add64
add64-InRange64 a b = wrap64-InRange64 (a +ℤ b)

neg64-InRange64 : (a : ℤ) → InRange64 (neg64 a)
unfolding neg64
neg64-InRange64 a = wrap64-InRange64 (pos 0 -ℤ a)

module _ ⦃fl : Float64⦄ where
  apply_fill-next_qty :
      (p : Position) (f : Fill) → (apply_fill p f).qty ≡ next_qty p.qty (signed_qty f)
  unfolding apply_fill next_qty
  apply_fill-next_qty p f = ground arith

  pub signed_qty-InRange64 : (f : Fill) → InRange64 f.qty → InRange64 (signed_qty f)
  unfolding signed_qty
  signed_qty-InRange64 f h = ground (arith, neg64-InRange64 f.qty)

  -- On every branch (nothing to do, opening, adding, reducing, closing, flipping) the new quantity is
  -- the int64 sum of the old one and the signed quantity of the fill, if both quantities are int64
  -- values. The least int64, whose absolute value wraps, is no exception.
  pub qty-apply_fill :
      (p : Position) (f : Fill)
      → InRange64 p.qty
      → InRange64 f.qty
      → (apply_fill p f).qty ≡ add64 p.qty (signed_qty f)
  qty-apply_fill p f h k =
      apply_fill-next_qty p f ∙ next_qty_lem p.qty (signed_qty f) h (signed_qty-InRange64 f k)
