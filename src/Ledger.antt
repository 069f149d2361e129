-- ===== src/Ledger.antt =====
-- internal/instrument/ledger.go and the snapshot of internal/instrument/publisher.go: how fills
-- turn into a position. Quantities are int64 with its wrap-around.
pub mod Quantity
pub mod Branches
pub mod Exact
pub mod Whole
pub mod Worth
pub mod Balance
pub mod Value
use optionx_assignment.Common.{
  Bool, true, false, String, ℤ, pos, negsuc, lt_ℤ, eq_ℤ, add64, sub64, mul64, neg64, if◌then◌else◌,
}
use optionx_assignment.Float.{Float64, Price}
use optionx_assignment.Order.{Fill, is_sell}

unfoldable pub abs64 : ℤ → ℤ
abs64 n = if lt_ℤ n (pos 0) then neg64 n else n

unfoldable pub sign64 : ℤ → ℤ
sign64 n = if lt_ℤ (pos 0) n then pos 1 else if lt_ℤ n (pos 0) then negsuc 0 else pos 0

abbrev pub min64 : ℤ → ℤ → ℤ
min64 a b = if lt_ℤ b a then b else a

module _ ⦃fl : Float64⦄ where
  pub record Position : Type 0 where
    pub token : String
    pub qty : ℤ
    pub avg_price : Price
    pub realized_pnl : Price

  unfoldable pub signed_qty : Fill → ℤ
  signed_qty f = if is_sell f.side then neg64 f.qty else f.qty

  -- The second `case`: adding in the same direction. `out` already carries the fill's token.
  unfoldable pub extend : Position → ℤ → Price → Position
  extend out delta price =
      let total_qty = add64 (abs64 out.qty) (abs64 delta) in
      record out {
        avg_price =
            fl.div
              (fl.add (fl.mul (fl.of_int (abs64 out.qty)) out.avg_price)
                (fl.mul (fl.of_int (abs64 delta)) price))
              (fl.of_int total_qty);
        qty = add64 out.qty delta;
      }

  -- The inner `switch` on what is left of the fill once the position is closed.
  unfoldable pub settle : Position → ℤ → ℤ → Price → Position
  settle out remaining delta price =
      if lt_ℤ (pos 0) remaining
      then record out { qty = mul64 remaining (sign64 delta); avg_price = price }
      else if eq_ℤ remaining (pos 0)
      then record out { qty = pos 0; avg_price = fl.of_int (pos 0) }
      else record out { qty = add64 out.qty delta }

  -- The `default` case: closing, possibly flipping.
  unfoldable pub reduce : Position → ℤ → Price → Position
  unfolding settle
  reduce out delta price =
      let closing_qty = min64 (abs64 out.qty) (abs64 delta) in
      let pnl_per_unit : Price =
        if lt_ℤ (pos 0) out.qty then fl.sub price out.avg_price else fl.sub out.avg_price price in
      let realized = fl.add out.realized_pnl (fl.mul (fl.of_int closing_qty) pnl_per_unit) in
      let closed : Position = record out { realized_pnl = realized } in
      settle closed (sub64 (abs64 delta) (abs64 out.qty)) delta price

  unfoldable pub apply_fill : Position → Fill → Position
  unfolding extend reduce
  apply_fill p f =
      let out : Position = record p { token = f.token } in
      let delta = signed_qty f in
      if eq_ℤ delta (pos 0)
      then out
      else if eq_ℤ p.qty (pos 0)
      then record out { qty = delta; avg_price = f.price }
      else if eq_ℤ (sign64 p.qty) (sign64 delta)
      then extend out delta f.price
      else reduce out delta f.price

  unfoldable pub unrealized_pnl : Position → Price → Price
  unrealized_pnl p ltp = fl.mul (fl.of_int p.qty) (fl.sub ltp p.avg_price)

  pub record Update : Type 0 where
    pub token : String
    pub qty : ℤ
    pub avg_price : Price
    pub realized_pnl : Price
    pub unrealized_pnl : Price
    pub last_ltp : Price

  unfoldable pub update_from : String → Position → Price → Update
  unfolding unrealized_pnl
  update_from token p last_ltp = record {
    token = token;
    qty = p.qty;
    avg_price = p.avg_price;
    realized_pnl = p.realized_pnl;
    unrealized_pnl = unrealized_pnl p last_ltp;
    last_ltp = last_ltp;
  }
