-- ===== src/Ledger/Branches.antt =====
-- The branches of ApplyFill of internal/instrument/ledger.go, by the signs of the position and of the
-- fill and by which is larger, for quantities whose sum is an int64 value.
use optionx_assignment.Common.{
  ℕ, suc, ◌+◌, ◌<◌, half64, String, ℤ, pos, negsuc, ◌+ℤ◌, ◌-ℤ◌, ◌*ℤ◌, add64, sub64, mul64, neg64,
  wrap64, eq_ℤ, ◌≡◌, refl, arith, if◌then◌else◌,
}
use optionx_assignment.Float.{Float64, Price}
use optionx_assignment.Order.{Fill}
use optionx_assignment.Ledger.{Position, abs64, sign64, signed_qty, extend, reduce, apply_fill}

module _ ⦃fl : Float64⦄ where
  -- ApplyFill of a fill whose signed quantity is `d`.
  unfoldable pub traded_at : Position → String → ℤ → Price → Position
  traded_at p token d price =
      let out : Position = record p { token = token } in
      if eq_ℤ d (pos 0)
      then out
      else if eq_ℤ p.qty (pos 0)
      then record out { qty = d; avg_price = price }
      else if eq_ℤ (sign64 p.qty) (sign64 d)
      then extend out d price
      else reduce out d price

  pub apply_fill-traded_at :
      (p : Position) (f : Fill) → apply_fill p f ≡ traded_at p f.token (signed_qty f) f.price
  unfolding apply_fill traded_at
  apply_fill-traded_at p f = refl

  module _ (token : String) (avg r : Price) (token' : String) (price : Price) where
    abbrev pub at : ℤ → Position
    at q = record { token = token; qty = q; avg_price = avg; realized_pnl = r }

    abbrev pub left_with : ℤ → Price → Price → Position
    left_with q a gain = record {
      token = token';
      qty = q;
      avg_price = a;
      realized_pnl = fl.add r gain;
    }

    pub flat_buy :
        (b : ℕ)
        → traded_at (at (pos 0)) token' (pos (suc b)) price
          ≡ record { token = token'; qty = pos (suc b); avg_price = price; realized_pnl = r }
    unfolding traded_at
    flat_buy b = ground arith

    pub flat_sell :
        (b : ℕ)
        → traded_at (at (pos 0)) token' (negsuc b) price
          ≡ record { token = token'; qty = negsuc b; avg_price = price; realized_pnl = r }
    unfolding traded_at
    flat_sell b = ground arith

    pub long_partial :
        (a b : ℕ)
        → b < a
        → suc a < half64
        → traded_at (at (pos (suc a))) token' (negsuc b) price
          ≡ left_with
              (pos (suc a) +ℤ negsuc b)
              avg
              (fl.mul (fl.of_int (pos (suc b))) (fl.sub price avg))
    unfolding traded_at extend reduce abs64 sign64 add64 sub64 mul64 neg64 wrap64 ◌-ℤ◌ ◌+ℤ◌ ◌*ℤ◌
    long_partial a b h k = ground arith

    pub long_flip :
        (a b : ℕ)
        → a < b
        → suc b < half64
        → traded_at (at (pos (suc a))) token' (negsuc b) price
          ≡ left_with
              (pos (suc a) +ℤ negsuc b)
              price
              (fl.mul (fl.of_int (pos (suc a))) (fl.sub price avg))
    unfolding traded_at extend reduce abs64 sign64 add64 sub64 mul64 neg64 wrap64 ◌-ℤ◌ ◌+ℤ◌ ◌*ℤ◌
    long_flip a b h k = ground arith

    pub long_exact :
        (a : ℕ)
        → suc a < half64
        → traded_at (at (pos (suc a))) token' (negsuc a) price
          ≡ left_with
              (pos 0)
              (fl.of_int (pos 0))
              (fl.mul (fl.of_int (pos (suc a))) (fl.sub price avg))
    unfolding traded_at extend reduce abs64 sign64 add64 sub64 mul64 neg64 wrap64 ◌-ℤ◌ ◌+ℤ◌ ◌*ℤ◌
    long_exact a k = ground arith

    pub short_partial :
        (a b : ℕ)
        → b < a
        → suc a < half64
        → traded_at (at (negsuc a)) token' (pos (suc b)) price
          ≡ left_with
              (negsuc a +ℤ pos (suc b))
              avg
              (fl.mul (fl.of_int (pos (suc b))) (fl.sub avg price))
    unfolding traded_at extend reduce abs64 sign64 add64 sub64 mul64 neg64 wrap64 ◌-ℤ◌ ◌+ℤ◌ ◌*ℤ◌
    short_partial a b h k = ground arith

    pub short_flip :
        (a b : ℕ)
        → a < b
        → suc b < half64
        → traded_at (at (negsuc a)) token' (pos (suc b)) price
          ≡ left_with
              (negsuc a +ℤ pos (suc b))
              price
              (fl.mul (fl.of_int (pos (suc a))) (fl.sub avg price))
    unfolding traded_at extend reduce abs64 sign64 add64 sub64 mul64 neg64 wrap64 ◌-ℤ◌ ◌+ℤ◌ ◌*ℤ◌
    short_flip a b h k = ground arith

    pub short_exact :
        (a : ℕ)
        → suc a < half64
        → traded_at (at (negsuc a)) token' (pos (suc a)) price
          ≡ left_with
              (pos 0)
              (fl.of_int (pos 0))
              (fl.mul (fl.of_int (pos (suc a))) (fl.sub avg price))
    unfolding traded_at extend reduce abs64 sign64 add64 sub64 mul64 neg64 wrap64 ◌-ℤ◌ ◌+ℤ◌ ◌*ℤ◌
    short_exact a k = ground arith

    -- The average price after a fill on the same side, of so many units in all.
    abbrev pub blended : ℤ → ℤ → ℤ → Price
    blended q d total =
        fl.div (fl.add (fl.mul (fl.of_int q) avg) (fl.mul (fl.of_int d) price)) (fl.of_int total)

    pub long_more :
        (a b : ℕ)
        → suc a + suc b < half64
        → traded_at (at (pos (suc a))) token' (pos (suc b)) price ≡ record {
          token = token';
          qty = pos (suc a) +ℤ pos (suc b);
          avg_price = blended (pos (suc a)) (pos (suc b)) (pos (suc a + suc b));
          realized_pnl = r;
        }
    unfolding traded_at extend reduce abs64 sign64 add64 sub64 mul64 neg64 wrap64 ◌-ℤ◌ ◌+ℤ◌ ◌*ℤ◌
    long_more a b k = ground arith

    pub short_more :
        (a b : ℕ)
        → suc a + suc b < half64
        → traded_at (at (negsuc a)) token' (negsuc b) price ≡ record {
          token = token';
          qty = negsuc a +ℤ negsuc b;
          avg_price = blended (pos (suc a)) (pos (suc b)) (pos (suc a + suc b));
          realized_pnl = r;
        }
    unfolding traded_at extend reduce abs64 sign64 add64 sub64 mul64 neg64 wrap64 ◌-ℤ◌ ◌+ℤ◌ ◌*ℤ◌
    short_more a b k = ground arith
