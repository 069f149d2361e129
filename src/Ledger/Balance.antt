-- ===== src/Ledger/Balance.antt =====
-- What one fill does to the profit of a position of internal/instrument/ledger.go, branch by branch, where
-- none of the numbers that this fill leads to is rounded.
use optionx_assignment.Common.{
  ℕ, zero, suc, ◌+◌, ◌<◌, ltb, String, ℤ, pos, negsuc, ◌+ℤ◌, ◌-ℤ◌, ◌*ℤ◌, ◌≡◌, sym, ◌∙◌, ap, arith,
  inl, inr, ◌⊎◌, subst, if◌then◌else◌,
}
use optionx_assignment.Float.{Float64, Price}
use optionx_assignment.Ledger.{Position}
use optionx_assignment.Ledger.Exact.{mul_opposite}
use optionx_assignment.Ledger.Whole.{whole, whole_exact}
use optionx_assignment.Ledger.Branches.{
  traded_at, at, left_with, flat_buy, flat_sell, blended, long_partial, long_exact, long_flip,
  long_more, short_partial, short_exact, short_flip, short_more,
}
use optionx_assignment.Ledger.Worth.{
  IsSmall, Balanced, long_reduced, long_flipped, short_reduced, short_flipped, closed, extended,
  opened, untouched,
}

trichotomy : (a b : ℕ) → (a < b) ⊎ (a ≡ b) ⊎ (b < a)
trichotomy a b = ground arith

-- How many units a fill closes.
abbrev pub closing : ℕ → ℕ → ℕ
closing a b = if ltb b a then b else a

module _ ⦃fl : Float64⦄ (units : Price → ℤ) where
  -- The position with its prices in units.
  abbrev pub in_units : Position → Position ⦃fl = whole⦄
  in_units p = record {
    token = p.token;
    qty = p.qty;
    avg_price = units p.avg_price;
    realized_pnl = units p.realized_pnl;
  }

  -- The profit `r` with the gain on `c` units, from one price to the other, is not rounded.
  abbrev pub GainsExactly : Price → ℕ → Price → Price → Type 0
  GainsExactly r c to paid =
      units (fl.add r (fl.mul (fl.of_int (pos c)) (fl.sub to paid)))
      ≡ units r +ℤ pos c *ℤ (units to -ℤ units paid)

  -- The weighted average of a fill on the same side is not rounded.
  abbrev pub DividesEvenly : Price → Price → ℕ → ℕ → Type 0
  DividesEvenly avg price a b =
      let sum = fl.add (fl.mul (fl.of_int (pos a)) avg) (fl.mul (fl.of_int (pos b)) price) in
      pos (a + b) *ℤ units (fl.div sum (fl.of_int (pos (a + b))))
      ≡ pos a *ℤ units avg +ℤ pos b *ℤ units price

  -- What ApplyFill computes of prices, by the signs of the position and of the fill.
  abbrev pub IsUnrounded : Price → Price → Price → ℤ → ℤ → Type 0
  IsUnrounded r avg price (pos zero) d = Unit
  IsUnrounded r avg price (pos (suc a)) (pos zero) = Unit
  IsUnrounded r avg price (pos (suc a)) (pos (suc b)) = DividesEvenly avg price (suc a) (suc b)
  IsUnrounded r avg price (pos (suc a)) (negsuc b) =
      GainsExactly r (closing (suc a) (suc b)) price avg
  IsUnrounded r avg price (negsuc a) (pos zero) = Unit
  IsUnrounded r avg price (negsuc a) (pos (suc b)) =
      GainsExactly r (closing (suc a) (suc b)) avg price
  IsUnrounded r avg price (negsuc a) (negsuc b) = DividesEvenly avg price (suc a) (suc b)

  module _ (token : String) (avg r : Price) (token' : String) (price : Price) (x : ℤ) where
    abbrev pub BalancedInUnits : ℤ → ℤ → Position → Type 0
    BalancedInUnits q d p =
        Balanced ⦃fl = whole⦄ whole_exact token (units avg) (units r) token' (units price) x q d
          (in_units p)

    abbrev left_in_units : ℤ → ℤ → ℕ → Price → Price → Position ⦃fl = whole⦄
    left_in_units q a c to paid =
        left_with ⦃fl = whole⦄ token (units avg) (units r) token' (units price) q a
          (pos c *ℤ (units to -ℤ units paid))

    -- A fill that closes `c` units.
    carried :
        (q d q' : ℤ) (a : Price) (c : ℕ) (to paid : Price) (p : Position)
        → p ≡ left_with token avg r token' price q' a (fl.mul (fl.of_int (pos c)) (fl.sub to paid))
        → GainsExactly r c to paid
        → Balanced ⦃fl = whole⦄ whole_exact token
            (units avg)
            (units r)
            token'
            (units price)
            x
            q
            d
            (left_in_units q' (units a) c to paid)
        → BalancedInUnits q d p
    carried q d q' a c to paid p e g b = subst (BalancedInUnits q d) (sym e) (
        subst
          (λ z.
            Balanced ⦃fl = whole⦄ whole_exact token (units avg) (units r) token' (units price) x q d
              (record { token = token'; qty = q'; avg_price = units a; realized_pnl = z }))
          (sym g) b)

    long_sold :
        (a b : ℕ)
        → IsSmall (pos (suc a)) (negsuc b)
        → GainsExactly r (closing (suc a) (suc b)) price avg
        → BalancedInUnits
            (pos (suc a))
            (negsuc b)
            (traded_at (at token avg r token' price (pos (suc a))) token' (negsuc b) price)
    unfolding ◌+ℤ◌
    long_sold a b h e = elim (trichotomy a b) [
      | inl lt ↦
          let all : closing (suc a) (suc b) ≡ suc a = ground arith in
          carried (pos (suc a)) (negsuc b) _ price (suc a) price avg _
            (long_flip token avg r token' price a b lt (omega arith))
            (subst (λ c. GainsExactly r c price avg) all e)
            (long_flipped ⦃fl = whole⦄ whole_exact token (units avg) (units r) token' (units price)
              x (pos (suc a)) (negsuc b))
      | inr (inl same) ↦
          let all : closing (suc a) (suc b) ≡ suc a = ground arith in
          subst
            (λ c.
              BalancedInUnits (pos (suc a)) (negsuc c)
                (traded_at (at token avg r token' price (pos (suc a))) token' (negsuc c) price))
            same
            (carried (pos (suc a)) (negsuc a) (pos 0) (fl.of_int (pos 0)) (suc a) price avg _
              (long_exact token avg r token' price a (omega arith))
              (subst (λ c. GainsExactly r c price avg) all e)
              (closed ⦃fl = whole⦄ whole_exact token (units avg) (units r) token' (units price) x
                (pos (suc a)) (negsuc a) (units (fl.of_int (pos 0))) _ (ground arith)
                (long_reduced ⦃fl = whole⦄ whole_exact token (units avg) (units r) token'
                  (units price) x (pos (suc a)) (pos (suc a)) (negsuc a) (ground arith))))
      | inr (inr gt) ↦
          let part : closing (suc a) (suc b) ≡ suc b = ground arith in
          carried (pos (suc a)) (negsuc b) _ avg (suc b) price avg _
            (long_partial token avg r token' price a b gt (omega arith))
            (subst (λ c. GainsExactly r c price avg) part e)
            (long_reduced ⦃fl = whole⦄ whole_exact token (units avg) (units r) token' (units price)
              x (pos (suc a)) (pos (suc b)) (negsuc b) (ground arith))
    ]

    short_bought :
        (a b : ℕ)
        → IsSmall (negsuc a) (pos (suc b))
        → GainsExactly r (closing (suc a) (suc b)) avg price
        → BalancedInUnits
            (negsuc a)
            (pos (suc b))
            (traded_at (at token avg r token' price (negsuc a)) token' (pos (suc b)) price)
    unfolding ◌+ℤ◌
    short_bought a b h e = elim (trichotomy a b) [
      | inl lt ↦
          let all : closing (suc a) (suc b) ≡ suc a = ground arith in
          carried (negsuc a) (pos (suc b)) _ price (suc a) avg price _
            (short_flip token avg r token' price a b lt (omega arith))
            (subst (λ c. GainsExactly r c avg price) all e)
            (short_flipped ⦃fl = whole⦄ whole_exact token (units avg) (units r) token' (units price)
              x (negsuc a) (pos (suc a)) (pos (suc b)) (ground arith))
      | inr (inl same) ↦
          let all : closing (suc a) (suc b) ≡ suc a = ground arith in
          subst
            (λ c.
              BalancedInUnits (negsuc a) (pos (suc c))
                (traded_at (at token avg r token' price (negsuc a)) token' (pos (suc c)) price))
            same
            (carried (negsuc a) (pos (suc a)) (pos 0) (fl.of_int (pos 0)) (suc a) avg price _
              (short_exact token avg r token' price a (omega arith))
              (subst (λ c. GainsExactly r c avg price) all e)
              (closed ⦃fl = whole⦄ whole_exact token (units avg) (units r) token' (units price) x
                (negsuc a) (pos (suc a)) (units (fl.of_int (pos 0))) _ (ground arith)
                (short_reduced ⦃fl = whole⦄ whole_exact token (units avg) (units r) token'
                  (units price) x (negsuc a) (pos (suc a)))))
      | inr (inr gt) ↦
          let part : closing (suc a) (suc b) ≡ suc b = ground arith in
          carried (negsuc a) (pos (suc b)) _ avg (suc b) avg price _
            (short_partial token avg r token' price a b gt (omega arith))
            (subst (λ c. GainsExactly r c avg price) part e)
            (short_reduced ⦃fl = whole⦄ whole_exact token (units avg) (units r) token' (units price)
              x (negsuc a) (pos (suc b)))
    ]

    long_bought :
        (a b : ℕ)
        → IsSmall (pos (suc a)) (pos (suc b))
        → DividesEvenly avg price (suc a) (suc b)
        → BalancedInUnits
            (pos (suc a))
            (pos (suc b))
            (traded_at (at token avg r token' price (pos (suc a))) token' (pos (suc b)) price)
    unfolding ◌+ℤ◌
    long_bought a b h e =
        let q = pos (suc a) in
        let d = pos (suc b) in
        let a' = units (blended token avg r token' price q d (pos (suc a + suc b))) in
        let sum : q +ℤ d ≡ pos (suc a + suc b) = ground arith in
        subst (BalancedInUnits q d) (sym (long_more token avg r token' price a b (omega arith))) (
          extended ⦃fl = whole⦄ whole_exact token (units avg) (units r) token' (units price) x q d
            a' (ap (λ n. n *ℤ a') sum ∙ e))

    short_sold :
        (a b : ℕ)
        → IsSmall (negsuc a) (negsuc b)
        → DividesEvenly avg price (suc a) (suc b)
        → BalancedInUnits
            (negsuc a)
            (negsuc b)
            (traded_at (at token avg r token' price (negsuc a)) token' (negsuc b) price)
    unfolding ◌+ℤ◌
    short_sold a b h e =
        let q = pos (suc a) in
        let d = pos (suc b) in
        let t = pos (suc a + suc b) in
        let a' = units (blended token avg r token' price q d t) in
        subst (BalancedInUnits (negsuc a) (negsuc b))
          (sym (short_more token avg r token' price a b (omega arith)))
          (extended ⦃fl = whole⦄ whole_exact token (units avg) (units r) token' (units price) x
            (negsuc a) (negsuc b) a'
            (mul_opposite ⦃fl = whole⦄ whole_exact q d t (negsuc a) (negsuc b) a' (units avg)
              (units price) (ground arith) (ground arith) (ground arith) e))

    idle :
        (q : ℤ)
        → BalancedInUnits q
            (pos 0)
            (record { token = token'; qty = q; avg_price = avg; realized_pnl = r })
    idle q = untouched ⦃fl = whole⦄ whole_exact token (units avg) (units r) token' (units price) x q

    begun :
        (d : ℤ)
        → BalancedInUnits
            (pos 0)
            d
            (record { token = token'; qty = d; avg_price = price; realized_pnl = r })
    begun d = opened ⦃fl = whole⦄ whole_exact token (units avg) (units r) token' (units price) x d

    pub traded_at-Balanced :
        (q d : ℤ)
        → IsSmall q d
        → IsUnrounded r avg price q d
        → BalancedInUnits q d (traded_at (at token avg r token' price q) token' d price)
    unfolding traded_at
    traded_at-Balanced (pos zero) (pos zero) h e = idle (pos 0)
    traded_at-Balanced (pos zero) (pos (suc b)) h e =
        subst (BalancedInUnits (pos 0) (pos (suc b))) (sym (flat_buy token avg r token' price b))
          (begun (pos (suc b)))
    traded_at-Balanced (pos zero) (negsuc b) h e =
        subst (BalancedInUnits (pos 0) (negsuc b)) (sym (flat_sell token avg r token' price b))
          (begun (negsuc b))
    traded_at-Balanced (pos (suc a)) (pos zero) h e = idle (pos (suc a))
    traded_at-Balanced (pos (suc a)) (pos (suc b)) h e = long_bought a b h e
    traded_at-Balanced (pos (suc a)) (negsuc b) h e = long_sold a b h e
    traded_at-Balanced (negsuc a) (pos zero) h e = idle (negsuc a)
    traded_at-Balanced (negsuc a) (pos (suc b)) h e = short_bought a b h e
    traded_at-Balanced (negsuc a) (negsuc b) h e = short_sold a b h e
