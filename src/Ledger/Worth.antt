-- ===== src/Ledger/Worth.antt =====
-- The positions that a fill of internal/instrument/ledger.go can leave, and what each is worth where the
-- arithmetic is exact.
use optionx_assignment.Common.{
  ◌+◌, ◌<◌, half64, String, ℤ, pos, pos_part, neg_part, ◌+ℤ◌, ◌≡◌, sym, ◌∙◌, ap,
}
use optionx_assignment.Float.{Float64, Price}
use optionx_assignment.Ledger.{Position, unrealized_pnl}
use optionx_assignment.Ledger.Exact.{
  ExactLaws, zero-mul, opposite_mul, split_mul, mul-telescope, undo_add, mul-sub_sum, add_past,
  add_aside, add_last,
}
use optionx_assignment.Ledger.Branches.{left_with}

module _ ⦃fl : Float64⦄ where
  -- What a position is worth at a price: the profit that is realized and that which is not.
  unfoldable pub value : Position → Price → Price
  unfolding unrealized_pnl
  value p x = fl.add p.realized_pnl (unrealized_pnl p x)

  -- The sizes of both quantities together are an int64 value.
  abbrev pub IsSmall : ℤ → ℤ → Type 0
  IsSmall q d = pos_part q + neg_part q + (pos_part d + neg_part d) < half64

  module _ (laws : ExactLaws) (token : String) (avg r : Price) (token' : String)
      (price x : Price) where
    -- So many units bought at one price and worth another.
    abbrev pub gain : ℤ → Price → Price
    gain q paid = fl.mul (fl.of_int q) (fl.sub x paid)

    abbrev pub Balanced : ℤ → ℤ → Position → Type 0
    Balanced q d p = value p x ≡ fl.add (fl.add r (gain q avg)) (gain d price)

    -- A long position is reduced by `c`, at the fill's price.
    pub long_reduced :
        (q c d : ℤ)
        → c +ℤ d ≡ pos 0
        → Balanced q d (
            left_with token avg r token' price
              (q +ℤ d)
              avg
              (fl.mul (fl.of_int c) (fl.sub price avg)))
    unfolding value
    long_reduced q c d h =
        let u = fl.mul (fl.of_int c) (fl.sub price avg) in
        let k = fl.mul (fl.of_int d) (fl.sub price avg) in
        ap (fl.add (fl.add r u)) (
          split_mul laws q d (fl.sub x avg)
          ∙ ap (fl.add (gain q avg)) (sym (mul-telescope laws (fl.of_int d) x price avg)))
        ∙ undo_add laws r u (gain d price) (gain q avg) k
            (opposite_mul laws c d (fl.sub price avg) h)

    pub long_flipped :
        (q d : ℤ)
        → Balanced q d (
            left_with token avg r token' price
              (q +ℤ d)
              price
              (fl.mul (fl.of_int q) (fl.sub price avg)))
    unfolding value
    long_flipped q d =
        let u = fl.mul (fl.of_int q) (fl.sub price avg) in
        ap (fl.add (fl.add r u)) (split_mul laws q d (fl.sub x price))
        ∙ add_past laws r u (gain q price) (gain d price) (gain q avg)
            (mul-telescope laws (fl.of_int q) x price avg)

    -- A short position is reduced.
    pub short_reduced :
        (q d : ℤ)
        → Balanced q d (
            left_with token avg r token' price
              (q +ℤ d)
              avg
              (fl.mul (fl.of_int d) (fl.sub avg price)))
    unfolding value
    short_reduced q d =
        let u = fl.mul (fl.of_int d) (fl.sub avg price) in
        ap (fl.add (fl.add r u)) (split_mul laws q d (fl.sub x avg))
        ∙ add_aside laws r u (gain q avg) (gain d avg) (gain d price)
            (mul-telescope laws (fl.of_int d) x avg price)

    pub short_flipped :
        (q c d : ℤ)
        → c +ℤ q ≡ pos 0
        → Balanced q d (
            left_with token avg r token' price
              (q +ℤ d)
              price
              (fl.mul (fl.of_int c) (fl.sub avg price)))
    unfolding value
    short_flipped q c d h =
        let u = fl.mul (fl.of_int c) (fl.sub avg price) in
        let k = fl.mul (fl.of_int q) (fl.sub avg price) in
        ap (fl.add (fl.add r u)) (
          split_mul laws q d (fl.sub x price)
          ∙ ap (λ s. fl.add s (gain d price)) (sym (mul-telescope laws (fl.of_int q) x avg price))
          ∙ add_last laws (gain q avg) k (gain d price))
        ∙ undo_add laws r u (gain d price) (gain q avg) k
            (opposite_mul laws c q (fl.sub avg price) h)

    -- Nothing is left, so that no price of it matters.
    pub closed :
        (q d : ℤ) (z g : Price)
        → q +ℤ d ≡ pos 0
        → Balanced q d (left_with token avg r token' price (q +ℤ d) avg g)
        → Balanced q d (left_with token avg r token' price (pos 0) z g)
    unfolding value
    closed q d z g h b =
        ap (fl.add (fl.add r g)) (
          zero-mul laws (fl.sub x z)
          ∙ sym (zero-mul laws (fl.sub x avg))
          ∙ ap (λ n. fl.mul (fl.of_int n) (fl.sub x avg)) (sym h))
        ∙ b

    pub extended :
        (q d : ℤ) (a : Price)
        → fl.mul (fl.of_int (q +ℤ d)) a
          ≡ fl.add (fl.mul (fl.of_int q) avg) (fl.mul (fl.of_int d) price)
        → Balanced q d (record { token = token'; qty = q +ℤ d; avg_price = a; realized_pnl = r })
    unfolding value
    extended q d a h =
        ap (fl.add r) (mul-sub_sum laws q d x a avg price h)
        ∙ sym (laws.add_assoc r (gain q avg) (gain d price))

    pub opened :
        (d : ℤ)
        → Balanced
            (pos 0)
            d
            (record { token = token'; qty = d; avg_price = price; realized_pnl = r })
    unfolding value
    opened d =
        ap (λ s. fl.add s (gain d price))
          (sym (ap (fl.add r) (zero-mul laws (fl.sub x avg)) ∙ laws.add-zero r))

    pub untouched :
        (q : ℤ)
        → Balanced q (pos 0) (record { token = token'; qty = q; avg_price = avg; realized_pnl = r })
    unfolding value
    untouched q = sym (
        ap (fl.add (fl.add r (gain q avg))) (zero-mul laws (fl.sub x price))
        ∙ laws.add-zero (fl.add r (gain q avg)))
