-- ===== src/Ledger/Value.antt =====
-- Profit and loss of internal/instrument/ledger.go: what ApplyFill and UnrealizedPnL make of fills whose
-- numbers float64 holds exactly.
use optionx_assignment.Common.{List, [], ◌∷◌, ℤ, ◌+ℤ◌, ◌-ℤ◌, ◌*ℤ◌, ◌≡◌, refl, ◌∙◌, sym, ap}
use optionx_assignment.Float.{Float64, Price}
use optionx_assignment.Order.{Fill}
use optionx_assignment.Ledger.{Position, signed_qty, apply_fill, unrealized_pnl}
use optionx_assignment.Ledger.Whole.{whole}
use optionx_assignment.Ledger.Branches.{apply_fill-traded_at}
use optionx_assignment.Ledger.Worth.{value, IsSmall}
use optionx_assignment.Ledger.Balance.{in_units, IsUnrounded, traded_at-Balanced}

module _ ⦃fl : Float64⦄ where
  unfoldable pub apply_fills : Position → List Fill → Position
  apply_fills p [] = p
  apply_fills p (f ∷ fs) = apply_fills (apply_fill p f) fs

  -- `units` counts a price in a unit of which every price is a multiple. Every finite float64 is one of
  -- 2^-1074.
  module _ (units : Price → ℤ) where
    -- The quantities together are an int64 value, and no number that the fill leads to is rounded.
    pub record IsExact (p : Position) (f : Fill) : Type 0 where
      pub small : IsSmall p.qty (signed_qty f)
      pub unrounded : IsUnrounded units p.realized_pnl p.avg_price f.price p.qty (signed_qty f)

    abbrev pub AreExact : Position → List Fill → Type 0
    AreExact p [] = Unit
    AreExact p (f ∷ fs) = IsExact p f × AreExact (apply_fill p f) fs

    -- Realized and unrealized profit together, as the program computes them.
    unfoldable pub profit : Position → Price → ℤ
    profit p x = units p.realized_pnl +ℤ units (unrealized_pnl p x)

    -- The unrealized profit at the price `x` is not rounded.
    abbrev pub MarksExactly : Position → Price → Type 0
    MarksExactly p x = units (unrealized_pnl p x) ≡ p.qty *ℤ (units x -ℤ units p.avg_price)

    -- At the price `x` each fill has gained its quantity times the distance from its own price.
    unfoldable pub gains : ℤ → Price → List Fill → ℤ
    gains v x [] = v
    gains v x (f ∷ fs) = gains (v +ℤ signed_qty f *ℤ (units x -ℤ units f.price)) x fs

    value-apply_fill :
        (p : Position) (f : Fill) (x : Price)
        → IsExact p f
        → value ⦃fl = whole⦄ (in_units units (apply_fill p f)) (units x)
          ≡ value ⦃fl = whole⦄ (in_units units p) (units x)
            +ℤ signed_qty f *ℤ (units x -ℤ units f.price)
    unfolding value
    value-apply_fill p f x e =
        ap (λ (b : Position). value ⦃fl = whole⦄ (in_units units b) (units x))
          (apply_fill-traded_at p f)
        ∙ traded_at-Balanced units p.token p.avg_price p.realized_pnl f.token f.price (units x)
            p.qty (signed_qty f) e.small e.unrounded

    value-fills :
        (p : Position) (fs : List Fill) (x : Price)
        → AreExact p fs
        → value ⦃fl = whole⦄ (in_units units (apply_fills p fs)) (units x)
          ≡ gains (value ⦃fl = whole⦄ (in_units units p) (units x)) x fs
    unfolding apply_fills gains
    value-fills p [] x e = refl
    value-fills p (f ∷ fs) x e =
        value-fills (apply_fill p f) fs x e.1 ∙ ap (λ v. gains v x fs) (value-apply_fill p f x e.0)

    profit_lem :
        (p : Position) (x : Price)
        → MarksExactly p x
        → profit p x ≡ value ⦃fl = whole⦄ (in_units units p) (units x)
    unfolding profit value
    profit_lem p x m = ap (λ u. units p.realized_pnl +ℤ u) m

    -- Let every price be counted in whole units. If none of the numbers that some fills lead to is
    -- rounded, nor the unrealized profit at a price before and after them, and no quantity overflows,
    -- then the realized and the unrealized profit of a position at that price add up, after the fills, to
    -- what they were before and, for each fill, its signed quantity times that price less the fill's.
    pub value-apply_fills :
        (p : Position) (fs : List Fill) (x : Price)
        → AreExact p fs
        → MarksExactly p x
        → MarksExactly (apply_fills p fs) x
        → profit (apply_fills p fs) x ≡ gains (profit p x) x fs
    value-apply_fills p fs x e m n =
        profit_lem (apply_fills p fs) x n
        ∙ value-fills p fs x e
        ∙ ap (λ v. gains v x fs) (sym (profit_lem p x m))
