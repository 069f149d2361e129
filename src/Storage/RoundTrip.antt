-- ===== src/Storage/RoundTrip.antt =====
-- The columns of the orders table hold texts: the row of an order that internal/instrument accepts
-- reads back as the order.
use optionx_assignment.Common.{false, not, ◌&&◌, none, ◌≡◌, refl, ◌∙◌, ap, arith, ◌==◌}
use optionx_assignment.Float.{Float64}
use optionx_assignment.Order.{
  Side, Kind, Status, Order, buy, sell, market, limit, stop, side_of, side_text, kind_of, kind_text,
  status_of, status_text, validate, is_buy, is_sell, is_market, is_limit, is_stop,
}
use optionx_assignment.Actor.Sound.{IsKnown}
use optionx_assignment.Storage.{to_order, row_of}

side_of-side_text :
    (s : Side) → (not (is_buy s) && not (is_sell s)) ≡ false → side_of (side_text s) ≡ s
unfolding side_of side_text ◌==◌
side_of-side_text buy h = refl
side_of-side_text sell h = refl
side_of-side_text (Side.other x) h = cc

kind_of-kind_text :
    (k : Kind)
    → (not (is_market k) && not (is_limit k) && not (is_stop k)) ≡ false
    → kind_of (kind_text k) ≡ k
unfolding kind_of kind_text ◌==◌
kind_of-kind_text market h = refl
kind_of-kind_text limit h = refl
kind_of-kind_text stop h = refl
kind_of-kind_text (Kind.other x) h = cc

status_of-status_text : (t : Status) → IsKnown t → status_of (status_text t) ≡ t
unfolding status_of status_text ◌==◌
status_of-status_text Status.pending k = refl
status_of-status_text Status.resting k = refl
status_of-status_text Status.filled k = refl
status_of-status_text Status.cancelled k = refl
status_of-status_text (Status.other x) k = absurd k

module _ ⦃fl : Float64⦄ where
  valid_side :
      (o : Order) → validate o ≡ none → (not (is_buy o.side) && not (is_sell o.side)) ≡ false
  unfolding validate
  valid_side o v = ground arith

  valid_kind :
      (o : Order)
      → validate o ≡ none
      → (not (is_market o.kind) && not (is_limit o.kind) && not (is_stop o.kind)) ≡ false
  unfolding validate
  valid_kind o v = ground arith

  -- An order that passed Validate, with one of the four statuses, is read back from the row that is
  -- written for it as it was.
  pub to_order-row_of : (o : Order) → validate o ≡ none → IsKnown o.status → to_order (row_of o) ≡ o
  unfolding to_order row_of
  to_order-row_of o v k =
      ap
        (λ x. record o {
          side = x;
          kind = kind_of (kind_text o.kind);
          status = status_of (status_text o.status);
        })
        (side_of-side_text o.side (valid_side o v))
      ∙ ap (λ x. record o { kind = x; status = status_of (status_text o.status) })
          (kind_of-kind_text o.kind (valid_kind o v))
      ∙ ap (λ x. record o { status = x }) (status_of-status_text o.status k)
