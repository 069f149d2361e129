-- ===== src/Http/Cancel.antt =====
-- The handlers of internal/httpapi/orders.go together: an order that was accepted can be cancelled by
-- the id of its response.
use optionx_assignment.Common.{
  String, Option, none, some, get, get-put_self, ◌≡◌, ◌≢◌, refl, inl, inr, arith, str_eq-cases,
}
use optionx_assignment.Float.{Float64}
use optionx_assignment.Order.{Order, Invalid, validate}
use optionx_assignment.Actor.Messages.{
  place_order, cancel_order, Outcome, Reply, placed, cancel_done, snapped, bracket_placed,
}
use optionx_assignment.Registry.{Registry, Exchange, exchange, token_for_order, index_order}
use optionx_assignment.Wire.{
  PlaceOrderRequest, Response, failed, invalid_order, placement_code, order_of_request,
}
use optionx_assignment.Http.{
  index_placed, answer_order, answer_cancel, place_order_handler, cancel_order_handler,
}

module _ ⦃fl : Float64⦄ where
  token_for-answer_order :
      (o : Order) (p : Registry × Option Reply)
      → (answer_order o p).1.code ≡ 201
      → token_for_order (answer_order o p).0 o.id ≡ some o.token
  unfolding answer_order token_for_order index_order
  token_for-answer_order o (r, none) h = absurd (omega arith)
  token_for-answer_order o (r, some (cancel_done c)) h = absurd (omega arith)
  token_for-answer_order o (r, some (snapped s)) h = absurd (omega arith)
  token_for-answer_order o (r, some (bracket_placed b)) h = absurd (omega arith)
  token_for-answer_order o (r, some (placed res)) h = go res.outcome h
    where
      go :
          (out : Outcome)
          → placement_code out ≡ 201
          → get o.id (index_placed out r o).order_index ≡ some o.token
      go Outcome.rejected e = absurd (omega arith)
      go Outcome.filled e = get-put_self o.id o.token r.order_index
      go Outcome.resting e = get-put_self o.id o.token r.order_index

  -- The handler's choice on what Validate says.
  abbrev after_check :
      Registry → Order → Registry × Option Reply → Option Invalid → Registry × Response
  after_check r o p e = elim e [
    | some x ↦ (r, failed 400 (invalid_order x))
    | none ↦ answer_order o p
  ]

  token_for-checked :
      (r : Registry) (o : Order) (p : Registry × Option Reply) (e : Option Invalid)
      → (after_check r o p e).1.code ≡ 201
      → token_for_order (after_check r o p e).0 o.id ≡ some o.token
  token_for-checked r o p none h = token_for-answer_order o p h
  token_for-checked r o p (some x) h = absurd (omega arith)

  token_for-place_order_handler :
      (r : Registry) (req : PlaceOrderRequest) (id : String) (how : Exchange)
      → (place_order_handler r (some req) (some id) how).1.code ≡ 201
      → token_for_order (place_order_handler r (some req) (some id) how).0 id ≡ some req.token
  unfolding place_order_handler order_of_request
  token_for-place_order_handler r req id how h =
      let o = order_of_request id req in
      token_for-checked r o (exchange r o.token (place_order o) how) (validate o) h

  pub cancel_of_known :
      (r : Registry) (id token : String) (how : Exchange)
      → id ≢ ""
      → token_for_order r id ≡ some token
      → cancel_order_handler r id how ≡ answer_cancel (exchange r token (cancel_order id) how)
  unfolding cancel_order_handler
  cancel_of_known r id token how ne g = elim (str_eq-cases id "") [
    | inl (h, e) ↦ absurd (ne e)
    | inr (h, n) ↦ rw (h, g) refl
  ]

  -- After a POST /orders that was answered with 201, a DELETE of the order's id, which is not empty,
  -- is handed to the actor of the order's instrument, and answered as that actor replies.
  pub cancel_order_handler-place_order_handler :
      (r : Registry) (req : PlaceOrderRequest) (id : String) (how later : Exchange)
      → id ≢ ""
      → (place_order_handler r (some req) (some id) how).1.code ≡ 201
      → cancel_order_handler (place_order_handler r (some req) (some id) how).0 id later
        ≡ answer_cancel (
            exchange
              (place_order_handler r (some req) (some id) how).0
              req.token
              (cancel_order id)
              later)
  cancel_order_handler-place_order_handler r req id how later ne h =
      cancel_of_known (place_order_handler r (some req) (some id) how).0 id req.token later ne
        (token_for-place_order_handler r req id how h)
