-- ===== src/Http.antt =====
-- internal/httpapi: the handlers of the REST routes. A decoded body, the random order ids and the way
-- the exchange with an actor ends are arguments; a response is its status code and its JSON value.
pub mod Cancel
pub mod Bracket
pub mod Routes
pub mod Coded
pub mod Indexed
pub mod IndexedBracket
pub mod Serving
pub mod Cancellable
use optionx_assignment.Common.{
  ℕ, String, List, [], Option, none, some, map, ℤ, pos, ◌==◌, if◌then◌else◌,
}
use optionx_assignment.Float.{Float64, Price}
use optionx_assignment.Order.{
  Side, Kind, Status, Invalid, Order, Fill, buy, sell, limit, is_sell, side_of, side_text, kind_of,
  kind_text, status_text, validate,
}
use optionx_assignment.Ledger.{unrealized_pnl}
use optionx_assignment.Actor.Messages.{
  place_order, cancel_order, snapshot, place_bracket, Outcome, CancelOutcome, Reason, Reply, placed,
  cancel_done, snapped, bracket_placed,
}
use optionx_assignment.Registry.{
  Registry, Exchange, exchange, exchange_at, peek, index_order, token_for_order,
}
use optionx_assignment.Wire.{
  PlaceOrderRequest, PlaceBracketRequest, OrderResponse, to_order_response, PositionResponse,
  Response, failed, fill_response, placement_code, order_of_request, invalid_body, no_order_id,
  place_failed, place_bracket_failed, cancel_failed, position_failed, id_required, token_required,
  invalid_order, order_placed, bracket, order_cancelled, position,
}

module _ ⦃fl : Float64⦄ where
  abbrev pub index_placed : Outcome → Registry → Order → Registry
  index_placed Outcome.rejected r o = r
  index_placed _ r o = index_order r o.id o.token

  -- The handler's lines after act.PlaceOrder.
  unfoldable pub answer_order : Order → Registry × Option Reply → Registry × Response
  answer_order o (r, some (placed res)) = (
    index_placed res.outcome r o,
    record {
      code = placement_code res.outcome;
      body =
          order_placed res.outcome (to_order_response res.order) (fill_response res.fill) res.error;
    },
  )
  answer_order o (r, _) = (r, failed 500 place_failed)

  -- PlaceOrderHandler; the id is missing when the random source fails.
  unfoldable pub place_order_handler :
      Registry → Option PlaceOrderRequest → Option String → Exchange → Registry × Response
  place_order_handler r none id how = (r, failed 400 invalid_body)
  place_order_handler r (some req) none how = (r, failed 500 no_order_id)
  place_order_handler r (some req) (some id) how =
      let o = order_of_request id req in
      elim (validate o) [
        | some e ↦ (r, failed 400 (invalid_order e))
        | none ↦ answer_order o (exchange r o.token (place_order o) how)
      ]

  unfoldable pub closing_side : Side → Side
  closing_side side = if is_sell side then buy else sell

  pub record Legs : Type 0 where
    pub entry : Order
    pub target : Order
    pub stop : Order

  abbrev pub leg_of : String → String → Side → Kind → ℤ → Price → Order
  leg_of id token side kind qty price = record {
    id = id;
    token = token;
    side = side;
    kind = kind;
    qty = qty;
    limit_price = price;
    status = Status.other "";
    entry_id = "";
    sibling_id = "";
  }

  unfoldable pub legs_of_request : String → String → String → PlaceBracketRequest → Legs
  unfolding closing_side
  legs_of_request entry_id target_id stop_id req =
      let entry_side = side_of req.side in
      let closing = closing_side entry_side in
      record {
        entry =
            leg_of entry_id req.token entry_side (kind_of req.entry_type) req.qty req.entry_price;
        target = leg_of target_id req.token closing limit req.qty req.target_price;
        stop = leg_of stop_id req.token closing Kind.stop req.qty req.stop_price;
      }

  abbrev pub index_bracket : Outcome → Registry → String → Legs → Registry
  index_bracket Outcome.rejected r token legs = r
  index_bracket _ r token legs =
      index_order (index_order (index_order r legs.entry.id token) legs.target.id token)
        legs.stop.id token

  unfoldable pub answer_bracket : String → Legs → Registry × Option Reply → Registry × Response
  answer_bracket token legs (r, some (bracket_placed res)) = (
    index_bracket res.outcome r token legs,
    record {
      code = placement_code res.outcome;
      body =
          bracket res.outcome (to_order_response res.entry) (to_order_response res.target)
            (to_order_response res.stop) (fill_response res.fill) res.error;
    },
  )
  answer_bracket token legs (r, _) = (r, failed 500 place_bracket_failed)

  -- PlaceBracketHandler; the ids are missing when the random source fails for one of them.
  unfoldable pub place_bracket_handler :
      Registry
      → Option PlaceBracketRequest
      → Option (String × String × String)
      → Exchange
      → Registry × Response
  place_bracket_handler r none ids how = (r, failed 400 invalid_body)
  place_bracket_handler r (some req) none how = (r, failed 500 no_order_id)
  place_bracket_handler r (some req) (some (e, t, s)) how =
      let legs = legs_of_request e t s req in
      answer_bracket req.token legs
        (exchange r req.token (place_bracket legs.entry legs.target legs.stop) how)

  abbrev pub cancel_code : CancelOutcome → ℕ
  cancel_code CancelOutcome.not_found = 404
  cancel_code _ = 200

  unfoldable pub answer_cancel : Registry × Option Reply → Registry × Response
  answer_cancel (r, some (cancel_done res)) = (
    r,
    record {
      code = cancel_code res.outcome;
      body = order_cancelled res.outcome (to_order_response res.order);
    },
  )
  answer_cancel (r, _) = (r, failed 500 cancel_failed)

  abbrev pub empty_order_response : OrderResponse
  empty_order_response = record {
    id = "";
    token = "";
    side = "";
    kind = "";
    qty = pos 0;
    limit_price = fl.of_int (pos 0);
    status = "";
    entry_id = "";
    sibling_id = "";
  }

  unfoldable pub cancel_order_handler : Registry → String → Exchange → Registry × Response
  cancel_order_handler r id how =
      let answer : String → Registry × Response =
        λ token. answer_cancel (exchange r token (cancel_order id) how) in
      if id == "" then (r, failed 400 id_required) else elim (token_for_order r id) [
        | none ↦ (
          r,
          record {
            code = 404;
            body = order_cancelled CancelOutcome.not_found empty_order_response;
          },
        )
        | some token ↦ answer token
      ]

  unfoldable pub answer_position : String → Registry × Option Reply → Registry × Response
  answer_position token (r, some (snapped snap)) = (
    r,
    record {
      code = 200;
      body = position (record {
        token = token;
        qty = snap.position.qty;
        avg_price = snap.position.avg_price;
        realized_pnl = snap.position.realized_pnl;
        unrealized_pnl = unrealized_pnl snap.position snap.last_ltp;
        last_ltp = snap.last_ltp;
        orders = map to_order_response snap.orders;
      });
    },
  )
  answer_position token (r, _) = (r, failed 500 position_failed)

  abbrev pub flat_response : String → PositionResponse
  flat_response token = record {
    token = token;
    qty = pos 0;
    avg_price = fl.of_int (pos 0);
    realized_pnl = fl.of_int (pos 0);
    unrealized_pnl = fl.of_int (pos 0);
    last_ltp = fl.of_int (pos 0);
    orders = [];
  }

  unfoldable pub get_position_handler : Registry → String → Exchange → Registry × Response
  get_position_handler r token how =
      if token == "" then (r, failed 400 token_required) else elim (peek r token) [
        | none ↦ (r, record { code = 200; body = position (flat_response token) })
        | some a ↦ answer_position token (exchange_at r token a snapshot how)
      ]
