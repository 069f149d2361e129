-- ===== src/Wire.antt =====
-- internal/httpapi: the JSON values of requests and responses, and the orders that requests stand for.
use optionx_assignment.Common.{ℕ, String, List, Option, none, some, ℤ}
use optionx_assignment.Float.{Float64, Price}
use optionx_assignment.Order.{
  Status, Invalid, Order, Fill, side_of, side_text, kind_of, kind_text, status_text,
}
use optionx_assignment.Actor.Messages.{Outcome, CancelOutcome, Reason}

module _ ⦃fl : Float64⦄ where
  pub record PlaceOrderRequest : Type 0 where
    pub token : String
    pub side : String
    pub kind : String
    pub qty : ℤ
    pub limit_price : Price

  pub record PlaceBracketRequest : Type 0 where
    pub token : String
    pub side : String
    pub qty : ℤ
    pub entry_type : String
    pub entry_price : Price
    pub target_price : Price
    pub stop_price : Price

  pub record OrderResponse : Type 0 where
    pub id : String
    pub token : String
    pub side : String
    pub kind : String
    pub qty : ℤ
    pub limit_price : Price
    pub status : String
    pub entry_id : String
    pub sibling_id : String

  unfoldable pub to_order_response : Order → OrderResponse
  to_order_response o = record {
    id = o.id;
    token = o.token;
    side = side_text o.side;
    kind = kind_text o.kind;
    qty = o.qty;
    limit_price = o.limit_price;
    status = status_text o.status;
    entry_id = o.entry_id;
    sibling_id = o.sibling_id;
  }

  pub record FillResponse : Type 0 where
    pub price : Price
    pub qty : ℤ

  pub record PositionResponse : Type 0 where
    pub token : String
    pub qty : ℤ
    pub avg_price : Price
    pub realized_pnl : Price
    pub unrealized_pnl : Price
    pub last_ltp : Price
    pub orders : List OrderResponse

  -- The texts of writeJSONError by their cause.
  pub data ErrorBody : Type 0 where
    invalid_body no_order_id place_failed place_bracket_failed cancel_failed : ErrorBody
    position_failed id_required token_required : ErrorBody
    invalid_order : Invalid → ErrorBody

  pub data Body : Type 0 where
    error : ErrorBody → Body
    order_placed : Outcome → OrderResponse → Option FillResponse → Option Reason → Body
    bracket :
        Outcome
        → OrderResponse
        → OrderResponse
        → OrderResponse
        → Option FillResponse
        → Option Reason
        → Body
    order_cancelled : CancelOutcome → OrderResponse → Body
    position : PositionResponse → Body

  pub record Response : Type 0 where
    pub code : ℕ
    pub body : Body

  abbrev pub failed : ℕ → ErrorBody → Response
  failed code e = record { code = code; body = Body.error e }

  unfoldable pub fill_response : Option Fill → Option FillResponse
  fill_response none = none
  fill_response (some f) = some (record { price = f.price; qty = f.qty })

  abbrev pub placement_code : Outcome → ℕ
  placement_code Outcome.rejected = 400
  placement_code _ = 201

  unfoldable pub order_of_request : String → PlaceOrderRequest → Order
  order_of_request id req = record {
    id = id;
    token = req.token;
    side = side_of req.side;
    kind = kind_of req.kind;
    qty = req.qty;
    limit_price = req.limit_price;
    status = Status.other "";
    entry_id = "";
    sibling_id = "";
  }
