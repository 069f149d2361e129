-- ===== src/Actor/Messages.antt =====
-- internal/instrument/messages.go, and the inputs of store.go. A reply channel is the value that a
-- handler returns; an error text is its case.
use optionx_assignment.Common.{Option, String, List}
use optionx_assignment.Float.{Float64, Price}
use optionx_assignment.Order.{Side, Kind, Invalid, Order, Fill}
use optionx_assignment.Ledger.{Position}

pub data Outcome : Type 0 where
  filled resting rejected : Outcome

pub data CancelOutcome : Type 0 where
  cancelled already_filled already_cancelled not_found : CancelOutcome

-- What `validateBracket` reports.
pub data InvalidBracket : Type 0 where
  entry target stop : Invalid → InvalidBracket
  entry_type target_type stop_type : Kind → InvalidBracket
  sides_differ side_of_entry : Side → Side → InvalidBracket
  qty_mismatch ids_not_distinct : InvalidBracket

-- Why an order is rejected.
pub data Reason : Type 0 where
  invalid : Invalid → Reason
  invalid_bracket : InvalidBracket → Reason
  token_mismatch : Reason
  duplicate_id : String → Reason

module _ ⦃fl : Float64⦄ where
  pub data Message : Type 0 where
    place_order : Order → Message
    cancel_order : String → Message
    tick : Price → Message
    snapshot : Message
    place_bracket : Order → Order → Order → Message

  pub record PlaceOrderResult : Type 0 where
    pub outcome : Outcome
    pub order : Order
    pub fill : Option Fill
    pub error : Option Reason

  pub record CancelOrderResult : Type 0 where
    pub outcome : CancelOutcome
    pub order : Order

  pub record PlaceBracketResult : Type 0 where
    pub outcome : Outcome
    pub entry : Order
    pub target : Order
    pub stop : Order
    pub fill : Option Fill
    pub error : Option Reason

  pub record Snapshot : Type 0 where
    pub token : String
    pub position : Position
    pub last_ltp : Price
    pub orders : List Order

  pub data Reply : Type 0 where
    placed : PlaceOrderResult → Reply
    cancel_done : CancelOrderResult → Reply
    snapped : Snapshot → Reply
    bracket_placed : PlaceBracketResult → Reply

  pub record InitialState : Type 0 where
    pub position : Position
    pub orders : List Order
