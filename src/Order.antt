-- ===== src/Order.antt =====
-- internal/order/order.go: orders, fills, validation and the trigger rule.
use optionx_assignment.Common.{
  Bool, true, false, not, ◌&&◌, ◌||◌, Option, none, some, String, ℤ, pos, le_ℤ, ◌==◌, if◌then◌else◌,
}
use optionx_assignment.Float.{Float64, Price}

-- `type Side string`: a value that is neither constant keeps its text.
pub data Side : Type 0 where
  buy sell : Side
  other : String → Side

pub data Kind : Type 0 where
  market limit stop : Kind
  other : String → Kind

pub data Status : Type 0 where
  pending resting filled cancelled : Status
  other : String → Status

unfoldable pub side_of : String → Side
side_of s = if s == "buy" then buy else if s == "sell" then sell else Side.other s

unfoldable pub side_text : Side → String
side_text buy = "buy"
side_text sell = "sell"
side_text (Side.other s) = s

unfoldable pub kind_of : String → Kind
kind_of s =
    if s == "market"
    then market
    else if s == "limit"
    then limit
    else if s == "stop"
    then stop
    else Kind.other s

unfoldable pub kind_text : Kind → String
kind_text market = "market"
kind_text limit = "limit"
kind_text stop = "stop"
kind_text (Kind.other s) = s

unfoldable pub status_of : String → Status
status_of s =
    if s == "pending"
    then pending
    else if s == "resting"
    then resting
    else if s == "filled"
    then filled
    else if s == "cancelled"
    then cancelled
    else Status.other s

unfoldable pub status_text : Status → String
status_text pending = "pending"
status_text resting = "resting"
status_text filled = "filled"
status_text cancelled = "cancelled"
status_text (Status.other s) = s

abbrev pub is_buy : Side → Bool
is_buy buy = true
is_buy _ = false

abbrev pub is_sell : Side → Bool
is_sell sell = true
is_sell _ = false

abbrev pub is_market : Kind → Bool
is_market market = true
is_market _ = false

abbrev pub is_limit : Kind → Bool
is_limit limit = true
is_limit _ = false

abbrev pub is_stop : Kind → Bool
is_stop stop = true
is_stop _ = false

abbrev pub is_pending : Status → Bool
is_pending pending = true
is_pending _ = false

abbrev pub is_resting : Status → Bool
is_resting resting = true
is_resting _ = false

-- The messages of `Validate`, with what they print.
pub data Invalid : Type 0 where
  token_required : Invalid
  invalid_side : Side → Invalid
  invalid_type : Kind → Invalid
  qty_not_positive : ℤ → Invalid
  price_not_positive : Invalid

module _ ⦃fl : Float64⦄ where
  pub record Order : Type 0 where
    pub id : String
    pub token : String
    pub side : Side
    pub kind : Kind
    pub qty : ℤ
    pub limit_price : Price
    pub status : Status
    pub entry_id : String
    pub sibling_id : String

  pub record Fill : Type 0 where
    pub order_id : String
    pub token : String
    pub side : Side
    pub qty : ℤ
    pub price : Price

  unfoldable pub validate : Order → Option Invalid
  validate o =
      if o.token == ""
      then some token_required
      else if not (is_buy o.side) && not (is_sell o.side)
      then some (invalid_side o.side)
      else if not (is_market o.kind) && not (is_limit o.kind) && not (is_stop o.kind)
      then some (invalid_type o.kind)
      else if le_ℤ o.qty (pos 0)
      then some (qty_not_positive o.qty)
      else if (is_limit o.kind || is_stop o.kind) && fl.le o.limit_price (fl.of_int (pos 0))
      then some price_not_positive
      else none

  abbrev triggers : Kind → Side → Price → Price → Bool
  triggers market side limit_price ltp = true
  triggers limit side limit_price ltp =
      if is_buy side then fl.le ltp limit_price else fl.le limit_price ltp
  triggers stop side limit_price ltp =
      if is_sell side then fl.le ltp limit_price else fl.le limit_price ltp
  triggers (Kind.other _) side limit_price ltp = false

  unfoldable pub would_fill : Order → Price → Bool
  would_fill o ltp = triggers o.kind o.side o.limit_price ltp

  unfoldable pub fill_price : Price → Price
  fill_price ltp = ltp
