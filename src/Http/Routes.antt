-- ===== src/Http/Routes.antt =====
-- internal/httpapi/router.go and health.go: the routes, and the health check. A request is a route with
-- what its handler reads: the decoded body, the random ids, how the exchange with the actor ends, and
-- what the ping of the database says.
use optionx_assignment.Common.{ℕ, Bool, true, false, String, Option, none, some}
use optionx_assignment.Float.{Float64}
use optionx_assignment.Registry.{Registry, Exchange}
use optionx_assignment.Wire.{PlaceOrderRequest, PlaceBracketRequest, Response}
use optionx_assignment.Http.{
  place_order_handler, place_bracket_handler, cancel_order_handler, get_position_handler,
}

pub record HealthResponse : Type 0 where
  pub status : String
  pub db : String

module _ ⦃fl : Float64⦄ where
  pub data Request : Type 0 where
    get_health : Option String → Request
    post_order : Option PlaceOrderRequest → Option String → Exchange → Request
    post_bracket :
        Option PlaceBracketRequest → Option (String × String × String) → Exchange → Request
    delete_order : String → Exchange → Request
    get_position : String → Exchange → Request
    get_ws : Request

  -- A request without a route gets chi's own answer; GET /ws goes on as a WebSocket.
  pub data Answer : Type 0 where
    health : ℕ → HealthResponse → Answer
    rest : Response → Answer
    upgraded no_route : Answer

  -- HealthHandler, on the error of the ping.
  unfoldable pub health_handler : Option String → Answer
  health_handler none = health 200 (record { status = "ok"; db = "ok" })
  health_handler (some e) = health 503 (record { status = "degraded"; db = e })

  abbrev pub answered_by : Registry × Response → Registry × Answer
  answered_by (r, x) = (r, rest x)

  -- The router that NewRouter builds, with or without a hub.
  unfoldable pub serve : Bool → Registry → Request → Registry × Answer
  serve has_hub r (get_health ping) = (r, health_handler ping)
  serve has_hub r (post_order body id how) = answered_by (place_order_handler r body id how)
  serve has_hub r (post_bracket body ids how) = answered_by (place_bracket_handler r body ids how)
  serve has_hub r (delete_order id how) = answered_by (cancel_order_handler r id how)
  serve has_hub r (get_position token how) = answered_by (get_position_handler r token how)
  serve true r get_ws = (r, upgraded)
  serve false r get_ws = (r, no_route)
