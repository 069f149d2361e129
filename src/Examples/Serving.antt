-- ===== src/Examples/Serving.antt =====
-- A service that boots with one resting order and then takes another.
use optionx_assignment.Common.{
  [], ◌∷◌, some, get, put, ◌==◌, pos, ◌≡◌, ◌≢◌, refl, String, Dict, false,
}
use optionx_assignment.Order.{Order, side_of, kind_of, validate, would_fill, resting}
use optionx_assignment.Actor.Messages.{InitialState}
use optionx_assignment.Actor.State.{
  new_actor_state, restore, put_orders, store_order, persist_order, zero_position,
}
use optionx_assignment.Actor.OrderHandlers.{handle_place_order, accept_order}
use optionx_assignment.Actor.Handle.{handle}
use optionx_assignment.Registry.{
  Registry, new_persistent_registry, set_publisher, answered, exchange, actor, spawn, start_actor,
  index_order, index_seeds, index_orders, peek,
}
use optionx_assignment.Registry.Exchanged.{actor_at}
use optionx_assignment.Wire.{PlaceOrderRequest, order_of_request}
use optionx_assignment.Http.{answer_order, place_order_handler}
use optionx_assignment.Http.Routes.{Request, post_order, serve}
use optionx_assignment.Http.Serving.{Reached, here, next, request}
use optionx_assignment.Http.Cancellable.{IsFound, cancel_order_handler-IsFound}
use optionx_assignment.Examples.{cents, in_turn, bid, named}

abbrev held : Order
held = record bid { status = resting }

abbrev seeds : Dict InitialState
seeds = ("T", record { position = zero_position; orders = held ∷ [] }) ∷ []

abbrev body : PlaceOrderRequest
body = record { token = "T"; side = "buy"; kind = "limit"; qty = pos 10; limit_price = pos 100 }

abbrev post : Request
post = post_order (some body) (some "a1") (answered in_turn)

abbrev served : Registry
served = (serve false (set_publisher (new_persistent_registry seeds)) post).0

served-Reached : Reached (set_publisher (new_persistent_registry seeds)) served
unfolding new_persistent_registry set_publisher index_seeds index_orders get put ◌==◌
served-Reached = next here (request false post (refl, tt))

abbrev posted : Order
posted = record (order_of_request "a1" body) { status = resting }

served_has : get "a1" (actor_at served "T").orders ≡ some posted
unfolding serve place_order_handler order_of_request side_of kind_of validate exchange actor spawn
    start_actor new_persistent_registry set_publisher index_seeds index_orders new_actor_state
    restore put_orders handle handle_place_order accept_order would_fill store_order persist_order
    answer_order get put ◌==◌ index_order actor_at peek
served_has = refl

abbrev posted_id : String
posted_id = "a1"

posted_id-named : posted_id ≢ ""
unfolding ◌==◌
posted_id-named = named "a1" refl

cancel_order_handler-IsFound_example : IsFound served "T" "a1" (answered in_turn)
cancel_order_handler-IsFound_example =
    cancel_order_handler-IsFound (λ id. "T") seeds ((refl, tt), tt) served served-Reached "T" "a1"
      posted (answered in_turn) served_has posted_id-named
