-- ===== src/Examples/Rest.antt =====
-- A resting order placed over the REST routes, then cancelled.
use optionx_assignment.Common.{
  inl, List, ◌∷◌, [], get, put, ◌==◌, some, pos, ◌≡◌, ◌≢◌, refl, String,
}
use optionx_assignment.Order.{side_text, side_of, kind_of, validate, would_fill}
use optionx_assignment.Actor.Messages.{cancel_order, place_order, tick}
use optionx_assignment.Actor.State.{
  new_actor_state, restore, put_orders, store_order, persist_order,
}
use optionx_assignment.Actor.OrderHandlers.{handle_place_order, accept_order}
use optionx_assignment.Actor.Handle.{
  handle, handle_place_bracket, validate_bracket, validate_legs, accept_bracket, store_children,
  place_entry, first_known,
}
use optionx_assignment.Registry.{
  answered, new_registry, exchange, actor, spawn, start_actor, index_order, abandoned, peek,
}
use optionx_assignment.Wire.{PlaceOrderRequest, order_of_request, PlaceBracketRequest}
use optionx_assignment.Http.{
  answer_order, answer_cancel, place_order_handler, cancel_order_handler, closing_side,
  legs_of_request, answer_bracket, place_bracket_handler,
}
use optionx_assignment.Http.Cancel.{cancel_order_handler-place_order_handler}
use optionx_assignment.Http.Bracket.{cancel_order_handler-place_bracket_handler}
use optionx_assignment.Registry.Exchanged.{actor_at}
use optionx_assignment.Registry.Isolation.{
  Call, exchanges, calls_of, replies_of, attend_all, alone, peek-exchanges,
}
use optionx_assignment.Examples.{cents, in_turn, bid, named}

abbrev request : PlaceOrderRequest
request = record { token = "T"; side = "buy"; kind = "limit"; qty = pos 10; limit_price = pos 100 }

code_placed :
    (place_order_handler new_registry (some request) (some "a1") (answered in_turn)).1.code ≡ 201
unfolding place_order_handler order_of_request side_of kind_of validate exchange actor spawn
    start_actor new_registry new_actor_state restore put_orders handle handle_place_order
    accept_order would_fill store_order persist_order answer_order get put ◌==◌ index_order
code_placed = refl

abbrev first_id : String
first_id = "a1"

first_id-named : first_id ≢ ""
unfolding ◌==◌
first_id-named = named "a1" refl

cancel_order_handler-place_order_handler_example :
    cancel_order_handler
      (place_order_handler new_registry (some request) (some "a1") (answered in_turn)).0
      "a1"
      (answered in_turn)
    ≡ answer_cancel (
        exchange
          (place_order_handler new_registry (some request) (some "a1") (answered in_turn)).0
          "T"
          (cancel_order "a1")
          (answered in_turn))
cancel_order_handler-place_order_handler_example =
    cancel_order_handler-place_order_handler new_registry request "a1" (answered in_turn)
      (answered in_turn) first_id-named code_placed

abbrev bracket_request : PlaceBracketRequest
bracket_request = record {
  token = "T";
  side = "buy";
  qty = pos 10;
  entry_type = "limit";
  entry_price = pos 100;
  target_price = pos 120;
  stop_price = pos 90;
}

abbrev leg_ids : String × String × String
leg_ids = ("a1", "a2", "a3")

bracket_code_placed :
    (place_bracket_handler new_registry
      (some bracket_request)
      (some leg_ids)
      (answered in_turn)).1.code
    ≡ 201
unfolding place_bracket_handler legs_of_request side_of kind_of validate exchange actor spawn
    start_actor new_registry new_actor_state restore put_orders handle would_fill store_order
    persist_order answer_bracket get put ◌==◌ index_order handle_place_bracket validate_bracket
    validate_legs closing_side accept_bracket store_children place_entry first_known side_text
bracket_code_placed = refl

cancel_order_handler-place_bracket_handler_example :
    let after =
      (place_bracket_handler new_registry
        (some bracket_request)
        (some leg_ids)
        (answered in_turn)).0 in
    cancel_order_handler after "a1" (answered in_turn)
    ≡ answer_cancel (exchange after "T" (cancel_order "a1") (answered in_turn))
cancel_order_handler-place_bracket_handler_example =
    cancel_order_handler-place_bracket_handler new_registry bracket_request leg_ids "a1"
      (answered in_turn) (answered in_turn) first_id-named (inl refl) bracket_code_placed

-- Calls for two instruments; the caller of the second does not wait.
abbrev calls : List Call
calls =
    record { token = "T"; message = place_order bid; how = answered in_turn }
    ∷ record { token = "U"; message = tick (pos 7); how = abandoned in_turn }
    ∷ record { token = "T"; message = tick (pos 95); how = answered in_turn }
    ∷ []

peek-exchanges_example :
    (peek (exchanges new_registry calls).0 "T" ≡ alone new_registry "T" (calls_of "T" calls))
    × (replies_of "T" (exchanges new_registry calls).1
        ≡ (attend_all (actor_at new_registry "T") (calls_of "T" calls)).1)
peek-exchanges_example = peek-exchanges new_registry "T" calls
