-- ===== src/Examples.antt =====
-- Small inputs: prices in whole cents, one instrument, and the theorems of the ledger and the actor
-- applied to them.
pub mod Candles
pub mod Clients
pub mod Store
pub mod Session
pub mod Generator
pub mod Mailbox
pub mod Profit
pub mod Rest
pub mod Serving
pub mod Restart
use optionx_assignment.Common.{
  ℕ, ◌+◌, ◌/◌, ◌≡◌, refl, Bool, true, false, String, List, [], ◌∷◌, Option, none, some, ℤ, pos,
  negsuc, pos_part, neg_part, sub_ℕ, ◌+ℤ◌, ◌-ℤ◌, ◌*ℤ◌, le_ℤ, add64, wrap64, neg64, mul64, sub64,
  if◌then◌else◌, get, put, keys, get-keys, ◌==◌, str_eq_iff, arith, inl, inr, ◌≢◌,
}
use optionx_assignment.Float.{Float64, Price}
use optionx_assignment.Order.{
  Side, Kind, Status, Order, Fill, buy, sell, side_text, limit, market, stop, validate, would_fill,
  fill_price,
}
use optionx_assignment.Ledger.{Position, abs64, sign64, apply_fill, signed_qty}
use optionx_assignment.Ledger.Quantity.{qty-apply_fill}
use optionx_assignment.Actor.Messages.{
  Message, place_order, cancel_order, tick, snapshot, place_bracket,
}
use optionx_assignment.Actor.State.{
  ActorState, new_actor_state, publish, persist_order, store_order, order_at, pending_count,
  persist_fill,
}
use optionx_assignment.Actor.Filling.{
  Schedule, as_filled, fill_order, fill_body, fill_upto, commit_fill, fill_of, activate_children,
  activate_at, activate_order, cancel_sibling, cancel_found,
}
use optionx_assignment.Actor.OrderHandlers.{
  handle_place_order, accept_order, handle_cancel_order, cancel_known, handle_tick, tick_loop,
  tick_at, handle_snapshot, orders_at,
}
use optionx_assignment.Actor.Handle.{
  handle, run, handle_place_bracket, validate_bracket, validate_legs, first_known, accept_bracket,
  store_children, place_entry,
}
use optionx_assignment.Actor.Steps.{Steps, IsKeyed}
use optionx_assignment.Actor.Keyed.{Steps-IsKeyed}
use optionx_assignment.Actor.RefineHandle.{handle-Steps, run-Steps}
use optionx_assignment.Actor.Lifecycle.{Later, Later-run}
use optionx_assignment.Actor.Fills.{fills_of, is_filled_at, fills-run}
use optionx_assignment.Actor.Termination.{fill_order_lem}
use optionx_assignment.Actor.Bracket.{IsPlainBracket, ArePlain, run-IsOco}
use optionx_assignment.Actor.Oco.{IsOco}
use optionx_assignment.Actor.SettledRun.{VisitsAll, IsSettled, run-IsSettled}

-- Division as it is needed here: by a positive number, towards zero.
abbrev div_ℤ : ℤ → ℤ → ℤ
div_ℤ a b = sub_ℕ (pos_part a / pos_part b) (neg_part a / pos_part b)

abbrev pub max_ℤ : ℤ → ℤ → ℤ
max_ℤ a b = if le_ℤ a b then b else a

abbrev pub min_ℤ : ℤ → ℤ → ℤ
min_ℤ a b = if le_ℤ a b then a else b

instance abbrev pub cents : Float64
cents = record {
  Carrier = ℤ;
  add = ◌+ℤ◌;
  sub = ◌-ℤ◌;
  mul = ◌*ℤ◌;
  div = div_ℤ;
  of_int = λ n. n;
  le = le_ℤ;
  larger = max_ℤ;
  smaller = min_ℤ;
}

abbrev pub order_of : String → Side → Kind → ℕ → ℕ → Order
order_of id side kind qty price = record {
  id = id;
  token = "T";
  side = side;
  kind = kind;
  qty = pos qty;
  limit_price = pos price;
  status = Status.other "";
  entry_id = "";
  sibling_id = "";
}

abbrev pub bid : Order
bid = order_of "bid" buy limit 10 100

abbrev pub entry : Order
entry = order_of "entry" buy market 5 0

abbrev pub target : Order
target = order_of "target" sell limit 5 120

abbrev pub stop_loss : Order
stop_loss = order_of "stop" sell stop 5 90

-- The visiting order of this example: that of the association list.
abbrev pub in_turn : Schedule
in_turn s = keys s.orders

in_turn-VisitsAll : VisitsAll in_turn
in_turn-VisitsAll s id o g = get-keys id s.orders o g

unfoldable pub fresh : ActorState
unfolding new_actor_state
fresh = new_actor_state "T" true true

pub fresh-IsKeyed : IsKeyed fresh.orders
unfolding fresh get
fresh-IsKeyed k o g = cc

-- An order rests, a tick fills it; then a bracket opens and its target is hit.
abbrev pub session : List (Schedule × Message)
session =
    (in_turn, place_order bid)
    ∷ (in_turn, tick (pos 95))
    ∷ (in_turn, place_bracket entry target stop_loss)
    ∷ (in_turn, tick (pos 125))
    ∷ (in_turn, cancel_order "stop")
    ∷ []

qty-apply_fill_example :
    let p : Position = record {
      token = "T";
      qty = pos 5;
      avg_price = pos 100;
      realized_pnl = pos 0;
    } in
    let f : Fill = record {
      order_id = "x";
      token = "T";
      side = sell;
      qty = pos 8;
      price = pos 90;
    } in
    (apply_fill p f).qty ≡ add64 (pos 5) (signed_qty f)
qty-apply_fill_example =
    qty-apply_fill (record { token = "T"; qty = pos 5; avg_price = pos 100; realized_pnl = pos 0 })
      (record { order_id = "x"; token = "T"; side = sell; qty = pos 8; price = pos 90 })
      (omega arith) (omega arith)

run-Steps_example : Steps fresh (run fresh session)
run-Steps_example = run-Steps fresh session fresh-IsKeyed

unfoldable pub resting_state : ActorState
unfolding handle handle_place_order accept_order validate
resting_state = (handle in_turn fresh (place_order bid)).0

pub resting_state-IsKeyed : IsKeyed resting_state.orders
unfolding resting_state
resting_state-IsKeyed =
    Steps-IsKeyed (handle-Steps in_turn fresh (place_order bid) fresh-IsKeyed) fresh-IsKeyed

bid_rests : get "bid" resting_state.orders ≡ some (record bid { status = Status.resting })
unfolding resting_state fresh get put ◌==◌ store_order would_fill
bid_rests = refl

Later-run_example :
    Later
      (run resting_state ((in_turn, tick (pos 95)) ∷ [])).orders
      "bid"
      (record bid { status = Status.resting })
Later-run_example =
    Later-run resting_state ((in_turn, tick (pos 95)) ∷ []) "bid"
      (record bid { status = Status.resting }) resting_state-IsKeyed bid_rests

fills-run_example :
    fills_of "target" (run fresh session).effects + is_filled_at "target" fresh
    ≡ fills_of "target" fresh.effects + is_filled_at "target" (run fresh session)
unfolding fresh
fills-run_example = fills-run fresh session "target" fresh-IsKeyed refl

run-IsSettled_example : IsSettled (run fresh session)
unfolding fresh
run-IsSettled_example =
    run-IsSettled fresh session (vis, (vis, (vis, (vis, (vis, tt))))) fresh-IsKeyed (λ p. cc)
  where
    vis : VisitsAll in_turn
    vis = in_turn-VisitsAll

fresh-IsOco : IsOco fresh.orders
unfolding fresh get
fresh-IsOco = record { paired = λ a o g x. cc; entries = λ c o g x. cc }

pub named : (id : String) → (id == "") ≡ false → id ≢ ""
named id h e = cc (h, (str_eq_iff id "").1 e)

session_bracket-IsPlain : IsPlainBracket entry target stop_loss
unfolding ◌==◌
session_bracket-IsPlain = record {
  no_leg = refl;
  target_named = named "target" refl;
  stop_named = named "stop" refl;
}

run-IsOco_example : IsOco (run fresh session).orders
run-IsOco_example =
    run-IsOco fresh session (refl, (tt, (session_bracket-IsPlain, (tt, (tt, tt))))) fresh-IsKeyed
      fresh-IsOco

fill_order_lem_example :
    fill_order in_turn resting_state bid (pos 95)
    ≡ fill_body in_turn (fill_order in_turn) resting_state bid (pos 95)
fill_order_lem_example = fill_order_lem in_turn resting_state bid (pos 95)

-- The whole machinery, for tests that run it.
runs_all : ActorState → List (Schedule × Message) → ActorState
unfolding run side_text abs64 sign64 handle handle_place_order accept_order validate
    handle_cancel_order handle_tick tick_loop tick_at handle_place_bracket validate_bracket
    first_known accept_bracket place_entry fill_order fill_upto fill_body commit_fill
    activate_children activate_at activate_order cancel_sibling publish order_at pending_count get
    put keys ◌==◌ would_fill fill_of fill_price apply_fill signed_qty fresh store_order
    persist_order ◌+ℤ◌ ◌-ℤ◌ ◌*ℤ◌ add64 sub64 mul64 neg64 wrap64
runs_all = run

target_filled : (order_at (runs_all fresh session) "target").status ≡ Status.filled
unfolding runs_all
target_filled = refl

stop_cancelled : (order_at (runs_all fresh session) "stop").status ≡ Status.cancelled
unfolding runs_all
stop_cancelled = refl

-- Ten bought at 95; five more bought and sold again at 125.
session_qty : (runs_all fresh session).position.qty ≡ pos 10
unfolding runs_all
session_qty = refl
