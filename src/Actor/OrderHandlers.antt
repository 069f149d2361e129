-- ===== src/Actor/OrderHandlers.antt =====
-- The handlers of internal/instrument/actor_state.go for orders, cancellations, ticks and snapshots.
-- Each returns the next state and what it sends on the reply channel.
use optionx_assignment.Common.{
  Bool, true, false, not, ◌&&◌, String, List, [], ◌∷◌, Option, none, some, get, ◌==◌, if◌then◌else◌,
}
use optionx_assignment.Float.{Float64, Price}
use optionx_assignment.Order.{
  Side, Order, resting, Status, is_resting, side_text, validate, would_fill,
}
use optionx_assignment.Actor.Messages.{
  Outcome, CancelOutcome, Reason, PlaceOrderResult, CancelOrderResult, Snapshot,
}
use optionx_assignment.Actor.State.{ActorState, zero_order, publish, store_order, order_at}
use optionx_assignment.Actor.Filling.{Schedule, as_filled, fill_of, fill_order}

-- Go compares the texts.
abbrev pub same_side : Side → Side → Bool
same_side a b = side_text a == side_text b

module _ ⦃fl : Float64⦄ where
  abbrev pub is_some : Option Order → Bool
  is_some none = false
  is_some (some o) = true

  abbrev pub place_rejected : Order → Reason → PlaceOrderResult
  place_rejected o why = record {
    outcome = Outcome.rejected;
    order = o;
    fill = none;
    error = some why;
  }

  -- handlePlaceOrder once the guards are passed.
  unfoldable pub accept_order : Schedule → ActorState → Order → ActorState × PlaceOrderResult
  accept_order sched s o =
      let r = record o { status = resting } in
      if s.has_ltp && would_fill o s.last_ltp
      then (
        fill_order sched s o s.last_ltp,
        record {
          outcome = Outcome.filled;
          order = as_filled o;
          fill = some (fill_of o s.last_ltp);
          error = none;
        },
      )
      else (
        store_order s o.id r,
        record { outcome = Outcome.resting; order = r; fill = none; error = none },
      )

  unfoldable pub handle_place_order : Schedule → ActorState → Order → ActorState × PlaceOrderResult
  handle_place_order sched s o = elim (validate o) [
    | some e ↦ (s, place_rejected o (Reason.invalid e))
    | none ↦
        if not (o.token == s.token)
        then (s, place_rejected o Reason.token_mismatch)
        else if is_some (get o.id s.orders)
        then (s, place_rejected o (Reason.duplicate_id o.id))
        else accept_order sched s o
  ]

  abbrev pub cancel_reply : CancelOutcome → Order → Option CancelOrderResult
  cancel_reply outcome o = some (record { outcome = outcome; order = o })

  -- The `switch` on the order's status; an order of another status gets no reply.
  unfoldable pub cancel_known : ActorState → Order → Status → ActorState × Option CancelOrderResult
  cancel_known s o Status.resting =
      let c = record o { status = Status.cancelled } in
      (store_order s o.id c, cancel_reply CancelOutcome.cancelled c)
  cancel_known s o Status.pending =
      let c = record o { status = Status.cancelled } in
      (store_order s o.id c, cancel_reply CancelOutcome.cancelled c)
  cancel_known s o Status.filled = (s, cancel_reply CancelOutcome.already_filled o)
  cancel_known s o Status.cancelled = (s, cancel_reply CancelOutcome.already_cancelled o)
  cancel_known s o (Status.other _) = (s, none)

  unfoldable pub handle_cancel_order : ActorState → String → ActorState × Option CancelOrderResult
  unfolding cancel_known
  handle_cancel_order s id = elim (get id s.orders) [
    | none ↦ (s, cancel_reply CancelOutcome.not_found zero_order)
    | some o ↦ cancel_known s o o.status
  ]

  -- One round of the loop of handleTick.
  unfoldable pub tick_at : Schedule → Price → ActorState → String → ActorState
  tick_at sched ltp s id = elim (get id s.orders) [
    | none ↦ s
    | some o ↦
        if not (is_resting o.status)
        then s
        else if would_fill o ltp
        then fill_order sched s o ltp
        else s
  ]

  unfoldable pub tick_loop : Schedule → Price → List String → ActorState → ActorState
  tick_loop sched ltp [] s = s
  tick_loop sched ltp (id ∷ ids) s = tick_loop sched ltp ids (tick_at sched ltp s id)

  unfoldable pub handle_tick : Schedule → ActorState → Price → ActorState
  handle_tick sched s ltp =
      let s₁ : ActorState = record s { last_ltp = ltp; has_ltp = true } in
      publish (tick_loop sched ltp (sched s₁) s₁)

  unfoldable pub orders_at : ActorState → List String → List Order
  orders_at s [] = []
  orders_at s (id ∷ ids) = order_at s id ∷ orders_at s ids

  unfoldable pub handle_snapshot : Schedule → ActorState → Snapshot
  handle_snapshot sched s = record {
    token = s.token;
    position = s.position;
    last_ltp = s.last_ltp;
    orders = orders_at s (sched s);
  }
