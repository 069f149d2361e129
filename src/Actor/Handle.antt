-- ===== src/Actor/Handle.antt =====
-- The handler of brackets of internal/instrument/bracket.go, the choice of the handler by the message,
-- and the loop of actor.go over the messages.
use optionx_assignment.Common.{
  not, ◌&&◌, ◌||◌, String, List, [], ◌∷◌, Option, none, some, get, put, ◌==◌, eq_ℤ, if◌then◌else◌,
}
use optionx_assignment.Float.{Float64}
use optionx_assignment.Order.{
  Order, pending, resting, is_market, is_limit, is_stop, validate, would_fill,
}
use optionx_assignment.Actor.Messages.{
  Outcome, InvalidBracket, Reason, Message, CancelOrderResult, PlaceBracketResult, Reply,
  place_order, cancel_order, tick, snapshot, place_bracket, placed, cancel_done, snapped,
  bracket_placed,
}
use optionx_assignment.Actor.State.{ActorState, persist_order, store_order, order_at}
use optionx_assignment.Actor.Filling.{Schedule, as_filled, fill_of, fill_order}
use optionx_assignment.Actor.OrderHandlers.{
  same_side, is_some, handle_place_order, handle_cancel_order, handle_tick, handle_snapshot,
}

module _ ⦃fl : Float64⦄ where
  -- The checks of validateBracket behind the three calls of Validate.
  unfoldable pub validate_legs : Order → Order → Order → Option InvalidBracket
  validate_legs entry target stop =
      if not (is_market entry.kind) && not (is_limit entry.kind)
      then some (InvalidBracket.entry_type entry.kind)
      else if not (is_limit target.kind)
      then some (InvalidBracket.target_type target.kind)
      else if not (is_stop stop.kind)
      then some (InvalidBracket.stop_type stop.kind)
      else if not (same_side target.side stop.side)
      then some (InvalidBracket.sides_differ target.side stop.side)
      else if same_side target.side entry.side
      then some (InvalidBracket.side_of_entry entry.side target.side)
      else if not (eq_ℤ target.qty entry.qty) || not (eq_ℤ stop.qty entry.qty)
      then some InvalidBracket.qty_mismatch
      else if (entry.id == target.id) || (entry.id == stop.id) || (target.id == stop.id)
      then some InvalidBracket.ids_not_distinct
      else none

  unfoldable pub validate_bracket : Order → Order → Order → Option InvalidBracket
  unfolding validate_legs
  validate_bracket entry target stop = elim (validate entry) [
    | some e ↦ some (InvalidBracket.entry e)
    | none ↦ elim (validate target) [
      | some e ↦ some (InvalidBracket.target e)
      | none ↦ elim (validate stop) [
        | some e ↦ some (InvalidBracket.stop e)
        | none ↦ validate_legs entry target stop
      ]
    ]
  ]

  unfoldable pub first_known : ActorState → List String → Option String
  first_known s [] = none
  first_known s (id ∷ ids) = if is_some (get id s.orders) then some id else first_known s ids

  -- A child with its links to the entry and to the other child.
  abbrev pub link : Order → Order → Order → Order
  link child entry sibling = record child {
    status = pending;
    entry_id = entry.id;
    sibling_id = sibling.id;
  }

  -- The entry, placed once its children are stored.
  unfoldable pub place_entry :
      Schedule → ActorState → Order → Order → Order → ActorState × PlaceBracketResult
  place_entry sched s entry target stop =
      let r = record entry { status = resting } in
      let s' = fill_order sched s entry s.last_ltp in
      if s.has_ltp && would_fill entry s.last_ltp
      then (
        s',
        record {
          outcome = Outcome.filled;
          entry = as_filled entry;
          target = order_at s' target.id;
          stop = order_at s' stop.id;
          fill = some (fill_of entry s.last_ltp);
          error = none;
        },
      )
      else (
        store_order s entry.id r,
        record {
          outcome = Outcome.resting;
          entry = r;
          target = target;
          stop = stop;
          fill = none;
          error = none;
        },
      )

  -- Both children enter the map before either is persisted.
  unfoldable pub store_children : ActorState → Order → Order → ActorState
  store_children s target stop =
      let s₁ : ActorState = record s {
        orders = put stop.id stop (put target.id target s.orders);
      } in
      persist_order (persist_order s₁ target) stop

  unfoldable pub accept_bracket :
      Schedule → ActorState → Order → Order → Order → ActorState × PlaceBracketResult
  unfolding store_children
  accept_bracket sched s entry target stop =
      let target' = link target entry stop in
      let stop' = link stop entry target in
      place_entry sched (store_children s target' stop') entry target' stop'

  abbrev pub bracket_rejected : Order → Order → Order → Reason → PlaceBracketResult
  bracket_rejected entry target stop why = record {
    outcome = Outcome.rejected;
    entry = entry;
    target = target;
    stop = stop;
    fill = none;
    error = some why;
  }

  unfoldable pub handle_place_bracket :
      Schedule → ActorState → Order → Order → Order → ActorState × PlaceBracketResult
  handle_place_bracket sched s entry target stop = elim (validate_bracket entry target stop) [
    | some e ↦ (s, bracket_rejected entry target stop (Reason.invalid_bracket e))
    | none ↦
        if not (entry.token == s.token)
          || not (target.token == s.token)
          || not (stop.token == s.token)
        then (s, bracket_rejected entry target stop Reason.token_mismatch)
        else elim (first_known s (entry.id ∷ target.id ∷ stop.id ∷ [])) [
          | some id ↦ (s, bracket_rejected entry target stop (Reason.duplicate_id id))
          | none ↦ accept_bracket sched s entry target stop
        ]
  ]

  abbrev pub reply_of : ActorState × Option CancelOrderResult → ActorState × Option Reply
  reply_of (s, none) = (s, none)
  reply_of (s, some r) = (s, some (cancel_done r))

  unfoldable pub handle : Schedule → ActorState → Message → ActorState × Option Reply
  handle sched s (place_order o) =
      let (s', r) = handle_place_order sched s o in (s', some (placed r))
  handle sched s (cancel_order id) = reply_of (handle_cancel_order s id)
  handle sched s (tick ltp) = (handle_tick sched s ltp, none)
  handle sched s snapshot = (s, some (snapped (handle_snapshot sched s)))
  handle sched s (place_bracket entry target stop) =
      let (s', r) = handle_place_bracket sched s entry target stop in (s', some (bracket_placed r))

  -- The loop of Actor.run: messages in the order in which the inbox hands them over, each with the
  -- visiting order that Go happens to choose for it.
  unfoldable pub run : ActorState → List (Schedule × Message) → ActorState
  run s [] = s
  run s ((sched, m) ∷ ms) = run (handle sched s m).0 ms
