-- ===== src/Examples/Store.antt =====
-- The session of the parent, on empty tables, and what the next process makes of it.
use optionx_assignment.Common.{
  keys, put, List, ◌∷◌, arith, true, pos, get, refl, [], inr, ◌≡◌, ◌==◌,
}
use optionx_assignment.Order.{validate, Status, would_fill}
use optionx_assignment.Actor.Handle.{run, handle}
use optionx_assignment.Actor.Messages.{Message, tick, cancel_order, place_order}
use optionx_assignment.Actor.Sound.{AreSound, Steps-AreSound, run-AreSound}
use optionx_assignment.Actor.RefineHandle.{handle-Steps}
use optionx_assignment.Actor.Cancelling.{Answered, handle-Answered}
use optionx_assignment.Actor.Placing.{AnsweredTruly, handle-AnsweredTruly}
use optionx_assignment.Actor.Traded.{AddsUp, AreInt64, run-AddsUp}
use optionx_assignment.Actor.Filling.{
  Schedule, fill_order, fill_upto, fill_body, commit_fill, activate_children, activate_at,
  cancel_sibling,
}
use optionx_assignment.Actor.OrderHandlers.{
  handle_place_order, accept_order, handle_tick, tick_loop, tick_at,
}
use optionx_assignment.Actor.State.{
  store_order, persist_order, persist_fill, publish, pending_count,
}
use optionx_assignment.Storage.{Tables, carry_out, to_order, row_of}
use optionx_assignment.Storage.Candles.{CandleTables}
use optionx_assignment.Storage.WriteThrough.{IsWrittenThrough, run-IsWrittenThrough}
use optionx_assignment.Storage.RoundTrip.{to_order-row_of}
use optionx_assignment.Storage.Recovery.{IsBackedBy}
use optionx_assignment.Server.Recovered.{Agree, recovered, recovered-run}
use optionx_assignment.Examples.{
  cents, fresh, session, fresh-IsKeyed, in_turn, bid, resting_state, resting_state-IsKeyed,
}

abbrev no_rows : Tables
no_rows = record { orders = []; positions = [] }

abbrev no_candles : CandleTables
no_candles = record { watermarks = []; candles = [] }

fresh-IsWrittenThrough : IsWrittenThrough no_rows fresh
unfolding fresh carry_out get
fresh-IsWrittenThrough id = refl

run-IsWrittenThrough_example : IsWrittenThrough no_rows (run fresh session)
unfolding fresh
run-IsWrittenThrough_example =
    run-IsWrittenThrough no_rows fresh session refl fresh-IsKeyed fresh-IsWrittenThrough

fresh-AreSound : AreSound fresh
unfolding fresh get
fresh-AreSound k o g = cc

fresh-IsBackedBy : IsBackedBy no_rows fresh
unfolding fresh carry_out get
fresh-IsBackedBy = record {
  keyed = fresh-IsKeyed;
  sound = fresh-AreSound;
  kept = record { orders = tt; positions = tt; placed = λ k p g. cc };
  written = fresh-IsWrittenThrough;
  has = inr (refl, refl);
}

run-AreSound_example : AreSound (run fresh session)
run-AreSound_example = run-AreSound fresh session fresh-IsKeyed fresh-AreSound

recovered-run_example :
    let tables = carry_out no_rows (run fresh session).effects in
    let next = recovered tables no_candles (run fresh session).token in
    Agree next (run fresh session) × IsBackedBy tables next
unfolding fresh
recovered-run_example = recovered-run no_rows no_candles fresh session refl fresh-IsBackedBy

to_order-row_of_example :
    to_order (row_of (record bid { status = Status.resting }))
    ≡ record bid { status = Status.resting }
unfolding validate ◌==◌
to_order-row_of_example = to_order-row_of (record bid { status = Status.resting }) refl tt

resting_state-AreSound : AreSound resting_state
unfolding resting_state
resting_state-AreSound =
    Steps-AreSound (handle-Steps in_turn fresh (place_order bid) fresh-IsKeyed) fresh-AreSound

handle-Answered_example :
    Answered resting_state "bid" (handle in_turn resting_state (cancel_order "bid"))
handle-Answered_example =
    handle-Answered in_turn resting_state "bid" resting_state-IsKeyed
      (λ k o g. (resting_state-AreSound k o g).known)

-- At this price the bid fills at once.
handle-AnsweredTruly_example :
    let priced = record fresh { last_ltp = pos 95; has_ltp = true } in
    AnsweredTruly priced bid (handle in_turn priced (place_order bid))
handle-AnsweredTruly_example =
    handle-AnsweredTruly in_turn (record fresh { last_ltp = pos 95; has_ltp = true }) bid
      fresh-IsKeyed

fresh-AddsUp : AddsUp (pos 0) fresh
unfolding fresh
fresh-AddsUp = record { store = refl; range = omega arith; total = refl; rows = tt }

-- The bid rests, and fills at the second price.
abbrev fill_session : List (Schedule × Message)
fill_session = (in_turn, place_order bid) ∷ (in_turn, tick (pos 95)) ∷ []

fill_session-AreInt64 : AreInt64 (run fresh fill_session).effects
unfolding fresh run handle handle_place_order accept_order validate would_fill store_order
    persist_order get put ◌==◌ handle_tick tick_loop tick_at fill_order fill_upto fill_body
    commit_fill persist_fill activate_children activate_at cancel_sibling publish pending_count keys
fill_session-AreInt64 = (omega arith, tt)

run-AddsUp_example : AddsUp (pos 0) (run fresh fill_session)
run-AddsUp_example =
    run-AddsUp (pos 0) fresh fill_session fresh-IsKeyed fresh-AddsUp fill_session-AreInt64
