-- ===== src/Examples/Clients.antt =====
-- Two websocket clients of one hub: one reads, the other is stalled.
use optionx_assignment.Common.{
  ℕ, true, String, List, [], ◌∷◌, pos, get, put, keys, get-keys, ◌≡◌, refl, arith, ◌==◌, ◌&&◌, not,
  if◌then◌else◌, length,
}
use optionx_assignment.Ledger.{Update}
use optionx_assignment.Ws.{
  Connection, subscribe, new_client, receive, flush, passes, add_all, remove_all,
}
use optionx_assignment.Ws.Coalesce.{receive_all}
use optionx_assignment.Ws.Flush.{InUpdates, VisitsBuffer, newest_is_sent}
use optionx_assignment.Ws.Filter.{all_listed, is_listed, passes-subscriptions}
use optionx_assignment.Ws.Fanout.{
  HubEvent, published, joined, sends, ticks, hub_run, own_run, get-hub_run,
}
use optionx_assignment.Examples.{cents}

abbrev update_of : String → ℕ → Update
update_of token ltp = record {
  token = token;
  qty = pos 1;
  avg_price = pos 100;
  realized_pnl = pos 0;
  unrealized_pnl = pos 0;
  last_ltp = pos ltp;
}

abbrev burst : List Update
burst = update_of "X" 100 ∷ update_of "Y" 55 ∷ update_of "X" 101 ∷ []

abbrev good : Connection
good = record { deadline_set = true; room = 10 }

abbrev stalled : Connection
stalled = record { deadline_set = true; room = 0 }

in_turn-VisitsBuffer : VisitsBuffer keys
in_turn-VisitsBuffer buf t u g = get-keys t buf u g

burst-keys : length (keys (receive_all new_client burst).buf) ≡ 2
unfolding receive_all receive get put keys ◌==◌
burst-keys = refl

newest_is_sent_example :
    ((flush keys good (receive_all new_client burst)).1 ≡ true)
    × InUpdates (update_of "X" 101) (flush keys good (receive_all new_client burst)).0.sent
unfolding passes get ◌==◌
newest_is_sent_example =
    newest_is_sent keys good new_client burst "X" (update_of "X" 101) in_turn-VisitsBuffer refl
      (omega (arith, burst-keys)) refl refl

passes-subscriptions_example : passes (remove_all ("X" ∷ []) (add_all ("X" ∷ []) [])) "Y" ≡ (
    if all_listed ("X" ∷ []) ("X" ∷ [])
    then true
    else is_listed "Y" ("X" ∷ []) && not (is_listed "Y" ("X" ∷ [])))
passes-subscriptions_example = passes-subscriptions ("X" ∷ []) ("X" ∷ []) "Y"

abbrev hub_events : List HubEvent
hub_events =
    joined "reader"
    ∷ joined "idler"
    ∷ sends "reader" (subscribe ("X" ∷ []))
    ∷ published (update_of "X" 100)
    ∷ ticks "idler" keys stalled
    ∷ published (update_of "X" 101)
    ∷ ticks "reader" keys good
    ∷ []

get-hub_run_example :
    get "reader" (hub_run [] hub_events) ≡ own_run "reader" (get "reader" []) hub_events
get-hub_run_example = get-hub_run "reader" [] hub_events
