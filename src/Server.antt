-- ===== src/Server.antt =====
-- cmd/server/main.go: what the process holds, how it starts from the tables, and its tick loop.
pub mod InStep
pub mod Rows
pub mod Resume
pub mod Restart
pub mod Recovered
pub mod LostTick
pub mod Startup
pub mod Bars
use optionx_assignment.Common.{Bool}
use optionx_assignment.Float.{Float64}
use optionx_assignment.Candle.{Tick, Aggregator, apply}
use optionx_assignment.Actor.Messages.{tick}
use optionx_assignment.Registry.{
  Registry, Exchange, exchange, new_persistent_registry, set_publisher,
}
use optionx_assignment.Storage.{Tables, load_all_instrument_state}
use optionx_assignment.Storage.Candles.{
  CandleTables, Persisted, failed, apply_tick, boot_aggregator,
}

module _ ⦃fl : Float64⦄ where
  pub record Server : Type 0 where
    pub aggregator : Aggregator
    pub tables : CandleTables
    pub registry : Registry

  unfoldable pub boot : Tables → CandleTables → Server
  boot orders candles = record {
    aggregator = boot_aggregator candles;
    tables = candles;
    registry = set_publisher (new_persistent_registry (load_all_instrument_state orders));
  }

  unfoldable pub deliver : Server → Tick → Exchange → Persisted → Server
  deliver sv t how failed = sv
  deliver sv t how _ = record sv { registry = (exchange sv.registry t.token (tick t.ltp) how).0 }

  -- One round of the tick loop: the aggregator, then the tables, then the actor. `up` tells whether
  -- the database carries the transaction out; if not, the actor does not see the tick.
  unfoldable pub process_tick : Server → Tick → Bool → Exchange → Server
  process_tick sv t up how =
      let (agg, result) = apply sv.aggregator t in
      let (tables, outcome) = apply_tick up sv.tables t.token t.seq result in
      deliver (record sv { aggregator = agg; tables = tables }) t how outcome
