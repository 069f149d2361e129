-- ===== src/Examples/Restart.antt =====
-- A process that starts on empty tables, ticks, and starts again; one tick comes twice.
use optionx_assignment.Common.{
  get, List, [], ◌∷◌, inl, refl, ◌≡◌, ◌≢◌, ◌==◌, some, none, pos, true, false,
}
use optionx_assignment.Candle.{Tick, state_at, is_duplicate}
use optionx_assignment.Registry.{Exchange, not_taken, answered, new_registry}
use optionx_assignment.Storage.Candles.{
  get_watermark, latest_candle, latest_of, boot_aggregator, CandleTables,
}
use optionx_assignment.Server.{Server, process_tick}
use optionx_assignment.Server.Resume.{IsInStep, process_all, process_all-IsInStep}
use optionx_assignment.Server.Restart.{watermarks-process_all, boot_aggregator-process_all}
use optionx_assignment.Server.LostTick.{process_tick-process_tick}
use optionx_assignment.Database.{migrate, migrate_files, sql_names}
use optionx_assignment.Server.Bars.{HasBars, process_all-HasBars}
use optionx_assignment.Server.Startup.{Service, Resumes, start, all_answered, start-Resumes}
use optionx_assignment.Examples.{cents, in_turn, named}
use optionx_assignment.Examples.Candles.{first_tick, second_tick, third_tick, cents_laws}

abbrev cold : Server
cold = record {
  aggregator = [];
  tables = record { watermarks = []; candles = [] };
  registry = new_registry;
}

abbrev feed : List (Tick × Exchange)
feed =
    (first_tick, answered in_turn)
    ∷ (second_tick, not_taken)
    ∷ (first_tick, answered in_turn)
    ∷ (third_tick, answered in_turn)
    ∷ []

cold-IsInStep : IsInStep cold
unfolding get get_watermark latest_candle latest_of
cold-IsInStep token = inl (record { empty = refl; no_watermark = refl; no_candle = refl })

boot_aggregator-process_all_example :
    state_at "T" (boot_aggregator (process_all cold feed).tables)
    ≡ state_at "T" (process_all cold feed).aggregator
boot_aggregator-process_all_example = boot_aggregator-process_all cold feed "T" tt cold-IsInStep

T-named : first_tick.token ≢ ""
unfolding ◌==◌
T-named = named "T" refl

process_tick-process_tick_example :
    let after =
      process_tick (process_tick cold first_tick false not_taken) first_tick true not_taken in
    (get_watermark after.tables "T" ≡ some (pos 1))
    × (latest_candle after.tables "T" ≡ latest_candle cold.tables "T")
unfolding is_duplicate get
process_tick-process_tick_example =
    process_tick-process_tick cold first_tick not_taken not_taken cold-IsInStep T-named refl

cold-HasBars : HasBars cents_laws cold
unfolding get
cold-HasBars = record { in_step = cold-IsInStep; open_candles = λ k st g. cc; rows = tt }

process_all-HasBars_example : HasBars cents_laws (process_all cold feed)
process_all-HasBars_example =
    process_all-HasBars cents_laws cold feed (tt, (tt, (tt, (tt, tt)))) cold-HasBars

-- One migration file, on a database of candle tables alone.
abbrev service : Service CandleTables
service = record {
  host = record {
    read_dir = some (record { name = "1.sql"; is_dir = false } ∷ []);
    read_file = λ name. some "CREATE TABLE IF NOT EXISTS";
    sort = λ names. names;
    transact = λ contents d. (none, d);
  };
  orders = λ d. record { orders = []; positions = [] };
  candles = λ d. d;
}

migrated : (d : CandleTables) → (migrate service.host d).1 ≡ none
unfolding migrate migrate_files sql_names ◌==◌
migrated d = refl

start-Resumes_example :
    Resumes service
      (process_all cold feed)
      (start service all_answered (process_all cold feed).tables)
start-Resumes_example =
    start-Resumes service (process_all cold feed) (process_all cold feed).tables
      (λ name contents d r. refl) refl (watermarks-process_all cold feed tt)
      (process_all-IsInStep cold feed cold-IsInStep) (migrated (process_all cold feed).tables)
