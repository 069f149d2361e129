-- ===== src/Server/Startup.antt =====
-- main of cmd/server/main.go up to its loops: the database, the migrations, the registry and the
-- aggregator from the tables. Each stage can fail, and then the process ends. The HTTP server listens
-- as soon as the registry is there; requests that come before the aggregator is seeded are no part of
-- this.
use optionx_assignment.Common.{
  Bool, true, not, String, List, [], ◌∷◌, Option, none, some, IsUnique, ◌≡◌, refl, ◌∙◌, ap,
  Option-cases, inl, inr, if◌then◌else◌,
}
use optionx_assignment.Float.{Float64}
use optionx_assignment.Candle.{state_at}
use optionx_assignment.Database.{
  Host, TxFault, MigrationError, after_transaction, migrate_files, migrate, sql_names, Environment,
  get_env,
}
use optionx_assignment.Storage.{Tables}
use optionx_assignment.Storage.Candles.{CandleTables, boot_aggregator}
use optionx_assignment.Server.{Server, boot}
use optionx_assignment.Server.Resume.{IsInStep}
use optionx_assignment.Server.Restart.{state_at-boot_aggregator}

unfoldable pub http_address : Environment → String
unfolding get_env
http_address env = get_env env "OPTIONX_HTTP_ADDR" ":8080"

unfoldable pub feed_address : Environment → String
unfolding get_env
feed_address env = get_env env "OPTIONX_FEED_ADDR" "localhost:9001"

pub data Fatal : Type 0 where
  no_database no_instrument_state no_watermarks no_latest_candles : Fatal
  no_migration : MigrationError → Fatal

-- The reads of the start that the database answers.
pub record Answers : Type 0 where
  pub connects : Bool
  pub instrument_state : Bool
  pub watermarks : Bool
  pub latest_candles : Bool

abbrev pub all_answered : Answers
all_answered = record {
  connects = true;
  instrument_state = true;
  watermarks = true;
  latest_candles = true;
}

module _ ⦃fl : Float64⦄ where
  pub data Started : Type 0 where
    stopped : Fatal → Started
    serving : Server → Started

  -- A database with this program's tables in it.
  pub record Service {ℓ} (D : Type ℓ) : Type ℓ where
    pub host : Host D
    pub orders : D → Tables
    pub candles : D → CandleTables

  module _ {ℓ} {D : Type ℓ} (service : Service D) where
    abbrev pub after_migration : Answers → D × Option MigrationError → D × Started
    after_migration ok (d, some e) = (d, stopped (no_migration e))
    after_migration ok (d, none) =
        if not ok.instrument_state
        then (d, stopped no_instrument_state)
        else if not ok.watermarks
        then (d, stopped no_watermarks)
        else if not ok.latest_candles
        then (d, stopped no_latest_candles)
        else (d, serving (boot (service.orders d) (service.candles d)))

    unfoldable pub start : Answers → D → D × Started
    start ok d =
        if not ok.connects
        then (d, stopped no_database)
        else after_migration ok (migrate service.host d)

    -- Each migration file leaves the tables of a database that has them already: CREATE TABLE IF NOT
    -- EXISTS.
    abbrev pub AreIdempotent : Type ℓ
    AreIdempotent =
        (name contents : String) (d : D)
        → service.host.read_file name ≡ some contents
        → service.candles (service.host.transact contents d).1 ≡ service.candles d

    candles-after_transaction :
        (name : String) (t : Option TxFault × D) (k : D → D × Option MigrationError)
        (c : CandleTables)
        → service.candles t.1 ≡ c
        → ((d : D) → service.candles (k d).0 ≡ service.candles d)
        → service.candles (after_transaction service.host name t k).0 ≡ c
    candles-after_transaction name (none, d) k c e h = h d ∙ e
    candles-after_transaction name (some f, d) k c e h = e

    candles-migrate_files :
        AreIdempotent
        → (names : List String) (d : D)
        → service.candles (migrate_files service.host names d).0 ≡ service.candles d
    unfolding migrate_files
    candles-migrate_files law [] d = refl
    candles-migrate_files law (name ∷ names) d = elim (Option-cases (service.host.read_file name)) [
      | inl r ↦ rw (migrate_files, r) refl
      | inr (contents, r) ↦
          rw (migrate_files, r)
            (candles-after_transaction name (service.host.transact contents d)
              (λ d'. migrate_files service.host names d') (service.candles d)
              (law name contents d r) (λ d'. candles-migrate_files law names d'))
    ]

    candles-migrate :
        AreIdempotent → (d : D) → service.candles (migrate service.host d).0 ≡ service.candles d
    unfolding migrate
    candles-migrate law d = elim (Option-cases service.host.read_dir) [
      | inl r ↦ rw (migrate, r) refl
      | inr (entries, r) ↦
          rw (migrate, r) (candles-migrate_files law (service.host.sort (sql_names entries)) d)
    ]

    start-serving :
        (d : D)
        → (migrate service.host d).1 ≡ none
        → start all_answered d ≡ (
            let d' = (migrate service.host d).0 in
            (d', serving (boot (service.orders d') (service.candles d'))))
    unfolding start
    start-serving d h = again (migrate service.host d) h
      where
        again :
            (m : D × Option MigrationError)
            → m.1 ≡ none
            → after_migration all_answered m
              ≡ (m.0, serving (boot (service.orders m.0) (service.candles m.0)))
        again (d', e) h = rw h refl

    -- A process that started, with the aggregator of an earlier one.
    pub record Resumes (old : Server) (out : D × Started) : Type ℓ where
      pub server : Server
      pub serves : out.1 ≡ serving server
      pub same_state :
          (token : String) → state_at token server.aggregator ≡ state_at token old.aggregator

    -- Let the database hold the candle tables that a process left whose aggregator and tables agree,
    -- with one watermark for each instrument, and let the migrations leave these tables. If the
    -- database answers every read of the start and the migrations report no error, then the next
    -- process starts, and its aggregator has every instrument's watermark and open candle.
    pub start-Resumes :
        (old : Server) (d : D)
        → AreIdempotent
        → service.candles d ≡ old.tables
        → IsUnique old.tables.watermarks
        → IsInStep old
        → (migrate service.host d).1 ≡ none
        → Resumes old (start all_answered d)
    unfolding boot
    start-Resumes old d law held u v h =
        let d' = (migrate service.host d).0 in
        let same : service.candles d' ≡ old.tables = candles-migrate law d ∙ held in
        record {
          server = boot (service.orders d') (service.candles d');
          serves = ap (λ (x : D × Started). x.1) (start-serving d h);
          same_state = λ token.
              ap (λ db. state_at token (boot_aggregator db)) same
              ∙ state_at-boot_aggregator old token u v;
        }
