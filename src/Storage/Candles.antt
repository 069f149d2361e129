-- ===== src/Storage/Candles.antt =====
-- internal/storage/candle_store.go: the watermarks and the candles as tables, and the transaction that
-- persists one tick.
use optionx_assignment.Common.{
  Bool, false, not, ◌&&◌, String, List, [], ◌∷◌, Option, none, some, ℤ, le_ℤ, lt_ℤ, eq_ℤ, Dict, get,
  put, ◌==◌, if◌then◌else◌,
}
use optionx_assignment.Float.{Float64}
use optionx_assignment.Candle.{Candle, ApplyResult, Aggregator, seed}

module _ ⦃fl : Float64⦄ where
  -- A row of `candles` is a candle; the primary key is its token and its bucket.
  pub record CandleTables : Type 0 where
    pub watermarks : Dict ℤ
    pub candles : List Candle

  unfoldable pub get_watermark : CandleTables → String → Option ℤ
  get_watermark db token = get token db.watermarks

  abbrev pub newer : Candle → Option Candle → Option Candle
  newer c none = some c
  newer c (some d) = if lt_ℤ c.bucket_ts d.bucket_ts then some d else some c

  unfoldable pub latest_of : String → List Candle → Option Candle
  latest_of token [] = none
  latest_of token (c ∷ cs) =
      let rest = latest_of token cs in if c.token == token then newer c rest else rest

  unfoldable pub latest_candle : CandleTables → String → Option Candle
  latest_candle db token = latest_of token db.candles

  unfoldable pub all_watermarks : CandleTables → Dict ℤ
  all_watermarks db = db.watermarks

  unfoldable pub latest_by_token : List Candle → Dict Candle
  latest_by_token [] = []
  latest_by_token (c ∷ cs) =
      let rest = latest_by_token cs in
      elim (newer c (get c.token rest)) [ none ↦ rest | some d ↦ put c.token d rest ]

  unfoldable pub all_latest_candles : CandleTables → Dict Candle
  all_latest_candles db = latest_by_token db.candles

  abbrev pub same_key : Candle → Candle → Bool
  same_key c d = c.token == d.token && eq_ℤ c.bucket_ts d.bucket_ts

  -- INSERT, or on a known key UPDATE of everything but the opening price.
  unfoldable pub upsert_candle : Candle → List Candle → List Candle
  upsert_candle c [] = c ∷ []
  upsert_candle c (d ∷ ds) =
      let rest = upsert_candle c ds in
      if same_key c d
      then record d { high = c.high; low = c.low; close = c.close; tick_count = c.tick_count } ∷ ds
      else d ∷ rest

  abbrev pub upsert_closed : Option Candle → List Candle → List Candle
  upsert_closed none cs = cs
  upsert_closed (some c) cs = upsert_candle c cs

  -- What ApplyTick returns.
  pub data Persisted : Type 0 where
    fresh duplicate failed : Persisted

  unfoldable pub bump : CandleTables → String → ℤ → ApplyResult → CandleTables
  bump db token seq result = record {
    watermarks = put token seq db.watermarks;
    candles = upsert_candle result.current (upsert_closed result.closed db.candles);
  }

  abbrev pub is_behind : ℤ → Option ℤ → Bool
  is_behind seq none = false
  is_behind seq (some last) = le_ℤ seq last

  -- ApplyTick: one transaction, `up` tells whether the database carries it out.
  unfoldable pub apply_tick :
      Bool → CandleTables → String → ℤ → ApplyResult → CandleTables × Persisted
  apply_tick up db token seq result =
      if not up
      then (db, failed)
      else if is_behind seq (get_watermark db token)
      then (db, duplicate)
      else (bump db token seq result, fresh)

  -- The loop of cmd/server over the watermarks, at its start.
  unfoldable pub seed_all : Dict ℤ → Dict Candle → Aggregator → Aggregator
  seed_all [] latest agg = agg
  seed_all ((token, last_seq) ∷ ws) latest agg =
      seed_all ws latest (seed agg token last_seq (get token latest))

  unfoldable pub boot_aggregator : CandleTables → Aggregator
  boot_aggregator db = seed_all (all_watermarks db) (all_latest_candles db) []
