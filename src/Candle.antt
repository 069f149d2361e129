-- ===== src/Candle.antt =====
-- internal/candle: ticks into one-minute candles, with a watermark per instrument, and the tick of
-- internal/feed/tick.go. Times are milliseconds since the Unix epoch.
pub mod Replay
pub mod Bars
pub mod Bounds
use optionx_assignment.Common.{
  ℕ, suc, ◌+◌, ◌-◌, ◌*◌, ◌/◌, Bool, true, false, not, ◌&&◌, String, List, [], ◌∷◌, Option, none,
  some, ℤ, pos, negsuc, le_ℤ, lt_ℤ, add64, Dict, get, put, if◌then◌else◌,
}
use optionx_assignment.Float.{Float64, Price}

abbrev pub minute : ℕ
minute = 60000

-- Truncation to the minute goes down, also before the epoch.
unfoldable pub bucket_for : ℤ → ℤ
bucket_for (pos n) = pos (n / minute * minute)
bucket_for (negsuc n) = negsuc ((n / minute + 1) * minute - 1)

-- The zero `time.Time`, 1 January of year 1.
abbrev pub zero_time : ℤ
zero_time = negsuc 62135596799999

module _ ⦃fl : Float64⦄ where
  pub record Tick : Type 0 where
    pub seq : ℤ
    pub token : String
    pub ltp : Price
    pub ts : ℤ

  pub record Candle : Type 0 where
    pub token : String
    pub bucket_ts : ℤ
    pub open_price : Price
    pub high : Price
    pub low : Price
    pub close : Price
    pub tick_count : ℤ

  abbrev pub zero_candle : Candle
  zero_candle = record {
    token = "";
    bucket_ts = zero_time;
    open_price = fl.of_int (pos 0);
    high = fl.of_int (pos 0);
    low = fl.of_int (pos 0);
    close = fl.of_int (pos 0);
    tick_count = pos 0;
  }

  pub record InstrumentState : Type 0 where
    pub last_seq : ℤ
    pub has_seen : Bool
    pub current : Candle
    pub has_open : Bool

  pub record ApplyResult : Type 0 where
    pub duplicate : Bool
    pub current : Candle
    pub closed : Option Candle

  abbrev pub Aggregator : Type 0
  Aggregator = Dict InstrumentState

  abbrev pub empty_state : InstrumentState
  empty_state = record {
    last_seq = pos 0;
    has_seen = false;
    current = zero_candle;
    has_open = false;
  }

  -- The candle of a tick that opens its bucket.
  abbrev pub first_candle : Tick → Candle
  first_candle t = record {
    token = t.token;
    bucket_ts = bucket_for t.ts;
    open_price = t.ltp;
    high = t.ltp;
    low = t.ltp;
    close = t.ltp;
    tick_count = pos 1;
  }

  -- The last branch of Apply, on the open candle.
  unfoldable pub merge_tick : Candle → Tick → Candle
  merge_tick c t = record c {
    high = fl.larger c.high t.ltp;
    low = fl.smaller c.low t.ltp;
    close = t.ltp;
    tick_count = add64 c.tick_count (pos 1);
  }

  -- Apply behind the duplicate check: the new candle, and the one that it closes.
  unfoldable pub advance : InstrumentState → Tick → Candle × Option Candle
  unfolding merge_tick
  advance st t =
      if not st.has_open
      then (first_candle t, none)
      else if lt_ℤ st.current.bucket_ts (bucket_for t.ts)
      then (first_candle t, some st.current)
      else (merge_tick st.current t, none)

  unfoldable pub is_duplicate : InstrumentState → Tick → Bool
  is_duplicate st t = st.has_seen && le_ℤ t.seq st.last_seq

  unfoldable pub apply_fresh : InstrumentState → Tick → InstrumentState × ApplyResult
  apply_fresh st t =
      let (c, closed) = advance st t in
      (
        record { last_seq = t.seq; has_seen = true; current = c; has_open = true },
        record { duplicate = false; current = c; closed = closed },
      )

  abbrev pub duplicate_result : ApplyResult
  duplicate_result = record { duplicate = true; current = zero_candle; closed = none }

  abbrev pub state_at : String → Aggregator → InstrumentState
  state_at token a = elim (get token a) [ none ↦ empty_state | some st ↦ st ]

  unfoldable pub apply : Aggregator → Tick → Aggregator × ApplyResult
  apply a t =
      let st = state_at t.token a in
      let (st', result) = apply_fresh st t in
      if is_duplicate st t
      then (put t.token st a, duplicate_result)
      else (put t.token st' a, result)

  unfoldable pub apply_all : Aggregator → List Tick → Aggregator
  apply_all a [] = a
  apply_all a (t ∷ ts) = apply_all (apply a t).0 ts

  unfoldable pub current_candle : Aggregator → String → Option Candle
  current_candle a token = elim (get token a) [
    | none ↦ none
    | some st ↦ if st.has_open then some st.current else none
  ]

  unfoldable pub seed : Aggregator → String → ℤ → Option Candle → Aggregator
  seed a token last_seq none =
      put token
        (record { last_seq = last_seq; has_seen = true; current = zero_candle; has_open = false }) a
  seed a token last_seq (some c) =
      put token (record { last_seq = last_seq; has_seen = true; current = c; has_open = true }) a
