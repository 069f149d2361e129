-- ===== src/Server/Bars.antt =====
-- The tick loop of cmd/server writes nothing but bars into the candles table of internal/storage.
use optionx_assignment.Common.{true, List, [], ◌∷◌, lt_ℤ, refl, sym, inl, inr, Bool-cases, subst}
use optionx_assignment.Float.{Float64}
use optionx_assignment.Candle.{
  Tick, InstrumentState, empty_state, first_candle, merge_tick, advance, is_duplicate, apply_fresh,
  state_at, bucket_for,
}
use optionx_assignment.Candle.Bounds.{
  OrderLaws, OpenIsBar, AllOpenAreBars, first_candle-IsBar, merge_tick-IsBar, state_at-OpenIsBar,
  apply-AllOpenAreBars,
}
use optionx_assignment.Registry.{Exchange}
use optionx_assignment.Storage.Candles.{CandleTables, bump, latest_candle, upsert_candle}
use optionx_assignment.Storage.Latest.{IsBelow, latest_of-upsert_known}
use optionx_assignment.Storage.Bars.{AllBars, AllBars-upsert_new, AllBars-upsert_known}
use optionx_assignment.Server.{Server, process_tick}
use optionx_assignment.Server.InStep.{InStep, Saved, Unseen, tables_after, tables_after_lem}
use optionx_assignment.Server.Resume.{
  IsInStep, process_all, process_tick_lem, process_tick-IsInStep,
}

module _ ⦃fl : Float64⦄ (laws : OrderLaws) where
  Unseen-AllBars :
      (db : CandleTables) (t : Tick)
      → Unseen db t.token empty_state
      → laws.IsNumber t.ltp
      → AllBars laws db.candles
      → AllBars laws (bump db t.token t.seq (apply_fresh empty_state t).1).candles
  unfolding apply_fresh advance bump latest_candle
  Unseen-AllBars db t u n all =
      AllBars-upsert_new laws t.token (first_candle t) db.candles refl
        (subst (IsBelow (bucket_for t.ts)) (sym u.no_candle) tt) (first_candle-IsBar laws t n) all

  Saved-AllBars :
      (db : CandleTables) (st : InstrumentState) (t : Tick)
      → Saved db t.token st
      → OpenIsBar laws st
      → laws.IsNumber t.ltp
      → AllBars laws db.candles
      → AllBars laws (bump db t.token t.seq (apply_fresh st t).1).candles
  unfolding apply_fresh advance bump latest_candle merge_tick
  Saved-AllBars db st t v o n all =
      let bar = o v.open_candle in
      elim (Bool-cases (lt_ℤ st.current.bucket_ts (bucket_for t.ts))) [
        | inl l ↦
            rw (v.open_candle, l)
              (AllBars-upsert_new laws t.token (first_candle t)
                (upsert_candle st.current db.candles) refl
                (subst (IsBelow (bucket_for t.ts))
                  (sym (
                    latest_of-upsert_known t.token st.current st.current db.candles v.own refl
                      v.latest))
                  l)
                (first_candle-IsBar laws t n)
                (AllBars-upsert_known laws t.token st.current st.current db.candles v.own refl refl
                  v.latest bar all))
        | inr l ↦
            rw (v.open_candle, l)
              (AllBars-upsert_known laws t.token (merge_tick st.current t) st.current db.candles
                v.own refl refl v.latest (merge_tick-IsBar laws st.current t bar n) all)
      ]

  fresh-AllBars :
      (db : CandleTables) (st : InstrumentState) (t : Tick)
      → InStep db t.token st
      → OpenIsBar laws st
      → laws.IsNumber t.ltp
      → AllBars laws db.candles
      → AllBars laws (bump db t.token t.seq (apply_fresh st t).1).candles
  fresh-AllBars db st t (inl u) o n all =
      subst (λ x. AllBars laws (bump db t.token t.seq (apply_fresh x t).1).candles) (sym u.empty)
        (Unseen-AllBars db t
          (record { empty = refl; no_watermark = u.no_watermark; no_candle = u.no_candle }) n all)
  fresh-AllBars db st t (inr v) o n all = Saved-AllBars db st t v o n all

  tables_after-AllBars :
      (db : CandleTables) (st : InstrumentState) (t : Tick)
      → InStep db t.token st
      → OpenIsBar laws st
      → laws.IsNumber t.ltp
      → AllBars laws db.candles
      → AllBars laws (tables_after db st t).candles
  tables_after-AllBars db st t v o n all = elim (Bool-cases (is_duplicate st t)) [
    | inl d ↦ rw (tables_after_lem db st t v, d) all
    | inr d ↦ rw (tables_after_lem db st t v, d) (fresh-AllBars db st t v o n all)
  ]

  -- The aggregator and the tables agree, and every candle of both is a bar.
  pub record HasBars (sv : Server) : Type 0 where
    pub in_step : IsInStep sv
    pub open_candles : AllOpenAreBars laws sv.aggregator
    pub rows : AllBars laws sv.tables.candles

  process_tick-HasBars :
      (sv : Server) (t : Tick) (how : Exchange)
      → laws.IsNumber t.ltp
      → HasBars sv
      → HasBars (process_tick sv t true how)
  process_tick-HasBars sv t how n h =
      let (agg, tables) = process_tick_lem sv t how in
      let st = state_at t.token sv.aggregator in
      let o = state_at-OpenIsBar laws sv.aggregator t.token h.open_candles in
      record {
        in_step = process_tick-IsInStep sv t how h.in_step;
        open_candles =
            subst (AllOpenAreBars laws) (sym agg)
              (apply-AllOpenAreBars laws sv.aggregator t h.open_candles n);
        rows =
            subst (λ (db : CandleTables). AllBars laws db.candles) (sym tables)
              (tables_after-AllBars sv.tables st t (h.in_step t.token) o n h.rows);
      }

  abbrev pub AllPrices : List (Tick × Exchange) → Type 0
  AllPrices [] = Unit
  AllPrices ((t, how) ∷ ts) = laws.IsNumber t.ltp × AllPrices ts

  -- Let the aggregator and the tables agree on every instrument, and let every open candle and every
  -- row of the candles table have low ≤ open ≤ high and low ≤ close ≤ high and start at a full
  -- minute. Then all this still holds after any ticks with numbers for prices, duplicates and ticks
  -- that come late included, whose transactions the database carries out.
  pub process_all-HasBars :
      (sv : Server) (ts : List (Tick × Exchange))
      → AllPrices ts
      → HasBars sv
      → HasBars (process_all sv ts)
  unfolding process_all
  process_all-HasBars sv [] n h = h
  process_all-HasBars sv ((t, how) ∷ ts) n h =
      process_all-HasBars (process_tick sv t true how) ts n.1 (process_tick-HasBars sv t how n.0 h)
