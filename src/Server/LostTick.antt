-- ===== src/Server/LostTick.antt =====
-- A tick of cmd/server whose transaction fails after the aggregator took it, and that comes again.
use optionx_assignment.Common.{
  true, false, some, get-put_self, ◌≡◌, ◌≢◌, refl, sym, ◌∙◌, ap, ◌==◌, str_eq_iff, Bool-cases, inl,
  inr, if◌then◌else◌,
}
use optionx_assignment.Float.{Float64}
use optionx_assignment.Candle.{Tick, apply, is_duplicate, state_at, duplicate_result, zero_candle}
use optionx_assignment.Candle.Replay.{apply-IsCovered, covered_is_duplicate}
use optionx_assignment.Registry.{Exchange}
use optionx_assignment.Storage.Candles.{
  CandleTables, apply_tick, bump, get_watermark, latest_candle, is_behind,
}
use optionx_assignment.Storage.Latest.{latest_of-upsert_other}
use optionx_assignment.Server.{Server, deliver, process_tick}
use optionx_assignment.Server.InStep.{behind_is_duplicate, tables_of-apply_tick}
use optionx_assignment.Server.Resume.{IsInStep, deliver-keeps}

module _ ⦃fl : Float64⦄ where
  process_tick-failed :
      (sv : Server) (t : Tick) (how : Exchange)
      → process_tick sv t false how ≡ record sv { aggregator = (apply sv.aggregator t).0 }
  unfolding process_tick apply_tick deliver
  process_tick-failed sv t how = refl

  other_text : (t : Tick) → t.token ≢ "" → ("" == t.token) ≡ false
  other_text t named = elim (Bool-cases ("" == t.token)) [
    | inl h ↦ absurd (named (sym ((str_eq_iff "" t.token).0 h)))
    | inr h ↦ h
  ]

  -- What the zero candle of a duplicate's result does to the tables.
  bump-duplicate :
      (db : CandleTables) (t : Tick)
      → t.token ≢ ""
      → (get_watermark (bump db t.token t.seq duplicate_result) t.token ≡ some t.seq)
        × (latest_candle (bump db t.token t.seq duplicate_result) t.token
            ≡ latest_candle db t.token)
  unfolding bump get_watermark latest_candle
  bump-duplicate db t named = (
    get-put_self t.token t.seq db.watermarks,
    latest_of-upsert_other t.token zero_candle db.candles (other_text t named),
  )

  tables-process_tick :
      (sv : Server) (t : Tick) (how : Exchange)
      → (process_tick sv t true how).tables
        ≡ (apply_tick true sv.tables t.token t.seq (apply sv.aggregator t).1).0
  unfolding process_tick
  tables-process_tick sv t how =
      let after = apply_tick true sv.tables t.token t.seq (apply sv.aggregator t).1 in
      (deliver-keeps (record sv { aggregator = (apply sv.aggregator t).0; tables = after.0 }) t how
        after.1).1

  tables-again :
      (sv : Server) (t : Tick) (how again : Exchange)
      → IsInStep sv
      → is_duplicate (state_at t.token sv.aggregator) t ≡ false
      → (process_tick (process_tick sv t false how) t true again).tables
        ≡ bump sv.tables t.token t.seq duplicate_result
  tables-again sv t how again v fresh =
      let agg = (apply sv.aggregator t).0 in
      let db = sv.tables in
      let behind : is_behind t.seq (get_watermark db t.token) ≡ false =
        behind_is_duplicate db (state_at t.token sv.aggregator) t (v t.token) ∙ fresh in
      ap (λ s. (process_tick s t true again).tables) (process_tick-failed sv t how)
      ∙ tables-process_tick (record sv { aggregator = agg }) t again
      ∙ ap (λ r. (apply_tick true db t.token t.seq r).0)
          (covered_is_duplicate agg t (apply-IsCovered sv.aggregator t))
      ∙ tables_of-apply_tick db t.token t.seq duplicate_result
      ∙ ap (λ b. if b then db else bump db t.token t.seq duplicate_result) behind

  -- Let the transaction of a tick fail that is new to a server whose tables and aggregator agree. When
  -- the same tick comes again and the database carries its transaction out, the watermark is raised
  -- to the tick, but the instrument's latest candle in the table is what it was before both.
  pub process_tick-process_tick :
      (sv : Server) (t : Tick) (how again : Exchange)
      → IsInStep sv
      → t.token ≢ ""
      → is_duplicate (state_at t.token sv.aggregator) t ≡ false
      → let after = process_tick (process_tick sv t false how) t true again in
        (get_watermark after.tables t.token ≡ some t.seq)
        × (latest_candle after.tables t.token ≡ latest_candle sv.tables t.token)
  process_tick-process_tick sv t how again v named fresh =
      let e = tables-again sv t how again v fresh in
      let (w, c) = bump-duplicate sv.tables t named in
      (ap (λ db. get_watermark db t.token) e ∙ w, ap (λ db. latest_candle db t.token) e ∙ c)
