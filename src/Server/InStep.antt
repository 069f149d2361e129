-- ===== src/Server/InStep.antt =====
-- When the rows of one instrument in the tables of internal/storage agree with its state in the
-- aggregator of internal/candle, and that a fresh tick keeps this.
use optionx_assignment.Common.{
  Bool, true, false, ◌&&◌, String, none, some, ℤ, le_ℤ, lt_ℤ, get-put_self, ◌≡◌, refl, sym, ◌∙◌, ap,
  inl, inr, ◌⊎◌, if◌then◌else◌, Bool-cases, subst,
}
use optionx_assignment.Float.{Float64}
use optionx_assignment.Candle.{
  Tick, InstrumentState, ApplyResult, empty_state, first_candle, merge_tick, advance, is_duplicate,
  apply_fresh, duplicate_result, bucket_for,
}
use optionx_assignment.Storage.Candles.{
  CandleTables, apply_tick, bump, get_watermark, latest_candle, upsert_candle, is_behind,
}
use optionx_assignment.Storage.Latest.{latest_of-upsert_known, latest_of-upsert_new, IsBelow}

module _ ⦃fl : Float64⦄ where
  -- The tables have the watermark and the open candle of one instrument.
  pub record Saved (db : CandleTables) (token : String) (st : InstrumentState) : Type 0 where
    pub seen : st.has_seen ≡ true
    pub open_candle : st.has_open ≡ true
    pub own : st.current.token ≡ token
    pub watermark : get_watermark db token ≡ some st.last_seq
    pub latest : latest_candle db token ≡ some st.current

  -- Or the instrument is new, to both.
  pub record Unseen (db : CandleTables) (token : String) (st : InstrumentState) : Type 0 where
    pub empty : st ≡ empty_state
    pub no_watermark : get_watermark db token ≡ none
    pub no_candle : latest_candle db token ≡ none

  abbrev pub InStep : CandleTables → String → InstrumentState → Type 0
  InStep db token st = Unseen db token st ⊎ Saved db token st

  -- What a tick does to the tables when the database carries its transaction out.
  abbrev pub result_of : InstrumentState → Tick → ApplyResult
  result_of st t = if is_duplicate st t then duplicate_result else (apply_fresh st t).1

  abbrev pub tables_after : CandleTables → InstrumentState → Tick → CandleTables
  tables_after db st t = (apply_tick true db t.token t.seq (result_of st t)).0

  -- The aggregator and the table agree on which ticks are duplicates.
  pub behind_is_duplicate :
      (db : CandleTables) (st : InstrumentState) (t : Tick)
      → InStep db t.token st
      → is_behind t.seq (get_watermark db t.token) ≡ is_duplicate st t
  unfolding is_duplicate
  behind_is_duplicate db st t (inl u) =
      ap (is_behind t.seq) u.no_watermark ∙ ap (λ x. is_duplicate x t) (sym u.empty)
  behind_is_duplicate db st t (inr v) =
      ap (is_behind t.seq) v.watermark ∙ ap (λ b. b && le_ℤ t.seq st.last_seq) (sym v.seen)

  pub tables_of-apply_tick :
      (db : CandleTables) (token : String) (seq : ℤ) (r : ApplyResult)
      → (apply_tick true db token seq r).0
        ≡ (if is_behind seq (get_watermark db token) then db else bump db token seq r)
  unfolding apply_tick
  tables_of-apply_tick db token seq r = elim (Bool-cases (is_behind seq (get_watermark db token))) [
    | inl h ↦ rw h refl
    | inr h ↦ rw h refl
  ]

  pub tables_after_lem :
      (db : CandleTables) (st : InstrumentState) (t : Tick)
      → InStep db t.token st
      → tables_after db st t
        ≡ (if is_duplicate st t then db else bump db t.token t.seq (apply_fresh st t).1)
  tables_after_lem db st t v =
      tables_of-apply_tick db t.token t.seq (result_of st t)
      ∙ ap (λ b. if b then db else bump db t.token t.seq (result_of st t))
          (behind_is_duplicate db st t v)
      ∙ once (is_duplicate st t)
    where
      once :
          (b : Bool)
          → (if b
              then db
              else bump db t.token t.seq (if b then duplicate_result else (apply_fresh st t).1))
            ≡ (if b then db else bump db t.token t.seq (apply_fresh st t).1)
      once true = refl
      once false = refl

  pub Unseen-fresh :
      (db : CandleTables) (t : Tick)
      → Unseen db t.token empty_state
      → Saved
          (bump db t.token t.seq (apply_fresh empty_state t).1)
          t.token
          (apply_fresh empty_state t).0
  unfolding apply_fresh advance bump get_watermark latest_candle
  Unseen-fresh db t u = record {
    seen = refl;
    open_candle = refl;
    own = refl;
    watermark = get-put_self t.token t.seq db.watermarks;
    latest =
        latest_of-upsert_new t.token (first_candle t) db.candles refl
          (subst (IsBelow (bucket_for t.ts)) (sym u.no_candle) tt);
  }

  pub Saved-fresh :
      (db : CandleTables) (st : InstrumentState) (t : Tick)
      → Saved db t.token st
      → Saved (bump db t.token t.seq (apply_fresh st t).1) t.token (apply_fresh st t).0
  unfolding apply_fresh advance bump get_watermark latest_candle merge_tick
  Saved-fresh db st t v = elim (Bool-cases (lt_ℤ st.current.bucket_ts (bucket_for t.ts))) [
    | inl l ↦
        rw (v.open_candle, l)
          (record {
            seen = refl;
            open_candle = refl;
            own = refl;
            watermark = get-put_self t.token t.seq db.watermarks;
            latest =
                latest_of-upsert_new t.token (first_candle t) (upsert_candle st.current db.candles)
                  refl
                  (subst (IsBelow (bucket_for t.ts))
                    (sym (
                      latest_of-upsert_known t.token st.current st.current db.candles v.own refl
                        v.latest))
                    l);
          })
    | inr l ↦
        rw (v.open_candle, l)
          (record {
            seen = refl;
            open_candle = refl;
            own = v.own;
            watermark = get-put_self t.token t.seq db.watermarks;
            latest =
                latest_of-upsert_known t.token (merge_tick st.current t) st.current db.candles v.own
                  refl v.latest;
          })
  ]
