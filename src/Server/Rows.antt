-- ===== src/Server/Rows.antt =====
-- One round of the tick loop of cmd/server for one instrument: its rows in the tables of
-- internal/storage against its state in the aggregator of internal/candle.
use optionx_assignment.Common.{
  false, String, List, Option, none, some, ℤ, lt_ℤ, get-put_ne, ◌≡◌, ◌≢◌, refl, sym, ◌∙◌, ap, inl,
  inr, ◌==◌, Bool-cases, subst,
}
use optionx_assignment.Float.{Float64}
use optionx_assignment.Candle.{
  Tick, Candle, InstrumentState, ApplyResult, merge_tick, advance, is_duplicate, apply_fresh,
  bucket_for,
}
use optionx_assignment.Candle.Replay.{next_state}
use optionx_assignment.Storage.Candles.{
  CandleTables, bump, get_watermark, latest_candle, latest_of, upsert_closed,
}
use optionx_assignment.Storage.Latest.{latest_of-upsert_other}
use optionx_assignment.Server.InStep.{
  Saved, InStep, tables_after, tables_after_lem, Unseen-fresh, Saved-fresh,
}

module _ ⦃fl : Float64⦄ where
  -- The instrument of the tick.
  pub own_step :
      (db : CandleTables) (st : InstrumentState) (t : Tick)
      → InStep db t.token st
      → InStep (tables_after db st t) t.token (next_state st t)
  own_step db st t v = elim (Bool-cases (is_duplicate st t)) [
    | inl d ↦ rw (tables_after_lem db st t v, d) v
    | inr d ↦ rw (tables_after_lem db st t v, d) (inr (fresh_step v))
  ]
    where
      fresh_step :
          InStep db t.token st
          → Saved (bump db t.token t.seq (apply_fresh st t).1) t.token (apply_fresh st t).0
      fresh_step (inl u) =
          subst (λ x. Saved (bump db t.token t.seq (apply_fresh x t).1) t.token (apply_fresh x t).0)
            (sym u.empty)
            (Unseen-fresh db t
              (record { empty = refl; no_watermark = u.no_watermark; no_candle = u.no_candle }))
      fresh_step (inr w) = Saved-fresh db st t w

  abbrev Owned : String → Option Candle → Type 0
  Owned token none = Unit
  Owned token (some c) = c.token ≡ token

  -- The candles that a fresh tick writes are its instrument's.
  result-Owned :
      (db : CandleTables) (st : InstrumentState) (t : Tick)
      → InStep db t.token st
      → ((apply_fresh st t).1.current.token ≡ t.token) × Owned t.token (apply_fresh st t).1.closed
  unfolding apply_fresh advance merge_tick
  result-Owned db st t (inl u) =
      subst
        (λ x.
          ((apply_fresh x t).1.current.token ≡ t.token) × Owned t.token (apply_fresh x t).1.closed)
        (sym u.empty) (refl, tt)
  result-Owned db st t (inr v) = elim (Bool-cases (lt_ℤ st.current.bucket_ts (bucket_for t.ts))) [
    | inl l ↦ rw (v.open_candle, l) (refl, v.own)
    | inr l ↦ rw (v.open_candle, l) (v.own, tt)
  ]

  latest_of-closed_other :
      (token own : String) (o : Option Candle) (cs : List Candle)
      → (own == token) ≡ false
      → Owned own o
      → latest_of token (upsert_closed o cs) ≡ latest_of token cs
  latest_of-closed_other token own none cs h w = refl
  latest_of-closed_other token own (some c) cs h w =
      latest_of-upsert_other token c cs (ap (λ x. x == token) w ∙ h)

  -- Any other instrument: its rows stay.
  latest_candle-bump_other :
      (db : CandleTables) (own token : String) (seq : ℤ) (r : ApplyResult)
      → (own == token) ≡ false
      → r.current.token ≡ own
      → Owned own r.closed
      → latest_candle (bump db own seq r) token ≡ latest_candle db token
  unfolding latest_candle bump
  latest_candle-bump_other db own token seq r h w c =
      latest_of-upsert_other token r.current (upsert_closed r.closed db.candles)
        (ap (λ x. x == token) w ∙ h)
      ∙ latest_of-closed_other token own r.closed db.candles h c

  get_watermark-bump_other :
      (db : CandleTables) (own token : String) (seq : ℤ) (r : ApplyResult)
      → own ≢ token
      → get_watermark (bump db own seq r) token ≡ get_watermark db token
  unfolding get_watermark bump
  get_watermark-bump_other db own token seq r ne = get-put_ne own token seq db.watermarks ne

  same_rows :
      (db db' : CandleTables) (token : String) (st : InstrumentState)
      → get_watermark db' token ≡ get_watermark db token
      → latest_candle db' token ≡ latest_candle db token
      → InStep db token st
      → InStep db' token st
  same_rows db db' token st w l (inl u) =
      inl
        (record { empty = u.empty; no_watermark = w ∙ u.no_watermark; no_candle = l ∙ u.no_candle })
  same_rows db db' token st w l (inr v) = inr (record {
    seen = v.seen;
    open_candle = v.open_candle;
    own = v.own;
    watermark = w ∙ v.watermark;
    latest = l ∙ v.latest;
  })

  pub other_step :
      (db : CandleTables) (own st : InstrumentState) (t : Tick) (token : String)
      → InStep db t.token own
      → (t.token == token) ≡ false
      → t.token ≢ token
      → InStep db token st
      → InStep (tables_after db own t) token st
  other_step db own st t token v h ne w = elim (Bool-cases (is_duplicate own t)) [
    | inl d ↦ rw (tables_after_lem db own t v, d) w
    | inr d ↦
        let r = (apply_fresh own t).1 in
        let (mine, closed) = result-Owned db own t v in
        rw (tables_after_lem db own t v, d)
          (same_rows db (bump db t.token t.seq r) token st
            (get_watermark-bump_other db t.token token t.seq r ne)
            (latest_candle-bump_other db t.token token t.seq r h mine closed) w)
  ]
