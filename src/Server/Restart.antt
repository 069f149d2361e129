-- ===== src/Server/Restart.antt =====
-- The start of cmd/server from the tables that an earlier process left: the aggregator goes on where it
-- was.
use optionx_assignment.Common.{
  true, false, String, List, [], ◌∷◌, Option, none, some, ℤ, lt_ℤ, Dict, get, put, get-put_self,
  get-put_ne, IsUnique, put-IsUnique, get-no_key, ◌≡◌, refl, sym, ◌∙◌, ap, inl, inr, str_eq-cases,
  if◌then◌else◌, Bool-cases, subst,
}
use optionx_assignment.Float.{Float64}
use optionx_assignment.Candle.{
  Tick, Candle, InstrumentState, Aggregator, empty_state, zero_candle, state_at, seed,
}
use optionx_assignment.Registry.{Exchange}
use optionx_assignment.Storage.Candles.{
  CandleTables, bump, latest_of, latest_by_token, newer, latest_candle, get_watermark,
  all_watermarks, all_latest_candles, seed_all, boot_aggregator, is_behind,
}
use optionx_assignment.Server.{Server, process_tick}
use optionx_assignment.Server.InStep.{InStep, result_of, tables_of-apply_tick}
use optionx_assignment.Server.Resume.{IsInStep, process_all, process_all-IsInStep, process_tick_lem}

module _ ⦃fl : Float64⦄ where
  newer-some : (c : Candle) (o : Option Candle) → (d : Candle) × (newer c o ≡ some d)
  newer-some c none = (c, refl)
  newer-some c (some d) = elim (Bool-cases (lt_ℤ c.bucket_ts d.bucket_ts)) [
    | inl h ↦ (d, ap (λ z. if z then some d else some c) h)
    | inr h ↦ (c, ap (λ z. if z then some d else some c) h)
  ]

  latest_by_token-cons :
      (c d : Candle) (cs : List Candle)
      → newer c (get c.token (latest_by_token cs)) ≡ some d
      → latest_by_token (c ∷ cs) ≡ put c.token d (latest_by_token cs)
  unfolding latest_by_token
  latest_by_token-cons c d cs n =
      ap (λ o. elim o [ none ↦ latest_by_token cs | some x ↦ put c.token x (latest_by_token cs) ]) n

  empty_table : (token : String) → get token (latest_by_token []) ≡ none
  unfolding get latest_by_token
  empty_table token = refl

  get-latest_by_token :
      (token : String) (cs : List Candle) → get token (latest_by_token cs) ≡ latest_of token cs
  unfolding get latest_of
  get-latest_by_token token [] = empty_table token
  get-latest_by_token token (c ∷ cs) =
      let (d, n) = newer-some c (get c.token (latest_by_token cs)) in
      elim (str_eq-cases c.token token) [
        | inl (h, e) ↦
            rw (latest_by_token-cons c d cs n, h)
              (ap (λ k. get k (put c.token d (latest_by_token cs))) (sym e)
                ∙ get-put_self c.token d (latest_by_token cs)
                ∙ sym n
                ∙ ap (newer c)
                    (ap (λ k. get k (latest_by_token cs)) e ∙ get-latest_by_token token cs))
        | inr (h, ne) ↦
            rw (latest_by_token-cons c d cs n, h)
              (get-put_ne c.token token d (latest_by_token cs) ne ∙ get-latest_by_token token cs)
      ]

  -- What Seed puts for an instrument.
  abbrev seeded : ℤ → Option Candle → InstrumentState
  seeded w none = record { last_seq = w; has_seen = true; current = zero_candle; has_open = false }
  seeded w (some c) = record { last_seq = w; has_seen = true; current = c; has_open = true }

  seed_lem :
      (a : Aggregator) (token : String) (w : ℤ) (o : Option Candle)
      → seed a token w o ≡ put token (seeded w o) a
  unfolding seed
  seed_lem a token w none = refl
  seed_lem a token w (some c) = refl

  abbrev seeded_at : Option ℤ → Option Candle → Option InstrumentState → Option InstrumentState
  seeded_at none c old = old
  seeded_at (some w) c old = some (seeded w c)

  get-seed_all :
      (token : String) (ws : Dict ℤ) (latest : Dict Candle) (a : Aggregator)
      → IsUnique ws
      → get token (seed_all ws latest a) ≡ seeded_at (get token ws) (get token latest) (get token a)
  unfolding seed_all get
  get-seed_all token [] latest a u = refl
  get-seed_all token ((k, w) ∷ ws) latest a (n, u) = rw (seed_lem a k w (get k latest)) (
      get-seed_all token ws latest (put k (seeded w (get k latest)) a) u
      ∙ elim (str_eq-cases k token) [
        | inl (h, e) ↦ rw h (
            subst
              (λ t.
                seeded_at (get t ws) (get t latest) (get t (put k (seeded w (get k latest)) a))
                ≡ some (seeded w (get t latest)))
              e
              (ap (λ o. seeded_at o (get k latest) (get k (put k (seeded w (get k latest)) a)))
                  (get-no_key k ws n)
                ∙ get-put_self k (seeded w (get k latest)) a))
        | inr (h, ne) ↦ rw h (
            ap (seeded_at (get token ws) (get token latest))
              (get-put_ne k token (seeded w (get k latest)) a ne))
      ])

  -- The aggregator that the start builds, one instrument of it.
  boot_state :
      (db : CandleTables) (token : String)
      → IsUnique db.watermarks
      → get token (boot_aggregator db)
        ≡ seeded_at (get_watermark db token) (latest_candle db token) none
  unfolding boot_aggregator all_watermarks all_latest_candles get_watermark latest_candle get
  boot_state db token u =
      get-seed_all token db.watermarks (latest_by_token db.candles) [] u
      ∙ ap (λ c. seeded_at (get token db.watermarks) c none) (get-latest_by_token token db.candles)

  abbrev or_empty : Option InstrumentState → InstrumentState
  or_empty o = elim o [ none ↦ empty_state | some st ↦ st ]

  state_at-or_empty : (token : String) (a : Aggregator) → state_at token a ≡ or_empty (get token a)
  state_at-or_empty token a = refl

  in_step_state :
      (db : CandleTables) (token : String) (st : InstrumentState)
      → InStep db token st
      → or_empty (seeded_at (get_watermark db token) (latest_candle db token) none) ≡ st
  in_step_state db token st (inl u) = rw u.no_watermark (sym u.empty)
  in_step_state db token st (inr v) =
      rw (v.watermark, v.latest)
        (ap (λ b. record st { has_seen = b; has_open = true }) (sym v.seen)
          ∙ ap (λ b. record st { has_open = b }) (sym v.open_candle))

  pub state_at-boot_aggregator :
      (sv : Server) (token : String)
      → IsUnique sv.tables.watermarks
      → IsInStep sv
      → state_at token (boot_aggregator sv.tables) ≡ state_at token sv.aggregator
  state_at-boot_aggregator sv token u v =
      state_at-or_empty token (boot_aggregator sv.tables)
      ∙ ap or_empty (boot_state sv.tables token u)
      ∙ in_step_state sv.tables token (state_at token sv.aggregator) (v token)

  watermarks-process_tick :
      (sv : Server) (t : Tick) (how : Exchange)
      → IsUnique sv.tables.watermarks
      → IsUnique (process_tick sv t true how).tables.watermarks
  unfolding bump
  watermarks-process_tick sv t how u =
      let r = result_of (state_at t.token sv.aggregator) t in
      subst (λ db. IsUnique db.watermarks)
        (sym ((process_tick_lem sv t how).1 ∙ tables_of-apply_tick sv.tables t.token t.seq r))
        (elim (Bool-cases (is_behind t.seq (get_watermark sv.tables t.token))) [
          | inl h ↦ rw h u
          | inr h ↦ rw h (put-IsUnique t.token t.seq sv.tables.watermarks u)
        ])

  pub watermarks-process_all :
      (sv : Server) (ts : List (Tick × Exchange))
      → IsUnique sv.tables.watermarks
      → IsUnique (process_all sv ts).tables.watermarks
  unfolding process_all
  watermarks-process_all sv [] u = u
  watermarks-process_all sv ((t, how) ∷ ts) u =
      watermarks-process_all (process_tick sv t true how) ts (watermarks-process_tick sv t how u)

  -- If the aggregator and the tables agree on every instrument and no instrument has two watermarks,
  -- then after any ticks, duplicates included, whose transactions the database carries out, an
  -- aggregator seeded from the tables at the start of a new process has, for every instrument, the
  -- watermark and the open candle of the old process.
  pub boot_aggregator-process_all :
      (sv : Server) (ts : List (Tick × Exchange)) (token : String)
      → IsUnique sv.tables.watermarks
      → IsInStep sv
      → state_at token (boot_aggregator (process_all sv ts).tables)
        ≡ state_at token (process_all sv ts).aggregator
  boot_aggregator-process_all sv ts token u v =
      state_at-boot_aggregator (process_all sv ts) token (watermarks-process_all sv ts u)
        (process_all-IsInStep sv ts v)
