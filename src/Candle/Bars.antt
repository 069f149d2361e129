-- ===== src/Candle/Bars.antt =====
-- The states of internal/candle against a description that keeps the ticks themselves: a candle is
-- the bar of the ticks of its bucket.
use optionx_assignment.Common.{
  ℕ, suc, true, String, List, [], ◌∷◌, ◌++◌, ℤ, pos, ◌+ℤ◌, le_ℤ, lt_ℤ, add64, wrap64, wrap64-add,
  put, get-put, ◌≡◌, refl, ◌∙◌, ap, inl, inr, arith, ◌==◌, str_eq-cases, if◌then◌else◌, Bool-cases,
}
use optionx_assignment.Float.{Float64, Price}
use optionx_assignment.Candle.{
  bucket_for, Tick, Candle, InstrumentState, Aggregator, empty_state, merge_tick, advance,
  is_duplicate, apply_fresh, state_at, apply, apply_all,
}
use optionx_assignment.Candle.Replay.{next_state, apply_lem}

module _ ⦃fl : Float64⦄ where
  -- The ticks of one bucket: the first, and the others, newest last.
  pub record Bar : Type 0 where
    pub first : Tick
    pub rest : List Tick

  abbrev pub highest : Price → List Tick → Price
  highest p [] = p
  highest p (t ∷ ts) = highest (fl.larger p t.ltp) ts

  abbrev pub lowest : Price → List Tick → Price
  lowest p [] = p
  lowest p (t ∷ ts) = lowest (fl.smaller p t.ltp) ts

  abbrev pub latest : Price → List Tick → Price
  latest p [] = p
  latest p (t ∷ ts) = latest t.ltp ts

  abbrev pub count_ticks : List Tick → ℕ
  count_ticks [] = 0
  count_ticks (t ∷ ts) = suc (count_ticks ts)

  -- The bar's candle: the first price, the extremes, the last price and the number of ticks.
  abbrev pub candle_of : Bar → Candle
  candle_of b = record {
    token = b.first.token;
    bucket_ts = bucket_for b.first.ts;
    open_price = b.first.ltp;
    high = highest b.first.ltp b.rest;
    low = lowest b.first.ltp b.rest;
    close = latest b.first.ltp b.rest;
    tick_count = wrap64 (pos (suc (count_ticks b.rest)));
  }

  -- One instrument: no tick yet, or the last sequence number and the bar that is open.
  pub data Track : Type 0 where
    unseen : Track
    seen : ℤ → Bar → Track

  abbrev pub grow : Bar → Tick → Bar
  grow b t =
      if lt_ℤ (bucket_for b.first.ts) (bucket_for t.ts)
      then record { first = t; rest = [] }
      else record b { rest = b.rest ++ t ∷ [] }

  abbrev pub follow : Track → Tick → Track
  follow unseen t = seen t.seq (record { first = t; rest = [] })
  follow (seen n b) t = if le_ℤ t.seq n then seen n b else seen t.seq (grow b t)

  abbrev pub to_state : Track → InstrumentState
  to_state unseen = empty_state
  to_state (seen n b) = record {
    last_seq = n;
    has_seen = true;
    current = candle_of b;
    has_open = true;
  }

  highest-snoc :
      (p : Price) (ts : List Tick) (t : Tick)
      → highest p (ts ++ t ∷ []) ≡ fl.larger (highest p ts) t.ltp
  highest-snoc p [] t = refl
  highest-snoc p (u ∷ ts) t = highest-snoc (fl.larger p u.ltp) ts t

  lowest-snoc :
      (p : Price) (ts : List Tick) (t : Tick)
      → lowest p (ts ++ t ∷ []) ≡ fl.smaller (lowest p ts) t.ltp
  lowest-snoc p [] t = refl
  lowest-snoc p (u ∷ ts) t = lowest-snoc (fl.smaller p u.ltp) ts t

  latest-snoc : (p : Price) (ts : List Tick) (t : Tick) → latest p (ts ++ t ∷ []) ≡ t.ltp
  latest-snoc p [] t = refl
  latest-snoc p (u ∷ ts) t = latest-snoc u.ltp ts t

  count_ticks-snoc : (ts : List Tick) (t : Tick) → count_ticks (ts ++ t ∷ []) ≡ suc (count_ticks ts)
  count_ticks-snoc [] t = refl
  count_ticks-snoc (u ∷ ts) t = ap suc (count_ticks-snoc ts t)

  count_step : (n : ℕ) → add64 (wrap64 (pos (suc n))) (pos 1) ≡ wrap64 (pos (suc (suc n)))
  unfolding add64 ◌+ℤ◌
  count_step n = wrap64-add (pos (suc n)) (pos 1) ∙ ap wrap64 (ground arith)

  -- Merging a tick into a bar's candle gives the candle of the longer bar.
  merge_tick-candle_of :
      (b : Bar) (t : Tick)
      → merge_tick (candle_of b) t ≡ candle_of (record b { rest = b.rest ++ t ∷ [] })
  unfolding merge_tick
  merge_tick-candle_of b t = ground (
    arith,
    highest-snoc b.first.ltp b.rest t,
    lowest-snoc b.first.ltp b.rest t,
    latest-snoc b.first.ltp b.rest t,
    count_ticks-snoc b.rest t,
    count_step (count_ticks b.rest),
  )

  advance-candle_of :
      (n : ℤ) (b : Bar) (t : Tick) → (advance (to_state (seen n b)) t).0 ≡ candle_of (grow b t)
  unfolding advance wrap64
  advance-candle_of n b t = elim (Bool-cases (lt_ℤ (bucket_for b.first.ts) (bucket_for t.ts))) [
    | inl h ↦ rw h refl
    | inr h ↦ rw h (merge_tick-candle_of b t)
  ]

  -- One tick: the code's next state is the state of the description's next track.
  next_state-to_state : (k : Track) (t : Tick) → next_state (to_state k) t ≡ to_state (follow k t)
  unfolding is_duplicate apply_fresh wrap64
  next_state-to_state unseen t = unfold advance in refl
  next_state-to_state (seen n b) t = elim (Bool-cases (le_ℤ t.seq n)) [
    | inl h ↦ rw h refl
    | inr h ↦ rw h (
        ap (λ c. record { last_seq = t.seq; has_seen = true; current = c; has_open = true })
          (advance-candle_of n b t))
  ]

  -- The ticks of one instrument, in the order of the stream.
  abbrev pub ticks_of : String → List Tick → List Tick
  ticks_of token [] = []
  ticks_of token (t ∷ ts) =
      let rest = ticks_of token ts in if t.token == token then t ∷ rest else rest

  abbrev pub follow_all : Track → List Tick → Track
  follow_all k [] = k
  follow_all k (t ∷ ts) = follow_all (follow k t) ts

  state_at-put :
      (j k : String) (st : InstrumentState) (a : Aggregator)
      → state_at k (put j st a) ≡ (if j == k then st else state_at k a)
  state_at-put j k st a = ground (arith, get-put j k st a)

  pub state_at-apply :
      (a : Aggregator) (token : String) (t : Tick)
      → state_at token (apply a t).0
        ≡ (if t.token == token then next_state (state_at token a) t else state_at token a)
  state_at-apply a token t = elim (str_eq-cases t.token token) [
    | inl (h, e) ↦
        rw (apply_lem a t, h)
          (state_at-put t.token token (next_state (state_at t.token a) t) a
            ∙ ap (λ b. if b then next_state (state_at t.token a) t else state_at token a) h
            ∙ ap (λ k. next_state (state_at k a) t) e)
    | inr (h, ne) ↦
        rw (apply_lem a t, h)
          (state_at-put t.token token (next_state (state_at t.token a) t) a
            ∙ ap (λ b. if b then next_state (state_at t.token a) t else state_at token a) h)
  ]

  -- For every stream of ticks and every instrument, the aggregator's state is that of the description
  -- that keeps the ticks: its watermark, and the open candle as first price, highest, lowest, last
  -- price and number of the fresh ticks of the open bucket. Ticks of other instruments do not matter.
  pub state_at-apply_all :
      (a : Aggregator) (token : String) (ts : List Tick) (k : Track)
      → state_at token a ≡ to_state k
      → state_at token (apply_all a ts) ≡ to_state (follow_all k (ticks_of token ts))
  unfolding apply_all
  state_at-apply_all a token [] k h = h
  state_at-apply_all a token (t ∷ ts) k h = elim (str_eq-cases t.token token) [
    | inl (c, e) ↦ rw c (
        state_at-apply_all (apply a t).0 token ts (follow k t) (
          state_at-apply a token t
          ∙ ap (λ b. if b then next_state (state_at token a) t else state_at token a) c
          ∙ ap (λ s. next_state s t) h
          ∙ next_state-to_state k t))
    | inr (c, ne) ↦ rw c (
        state_at-apply_all (apply a t).0 token ts k (
          state_at-apply a token t
          ∙ ap (λ b. if b then next_state (state_at token a) t else state_at token a) c
          ∙ h))
  ]
