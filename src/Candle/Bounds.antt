-- ===== src/Candle/Bounds.antt =====
-- The prices of a candle of internal/candle lie between its low and its high, and its time is the
-- start of a minute. That takes laws of float64, which fail for NaN alone, and no JSON number is NaN.
use optionx_assignment.Common.{
  true, false, String, List, [], ◌∷◌, Option, none, some, ℤ, pos, negsuc, get, put, lt_ℤ,
  get-put_self, get-put_ne, ◌≡◌, inl, inr, sym, ◌∙◌, ap, subst, arith, str_eq-cases, if◌then◌else◌,
  Bool-cases, Option-cases,
}
use optionx_assignment.Float.{Float64, Price}
use optionx_assignment.Candle.{
  bucket_for, Tick, Candle, InstrumentState, ApplyResult, Aggregator, first_candle, merge_tick,
  advance, state_at, is_duplicate, apply_fresh, apply, apply_all, duplicate_result,
}
use optionx_assignment.Candle.Replay.{next_state, apply_lem}

bucket_for-bucket_for : (ts : ℤ) → bucket_for (bucket_for ts) ≡ bucket_for ts
unfolding bucket_for
bucket_for-bucket_for (pos n) = ap pos (omega arith)
bucket_for-bucket_for (negsuc n) = ap negsuc (omega arith)

module _ ⦃fl : Float64⦄ where
  -- The order of float64 on the values that are not NaN, and math.Max and math.Min there.
  pub record OrderLaws : Type 1 where
    pub IsNumber : Price → Type 0
    pub le_refl : (a : Price) → IsNumber a → fl.le a a ≡ true
    pub le_trans : (a b c : Price) → fl.le a b ≡ true → fl.le b c ≡ true → fl.le a c ≡ true
    pub larger-IsNumber : (a b : Price) → IsNumber a → IsNumber b → IsNumber (fl.larger a b)
    pub larger_left : (a b : Price) → IsNumber a → IsNumber b → fl.le a (fl.larger a b) ≡ true
    pub larger_right : (a b : Price) → IsNumber a → IsNumber b → fl.le b (fl.larger a b) ≡ true
    pub smaller-IsNumber : (a b : Price) → IsNumber a → IsNumber b → IsNumber (fl.smaller a b)
    pub smaller_left : (a b : Price) → IsNumber a → IsNumber b → fl.le (fl.smaller a b) a ≡ true
    pub smaller_right : (a b : Price) → IsNumber a → IsNumber b → fl.le (fl.smaller a b) b ≡ true

  module _ (laws : OrderLaws) where
    open laws use {IsNumber, le_refl, le_trans}

    pub record IsBar (c : Candle) : Type 0 where
      pub high : IsNumber c.high
      pub low : IsNumber c.low
      pub low_open : fl.le c.low c.open_price ≡ true
      pub open_high : fl.le c.open_price c.high ≡ true
      pub low_close : fl.le c.low c.close ≡ true
      pub close_high : fl.le c.close c.high ≡ true
      pub starts : bucket_for c.bucket_ts ≡ c.bucket_ts

    pub first_candle-IsBar : (t : Tick) → IsNumber t.ltp → IsBar (first_candle t)
    first_candle-IsBar t n = record {
      high = n;
      low = n;
      low_open = le_refl t.ltp n;
      open_high = le_refl t.ltp n;
      low_close = le_refl t.ltp n;
      close_high = le_refl t.ltp n;
      starts = bucket_for-bucket_for t.ts;
    }

    pub merge_tick-IsBar :
        (c : Candle) (t : Tick) → IsBar c → IsNumber t.ltp → IsBar (merge_tick c t)
    unfolding merge_tick
    merge_tick-IsBar c t b n = record {
      high = laws.larger-IsNumber c.high t.ltp b.high n;
      low = laws.smaller-IsNumber c.low t.ltp b.low n;
      low_open = le_trans _ c.low _ (laws.smaller_left c.low t.ltp b.low n) b.low_open;
      open_high = le_trans _ c.high _ b.open_high (laws.larger_left c.high t.ltp b.high n);
      low_close = laws.smaller_right c.low t.ltp b.low n;
      close_high = laws.larger_right c.high t.ltp b.high n;
      starts = b.starts;
    }

    abbrev pub IsBarOr : Option Candle → Type 0
    IsBarOr none = Unit
    IsBarOr (some c) = IsBar c

    abbrev pub OpenIsBar : InstrumentState → Type 0
    OpenIsBar st = st.has_open ≡ true → IsBar st.current

    advance-IsBar :
        (st : InstrumentState) (t : Tick)
        → OpenIsBar st
        → IsNumber t.ltp
        → IsBar (advance st t).0 × IsBarOr (advance st t).1
    unfolding advance
    advance-IsBar st t b n = elim (Bool-cases st.has_open) [
      | inr h ↦ rw h (first_candle-IsBar t n, tt)
      | inl h ↦ elim (Bool-cases (lt_ℤ st.current.bucket_ts (bucket_for t.ts))) [
        | inl later ↦ rw (h, later) (first_candle-IsBar t n, b h)
        | inr same ↦ rw (h, same) (merge_tick-IsBar st.current t (b h) n, tt)
      ]
    ]

    -- Every candle that Apply returns for a tick that is no duplicate.
    abbrev pub ResultIsBar : ApplyResult → Type 0
    ResultIsBar r = r.duplicate ≡ false → IsBar r.current × IsBarOr r.closed

    abbrev pub AllOpenAreBars : Aggregator → Type 0
    AllOpenAreBars a = (k : String) (st : InstrumentState) → get k a ≡ some st → OpenIsBar st

    pub state_at-OpenIsBar :
        (a : Aggregator) (token : String) → AllOpenAreBars a → OpenIsBar (state_at token a)
    state_at-OpenIsBar a token all = elim (Option-cases (get token a)) [
      | inl g ↦ rw (g, state_at) (λ open_candle. cc)
      | inr (st, g) ↦ rw (g, state_at) (all token st g)
    ]

    result-apply :
        (a : Aggregator) (t : Tick)
        → (apply a t).1 ≡ (
            if is_duplicate (state_at t.token a) t
            then duplicate_result
            else (apply_fresh (state_at t.token a) t).1)
    unfolding apply
    result-apply a t = ground arith

    next_state-OpenIsBar :
        (st : InstrumentState) (t : Tick)
        → OpenIsBar st
        → IsNumber t.ltp
        → OpenIsBar (next_state st t)
    unfolding apply_fresh
    next_state-OpenIsBar st t b n = elim (Bool-cases (is_duplicate st t)) [
      | inl d ↦ rw d b
      | inr d ↦ rw d (λ open_candle. (advance-IsBar st t b n).0)
    ]

    apply-ResultIsBar :
        (a : Aggregator) (t : Tick) → AllOpenAreBars a → IsNumber t.ltp → ResultIsBar (apply a t).1
    unfolding apply_fresh
    apply-ResultIsBar a t all n =
        let st = state_at t.token a in
        elim (Bool-cases (is_duplicate st t)) [
          | inl d ↦ rw (result-apply a t, d) (λ fresh. cc)
          | inr d ↦
              rw (result-apply a t, d)
                (λ fresh. advance-IsBar st t (state_at-OpenIsBar a t.token all) n)
        ]

    pub apply-AllOpenAreBars :
        (a : Aggregator) (t : Tick)
        → AllOpenAreBars a
        → IsNumber t.ltp
        → AllOpenAreBars (apply a t).0
    apply-AllOpenAreBars a t all n k st g =
        let mine = next_state (state_at t.token a) t in
        let g' : get k (put t.token mine a) ≡ some st = ap (get k) (sym (apply_lem a t)) ∙ g in
        elim (str_eq-cases t.token k) [
          | inl (_, own) ↦
              let same : some mine ≡ some st =
                sym (get-put_self t.token mine a) ∙ ap (λ x. get x (put t.token mine a)) own ∙ g' in
              let is_mine : mine ≡ st = cc in
              subst OpenIsBar is_mine
                (next_state-OpenIsBar (state_at t.token a) t (state_at-OpenIsBar a t.token all) n)
          | inr (_, other) ↦ all k st (sym (get-put_ne t.token k mine a other) ∙ g')
        ]

    -- What Apply returns for one tick after another.
    unfoldable pub results : Aggregator → List Tick → List ApplyResult
    results a [] = []
    results a (t ∷ ts) = let (a', r) = apply a t in r ∷ results a' ts

    abbrev pub AllNumbers : List Tick → Type 0
    AllNumbers [] = Unit
    AllNumbers (t ∷ ts) = IsNumber t.ltp × AllNumbers ts

    abbrev pub AllResultsAreBars : List ApplyResult → Type 0
    AllResultsAreBars [] = Unit
    AllResultsAreBars (r ∷ rs) = ResultIsBar r × AllResultsAreBars rs

    results-AllBars :
        (a : Aggregator) (ts : List Tick)
        → AllOpenAreBars a
        → AllNumbers ts
        → AllResultsAreBars (results a ts) × AllOpenAreBars (apply_all a ts)
    unfolding results apply_all
    results-AllBars a [] all n = (tt, all)
    results-AllBars a (t ∷ ts) all n =
        let rest = results-AllBars (apply a t).0 ts (apply-AllOpenAreBars a t all n.0) n.1 in
        ((apply-ResultIsBar a t all n.0, rest.0), rest.1)

    -- For every stream of ticks whose prices are numbers, every candle that Apply returns for a tick
    -- that is no duplicate, the closed one included, and every open candle after it has low ≤ open ≤
    -- high and low ≤ close ≤ high, and starts at a full minute.
    pub results-IsBar :
        (ts : List Tick)
        → AllNumbers ts
        → AllResultsAreBars (results [] ts) × AllOpenAreBars (apply_all [] ts)
    unfolding get
    results-IsBar ts n = results-AllBars [] ts (λ k st g. cc) n
