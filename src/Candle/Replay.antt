-- ===== src/Candle/Replay.antt =====
-- Replayed ticks leave the aggregator of internal/candle as it is.
use optionx_assignment.Common.{
  true, String, List, [], ◌∷◌, none, some, ℤ, ◌≤ℤ◌, Dict, get, put, get-put_self, get-put_ne, ◌≡◌,
  ◌⊎◌, inl, inr, refl, sym, ◌∙◌, ap, subst, arith, str_eq_iff, str_eq-cases, if◌then◌else◌,
}
use optionx_assignment.Float.{Float64}
use optionx_assignment.Candle.{
  Tick, InstrumentState, Aggregator, state_at, is_duplicate, apply_fresh, apply, apply_all,
  duplicate_result, empty_state,
}

module _ ⦃fl : Float64⦄ where
  -- The watermark of the tick's instrument has reached the tick.
  pub record IsCovered (a : Aggregator) (t : Tick) : Type 0 where
    pub state : InstrumentState
    pub found : get t.token a ≡ some state
    pub seen : state.has_seen ≡ true
    pub reached : t.seq ≤ℤ state.last_seq

  -- A tick that the watermark has reached is reported as a duplicate.
  pub covered_is_duplicate :
      (a : Aggregator) (t : Tick) → IsCovered a t → (apply a t).1 ≡ duplicate_result
  unfolding apply is_duplicate
  covered_is_duplicate a t c = rw (c.found, state_at) (ground (arith, c.seen, c.reached))

  put_same : {V : Type 0} (k : String) (v : V) (m : Dict V) → get k m ≡ some v → put k v m ≡ m
  unfolding put get
  put_same k v [] g = cc
  put_same k v ((j, w) ∷ m) g = ground (arith, str_eq_iff j k, put_same k v m)

  pub covered_unchanged : (a : Aggregator) (t : Tick) → IsCovered a t → (apply a t).0 ≡ a
  unfolding apply is_duplicate
  covered_unchanged a t c =
      rw (c.found, state_at) (ground (arith, c.seen, c.reached, put_same t.token c.state a c.found))

  -- What Apply stores, on either branch, for the tick's own instrument.
  abbrev pub next_state : InstrumentState → Tick → InstrumentState
  next_state st t = if is_duplicate st t then st else (apply_fresh st t).0

  pub apply_lem :
      (a : Aggregator) (t : Tick)
      → (apply a t).0 ≡ put t.token (next_state (state_at t.token a) t) a
  unfolding apply
  apply_lem a t = ground arith

  next_state-reached :
      (st : InstrumentState) (t : Tick)
      → ((next_state st t).has_seen ≡ true) × (t.seq ≤ℤ (next_state st t).last_seq)
  unfolding is_duplicate apply_fresh
  next_state-reached st t = ground arith

  next_state_mono :
      (st : InstrumentState) (t : Tick) (n : ℤ)
      → st.has_seen ≡ true
      → n ≤ℤ st.last_seq
      → ((next_state st t).has_seen ≡ true) × (n ≤ℤ (next_state st t).last_seq)
  unfolding is_duplicate apply_fresh
  next_state_mono st t n h k = ground arith

  -- A tick is covered once it is applied,
  pub apply-IsCovered : (a : Aggregator) (t : Tick) → IsCovered (apply a t).0 t
  apply-IsCovered a t =
      let st = next_state (state_at t.token a) t in
      let r = next_state-reached (state_at t.token a) t in
      record {
        state = st;
        found = rw (apply_lem a t) (get-put_self t.token st a);
        seen = r.0;
        reached = r.1;
      }

  -- and stays covered.
  IsCovered-stays : (a : Aggregator) (u t : Tick) → IsCovered a t → IsCovered (apply a u).0 t
  IsCovered-stays a u t c = elim (str_eq-cases u.token t.token) [
    | inl (_, e) ↦
        let st = next_state c.state u in
        let r = next_state_mono c.state u t.seq c.seen c.reached in
        let here : state_at u.token a ≡ c.state =
          ap (λ k. state_at k a) e ∙ ap (λ o. elim o [ none ↦ empty_state | some s ↦ s ]) c.found in
        record {
          state = st;
          found =
              rw (apply_lem a u, here)
                (subst (λ k. get k (put u.token st a) ≡ some st) e (get-put_self u.token st a));
          seen = r.0;
          reached = r.1;
        }
    | inr (_, ne) ↦ record {
      state = c.state;
      found = rw (apply_lem a u) (get-put_ne u.token t.token _ a ne ∙ c.found);
      seen = c.seen;
      reached = c.reached;
    }
  ]

  abbrev pub InTicks : Tick → List Tick → Type 0
  InTicks t [] = ⊥
  InTicks t (u ∷ us) = (t ≡ u) ⊎ InTicks t us

  abbrev pub AllIn : List Tick → List Tick → Type 0
  AllIn [] ts = Unit {0}
  AllIn (r ∷ rs) ts = InTicks r ts × AllIn rs ts

  IsCovered-through :
      (a : Aggregator) (ts : List Tick) (t : Tick) → IsCovered a t → IsCovered (apply_all a ts) t
  unfolding apply_all
  IsCovered-through a [] t c = c
  IsCovered-through a (u ∷ us) t c = IsCovered-through (apply a u).0 us t (IsCovered-stays a u t c)

  -- Every tick of a stream is covered once the stream is applied.
  pub apply_all-IsCovered :
      (a : Aggregator) (ts : List Tick) (t : Tick) → InTicks t ts → IsCovered (apply_all a ts) t
  unfolding apply_all
  apply_all-IsCovered a [] t m = absurd m
  apply_all-IsCovered a (u ∷ us) t (inl e) =
      IsCovered-through (apply a u).0 us t
        (subst (λ x. IsCovered (apply a u).0 x) (sym e) (apply-IsCovered a u))
  apply_all-IsCovered a (u ∷ us) t (inr m) = apply_all-IsCovered (apply a u).0 us t m

  -- A stream that is replayed from any earlier point, in any order and as often as one likes, leaves
  -- the aggregator exactly as it was: every candle, open or not, and every watermark.
  pub replay_unchanged :
      (a : Aggregator) (ts rs : List Tick)
      → AllIn rs ts
      → apply_all (apply_all a ts) rs ≡ apply_all a ts
  unfolding apply_all
  replay_unchanged a ts [] h = refl
  replay_unchanged a ts (r ∷ rs) h =
      ap (λ x. apply_all x rs)
        (covered_unchanged (apply_all a ts) r (apply_all-IsCovered a ts r h.0))
      ∙ replay_unchanged a ts rs h.1
