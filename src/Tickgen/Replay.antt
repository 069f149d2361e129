-- ===== src/Tickgen/Replay.antt =====
-- The flag -from of tickgen: a stream that starts later is the same stream without its first events.
use optionx_assignment.Common.{
  ℕ, zero, suc, ◌+◌, ◌<◌, ◌≤◌, half64, Bool, true, false, List, [], ◌∷◌, drop, ℤ, pos, le_ℤ, add64,
  add64_next, ◌≡◌, refl, sym, ◌∙◌, ap, arith, if◌then◌else◌,
}
use optionx_assignment.Float.{Float64}
use optionx_assignment.Tickgen.{
  Libraries, Event, Walk, start_walk, walk_round, stream_rounds, stream,
}

module _ ⦃fl : Float64⦄ (lib : Libraries) where
  -- The events of so many rounds, and the variables behind them.
  unfoldable pub trace : ℕ → Walk lib → List Event
  trace zero w = []
  trace (suc n) w = let r = walk_round lib w in r.event ∷ trace n r.walk

  unfoldable pub walk_after : ℕ → Walk lib → Walk lib
  walk_after zero w = w
  walk_after (suc n) w = walk_after n (walk_round lib w).walk

  -- Events handed to emit, the first under the index `j`, until it says no.
  unfoldable pub emit_all {ℓ} :
      {S : Type ℓ} → (ℤ → Event → S → S × Bool) → ℕ → List Event → S → S × Bool
  emit_all emit j [] s = (s, false)
  emit_all emit j (e ∷ es) s =
      let (s', more) = emit (pos j) e s in
      let rest = emit_all emit (suc j) es s' in if more then rest else (s', true)

  drop-trace : (k n : ℕ) (w : Walk lib) → drop k (trace (k + n) w) ≡ trace n (walk_after k w)
  unfolding trace walk_after
  drop-trace zero n w = ap (λ m. trace m w) (omega arith)
  drop-trace (suc k) n w =
      let e : suc k + n ≡ suc (k + n) = omega arith in
      ap (λ m. drop (suc k) (trace m w)) e ∙ drop-trace k n (walk_round lib w).walk

  -- Past the first index to emit.
  stream_rounds-emit_all {ℓ} :
      {S : Type ℓ} (n j from : ℕ) (emit : ℤ → Event → S → S × Bool) (w : Walk lib) (s : S)
      → from ≤ j
      → j + n < half64
      → stream_rounds lib n (pos from) emit (pos j) w s ≡ emit_all emit j (trace n w) s
  unfolding stream_rounds emit_all trace
  stream_rounds-emit_all zero j from emit w s h b = refl
  stream_rounds-emit_all (suc n) j from emit w s h b =
      let r = walk_round lib w in
      let next : add64 (pos j) (pos 1) ≡ pos (suc j) = add64_next j (omega arith) in
      let due : le_ℤ (pos from) (pos j) ≡ true = ground arith in
      let later =
        stream_rounds-emit_all n (suc j) from emit r.walk (emit (pos j) r.event s).0 (omega arith)
          (omega arith) in
      ap
        (λ b.
          if b
          then (if (emit (pos j) r.event s).1
              then stream_rounds lib n (pos from) emit (add64 (pos j) (pos 1)) r.walk
                  (emit (pos j) r.event s).0
              else ((emit (pos j) r.event s).0, true))
          else stream_rounds lib n (pos from) emit (add64 (pos j) (pos 1)) r.walk s)
        due
      ∙ ap (λ x. if (emit (pos j) r.event s).1 then x else ((emit (pos j) r.event s).0, true))
          (ap (λ i. stream_rounds lib n (pos from) emit i r.walk (emit (pos j) r.event s).0) next
            ∙ later)

  stream_rounds-skip {ℓ} :
      {S : Type ℓ} (k n j : ℕ) (emit : ℤ → Event → S → S × Bool) (w : Walk lib) (s : S)
      → j + k + n < half64
      → stream_rounds lib (k + n) (pos (j + k)) emit (pos j) w s
        ≡ emit_all emit (j + k) (trace n (walk_after k w)) s
  unfolding stream_rounds walk_after
  stream_rounds-skip zero n j emit w s b =
      let e : j + 0 ≡ j = omega arith in
      let z : 0 + n ≡ n = omega arith in
      ap (λ m. stream_rounds lib m (pos (j + 0)) emit (pos j) w s) z
      ∙ ap (λ i. stream_rounds lib n (pos i) emit (pos j) w s) e
      ∙ stream_rounds-emit_all n j j emit w s (omega arith) (omega arith)
      ∙ ap (λ i. emit_all emit i (trace n w) s) (sym e)
  stream_rounds-skip (suc k) n j emit w s b =
      let r = walk_round lib w in
      let from = pos (j + suc k) in
      let next : add64 (pos j) (pos 1) ≡ pos (suc j) = add64_next j (omega arith) in
      let early : le_ℤ from (pos j) ≡ false = ground arith in
      let e : suc k + n ≡ suc (k + n) = omega arith in
      let f : j + suc k ≡ suc j + k = omega arith in
      ap (λ m. stream_rounds lib m from emit (pos j) w s) e
      ∙ ap
          (λ b.
            if b
            then (if (emit (pos j) r.event s).1
                then stream_rounds lib (k + n) from emit (add64 (pos j) (pos 1)) r.walk
                    (emit (pos j) r.event s).0
                else ((emit (pos j) r.event s).0, true))
            else stream_rounds lib (k + n) from emit (add64 (pos j) (pos 1)) r.walk s)
          early
      ∙ ap (λ i. stream_rounds lib (k + n) from emit i r.walk s) next
      ∙ ap (λ i. stream_rounds lib (k + n) (pos i) emit (pos (suc j)) r.walk s) f
      ∙ stream_rounds-skip k n (suc j) emit r.walk s (omega arith)
      ∙ ap (λ i. emit_all emit i (trace n (walk_after k r.walk)) s) (sym f)

  -- With -from k, emit is called for the events of the stream from the beginning, less the first k, in
  -- order and with their indices from k on, until it says no: for k + n rounds, fewer than 2^63.
  pub stream-from {ℓ} :
      {S : Type ℓ} (k n : ℕ) (seed : ℤ) (emit : ℤ → Event → S → S × Bool) (s : S)
      → k + n < half64
      → stream lib (k + n) seed (pos k) emit s
        ≡ emit_all emit k (drop k (trace (k + n) (start_walk lib seed))) s
  unfolding stream
  stream-from k n seed emit s b =
      let e : 0 + k ≡ k = omega arith in
      ap (λ i. stream_rounds lib (k + n) (pos i) emit (pos 0) (start_walk lib seed) s) (sym e)
      ∙ stream_rounds-skip k n 0 emit (start_walk lib seed) s (omega arith)
      ∙ ap (λ i. emit_all emit i (trace n (walk_after k (start_walk lib seed))) s) e
      ∙ ap (λ es. emit_all emit k es s) (sym (drop-trace k n (start_walk lib seed)))
