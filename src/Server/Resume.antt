-- ===== src/Server/Resume.antt =====
-- The tick loop of cmd/server keeps the tables of internal/storage and the aggregator of
-- internal/candle in step, so that the aggregator can be seeded from the tables.
use optionx_assignment.Common.{
  true, String, List, [], ◌∷◌, ◌≡◌, refl, sym, ◌∙◌, ap, inl, inr, str_eq-cases, Bool-cases, subst,
}
use optionx_assignment.Float.{Float64}
use optionx_assignment.Candle.{Tick, Aggregator, is_duplicate, state_at, apply}
use optionx_assignment.Candle.Replay.{next_state}
use optionx_assignment.Candle.Bars.{state_at-apply}
use optionx_assignment.Registry.{Exchange}
use optionx_assignment.Storage.Candles.{Persisted, failed, fresh, duplicate, apply_tick}
use optionx_assignment.Server.{Server, deliver, process_tick}
use optionx_assignment.Server.InStep.{InStep, result_of, tables_after}
use optionx_assignment.Server.Rows.{own_step, other_step}

module _ ⦃fl : Float64⦄ where
  -- Every instrument of the server is in step.
  abbrev pub IsInStep : Server → Type 0
  IsInStep sv = (token : String) → InStep sv.tables token (state_at token sv.aggregator)

  pub deliver-keeps :
      (sv : Server) (t : Tick) (how : Exchange) (p : Persisted)
      → ((deliver sv t how p).aggregator ≡ sv.aggregator)
        × ((deliver sv t how p).tables ≡ sv.tables)
  unfolding deliver
  deliver-keeps sv t how failed = (refl, refl)
  deliver-keeps sv t how fresh = (refl, refl)
  deliver-keeps sv t how duplicate = (refl, refl)

  result-apply : (a : Aggregator) (t : Tick) → (apply a t).1 ≡ result_of (state_at t.token a) t
  unfolding apply
  result-apply a t = elim (Bool-cases (is_duplicate (state_at t.token a) t)) [
    | inl d ↦ rw d refl
    | inr d ↦ rw d refl
  ]

  pub process_tick_lem :
      (sv : Server) (t : Tick) (how : Exchange)
      → ((process_tick sv t true how).aggregator ≡ (apply sv.aggregator t).0)
        × ((process_tick sv t true how).tables
            ≡ tables_after sv.tables (state_at t.token sv.aggregator) t)
  unfolding process_tick
  process_tick_lem sv t how =
      let agg = (apply sv.aggregator t).0 in
      let r = (apply sv.aggregator t).1 in
      let after = apply_tick true sv.tables t.token t.seq r in
      let kept = deliver-keeps (record sv { aggregator = agg; tables = after.0 }) t how after.1 in
      (
        kept.0,
        kept.1
            ∙ ap (λ x. (apply_tick true sv.tables t.token t.seq x).0)
                (result-apply sv.aggregator t),
      )

  pub process_tick-IsInStep :
      (sv : Server) (t : Tick) (how : Exchange)
      → IsInStep sv
      → IsInStep (process_tick sv t true how)
  process_tick-IsInStep sv t how v token =
      let (agg, tables) = process_tick_lem sv t how in
      let st = state_at t.token sv.aggregator in
      subst (λ db. InStep db token (state_at token (process_tick sv t true how).aggregator))
        (sym tables)
        (subst (InStep (tables_after sv.tables st t) token)
          (sym (ap (state_at token) agg ∙ state_at-apply sv.aggregator token t))
          (elim (str_eq-cases t.token token) [
            | inl (h, e) ↦ rw h (
                subst
                  (λ k.
                    InStep (tables_after sv.tables st t) k
                      (next_state (state_at k sv.aggregator) t))
                  e (own_step sv.tables st t (v t.token)))
            | inr (h, ne) ↦ rw h (
                other_step sv.tables st (state_at token sv.aggregator) t token (v t.token) h ne
                  (v token))
          ]))

  -- The tick loop over ticks whose transactions are all carried out.
  unfoldable pub process_all : Server → List (Tick × Exchange) → Server
  process_all sv [] = sv
  process_all sv ((t, how) ∷ ts) = process_all (process_tick sv t true how) ts

  pub process_all-IsInStep :
      (sv : Server) (ts : List (Tick × Exchange)) → IsInStep sv → IsInStep (process_all sv ts)
  unfolding process_all
  process_all-IsInStep sv [] v = v
  process_all-IsInStep sv ((t, how) ∷ ts) v =
      process_all-IsInStep (process_tick sv t true how) ts (process_tick-IsInStep sv t how v)
