-- ===== src/Actor/OcoRun.antt =====
-- The one-cancels-other rule of internal/instrument over whole messages and runs.
use optionx_assignment.Common.{
  ℕ, zero, suc, ◌&&◌, String, List, [], ◌∷◌, none, some, get, put, get-put_self, ◌≡◌, ◌≢◌, refl,
  sym, inl, inr, arith, str_eq_iff, str_eq-cases, Bool-cases, subst,
}
use optionx_assignment.Float.{Float64}
use optionx_assignment.Order.{Status, Order, would_fill}
use optionx_assignment.Actor.State.{ActorState, store_order, pending_count}
use optionx_assignment.Actor.Filling.{
  Schedule, FillFun, commit_fill, as_filled, activate_order, activate_at, activate_children,
  cancel_sibling, fill_body, fill_upto, fill_order,
}
use optionx_assignment.Actor.Steps.{CanFill, activate, IsKeyed}
use optionx_assignment.Actor.Keyed.{
  orders-store_order, orders-commit_fill, orders-publish, Steps-IsKeyed,
}
use optionx_assignment.Actor.Cases.{activate_at_cases}
use optionx_assignment.Actor.Refine.{
  Runs-refl, Runs-store, RefinesFill, commit_fill-Runs, activate_at-Runs, fill_upto-Runs,
  fill_order-Runs,
}
use optionx_assignment.Actor.Termination.{fill_order_lem}
use optionx_assignment.Actor.Paired.{IsPaired, HasEntriesBut, join-IsPaired, join-HasEntries}
use optionx_assignment.Actor.Oco.{
  IsOco, resting-IsOco, plain_fill-IsOco, activate_children-none, cancel_sibling-IsOco,
}

module _ ⦃fl : Float64⦄ where
  -- A fill function that keeps the rule when it fills a resting order of the map.
  abbrev pub KeepsOco : FillFun → Type 0
  KeepsOco f =
      (s : ActorState) (o : Order)
      → IsKeyed s.orders
      → CanFill s o
      → get o.id s.orders ≡ some o
      → o.status ≡ Status.resting
      → IsOco s.orders
      → IsOco (f s o s.last_ltp).orders

  activate_order-IsOco :
      (f : FillFun)
      → KeepsOco f
      → (s : ActorState) (o : Order) → IsKeyed s.orders
      → get o.id s.orders ≡ some o
      → o.status ≡ Status.pending
      → IsOco s.orders
      → IsOco (activate_order f s o.id o).orders
  unfolding activate_order
  activate_order-IsOco f hf s o k g pend v =
      elim (Bool-cases (s'.has_ltp && would_fill r s'.last_ltp)) [
        | inl h ↦ rw h (
            hf s' r (Steps-IsKeyed (Runs-store s r (activate o g pend)).steps k)
              (record {
                priced = ground arith;
                crosses = ground arith;
                open_order = inl (there, refl);
              })
              there refl rested)
        | inr h ↦ rw h rested
      ]
    where
      r : Order
      r = record o { status = Status.resting }

      s' : ActorState
      s' = store_order s o.id r

      rested : IsOco s'.orders
      rested = rw (orders-store_order s o.id r) (resting-IsOco s.orders o g pend v)

      there : get o.id s'.orders ≡ some r
      there = rw (orders-store_order s o.id r) (get-put_self o.id r s.orders)

  activate_children-IsOco :
      (f : FillFun)
      → KeepsOco f
      → RefinesFill f
      → (entry : String) (ids : List String) (s : ActorState) → IsKeyed s.orders
      → IsOco s.orders
      → IsOco (activate_children f entry ids s).orders
  unfolding activate_children
  activate_children-IsOco f hf hr entry [] s k v = v
  activate_children-IsOco f hf hr entry (id ∷ ids) s k v =
      activate_children-IsOco f hf hr entry ids (activate_at f entry s id)
        (Steps-IsKeyed (activate_at-Runs f hr entry s id k).steps k)
        (activate_at_cases (λ t. IsOco t.orders) f entry s id k v
          (λ o g e pend. activate_order-IsOco f hf s o k g pend v))

  cancel_sibling-plain : (s : ActorState) (o : Order) → o.sibling_id ≡ "" → cancel_sibling s o ≡ s
  unfolding cancel_sibling
  cancel_sibling-plain s o e = rw ((str_eq_iff o.sibling_id "").1 e)

  -- Filling an order that is no leg, once it is committed.
  after_commit-IsOco :
      (sched : Schedule) (f : FillFun)
      → KeepsOco f
      → RefinesFill f
      → (s : ActorState) (o : Order) → IsKeyed s.orders
      → CanFill s o
      → o.sibling_id ≡ ""
      → IsOco (put o.id (as_filled o) s.orders)
      → IsOco (fill_body sched f s o s.last_ltp).orders
  unfolding fill_body
  after_commit-IsOco sched f hf hr s o k c plain v =
      let s₁ = commit_fill s o s.last_ltp in
      let s₂ = activate_children f o.id (sched s₁) s₁ in
      rw
        (
          orders-publish (cancel_sibling s₂ (as_filled o)),
          cancel_sibling-plain s₂ (as_filled o) plain,
        )
        (activate_children-IsOco f hf hr o.id (sched s₁) s₁
          (Steps-IsKeyed (commit_fill-Runs s o c).steps k)
          (rw (orders-commit_fill s o s.last_ltp) v))

  leg_fill_body-IsOco :
      (sched : Schedule) (f : FillFun) (s : ActorState) (o : Order)
      → IsKeyed s.orders
      → CanFill s o
      → get o.id s.orders ≡ some o
      → o.status ≡ Status.resting
      → o.sibling_id ≢ ""
      → IsOco s.orders
      → IsOco (fill_body sched f s o s.last_ltp).orders
  unfolding fill_body
  leg_fill_body-IsOco sched f s o k c g rests leg v =
      let s₁ = commit_fill s o s.last_ltp in
      let s₂ = activate_children f o.id (sched s₁) s₁ in
      rw (orders-publish (cancel_sibling s₂ (as_filled o))) (
        subst (λ t. IsOco (cancel_sibling t (as_filled o)).orders)
          (sym (activate_children-none s o k c g rests leg v f (sched s₁)))
          (cancel_sibling-IsOco s o k c g rests leg v))

  fill_body-KeepsOco :
      (sched : Schedule) (f : FillFun) → KeepsOco f → RefinesFill f → KeepsOco (fill_body sched f)
  fill_body-KeepsOco sched f hf hr s o k c g rests v = elim (str_eq-cases o.sibling_id "") [
    | inl (_, plain) ↦
        after_commit-IsOco sched f hf hr s o k c plain (plain_fill-IsOco s.orders o g plain v)
    | inr (_, leg) ↦ leg_fill_body-IsOco sched f s o k c g rests leg v
  ]

  fill_upto-KeepsOco : (n : ℕ) (sched : Schedule) → KeepsOco (fill_upto n sched)
  unfolding fill_upto
  fill_upto-KeepsOco zero sched =
      fill_body-KeepsOco sched (λ s o p. s) (λ s o k c g r v. v) (λ s o k c. Runs-refl s)
  fill_upto-KeepsOco (suc n) sched =
      fill_body-KeepsOco sched (fill_upto n sched) (fill_upto-KeepsOco n sched)
        (fill_upto-Runs n sched)

  pub fill_order-KeepsOco : (sched : Schedule) → KeepsOco (fill_order sched)
  unfolding fill_order
  fill_order-KeepsOco sched s o = fill_upto-KeepsOco (pending_count s.orders) sched s o

  -- A new order that is no leg fills on the spot, perhaps as the entry of waiting children.
  pub fresh_fill-IsOco :
      (sched : Schedule) (s : ActorState) (o : Order)
      → IsKeyed s.orders
      → CanFill s o
      → get o.id s.orders ≡ none
      → o.sibling_id ≡ ""
      → IsPaired s.orders
      → HasEntriesBut o.id s.orders
      → IsOco (fill_order sched s o s.last_ltp).orders
  fresh_fill-IsOco sched s o k c new plain pairs entries =
      rw (fill_order_lem sched s o s.last_ltp) (
        after_commit-IsOco sched (fill_order sched) (fill_order-KeepsOco sched)
          (fill_order-Runs sched) s o k c plain
          (record {
            paired = join-IsPaired s.orders (as_filled o) new plain pairs;
            entries = join-HasEntries s.orders (as_filled o) new plain (λ e. cc) entries;
          }))
