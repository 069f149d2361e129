-- ===== src/Actor/SettledRun.antt =====
-- Between two messages of an actor of internal/instrument no order rests at a price that fills it.
use optionx_assignment.Common.{
  true, ◌&&◌, String, List, [], ◌∷◌, InList, some, get, ◌≡◌, refl, sym, ◌∙◌, inl, inr, ◌⊎◌, arith,
  Bool-cases, Option-cases, subst,
}
use optionx_assignment.Float.{Float64, Price}
use optionx_assignment.Order.{Status, Order, would_fill}
use optionx_assignment.Actor.Messages.{
  Message, place_order, cancel_order, tick, snapshot, place_bracket,
}
use optionx_assignment.Actor.State.{ActorState, store_order}
use optionx_assignment.Actor.Filling.{Schedule}
use optionx_assignment.Actor.OrderHandlers.{accept_order, tick_at, tick_loop, handle_tick}
use optionx_assignment.Actor.Handle.{link, place_entry, store_children, accept_bracket, handle, run}
use optionx_assignment.Actor.Steps.{IsNew, IsKeyed}
use optionx_assignment.Actor.Keyed.{Steps-IsKeyed}
use optionx_assignment.Actor.Admission.{AreNew, AreDistinct}
use optionx_assignment.Actor.Cases.{
  place_order_cases, place_bracket_cases, cancel_order_cases, tick_at_cases,
}
use optionx_assignment.Actor.Refine.{Runs, store_order-price}
use optionx_assignment.Actor.RefineHandle.{
  as_child, fireable, tick_at-Runs, store_children_lem, ChildrenStored,
  store_children-ChildrenStored, handle-Steps, accept_order-Runs, accept_bracket-Runs,
}
use optionx_assignment.Actor.Settled.{Quiet, store-Quiet, publish-Quiet, fill_order-Quiet}

module _ ⦃fl : Float64⦄ where
  -- Go's promise of `range`: every key of the map is visited.
  abbrev pub VisitsAll : Schedule → Type 0
  VisitsAll sched =
      (s : ActorState) (id : String) (o : Order) → get id s.orders ≡ some o → InList id (sched s)

  abbrev pub AllVisit : List (Schedule × Message) → Type 0
  AllVisit [] = Unit {0}
  AllVisit ((sched, m) ∷ ms) = VisitsAll sched × AllVisit ms

  -- Once a price is known, no resting order is marketable at it.
  abbrev pub IsSettled : ActorState → Type 0
  IsSettled s = s.has_ltp ≡ true → (id : String) → Quiet s id

  accept_order-Quiet :
      (sched : Schedule) (s : ActorState) (o : Order)
      → IsKeyed s.orders
      → IsNew s o
      → IsSettled s
      → s.has_ltp ≡ true
      → (id : String) → Quiet (accept_order sched s o).0 id
  unfolding accept_order would_fill
  accept_order-Quiet sched s o k g v p id =
      elim (Bool-cases (s.has_ltp && would_fill o s.last_ltp)) [
        | inl h ↦ rw h (
            fill_order-Quiet sched s o k
              (record { priced = p; crosses = ground arith; open_order = inr g }) id (inl (v p id)))
        | inr h ↦ rw h (
            store-Quiet s o.id (record o { status = Status.resting }) (λ _. ground arith) id
              (inl (v p id)))
      ]

  tick_at-Quiet :
      (sched : Schedule) (s : ActorState) (id : String)
      → IsKeyed s.orders
      → s.has_ltp ≡ true
      → (j : String) → Quiet s j ⊎ (j ≡ id)
      → Quiet (tick_at sched s.last_ltp s id) j
  tick_at-Quiet sched s id k p j c =
      tick_at_cases (λ t. Quiet t j) sched s.last_ltp s id k (or_else c)
        (λ o g e r w. fill_order-Quiet sched s o k (fireable s o p g r w) j (own o (sym e) c))
    where
      or_else : Quiet s j ⊎ (j ≡ id) → Quiet s id → Quiet s j
      or_else (inl q) q' = q
      or_else (inr e) q' = subst (Quiet s) (sym e) q'

      own : (o : Order) → id ≡ o.id → Quiet s j ⊎ (j ≡ id) → Quiet s j ⊎ (j ≡ o.id)
      own o e (inl q) = inl q
      own o e (inr u) = inr (u ∙ e)

  tick_loop-Quiet :
      (sched : Schedule) (ltp : Price) (ids : List String) (s : ActorState)
      → IsKeyed s.orders
      → s.has_ltp ≡ true
      → s.last_ltp ≡ ltp
      → (j : String) → Quiet s j ⊎ InList j ids
      → Quiet (tick_loop sched ltp ids s) j
  unfolding tick_loop
  tick_loop-Quiet sched ltp [] s k p e j (inl q) = q
  tick_loop-Quiet sched ltp [] s k p e j (inr v) = absurd v
  tick_loop-Quiet sched ltp (id ∷ ids) s k p e j c =
      tick_loop-Quiet sched ltp ids (tick_at sched ltp s id) (Steps-IsKeyed r.steps k)
        (r.has_kept ∙ p) (r.ltp_kept ∙ e) j (go c)
    where
      r : Runs s (tick_at sched ltp s id)
      r = subst (λ x. Runs s (tick_at sched x s id)) e (tick_at-Runs sched s id k p)

      at : Quiet s j ⊎ (j ≡ id) → Quiet (tick_at sched ltp s id) j
      at c' = subst (λ x. Quiet (tick_at sched x s id) j) e (tick_at-Quiet sched s id k p j c')

      go : Quiet s j ⊎ InList j (id ∷ ids) → Quiet (tick_at sched ltp s id) j ⊎ InList j ids
      go (inl q) = inl (at (inl q))
      go (inr (inl u)) = inl (at (inr u))
      go (inr (inr v)) = inr v

  handle_tick-Quiet :
      (sched : Schedule) (s : ActorState) (ltp : Price)
      → IsKeyed s.orders
      → VisitsAll sched
      → (id : String) → Quiet (handle_tick sched s ltp) id
  unfolding handle_tick
  handle_tick-Quiet sched s ltp k vis id =
      let s₁ : ActorState = record s { last_ltp = ltp; has_ltp = true } in
      publish-Quiet _ id (
        tick_loop-Quiet sched ltp (sched s₁) s₁ k refl refl id
          (elim (Option-cases (get id s.orders)) [
            | inl g ↦ inl (λ o f r. cc)
            | inr (o, g) ↦ inr (vis s₁ id o g)
          ]))

  store_children-Quiet :
      (s : ActorState) (target stop : Order)
      → target.status ≡ Status.pending
      → stop.status ≡ Status.pending
      → (id : String) → Quiet s id
      → Quiet (store_children s target stop) id
  store_children-Quiet s target stop p q id quiet = rw (store_children_lem s target stop) (
      store-Quiet (store_order s target.id target) stop.id stop (λ e. cc) id
        (inl (store-Quiet s target.id target (λ e. cc) id (inl quiet))))

  place_entry-Quiet :
      (sched : Schedule) (s : ActorState) (entry target stop : Order)
      → IsKeyed s.orders
      → IsNew s entry
      → s.has_ltp ≡ true
      → (id : String) → Quiet s id
      → Quiet (place_entry sched s entry target stop).0 id
  unfolding place_entry would_fill
  place_entry-Quiet sched s entry target stop k g p id quiet =
      elim (Bool-cases (s.has_ltp && would_fill entry s.last_ltp)) [
        | inl h ↦ rw h (
            fill_order-Quiet sched s entry k
              (record { priced = p; crosses = ground arith; open_order = inr g }) id (inl quiet))
        | inr h ↦ rw h (
            store-Quiet s entry.id (record entry { status = Status.resting }) (λ _. ground arith) id
              (inl quiet))
      ]

  accept_bracket-Quiet :
      (sched : Schedule) (s : ActorState) (entry target stop : Order)
      → IsKeyed s.orders
      → AreNew s entry target stop
      → AreDistinct entry target stop
      → s.has_ltp ≡ true
      → (id : String) → Quiet s id
      → Quiet (accept_bracket sched s entry target stop).0 id
  unfolding accept_bracket
  accept_bracket-Quiet sched s entry target stop k new apart p id quiet =
      let target' = link target entry stop in
      let stop' = link stop entry target' in
      let c : ChildrenStored s (store_children s target' stop') entry =
        store_children-ChildrenStored s entry target stop new apart target' stop' refl refl
          (as_child s target entry stop new.target_new) (as_child s stop entry target' new.stop_new)
          tt tt in
      place_entry-Quiet sched _ entry target' stop' (Steps-IsKeyed c.runs.steps k) c.entry_new
        (c.runs.has_kept ∙ p) id (store_children-Quiet s target' stop' refl refl id quiet)

  -- Before a price is known nothing is claimed, so only a tick needs the visits.
  handle-IsSettled :
      (sched : Schedule) (s : ActorState) (m : Message)
      → VisitsAll sched
      → IsKeyed s.orders
      → IsSettled s
      → IsSettled (handle sched s m).0
  unfolding handle
  handle-IsSettled sched s (place_order o) vis k v = place_order_cases IsSettled sched s o v (λ g p.
      accept_order-Quiet sched s o k g v (sym (accept_order-Runs sched s o k g).has_kept ∙ p))
  handle-IsSettled sched s (cancel_order id) vis k v =
      cancel_order_cases IsSettled sched s id k v (λ o g l p j.
        store-Quiet s o.id (record o { status = Status.cancelled }) (λ e. cc) j
          (inl (v (sym (store_order-price s o.id _).1 ∙ p) j)))
  handle-IsSettled sched s (tick ltp) vis k v = λ p id. handle_tick-Quiet sched s ltp k vis id
  handle-IsSettled sched s snapshot vis k v = v
  handle-IsSettled sched s (place_bracket entry target stop) vis k v =
      place_bracket_cases IsSettled sched s entry target stop v (λ new apart p id.
        let known : s.has_ltp ≡ true =
          sym (accept_bracket-Runs sched s entry target stop k new apart).has_kept ∙ p in
        accept_bracket-Quiet sched s entry target stop k new apart known id (v known id))

  -- If no order that the last price fills rests in a state whose orders stand under their ids, then
  -- none does after any run of messages in which every map range visits every order.
  pub run-IsSettled :
      (s : ActorState) (ms : List (Schedule × Message))
      → AllVisit ms
      → IsKeyed s.orders
      → IsSettled s
      → IsSettled (run s ms)
  unfolding run
  run-IsSettled s [] vis k v = v
  run-IsSettled s ((sched, m) ∷ ms) vis k v =
      run-IsSettled (handle sched s m).0 ms vis.1 (Steps-IsKeyed (handle-Steps sched s m k) k)
        (handle-IsSettled sched s m vis.0 k v)
