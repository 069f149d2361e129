-- ===== src/Actor/Known.antt =====
-- Which orders an actor of internal/instrument comes to know: those it knew, and those of a message
-- that it did not reject.
use optionx_assignment.Common.{
  ℕ, zero, suc, true, ◌&&◌, String, List, [], ◌∷◌, some, Dict, get, put, get-put, ◌≡◌, sym, subst,
  inl, inr, str_eq-cases, Bool-cases, arith,
}
use optionx_assignment.Float.{Float64, Price}
use optionx_assignment.Order.{Status, Order, would_fill}
use optionx_assignment.Actor.Messages.{
  Message, place_order, cancel_order, tick, snapshot, place_bracket,
}
use optionx_assignment.Actor.State.{ActorState, publish, store_order, pending_count}
use optionx_assignment.Actor.Filling.{
  Schedule, FillFun, commit_fill, as_filled, activate_order, activate_at, activate_children,
  cancel_sibling, fill_body, fill_upto, fill_order,
}
use optionx_assignment.Actor.OrderHandlers.{accept_order, tick_at, tick_loop, handle_tick}
use optionx_assignment.Actor.Handle.{handle, store_children, place_entry, accept_bracket, link}
use optionx_assignment.Actor.Steps.{IsKeyed}
use optionx_assignment.Actor.Keyed.{
  orders-store_order, orders-commit_fill, orders-publish, put-IsKeyed,
}
use optionx_assignment.Actor.Cases.{
  place_order_cases, place_bracket_cases, cancel_order_cases, tick_at_cases, activate_at_cases,
  cancel_sibling_cases,
}
use optionx_assignment.Actor.RefineHandle.{store_children_lem}

module _ ⦃fl : Float64⦄ where
  -- Every order stands under its own id, which is one of `K`.
  pub record IsWithin (K : String → Type 0) (m : Dict Order) : Type 0 where
    pub keyed : IsKeyed m
    pub within : (k : String) (o : Order) → get k m ≡ some o → K k

  module _ (K : String → Type 0) where
    abbrev Knows : ActorState → Type 0
    Knows s = IsWithin K s.orders

    pub put-IsWithin :
        (m : Dict Order) (o : Order) → IsWithin K m → K o.id → IsWithin K (put o.id o m)
    put-IsWithin m o i h = record {
      keyed = put-IsKeyed m o i.keyed;
      within = λ k x g. elim (str_eq-cases o.id k) [
        | inl (t, e) ↦ subst K e h
        | inr (f, ne) ↦ i.within k x (ground (arith, get-put o.id k o m, g))
      ];
    }

    store_order-Knows :
        (s : ActorState) (o : Order) → Knows s → K o.id → Knows (store_order s o.id o)
    store_order-Knows s o i h = rw (orders-store_order s o.id o) (put-IsWithin s.orders o i h)

    publish-Knows : (s : ActorState) → Knows s → Knows (publish s)
    publish-Knows s i = rw (orders-publish s) i

    -- A fill of an order that is known.
    abbrev FillsWithin : FillFun → Type 0
    FillsWithin f = (s : ActorState) (o : Order) (p : Price) → Knows s → K o.id → Knows (f s o p)

    activate_order-Knows :
        (f : FillFun)
        → FillsWithin f
        → (s : ActorState) (o : Order) → Knows s
        → K o.id
        → Knows (activate_order f s o.id o)
    unfolding activate_order
    activate_order-Knows f hf s o i h =
        let r : Order = record o { status = Status.resting } in
        let s' = store_order s o.id r in
        let i' : Knows s' = store_order-Knows s r i h in
        elim (Bool-cases (s'.has_ltp && would_fill r s'.last_ltp)) [
          | inl c ↦ rw c (hf s' r s'.last_ltp i' h)
          | inr c ↦ rw c i'
        ]

    activate_children-Knows :
        (f : FillFun)
        → FillsWithin f
        → (entry : String) (ids : List String) (s : ActorState) → Knows s
        → Knows (activate_children f entry ids s)
    unfolding activate_children
    activate_children-Knows f hf entry [] s i = i
    activate_children-Knows f hf entry (id ∷ ids) s i =
        activate_children-Knows f hf entry ids (activate_at f entry s id) (
          activate_at_cases Knows f entry s id i.keyed i
            (λ o g e p. activate_order-Knows f hf s o i (i.within o.id o g)))

    cancel_sibling-Knows : (s : ActorState) (o : Order) → Knows s → Knows (cancel_sibling s o)
    cancel_sibling-Knows s o i =
        cancel_sibling_cases Knows s o i.keyed (λ none_live. i)
          (λ b g e l.
            store_order-Knows s (record b { status = Status.cancelled }) i (i.within b.id b g))

    fill_body-Knows :
        (sched : Schedule) (f : FillFun) → FillsWithin f → FillsWithin (fill_body sched f)
    unfolding fill_body
    fill_body-Knows sched f hf s o p i h =
        let s₁ = commit_fill s o p in
        let i₁ : Knows s₁ =
          rw (orders-commit_fill s o p) (put-IsWithin s.orders (as_filled o) i h) in
        let s₂ = activate_children f o.id (sched s₁) s₁ in
        publish-Knows (cancel_sibling s₂ (as_filled o)) (
          cancel_sibling-Knows s₂ (as_filled o)
            (activate_children-Knows f hf o.id (sched s₁) s₁ i₁))

    fill_upto-Knows : (n : ℕ) (sched : Schedule) → FillsWithin (fill_upto n sched)
    unfolding fill_upto
    fill_upto-Knows zero sched = fill_body-Knows sched (λ s o p. s) (λ s o p i h. i)
    fill_upto-Knows (suc n) sched =
        fill_body-Knows sched (fill_upto n sched) (fill_upto-Knows n sched)

    fill_order-Knows : (sched : Schedule) → FillsWithin (fill_order sched)
    unfolding fill_order
    fill_order-Knows sched s o p = fill_upto-Knows (pending_count s.orders) sched s o p

    tick_loop-Knows :
        (sched : Schedule) (ltp : Price) (ids : List String) (s : ActorState)
        → Knows s
        → Knows (tick_loop sched ltp ids s)
    unfolding tick_loop
    tick_loop-Knows sched ltp [] s i = i
    tick_loop-Knows sched ltp (id ∷ ids) s i =
        tick_loop-Knows sched ltp ids (tick_at sched ltp s id) (
          tick_at_cases Knows sched ltp s id i.keyed (λ quiet. i)
            (λ o g e r w. fill_order-Knows sched s o ltp i (i.within o.id o g)))

    accept_order-Knows :
        (sched : Schedule) (s : ActorState) (o : Order)
        → Knows s
        → K o.id
        → Knows (accept_order sched s o).0
    unfolding accept_order
    accept_order-Knows sched s o i h = elim (Bool-cases (s.has_ltp && would_fill o s.last_ltp)) [
      | inl c ↦ rw c (fill_order-Knows sched s o s.last_ltp i h)
      | inr c ↦ rw c (store_order-Knows s (record o { status = Status.resting }) i h)
    ]

    place_entry-Knows :
        (sched : Schedule) (s : ActorState) (entry target stop : Order)
        → Knows s
        → K entry.id
        → Knows (place_entry sched s entry target stop).0
    unfolding place_entry
    place_entry-Knows sched s entry target stop i h =
        elim (Bool-cases (s.has_ltp && would_fill entry s.last_ltp)) [
          | inl c ↦ rw c (fill_order-Knows sched s entry s.last_ltp i h)
          | inr c ↦ rw c (store_order-Knows s (record entry { status = Status.resting }) i h)
        ]

    accept_bracket-Knows :
        (sched : Schedule) (s : ActorState) (entry target stop : Order)
        → Knows s
        → K entry.id
        → K target.id
        → K stop.id
        → Knows (accept_bracket sched s entry target stop).0
    unfolding accept_bracket
    accept_bracket-Knows sched s entry target stop i he ht hs =
        let target' = link target entry stop in
        let stop' = link stop entry target in
        place_entry-Knows sched (store_children s target' stop') entry target' stop'
          (subst Knows (sym (store_children_lem s target' stop')) (
            store_order-Knows (store_order s target.id target') stop'
              (store_order-Knows s target' i ht) hs))
          he

    -- The ids of the orders of a message are known.
    abbrev pub Brings : Message → Type 0
    Brings (place_order o) = K o.id
    Brings (place_bracket entry target stop) = K entry.id × K target.id × K stop.id
    Brings _ = Unit

    pub handle-IsWithin :
        (sched : Schedule) (s : ActorState) (m : Message)
        → IsWithin K s.orders
        → Brings m
        → IsWithin K (handle sched s m).0.orders
    unfolding handle handle_tick
    handle-IsWithin sched s (place_order o) i h =
        place_order_cases Knows sched s o i (λ n. accept_order-Knows sched s o i h)
    handle-IsWithin sched s (cancel_order id) i h =
        cancel_order_cases Knows sched s id i.keyed i (λ o g l.
          store_order-Knows s (record o { status = Status.cancelled }) i (i.within o.id o g))
    handle-IsWithin sched s (tick ltp) i h =
        let s₁ : ActorState = record s { last_ltp = ltp; has_ltp = true } in
        publish-Knows (tick_loop sched ltp (sched s₁) s₁)
          (tick_loop-Knows sched ltp (sched s₁) s₁ i)
    handle-IsWithin sched s snapshot i h = i
    handle-IsWithin sched s (place_bracket entry target stop) i (he, ht, hs) =
        place_bracket_cases Knows sched s entry target stop i
          (λ n d. accept_bracket-Knows sched s entry target stop i he ht hs)
