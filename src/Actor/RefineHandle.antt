-- ===== src/Actor/RefineHandle.antt =====
-- Every handler of internal/instrument, and its run loop, goes through steps of the abstract machine.
use optionx_assignment.Common.{
  true, ◌&&◌, String, List, [], ◌∷◌, some, get, get-put_ne, ◌≡◌, ◌≢◌, refl, sym, ◌∙◌, inl, inr,
  arith, Bool-cases, subst,
}
use optionx_assignment.Float.{Float64, Price}
use optionx_assignment.Order.{Status, Order, validate, would_fill}
use optionx_assignment.Actor.Messages.{
  Message, place_order, cancel_order, tick, snapshot, place_bracket,
}
use optionx_assignment.Actor.State.{ActorState, store_order}
use optionx_assignment.Actor.Filling.{Schedule}
use optionx_assignment.Actor.OrderHandlers.{accept_order, tick_at, tick_loop, handle_tick}
use optionx_assignment.Actor.Handle.{link, place_entry, store_children, accept_bracket, handle, run}
use optionx_assignment.Actor.Steps.{
  CanFill, Steps, admit, cancel, reprice, here, one, Steps-trans, IsKeyed, IsLive, IsNew,
}
use optionx_assignment.Actor.Keyed.{orders-store_order, token-store_order, Steps-IsKeyed}
use optionx_assignment.Actor.Admission.{AreNew, AreDistinct}
use optionx_assignment.Actor.Cases.{
  place_order_cases, place_bracket_cases, cancel_order_cases, tick_at_cases,
}
use optionx_assignment.Actor.Refine.{
  Runs, Runs-refl, Runs-trans, Runs-store, publish-Runs, fill_order-Runs,
}

module _ ⦃fl : Float64⦄ where
  pub accept_order-Runs :
      (sched : Schedule) (s : ActorState) (o : Order)
      → IsKeyed s.orders
      → IsNew s o
      → Runs s (accept_order sched s o).0
  unfolding accept_order validate
  accept_order-Runs sched s o k g =
      let r : Order = record o { status = Status.resting } in
      elim (Bool-cases (s.has_ltp && would_fill o s.last_ltp)) [
        | inl h ↦ rw h (
            fill_order-Runs sched s o k
              (record { priced = ground arith; crosses = ground arith; open_order = inr g }))
        | inr h ↦ rw h (
            Runs-store s r
              (admit r (record { unknown = g.unknown; owned = g.owned; valid = g.valid }) tt))
      ]

  -- A resting order that the price crosses.
  pub fireable :
      (s : ActorState) (o : Order)
      → s.has_ltp ≡ true
      → get o.id s.orders ≡ some o
      → o.status ≡ Status.resting
      → would_fill o s.last_ltp ≡ true
      → CanFill s o
  fireable s o p g r w = record { priced = p; crosses = w; open_order = inl (g, r) }

  pub tick_at-Runs :
      (sched : Schedule) (s : ActorState) (id : String)
      → IsKeyed s.orders
      → s.has_ltp ≡ true
      → Runs s (tick_at sched s.last_ltp s id)
  tick_at-Runs sched s id k p =
      tick_at_cases (Runs s) sched s.last_ltp s id k (λ quiet. Runs-refl s)
        (λ o g e r w. fill_order-Runs sched s o k (fireable s o p g r w))

  tick_loop-Runs :
      (sched : Schedule) (ltp : Price) (ids : List String) (s : ActorState)
      → IsKeyed s.orders
      → s.has_ltp ≡ true
      → s.last_ltp ≡ ltp
      → Runs s (tick_loop sched ltp ids s)
  unfolding tick_loop
  tick_loop-Runs sched ltp [] s k p e = Runs-refl s
  tick_loop-Runs sched ltp (id ∷ ids) s k p e =
      let r : Runs s (tick_at sched ltp s id) =
        subst (λ x. Runs s (tick_at sched x s id)) e (tick_at-Runs sched s id k p) in
      Runs-trans r (
        tick_loop-Runs sched ltp ids (tick_at sched ltp s id) (Steps-IsKeyed r.steps k)
          (r.has_kept ∙ p) (r.ltp_kept ∙ e))

  pub handle_tick-Steps :
      (sched : Schedule) (s : ActorState) (ltp : Price)
      → IsKeyed s.orders
      → Steps s (handle_tick sched s ltp)
  unfolding handle_tick
  handle_tick-Steps sched s ltp k =
      let s₁ : ActorState = record s { last_ltp = ltp; has_ltp = true } in
      let r = tick_loop-Runs sched ltp (sched s₁) s₁ k refl refl in
      Steps-trans (one (reprice ltp)) (Runs-trans r (publish-Runs _)).steps

  pub store_children_lem :
      (s : ActorState) (target stop : Order)
      → store_children s target stop ≡ store_order (store_order s target.id target) stop.id stop
  unfolding store_children store_order
  store_children_lem s target stop = elim (Bool-cases s.has_store) [ inl h ↦ rw h | inr h ↦ rw h ]

  place_entry-Runs :
      (sched : Schedule) (s : ActorState) (entry target stop : Order)
      → IsKeyed s.orders
      → IsNew s entry
      → Runs s (place_entry sched s entry target stop).0
  unfolding place_entry validate
  place_entry-Runs sched s entry target stop k g =
      let r : Order = record entry { status = Status.resting } in
      elim (Bool-cases (s.has_ltp && would_fill entry s.last_ltp)) [
        | inl h ↦ rw h (
            fill_order-Runs sched s entry k
              (record { priced = ground arith; crosses = ground arith; open_order = inr g }))
        | inr h ↦ rw h (
            Runs-store s r
              (admit r (record { unknown = g.unknown; owned = g.owned; valid = g.valid }) tt))
      ]

  pub as_child : (s : ActorState) (o entry x : Order) → IsNew s o → IsNew s (link o entry x)
  unfolding validate
  as_child s o entry x n = record { unknown = n.unknown; owned = n.owned; valid = n.valid }

  -- A new order stays new when another order is stored.
  later-IsNew :
      (s : ActorState) (o x : Order) → o.id ≢ x.id → IsNew s x → IsNew (store_order s o.id o) x
  later-IsNew s o x ne n = record {
    unknown = rw (orders-store_order s o.id o) (get-put_ne o.id x.id o s.orders ne ∙ n.unknown);
    owned = n.owned ∙ sym (token-store_order s o.id o);
    valid = n.valid;
  }

  -- The children are stored, and the entry's id is still new.
  pub record ChildrenStored (s t : ActorState) (entry : Order) : Type 0 where
    pub runs : Runs s t
    pub entry_new : IsNew t entry

  pub store_children-ChildrenStored :
      (s : ActorState) (entry target stop : Order)
      → AreNew s entry target stop
      → AreDistinct entry target stop
      → (target' stop' : Order) → target'.id ≡ target.id
      → stop'.id ≡ stop.id
      → IsNew s target'
      → IsNew s stop'
      → IsLive target'.status
      → IsLive stop'.status
      → ChildrenStored s (store_children s target' stop') entry
  store_children-ChildrenStored s entry target stop new apart target' stop' p q nt ns l m =
      rw (store_children_lem s target' stop') (record {
        runs = Runs-trans (Runs-store s target' (admit target' nt l)) (
            Runs-store s₁ stop' (
              admit stop' (later-IsNew s target' stop' (λ e. apart.target_stop (sym p ∙ e ∙ q)) ns)
                m));
        entry_new =
            later-IsNew s₁ stop' entry (λ e. apart.entry_stop (sym e ∙ q))
              (later-IsNew s target' entry (λ e. apart.entry_target (sym e ∙ p)) new.entry_new);
      })
    where
      s₁ : ActorState
      s₁ = store_order s target'.id target'

  pub accept_bracket-Runs :
      (sched : Schedule) (s : ActorState) (entry target stop : Order)
      → IsKeyed s.orders
      → AreNew s entry target stop
      → AreDistinct entry target stop
      → Runs s (accept_bracket sched s entry target stop).0
  unfolding accept_bracket
  accept_bracket-Runs sched s entry target stop k new apart =
      let target' = link target entry stop in
      let stop' = link stop entry target' in
      let c : ChildrenStored s (store_children s target' stop') entry =
        store_children-ChildrenStored s entry target stop new apart target' stop' refl refl
          (as_child s target entry stop new.target_new) (as_child s stop entry target' new.stop_new)
          tt tt in
      Runs-trans c.runs
        (place_entry-Runs sched _ entry target' stop' (Steps-IsKeyed c.runs.steps k) c.entry_new)

  -- Whatever the message and whatever order Go visits the map in, the handler takes the actor through
  -- steps that the abstract machine allows.
  pub handle-Steps :
      (sched : Schedule) (s : ActorState) (m : Message)
      → IsKeyed s.orders
      → Steps s (handle sched s m).0
  unfolding handle
  handle-Steps sched s (place_order o) k =
      place_order_cases (Steps s) sched s o here (λ g. (accept_order-Runs sched s o k g).steps)
  handle-Steps sched s (cancel_order id) k =
      cancel_order_cases (Steps s) sched s id k here (λ o g l. one (cancel o g l))
  handle-Steps sched s (tick ltp) k = handle_tick-Steps sched s ltp k
  handle-Steps sched s snapshot k = here
  handle-Steps sched s (place_bracket entry target stop) k =
      place_bracket_cases (Steps s) sched s entry target stop here
        (λ new apart. (accept_bracket-Runs sched s entry target stop k new apart).steps)

  -- From a state whose orders stand under their ids, any run of handlers is a sequence of steps of
  -- the abstract machine: each step fills, admits, activates or cancels one order under its
  -- condition, publishes, or takes a new price.
  pub run-Steps :
      (s : ActorState) (ms : List (Schedule × Message)) → IsKeyed s.orders → Steps s (run s ms)
  unfolding run
  run-Steps s [] k = here
  run-Steps s ((sched, m) ∷ ms) k =
      let r = handle-Steps sched s m k in
      Steps-trans r (run-Steps (handle sched s m).0 ms (Steps-IsKeyed r k))
