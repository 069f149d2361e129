-- ===== src/Actor/Bracket.antt =====
-- handlePlaceBracket of internal/instrument/bracket.go sets the links up, and every message keeps the
-- one-cancels-other rule.
use optionx_assignment.Common.{
  true, ◌&&◌, String, List, [], ◌∷◌, Dict, none, get, put, ◌≡◌, ◌≢◌, refl, ◌∙◌, inl, inr, arith,
  Bool-cases, subst,
}
use optionx_assignment.Float.{Float64, Price}
use optionx_assignment.Order.{Status, Order, would_fill}
use optionx_assignment.Actor.Messages.{
  Message, place_order, cancel_order, tick, snapshot, place_bracket,
}
use optionx_assignment.Actor.State.{ActorState, store_order}
use optionx_assignment.Actor.Filling.{Schedule}
use optionx_assignment.Actor.OrderHandlers.{accept_order, tick_at, tick_loop, handle_tick}
use optionx_assignment.Actor.Handle.{link, place_entry, store_children, accept_bracket, handle, run}
use optionx_assignment.Actor.Steps.{IsNew, IsKeyed}
use optionx_assignment.Actor.Keyed.{orders-store_order, orders-publish, Steps-IsKeyed}
use optionx_assignment.Actor.Admission.{AreNew, AreDistinct}
use optionx_assignment.Actor.Cases.{
  place_order_cases, place_bracket_cases, cancel_order_cases, tick_at_cases,
}
use optionx_assignment.Actor.Refine.{Runs}
use optionx_assignment.Actor.RefineHandle.{
  as_child, fireable, tick_at-Runs, store_children_lem, ChildrenStored,
  store_children-ChildrenStored, handle-Steps,
}
use optionx_assignment.Actor.Paired.{IsPaired, HasEntriesBut, join-IsPaired, join-HasEntries}
use optionx_assignment.Actor.NewPair.{both-IsPaired, both-HasEntriesBut}
use optionx_assignment.Actor.Oco.{IsOco, cancel-IsOco}
use optionx_assignment.Actor.OcoRun.{fill_order-KeepsOco, fresh_fill-IsOco}

module _ ⦃fl : Float64⦄ where
  join-IsOco :
      (m : Dict Order) (o : Order)
      → get o.id m ≡ none
      → o.sibling_id ≡ ""
      → o.status ≢ Status.pending
      → IsPaired m
      → HasEntriesBut o.id m
      → IsOco (put o.id o m)
  join-IsOco m o new plain np pairs entries = record {
    paired = join-IsPaired m o new plain pairs;
    entries = join-HasEntries m o new plain np entries;
  }

  accept_order-IsOco :
      (sched : Schedule) (s : ActorState) (o : Order)
      → IsKeyed s.orders
      → IsNew s o
      → o.sibling_id ≡ ""
      → IsOco s.orders
      → IsOco (accept_order sched s o).0.orders
  unfolding accept_order
  accept_order-IsOco sched s o k new plain v =
      let r : Order = record o { status = Status.resting } in
      let entries : HasEntriesBut o.id s.orders = λ c x g p. inr (v.entries c x g p) in
      elim (Bool-cases (s.has_ltp && would_fill o s.last_ltp)) [
        | inl h ↦ rw h (
            fresh_fill-IsOco sched s o k
              (record { priced = ground arith; crosses = ground arith; open_order = inr new })
              new.unknown plain v.paired entries)
        | inr h ↦
            rw (h, orders-store_order s o.id r)
              (join-IsOco s.orders r new.unknown plain (λ e. cc) v.paired entries)
      ]

  place_entry-IsOco :
      (sched : Schedule) (s : ActorState) (entry target stop : Order)
      → IsKeyed s.orders
      → IsNew s entry
      → entry.sibling_id ≡ ""
      → IsPaired s.orders
      → HasEntriesBut entry.id s.orders
      → IsOco (place_entry sched s entry target stop).0.orders
  unfolding place_entry
  place_entry-IsOco sched s entry target stop k new plain pairs entries =
      let r : Order = record entry { status = Status.resting } in
      elim (Bool-cases (s.has_ltp && would_fill entry s.last_ltp)) [
        | inl h ↦ rw h (
            fresh_fill-IsOco sched s entry k
              (record { priced = ground arith; crosses = ground arith; open_order = inr new })
              new.unknown plain pairs entries)
        | inr h ↦
            rw (h, orders-store_order s entry.id r)
              (join-IsOco s.orders r new.unknown plain (λ e. cc) pairs entries)
      ]

  orders-store_children :
      (s : ActorState) (a b : Order)
      → (store_children s a b).orders ≡ put b.id b (put a.id a s.orders)
  orders-store_children s a b = rw (
    store_children_lem s a b,
    orders-store_order (store_order s a.id a) b.id b,
    orders-store_order s a.id a,
  )

  -- The ids of a bracket's legs are not empty, and its entry is no leg.
  pub record IsPlainBracket (entry target stop : Order) : Type 0 where
    pub no_leg : entry.sibling_id ≡ ""
    pub target_named : target.id ≢ ""
    pub stop_named : stop.id ≢ ""

  accept_bracket-IsOco :
      (sched : Schedule) (s : ActorState) (entry target stop : Order)
      → IsKeyed s.orders
      → AreNew s entry target stop
      → AreDistinct entry target stop
      → IsPlainBracket entry target stop
      → IsOco s.orders
      → IsOco (accept_bracket sched s entry target stop).0.orders
  unfolding accept_bracket
  accept_bracket-IsOco sched s entry target stop k new apart plain v =
      place_entry-IsOco sched _ entry a b (Steps-IsKeyed c.runs.steps k) c.entry_new plain.no_leg
        (rw (orders-store_children s a b) (
          both-IsPaired s.orders a b apart.target_stop plain.target_named plain.stop_named
            new.target_new.unknown new.stop_new.unknown refl refl refl refl v.paired))
        (rw (orders-store_children s a b) (
          both-HasEntriesBut s.orders a b apart.target_stop plain.target_named plain.stop_named
            new.target_new.unknown new.stop_new.unknown refl refl refl refl entry.id refl refl
            v.entries))
    where
      a : Order
      a = link target entry stop

      b : Order
      b = link stop entry a

      c : ChildrenStored s (store_children s a b) entry
      c =
          store_children-ChildrenStored s entry target stop new apart a b refl refl
            (as_child s target entry stop new.target_new) (as_child s stop entry a new.stop_new) tt
            tt

  tick_loop-IsOco :
      (sched : Schedule) (ltp : Price) (ids : List String) (s : ActorState)
      → IsKeyed s.orders
      → s.has_ltp ≡ true
      → s.last_ltp ≡ ltp
      → IsOco s.orders
      → IsOco (tick_loop sched ltp ids s).orders
  unfolding tick_loop
  tick_loop-IsOco sched ltp [] s k p e v = v
  tick_loop-IsOco sched ltp (id ∷ ids) s k p e v =
      tick_loop-IsOco sched ltp ids (tick_at sched ltp s id) (Steps-IsKeyed r.steps k)
        (r.has_kept ∙ p) (r.ltp_kept ∙ e)
        (subst (λ x. IsOco (tick_at sched x s id).orders) e
          (tick_at_cases (λ t. IsOco t.orders) sched s.last_ltp s id k (λ quiet. v)
            (λ o g own rests w.
              fill_order-KeepsOco sched s o k (fireable s o p g rests w) g rests v)))
    where
      r : Runs s (tick_at sched ltp s id)
      r = subst (λ x. Runs s (tick_at sched x s id)) e (tick_at-Runs sched s id k p)

  -- What the API sends: orders with no sibling of their own, legs with an id.
  abbrev pub IsPlain : Message → Type 0
  IsPlain (place_order o) = o.sibling_id ≡ ""
  IsPlain (place_bracket entry target stop) = IsPlainBracket entry target stop
  IsPlain _ = Unit

  handle-IsOco :
      (sched : Schedule) (s : ActorState) (m : Message)
      → IsPlain m
      → IsKeyed s.orders
      → IsOco s.orders
      → IsOco (handle sched s m).0.orders
  unfolding handle handle_tick
  handle-IsOco sched s (place_order o) plain k v =
      place_order_cases (λ t. IsOco t.orders) sched s o v
        (λ new. accept_order-IsOco sched s o k new plain v)
  handle-IsOco sched s (cancel_order id) plain k v =
      cancel_order_cases (λ t. IsOco t.orders) sched s id k v
        (λ o g l.
          let c : Order = record o { status = Status.cancelled } in
          rw (orders-store_order s o.id c) (cancel-IsOco s.orders o g v))
  handle-IsOco sched s (tick ltp) plain k v =
      let s₁ : ActorState = record s { last_ltp = ltp; has_ltp = true } in
      rw (orders-publish (tick_loop sched ltp (sched s₁) s₁))
        (tick_loop-IsOco sched ltp (sched s₁) s₁ k refl refl v)
  handle-IsOco sched s snapshot plain k v = v
  handle-IsOco sched s (place_bracket entry target stop) plain k v =
      place_bracket_cases (λ t. IsOco t.orders) sched s entry target stop v
        (λ new apart. accept_bracket-IsOco sched s entry target stop k new apart plain v)

  abbrev pub ArePlain : List (Schedule × Message) → Type 0
  ArePlain [] = Unit {0}
  ArePlain ((sched, m) ∷ ms) = IsPlain m × ArePlain ms

  -- Take a state whose orders stand under their ids, in which every leg, which is an order with a
  -- sibling id, has its sibling, another order that names it in turn, and its entry, an order with no
  -- sibling id; both siblings have one of the four statuses, and if one is filled the other is
  -- cancelled; and every pending order has its entry. Then all this holds after any run of messages
  -- whose plain orders and entries have no sibling id and whose legs have an id that is not empty.
  pub run-IsOco :
      (s : ActorState) (ms : List (Schedule × Message))
      → ArePlain ms
      → IsKeyed s.orders
      → IsOco s.orders
      → IsOco (run s ms).orders
  unfolding run
  run-IsOco s [] plain k v = v
  run-IsOco s ((sched, m) ∷ ms) plain k v =
      run-IsOco (handle sched s m).0 ms plain.1 (Steps-IsKeyed (handle-Steps sched s m k) k)
        (handle-IsOco sched s m plain.0 k v)
