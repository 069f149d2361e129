-- ===== src/Actor/Filling.antt =====
-- How an order is filled: fillOrder of internal/instrument/actor_state.go, with activateChildrenOf
-- and cancelSiblingOf of bracket.go. The order in which `range` visits a map is Go's choice, so it is
-- a parameter. `fill_body` is the code of fillOrder, with its own call by way of activateChildrenOf as
-- an argument; `fill_upto` runs it with a bound on the nesting, and `fill_order` with a bound that is
-- the number of pending orders.
use optionx_assignment.Common.{
  ℕ, zero, suc, not, ◌&&◌, ◌||◌, String, List, [], ◌∷◌, none, some, get, put, ◌==◌, if◌then◌else◌,
}
use optionx_assignment.Float.{Float64, Price}
use optionx_assignment.Order.{
  Order, Fill, resting, cancelled, is_pending, is_resting, would_fill, fill_price, Status,
}
use optionx_assignment.Ledger.{apply_fill}
use optionx_assignment.Actor.State.{ActorState, publish, persist_fill, store_order, pending_count}

module _ ⦃fl : Float64⦄ where
  abbrev pub Schedule : Type 0
  Schedule = ActorState → List String

  abbrev pub FillFun : Type 0
  FillFun = ActorState → Order → Price → ActorState

  unfoldable pub fill_of : Order → Price → Fill
  fill_of o price = record {
    order_id = o.id;
    token = o.token;
    side = o.side;
    qty = o.qty;
    price = fill_price price;
  }

  abbrev pub as_filled : Order → Order
  as_filled o = record o { status = Status.filled }

  -- fillOrder down to the call of persistFill.
  unfoldable pub commit_fill : ActorState → Order → Price → ActorState
  unfolding persist_fill
  commit_fill s o price =
      let p = apply_fill s.position (fill_of o price) in
      persist_fill (record s { position = p; orders = put o.id (as_filled o) s.orders })
        (as_filled o) p

  -- The body of the loop of activateChildrenOf, once the `continue` is passed.
  unfoldable pub activate_order : FillFun → ActorState → String → Order → ActorState
  activate_order fill s id o =
      let r = record o { status = resting } in
      let s' = store_order s id r in
      let filled = fill s' r s'.last_ltp in
      if s'.has_ltp && would_fill r s'.last_ltp then filled else s'

  unfoldable pub activate_at : FillFun → String → ActorState → String → ActorState
  activate_at fill entry s id = elim (get id s.orders) [
    | none ↦ s
    | some o ↦
        if not (o.entry_id == entry) || not (is_pending o.status)
        then s
        else activate_order fill s id o
  ]

  unfoldable pub activate_children : FillFun → String → List String → ActorState → ActorState
  activate_children fill entry [] s = s
  activate_children fill entry (id ∷ ids) s =
      activate_children fill entry ids (activate_at fill entry s id)

  -- cancelSiblingOf once the sibling is found.
  unfoldable pub cancel_found : ActorState → Order → ActorState
  cancel_found s sibling =
      if not (is_resting sibling.status) && not (is_pending sibling.status)
      then s
      else store_order s sibling.id (record sibling { status = cancelled })

  unfoldable pub cancel_sibling : ActorState → Order → ActorState
  unfolding cancel_found
  cancel_sibling s o =
      if o.sibling_id == ""
      then s
      else elim (get o.sibling_id s.orders) [ none ↦ s | some sibling ↦ cancel_found s sibling ]

  unfoldable pub fill_body : Schedule → FillFun → FillFun
  fill_body sched fill s o price =
      let s₁ = commit_fill s o price in
      let s₂ = activate_children fill o.id (sched s₁) s₁ in
      publish (cancel_sibling s₂ (as_filled o))

  unfoldable pub fill_upto : ℕ → Schedule → FillFun
  fill_upto zero sched = fill_body sched (λ s o price. s)
  fill_upto (suc n) sched = fill_body sched (fill_upto n sched)

  unfoldable pub fill_order : Schedule → FillFun
  fill_order sched s o price = fill_upto (pending_count s.orders) sched s o price
