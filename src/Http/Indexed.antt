-- ===== src/Http/Indexed.antt =====
-- The handlers of internal/httpapi/orders.go index the orders that they place: what a handler does with
-- the registry leaves every order that an actor holds in the index of registry.go.
use optionx_assignment.Common.{
  String, Option, none, some, Dict, get, put, get-put, get-put_self, ◌≡◌, refl, sym, ◌∙◌, subst,
  inl, arith,
}
use optionx_assignment.Float.{Float64}
use optionx_assignment.Order.{Order}
use optionx_assignment.Actor.Messages.{
  Message, place_order, Outcome, Reply, placed, PlaceOrderResult,
}
use optionx_assignment.Actor.State.{ActorState}
use optionx_assignment.Actor.OrderHandlers.{handle_place_order}
use optionx_assignment.Actor.Handle.{handle}
use optionx_assignment.Actor.Known.{IsWithin, Brings, handle-IsWithin}
use optionx_assignment.Actor.Rejected.{rejected-place_order}
use optionx_assignment.Registry.{
  Registry, peek, Exchange, not_taken, abandoned, answered, exchange, index_order,
}
use optionx_assignment.Registry.Exchanged.{attend, actor_at, exchange-Exchanged}
use optionx_assignment.Registry.Index.{
  IsAt, Grows, put-Grows, IsCovered, IsCovered-Grows, actor_at-IsWithin, exchange-IsCovered,
  index-exchange,
}
use optionx_assignment.Http.{index_placed, answer_order}

-- The same entries.
abbrev pub SameIndex : Dict String → Dict String → Type 0
SameIndex ix jx = (k : String) → get k jx ≡ get k ix

pub SameIndex-Grows : (ix jx : Dict String) → SameIndex ix jx → Grows ix jx
SameIndex-Grows ix jx e token k g = e k ∙ g

pub put-SameIndex :
    (ix jx : Dict String) (id token : String)
    → SameIndex ix jx
    → SameIndex (put id token ix) (put id token jx)
put-SameIndex ix jx id token e k = ground (arith, get-put id k token ix, get-put id k token jx, e k)

module _ ⦃fl : Float64⦄ where
  -- Every order that an actor holds, or that a seed brings, is in the index with its token.
  abbrev pub IsIndexed : Registry → Type 0
  IsIndexed r = IsCovered r.order_index r

  -- The caller waits for the reply.
  abbrev pub IsAwaited : Exchange → Type 0
  IsAwaited (abandoned sched) = ⊥
  IsAwaited _ = Unit

  -- A call that brings the actor no order.
  pub exchange-IsIndexed :
      (r : Registry) (token : String) (m : Message) (how : Exchange)
      → IsIndexed r
      → IsWithin (IsAt r.order_index token) (attend (actor_at r token) m how).0.orders
      → IsIndexed (exchange r token m how).0
  exchange-IsIndexed r token m how c i =
      IsCovered-Grows r.order_index (exchange r token m how).0.order_index
        (exchange r token m how).0
        (SameIndex-Grows r.order_index (exchange r token m how).0.order_index
          (λ k. index-exchange r token k m how c))
        (exchange-IsCovered r.order_index r token m how c i)

  pub attend-IsWithin :
      (K : String → Type 0) (a : ActorState) (m : Message) (how : Exchange)
      → IsWithin K a.orders
      → Brings K m
      → IsWithin K (attend a m how).0.orders
  attend-IsWithin K a m not_taken i b = i
  attend-IsWithin K a m (abandoned sched) i b = handle-IsWithin K sched a m i b
  attend-IsWithin K a m (answered sched) i b = handle-IsWithin K sched a m i b

  -- A call that brings orders which an index `jx` has, behind which the handler makes the index so.
  pub grown-IsIndexed :
      (r : Registry) (token : String) (m : Message) (how : Exchange) (jx kx : Dict String)
      → IsIndexed r
      → Grows r.order_index jx
      → Brings (IsAt jx token) m
      → SameIndex jx kx
      → IsCovered kx (exchange r token m how).0
  grown-IsIndexed r token m how jx kx c g b e =
      let c₁ = IsCovered-Grows r.order_index jx r g c in
      IsCovered-Grows jx kx (exchange r token m how).0 (SameIndex-Grows jx kx e) (
        exchange-IsCovered jx r token m how c₁ (
          attend-IsWithin (IsAt jx token) (actor_at r token) m how (actor_at-IsWithin jx r token c₁)
            b))

  pub index_order-IsCovered :
      (ix : Dict String) (r : Registry) (id token : String)
      → IsCovered ix r
      → IsCovered ix (index_order r id token)
  unfolding index_order peek
  index_order-IsCovered ix r id token c = record { seeded = c.seeded; held = c.held }

  answer_order-silent :
      (o : Order) (p : Registry × Option Reply) → p.1 ≡ none → (answer_order o p).0 ≡ p.0
  unfolding answer_order
  answer_order-silent o (r, none) h = refl
  answer_order-silent o (r, some x) h = cc h

  answer_order-spoken :
      (o : Order) (p : Registry × Option Reply) (res : PlaceOrderResult)
      → p.1 ≡ some (placed res)
      → (answer_order o p).0 ≡ index_placed res.outcome p.0 o
  unfolding answer_order
  answer_order-spoken o (r, x) res h = rw h refl

  stored-IsIndexed :
      (r : Registry) (o : Order) (how : Exchange)
      → IsIndexed r
      → get o.id r.order_index ≡ none
      → IsIndexed (index_order (exchange r o.token (place_order o) how).0 o.id o.token)
  unfolding index_order
  stored-IsIndexed r o how c f =
      let p = exchange r o.token (place_order o) how in
      let jx = put o.id o.token r.order_index in
      let kx = put o.id o.token p.0.order_index in
      index_order-IsCovered kx p.0 o.id o.token (
        grown-IsIndexed r o.token (place_order o) how jx kx c
          (put-Grows r.order_index o.token o.id (inl f)) (get-put_self o.id o.token r.order_index)
          (put-SameIndex r.order_index p.0.order_index o.id o.token
            (λ k. index-exchange r o.token k (place_order o) how c)))

  placed-IsIndexed :
      (r : Registry) (o : Order) (how : Exchange) (out : Outcome)
      → IsIndexed r
      → get o.id r.order_index ≡ none
      → (out ≡ Outcome.rejected
          → (attend (actor_at r o.token) (place_order o) how).0 ≡ actor_at r o.token)
      → IsIndexed (index_placed out (exchange r o.token (place_order o) how).0 o)
  unfolding index_order
  placed-IsIndexed r o how Outcome.rejected c f same =
      exchange-IsIndexed r o.token (place_order o) how c (
        subst (λ a. IsWithin (IsAt r.order_index o.token) a.orders) (sym (same refl))
          (actor_at-IsWithin r.order_index r o.token c))
  placed-IsIndexed r o how Outcome.filled c f same = stored-IsIndexed r o how c f
  placed-IsIndexed r o how Outcome.resting c f same = stored-IsIndexed r o how c f

  pub answer_order-IsIndexed :
      (r : Registry) (o : Order) (how : Exchange)
      → IsIndexed r
      → get o.id r.order_index ≡ none
      → IsAwaited how
      → IsIndexed (answer_order o (exchange r o.token (place_order o) how)).0
  unfolding handle
  answer_order-IsIndexed r o not_taken c f w =
      let p = exchange r o.token (place_order o) not_taken in
      subst IsIndexed
        (sym
          (answer_order-silent o p (exchange-Exchanged r o.token (place_order o) not_taken).answer))
        (exchange-IsIndexed r o.token (place_order o) not_taken c
          (actor_at-IsWithin r.order_index r o.token c))
  answer_order-IsIndexed r o (abandoned sched) c f w = absurd w
  answer_order-IsIndexed r o (answered sched) c f w =
      let p = exchange r o.token (place_order o) (answered sched) in
      let a = actor_at r o.token in
      let k = (actor_at-IsWithin r.order_index r o.token c).keyed in
      let res = (handle_place_order sched a o).1 in
      subst IsIndexed
        (sym (
          answer_order-spoken o p res
            (exchange-Exchanged r o.token (place_order o) (answered sched)).answer))
        (placed-IsIndexed r o (answered sched) res.outcome c f (rejected-place_order sched a o k))
