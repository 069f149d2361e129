-- ===== src/Actor/Keyed.antt =====
-- Facts about single steps of the actor that the other proofs share.
use optionx_assignment.Common.{
  String, Dict, some, get, put, get-put, str_eq_iff, ◌≡◌, ap, ◌∙◌, arith,
}
use optionx_assignment.Float.{Float64, Price}
use optionx_assignment.Order.{Status, Order}
use optionx_assignment.Actor.State.{ActorState, publish, store_order}
use optionx_assignment.Actor.Filling.{commit_fill, as_filled}
use optionx_assignment.Actor.Steps.{
  Step, Steps, fill, admit, activate, cancel, announce, reprice, here, next, IsKeyed,
}

module _ ⦃fl : Float64⦄ where
  pub orders-store_order :
      (s : ActorState) (k : String) (o : Order) → (store_order s k o).orders ≡ put k o s.orders
  unfolding store_order
  orders-store_order s k o = ground arith

  pub token-store_order :
      (s : ActorState) (k : String) (o : Order) → (store_order s k o).token ≡ s.token
  unfolding store_order
  token-store_order s k o = ground arith

  pub orders-commit_fill :
      (s : ActorState) (o : Order) (price : Price)
      → (commit_fill s o price).orders ≡ put o.id (as_filled o) s.orders
  unfolding commit_fill
  orders-commit_fill s o price = ground arith

  pub token-commit_fill :
      (s : ActorState) (o : Order) (price : Price) → (commit_fill s o price).token ≡ s.token
  unfolding commit_fill
  token-commit_fill s o price = ground arith

  pub token-publish : (s : ActorState) → (publish s).token ≡ s.token
  unfolding publish
  token-publish s = ground arith

  pub orders-publish : (s : ActorState) → (publish s).orders ≡ s.orders
  unfolding publish
  orders-publish s = ground arith

  pub put-IsKeyed : (m : Dict Order) (o : Order) → IsKeyed m → IsKeyed (put o.id o m)
  put-IsKeyed m o h k o' g = ground (arith, get-put o.id k o m, h k o', str_eq_iff o.id k)

  pub Step-IsKeyed : {s t : ActorState} → Step s t → IsKeyed s.orders → IsKeyed t.orders
  Step-IsKeyed {s} (fill o c) h =
      rw (orders-commit_fill s o s.last_ltp) (put-IsKeyed s.orders (as_filled o) h)
  Step-IsKeyed {s} (admit o g l) h = rw (orders-store_order s o.id o) (put-IsKeyed s.orders o h)
  Step-IsKeyed {s} (activate o g l) h =
      let r : Order = record o { status = Status.resting } in
      rw (orders-store_order s o.id r) (put-IsKeyed s.orders r h)
  Step-IsKeyed {s} (cancel o g l) h =
      let c : Order = record o { status = Status.cancelled } in
      rw (orders-store_order s o.id c) (put-IsKeyed s.orders c h)
  Step-IsKeyed {s} announce h = rw (orders-publish s) h
  Step-IsKeyed (reprice ltp) h = h

  pub Steps-IsKeyed : {s t : ActorState} → Steps s t → IsKeyed s.orders → IsKeyed t.orders
  Steps-IsKeyed here h = h
  Steps-IsKeyed (next r st) h = Step-IsKeyed st (Steps-IsKeyed r h)

  pub get_own :
      (m : Dict Order) (k : String) (o : Order) → IsKeyed m → get k m ≡ some o → get o.id m ≡ some o
  get_own m k o h g = ap (λ j. get j m) (h k o g) ∙ g
