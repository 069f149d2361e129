-- ===== src/Actor/Termination.antt =====
-- The recursion fillOrder, activateChildrenOf, fillOrder of internal/instrument ends: each nested
-- call has one pending order less, so the bound of the model is never met.
use optionx_assignment.Common.{
  ℕ, zero, suc, ◌+◌, ◌≤◌, ◌<◌, true, String, List, [], ◌∷◌, Dict, Option, none, some, get, put, ◌≡◌,
  refl, sym, ◌∙◌, ap, inl, inr, arith, ◌==◌, Bool-cases, Option-cases,
}
use optionx_assignment.Float.{Float64, Price}
use optionx_assignment.Order.{Status, Order, is_pending}
use optionx_assignment.Actor.State.{ActorState, publish, store_order, pending_weight, pending_count}
use optionx_assignment.Actor.Filling.{
  Schedule, FillFun, commit_fill, as_filled, activate_order, activate_at, activate_children,
  cancel_found, cancel_sibling, fill_body, fill_upto, fill_order,
}
use optionx_assignment.Actor.Keyed.{orders-store_order, orders-commit_fill, orders-publish}

module _ ⦃fl : Float64⦄ where
  abbrev weight_at : Option Order → ℕ
  weight_at none = 0
  weight_at (some o) = pending_weight o

  pending_count-put :
      (k : String) (o : Order) (m : Dict Order)
      → pending_count (put k o m) + weight_at (get k m) ≡ pending_count m + pending_weight o
  unfolding pending_count get put
  pending_count-put k o [] = omega arith
  pending_count-put k o ((j, w) ∷ m) = elim (Bool-cases (j == k)) [
    | inl h ↦ rw h (omega arith)
    | inr h ↦ rw h (omega (arith, pending_count-put k o m))
  ]

  abbrev pub pendings : ActorState → ℕ
  pendings s = pending_count s.orders

  store-le :
      (s : ActorState) (k : String) (o : Order)
      → pending_weight o ≡ 0
      → pendings (store_order s k o) ≤ pendings s
  store-le s k o h =
      rw (orders-store_order s k o) (omega (arith, pending_count-put k o s.orders, h))

  pub activated-lt :
      (s : ActorState) (k : String) (o : Order)
      → get k s.orders ≡ some o
      → is_pending o.status ≡ true
      → pendings (store_order s k (record o { status = Status.resting })) < pendings s
  activated-lt s k o g p =
      let r : Order = record o { status = Status.resting } in
      rw (orders-store_order s k r) (ground (arith, pending_count-put k r s.orders))

  pub commit-le :
      (s : ActorState) (o : Order) (price : Price) → pendings (commit_fill s o price) ≤ pendings s
  commit-le s o price =
      rw (orders-commit_fill s o price)
        (omega (arith, pending_count-put o.id (as_filled o) s.orders))

  cancel_found-le : (s : ActorState) (o : Order) → pendings (cancel_found s o) ≤ pendings s
  unfolding cancel_found
  cancel_found-le s o =
      ground (arith, store-le s o.id (record o { status = Status.cancelled }) refl)

  cancel_sibling-le : (s : ActorState) (o : Order) → pendings (cancel_sibling s o) ≤ pendings s
  unfolding cancel_sibling
  cancel_sibling-le s o = elim (Option-cases (get o.sibling_id s.orders)) [
    | inl e ↦ rw (e, cancel_sibling) (ground arith)
    | inr (b, e) ↦ rw (e, cancel_sibling) (ground (arith, cancel_found-le s b))
  ]

  abbrev pub Shrinks : FillFun → Type 0
  Shrinks f = (s : ActorState) (o : Order) (price : Price) → pendings (f s o price) ≤ pendings s

  activate_order-le :
      (f : FillFun)
      → Shrinks f
      → (s : ActorState) (id : String) (o : Order) → get id s.orders ≡ some o
      → is_pending o.status ≡ true
      → pendings (activate_order f s id o) ≤ pendings s
  unfolding activate_order
  activate_order-le f hf s id o g p =
      let r : Order = record o { status = Status.resting } in
      let s' = store_order s id r in ground (arith, activated-lt s id o g p, hf s' r s'.last_ltp)

  pub activate_at-le :
      (f : FillFun)
      → Shrinks f
      → (entry : String) (s : ActorState) (id : String)
      → pendings (activate_at f entry s id) ≤ pendings s
  unfolding activate_at
  activate_at-le f hf entry s id = elim (Option-cases (get id s.orders)) [
    | inl e ↦ rw (e, activate_at) (omega arith)
    | inr (o, e) ↦ rw (e, activate_at) (ground (arith, activate_order-le f hf s id o e))
  ]

  activate_children-le :
      (f : FillFun)
      → Shrinks f
      → (entry : String) (ids : List String) (s : ActorState)
      → pendings (activate_children f entry ids s) ≤ pendings s
  unfolding activate_children
  activate_children-le f hf entry [] s = omega arith
  activate_children-le f hf entry (id ∷ ids) s = omega (
    arith,
    activate_at-le f hf entry s id,
    activate_children-le f hf entry ids (activate_at f entry s id),
  )

  fill_body-le : (sched : Schedule) (f : FillFun) → Shrinks f → Shrinks (fill_body sched f)
  unfolding fill_body
  fill_body-le sched f hf s o price =
      let s₁ = commit_fill s o price in
      let s₂ = activate_children f o.id (sched s₁) s₁ in
      let s₃ = cancel_sibling s₂ (as_filled o) in
      rw (orders-publish s₃) (
        omega (
          arith,
          commit-le s o price,
          activate_children-le f hf o.id (sched s₁) s₁,
          cancel_sibling-le s₂ (as_filled o),
        ))

  pub fill_upto-le : (n : ℕ) (sched : Schedule) → Shrinks (fill_upto n sched)
  unfolding fill_upto
  fill_upto-le zero sched = fill_body-le sched (λ s o p. s) (λ s o p. omega arith)
  fill_upto-le (suc n) sched = fill_body-le sched (fill_upto n sched) (fill_upto-le n sched)

  -- Two fill functions that do the same where fewer than `n` orders are pending.
  abbrev AgreeBelow : ℕ → FillFun → FillFun → Type 0
  AgreeBelow n f g =
      (s : ActorState) (o : Order) (price : Price) → pendings s < n → f s o price ≡ g s o price

  activate_at-agree :
      (n : ℕ) (f g : FillFun)
      → AgreeBelow n f g
      → (entry : String) (s : ActorState) (id : String) → pendings s < suc n
      → activate_at f entry s id ≡ activate_at g entry s id
  unfolding activate_at activate_order
  activate_at-agree n f g h entry s id lt = elim (Option-cases (get id s.orders)) [
    | inl e ↦ rw (e, activate_at) refl
    | inr (o, e) ↦
        let r : Order = record o { status = Status.resting } in
        let s' = store_order s id r in
        rw (e, activate_at) (ground (arith, activated-lt s id o e, h s' r s'.last_ltp))
  ]

  activate_children-agree :
      (n : ℕ) (f g : FillFun)
      → Shrinks f
      → AgreeBelow n f g
      → (entry : String) (ids : List String) (s : ActorState) → pendings s < suc n
      → activate_children f entry ids s ≡ activate_children g entry ids s
  unfolding activate_children
  activate_children-agree n f g hf h entry [] s lt = refl
  activate_children-agree n f g hf h entry (id ∷ ids) s lt =
      activate_children-agree n f g hf h entry ids (activate_at f entry s id)
        (omega (arith, activate_at-le f hf entry s id))
      ∙ ap (activate_children g entry ids) (activate_at-agree n f g h entry s id lt)

  fill_body-agree :
      (n : ℕ) (sched : Schedule) (f g : FillFun)
      → Shrinks f
      → AgreeBelow n f g
      → AgreeBelow (suc n) (fill_body sched f) (fill_body sched g)
  unfolding fill_body
  fill_body-agree n sched f g hf h s o price lt =
      let s₁ = commit_fill s o price in
      ap (λ x. publish (cancel_sibling x (as_filled o)))
        (activate_children-agree n f g hf h o.id (sched s₁) s₁ (omega (arith, commit-le s o price)))

  fill_upto-agree :
      (n m : ℕ) (sched : Schedule)
      → n ≤ m
      → AgreeBelow (suc n) (fill_upto n sched) (fill_upto m sched)
  unfolding fill_upto
  fill_upto-agree zero zero sched le = λ s o price lt. refl
  fill_upto-agree zero (suc m) sched le =
      fill_body-agree 0 sched (λ s o p. s) (fill_upto m sched) (λ s o p. omega arith)
        (λ s o p lt. absurd (omega arith))
  fill_upto-agree (suc n) zero sched le = absurd (omega arith)
  fill_upto-agree (suc n) (suc m) sched le =
      fill_body-agree (suc n) sched (fill_upto n sched) (fill_upto m sched) (fill_upto-le n sched)
        (fill_upto-agree n m sched (omega arith))

  -- Any bound on the nesting that is no less than the number of pending orders gives the result of
  -- `fill_order`.
  pub fill_upto_enough :
      (sched : Schedule) (s : ActorState) (o : Order) (price : Price) (n : ℕ)
      → pendings s ≤ n
      → fill_upto n sched s o price ≡ fill_order sched s o price
  unfolding fill_order
  fill_upto_enough sched s o price n le =
      sym (fill_upto-agree (pendings s) n sched le s o price (omega arith))

  -- `fill_order` is the code of fillOrder calling itself through activateChildrenOf, with no bound.
  pub fill_order_lem :
      (sched : Schedule) (s : ActorState) (o : Order) (price : Price)
      → fill_order sched s o price ≡ fill_body sched (fill_order sched) s o price
  unfolding fill_upto
  fill_order_lem sched s o price =
      sym (fill_upto_enough sched s o price (suc (pendings s)) (omega arith))
      ∙ fill_body-agree (pendings s) sched (fill_upto (pendings s) sched) (fill_order sched)
          (fill_upto-le (pendings s) sched)
          (λ t q p lt. fill_upto_enough sched t q p (pendings s) (omega arith)) s o price
          (omega arith)
