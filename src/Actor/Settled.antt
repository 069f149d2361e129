-- ===== src/Actor/Settled.antt =====
-- fillOrder of internal/instrument leaves no order resting at a price that fills it.
use optionx_assignment.Common.{
  ℕ, zero, suc, ◌<◌, true, false, ◌&&◌, String, List, [], ◌∷◌, some, get, put, get-put, ◌≡◌, refl,
  sym, ◌∙◌, ap, inl, inr, ◌⊎◌, arith, ◌==◌, Bool-cases, str_eq-cases, subst, get-put_self,
  get-put_ne,
}
use optionx_assignment.Float.{Float64}
use optionx_assignment.Order.{Status, Order, would_fill}
use optionx_assignment.Actor.State.{ActorState, publish, store_order}
use optionx_assignment.Actor.Filling.{
  Schedule, FillFun, commit_fill, as_filled, activate_order, activate_at, activate_children,
  cancel_sibling, fill_body, fill_upto, fill_order,
}
use optionx_assignment.Actor.Steps.{CanFill, activate, IsKeyed}
use optionx_assignment.Actor.Keyed.{
  orders-store_order, orders-commit_fill, orders-publish, Steps-IsKeyed,
}
use optionx_assignment.Actor.Refine.{
  Runs-refl, Runs-store, RefinesFill, store_order-price, publish-Runs, commit_fill-Runs,
  activate_at-Runs, activate_children-Runs, fill_upto-Runs,
}
use optionx_assignment.Actor.Termination.{
  pendings, Shrinks, activated-lt, commit-le, activate_at-le, fill_upto-le,
}
use optionx_assignment.Actor.Cases.{activate_at_cases, cancel_sibling_cases}

module _ ⦃fl : Float64⦄ where
  -- If the order `id` rests, then the last price does not fill it.
  abbrev pub Quiet : ActorState → String → Type 0
  Quiet s id =
      (o : Order)
      → get id s.orders ≡ some o
      → o.status ≡ Status.resting
      → would_fill o s.last_ltp ≡ false

  pub put-Quiet :
      (s t : ActorState) (k : String) (o : Order)
      → t.orders ≡ put k o s.orders
      → t.last_ltp ≡ s.last_ltp
      → (o.status ≡ Status.resting → would_fill o s.last_ltp ≡ false)
      → (id : String) → Quiet s id ⊎ (id ≡ k)
      → Quiet t id
  put-Quiet s t k o e p q id c x g r = rw p (elim (str_eq-cases k id) [
    | inl (h, u) ↦
        let same : o ≡ x = ground (arith, get-put k id o s.orders) in
        subst (λ (y : Order). would_fill y s.last_ltp ≡ false) same (q (ground arith))
    | inr (h, n) ↦ elim c [
      | inl quiet ↦ quiet x (ground (arith, get-put k id o s.orders)) r
      | inr u ↦ absurd (n (sym u))
    ]
  ])

  pub store-Quiet :
      (s : ActorState) (k : String) (o : Order)
      → (o.status ≡ Status.resting → would_fill o s.last_ltp ≡ false)
      → (id : String) → Quiet s id ⊎ (id ≡ k)
      → Quiet (store_order s k o) id
  store-Quiet s k o =
      put-Quiet s (store_order s k o) k o (orders-store_order s k o) (store_order-price s k o).0

  -- Where fewer than `n` orders are pending, `f` keeps orders quiet and quiets the one it fills.
  abbrev QuietsBelow : ℕ → FillFun → Type 0
  QuietsBelow n f =
      (s : ActorState) (o : Order)
      → IsKeyed s.orders
      → CanFill s o
      → pendings s < n
      → (id : String) → Quiet s id ⊎ (id ≡ o.id)
      → Quiet (f s o s.last_ltp) id

  activate_order-Quiet :
      (n : ℕ) (f : FillFun)
      → QuietsBelow n f
      → (s : ActorState) (o : Order) → IsKeyed s.orders
      → s.has_ltp ≡ true
      → pendings s < suc n
      → get o.id s.orders ≡ some o
      → o.status ≡ Status.pending
      → (j : String) → Quiet s j
      → Quiet (activate_order f s o.id o) j
  unfolding activate_order
  activate_order-Quiet n f hf s o k p lt g pend j quiet =
      elim (Bool-cases (s'.has_ltp && would_fill r s'.last_ltp)) [
        | inl h ↦
            rw h (hf s' r keyed (can h) (omega (arith, fewer)) j (others (str_eq-cases o.id j)))
        | inr h ↦ rw h (
            put-Quiet s s' o.id r stored price.0 (λ _. ground (arith, price.0, price.1)) j
              (inl quiet))
      ]
    where
      r : Order
      r = record o { status = Status.resting }

      s' : ActorState
      s' = store_order s o.id r

      stored : s'.orders ≡ put o.id r s.orders
      stored = orders-store_order s o.id r

      price : (s'.last_ltp ≡ s.last_ltp) × (s'.has_ltp ≡ s.has_ltp)
      price = store_order-price s o.id r

      fewer : pendings s' < pendings s
      fewer = activated-lt s o.id o g (rw pend refl)

      keyed : IsKeyed s'.orders
      keyed = Steps-IsKeyed (Runs-store s r (activate o g pend)).steps k

      can : (s'.has_ltp && would_fill r s'.last_ltp) ≡ true → CanFill s' r
      can h = record {
        priced = ground arith;
        crosses = ground arith;
        open_order = inl (rw stored (get-put_self o.id r s.orders), refl);
      }

      others :
          ((o.id == j) ≡ true) × (o.id ≡ j) ⊎ ((o.id == j) ≡ false) × ¬ (o.id ≡ j)
          → Quiet s' j ⊎ (j ≡ o.id)
      others (inl (_, e)) = inr (sym e)
      others (inr (_, ne)) = inl λ x gx rx.
          rw price.0
            (quiet x (sym (get-put_ne o.id j r s.orders ne) ∙ ap (get j) (sym stored) ∙ gx) rx)

  activate_at-Quiet :
      (n : ℕ) (f : FillFun)
      → QuietsBelow n f
      → (entry : String) (s : ActorState) (id : String) → IsKeyed s.orders
      → s.has_ltp ≡ true
      → pendings s < suc n
      → (j : String) → Quiet s j
      → Quiet (activate_at f entry s id) j
  activate_at-Quiet n f hf entry s id k p lt j quiet =
      activate_at_cases (λ t. Quiet t j) f entry s id k quiet
        (λ o g e pend. activate_order-Quiet n f hf s o k p lt g pend j quiet)

  activate_children-Quiet :
      (n : ℕ) (f : FillFun)
      → QuietsBelow n f
      → RefinesFill f
      → Shrinks f
      → (entry : String) (ids : List String) (s : ActorState) → IsKeyed s.orders
      → s.has_ltp ≡ true
      → pendings s < suc n
      → (j : String) → Quiet s j
      → Quiet (activate_children f entry ids s) j
  unfolding activate_children
  activate_children-Quiet n f hf hr hs entry [] s k p lt j quiet = quiet
  activate_children-Quiet n f hf hr hs entry (id ∷ ids) s k p lt j quiet =
      let r = activate_at-Runs f hr entry s id k in
      activate_children-Quiet n f hf hr hs entry ids (activate_at f entry s id)
        (Steps-IsKeyed r.steps k) (r.has_kept ∙ p) (omega (arith, activate_at-le f hs entry s id)) j
        (activate_at-Quiet n f hf entry s id k p lt j quiet)

  commit_fill-Quiet :
      (s : ActorState) (o : Order)
      → CanFill s o
      → (j : String) → Quiet s j ⊎ (j ≡ o.id)
      → Quiet (commit_fill s o s.last_ltp) j
  commit_fill-Quiet s o c =
      put-Quiet s (commit_fill s o s.last_ltp) o.id (as_filled o)
        (orders-commit_fill s o s.last_ltp) (commit_fill-Runs s o c).ltp_kept (λ e. cc)

  cancel_sibling-Quiet :
      (s : ActorState) (o : Order) (j : String)
      → IsKeyed s.orders
      → Quiet s j
      → Quiet (cancel_sibling s o) j
  cancel_sibling-Quiet s o j k quiet =
      cancel_sibling_cases (λ t. Quiet t j) s o k (λ none_live. quiet)
        (λ b g e l.
          store-Quiet s b.id (record b { status = Status.cancelled }) (λ u. cc) j (inl quiet))

  pub publish-Quiet : (s : ActorState) (j : String) → Quiet s j → Quiet (publish s) j
  publish-Quiet s j quiet = rw (orders-publish s, (publish-Runs s).ltp_kept) quiet

  fill_body-Quiet :
      (n : ℕ) (sched : Schedule) (f : FillFun)
      → QuietsBelow n f
      → RefinesFill f
      → Shrinks f
      → QuietsBelow (suc n) (fill_body sched f)
  unfolding fill_body
  fill_body-Quiet n sched f hf hr hs s o k c lt j quiet =
      let s₁ = commit_fill s o s.last_ltp in
      let s₂ = activate_children f o.id (sched s₁) s₁ in
      let r = commit_fill-Runs s o c in
      let k₁ = Steps-IsKeyed r.steps k in
      let r₂ = activate_children-Runs f hr o.id (sched s₁) s₁ k₁ in
      publish-Quiet _ j (
        cancel_sibling-Quiet s₂ (as_filled o) j (Steps-IsKeyed r₂.steps k₁) (
          activate_children-Quiet n f hf hr hs o.id (sched s₁) s₁ k₁ (r.has_kept ∙ c.priced)
            (omega (arith, commit-le s o s.last_ltp)) j (commit_fill-Quiet s o c j quiet)))

  fill_upto-Quiet : (n : ℕ) (sched : Schedule) → QuietsBelow (suc n) (fill_upto n sched)
  unfolding fill_upto
  fill_upto-Quiet zero sched =
      fill_body-Quiet 0 sched (λ s o p. s) (λ s o k c lt. absurd (omega arith))
        (λ s o k c. Runs-refl s) (λ s o p. omega arith)
  fill_upto-Quiet (suc n) sched =
      fill_body-Quiet (suc n) sched (fill_upto n sched) (fill_upto-Quiet n sched)
        (fill_upto-Runs n sched) (fill_upto-le n sched)

  pub fill_order-Quiet :
      (sched : Schedule) (s : ActorState) (o : Order)
      → IsKeyed s.orders
      → CanFill s o
      → (id : String) → Quiet s id ⊎ (id ≡ o.id)
      → Quiet (fill_order sched s o s.last_ltp) id
  unfolding fill_order
  fill_order-Quiet sched s o k c id quiet =
      fill_upto-Quiet (pendings s) sched s o k c (omega arith) id quiet
