-- ===== src/Actor/Refine.antt =====
-- fillOrder, activateChildrenOf and cancelSiblingOf of internal/instrument go through steps of the
-- abstract machine, and leave the price alone.
use optionx_assignment.Common.{
  ℕ, zero, suc, true, ◌&&◌, String, List, [], ◌∷◌, some, get, get-put_self, ◌≡◌, refl, ◌∙◌, inl,
  inr, arith, Bool-cases,
}
use optionx_assignment.Float.{Float64}
use optionx_assignment.Order.{Status, Order, would_fill}
use optionx_assignment.Actor.State.{ActorState, publish, store_order, pending_count}
use optionx_assignment.Actor.Filling.{
  Schedule, FillFun, commit_fill, as_filled, activate_order, activate_at, activate_children,
  cancel_sibling, fill_body, fill_upto, fill_order,
}
use optionx_assignment.Actor.Steps.{
  CanFill, Step, Steps, fill, activate, cancel, announce, here, one, Steps-trans, IsKeyed,
}
use optionx_assignment.Actor.Keyed.{orders-store_order, Steps-IsKeyed}
use optionx_assignment.Actor.Cases.{activate_at_cases, cancel_sibling_cases}

module _ ⦃fl : Float64⦄ where
  pub record Runs (s t : ActorState) : Type 0 where
    pub steps : Steps s t
    pub ltp_kept : t.last_ltp ≡ s.last_ltp
    pub has_kept : t.has_ltp ≡ s.has_ltp

  pub Runs-refl : (s : ActorState) → Runs s s
  Runs-refl s = record { steps = here; ltp_kept = refl; has_kept = refl }

  pub Runs-trans : {s t u : ActorState} → Runs s t → Runs t u → Runs s u
  Runs-trans p q = record {
    steps = Steps-trans p.steps q.steps;
    ltp_kept = q.ltp_kept ∙ p.ltp_kept;
    has_kept = q.has_kept ∙ p.has_kept;
  }

  pub store_order-price :
      (s : ActorState) (k : String) (o : Order)
      → ((store_order s k o).last_ltp ≡ s.last_ltp) × ((store_order s k o).has_ltp ≡ s.has_ltp)
  unfolding store_order
  store_order-price s k o = ground arith

  pub Runs-store :
      (s : ActorState) (o : Order) → Step s (store_order s o.id o) → Runs s (store_order s o.id o)
  Runs-store s o st = record {
    steps = one st;
    ltp_kept = (store_order-price s o.id o).0;
    has_kept = (store_order-price s o.id o).1;
  }

  pub commit_fill-Runs :
      (s : ActorState) (o : Order) → CanFill s o → Runs s (commit_fill s o s.last_ltp)
  unfolding commit_fill
  commit_fill-Runs s o c = record {
    steps = one (fill o c);
    ltp_kept = ground arith;
    has_kept = ground arith;
  }

  pub publish-Runs : (s : ActorState) → Runs s (publish s)
  unfolding publish
  publish-Runs s = record { steps = one announce; ltp_kept = ground arith; has_kept = ground arith }

  -- A fill function that goes through steps, at the current price.
  abbrev pub RefinesFill : FillFun → Type 0
  RefinesFill f =
      (s : ActorState) (o : Order) → IsKeyed s.orders → CanFill s o → Runs s (f s o s.last_ltp)

  pub activate_order-Runs :
      (f : FillFun)
      → RefinesFill f
      → (s : ActorState) (o : Order) → IsKeyed s.orders
      → get o.id s.orders ≡ some o
      → o.status ≡ Status.pending
      → Runs s (activate_order f s o.id o)
  unfolding activate_order
  activate_order-Runs f hf s o k g p = elim (Bool-cases (s'.has_ltp && would_fill r s'.last_ltp)) [
    | inl h ↦ rw h (Runs-trans st (hf s' r (Steps-IsKeyed st.steps k) (can h)))
    | inr h ↦ rw h st
  ]
    where
      r : Order
      r = record o { status = Status.resting }

      s' : ActorState
      s' = store_order s o.id r

      st : Runs s s'
      st = Runs-store s r (activate o g p)

      can : (s'.has_ltp && would_fill r s'.last_ltp) ≡ true → CanFill s' r
      can h = record {
        priced = ground arith;
        crosses = ground arith;
        open_order = inl (rw (orders-store_order s o.id r) (get-put_self o.id r s.orders), refl);
      }

  pub activate_at-Runs :
      (f : FillFun)
      → RefinesFill f
      → (entry : String) (s : ActorState) (id : String) → IsKeyed s.orders
      → Runs s (activate_at f entry s id)
  activate_at-Runs f hf entry s id k =
      activate_at_cases (Runs s) f entry s id k (Runs-refl s)
        (λ o g e p. activate_order-Runs f hf s o k g p)

  pub activate_children-Runs :
      (f : FillFun)
      → RefinesFill f
      → (entry : String) (ids : List String) (s : ActorState) → IsKeyed s.orders
      → Runs s (activate_children f entry ids s)
  unfolding activate_children
  activate_children-Runs f hf entry [] s k = Runs-refl s
  activate_children-Runs f hf entry (id ∷ ids) s k =
      let r = activate_at-Runs f hf entry s id k in
      Runs-trans r
        (activate_children-Runs f hf entry ids (activate_at f entry s id) (Steps-IsKeyed r.steps k))

  pub cancel_sibling-Runs :
      (s : ActorState) (o : Order) → IsKeyed s.orders → Runs s (cancel_sibling s o)
  cancel_sibling-Runs s o k =
      cancel_sibling_cases (Runs s) s o k (λ none_live. Runs-refl s)
        (λ b g e l. Runs-store s (record b { status = Status.cancelled }) (cancel b g l))

  -- Everything that a fill does behind its commitment.
  fill_body-rest :
      (sched : Schedule) (f : FillFun)
      → RefinesFill f
      → (s : ActorState) (o : Order) → IsKeyed (commit_fill s o s.last_ltp).orders
      → Runs (commit_fill s o s.last_ltp) (fill_body sched f s o s.last_ltp)
  unfolding fill_body
  fill_body-rest sched f hf s o k =
      let s₁ = commit_fill s o s.last_ltp in
      let s₂ = activate_children f o.id (sched s₁) s₁ in
      let r₁ = activate_children-Runs f hf o.id (sched s₁) s₁ k in
      let r₂ = Runs-trans r₁ (cancel_sibling-Runs s₂ (as_filled o) (Steps-IsKeyed r₁.steps k)) in
      Runs-trans r₂ (publish-Runs (cancel_sibling s₂ (as_filled o)))

  fill_body-Runs :
      (sched : Schedule) (f : FillFun) → RefinesFill f → RefinesFill (fill_body sched f)
  fill_body-Runs sched f hf s o k c =
      let r = commit_fill-Runs s o c in
      Runs-trans r (fill_body-rest sched f hf s o (Steps-IsKeyed r.steps k))

  pub fill_upto-Runs : (n : ℕ) (sched : Schedule) → RefinesFill (fill_upto n sched)
  unfolding fill_upto
  fill_upto-Runs zero sched = fill_body-Runs sched (λ s o p. s) (λ s o k c. Runs-refl s)
  fill_upto-Runs (suc n) sched = fill_body-Runs sched (fill_upto n sched) (fill_upto-Runs n sched)

  pub fill_order-Runs : (sched : Schedule) → RefinesFill (fill_order sched)
  unfolding fill_order
  fill_order-Runs sched s o k c = fill_upto-Runs (pending_count s.orders) sched s o k c

  pub fill_order-rest :
      (sched : Schedule) (s : ActorState) (o : Order)
      → IsKeyed (commit_fill s o s.last_ltp).orders
      → Runs (commit_fill s o s.last_ltp) (fill_order sched s o s.last_ltp)
  unfolding fill_order fill_upto
  fill_order-rest sched s o k = upto (pending_count s.orders)
    where
      upto : (n : ℕ) → Runs (commit_fill s o s.last_ltp) (fill_upto n sched s o s.last_ltp)
      upto zero = fill_body-rest sched (λ s o p. s) (λ s o k c. Runs-refl s) s o k
      upto (suc n) = fill_body-rest sched (fill_upto n sched) (fill_upto-Runs n sched) s o k
