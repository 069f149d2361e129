-- ===== src/Actor/Placing.antt =====
-- handlePlaceOrder of internal/instrument/actor_state.go: what its answer says is true of the state
-- that the handler leaves.
use optionx_assignment.Common.{
  Bool, true, false, ◌&&◌, Option, some, get, put, get-put_self, ◌≡◌, refl, ◌∙◌, ap, inl, inr, ◌==◌,
  str_eq_iff, Bool-cases, Option-cases,
}
use optionx_assignment.Float.{Float64}
use optionx_assignment.Order.{Status, Order, validate, would_fill}
use optionx_assignment.Actor.Messages.{
  Outcome, PlaceOrderResult, Reason, Reply, place_order, placed,
}
use optionx_assignment.Actor.State.{ActorState}
use optionx_assignment.Actor.Filling.{Schedule, as_filled, fill_of, fill_order, commit_fill}
use optionx_assignment.Actor.OrderHandlers.{accept_order, handle_place_order, place_rejected}
use optionx_assignment.Actor.Handle.{handle}
use optionx_assignment.Actor.Steps.{IsNew, Steps, IsKeyed}
use optionx_assignment.Actor.Keyed.{orders-store_order, orders-commit_fill, put-IsKeyed}
use optionx_assignment.Actor.Refine.{fill_order-rest}
use optionx_assignment.Actor.Lifecycle.{Steps-Later}

module _ ⦃fl : Float64⦄ where
  -- The last price, if there is one, fills the order.
  abbrev pub crosses : ActorState → Order → Bool
  crosses s o = s.has_ltp && would_fill o s.last_ltp

  -- What a result says of the order, before (in `s`) and after (in `t`).
  pub record WasFilled (s t : ActorState) (o : Order) (r : PlaceOrderResult) : Type 0 where
    pub new : IsNew s o
    pub crossed : crosses s o ≡ true
    pub stored : get o.id t.orders ≡ some (as_filled o)
    pub shown : r.order ≡ as_filled o
    pub reported : r.fill ≡ some (fill_of o s.last_ltp)

  pub record NowRests (s t : ActorState) (o : Order) (r : PlaceOrderResult) : Type 0 where
    pub new : IsNew s o
    pub not_crossed : crosses s o ≡ false
    pub stored : t.orders ≡ put o.id (record o { status = Status.resting }) s.orders
    pub shown : r.order ≡ record o { status = Status.resting }

  pub record WasRejected (s t : ActorState) (o : Order) (r : PlaceOrderResult) : Type 0 where
    pub refused : ¬ IsNew s o
    pub unchanged : t ≡ s
    pub shown : r.order ≡ o

  abbrev pub SaysOf : Outcome → ActorState → ActorState → Order → PlaceOrderResult → Type 0
  SaysOf Outcome.filled = WasFilled
  SaysOf Outcome.resting = NowRests
  SaysOf Outcome.rejected = WasRejected

  abbrev pub IsTrue : ActorState → Order → ActorState × PlaceOrderResult → Type 0
  IsTrue s o (t, r) = SaysOf r.outcome s t o r

  stays_filled :
      (s t : ActorState) (o : Order)
      → Steps s t
      → get o.id s.orders ≡ some (as_filled o)
      → get o.id t.orders ≡ some (as_filled o)
  stays_filled s t o steps g =
      let l = Steps-Later o.id (as_filled o) steps g in
      l.found ∙ ap (λ st. some (record o { status = st })) l.forward

  get-fill_order :
      (sched : Schedule) (s : ActorState) (o : Order)
      → IsKeyed s.orders
      → get o.id (fill_order sched s o s.last_ltp).orders ≡ some (as_filled o)
  get-fill_order sched s o k =
      let s₁ = commit_fill s o s.last_ltp in
      let e = orders-commit_fill s o s.last_ltp in
      let keyed : IsKeyed s₁.orders = rw e (put-IsKeyed s.orders (as_filled o) k) in
      stays_filled s₁ (fill_order sched s o s.last_ltp) o (fill_order-rest sched s o keyed).steps
        (ap (get o.id) e ∙ get-put_self o.id (as_filled o) s.orders)

  accept_order-IsTrue :
      (sched : Schedule) (s : ActorState) (o : Order)
      → IsKeyed s.orders
      → IsNew s o
      → IsTrue s o (accept_order sched s o)
  unfolding accept_order
  accept_order-IsTrue sched s o k n = elim (Bool-cases (crosses s o)) [
    | inl c ↦ rw c (record {
      new = n;
      crossed = c;
      stored = get-fill_order sched s o k;
      shown = refl;
      reported = refl;
    })
    | inr c ↦ rw c (record {
      new = n;
      not_crossed = c;
      stored = orders-store_order s o.id (record o { status = Status.resting });
      shown = refl;
    })
  ]

  rejected-IsTrue :
      (s : ActorState) (o : Order) (why : Reason)
      → ¬ IsNew s o
      → IsTrue s o (s, place_rejected o why)
  rejected-IsTrue s o why n = record { refused = n; unchanged = refl; shown = refl }

  pub handle_place_order-IsTrue :
      (sched : Schedule) (s : ActorState) (o : Order)
      → IsKeyed s.orders
      → IsTrue s o (handle_place_order sched s o)
  unfolding handle_place_order
  handle_place_order-IsTrue sched s o k = elim (Option-cases (validate o)) [
    | inr (e, h) ↦
        rw (h, handle_place_order) (rejected-IsTrue s o (Reason.invalid e) (λ n. cc (n.valid, h)))
    | inl h ↦ elim (Bool-cases (o.token == s.token)) [
      | inr t ↦
          rw (h, handle_place_order, t)
            (rejected-IsTrue s o Reason.token_mismatch
              (λ n. cc (t, (str_eq_iff o.token s.token).1 n.owned)))
      | inl t ↦ elim (Option-cases (get o.id s.orders)) [
        | inr (e, g) ↦
            rw (h, handle_place_order, t, g)
              (rejected-IsTrue s o (Reason.duplicate_id o.id) (λ n. cc (n.unknown, g)))
        | inl g ↦
            rw (h, handle_place_order, t, g)
              (accept_order-IsTrue sched s o k
                (record { unknown = g; owned = (str_eq_iff o.token s.token).0 t; valid = h }))
      ]
    ]
  ]

  -- A placing that was handled, from the state before to the state after with the reply.
  pub record AnsweredTruly (s : ActorState) (o : Order) (out : ActorState × Option Reply)
      : Type 0 where
    pub result : PlaceOrderResult
    pub reply : out.1 ≡ some (placed result)
    pub true_of : SaysOf result.outcome s out.0 o result

  -- In a state whose orders stand under their ids, every order that is placed is answered, and truly:
  -- filled, if it is new and valid and the last price fills it, and it is then stored as filled, and
  -- the fill of the answer is its fill at that price; resting, if it is new and valid and the price
  -- does not fill it, and it is then stored as resting and no other order changes; rejected, only if
  -- it is of another token, invalid, or of an id already known, and nothing changes.
  pub handle-AnsweredTruly :
      (sched : Schedule) (s : ActorState) (o : Order)
      → IsKeyed s.orders
      → AnsweredTruly s o (handle sched s (place_order o))
  unfolding handle
  handle-AnsweredTruly sched s o k = record {
    result = (handle_place_order sched s o).1;
    reply = refl;
    true_of = handle_place_order-IsTrue sched s o k;
  }
