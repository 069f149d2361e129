-- ===== src/Actor/Cancelling.antt =====
-- handleCancelOrder of internal/instrument/actor_state.go: the answer is always given, and it is true of
-- the state that the handler leaves.
use optionx_assignment.Common.{
  String, Option, some, none, get, put, get-put_self, ◌≡◌, refl, sym, ◌∙◌, ap, inl, inr,
  Option-cases,
}
use optionx_assignment.Float.{Float64}
use optionx_assignment.Order.{Status, Order}
use optionx_assignment.Actor.Messages.{
  CancelOutcome, CancelOrderResult, cancelled, already_filled, already_cancelled, not_found,
  cancel_order, Reply, cancel_done,
}
use optionx_assignment.Actor.State.{ActorState, store_order}
use optionx_assignment.Actor.Filling.{Schedule}
use optionx_assignment.Actor.OrderHandlers.{cancel_known, handle_cancel_order}
use optionx_assignment.Actor.Handle.{reply_of, handle}
use optionx_assignment.Actor.Steps.{IsKeyed, IsLive}
use optionx_assignment.Actor.Keyed.{orders-store_order}
use optionx_assignment.Actor.Sound.{IsKnown}

module _ ⦃fl : Float64⦄ where
  -- Every order has one of the four statuses.
  abbrev pub AreKnown : ActorState → Type 0
  AreKnown s = (k : String) (o : Order) → get k s.orders ≡ some o → IsKnown o.status

  -- What an outcome says of the order, before (in `s`) and after (in `t`).
  abbrev pub IsTrueOf : CancelOutcome → ActorState → ActorState → String → Order → Type 0
  IsTrueOf cancelled s t id o =
      (before : Order) × (get id s.orders ≡ some before)
      × IsLive before.status
      × (get id t.orders ≡ some o)
      × (o ≡ record before { status = Status.cancelled })
  IsTrueOf already_filled s t id o =
      (t ≡ s) × (get id s.orders ≡ some o) × (o.status ≡ Status.filled)
  IsTrueOf already_cancelled s t id o =
      (t ≡ s) × (get id s.orders ≡ some o) × (o.status ≡ Status.cancelled)
  IsTrueOf not_found s t id o = (t ≡ s) × (get id s.orders ≡ none)

  abbrev pub AnswersWith : ActorState → String → ActorState × Option CancelOrderResult → Type 0
  AnswersWith s id (t, none) = ⊥
  AnswersWith s id (t, some r) = IsTrueOf r.outcome s t id r.order

  cancel_live :
      (s : ActorState) (id : String) (o : Order)
      → o.id ≡ id
      → get id s.orders ≡ some o
      → IsLive o.status
      → IsTrueOf cancelled s
          (store_order s o.id (record o { status = Status.cancelled }))
          id
          (record o { status = Status.cancelled })
  cancel_live s id o e g l =
      let c : Order = record o { status = Status.cancelled } in
      (
        o,
        g,
        l,
        rw (orders-store_order s o.id c)
            (ap (λ k. get k (put o.id c s.orders)) (sym e) ∙ get-put_self o.id c s.orders),
        refl,
      )

  cancel_known_answers :
      (s : ActorState) (id : String) (o : Order) (t : Status)
      → o.id ≡ id
      → get id s.orders ≡ some o
      → o.status ≡ t
      → IsKnown t
      → AnswersWith s id (cancel_known s o t)
  unfolding cancel_known
  cancel_known_answers s id o Status.resting e g st k = cancel_live s id o e g (rw st tt)
  cancel_known_answers s id o Status.pending e g st k = cancel_live s id o e g (rw st tt)
  cancel_known_answers s id o Status.filled e g st k = (refl, g, st)
  cancel_known_answers s id o Status.cancelled e g st k = (refl, g, st)
  cancel_known_answers s id o (Status.other x) e g st k = absurd k

  handle_cancel_order_answers :
      (s : ActorState) (id : String)
      → IsKeyed s.orders
      → AreKnown s
      → AnswersWith s id (handle_cancel_order s id)
  unfolding handle_cancel_order
  handle_cancel_order_answers s id k v = elim (Option-cases (get id s.orders)) [
    | inl g ↦ rw (g, handle_cancel_order) (refl, g)
    | inr (o, g) ↦
        rw (g, handle_cancel_order)
          (cancel_known_answers s id o o.status (k id o g) g refl (v id o g))
  ]

  -- A cancellation that was handled, from the state before to the state after with the reply.
  pub record Answered (s : ActorState) (id : String) (out : ActorState × Option Reply)
      : Type 0 where
    pub result : CancelOrderResult
    pub reply : out.1 ≡ some (cancel_done result)
    pub true_of : IsTrueOf result.outcome s out.0 id result.order

  Answered-of :
      (s : ActorState) (id : String) (out : ActorState × Option CancelOrderResult)
      → AnswersWith s id out
      → Answered s id (reply_of out)
  Answered-of s id (t, none) h = absurd h
  Answered-of s id (t, some r) h = record { result = r; reply = refl; true_of = h }

  -- In a state whose orders stand under their ids and have one of the four statuses, every
  -- cancellation is answered, and truly: cancelled, if the order was pending or resting, and it is now
  -- stored as cancelled with nothing else of it changed; already filled or already cancelled, if the
  -- order is so, and nothing changes; not found, if the id is unknown, and nothing changes.
  pub handle-Answered :
      (sched : Schedule) (s : ActorState) (id : String)
      → IsKeyed s.orders
      → AreKnown s
      → Answered s id (handle sched s (cancel_order id))
  unfolding handle
  handle-Answered sched s id k v =
      Answered-of s id (handle_cancel_order s id) (handle_cancel_order_answers s id k v)
