-- ===== src/Actor/Cases.antt =====
-- How the handlers of internal/instrument branch: a property of the state that a handler leaves holds
-- if it holds of the old state and of the state behind each guard.
use optionx_assignment.Common.{
  true, false, not, ◌&&◌, ◌||◌, subst, String, [], ◌∷◌, some, get, ◌≡◌, ◌≢◌, refl, inl, inr, arith,
  ◌==◌, str_eq_iff, Bool-cases, Option-cases,
}
use optionx_assignment.Float.{Float64, Price}
use optionx_assignment.Order.{Status, Order, validate, would_fill, is_resting, is_pending}
use optionx_assignment.Actor.Messages.{cancel_order}
use optionx_assignment.Actor.State.{ActorState, store_order}
use optionx_assignment.Actor.Filling.{
  Schedule, FillFun, fill_order, activate_order, activate_at, cancel_sibling,
}
use optionx_assignment.Actor.OrderHandlers.{
  accept_order, handle_place_order, cancel_known, handle_cancel_order, tick_at,
}
use optionx_assignment.Actor.Handle.{
  validate_bracket, first_known, accept_bracket, handle_place_bracket, handle,
}
use optionx_assignment.Actor.Steps.{IsLive, IsKeyed, IsNew}
use optionx_assignment.Actor.Keyed.{get_own}
use optionx_assignment.Actor.Admission.{
  AreDistinct, validate_legs-AreDistinct, validate_bracket-legs, AreNew, wrong_token,
  first_known-AreNew, IsLive-of_test, Dead, Dead-of_test, first_of_reply,
}

module _ {ℓ} ⦃fl : Float64⦄ (P : ActorState → Type ℓ) where
  pub place_order_cases :
      (sched : Schedule) (s : ActorState) (o : Order)
      → P s
      → (IsNew s o → P (accept_order sched s o).0)
      → P (handle_place_order sched s o).0
  unfolding handle_place_order
  place_order_cases sched s o refused accepted = elim (Option-cases (validate o)) [
    | inr (e, h) ↦ rw (h, handle_place_order) refused
    | inl h ↦
        rw (h, handle_place_order)
          (elim (Bool-cases (o.token == s.token)) [
            | inr t ↦ rw t refused
            | inl t ↦ rw t (elim (Option-cases (get o.id s.orders)) [
              | inr (e, g) ↦ rw g refused
              | inl g ↦ rw g (
                  accepted
                    (record { unknown = g; owned = (str_eq_iff o.token s.token).0 t; valid = h }))
            ])
          ])
  ]

  pub place_bracket_cases :
      (sched : Schedule) (s : ActorState) (entry target stop : Order)
      → P s
      → (AreNew s entry target stop
          → AreDistinct entry target stop
          → P (accept_bracket sched s entry target stop).0)
      → P (handle_place_bracket sched s entry target stop).0
  unfolding handle_place_bracket
  place_bracket_cases sched s entry target stop refused accepted =
      let ids = entry.id ∷ target.id ∷ stop.id ∷ [] in
      elim (Option-cases (validate_bracket entry target stop)) [
        | inr (e, h) ↦ rw (h, handle_place_bracket) refused
        | inl h ↦
            rw (h, handle_place_bracket)
              (elim (Bool-cases (wrong_token s entry target stop)) [
                | inl t ↦ rw t refused
                | inr t ↦ rw t (elim (Option-cases (first_known s ids)) [
                  | inr (id, g) ↦ rw (g, handle_place_bracket) refused
                  | inl g ↦
                      rw (g, handle_place_bracket)
                        (accepted (first_known-AreNew s entry target stop h t g) (
                          validate_legs-AreDistinct entry target stop
                            (validate_bracket-legs entry target stop h)))
                ])
              ])
      ]

  cancel_known_cases :
      (s : ActorState) (o : Order) (t : Status)
      → o.status ≡ t
      → P s
      → (IsLive o.status → P (store_order s o.id (record o { status = Status.cancelled })))
      → P (cancel_known s o t).0
  unfolding cancel_known
  cancel_known_cases s o Status.resting e same cancelled = cancelled (rw e tt)
  cancel_known_cases s o Status.pending e same cancelled = cancelled (rw e tt)
  cancel_known_cases s o Status.filled e same cancelled = same
  cancel_known_cases s o Status.cancelled e same cancelled = same
  cancel_known_cases s o (Status.other x) e same cancelled = same

  pub cancel_order_cases :
      (sched : Schedule) (s : ActorState) (id : String)
      → IsKeyed s.orders
      → P s
      → ((o : Order)
          → get o.id s.orders ≡ some o
          → IsLive o.status
          → P (store_order s o.id (record o { status = Status.cancelled })))
      → P (handle sched s (cancel_order id)).0
  unfolding handle_cancel_order handle
  cancel_order_cases sched s id k same cancelled =
      rw (first_of_reply (handle_cancel_order s id)) (elim (Option-cases (get id s.orders)) [
        | inl g ↦ rw (g, handle_cancel_order) same
        | inr (o, g) ↦
            rw (g, handle_cancel_order)
              (cancel_known_cases s o o.status refl same (cancelled o (get_own s.orders id o k g)))
      ])

  -- A round of the tick loop does nothing, or fills the order that it is at.
  pub tick_at_cases :
      (sched : Schedule) (ltp : Price) (s : ActorState) (id : String)
      → IsKeyed s.orders
      → (((o : Order)
            → get id s.orders ≡ some o
            → o.status ≡ Status.resting
            → would_fill o ltp ≡ false)
          → P s)
      → ((o : Order)
          → get o.id s.orders ≡ some o
          → o.id ≡ id
          → o.status ≡ Status.resting
          → would_fill o ltp ≡ true
          → P (fill_order sched s o ltp))
      → P (tick_at sched ltp s id)
  unfolding tick_at
  tick_at_cases sched ltp s id k idle fires = elim (Option-cases (get id s.orders)) [
    | inl g ↦ rw (g, tick_at) (idle (λ o f r. cc))
    | inr (o, g) ↦
        rw (g, tick_at)
          (elim (Bool-cases (is_resting o.status)) [
            | inr r ↦ rw r (idle (λ x f rx. ground (arith, g, f)))
            | inl r ↦ rw r (elim (Bool-cases (would_fill o ltp)) [
              | inr w ↦ rw w (idle (λ x f rx. ground (arith, g, f)))
              | inl w ↦ rw w (fires o (get_own s.orders id o k g) (k id o g) (ground arith) w)
            ])
          ])
  ]

  -- A round of the activation loop does nothing, or activates the pending child that it is at.
  pub activate_at_cases :
      (f : FillFun) (entry : String) (s : ActorState) (id : String)
      → IsKeyed s.orders
      → P s
      → ((o : Order)
          → get o.id s.orders ≡ some o
          → o.entry_id ≡ entry
          → o.status ≡ Status.pending
          → P (activate_order f s o.id o))
      → P (activate_at f entry s id)
  unfolding activate_at
  activate_at_cases f entry s id k idle active = elim (Option-cases (get id s.orders)) [
    | inl g ↦ rw (g, activate_at) idle
    | inr (o, g) ↦
        let test = not (o.entry_id == entry) || not (is_pending o.status) in
        rw (g, activate_at)
          (elim (Bool-cases test) [
            | inl h ↦ rw h idle
            | inr h ↦ rw h (
                subst (λ i. P (activate_order f s i o)) (k id o g)
                  (active o (get_own s.orders id o k g)
                    (ground (arith, str_eq_iff o.entry_id entry)) (ground arith)))
          ])
  ]

  -- cancelSiblingOf does nothing, and then there is no live sibling, or cancels the live sibling.
  pub cancel_sibling_cases :
      (s : ActorState) (o : Order)
      → IsKeyed s.orders
      → (((b : Order) → get o.sibling_id s.orders ≡ some b → o.sibling_id ≢ "" → ¬ IsLive b.status)
          → P s)
      → ((b : Order)
          → get b.id s.orders ≡ some b
          → b.id ≡ o.sibling_id
          → IsLive b.status
          → P (store_order s b.id (record b { status = Status.cancelled })))
      → P (cancel_sibling s o)
  unfolding cancel_sibling
  cancel_sibling_cases s o k idle cancelled = elim (Bool-cases (o.sibling_id == "")) [
    | inl h ↦ rw h (idle (λ b g n. absurd (n ((str_eq_iff o.sibling_id "").0 h))))
    | inr h ↦ rw h (elim (Option-cases (get o.sibling_id s.orders)) [
      | inl g ↦ rw (g, cancel_sibling) (idle (λ b f n. cc))
      | inr (b, g) ↦
          let dead = not (is_resting b.status) && not (is_pending b.status) in
          rw (g, cancel_sibling)
            (elim (Bool-cases dead) [
              | inl t ↦ rw t (
                  idle (λ c f n.
                    let same : b ≡ c = ground (arith, g, f) in Dead-of_test c (subst Dead same t)))
              | inr t ↦ rw t (
                  cancelled b (get_own s.orders o.sibling_id b k g) (k o.sibling_id b g)
                    (IsLive-of_test b t))
            ])
    ])
  ]
