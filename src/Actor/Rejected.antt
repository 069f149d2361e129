-- ===== src/Actor/Rejected.antt =====
-- What a rejection by the handlers of internal/instrument leaves: the state as it was.
use optionx_assignment.Common.{
  ◌&&◌, String, List, [], ◌∷◌, ◌≡◌, refl, inl, inr, Bool-cases, Option-cases,
}
use optionx_assignment.Float.{Float64}
use optionx_assignment.Order.{Order, would_fill}
use optionx_assignment.Actor.Messages.{Outcome, PlaceBracketResult, PlaceOrderResult}
use optionx_assignment.Actor.State.{ActorState}
use optionx_assignment.Actor.Filling.{Schedule}
use optionx_assignment.Actor.OrderHandlers.{handle_place_order}
use optionx_assignment.Actor.Handle.{
  handle_place_bracket, validate_bracket, first_known, accept_bracket, place_entry,
}
use optionx_assignment.Actor.Steps.{IsKeyed}
use optionx_assignment.Actor.Admission.{wrong_token}
use optionx_assignment.Actor.Placing.{SaysOf, handle_place_order-IsTrue}

module _ ⦃fl : Float64⦄ where
  says_rejected :
      (out : Outcome) (s t : ActorState) (o : Order) (r : PlaceOrderResult)
      → out ≡ Outcome.rejected
      → SaysOf out s t o r
      → t ≡ s
  says_rejected Outcome.rejected s t o r h w = w.unchanged
  says_rejected Outcome.filled s t o r h w = cc h
  says_rejected Outcome.resting s t o r h w = cc h

  pub rejected-place_order :
      (sched : Schedule) (s : ActorState) (o : Order)
      → IsKeyed s.orders
      → (handle_place_order sched s o).1.outcome ≡ Outcome.rejected
      → (handle_place_order sched s o).0 ≡ s
  rejected-place_order sched s o k h =
      let (t, r) = handle_place_order sched s o in
      says_rejected r.outcome s t o r h (handle_place_order-IsTrue sched s o k)

  -- A rejection that changes nothing.
  abbrev LeavesAsIs : ActorState → ActorState × PlaceBracketResult → Type 0
  LeavesAsIs s (t, r) = r.outcome ≡ Outcome.rejected → t ≡ s

  place_entry_accepts :
      (sched : Schedule) (s u : ActorState) (entry target stop : Order)
      → LeavesAsIs u (place_entry sched s entry target stop)
  unfolding place_entry
  place_entry_accepts sched s u entry target stop =
      elim (Bool-cases (s.has_ltp && would_fill entry s.last_ltp)) [
        | inl c ↦ rw c (λ h. cc h)
        | inr c ↦ rw c (λ h. cc h)
      ]

  pub rejected-place_bracket :
      (sched : Schedule) (s : ActorState) (entry target stop : Order)
      → (handle_place_bracket sched s entry target stop).1.outcome ≡ Outcome.rejected
      → (handle_place_bracket sched s entry target stop).0 ≡ s
  unfolding handle_place_bracket accept_bracket
  rejected-place_bracket sched s entry target stop = leaves
    where
      ids : List String
      ids = entry.id ∷ target.id ∷ stop.id ∷ []

      leaves : LeavesAsIs s (handle_place_bracket sched s entry target stop)
      leaves = elim (Option-cases (validate_bracket entry target stop)) [
        | inr (e, h) ↦ rw (h, handle_place_bracket) (λ r. refl)
        | inl h ↦
            rw (h, handle_place_bracket)
              (elim (Bool-cases (wrong_token s entry target stop)) [
                | inl t ↦ rw t (λ r. refl)
                | inr t ↦ rw t (elim (Option-cases (first_known s ids)) [
                  | inr (id, g) ↦ rw (g, handle_place_bracket) (λ r. refl)
                  | inl g ↦ rw (g, handle_place_bracket) (place_entry_accepts sched _ s entry _ _)
                ])
              ])
      ]
