-- ===== src/Http/Coded.antt =====
-- The responses of internal/httpapi: which JSON value a route answers with, and under which status.
use optionx_assignment.Common.{ℕ, Bool, true, false, none, some, ◌≡◌}
use optionx_assignment.Float.{Float64}
use optionx_assignment.Order.{Order}
use optionx_assignment.Registry.{Registry, peek, token_for_order}
use optionx_assignment.Actor.Messages.{Outcome, CancelOutcome}
use optionx_assignment.Wire.{
  no_order_id, ErrorBody, Body, Response, invalid_body, id_required, token_required, invalid_order,
  order_placed, bracket, order_cancelled, position,
}
use optionx_assignment.Http.Routes.{
  Request, get_health, post_order, post_bracket, delete_order, get_position, get_ws, Answer, health,
  rest, upgraded, no_route,
}

module _ ⦃fl : Float64⦄ where
  -- The client's faults, and the server's.
  abbrev pub error_code : ErrorBody → ℕ
  error_code invalid_body = 400
  error_code id_required = 400
  error_code token_required = 400
  error_code (invalid_order e) = 400
  error_code _ = 500

  abbrev pub code_of : Body → ℕ
  code_of (Body.error e) = error_code e
  code_of (order_placed Outcome.rejected o f e) = 400
  code_of (order_placed Outcome.filled o f e) = 201
  code_of (order_placed Outcome.resting o f e) = 201
  code_of (bracket Outcome.rejected e t s f r) = 400
  code_of (bracket Outcome.filled e t s f r) = 201
  code_of (bracket Outcome.resting e t s f r) = 201
  code_of (order_cancelled CancelOutcome.not_found o) = 404
  code_of (order_cancelled CancelOutcome.cancelled o) = 200
  code_of (order_cancelled CancelOutcome.already_filled o) = 200
  code_of (order_cancelled CancelOutcome.already_cancelled o) = 200
  code_of (position p) = 200

  -- A request that is refused before any actor is asked leaves the registry as it was.
  abbrev pub Leaves : ErrorBody → Registry → Registry → Type 0
  Leaves invalid_body r s = s ≡ r
  Leaves no_order_id r s = s ≡ r
  Leaves id_required r s = s ≡ r
  Leaves token_required r s = s ≡ r
  Leaves (invalid_order e) r s = s ≡ r
  Leaves _ r s = Unit

  -- A value that the route may answer with, from the registry before to the one after. A cancellation of
  -- an order without an index entry, and a look at a position without an actor, change nothing.
  abbrev pub IsOf : Request → Body → Registry → Registry → Type 0
  IsOf q (Body.error e) r s = Leaves e r s
  IsOf (post_order body id how) (order_placed out o f e) r s = Unit
  IsOf (post_bracket body ids how) (bracket out e t st f w) r s = Unit
  IsOf (delete_order id how) (order_cancelled out o) r s =
      token_for_order r id ≡ none → (s ≡ r) × (out ≡ CancelOutcome.not_found)
  IsOf (get_position token how) (position p) r s = peek r token ≡ none → s ≡ r
  IsOf _ _ r s = ⊥

  abbrev IsFit : Request → Registry → Registry × Response → Type 0
  IsFit q r (s, x) = (x.code ≡ code_of x.body) × IsOf q x.body r s

  abbrev pub IsAnswerTo : Bool → Request → Registry → Registry × Answer → Type 0
  IsAnswerTo has_hub (get_health none) r (s, a) =
      (a ≡ health 200 (record { status = "ok"; db = "ok" })) × (s ≡ r)
  IsAnswerTo has_hub (get_health (some e)) r (s, a) =
      (a ≡ health 503 (record { status = "degraded"; db = e })) × (s ≡ r)
  IsAnswerTo true get_ws r (s, a) = (a ≡ upgraded) × (s ≡ r)
  IsAnswerTo false get_ws r (s, a) = (a ≡ no_route) × (s ≡ r)
  IsAnswerTo has_hub q r (s, rest x) = (x.code ≡ code_of x.body) × IsOf q x.body r s
  IsAnswerTo has_hub q r _ = ⊥
