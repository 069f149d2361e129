-- ===== src/Http/Bracket.antt =====
-- PlaceBracketHandler and CancelOrderHandler of internal/httpapi/orders.go together: each leg of a
-- bracket that was accepted can be cancelled by its id.
use optionx_assignment.Common.{
  String, Option, none, some, Dict, get, put, get-put_self, get-put_ne, ◌≡◌, ◌≢◌, ◌⊎◌, sym, ◌∙◌, ap,
  inl, inr, arith, str_eq-cases,
}
use optionx_assignment.Float.{Float64}
use optionx_assignment.Actor.Messages.{
  cancel_order, place_bracket, Outcome, Reply, placed, cancel_done, snapped, bracket_placed,
}
use optionx_assignment.Registry.{Registry, Exchange, exchange, token_for_order, index_order}
use optionx_assignment.Wire.{PlaceBracketRequest, placement_code}
use optionx_assignment.Http.{
  Legs, legs_of_request, index_bracket, answer_bracket, answer_cancel, place_bracket_handler,
  cancel_order_handler,
}
use optionx_assignment.Http.Cancel.{cancel_of_known}

get-put_same :
    (k j v : String) (m : Dict String) → (k ≡ j) ⊎ (get k m ≡ some v) → get k (put j v m) ≡ some v
get-put_same k j v m h = elim (str_eq-cases j k) [
  | inl (_, e) ↦ ap (λ x. get x (put j v m)) (sym e) ∙ get-put_self j v m
  | inr (_, ne) ↦ elim h [ inl e ↦ absurd (ne (sym e)) | inr g ↦ get-put_ne j k v m ne ∙ g ]
]

-- One of the ids of the entry, the target and the stop.
abbrev pub IsLegId : String → String × String × String → Type 0
IsLegId id (e, t, s) = (id ≡ e) ⊎ (id ≡ t) ⊎ (id ≡ s)

module _ ⦃fl : Float64⦄ where
  abbrev ids : Legs → String × String × String
  ids legs = (legs.entry.id, legs.target.id, legs.stop.id)

  token_for-index_bracket :
      (r : Registry) (token id : String) (legs : Legs)
      → IsLegId id (ids legs)
      → get id
          (index_order
            (index_order (index_order r legs.entry.id token) legs.target.id token)
            legs.stop.id
            token).order_index
        ≡ some token
  unfolding index_order
  token_for-index_bracket r token id legs h =
      let m₁ = put legs.entry.id token r.order_index in
      let m₂ = put legs.target.id token m₁ in
      get-put_same id legs.stop.id token m₂ (elim h [
        | inr (inr s) ↦ inl s
        | inr (inl t) ↦ inr (get-put_same id legs.target.id token m₁ (inl t))
        | inl e ↦ inr (
            get-put_same id legs.target.id token m₁
              (inr (get-put_same id legs.entry.id token r.order_index (inl e))))
      ])

  token_for-answer_bracket :
      (token id : String) (legs : Legs) (p : Registry × Option Reply)
      → IsLegId id (ids legs)
      → (answer_bracket token legs p).1.code ≡ 201
      → token_for_order (answer_bracket token legs p).0 id ≡ some token
  unfolding answer_bracket token_for_order
  token_for-answer_bracket token id legs (r, none) i h = absurd (omega arith)
  token_for-answer_bracket token id legs (r, some (cancel_done c)) i h = absurd (omega arith)
  token_for-answer_bracket token id legs (r, some (snapped s)) i h = absurd (omega arith)
  token_for-answer_bracket token id legs (r, some (placed b)) i h = absurd (omega arith)
  token_for-answer_bracket token id legs (r, some (bracket_placed res)) i h = go res.outcome h
    where
      go :
          (out : Outcome)
          → placement_code out ≡ 201
          → get id (index_bracket out r token legs).order_index ≡ some token
      go Outcome.rejected e = absurd (omega arith)
      go Outcome.filled e = token_for-index_bracket r token id legs i
      go Outcome.resting e = token_for-index_bracket r token id legs i

  token_for-place_bracket_handler :
      (r : Registry) (req : PlaceBracketRequest) (all : String × String × String) (id : String)
      (how : Exchange)
      → IsLegId id all
      → (place_bracket_handler r (some req) (some all) how).1.code ≡ 201
      → token_for_order (place_bracket_handler r (some req) (some all) how).0 id ≡ some req.token
  unfolding place_bracket_handler legs_of_request
  token_for-place_bracket_handler r req (e, t, s) id how i h =
      let legs = legs_of_request e t s req in
      token_for-answer_bracket req.token id legs
        (exchange r req.token (place_bracket legs.entry legs.target legs.stop) how) i h

  -- After a POST /orders/bracket that was answered with 201, a DELETE of the id of its entry, its target
  -- or its stop, if that is not empty, is handed to the actor of the bracket's instrument, and answered
  -- as that actor replies.
  pub cancel_order_handler-place_bracket_handler :
      (r : Registry) (req : PlaceBracketRequest) (all : String × String × String) (id : String)
      (how later : Exchange)
      → id ≢ ""
      → IsLegId id all
      → (place_bracket_handler r (some req) (some all) how).1.code ≡ 201
      → cancel_order_handler (place_bracket_handler r (some req) (some all) how).0 id later
        ≡ answer_cancel (
            exchange
              (place_bracket_handler r (some req) (some all) how).0
              req.token
              (cancel_order id)
              later)
  cancel_order_handler-place_bracket_handler r req all id how later ne i h =
      cancel_of_known (place_bracket_handler r (some req) (some all) how).0 id req.token later ne
        (token_for-place_bracket_handler r req all id how i h)
