-- ===== src/Http/Serving.antt =====
-- The service as its registry sees it, after internal/httpapi and the loop of cmd/server/main.go: the
-- requests of the routes and the ticks of the feed, one after the other.
use optionx_assignment.Common.{
  Bool, true, false, String, Option, none, some, get, ◌≡◌, refl, sym, ◌∙◌, ap, subst, inl, inr,
  Bool-cases, Option-cases, ◌==◌,
}
use optionx_assignment.Float.{Float64, Price}
use optionx_assignment.Order.{validate}
use optionx_assignment.Actor.Messages.{
  Message, tick, cancel_order, snapshot, Reply, placed, cancel_done, snapped, bracket_placed,
}
use optionx_assignment.Actor.State.{ActorState}
use optionx_assignment.Actor.Known.{Brings}
use optionx_assignment.Registry.{
  Registry, peek, Exchange, exchange, exchange_at, actor, token_for_order,
}
use optionx_assignment.Registry.Exchanged.{actor_at}
use optionx_assignment.Registry.Index.{IsAt, actor_at-IsWithin}
use optionx_assignment.Wire.{PlaceOrderRequest, PlaceBracketRequest, order_of_request}
use optionx_assignment.Http.{
  place_order_handler, place_bracket_handler, cancel_order_handler, get_position_handler,
  answer_cancel, answer_position, legs_of_request,
}
use optionx_assignment.Http.Routes.{
  Request, get_health, post_order, post_bracket, delete_order, get_position, get_ws, serve,
}
use optionx_assignment.Http.Indexed.{
  IsIndexed, IsAwaited, exchange-IsIndexed, attend-IsWithin, answer_order-IsIndexed,
}
use optionx_assignment.Http.IndexedBracket.{answer_bracket-IsIndexed}

module _ ⦃fl : Float64⦄ where
  -- The ids that the request draws are not in the index yet, and its caller waits for the actor's reply.
  abbrev pub IsClean : Registry → Request → Type 0
  IsClean r (post_order body (some id) how) = (get id r.order_index ≡ none) × IsAwaited how
  IsClean r (post_bracket body (some (e, t, s)) how) =
      (get e r.order_index ≡ none)
      × (get t r.order_index ≡ none)
      × (get s r.order_index ≡ none)
      × IsAwaited how
  IsClean r _ = Unit

  pub data Served (r : Registry) : Registry → Type 0 where
    request : (has_hub : Bool) (q : Request) → IsClean r q → Served r (serve has_hub r q).0
    ticked :
        (token : String) (ltp : Price) (how : Exchange)
        → Served r (exchange r token (tick ltp) how).0

  pub data Reached (r : Registry) : Registry → Type 0 where
    here : Reached r r
    next : {s t : Registry} → Reached r s → Served s t → Reached r t

  -- A call that brings no order.
  plain-IsIndexed :
      (r : Registry) (token : String) (m : Message) (how : Exchange)
      → IsIndexed r
      → Brings (IsAt r.order_index token) m
      → IsIndexed (exchange r token m how).0
  plain-IsIndexed r token m how c b = exchange-IsIndexed r token m how c (
      attend-IsWithin (IsAt r.order_index token) (actor_at r token) m how
        (actor_at-IsWithin r.order_index r token c) b)

  place_order_handler-IsIndexed :
      (r : Registry) (body : Option PlaceOrderRequest) (id : Option String) (how : Exchange)
      → IsIndexed r
      → IsClean r (post_order body id how)
      → IsIndexed (place_order_handler r body id how).0
  unfolding place_order_handler order_of_request
  place_order_handler-IsIndexed r none id how c f = c
  place_order_handler-IsIndexed r (some req) none how c f = c
  place_order_handler-IsIndexed r (some req) (some id) how c (f, w) =
      let o = order_of_request id req in
      elim (Option-cases (validate o)) [
        | inr (e, h) ↦ rw (h, place_order_handler) c
        | inl h ↦ rw (h, place_order_handler) (answer_order-IsIndexed r o how c f w)
      ]

  place_bracket_handler-IsIndexed :
      (r : Registry) (body : Option PlaceBracketRequest) (ids : Option (String × String × String))
      (how : Exchange)
      → IsIndexed r
      → IsClean r (post_bracket body ids how)
      → IsIndexed (place_bracket_handler r body ids how).0
  unfolding place_bracket_handler legs_of_request
  place_bracket_handler-IsIndexed r none ids how c f = c
  place_bracket_handler-IsIndexed r (some req) none how c f = c
  place_bracket_handler-IsIndexed r (some req) (some (e, t, s)) how c (he, ht, hs, w) =
      answer_bracket-IsIndexed r req.token (legs_of_request e t s req) how c
        (record { entry = he; target = ht; stop = hs }) w

  registry-answer_cancel : (p : Registry × Option Reply) → (answer_cancel p).0 ≡ p.0
  unfolding answer_cancel
  registry-answer_cancel (r, none) = refl
  registry-answer_cancel (r, some (placed res)) = refl
  registry-answer_cancel (r, some (cancel_done res)) = refl
  registry-answer_cancel (r, some (snapped res)) = refl
  registry-answer_cancel (r, some (bracket_placed res)) = refl

  registry-answer_position :
      (token : String) (p : Registry × Option Reply) → (answer_position token p).0 ≡ p.0
  unfolding answer_position
  registry-answer_position token (r, none) = refl
  registry-answer_position token (r, some (placed res)) = refl
  registry-answer_position token (r, some (cancel_done res)) = refl
  registry-answer_position token (r, some (snapped res)) = refl
  registry-answer_position token (r, some (bracket_placed res)) = refl

  cancel_order_handler-IsIndexed :
      (r : Registry) (id : String) (how : Exchange)
      → IsIndexed r
      → IsIndexed (cancel_order_handler r id how).0
  unfolding cancel_order_handler
  cancel_order_handler-IsIndexed r id how c = elim (Bool-cases (id == "")) [
    | inl h ↦ rw h c
    | inr h ↦ rw h (elim (Option-cases (token_for_order r id)) [
      | inl g ↦ rw (g, cancel_order_handler) c
      | inr (token, g) ↦
          rw (g, cancel_order_handler)
            (subst IsIndexed (sym (registry-answer_cancel (exchange r token (cancel_order id) how)))
              (plain-IsIndexed r token (cancel_order id) how c tt))
    ])
  ]

  exchange_at-known :
      (r : Registry) (token : String) (a : ActorState) (m : Message) (how : Exchange)
      → peek r token ≡ some a
      → exchange r token m how ≡ exchange_at r token a m how
  unfolding exchange peek actor
  exchange_at-known r token a m how g =
      let known : actor r token ≡ (a, r) = rw (g, actor) refl in
      ap (λ x. exchange_at x.1 token x.0 m how) known

  get_position_handler-IsIndexed :
      (r : Registry) (token : String) (how : Exchange)
      → IsIndexed r
      → IsIndexed (get_position_handler r token how).0
  unfolding get_position_handler
  get_position_handler-IsIndexed r token how c = elim (Bool-cases (token == "")) [
    | inl h ↦ rw h c
    | inr h ↦ rw h (elim (Option-cases (peek r token)) [
      | inl g ↦ rw (g, get_position_handler) c
      | inr (a, g) ↦
          rw (g, get_position_handler)
            (subst IsIndexed
              (ap (λ x. x.0) (exchange_at-known r token a snapshot how g)
                ∙ sym (registry-answer_position token (exchange_at r token a snapshot how)))
              (plain-IsIndexed r token snapshot how c tt))
    ])
  ]

  serve-IsIndexed :
      (has_hub : Bool) (r : Registry) (q : Request)
      → IsIndexed r
      → IsClean r q
      → IsIndexed (serve has_hub r q).0
  unfolding serve
  serve-IsIndexed has_hub r (get_health ping) c f = c
  serve-IsIndexed has_hub r (post_order body id how) c f =
      place_order_handler-IsIndexed r body id how c f
  serve-IsIndexed has_hub r (post_bracket body ids how) c f =
      place_bracket_handler-IsIndexed r body ids how c f
  serve-IsIndexed has_hub r (delete_order id how) c f = cancel_order_handler-IsIndexed r id how c
  serve-IsIndexed has_hub r (get_position token how) c f =
      get_position_handler-IsIndexed r token how c
  serve-IsIndexed true r get_ws c f = c
  serve-IsIndexed false r get_ws c f = c

  pub Reached-IsIndexed : {r s : Registry} → Reached r s → IsIndexed r → IsIndexed s
  Reached-IsIndexed here c = c
  Reached-IsIndexed (next {s} w (request has_hub q f)) c =
      serve-IsIndexed has_hub s q (Reached-IsIndexed w c) f
  Reached-IsIndexed (next {s} w (ticked token ltp how)) c =
      plain-IsIndexed s token (tick ltp) how (Reached-IsIndexed w c) tt
