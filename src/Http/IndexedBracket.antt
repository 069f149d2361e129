-- ===== src/Http/IndexedBracket.antt =====
-- PlaceBracketHandler of internal/httpapi/orders.go indexes the three orders that it places.
use optionx_assignment.Common.{
  String, Option, none, some, Dict, get, put, get-put, get-put_self, ◌≡◌, ◌⊎◌, refl, sym, ◌∙◌,
  subst, inl, inr, str_eq-cases, get-put_ne,
}
use optionx_assignment.Float.{Float64}
use optionx_assignment.Actor.Messages.{
  Message, place_bracket, Outcome, Reply, bracket_placed, PlaceBracketResult,
}
use optionx_assignment.Actor.Handle.{handle, handle_place_bracket}
use optionx_assignment.Actor.Known.{IsWithin}
use optionx_assignment.Actor.Rejected.{rejected-place_bracket}
use optionx_assignment.Registry.{
  Registry, Exchange, not_taken, abandoned, answered, exchange, index_order,
}
use optionx_assignment.Registry.Exchanged.{attend, actor_at, exchange-Exchanged}
use optionx_assignment.Registry.Index.{IsAt, Grows, put-Grows, actor_at-IsWithin, index-exchange}
use optionx_assignment.Http.{Legs, index_bracket, answer_bracket}
use optionx_assignment.Http.Indexed.{
  SameIndex, put-SameIndex, IsIndexed, IsAwaited, exchange-IsIndexed, grown-IsIndexed,
  index_order-IsCovered,
}

-- An id without an entry has none, or the token's, behind a put under that token.
put-open :
    (ix : Dict String) (token id k : String)
    → (get k ix ≡ none) ⊎ IsAt ix token k
    → (get k (put id token ix) ≡ none) ⊎ IsAt (put id token ix) token k
put-open ix token id k h = elim (str_eq-cases id k) [
  | inl (t, e) ↦ inr (get-put id k token ix ∙ rw t refl)
  | inr (t, ne) ↦ elim h [
    | inl n ↦ inl (get-put_ne id k token ix ne ∙ n)
    | inr g ↦ inr (get-put_ne id k token ix ne ∙ g)
  ]
]

-- The index behind the three calls of IndexOrder.
abbrev put_three : String → String → String → String → Dict String → Dict String
put_three token a b c ix = put c token (put b token (put a token ix))

record ThreePut (token a b c : String) (ix : Dict String) : Type 0 where
  grows : Grows ix (put_three token a b c ix)
  first : IsAt (put_three token a b c ix) token a
  second : IsAt (put_three token a b c ix) token b
  third : IsAt (put_three token a b c ix) token c

three_put :
    (token a b c : String) (ix : Dict String)
    → get a ix ≡ none
    → get b ix ≡ none
    → get c ix ≡ none
    → ThreePut token a b c ix
three_put token a b c ix ha hb hc =
    let i₁ = put a token ix in
    let i₂ = put b token i₁ in
    let ob = put-open ix token a b (inl hb) in
    let oc = put-open i₁ token b c (put-open ix token a c (inl hc)) in
    let g₁ = put-Grows ix token a (inl ha) in
    let g₂ = put-Grows i₁ token b ob in
    let g₃ = put-Grows i₂ token c oc in
    record {
      grows = λ t k e. g₃ t k (g₂ t k (g₁ t k e));
      first = g₃ token a (g₂ token a (get-put_self a token ix));
      second = g₃ token b (get-put_self b token i₁);
      third = get-put_self c token i₂;
    }

module _ ⦃fl : Float64⦄ where
  answer_bracket-silent :
      (token : String) (legs : Legs) (p : Registry × Option Reply)
      → p.1 ≡ none
      → (answer_bracket token legs p).0 ≡ p.0
  unfolding answer_bracket
  answer_bracket-silent token legs (r, none) h = refl
  answer_bracket-silent token legs (r, some x) h = cc h

  answer_bracket-spoken :
      (token : String) (legs : Legs) (p : Registry × Option Reply) (res : PlaceBracketResult)
      → p.1 ≡ some (bracket_placed res)
      → (answer_bracket token legs p).0 ≡ index_bracket res.outcome p.0 token legs
  unfolding answer_bracket
  answer_bracket-spoken token legs (r, x) res h = rw h refl

  -- No leg's id is in the index.
  pub record AreFresh (r : Registry) (legs : Legs) : Type 0 where
    pub entry : get legs.entry.id r.order_index ≡ none
    pub target : get legs.target.id r.order_index ≡ none
    pub stop : get legs.stop.id r.order_index ≡ none

  abbrev pub message_of : Legs → Message
  message_of legs = place_bracket legs.entry legs.target legs.stop

  stored_bracket-IsIndexed :
      (r : Registry) (token : String) (legs : Legs) (how : Exchange)
      → IsIndexed r
      → AreFresh r legs
      → IsIndexed
          (index_bracket Outcome.filled (exchange r token (message_of legs) how).0 token legs)
  unfolding index_order
  stored_bracket-IsIndexed r token legs how c f =
      let p = exchange r token (message_of legs) how in
      let a = legs.entry.id in
      let b = legs.target.id in
      let d = legs.stop.id in
      let jx = put_three token a b d r.order_index in
      let kx = put_three token a b d p.0.order_index in
      let t = three_put token a b d r.order_index f.entry f.target f.stop in
      let same : SameIndex r.order_index p.0.order_index =
        λ k. index-exchange r token k (message_of legs) how c in
      let same₁ = put-SameIndex r.order_index p.0.order_index a token same in
      let same₂ =
        put-SameIndex (put a token r.order_index) (put a token p.0.order_index) b token same₁ in
      let same₃ =
        put-SameIndex (put b token (put a token r.order_index))
          (put b token (put a token p.0.order_index)) d token same₂ in
      let covered =
        grown-IsIndexed r token (message_of legs) how jx kx c t.grows (t.first, t.second, t.third)
          same₃ in
      let r₁ = index_order p.0 a token in
      let r₂ = index_order r₁ b token in
      index_order-IsCovered kx r₂ d token
        (index_order-IsCovered kx r₁ b token (index_order-IsCovered kx p.0 a token covered))

  bracket-IsIndexed :
      (r : Registry) (token : String) (legs : Legs) (how : Exchange) (out : Outcome)
      → IsIndexed r
      → AreFresh r legs
      → (out ≡ Outcome.rejected
          → (attend (actor_at r token) (message_of legs) how).0 ≡ actor_at r token)
      → IsIndexed (index_bracket out (exchange r token (message_of legs) how).0 token legs)
  bracket-IsIndexed r token legs how Outcome.rejected c f same =
      exchange-IsIndexed r token (message_of legs) how c (
        subst (λ a. IsWithin (IsAt r.order_index token) a.orders) (sym (same refl))
          (actor_at-IsWithin r.order_index r token c))
  bracket-IsIndexed r token legs how Outcome.filled c f same =
      stored_bracket-IsIndexed r token legs how c f
  bracket-IsIndexed r token legs how Outcome.resting c f same =
      stored_bracket-IsIndexed r token legs how c f

  pub answer_bracket-IsIndexed :
      (r : Registry) (token : String) (legs : Legs) (how : Exchange)
      → IsIndexed r
      → AreFresh r legs
      → IsAwaited how
      → IsIndexed (answer_bracket token legs (exchange r token (message_of legs) how)).0
  unfolding handle
  answer_bracket-IsIndexed r token legs not_taken c f w =
      let m = message_of legs in
      let p = exchange r token m not_taken in
      subst IsIndexed
        (sym (answer_bracket-silent token legs p (exchange-Exchanged r token m not_taken).answer))
        (exchange-IsIndexed r token m not_taken c (actor_at-IsWithin r.order_index r token c))
  answer_bracket-IsIndexed r token legs (abandoned sched) c f w = absurd w
  answer_bracket-IsIndexed r token legs (answered sched) c f w =
      let m = message_of legs in
      let p = exchange r token m (answered sched) in
      let a = actor_at r token in
      let res = (handle_place_bracket sched a legs.entry legs.target legs.stop).1 in
      subst IsIndexed
        (sym (
          answer_bracket-spoken token legs p res
            (exchange-Exchanged r token m (answered sched)).answer))
        (bracket-IsIndexed r token legs (answered sched) res.outcome c f
          (rejected-place_bracket sched a legs.entry legs.target legs.stop))
