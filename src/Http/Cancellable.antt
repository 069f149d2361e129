-- ===== src/Http/Cancellable.antt =====
-- From the boot on, DELETE /orders/{id} finds every order: NewPersistentRegistry of
-- internal/instrument/registry.go indexes the seeds, and the handlers of internal/httpapi index the rest.
use optionx_assignment.Common.{
  String, List, [], ◌∷◌, some, Dict, get, put, get-put, get-put_self, get-put_ne, ◌≡◌, ◌≢◌, sym,
  ◌∙◌, ap, subst, inl, inr, str_eq-cases, Option-cases, arith,
}
use optionx_assignment.Float.{Float64}
use optionx_assignment.Order.{Order, Status}
use optionx_assignment.Actor.Messages.{cancel_order, InitialState}
use optionx_assignment.Actor.State.{ActorState}
use optionx_assignment.Actor.OrderHandlers.{handle_cancel_order, cancel_known}
use optionx_assignment.Actor.Handle.{handle, reply_of}
use optionx_assignment.Registry.{
  Registry, new_persistent_registry, set_publisher, index_orders, index_seeds, peek, Exchange,
  not_taken, abandoned, answered, exchange, token_for_order,
}
use optionx_assignment.Registry.Exchanged.{attend, actor_at, exchange-Exchanged}
use optionx_assignment.Registry.Index.{
  IsAt, Grows, put-Grows, AllAt, AllAt-Grows, actor_at-IsWithin,
}
use optionx_assignment.Http.{cancel_order_handler, answer_cancel}
use optionx_assignment.Http.Cancel.{cancel_of_known}
use optionx_assignment.Http.Indexed.{IsIndexed}
use optionx_assignment.Http.Serving.{Reached, Reached-IsIndexed}

module _ (owner : String → String) where
  -- Every entry is the owner's.
  abbrev HasOwners : Dict String → Type 0
  HasOwners ix = (k token : String) → IsAt ix token k → token ≡ owner k

  put-HasOwners : (ix : Dict String) (id : String) → HasOwners ix → HasOwners (put id (owner id) ix)
  put-HasOwners ix id h k token g = elim (str_eq-cases id k) [
    | inl (t, e) ↦ ground (arith, get-put id k (owner id) ix, ap owner e, t, g)
    | inr (t, ne) ↦ h k token (sym (get-put_ne id k (owner id) ix ne) ∙ g)
  ]

  put_owned-Grows :
      (ix : Dict String) (id : String) → HasOwners ix → Grows ix (put id (owner id) ix)
  put_owned-Grows ix id h = put-Grows ix (owner id) id (elim (Option-cases (get id ix)) [
    | inl n ↦ inl n
    | inr (t, g) ↦ inr (g ∙ ap some (h id t g))
  ])

  -- What indexing keeps and adds.
  record Indexing (ix jx : Dict String) : Type 0 where
    owners : HasOwners jx
    grows : Grows ix jx

  module _ ⦃fl : Float64⦄ where
    abbrev AllOwned : String → List Order → Type 0
    AllOwned token [] = Unit
    AllOwned token (o ∷ os) = (owner o.id ≡ token) × AllOwned token os

    -- Each id is of one instrument.
    abbrev pub AreOwned : Dict InitialState → Type 0
    AreOwned [] = Unit
    AreOwned ((token, seed) ∷ seeds) = AllOwned token seed.orders × AreOwned seeds

    index_orders-Indexing :
        (token : String) (os : List Order) (ix : Dict String)
        → HasOwners ix
        → AllOwned token os
        → Indexing ix (index_orders os token ix) × AllAt (index_orders os token ix) token os
    unfolding index_orders
    index_orders-Indexing token [] ix h a = (record { owners = h; grows = λ t k g. g }, tt)
    index_orders-Indexing token (o ∷ os) ix h (e, a) =
        let jx = put o.id token ix in
        let owners : HasOwners jx =
          subst (λ t. HasOwners (put o.id t ix)) e (put-HasOwners ix o.id h) in
        let grows : Grows ix jx =
          subst (λ t. Grows ix (put o.id t ix)) e (put_owned-Grows ix o.id h) in
        let (i, rest) = index_orders-Indexing token os jx owners a in
        (
          record { owners = i.owners; grows = λ t k g. i.grows t k (grows t k g) },
          (i.grows token o.id (get-put_self o.id token ix), rest),
        )

    index_seeds-Indexing :
        (seeds : Dict InitialState) (ix : Dict String)
        → HasOwners ix
        → AreOwned seeds
        → Indexing ix (index_seeds seeds ix)
    unfolding index_seeds
    index_seeds-Indexing [] ix h a = record { owners = h; grows = λ t k g. g }
    index_seeds-Indexing ((token, seed) ∷ seeds) ix h (a, b) =
        let i = (index_orders-Indexing token seed.orders ix h a).0 in
        let j = index_seeds-Indexing seeds (index_orders seed.orders token ix) i.owners b in
        record { owners = j.owners; grows = λ t k g. j.grows t k (i.grows t k g) }

    index_seeds-AllAt :
        (seeds : Dict InitialState) (ix : Dict String) (token : String) (seed : InitialState)
        → HasOwners ix
        → AreOwned seeds
        → get token seeds ≡ some seed
        → AllAt (index_seeds seeds ix) token seed.orders
    unfolding index_seeds get
    index_seeds-AllAt [] ix token seed h a g = cc g
    index_seeds-AllAt ((tok, sd) ∷ seeds) ix token seed h (a, b) g =
        let (i, at) = index_orders-Indexing tok sd.orders ix h a in
        let jx = index_orders sd.orders tok ix in
        elim (str_eq-cases tok token) [
          | inl (t, e) ↦
              let same : sd ≡ seed = ground (arith, t, g) in
              subst (λ s. AllAt (index_seeds seeds jx) token s.orders) same
                (subst (λ k. AllAt (index_seeds seeds jx) k sd.orders) e
                  (AllAt-Grows jx (index_seeds seeds jx) tok sd.orders
                    (index_seeds-Indexing seeds jx i.owners b).grows at))
          | inr (t, ne) ↦ index_seeds-AllAt seeds jx token seed i.owners b (ground (arith, t, g))
        ]

    pub booted-IsIndexed :
        (seeds : Dict InitialState)
        → AreOwned seeds
        → IsIndexed (set_publisher (new_persistent_registry seeds))
    unfolding new_persistent_registry set_publisher peek get
    booted-IsIndexed seeds a = record {
      seeded = λ token seed g. index_seeds-AllAt seeds [] token seed (λ k t e. cc e) a g;
      held = λ token x e. cc e;
    }

module _ ⦃fl : Float64⦄ where
  -- An order that stands in the map is not answered as not found.
  cancel_known_finds :
      (a : ActorState) (r : Registry) (o : Order) (t : Status)
      → (answer_cancel (r, (reply_of (cancel_known a o t)).1)).1.code ≢ 404
  unfolding cancel_known answer_cancel
  cancel_known_finds a r o Status.resting h = omega arith
  cancel_known_finds a r o Status.pending h = omega arith
  cancel_known_finds a r o Status.filled h = omega arith
  cancel_known_finds a r o Status.cancelled h = omega arith
  cancel_known_finds a r o (Status.other x) h = omega arith

  attend_finds :
      (a : ActorState) (r : Registry) (id : String) (o : Order) (how : Exchange)
      → get id a.orders ≡ some o
      → (answer_cancel (r, (attend a (cancel_order id) how).1)).1.code ≢ 404
  unfolding answer_cancel handle handle_cancel_order
  attend_finds a r id o not_taken g = λ h. omega arith
  attend_finds a r id o (abandoned sched) g = λ h. omega arith
  attend_finds a r id o (answered sched) g =
      rw (g, handle_cancel_order) (cancel_known_finds a r o o.status)

  -- What a DELETE of an order needs: it goes to the actor of the token and is not answered with 404.
  pub record IsFound (r : Registry) (token id : String) (how : Exchange) : Type 0 where
    pub handed :
        cancel_order_handler r id how ≡ answer_cancel (exchange r token (cancel_order id) how)
    pub found : (cancel_order_handler r id how).1.code ≢ 404

  -- Let each order id of the seeds belong to one instrument, and let a persistent registry be made from
  -- them, get its publisher, and then serve any requests and ticks, where every order that is posted draws ids that the
  -- index does not have and its caller waits for the reply. Then a DELETE of any order that an actor
  -- holds, or that the actor would hold that the registry would make for the token, and whose id is not
  -- empty, is handed to that actor, and is not answered with 404, however the exchange ends.
  pub cancel_order_handler-IsFound :
      (owner : String → String) (seeds : Dict InitialState)
      → AreOwned owner seeds
      → (r : Registry) → Reached (set_publisher (new_persistent_registry seeds)) r
      → (token id : String) (o : Order) (how : Exchange) → get id (actor_at r token).orders ≡ some o
      → id ≢ ""
      → IsFound r token id how
  unfolding token_for_order
  cancel_order_handler-IsFound owner seeds a r w token id o how g ne =
      let c = Reached-IsIndexed w (booted-IsIndexed owner seeds a) in
      let at = (actor_at-IsWithin r.order_index r token c).within id o g in
      let handed = cancel_of_known r id token how ne at in
      let p = exchange r token (cancel_order id) how in
      let answer = (exchange-Exchanged r token (cancel_order id) how).answer in
      record {
        handed = handed;
        found =
            subst (λ x. x.1.code ≢ 404) (sym handed)
              (subst (λ x. (answer_cancel (p.0, x)).1.code ≢ 404) (sym answer)
                (attend_finds (actor_at r token) p.0 id o how g));
      }
