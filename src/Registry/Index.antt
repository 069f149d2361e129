-- ===== src/Registry/Index.antt =====
-- The order index of internal/instrument/registry.go: every order that an actor holds, or that a seed
-- brings, stands in it with the token of that actor or seed.
use optionx_assignment.Common.{
  Bool, true, false, String, List, [], ◌∷◌, none, some, Dict, get, put, get-put, get-put_ne, ◌≡◌,
  ◌⊎◌, refl, sym, ◌∙◌, ap, subst, inl, inr, str_eq-cases, Bool-cases, Option-cases,
}
use optionx_assignment.Float.{Float64}
use optionx_assignment.Order.{Order}
use optionx_assignment.Actor.Messages.{Message, InitialState}
use optionx_assignment.Actor.State.{ActorState, new_actor_state, put_orders, restore}
use optionx_assignment.Actor.Known.{IsWithin, put-IsWithin}
use optionx_assignment.Registry.{
  Registry, no_seed, seed_at, index_orders, start_actor, spawn, actor, peek, Exchange, not_taken,
  abandoned, answered, exchange_at, exchange,
}
use optionx_assignment.Registry.Exchanged.{attend, new_actor, actor_at, exchange-Exchanged}

abbrev pub IsAt : Dict String → String → String → Type 0
IsAt ix token id = get id ix ≡ some token

-- The second index has what the first has.
abbrev pub Grows : Dict String → Dict String → Type 0
Grows ix jx = (token id : String) → IsAt ix token id → IsAt jx token id

pub put-Grows :
    (ix : Dict String) (token id : String)
    → (get id ix ≡ none) ⊎ IsAt ix token id
    → Grows ix (put id token ix)
put-Grows ix token id f tok k g = elim (str_eq-cases id k) [
  | inl (t, e) ↦ elim f [
    | inl n ↦ absurd (none≢some (sym (ap (λ j. get j ix) e ∙ g) ∙ n))
    | inr h ↦ get-put id k token ix ∙ rw t (sym h ∙ ap (λ j. get j ix) e ∙ g)
  ]
  | inr (t, ne) ↦ get-put_ne id k token ix ne ∙ g
]
  where
    none≢some : ¬ (some tok ≡ none)
    none≢some h = cc h

module _ ⦃fl : Float64⦄ where
  abbrev pub AllAt : Dict String → String → List Order → Type 0
  AllAt ix token [] = Unit
  AllAt ix token (o ∷ os) = IsAt ix token o.id × AllAt ix token os

  pub AllAt-Grows :
      (ix jx : Dict String) (token : String) (os : List Order)
      → Grows ix jx
      → AllAt ix token os
      → AllAt jx token os
  AllAt-Grows ix jx token [] g a = tt
  AllAt-Grows ix jx token (o ∷ os) g (h, t) = (g token o.id h, AllAt-Grows ix jx token os g t)

  IsWithin-Grows :
      (ix jx : Dict String) (token : String) (m : Dict Order)
      → Grows ix jx
      → IsWithin (IsAt ix token) m
      → IsWithin (IsAt jx token) m
  IsWithin-Grows ix jx token m g i = record {
    keyed = i.keyed;
    within = λ k o e. g token k (i.within k o e);
  }

  -- The index `ix` covers the registry.
  pub record IsCovered (ix : Dict String) (r : Registry) : Type 0 where
    pub seeded :
        (token : String) (seed : InitialState)
        → get token r.seeds ≡ some seed
        → AllAt ix token seed.orders
    pub held :
        (token : String) (a : ActorState)
        → peek r token ≡ some a
        → IsWithin (IsAt ix token) a.orders

  pub IsCovered-Grows :
      (ix jx : Dict String) (r : Registry) → Grows ix jx → IsCovered ix r → IsCovered jx r
  IsCovered-Grows ix jx r g c = record {
    seeded = λ token seed e. AllAt-Grows ix jx token seed.orders g (c.seeded token seed e);
    held = λ token a e. IsWithin-Grows ix jx token a.orders g (c.held token a e);
  }

  put_orders-IsWithin :
      (ix : Dict String) (token : String) (os : List Order) (m : Dict Order)
      → AllAt ix token os
      → IsWithin (IsAt ix token) m
      → IsWithin (IsAt ix token) (put_orders os m)
  unfolding put_orders
  put_orders-IsWithin ix token [] m a i = i
  put_orders-IsWithin ix token (o ∷ os) m (h, t) i =
      put_orders-IsWithin ix token os (put o.id o m) t (put-IsWithin (IsAt ix token) m o i h)

  start_actor-IsWithin :
      (ix : Dict String) (token : String) (has_store has_publisher : Bool) (seed : InitialState)
      → AllAt ix token seed.orders
      → IsWithin (IsAt ix token) (start_actor token has_store seed has_publisher).orders
  unfolding start_actor restore new_actor_state get
  start_actor-IsWithin ix token has_store has_publisher seed a =
      put_orders-IsWithin ix token seed.orders [] a
        (record { keyed = λ k o e. cc e; within = λ k o e. cc e })

  pub seed_at-AllAt :
      (ix : Dict String) (r : Registry) (token : String)
      → IsCovered ix r
      → AllAt ix token (seed_at token r.seeds).orders
  seed_at-AllAt ix r token c = elim (Option-cases (get token r.seeds)) [
    | inl e ↦ rw (e, seed_at) tt
    | inr (seed, e) ↦ rw (e, seed_at) (c.seeded token seed e)
  ]

  new_actor-IsWithin :
      (ix : Dict String) (r : Registry) (token : String)
      → IsCovered ix r
      → IsWithin (IsAt ix token) (new_actor r token).orders
  new_actor-IsWithin ix r token c = elim (Bool-cases r.has_store) [
    | inl h ↦ rw h (
        start_actor-IsWithin ix token true r.has_publisher (seed_at token r.seeds)
          (seed_at-AllAt ix r token c))
    | inr h ↦ rw h (start_actor-IsWithin ix token false r.has_publisher no_seed tt)
  ]

  pub actor_at-IsWithin :
      (ix : Dict String) (r : Registry) (token : String)
      → IsCovered ix r
      → IsWithin (IsAt ix token) (actor_at r token).orders
  unfolding actor_at
  actor_at-IsWithin ix r token c = elim (Option-cases (peek r token)) [
    | inl e ↦ rw (e, actor_at) (new_actor-IsWithin ix r token c)
    | inr (a, e) ↦ rw (e, actor_at) (c.held token a e)
  ]

  -- A call leaves the registry covered if it leaves the orders of its own actor so.
  pub exchange-IsCovered :
      (ix : Dict String) (r : Registry) (token : String) (m : Message) (how : Exchange)
      → IsCovered ix r
      → IsWithin (IsAt ix token) (attend (actor_at r token) m how).0.orders
      → IsCovered ix (exchange r token m how).0
  exchange-IsCovered ix r token m how c i =
      let x = exchange-Exchanged r token m how in
      record {
        seeded = λ tok seed e. c.seeded tok seed (ap (get tok) (sym x.setup.seeds) ∙ e);
        held = λ tok a e. elim (str_eq-cases token tok) [
          | inl (t, same) ↦
              let own : (attend (actor_at r token) m how).0 ≡ a =
                cc (x.own, ap (peek (exchange r token m how).0) same, e) in
              subst (λ k. IsWithin (IsAt ix k) a.orders) same
                (subst (λ b. IsWithin (IsAt ix token) b.orders) own i)
          | inr (t, ne) ↦ c.held tok a (sym (x.others tok ne) ∙ e)
        ];
      }

  -- To index orders again that are indexed changes no entry.
  get-index_orders :
      (ix : Dict String) (token k : String) (os : List Order)
      → AllAt ix token os
      → get k (index_orders os token ix) ≡ get k ix
  unfolding index_orders
  get-index_orders ix token k [] a = refl
  get-index_orders ix token k (o ∷ os) (h, t) =
      get-index_orders (put o.id token ix) token k os
        (AllAt-Grows ix (put o.id token ix) token os (put-Grows ix token o.id (inr h)) t)
      ∙ same
    where
      same : get k (put o.id token ix) ≡ get k ix
      same = elim (str_eq-cases o.id k) [
        | inl (b, e) ↦ get-put o.id k token ix ∙ rw b (sym h ∙ ap (λ j. get j ix) e)
        | inr (b, ne) ↦ get-put_ne o.id k token ix ne
      ]

  index-spawn :
      (r : Registry) (token k : String)
      → AllAt r.order_index token (seed_at token r.seeds).orders
      → get k (spawn r token).1.order_index ≡ get k r.order_index
  unfolding spawn
  index-spawn r token k a = elim (Bool-cases r.has_store) [
    | inl h ↦ rw h (get-index_orders r.order_index token k (seed_at token r.seeds).orders a)
    | inr h ↦ rw h refl
  ]

  index-exchange_at :
      (r : Registry) (token : String) (a : ActorState) (m : Message) (how : Exchange)
      → (exchange_at r token a m how).0.order_index ≡ r.order_index
  index-exchange_at r token a m not_taken = refl
  index-exchange_at r token a m (abandoned sched) = refl
  index-exchange_at r token a m (answered sched) = refl

  pub index-exchange :
      (r : Registry) (token k : String) (m : Message) (how : Exchange)
      → IsCovered r.order_index r
      → get k (exchange r token m how).0.order_index ≡ get k r.order_index
  unfolding exchange actor
  index-exchange r token k m how c =
      ap (get k) (index-exchange_at (actor r token).1 token (actor r token).0 m how)
      ∙ elim (Option-cases (get token r.actors)) [
        | inl g ↦ rw (g, actor) (index-spawn r token k (seed_at-AllAt r.order_index r token c))
        | inr (a, g) ↦ rw (g, actor) refl
      ]
