-- ===== src/Registry.antt =====
-- internal/instrument/registry.go, and the actor as its callers see it (actor.go): one actor per
-- token, made on first use, and the index from order ids to tokens.
pub mod Exchanged
pub mod Isolation
pub mod Index
use optionx_assignment.Common.{
  Bool, true, false, String, List, [], ◌∷◌, Option, none, some, Dict, get, put, keys, if◌then◌else◌,
}
use optionx_assignment.Float.{Float64}
use optionx_assignment.Order.{Order}
use optionx_assignment.Actor.Messages.{Message, Reply, InitialState}
use optionx_assignment.Actor.State.{ActorState, new_actor_state, zero_position, restore}
use optionx_assignment.Actor.Filling.{Schedule}
use optionx_assignment.Actor.Handle.{handle}

module _ ⦃fl : Float64⦄ where
  pub record Registry : Type 0 where
    pub has_store : Bool
    pub seeds : Dict InitialState
    pub has_publisher : Bool
    pub actors : Dict ActorState
    pub order_index : Dict String

  abbrev pub no_seed : InitialState
  no_seed = record { position = zero_position; orders = [] }

  unfoldable pub new_registry : Registry
  new_registry = record {
    has_store = false;
    seeds = [];
    has_publisher = false;
    actors = [];
    order_index = [];
  }

  unfoldable pub index_orders : List Order → String → Dict String → Dict String
  index_orders [] token ix = ix
  index_orders (o ∷ os) token ix = index_orders os token (put o.id token ix)

  -- The index that NewPersistentRegistry builds, whichever way the range over the seeds goes.
  unfoldable pub index_seeds : Dict InitialState → Dict String → Dict String
  index_seeds [] ix = ix
  index_seeds ((token, seed) ∷ seeds) ix = index_seeds seeds (index_orders seed.orders token ix)

  unfoldable pub new_persistent_registry : Dict InitialState → Registry
  new_persistent_registry seeds = record {
    has_store = true;
    seeds = seeds;
    has_publisher = false;
    actors = [];
    order_index = index_seeds seeds [];
  }

  unfoldable pub set_publisher : Registry → Registry
  set_publisher r = record r { has_publisher = true }

  abbrev pub seed_at : String → Dict InitialState → InitialState
  seed_at token seeds = elim (get token seeds) [ none ↦ no_seed | some seed ↦ seed ]

  -- A started actor: NewActor or NewPersistentActor, WithPublisher, and the first lines of run.
  unfoldable pub start_actor : String → Bool → InitialState → Bool → ActorState
  start_actor token has_store seed has_publisher =
      restore (new_actor_state token has_store has_publisher) seed

  unfoldable pub spawn : Registry → String → ActorState × Registry
  spawn r token =
      let seed = seed_at token r.seeds in
      let stored = start_actor token true seed r.has_publisher in
      let plain = start_actor token false no_seed r.has_publisher in
      if r.has_store
      then (
        stored,
        record r {
          actors = put token stored r.actors;
          order_index = index_orders seed.orders token r.order_index;
        },
      )
      else (plain, record r { actors = put token plain r.actors })

  -- Registry.Actor: the token's actor, and the registry that has it.
  unfoldable pub actor : Registry → String → ActorState × Registry
  actor r token = elim (get token r.actors) [ none ↦ spawn r token | some a ↦ (a, r) ]

  unfoldable pub peek : Registry → String → Option ActorState
  peek r token = get token r.actors

  unfoldable pub index_order : Registry → String → String → Registry
  index_order r id token = record r { order_index = put id token r.order_index }

  unfoldable pub token_for_order : Registry → String → Option String
  token_for_order r id = get id r.order_index

  unfoldable pub tokens : Registry → List String
  tokens r = keys r.actors

  -- How a caller's exchange with an actor ends: the message is not taken, since the caller's context
  -- or the actor ended first; it is taken and handled, but the caller left before the reply; or the
  -- caller has the reply.
  pub data Exchange : Type 0 where
    not_taken : Exchange
    abandoned : Schedule → Exchange
    answered : Schedule → Exchange

  abbrev pub exchange_at :
      Registry → String → ActorState → Message → Exchange → Registry × Option Reply
  exchange_at r token a m not_taken = (r, none)
  exchange_at r token a m (abandoned sched) =
      (record r { actors = put token (handle sched a m).0 r.actors }, none)
  exchange_at r token a m (answered sched) =
      (record r { actors = put token (handle sched a m).0 r.actors }, (handle sched a m).1)

  -- A call of one of the actor's methods by way of Registry.Actor.
  unfoldable pub exchange : Registry → String → Message → Exchange → Registry × Option Reply
  exchange r token m how = let (a, r₁) = actor r token in exchange_at r₁ token a m how
