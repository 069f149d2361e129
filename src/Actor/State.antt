-- ===== src/Actor/State.antt =====
-- The state of internal/instrument/actor_state.go. The calls that it makes of its store and its
-- publisher are the list `effects`, newest first; a store error is logged there and changes nothing.
use optionx_assignment.Common.{
  ℕ, Bool, false, String, List, [], ◌∷◌, pos, Dict, get, put, if◌then◌else◌, none, some, ◌+◌,
}
use optionx_assignment.Float.{Float64, Price}
use optionx_assignment.Order.{Side, Kind, Status, Order, is_pending}
use optionx_assignment.Ledger.{Position, Update, update_from}
use optionx_assignment.Actor.Messages.{InitialState}

module _ ⦃fl : Float64⦄ where
  pub data Effect : Type 0 where
    save_order : Order → Effect
    save_fill : Order → Position → Effect
    publish_update : Update → Effect

  pub record ActorState : Type 0 where
    pub token : String
    pub position : Position
    pub last_ltp : Price
    pub has_ltp : Bool
    pub orders : Dict Order
    pub has_store : Bool
    pub has_publisher : Bool
    pub effects : List Effect

  abbrev pub zero_position : Position
  zero_position = record {
    token = "";
    qty = pos 0;
    avg_price = fl.of_int (pos 0);
    realized_pnl = fl.of_int (pos 0);
  }

  abbrev pub zero_order : Order
  zero_order = record {
    id = "";
    token = "";
    side = Side.other "";
    kind = Kind.other "";
    qty = pos 0;
    limit_price = fl.of_int (pos 0);
    status = Status.other "";
    entry_id = "";
    sibling_id = "";
  }

  unfoldable pub new_actor_state : String → Bool → Bool → ActorState
  new_actor_state token has_store has_publisher = record {
    token = token;
    position = zero_position;
    last_ltp = fl.of_int (pos 0);
    has_ltp = false;
    orders = [];
    has_store = has_store;
    has_publisher = has_publisher;
    effects = [];
  }

  unfoldable pub put_orders : List Order → Dict Order → Dict Order
  put_orders [] m = m
  put_orders (o ∷ os) m = put_orders os (put o.id o m)

  unfoldable pub restore : ActorState → InitialState → ActorState
  restore s seed = record s { position = seed.position; orders = put_orders seed.orders s.orders }

  unfoldable pub publish : ActorState → ActorState
  publish s =
      if s.has_publisher
      then record s {
        effects = publish_update (update_from s.token s.position s.last_ltp) ∷ s.effects;
      }
      else s

  unfoldable pub persist_order : ActorState → Order → ActorState
  persist_order s o = if s.has_store then record s { effects = save_order o ∷ s.effects } else s

  unfoldable pub persist_fill : ActorState → Order → Position → ActorState
  persist_fill s o p = if s.has_store then record s { effects = save_fill o p ∷ s.effects } else s

  -- `s.orders[o.ID] = o`, then `s.persistOrder(ctx, o)`.
  unfoldable pub store_order : ActorState → String → Order → ActorState
  unfolding persist_order
  store_order s id o = persist_order (record s { orders = put id o s.orders }) o

  -- `s.orders[id]`, which is the zero value for a missing key.
  unfoldable pub order_at : ActorState → String → Order
  order_at s id = elim (get id s.orders) [ none ↦ zero_order | some o ↦ o ]

  -- How many orders are pending: no code, the measure by which the recursion of fills ends.
  abbrev pub pending_weight : Order → ℕ
  pending_weight o = if is_pending o.status then 1 else 0

  unfoldable pub pending_count : Dict Order → ℕ
  pending_count [] = 0
  pending_count ((k, o) ∷ m) = pending_weight o + pending_count m
