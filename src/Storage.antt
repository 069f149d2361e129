-- ===== src/Storage.antt =====
-- internal/storage/order_store.go: the tables of orders and positions as maps from their primary
-- keys, the SQL statements as functions on them. Whether the database carries a statement or a
-- transaction out is an argument; one that it refuses changes nothing.
pub mod Candles
pub mod WriteThrough
pub mod RoundTrip
pub mod Positions
pub mod Seeds
pub mod Recovery
pub mod Latest
pub mod Bars
use optionx_assignment.Common.{
  Bool, true, false, String, List, [], ◌∷◌, ◌++◌, Option, none, some, ℤ, pos, Dict, get, put, ◌==◌,
  if◌then◌else◌,
}
use optionx_assignment.Float.{Float64, Price}
use optionx_assignment.Order.{Order, side_of, side_text, kind_of, kind_text, status_of, status_text}
use optionx_assignment.Ledger.{Position}
use optionx_assignment.Actor.Messages.{InitialState}
use optionx_assignment.Actor.State.{Effect, save_order, save_fill, publish_update, zero_position}
use optionx_assignment.Registry.{seed_at}

module _ ⦃fl : Float64⦄ where
  pub record OrderRow : Type 0 where
    pub id : String
    pub token : String
    pub side : String
    pub kind : String
    pub qty : ℤ
    pub limit_price : Price
    pub status : String
    pub entry_id : String
    pub sibling_id : String

  unfoldable pub to_order : OrderRow → Order
  to_order r = record {
    id = r.id;
    token = r.token;
    side = side_of r.side;
    kind = kind_of r.kind;
    qty = r.qty;
    limit_price = r.limit_price;
    status = status_of r.status;
    entry_id = r.entry_id;
    sibling_id = r.sibling_id;
  }

  -- The values of the INSERT.
  unfoldable pub row_of : Order → OrderRow
  row_of o = record {
    id = o.id;
    token = o.token;
    side = side_text o.side;
    kind = kind_text o.kind;
    qty = o.qty;
    limit_price = o.limit_price;
    status = status_text o.status;
    entry_id = o.entry_id;
    sibling_id = o.sibling_id;
  }

  -- The rows of `positions` are positions.
  pub record Tables : Type 0 where
    pub orders : Dict OrderRow
    pub positions : Dict Position

  -- INSERT, or on a known id UPDATE of the status alone.
  unfoldable pub upsert_order : Order → Dict OrderRow → Dict OrderRow
  upsert_order o rows = elim (get o.id rows) [
    | none ↦ put o.id (row_of o) rows
    | some r ↦ put o.id (record r { status = status_text o.status }) rows
  ]

  unfoldable pub upsert_position : Position → Dict Position → Dict Position
  upsert_position p rows = elim (get p.token rows) [
    | none ↦ put p.token p rows
    | some q ↦
        put p.token
          (record q { qty = p.qty; avg_price = p.avg_price; realized_pnl = p.realized_pnl }) rows
  ]

  -- SaveOrder: the tables, and whether the statement was carried out.
  unfoldable pub save_order_row : Bool → Tables → Order → Tables × Bool
  save_order_row up db o =
      if up then (record db { orders = upsert_order o db.orders }, true) else (db, false)

  -- SaveFillTransition, one transaction.
  unfoldable pub save_fill_transition : Bool → Tables → Order → Position → Tables × Bool
  save_fill_transition up db o p =
      if up
      then (
        record db { orders = upsert_order o db.orders; positions = upsert_position p db.positions },
        true,
      )
      else (db, false)

  unfoldable pub load_position : Tables → String → Position
  load_position db token = elim (get token db.positions) [
    | none ↦ record zero_position { token = token }
    | some p ↦ p
  ]

  unfoldable pub orders_for_token : String → Dict OrderRow → List Order
  orders_for_token token [] = []
  orders_for_token token ((id, r) ∷ rows) =
      let rest = orders_for_token token rows in if r.token == token then to_order r ∷ rest else rest

  unfoldable pub load_orders_for_token : Tables → String → List Order
  load_orders_for_token db token = orders_for_token token db.orders

  -- The two loops of LoadAllInstrumentState.
  unfoldable pub seed_positions : Dict Position → Dict InitialState → Dict InitialState
  seed_positions [] out = out
  seed_positions ((token, p) ∷ rows) out =
      seed_positions rows (put p.token (record (seed_at p.token out) { position = p }) out)

  unfoldable pub seed_orders : Dict OrderRow → Dict InitialState → Dict InitialState
  seed_orders [] out = out
  seed_orders ((id, r) ∷ rows) out =
      let st = seed_at r.token out in
      seed_orders rows (put r.token (record st { orders = st.orders ++ to_order r ∷ [] }) out)

  unfoldable pub load_all_instrument_state : Tables → Dict InitialState
  load_all_instrument_state db = seed_orders db.orders (seed_positions db.positions [])

  -- The calls that an actor made of its store, oldest last, on a database that carries them all out.
  unfoldable pub carry_out : Tables → List Effect → Tables
  carry_out db [] = db
  carry_out db (save_order o ∷ es) = (save_order_row true (carry_out db es) o).0
  carry_out db (save_fill o p ∷ es) = (save_fill_transition true (carry_out db es) o p).0
  carry_out db (publish_update u ∷ es) = carry_out db es
