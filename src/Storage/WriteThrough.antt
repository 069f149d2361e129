-- ===== src/Storage/WriteThrough.antt =====
-- The orders table of internal/storage against the orders that an actor of internal/instrument keeps in
-- memory: what the actor wrote through is what it holds.
use optionx_assignment.Common.{
  true, Bool-cases, String, List, Option, none, some, Dict, get, put, get-put, ◌≡◌, refl, ◌∙◌, ap,
  inl, inr, ◌⊎◌, arith,
}
use optionx_assignment.Float.{Float64}
use optionx_assignment.Order.{Order, Status}
use optionx_assignment.Actor.Messages.{Message}
use optionx_assignment.Actor.State.{ActorState, publish, persist_order, persist_fill, store_order}
use optionx_assignment.Actor.Filling.{Schedule, commit_fill}
use optionx_assignment.Actor.Handle.{run}
use optionx_assignment.Actor.Steps.{
  IsNew, Step, Steps, fill, admit, activate, cancel, announce, reprice, here, next, IsKeyed,
}
use optionx_assignment.Actor.RefineHandle.{run-Steps}
use optionx_assignment.Storage.{
  OrderRow, Tables, row_of, upsert_order, carry_out, save_order_row, save_fill_transition,
}

module _ ⦃fl : Float64⦄ where
  abbrev pub row_option : Option Order → Option OrderRow
  row_option none = none
  row_option (some o) = some (row_of o)

  -- The table has exactly the rows of the orders of the map.
  abbrev pub Mirrors : Dict OrderRow → Dict Order → Type 0
  Mirrors rows m = (id : String) → get id rows ≡ row_option (get id m)

  -- Whether the order is new or known, the upsert leaves its whole row.
  upsert_order-put :
      (rows : Dict OrderRow) (m : Dict Order) (o : Order) (t : Status)
      → (get o.id m ≡ some o) ⊎ (get o.id m ≡ none)
      → Mirrors rows m
      → upsert_order (record o { status = t }) rows
        ≡ put o.id (row_of (record o { status = t })) rows
  unfolding upsert_order row_of
  upsert_order-put rows m o t (inl g) v = rw (upsert_order, v o.id ∙ ap row_option g) refl
  upsert_order-put rows m o t (inr g) v = rw (upsert_order, v o.id ∙ ap row_option g) refl

  put-Mirrors :
      (rows : Dict OrderRow) (m : Dict Order) (id : String) (o : Order)
      → Mirrors rows m
      → Mirrors (put id (row_of o) rows) (put id o m)
  put-Mirrors rows m id o v k = ground (arith, get-put id k o m, get-put id k (row_of o) rows, v k)

  upsert_order-Mirrors :
      (rows : Dict OrderRow) (m : Dict Order) (o : Order) (t : Status)
      → (get o.id m ≡ some o) ⊎ (get o.id m ≡ none)
      → Mirrors rows m
      → Mirrors (upsert_order (record o { status = t }) rows) (put o.id (record o { status = t }) m)
  upsert_order-Mirrors rows m o t known v =
      rw (upsert_order-put rows m o t known v) (put-Mirrors rows m o.id (record o { status = t }) v)

  -- What the actor wrote through, on top of the tables that it started with, mirrors its orders.
  abbrev pub IsWrittenThrough : Tables → ActorState → Type 0
  IsWrittenThrough db s = Mirrors (carry_out db s.effects).orders s.orders

  pub record Stored (db : Tables) (s : ActorState) : Type 0 where
    pub store : s.has_store ≡ true
    pub written : IsWrittenThrough db s

  store_order-Stored :
      (db : Tables) (s : ActorState) (o : Order) (t : Status)
      → (get o.id s.orders ≡ some o) ⊎ (get o.id s.orders ≡ none)
      → Stored db s
      → Stored db (store_order s o.id (record o { status = t }))
  unfolding store_order persist_order carry_out save_order_row
  store_order-Stored db s o t known v = rw v.store (record {
    store = refl;
    written = upsert_order-Mirrors (carry_out db s.effects).orders s.orders o t known v.written;
  })

  commit_fill-Stored :
      (db : Tables) (s : ActorState) (o : Order)
      → (get o.id s.orders ≡ some o) ⊎ (get o.id s.orders ≡ none)
      → Stored db s
      → Stored db (commit_fill s o s.last_ltp)
  unfolding commit_fill persist_fill carry_out save_fill_transition
  commit_fill-Stored db s o known v = rw v.store (record {
    store = refl;
    written =
        upsert_order-Mirrors (carry_out db s.effects).orders s.orders o Status.filled known
          v.written;
  })

  publish-Stored : (db : Tables) (s : ActorState) → Stored db s → Stored db (publish s)
  unfolding publish carry_out
  publish-Stored db s v = elim (Bool-cases s.has_publisher) [
    | inl h ↦ rw h (record { store = v.store; written = v.written })
    | inr h ↦ rw h (record { store = v.store; written = v.written })
  ]

  known_or_new :
      (s : ActorState) (o : Order)
      → (get o.id s.orders ≡ some o) × (o.status ≡ Status.resting) ⊎ IsNew s o
      → (get o.id s.orders ≡ some o) ⊎ (get o.id s.orders ≡ none)
  known_or_new s o (inl (g, r)) = inl g
  known_or_new s o (inr n) = inr n.unknown

  Step-Stored : (db : Tables) {s t : ActorState} → Step s t → Stored db s → Stored db t
  Step-Stored db {s} (fill o c) v = commit_fill-Stored db s o (known_or_new s o c.open_order) v
  Step-Stored db {s} (admit o g l) v = store_order-Stored db s o o.status (inr g.unknown) v
  Step-Stored db {s} (activate o g p) v = store_order-Stored db s o Status.resting (inl g) v
  Step-Stored db {s} (cancel o g l) v = store_order-Stored db s o Status.cancelled (inl g) v
  Step-Stored db {s} announce v = publish-Stored db s v
  Step-Stored db (reprice ltp) v = record { store = v.store; written = v.written }

  Steps-Stored : (db : Tables) {s t : ActorState} → Steps s t → Stored db s → Stored db t
  Steps-Stored db here v = v
  Steps-Stored db (next r st) v = Step-Stored db st (Steps-Stored db r v)

  -- If the orders table mirrors what an actor with a store keeps in memory, and the database carries
  -- every statement out, then after any run of messages the table has exactly the rows of the orders
  -- in memory, in every column, although a known order's row is updated in its status alone.
  pub run-IsWrittenThrough :
      (db : Tables) (s : ActorState) (ms : List (Schedule × Message))
      → s.has_store ≡ true
      → IsKeyed s.orders
      → IsWrittenThrough db s
      → IsWrittenThrough db (run s ms)
  run-IsWrittenThrough db s ms h k v =
      (Steps-Stored db (run-Steps s ms k) (record { store = h; written = v })).written
