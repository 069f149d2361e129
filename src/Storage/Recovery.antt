-- ===== src/Storage/Recovery.antt =====
-- LoadAllInstrumentState of internal/storage and Registry.Actor of internal/instrument: the actor that
-- a new process starts from the tables that an earlier one wrote.
use optionx_assignment.Common.{
  true, String, List, [], ◌++◌, Option, none, some, Dict, get, ◌≡◌, refl, sym, ◌∙◌, ap, inl, inr,
  Option-cases,
}
use optionx_assignment.Float.{Float64}
use optionx_assignment.Ledger.{Position}
use optionx_assignment.Actor.Messages.{Message, InitialState}
use optionx_assignment.Actor.State.{ActorState, put_orders}
use optionx_assignment.Actor.Filling.{Schedule}
use optionx_assignment.Actor.Handle.{run}
use optionx_assignment.Actor.Steps.{IsKeyed}
use optionx_assignment.Actor.RefineHandle.{run-Steps}
use optionx_assignment.Actor.Keyed.{Steps-IsKeyed}
use optionx_assignment.Actor.Sound.{AreSound, run-AreSound}
use optionx_assignment.Registry.{seed_at, no_seed}
use optionx_assignment.Storage.{
  OrderRow, Tables, row_of, carry_out, seed_positions, seed_orders, orders_for_token,
  load_all_instrument_state,
}
use optionx_assignment.Storage.WriteThrough.{
  row_option, Mirrors, IsWrittenThrough, run-IsWrittenThrough,
}
use optionx_assignment.Storage.RoundTrip.{to_order-row_of}
use optionx_assignment.Storage.Positions.{
  IsWellKept, HasPosition, run-HasPosition, carry_out-IsWellKept,
}
use optionx_assignment.Storage.Seeds.{
  seed_at-seed_orders, with_row, seed_at-seed_positions, AreRowsOf, read_row, get-put_orders,
}

module _ ⦃fl : Float64⦄ where
  pub record IsBackedBy (db : Tables) (s : ActorState) : Type 0 where
    pub keyed : IsKeyed s.orders
    pub sound : AreSound s
    pub kept : IsWellKept db
    pub written : IsWrittenThrough db s
    pub has : HasPosition db s

  pub run-IsBackedBy :
      (db : Tables) (s : ActorState) (ms : List (Schedule × Message))
      → s.has_store ≡ true
      → IsBackedBy db s
      → IsBackedBy db (run s ms)
  run-IsBackedBy db s ms h b = record {
    keyed = Steps-IsKeyed (run-Steps s ms b.keyed) b.keyed;
    sound = run-AreSound s ms b.keyed b.sound;
    kept = b.kept;
    written = run-IsWrittenThrough db s ms h b.keyed b.written;
    has = run-HasPosition db s ms h b.keyed b.sound b.kept b.has;
  }

  row_option-AreRowsOf :
      (s : ActorState) (rows : Dict OrderRow)
      → IsKeyed s.orders
      → AreSound s
      → Mirrors rows s.orders
      → AreRowsOf s.token rows
  unfolding row_of
  row_option-AreRowsOf s rows keyed sound v k r g = elim (Option-cases (get k s.orders)) [
    | inl n ↦ absurd (cc (v k, n, g))
    | inr (o, f) ↦
        let same : some (row_of o) ≡ some r = sym (v k ∙ ap row_option f) ∙ g in
        let row : row_of o ≡ r = cc in
        (sym (ap (λ x. x.id) row) ∙ keyed k o f, sym (ap (λ x. x.token) row) ∙ (sound k o f).owned)
  ]

  read_back :
      (s : ActorState) (id : String)
      → AreSound s
      → read_row (row_option (get id s.orders)) none ≡ get id s.orders
  read_back s id sound = elim (Option-cases (get id s.orders)) [
    | inl n ↦ rw n refl
    | inr (o, g) ↦
        rw g (ap (λ x. some x) (to_order-row_of o (sound id o g).valid (sound id o g).known))
  ]

  -- What the load finds for the actor's token.
  pub seed_of :
      (db : Tables) (s : ActorState)
      → IsBackedBy db s
      → let seed = seed_at s.token (load_all_instrument_state (carry_out db s.effects)) in
        (seed.position ≡ s.position)
        × ((id : String) → get id (put_orders seed.orders []) ≡ get id s.orders)
  unfolding load_all_instrument_state get
  seed_of db s b = (position_back, orders_back)
    where
      tables : Tables
      tables = carry_out db s.effects

      w : IsWellKept tables
      w = carry_out-IsWellKept db s.effects b.kept

      start : Dict InitialState
      start = seed_positions tables.positions []

      found : seed_at s.token start ≡ with_row no_seed (get s.token tables.positions)
      found = seed_at-seed_positions s.token tables.positions [] w.positions w.placed

      loaded :
          ((seed_at s.token (seed_orders tables.orders start)).position
            ≡ (seed_at s.token start).position)
          × ((seed_at s.token (seed_orders tables.orders start)).orders
              ≡ (seed_at s.token start).orders ++ orders_for_token s.token tables.orders)
      loaded = seed_at-seed_orders s.token tables.orders start

      no_orders : (o : Option Position) → (with_row no_seed o).orders ≡ []
      no_orders none = refl
      no_orders (some p) = refl

      position_back : (seed_at s.token (seed_orders tables.orders start)).position ≡ s.position
      position_back = loaded.0 ∙ ap (λ x. x.position) found ∙ elim b.has [
        | inl g ↦ ap (λ o. (with_row no_seed o).position) g
        | inr (g, z) ↦ ap (λ o. (with_row no_seed o).position) g ∙ sym z
      ]

      orders_back :
          (id : String)
          → get id (put_orders (seed_at s.token (seed_orders tables.orders start)).orders [])
            ≡ get id s.orders
      orders_back id =
          ap (λ os. get id (put_orders os []))
            (loaded.1
              ∙ ap (λ x. x.orders ++ orders_for_token s.token tables.orders) found
              ∙ ap (λ os. os ++ orders_for_token s.token tables.orders)
                  (no_orders (get s.token tables.positions)))
          ∙ get-put_orders s.token id tables.orders [] w.orders
              (row_option-AreRowsOf s tables.orders b.keyed b.sound b.written)
          ∙ ap (λ o. read_row o none) (b.written id)
          ∙ read_back s id b.sound
