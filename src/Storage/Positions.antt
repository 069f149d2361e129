-- ===== src/Storage/Positions.antt =====
-- The positions table of internal/storage against the position that an actor of internal/instrument
-- keeps in memory, and the shape of both tables.
use optionx_assignment.Common.{
  true, String, List, [], ◌∷◌, none, some, Dict, get, put, get-put, get-put_self, IsUnique,
  put-IsUnique, ◌≡◌, refl, sym, ◌∙◌, ap, inl, inr, ◌⊎◌, arith, str_eq_iff, Bool-cases, Option-cases,
}
use optionx_assignment.Float.{Float64}
use optionx_assignment.Order.{Order, Fill}
use optionx_assignment.Ledger.{Position, apply_fill}
use optionx_assignment.Actor.State.{
  ActorState, Effect, save_order, save_fill, publish_update, zero_position, publish, persist_order,
  persist_fill, store_order,
}
use optionx_assignment.Actor.Filling.{Schedule, commit_fill, fill_of, as_filled}
use optionx_assignment.Actor.Steps.{
  CanFill, Step, Steps, fill, admit, activate, cancel, announce, reprice, here, next, IsKeyed,
}
use optionx_assignment.Actor.Sound.{AreSound, CanFill-IsSound, Steps-AreSound}
use optionx_assignment.Actor.Messages.{Message}
use optionx_assignment.Actor.Handle.{run}
use optionx_assignment.Actor.RefineHandle.{run-Steps}
use optionx_assignment.Storage.{
  OrderRow, Tables, upsert_order, upsert_position, carry_out, save_order_row, save_fill_transition,
}

module _ ⦃fl : Float64⦄ where
  -- Every position stands under its token.
  abbrev pub ArePlaced : Dict Position → Type 0
  ArePlaced rows = (k : String) (p : Position) → get k rows ≡ some p → p.token ≡ k

  pub record IsWellKept (db : Tables) : Type 0 where
    pub orders : IsUnique db.orders
    pub positions : IsUnique db.positions
    pub placed : ArePlaced db.positions

  upsert_order-IsUnique :
      (o : Order) (rows : Dict OrderRow) → IsUnique rows → IsUnique (upsert_order o rows)
  unfolding upsert_order
  upsert_order-IsUnique o rows u = elim (Option-cases (get o.id rows)) [
    | inl g ↦ rw (upsert_order, g) (put-IsUnique o.id _ rows u)
    | inr (r, g) ↦ rw (upsert_order, g) (put-IsUnique o.id _ rows u)
  ]

  -- Whether the position is new or known, the upsert leaves its whole row.
  upsert_position_lem :
      (p : Position) (rows : Dict Position)
      → ArePlaced rows
      → upsert_position p rows ≡ put p.token p rows
  unfolding upsert_position put
  upsert_position_lem p rows placed = elim (Option-cases (get p.token rows)) [
    | inl g ↦ rw (upsert_position, g) refl
    | inr (q, g) ↦
        rw (upsert_position, g)
          (ap (λ t. put p.token (record p { token = t }) rows) (placed p.token q g))
  ]

  put-ArePlaced :
      (p : Position) (rows : Dict Position) → ArePlaced rows → ArePlaced (put p.token p rows)
  put-ArePlaced p rows h k q g =
      ground (arith, get-put p.token k p rows, h k q, str_eq_iff p.token k)

  upsert_position-kept :
      (p : Position) (rows : Dict Position)
      → IsUnique rows
      → ArePlaced rows
      → IsUnique (upsert_position p rows) × ArePlaced (upsert_position p rows)
  upsert_position-kept p rows u h =
      rw (upsert_position_lem p rows h) (put-IsUnique p.token p rows u, put-ArePlaced p rows h)

  -- Whatever an actor writes, no key stands twice and positions stand under their tokens.
  pub carry_out-IsWellKept :
      (db : Tables) (es : List Effect) → IsWellKept db → IsWellKept (carry_out db es)
  unfolding carry_out save_order_row save_fill_transition
  carry_out-IsWellKept db [] w = w
  carry_out-IsWellKept db (save_order o ∷ es) w =
      let r = carry_out-IsWellKept db es w in
      record {
        orders = upsert_order-IsUnique o (carry_out db es).orders r.orders;
        positions = r.positions;
        placed = r.placed;
      }
  carry_out-IsWellKept db (save_fill o p ∷ es) w =
      let r = carry_out-IsWellKept db es w in
      let kept = upsert_position-kept p (carry_out db es).positions r.positions r.placed in
      record {
        orders = upsert_order-IsUnique o (carry_out db es).orders r.orders;
        positions = kept.0;
        placed = kept.1;
      }
  carry_out-IsWellKept db (publish_update u ∷ es) w = carry_out-IsWellKept db es w

  -- The table has the actor's position, or the actor has none yet and the table neither.
  abbrev pub HasPosition : Tables → ActorState → Type 0
  HasPosition db s =
      (get s.token (carry_out db s.effects).positions ≡ some s.position)
      ⊎ (get s.token (carry_out db s.effects).positions ≡ none) × (s.position ≡ zero_position)

  pub record PositionStored (db : Tables) (s : ActorState) : Type 0 where
    pub store : s.has_store ≡ true
    pub has : HasPosition db s

  token-apply_fill : (p : Position) (f : Fill) → (apply_fill p f).token ≡ f.token
  unfolding apply_fill
  token-apply_fill p f = ground arith

  filled_row :
      (db : Tables) (es : List Effect) (o : Order) (p : Position) (token : String)
      → IsWellKept db
      → p.token ≡ token
      → get token (carry_out db (save_fill o p ∷ es)).positions ≡ some p
  unfolding carry_out save_fill_transition
  filled_row db es o p token w e =
      rw (upsert_position_lem p (carry_out db es).positions (carry_out-IsWellKept db es w).placed) (
        ap (λ k. get k (put p.token p (carry_out db es).positions)) (sym e)
        ∙ get-put_self p.token p (carry_out db es).positions)

  commit_fill-PositionStored :
      (db : Tables) (s : ActorState) (o : Order)
      → IsWellKept db
      → CanFill s o
      → AreSound s
      → PositionStored db s
      → PositionStored db (commit_fill s o s.last_ltp)
  unfolding commit_fill persist_fill fill_of
  commit_fill-PositionStored db s o w c sound v =
      let p = apply_fill s.position (fill_of o s.last_ltp) in
      rw v.store (record {
        store = refl;
        has = inl (
            filled_row db s.effects (as_filled o) p s.token w (
              token-apply_fill s.position (fill_of o s.last_ltp)
              ∙ (CanFill-IsSound s o c sound).owned));
      })

  store_order-PositionStored :
      (db : Tables) (s : ActorState) (id : String) (o : Order)
      → PositionStored db s
      → PositionStored db (store_order s id o)
  unfolding store_order persist_order carry_out save_order_row
  store_order-PositionStored db s id o v = rw v.store (record { store = refl; has = v.has })

  publish-PositionStored :
      (db : Tables) (s : ActorState) → PositionStored db s → PositionStored db (publish s)
  unfolding publish carry_out
  publish-PositionStored db s v = elim (Bool-cases s.has_publisher) [
    | inl h ↦ rw h (record { store = v.store; has = v.has })
    | inr h ↦ rw h (record { store = v.store; has = v.has })
  ]

  pub Step-PositionStored :
      (db : Tables) {s t : ActorState}
      → Step s t
      → IsWellKept db
      → AreSound s
      → PositionStored db s
      → PositionStored db t
  Step-PositionStored db {s} (fill o c) w sound v = commit_fill-PositionStored db s o w c sound v
  Step-PositionStored db {s} (admit o n l) w sound v = store_order-PositionStored db s o.id o v
  Step-PositionStored db {s} (activate o g p) w sound v = store_order-PositionStored db s o.id _ v
  Step-PositionStored db {s} (cancel o g l) w sound v = store_order-PositionStored db s o.id _ v
  Step-PositionStored db {s} announce w sound v = publish-PositionStored db s v
  Step-PositionStored db (reprice ltp) w sound v = record { store = v.store; has = v.has }

  Steps-PositionStored :
      (db : Tables) {s t : ActorState}
      → Steps s t
      → IsWellKept db
      → AreSound s
      → PositionStored db s
      → PositionStored db t
  Steps-PositionStored db here w sound v = v
  Steps-PositionStored db (next r st) w sound v =
      Step-PositionStored db st w (Steps-AreSound r sound) (Steps-PositionStored db r w sound v)

  pub run-HasPosition :
      (db : Tables) (s : ActorState) (ms : List (Schedule × Message))
      → s.has_store ≡ true
      → IsKeyed s.orders
      → AreSound s
      → IsWellKept db
      → HasPosition db s
      → HasPosition db (run s ms)
  run-HasPosition db s ms h k sound w v =
      (Steps-PositionStored db (run-Steps s ms k) w sound (record { store = h; has = v })).has
