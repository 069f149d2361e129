-- ===== src/Actor/Fills.antt =====
-- An order of an actor of internal/instrument fills at most once, and its fill reaches the store.
use optionx_assignment.Common.{
  ℕ, zero, ◌+◌, true, String, List, [], ◌∷◌, Option, none, some, get, get-put, ◌≡◌, refl, inl, inr,
  arith, ◌==◌, str_eq_iff, if◌then◌else◌,
}
use optionx_assignment.Float.{Float64}
use optionx_assignment.Order.{Status, Order}
use optionx_assignment.Actor.State.{
  Effect, save_order, save_fill, publish_update, ActorState, publish, store_order,
}
use optionx_assignment.Actor.Messages.{Message}
use optionx_assignment.Actor.Filling.{Schedule, commit_fill, as_filled}
use optionx_assignment.Actor.Handle.{run}
use optionx_assignment.Actor.Steps.{
  CanFill, Step, Steps, fill, admit, activate, cancel, announce, reprice, here, next, IsKeyed,
  IsLive,
}
use optionx_assignment.Actor.RefineHandle.{run-Steps}

module _ ⦃fl : Float64⦄ where
  -- How often a fill of the order `id` was written to the store.
  abbrev pub fills_of : String → List Effect → ℕ
  fills_of id [] = 0
  fills_of id (save_fill o p ∷ es) = (if o.id == id then 1 else 0) + fills_of id es
  fills_of id (save_order o ∷ es) = fills_of id es
  fills_of id (publish_update u ∷ es) = fills_of id es

  abbrev pub filled_weight : Option Order → ℕ
  filled_weight none = 0
  filled_weight (some o) = elim o.status [ Status.filled ↦ 1 | _ ↦ 0 ]

  -- 1 if the order `id` is filled, and 0 if it is not or is not known.
  abbrev pub is_filled_at : String → ActorState → ℕ
  is_filled_at id s = filled_weight (get id s.orders)

  -- The account of one order: fills written, and fills that the state shows.
  pub record Balanced (id : String) (s t : ActorState) : Type 0 where
    pub store : t.has_store ≡ true
    pub balance :
        fills_of id t.effects + is_filled_at id s ≡ fills_of id s.effects + is_filled_at id t

  live-unfilled : (o : Order) → IsLive o.status → filled_weight (some o) ≡ 0
  live-unfilled o l = go o.status l
    where
      go : (t : Status) → IsLive t → (elim t [ Status.filled ↦ 1 | _ ↦ 0 ]) ≡ zero
      go Status.pending l = refl
      go Status.resting l = refl
      go Status.filled l = absurd l
      go Status.cancelled l = absurd l
      go (Status.other x) l = absurd l

  store-Balanced :
      (id : String) (s : ActorState) (o : Order)
      → s.has_store ≡ true
      → filled_weight (get o.id s.orders) ≡ 0
      → filled_weight (some o) ≡ 0
      → Balanced id s (store_order s o.id o)
  unfolding store_order
  store-Balanced id s o h u v = record {
    store = ground arith;
    balance = rw h (ground (arith, get-put o.id id o s.orders, str_eq_iff o.id id));
  }

  unfilled : (s : ActorState) (o : Order) → CanFill s o → filled_weight (get o.id s.orders) ≡ 0
  unfilled s o c = elim c.open_order [
    | inl (g, r) ↦ rw g (live-unfilled o (rw r tt))
    | inr n ↦ rw n.unknown refl
  ]

  fill-Balanced :
      (id : String) (s : ActorState) (o : Order)
      → s.has_store ≡ true
      → CanFill s o
      → Balanced id s (commit_fill s o s.last_ltp)
  unfolding commit_fill
  fill-Balanced id s o h c = record {
    store = ground arith;
    balance = rw h (
        ground (arith, unfilled s o c, get-put o.id id (as_filled o) s.orders, str_eq_iff o.id id));
  }

  publish-Balanced : (id : String) (s : ActorState) → s.has_store ≡ true → Balanced id s (publish s)
  unfolding publish
  publish-Balanced id s h = record { store = ground arith; balance = ground arith }

  Step-Balanced : {s t : ActorState} (id : String) → Step s t → s.has_store ≡ true → Balanced id s t
  Step-Balanced {s} id (fill o c) h = fill-Balanced id s o h c
  Step-Balanced {s} id (admit o n l) h =
      store-Balanced id s o h (rw n.unknown refl) (live-unfilled o l)
  Step-Balanced {s} id (activate o g p) h =
      store-Balanced id s (record o { status = Status.resting }) h
        (rw g (live-unfilled o (rw p tt))) refl
  Step-Balanced {s} id (cancel o g l) h =
      store-Balanced id s (record o { status = Status.cancelled }) h (rw g (live-unfilled o l)) refl
  Step-Balanced {s} id announce h = publish-Balanced id s h
  Step-Balanced id (reprice ltp) h = record { store = h; balance = refl }

  pub Steps-Balanced :
      {s t : ActorState} (id : String) → Steps s t → s.has_store ≡ true → Balanced id s t
  Steps-Balanced id here h = record { store = h; balance = refl }
  Steps-Balanced id (next r st) h =
      let a = Steps-Balanced id r h in
      let b = Step-Balanced id st a.store in
      record { store = b.store; balance = omega (arith, a.balance, b.balance) }

  -- In any run of an actor with a store, the fills written for an order, and 1 if it was filled
  -- before, add up to the fills written before, and 1 if it is filled after.
  pub fills-run :
      (s : ActorState) (ms : List (Schedule × Message)) (id : String)
      → IsKeyed s.orders
      → s.has_store ≡ true
      → fills_of id (run s ms).effects + is_filled_at id s
        ≡ fills_of id s.effects + is_filled_at id (run s ms)
  fills-run s ms id k h = (Steps-Balanced id (run-Steps s ms k) h).balance
