-- ===== src/Actor/Traded.antt =====
-- The position of an actor of internal/instrument is what its fills add up to, in memory and in every
-- row that is written for it.
use optionx_assignment.Common.{
  true, String, List, [], ◌∷◌, ℤ, add64, neg64, InRange64, ◌≡◌, refl, sym, ◌∙◌, ap, subst, inl, inr,
  Bool-cases, if◌then◌else◌,
}
use optionx_assignment.Float.{Float64}
use optionx_assignment.Order.{Status, Order, is_sell}
use optionx_assignment.Ledger.{signed_qty, apply_fill}
use optionx_assignment.Ledger.Quantity.{qty-apply_fill, add64-InRange64}
use optionx_assignment.Actor.State.{
  Effect, save_order, save_fill, publish_update, ActorState, publish, store_order, persist_fill,
  persist_order,
}
use optionx_assignment.Actor.Messages.{Message}
use optionx_assignment.Actor.Filling.{Schedule, commit_fill, fill_of}
use optionx_assignment.Actor.Handle.{run}
use optionx_assignment.Actor.Steps.{
  Step, Steps, fill, admit, activate, cancel, announce, reprice, here, next, IsKeyed,
}
use optionx_assignment.Actor.Fills.{Steps-Balanced}
use optionx_assignment.Actor.RefineHandle.{run-Steps}

module _ ⦃fl : Float64⦄ where
  -- What the fill of an order adds: its quantity, or less its quantity for a sale.
  abbrev pub signed_of : Order → ℤ
  signed_of o = if is_sell o.side then neg64 o.qty else o.qty

  -- The int64 sum of the fills written, on top of `q`.
  abbrev pub traded : ℤ → List Effect → ℤ
  traded q [] = q
  traded q (save_fill o p ∷ es) = add64 (traded q es) (signed_of o)
  traded q (save_order o ∷ es) = traded q es
  traded q (publish_update u ∷ es) = traded q es

  -- Every position that was written with a fill is the sum up to it.
  abbrev pub AllAddUp : ℤ → List Effect → Type 0
  AllAddUp q [] = Unit
  AllAddUp q (save_fill o p ∷ es) = (p.qty ≡ add64 (traded q es) (signed_of o)) × AllAddUp q es
  AllAddUp q (save_order o ∷ es) = AllAddUp q es
  AllAddUp q (publish_update u ∷ es) = AllAddUp q es

  -- The quantity of every order that was filled is an int64 value.
  abbrev pub AreInt64 : List Effect → Type 0
  AreInt64 [] = Unit
  AreInt64 (save_fill o p ∷ es) = InRange64 o.qty × AreInt64 es
  AreInt64 (save_order o ∷ es) = AreInt64 es
  AreInt64 (publish_update u ∷ es) = AreInt64 es

  pub record AddsUp (q : ℤ) (s : ActorState) : Type 0 where
    pub store : s.has_store ≡ true
    pub range : InRange64 s.position.qty
    pub total : s.position.qty ≡ traded q s.effects
    pub rows : AllAddUp q s.effects

  -- A step from a state whose accounts add up.
  abbrev Keeps : ℤ → ActorState → ActorState → Type 0
  Keeps q s t = AreInt64 t.effects → AreInt64 s.effects × (AddsUp q s → AddsUp q t)

  store-Keeps : (q : ℤ) (s : ActorState) (id : String) (o : Order) → Keeps q s (store_order s id o)
  unfolding store_order
  store-Keeps q s id o = elim (Bool-cases s.has_store) [
    | inl h ↦
        rw (store_order, persist_order, h)
          (λ n. (n, λ a. record { store = refl; range = a.range; total = a.total; rows = a.rows }))
    | inr h ↦
        rw (store_order, persist_order, h)
          (λ n.
            (n, λ a. record { store = a.store; range = a.range; total = a.total; rows = a.rows }))
  ]

  publish-Keeps : (q : ℤ) (s : ActorState) → Keeps q s (publish s)
  unfolding publish
  publish-Keeps q s = elim (Bool-cases s.has_publisher) [
    | inl h ↦
        rw (publish, h)
          (λ n.
            (n, λ a. record { store = a.store; range = a.range; total = a.total; rows = a.rows }))
    | inr h ↦ rw (publish, h) (λ n. (n, λ a. a))
  ]

  -- A fill: the new position is the sum of the old one and what the order adds.
  total-commit_fill :
      (s : ActorState) (o : Order)
      → InRange64 s.position.qty
      → InRange64 o.qty
      → (apply_fill s.position (fill_of o s.last_ltp)).qty ≡ add64 s.position.qty (signed_of o)
  unfolding fill_of signed_qty
  total-commit_fill s o h k = qty-apply_fill s.position (fill_of o s.last_ltp) h k

  fill-Keeps :
      (q : ℤ) (s : ActorState) (o : Order)
      → s.has_store ≡ true
      → Keeps q s (commit_fill s o s.last_ltp)
  unfolding commit_fill persist_fill
  fill-Keeps q s o h =
      let p = apply_fill s.position (fill_of o s.last_ltp) in
      rw (commit_fill, persist_fill, h)
        (λ n. (
          n.1,
          λ a.
              let sum = total-commit_fill s o a.range n.0 in
              let e = sum ∙ ap (λ x. add64 x (signed_of o)) a.total in
              record {
                store = refl;
                range = subst InRange64 (sym sum) (add64-InRange64 s.position.qty (signed_of o));
                total = e;
                rows = (e, a.rows);
              },
        ))

  Step-Keeps : {s t : ActorState} (q : ℤ) → Step s t → s.has_store ≡ true → Keeps q s t
  Step-Keeps {s} q (fill o c) h = fill-Keeps q s o h
  Step-Keeps {s} q (admit o n l) h = store-Keeps q s o.id o
  Step-Keeps {s} q (activate o g p) h = store-Keeps q s o.id (record o { status = Status.resting })
  Step-Keeps {s} q (cancel o g l) h = store-Keeps q s o.id (record o { status = Status.cancelled })
  Step-Keeps {s} q announce h = publish-Keeps q s
  Step-Keeps q (reprice ltp) h =
      λ n. (n, λ a. record { store = a.store; range = a.range; total = a.total; rows = a.rows })

  Steps-Keeps :
      {s t : ActorState} (q : ℤ) → Steps s t → AddsUp q s → AreInt64 t.effects → AddsUp q t
  Steps-Keeps q here a n = a
  Steps-Keeps q (next r st) a n =
      let kept = Step-Keeps q st (Steps-Balanced "" r a.store).store n in
      kept.1 (Steps-Keeps q r a kept.0)

  -- Take an actor with a store whose quantity is an int64 value, and the sum of `q` and the fills
  -- written so far. After any run in which every filled order's quantity is an int64 value, its
  -- quantity is the int64 sum of `q` and all fills written, each counted with its order's quantity,
  -- less for a sale; and so is every position that was written, for the fills up to it.
  pub run-AddsUp :
      (q : ℤ) (s : ActorState) (ms : List (Schedule × Message))
      → IsKeyed s.orders
      → AddsUp q s
      → AreInt64 (run s ms).effects
      → AddsUp q (run s ms)
  run-AddsUp q s ms k a n = Steps-Keeps q (run-Steps s ms k) a n
