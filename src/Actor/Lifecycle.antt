-- ===== src/Actor/Lifecycle.antt =====
-- What happens to one order of an actor of internal/instrument over any run.
use optionx_assignment.Common.{
  String, List, Dict, none, some, get, put, get-put, ◌≡◌, ◌⊎◌, refl, inl, inr, arith, str_eq-cases,
  subst, sym,
}
use optionx_assignment.Float.{Float64}
use optionx_assignment.Order.{Status, Order}
use optionx_assignment.Actor.State.{ActorState}
use optionx_assignment.Actor.Messages.{Message}
use optionx_assignment.Actor.Filling.{Schedule, as_filled}
use optionx_assignment.Actor.Handle.{run}
use optionx_assignment.Actor.Steps.{
  CanFill, Step, Steps, fill, admit, activate, cancel, announce, reprice, here, next, IsKeyed,
  IsLive,
}
use optionx_assignment.Actor.Keyed.{orders-store_order, orders-commit_fill, orders-publish}
use optionx_assignment.Actor.RefineHandle.{run-Steps}

-- The life of an order: pending, resting, then filled or cancelled, and no way back.
abbrev pub MayBecome : Status → Status → Type 0
MayBecome Status.pending Status.pending = Unit
MayBecome Status.pending Status.resting = Unit
MayBecome Status.pending Status.filled = Unit
MayBecome Status.pending Status.cancelled = Unit
MayBecome Status.resting Status.resting = Unit
MayBecome Status.resting Status.filled = Unit
MayBecome Status.resting Status.cancelled = Unit
MayBecome Status.filled t = t ≡ Status.filled
MayBecome Status.cancelled t = t ≡ Status.cancelled
MayBecome (Status.other x) t = t ≡ Status.other x
MayBecome _ _ = ⊥

MayBecome-refl : (s : Status) → MayBecome s s
MayBecome-refl Status.pending = tt
MayBecome-refl Status.resting = tt
MayBecome-refl Status.filled = refl
MayBecome-refl Status.cancelled = refl
MayBecome-refl (Status.other x) = refl

MayBecome-trans : (s t u : Status) → MayBecome s t → MayBecome t u → MayBecome s u
MayBecome-trans Status.pending Status.pending u p q = q
MayBecome-trans Status.pending Status.resting Status.pending p q = absurd q
MayBecome-trans Status.pending Status.resting Status.resting p q = tt
MayBecome-trans Status.pending Status.resting Status.filled p q = tt
MayBecome-trans Status.pending Status.resting Status.cancelled p q = tt
MayBecome-trans Status.pending Status.resting (Status.other x) p q = absurd q
MayBecome-trans Status.pending Status.filled u p q = subst (MayBecome Status.pending) (sym q) tt
MayBecome-trans Status.pending Status.cancelled u p q = subst (MayBecome Status.pending) (sym q) tt
MayBecome-trans Status.pending (Status.other x) u p q = absurd p
MayBecome-trans Status.resting Status.pending u p q = absurd p
MayBecome-trans Status.resting Status.resting u p q = q
MayBecome-trans Status.resting Status.filled u p q = subst (MayBecome Status.resting) (sym q) tt
MayBecome-trans Status.resting Status.cancelled u p q = subst (MayBecome Status.resting) (sym q) tt
MayBecome-trans Status.resting (Status.other x) u p q = absurd p
MayBecome-trans Status.filled t u p q = subst (λ x. MayBecome x u) p q
MayBecome-trans Status.cancelled t u p q = subst (λ x. MayBecome x u) p q
MayBecome-trans (Status.other x) t u p q = subst (λ y. MayBecome y u) p q

module _ ⦃fl : Float64⦄ where
  -- `o` again, with nothing but the status changed, and that forward.
  pub record Later (m : Dict Order) (id : String) (o : Order) : Type 0 where
    pub status : Status
    pub found : get id m ≡ some (record o { status = status })
    pub forward : MayBecome o.status status

  live-cancelled : (t : Status) → IsLive t → MayBecome t Status.cancelled
  live-cancelled Status.pending l = tt
  live-cancelled Status.resting l = tt
  live-cancelled Status.filled l = absurd l
  live-cancelled Status.cancelled l = absurd l
  live-cancelled (Status.other x) l = absurd l

  -- Storing `o'`, which is an order of the map with its status moved forward.
  put-Later :
      (m : Dict Order) (o : Order) (t : Status) (id : String) (o₀ : Order)
      → (get o.id m ≡ none) ⊎ ((get o.id m ≡ some o) × MayBecome o.status t)
      → get id m ≡ some o₀
      → Later (put o.id (record o { status = t }) m) id o₀
  put-Later m o t id o₀ c g = elim (str_eq-cases o.id id) [
    | inl (h, e) ↦ elim c [
      | inl n ↦ cc
      | inr (f, w) ↦
          let same : o ≡ o₀ = ground arith in
          record {
            status = t;
            found = rw (get-put, h) (ground arith);
            forward = subst (λ (x : Order). MayBecome x.status t) same w;
          }
    ]
    | inr (h, n) ↦ record {
      status = o₀.status;
      found = rw (get-put, h) g;
      forward = MayBecome-refl o₀.status;
    }
  ]

  fill-Later :
      (s : ActorState) (o : Order) (id : String) (o₀ : Order)
      → CanFill s o
      → get id s.orders ≡ some o₀
      → Later (put o.id (as_filled o) s.orders) id o₀
  fill-Later s o id o₀ c g = elim c.open_order [
    | inl (f, r) ↦
        put-Later s.orders o Status.filled id o₀
          (inr (f, subst (λ x. MayBecome x Status.filled) (sym r) tt)) g
    | inr n ↦ put-Later s.orders o Status.filled id o₀ (inl n.unknown) g
  ]

  Step-Later :
      {s t : ActorState} (id : String) (o₀ : Order)
      → Step s t
      → get id s.orders ≡ some o₀
      → Later t.orders id o₀
  Step-Later {s} id o₀ (fill o c) g =
      rw (orders-commit_fill s o s.last_ltp) (fill-Later s o id o₀ c g)
  Step-Later {s} id o₀ (admit o n l) g =
      rw (orders-store_order s o.id o) (put-Later s.orders o o.status id o₀ (inl n.unknown) g)
  Step-Later {s} id o₀ (activate o f p) g =
      let r : Order = record o { status = Status.resting } in
      rw (orders-store_order s o.id r) (
        put-Later s.orders o Status.resting id o₀
          (inr (f, subst (λ x. MayBecome x Status.resting) (sym p) tt)) g)
  Step-Later {s} id o₀ (cancel o f l) g =
      let c : Order = record o { status = Status.cancelled } in
      rw (orders-store_order s o.id c)
        (put-Later s.orders o Status.cancelled id o₀ (inr (f, live-cancelled o.status l)) g)
  Step-Later {s} id o₀ announce g =
      rw (orders-publish s)
        (record { status = o₀.status; found = g; forward = MayBecome-refl o₀.status })
  Step-Later id o₀ (reprice ltp) g = record {
    status = o₀.status;
    found = g;
    forward = MayBecome-refl o₀.status;
  }

  pub Steps-Later :
      {s t : ActorState} (id : String) (o₀ : Order)
      → Steps s t
      → get id s.orders ≡ some o₀
      → Later t.orders id o₀
  Steps-Later id o₀ here g = record {
    status = o₀.status;
    found = g;
    forward = MayBecome-refl o₀.status;
  }
  Steps-Later id o₀ (next r st) g =
      let a = Steps-Later id o₀ r g in
      let b = Step-Later id (record o₀ { status = a.status }) st a.found in
      record {
        status = b.status;
        found = b.found;
        forward = MayBecome-trans o₀.status a.status b.status a.forward b.forward;
      }

  -- In any run from a state whose orders stand under their ids, an order that the actor knows stays
  -- known under its id with everything but its status unchanged, and the status only moves forward:
  -- pending, resting, then filled or cancelled for good.
  pub Later-run :
      (s : ActorState) (ms : List (Schedule × Message)) (id : String) (o : Order)
      → IsKeyed s.orders
      → get id s.orders ≡ some o
      → Later (run s ms).orders id o
  Later-run s ms id o k g = Steps-Later id o (run-Steps s ms k) g
