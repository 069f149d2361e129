-- ===== src/Actor/Sound.antt =====
-- What every order of an actor of internal/instrument satisfies: it is of the actor's token, it passed
-- Validate, and its status is one of the four constants.
use optionx_assignment.Common.{
  String, List, some, none, get, put, get-put, ◌≡◌, sym, ◌∙◌, ap, inl, inr, arith, str_eq-cases,
  subst,
}
use optionx_assignment.Float.{Float64}
use optionx_assignment.Order.{Status, Order, validate}
use optionx_assignment.Actor.Messages.{Message}
use optionx_assignment.Actor.State.{ActorState, store_order}
use optionx_assignment.Actor.Filling.{Schedule, commit_fill, as_filled}
use optionx_assignment.Actor.Handle.{run}
use optionx_assignment.Actor.Steps.{
  CanFill, IsNew, Step, Steps, fill, admit, activate, cancel, announce, reprice, here, next,
  IsKeyed, IsLive,
}
use optionx_assignment.Actor.Keyed.{
  orders-store_order, orders-commit_fill, orders-publish, token-store_order, token-commit_fill,
  token-publish,
}
use optionx_assignment.Actor.RefineHandle.{run-Steps}

abbrev pub IsKnown : Status → Type 0
IsKnown (Status.other x) = ⊥
IsKnown _ = Unit

IsLive-IsKnown : (t : Status) → IsLive t → IsKnown t
IsLive-IsKnown Status.pending l = tt
IsLive-IsKnown Status.resting l = tt
IsLive-IsKnown Status.filled l = absurd l
IsLive-IsKnown Status.cancelled l = absurd l
IsLive-IsKnown (Status.other x) l = absurd l

module _ ⦃fl : Float64⦄ where
  pub record IsSound (token : String) (o : Order) : Type 0 where
    pub owned : o.token ≡ token
    pub valid : validate o ≡ none
    pub known : IsKnown o.status

  abbrev pub AreSound : ActorState → Type 0
  AreSound s = (k : String) (o : Order) → get k s.orders ≡ some o → IsSound s.token o

  -- A change of the status alone.
  restatus-IsSound :
      (token : String) (o : Order) (t : Status)
      → IsKnown t
      → IsSound token o
      → IsSound token (record o { status = t })
  unfolding validate
  restatus-IsSound token o t k v = record { owned = v.owned; valid = v.valid; known = k }

  new-IsSound :
      (s : ActorState) (o : Order) (t : Status)
      → IsKnown t
      → IsNew s o
      → IsSound s.token (record o { status = t })
  unfolding validate
  new-IsSound s o t k n = record { owned = n.owned; valid = n.valid; known = k }

  pub CanFill-IsSound :
      (s : ActorState) (o : Order) → CanFill s o → AreSound s → IsSound s.token (as_filled o)
  CanFill-IsSound s o c v = elim c.open_order [
    | inl (g, r) ↦ restatus-IsSound s.token o Status.filled tt (v o.id o g)
    | inr n ↦ new-IsSound s o Status.filled tt n
  ]

  put-AreSound :
      (s t : ActorState) (o : Order)
      → t.token ≡ s.token
      → t.orders ≡ put o.id o s.orders
      → IsSound s.token o
      → AreSound s
      → AreSound t
  put-AreSound s t o same stored w v k x g =
      subst (λ tok. IsSound tok x) (sym same)
        (elim (str_eq-cases o.id k) [
          | inl (h, e) ↦
              let here : o ≡ x = ground (arith, get-put o.id k o s.orders, stored, g) in
              subst (IsSound s.token) here w
          | inr (h, ne) ↦ v k x (ground (arith, get-put o.id k o s.orders, stored, g))
        ])

  restored :
      (s : ActorState) (o : Order) (t : Status)
      → IsKnown t
      → get o.id s.orders ≡ some o
      → AreSound s
      → AreSound (store_order s o.id (record o { status = t }))
  restored s o t k g v =
      let x : Order = record o { status = t } in
      put-AreSound s (store_order s o.id x) x (token-store_order s o.id x)
        (orders-store_order s o.id x) (restatus-IsSound s.token o t k (v o.id o g)) v

  Step-AreSound : {s t : ActorState} → Step s t → AreSound s → AreSound t
  Step-AreSound {s} (fill o c) v =
      put-AreSound s (commit_fill s o s.last_ltp) (as_filled o) (token-commit_fill s o s.last_ltp)
        (orders-commit_fill s o s.last_ltp) (CanFill-IsSound s o c v) v
  Step-AreSound {s} (admit o n l) v =
      put-AreSound s (store_order s o.id o) o (token-store_order s o.id o)
        (orders-store_order s o.id o) (new-IsSound s o o.status (IsLive-IsKnown o.status l) n) v
  Step-AreSound {s} (activate o g p) v = restored s o Status.resting tt g v
  Step-AreSound {s} (cancel o g l) v = restored s o Status.cancelled tt g v
  Step-AreSound {s} announce v = λ k o g.
      subst (λ tok. IsSound tok o) (sym (token-publish s))
        (v k o (sym (ap (get k) (orders-publish s)) ∙ g))
  Step-AreSound (reprice ltp) v = v

  pub Steps-AreSound : {s t : ActorState} → Steps s t → AreSound s → AreSound t
  Steps-AreSound here v = v
  Steps-AreSound (next r st) v = Step-AreSound st (Steps-AreSound r v)

  -- If every order of an actor is of its token, passed Validate and has one of the four statuses, then
  -- so is every order after any run from a state whose orders stand under their ids.
  pub run-AreSound :
      (s : ActorState) (ms : List (Schedule × Message))
      → IsKeyed s.orders
      → AreSound s
      → AreSound (run s ms)
  run-AreSound s ms k v = Steps-AreSound (run-Steps s ms k) v
