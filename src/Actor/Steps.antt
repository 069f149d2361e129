-- ===== src/Actor/Steps.antt =====
-- The abstract machine that the handlers of internal/instrument refine: one step per change of the
-- state, each with the condition under which it is allowed.
use optionx_assignment.Common.{true, String, Dict, none, some, get, ◌≡◌, ◌⊎◌}
use optionx_assignment.Float.{Float64, Price}
use optionx_assignment.Order.{Status, Order, validate, would_fill}
use optionx_assignment.Actor.State.{ActorState, publish, store_order}
use optionx_assignment.Actor.Filling.{commit_fill}

-- An order that can still fill or be cancelled.
abbrev pub IsLive : Status → Type 0
IsLive Status.pending = Unit
IsLive Status.resting = Unit
IsLive _ = ⊥

module _ ⦃fl : Float64⦄ where
  -- An order that the actor accepts: of an id that it does not know, of its own token, and valid.
  pub record IsNew (s : ActorState) (o : Order) : Type 0 where
    pub unknown : get o.id s.orders ≡ none
    pub owned : o.token ≡ s.token
    pub valid : validate o ≡ none

  pub record CanFill (s : ActorState) (o : Order) : Type 0 where
    pub priced : s.has_ltp ≡ true
    pub crosses : would_fill o s.last_ltp ≡ true
    pub open_order : (get o.id s.orders ≡ some o) × (o.status ≡ Status.resting) ⊎ IsNew s o

  pub data Step (s : ActorState) : ActorState → Type 0 where
    fill : (o : Order) → CanFill s o → Step s (commit_fill s o s.last_ltp)
    admit : (o : Order) → IsNew s o → IsLive o.status → Step s (store_order s o.id o)
    activate :
        (o : Order)
        → get o.id s.orders ≡ some o
        → o.status ≡ Status.pending
        → Step s (store_order s o.id (record o { status = Status.resting }))
    cancel :
        (o : Order)
        → get o.id s.orders ≡ some o
        → IsLive o.status
        → Step s (store_order s o.id (record o { status = Status.cancelled }))
    announce : Step s (publish s)
    reprice : (ltp : Price) → Step s (record s { last_ltp = ltp; has_ltp = true })

  pub data Steps (s : ActorState) : ActorState → Type 0 where
    here : Steps s s
    next : {t u : ActorState} → Steps s t → Step t u → Steps s u

  pub Steps-trans : {s t u : ActorState} → Steps s t → Steps t u → Steps s u
  Steps-trans p here = p
  Steps-trans p (next q st) = next (Steps-trans p q) st

  pub one : {s t : ActorState} → Step s t → Steps s t
  one st = next here st

  -- Every order stands under its own id.
  abbrev pub IsKeyed : Dict Order → Type 0
  IsKeyed m = (k : String) (o : Order) → get k m ≡ some o → o.id ≡ k
