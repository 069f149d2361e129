-- ===== src/Actor/Oco.antt =====
-- fillOrder of internal/instrument keeps the legs of every bracket to one fill: when a leg fills, its
-- sibling is cancelled before the handler ends.
use optionx_assignment.Common.{
  String, List, [], ◌∷◌, Dict, some, get, put, get-put, get-put_ne, get-put_self, ◌≡◌, ◌≢◌, refl,
  sym, ◌∙◌, ap, inl, inr, arith, str_eq_iff, str_eq-cases, subst,
}
use optionx_assignment.Float.{Float64}
use optionx_assignment.Order.{Status, Order}
use optionx_assignment.Actor.State.{ActorState}
use optionx_assignment.Actor.Filling.{
  FillFun, commit_fill, as_filled, activate_at, activate_children, cancel_sibling,
}
use optionx_assignment.Actor.Steps.{CanFill, IsKeyed, IsLive}
use optionx_assignment.Actor.Keyed.{orders-store_order, orders-commit_fill, Steps-IsKeyed}
use optionx_assignment.Actor.Cases.{activate_at_cases, cancel_sibling_cases}
use optionx_assignment.Actor.Refine.{commit_fill-Runs}
use optionx_assignment.Actor.OneCancels.{OneCancels, OneCancels-resting, OneCancels-cancelled}
use optionx_assignment.Actor.Paired.{Pair, IsPaired, HasEntries, put-IsPaired, put-HasEntries}

module _ ⦃fl : Float64⦄ where
  pub record IsOco (m : Dict Order) : Type 0 where
    pub paired : IsPaired m
    pub entries : HasEntries m

  IsOco-ext : (m n : Dict Order) → ((k : String) → get k n ≡ get k m) → IsOco m → IsOco n
  IsOco-ext m n e v = record {
    paired = λ a o g x.
        let p = v.paired a o (sym (e a) ∙ g) x in
        record {
          sibling = p.sibling;
          found = e o.sibling_id ∙ p.found;
          back = p.back;
          apart = p.apart;
          named = p.named;
          one_cancels = p.one_cancels;
        };
    entries = λ c o g x.
        let y = v.entries c o (sym (e c) ∙ g) x in
        record { order = y.order; found = e o.entry_id ∙ y.found; no_leg = y.no_leg };
  }

  pub put-IsOco :
      (m : Dict Order) (o : Order) (t : Status)
      → get o.id m ≡ some o
      → t ≢ Status.pending
      → ((p : Pair m o.id o) → OneCancels t p.sibling.status)
      → IsOco m
      → IsOco (put o.id (record o { status = t }) m)
  put-IsOco m o t g np ok v = record {
    paired = put-IsPaired m o t g ok v.paired;
    entries = put-HasEntries m o t g np v.entries;
  }

  pub cancel-IsOco :
      (m : Dict Order) (o : Order)
      → get o.id m ≡ some o
      → IsOco m
      → IsOco (put o.id (record o { status = Status.cancelled }) m)
  cancel-IsOco m o g =
      put-IsOco m o Status.cancelled g (λ e. cc)
        (λ p. OneCancels-cancelled o.status p.sibling.status p.one_cancels)

  pub resting-IsOco :
      (m : Dict Order) (o : Order)
      → get o.id m ≡ some o
      → o.status ≡ Status.pending
      → IsOco m
      → IsOco (put o.id (record o { status = Status.resting }) m)
  resting-IsOco m o g pend =
      put-IsOco m o Status.resting g (λ e. cc)
        (λ p.
          OneCancels-resting p.sibling.status
            (subst (λ t. OneCancels t p.sibling.status) pend p.one_cancels))

  -- No pair has an order without a sibling in it.
  plain-no-Pair : (m : Dict Order) (o : Order) → IsPaired m → o.sibling_id ≡ "" → ¬ Pair m o.id o
  plain-no-Pair m o h e p =
      let at : get "" m ≡ some p.sibling = subst (λ j. get j m ≡ some p.sibling) e p.found in
      (h "" p.sibling at (λ u. p.named (sym p.back ∙ u))).named refl

  pub plain_fill-IsOco :
      (m : Dict Order) (o : Order)
      → get o.id m ≡ some o
      → o.sibling_id ≡ ""
      → IsOco m
      → IsOco (put o.id (as_filled o) m)
  plain_fill-IsOco m o g e v =
      put-IsOco m o Status.filled g (λ u. cc) (λ p. absurd (plain-no-Pair m o v.paired e p)) v

  -- A leg whose sibling is cancelled may fill.
  leg_fill-IsOco :
      (m : Dict Order) (o b : Order)
      → get o.id m ≡ some o
      → get o.sibling_id m ≡ some b
      → b.status ≡ Status.cancelled
      → IsOco m
      → IsOco (put o.id (as_filled o) m)
  leg_fill-IsOco m o b g f c =
      put-IsOco m o Status.filled g (λ u. cc)
        (λ p.
          let same : b ≡ p.sibling = ground (arith, f, p.found) in
          subst (λ (y : Order). OneCancels Status.filled y.status) same
            (subst (λ t. OneCancels Status.filled t) (sym c) refl))

  put_swap :
      (m : Dict Order) (a b : String) (x y : Order)
      → a ≢ b
      → (k : String) → get k (put b y (put a x m)) ≡ get k (put a x (put b y m))
  put_swap m a b x y ne k = ground (
    arith,
    get-put b k y (put a x m),
    get-put a k x m,
    get-put a k x (put b y m),
    get-put b k y m,
    str_eq_iff a k,
    str_eq_iff b k,
  )

  -- The sibling of a resting leg is live or cancelled.
  cancelled_if_dead : (t : Status) → OneCancels Status.resting t → ¬ IsLive t → t ≡ Status.cancelled
  cancelled_if_dead Status.pending h n = absurd (n tt)
  cancelled_if_dead Status.resting h n = absurd (n tt)
  cancelled_if_dead Status.filled h n = cc
  cancelled_if_dead Status.cancelled h n = refl
  cancelled_if_dead (Status.other x) h n = absurd h

  -- A leg fills: its sibling, if live, is cancelled by cancelSiblingOf.
  module _ (s : ActorState) (o : Order) (k : IsKeyed s.orders) (c : CanFill s o)
      (g : get o.id s.orders ≡ some o) (rests : o.status ≡ Status.resting) (leg : o.sibling_id ≢ "")
      (v : IsOco s.orders) where
    abbrev pub committed : ActorState
    committed = commit_fill s o s.last_ltp

    committed-IsKeyed : IsKeyed committed.orders
    committed-IsKeyed = Steps-IsKeyed (commit_fill-Runs s o c).steps k

    elsewhere : (j : String) → o.id ≢ j → get j committed.orders ≡ get j s.orders
    elsewhere j ne =
        rw (orders-commit_fill s o s.last_ltp) (get-put_ne o.id j (as_filled o) s.orders ne)

    its-Pair : Pair s.orders o.id o
    its-Pair = v.paired o.id o g leg

    no_children :
        (x : Order)
        → get x.id committed.orders ≡ some x
        → x.entry_id ≡ o.id
        → x.status ≢ Status.pending
    no_children x gx e p = elim (str_eq-cases o.id x.id) [
      | inl (h, u) ↦
          let here : get x.id (put o.id (as_filled o) s.orders) ≡ some x =
            subst (λ m. get x.id m ≡ some x) (orders-commit_fill s o s.last_ltp) gx in
          ground (arith, get-put o.id x.id (as_filled o) s.orders)
      | inr (h, ne) ↦
          let y = v.entries x.id x (sym (elsewhere x.id ne) ∙ gx) (inl p) in
          let same : o ≡ y.order =
            ground (arith, sym g ∙ ap (λ j. get j s.orders) (sym e) ∙ y.found) in
          leg (ap (λ (z : Order). z.sibling_id) same ∙ y.no_leg)
    ]

    activate_at-none : (f : FillFun) (id : String) → activate_at f o.id committed id ≡ committed
    activate_at-none f id =
        activate_at_cases (λ t. t ≡ committed) f o.id committed id committed-IsKeyed refl
          (λ x gx e p. absurd (no_children x gx e p))

    pub activate_children-none :
        (f : FillFun) (ids : List String) → activate_children f o.id ids committed ≡ committed
    unfolding activate_children
    activate_children-none f [] = refl
    activate_children-none f (id ∷ ids) =
        ap (activate_children f o.id ids) (activate_at-none f id) ∙ activate_children-none f ids

    pub cancel_sibling-IsOco : IsOco (cancel_sibling committed (as_filled o)).orders
    cancel_sibling-IsOco =
        cancel_sibling_cases (λ t. IsOco t.orders) committed (as_filled o) committed-IsKeyed
          (λ dead.
            let b = its-Pair.sibling in
            let at : get o.sibling_id committed.orders ≡ some b =
              elsewhere o.sibling_id (λ e. its-Pair.apart (sym e)) ∙ its-Pair.found in
            rw (orders-commit_fill s o s.last_ltp) (
              leg_fill-IsOco s.orders o b g its-Pair.found
                (cancelled_if_dead b.status
                  (subst (λ t. OneCancels t b.status) rests its-Pair.one_cancels) (dead b at leg))
                v))
          (λ b gb e live.
            let apart : o.id ≢ b.id = λ u. its-Pair.apart (sym e ∙ sym u) in
            let d : Order = record b { status = Status.cancelled } in
            let before : get b.id s.orders ≡ some b = sym (elsewhere b.id apart) ∙ gb in
            let m = put b.id d s.orders in
            rw (orders-store_order committed b.id d, orders-commit_fill s o s.last_ltp)
              (IsOco-ext (put o.id (as_filled o) m) _
                (put_swap s.orders o.id b.id (as_filled o) d apart)
                (leg_fill-IsOco m o d (get-put_ne b.id o.id d s.orders (λ u. apart (sym u)) ∙ g)
                  (ap (λ j. get j m) (sym e) ∙ get-put_self b.id d s.orders) refl
                  (cancel-IsOco s.orders b before v))))
