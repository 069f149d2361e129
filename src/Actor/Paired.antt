-- ===== src/Actor/Paired.antt =====
-- The links between the two legs of a bracket (internal/instrument/bracket.go), as a property of the
-- orders map, and what keeps it.
use optionx_assignment.Common.{
  String, Dict, none, some, get, put, get-put, get-put_ne, get-put_self, ◌≡◌, ◌≢◌, sym, ◌∙◌, ap,
  inl, inr, ◌⊎◌, arith, str_eq-cases, subst,
}
use optionx_assignment.Float.{Float64}
use optionx_assignment.Order.{Status, Order}
use optionx_assignment.Actor.OneCancels.{OneCancels, OneCancels-sym}

module _ ⦃fl : Float64⦄ where
  -- The other leg of the order `o`, which stands under `a`.
  pub record Pair (m : Dict Order) (a : String) (o : Order) : Type 0 where
    pub sibling : Order
    pub found : get o.sibling_id m ≡ some sibling
    pub back : sibling.sibling_id ≡ a
    pub apart : o.sibling_id ≢ a
    pub named : a ≢ ""
    pub one_cancels : OneCancels o.status sibling.status

  abbrev pub IsPaired : Dict Order → Type 0
  IsPaired m = (a : String) (o : Order) → get a m ≡ some o → o.sibling_id ≢ "" → Pair m a o

  -- A leg, and any other order that still waits for its entry.
  abbrev pub NeedsEntry : Order → Type 0
  NeedsEntry o = (o.status ≡ Status.pending) ⊎ (o.sibling_id ≢ "")

  -- The entry of every order that needs one is known and no leg itself, but for the entry `e`.
  pub record Entry (m : Dict Order) (id : String) : Type 0 where
    pub order : Order
    pub found : get id m ≡ some order
    pub no_leg : order.sibling_id ≡ ""

  abbrev pub HasEntriesBut : String → Dict Order → Type 0
  HasEntriesBut e m =
      (c : String) (o : Order)
      → get c m ≡ some o
      → NeedsEntry o
      → (o.entry_id ≡ e) ⊎ Entry m o.entry_id

  abbrev pub HasEntries : Dict Order → Type 0
  HasEntries m = (c : String) (o : Order) → get c m ≡ some o → NeedsEntry o → Entry m o.entry_id

  module _ (m : Dict Order) (o : Order) (t : Status) (g : get o.id m ≡ some o) where
    abbrev changed : Order
    changed = record o { status = t }

    own-Pair :
        (p : Pair m o.id o) → OneCancels t p.sibling.status → Pair (put o.id changed m) o.id changed
    own-Pair p ok = record {
      sibling = p.sibling;
      found = get-put_ne o.id o.sibling_id changed m (λ e. p.apart (sym e)) ∙ p.found;
      back = p.back;
      apart = p.apart;
      named = p.named;
      one_cancels = ok;
    }

    -- The leg `x` whose sibling is the order that changes.
    partner-Pair :
        (a : String) (x : Order)
        → x.sibling_id ≡ o.id
        → get a m ≡ some x
        → ((p : Pair m o.id o) → OneCancels t p.sibling.status)
        → IsPaired m
        → Pair m a x
        → Pair (put o.id changed m) a x
    partner-Pair a x e gx ok h q = record {
      sibling = changed;
      found = rw e (get-put_self o.id changed m);
      back = ap (λ (y : Order). y.sibling_id) same ∙ q.back;
      apart = q.apart;
      named = q.named;
      one_cancels =
          OneCancels-sym t x.status (subst (λ (y : Order). OneCancels t y.status) mine (ok p));
    }
      where
        same : o ≡ q.sibling
        same = ground (arith, sym g ∙ ap (λ j. get j m) (sym e) ∙ q.found)

        link : o.sibling_id ≡ a
        link = ap (λ (y : Order). y.sibling_id) same ∙ q.back

        p : Pair m o.id o
        p = h o.id o g (λ b. q.named (sym link ∙ b))

        mine : p.sibling ≡ x
        mine = ground (arith, sym p.found ∙ ap (λ j. get j m) link ∙ gx)

    -- A change of the status alone, which the pair allows.
    pub put-IsPaired :
        ((p : Pair m o.id o) → OneCancels t p.sibling.status)
        → IsPaired m
        → IsPaired (put o.id changed m)
    put-IsPaired ok h a x gx nx = elim (str_eq-cases o.id a) [
      | inl (c, e) ↦
          let same : changed ≡ x = ground (arith, get-put o.id a changed m, gx) in
          let p = h o.id o g (λ b. nx (ap (λ (y : Order). y.sibling_id) (sym same) ∙ b)) in
          subst (λ (y : Order). Pair (put o.id changed m) a y) same
            (subst (λ b. Pair (put o.id changed m) b changed) e (own-Pair p (ok p)))
      | inr (c, ne) ↦
          let gx' : get a m ≡ some x = sym (get-put_ne o.id a changed m ne) ∙ gx in
          let q = h a x gx' nx in
          elim (str_eq-cases x.sibling_id o.id) [
            | inl (_, e) ↦ partner-Pair a x e gx' ok h q
            | inr (_, d) ↦ record {
              sibling = q.sibling;
              found = get-put_ne o.id x.sibling_id changed m (λ u. d (sym u)) ∙ q.found;
              back = q.back;
              apart = q.apart;
              named = q.named;
              one_cancels = q.one_cancels;
            }
          ]
    ]

    -- A known order stays the entry that it was.
    Entry-put : (id : String) → Entry m id → Entry (put o.id changed m) id
    Entry-put id y = elim (str_eq-cases o.id id) [
      | inl (_, e) ↦
          let same : o ≡ y.order = ground (arith, sym g ∙ ap (λ j. get j m) e ∙ y.found) in
          record {
            order = changed;
            found =
                subst (λ j. get j (put o.id changed m) ≡ some changed) e
                  (get-put_self o.id changed m);
            no_leg = ap (λ (z : Order). z.sibling_id) same ∙ y.no_leg;
          }
      | inr (_, d) ↦ record {
        order = y.order;
        found = get-put_ne o.id id changed m d ∙ y.found;
        no_leg = y.no_leg;
      }
    ]

    -- None becomes pending, and no leg loses its entry.
    pub put-HasEntries : t ≢ Status.pending → HasEntries m → HasEntries (put o.id changed m)
    put-HasEntries np h c x gx px = elim (str_eq-cases o.id c) [
      | inl (b, e) ↦
          let same : changed ≡ x = ground (arith, get-put o.id c changed m, gx) in
          let needs : NeedsEntry o = elim px [
            | inl p ↦ absurd (np (ap (λ (z : Order). z.status) same ∙ p))
            | inr l ↦ inr (λ u. l (ap (λ (z : Order). z.sibling_id) (sym same) ∙ u))
          ] in
          subst (λ (z : Order). Entry (put o.id changed m) z.entry_id) same
            (Entry-put o.entry_id (h o.id o g needs))
      | inr (b, ne) ↦ Entry-put x.entry_id (h c x (sym (get-put_ne o.id c changed m ne) ∙ gx) px)
    ]

  module _ (m : Dict Order) (o : Order) (new : get o.id m ≡ none) (plain : o.sibling_id ≡ "") where
    -- An order that is no leg joins the map.
    pub join-IsPaired : IsPaired m → IsPaired (put o.id o m)
    join-IsPaired h a x gx nx = elim (str_eq-cases o.id a) [
      | inl (c, e) ↦ absurd (nx (ground (arith, get-put o.id a o m, gx)))
      | inr (c, ne) ↦
          let q = h a x (sym (get-put_ne o.id a o m ne) ∙ gx) nx in
          let old : o.id ≢ x.sibling_id =
            λ e. ground (arith, sym new ∙ ap (λ j. get j m) e ∙ q.found) in
          record {
            sibling = q.sibling;
            found = get-put_ne o.id x.sibling_id o m old ∙ q.found;
            back = q.back;
            apart = q.apart;
            named = q.named;
            one_cancels = q.one_cancels;
          }
    ]

    -- It may be the entry that its children were waiting for.
    pub join-HasEntries :
        o.status ≢ Status.pending → HasEntriesBut o.id m → HasEntries (put o.id o m)
    join-HasEntries np h c x gx px = elim (str_eq-cases o.id c) [
      | inl (b, e) ↦
          let same : o ≡ x = ground (arith, get-put o.id c o m, gx) in
          elim px [
            | inl p ↦ absurd (np (ap (λ (z : Order). z.status) same ∙ p))
            | inr l ↦ absurd (l (ap (λ (z : Order). z.sibling_id) (sym same) ∙ plain))
          ]
      | inr (b, ne) ↦ elim (h c x (sym (get-put_ne o.id c o m ne) ∙ gx) px) [
        | inl e ↦ record { order = o; found = rw e (get-put_self o.id o m); no_leg = plain }
        | inr y ↦
            let old : o.id ≢ x.entry_id =
              λ e. ground (arith, sym new ∙ ap (λ j. get j m) e ∙ y.found) in
            record {
              order = y.order;
              found = get-put_ne o.id x.entry_id o m old ∙ y.found;
              no_leg = y.no_leg;
            }
      ]
    ]
