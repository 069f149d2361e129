-- ===== src/Actor/NewPair.antt =====
-- The legs of a bracket (internal/instrument/bracket.go) join the orders map as a pair.
use optionx_assignment.Common.{
  String, Dict, none, some, get, put, get-put_ne, get-put_self, ◌≡◌, ◌≢◌, sym, ◌∙◌, ap, inl, inr,
  arith, str_eq-cases, subst,
}
use optionx_assignment.Float.{Float64}
use optionx_assignment.Order.{Status, Order}
use optionx_assignment.Actor.Paired.{Pair, IsPaired, HasEntries, HasEntriesBut}

module _ ⦃fl : Float64⦄ where
  -- Two linked orders, both pending, join the map as a pair.
  module _ (m : Dict Order) (a b : Order) (apart : a.id ≢ b.id) (a_named : a.id ≢ "")
      (b_named : b.id ≢ "") (a_new : get a.id m ≡ none) (b_new : get b.id m ≡ none)
      (a_links : a.sibling_id ≡ b.id) (b_links : b.sibling_id ≡ a.id)
      (a_pends : a.status ≡ Status.pending) (b_pends : b.status ≡ Status.pending) where
    abbrev both : Dict Order
    both = put b.id b (put a.id a m)

    get-both_old : (j : String) → a.id ≢ j → b.id ≢ j → get j both ≡ get j m
    get-both_old j p q = get-put_ne b.id j b (put a.id a m) q ∙ get-put_ne a.id j a m p

    get-both_a : get a.id both ≡ some a
    get-both_a = get-put_ne b.id a.id b (put a.id a m) (λ e. apart (sym e)) ∙ get-put_self a.id a m

    get-both_b : get b.id both ≡ some b
    get-both_b = get-put_self b.id b (put a.id a m)

    old_key : (j : String) (x : Order) → get j m ≡ some x → get j both ≡ some x
    old_key j x g =
        get-both_old j (λ e. ground (arith, sym a_new ∙ ap (λ i. get i m) e ∙ g))
          (λ e. ground (arith, sym b_new ∙ ap (λ i. get i m) e ∙ g))
        ∙ g

    Pair-a : Pair both a.id a
    Pair-a = record {
      sibling = b;
      found = ap (λ j. get j both) a_links ∙ get-both_b;
      back = b_links;
      apart = λ e. apart (sym e ∙ a_links);
      named = a_named;
      one_cancels = rw (a_pends, b_pends) tt;
    }

    Pair-b : Pair both b.id b
    Pair-b = record {
      sibling = a;
      found = ap (λ j. get j both) b_links ∙ get-both_a;
      back = a_links;
      apart = λ e. apart (sym b_links ∙ e);
      named = b_named;
      one_cancels = rw (a_pends, b_pends) tt;
    }

    pub both-IsPaired : IsPaired m → IsPaired both
    both-IsPaired h j x gx nx = elim (str_eq-cases b.id j) [
      | inl (_, e) ↦
          let same : b ≡ x = ground (arith, sym get-both_b ∙ ap (λ i. get i both) e ∙ gx) in
          subst (λ y. Pair both j y) same (subst (λ i. Pair both i b) e Pair-b)
      | inr (_, nb) ↦ elim (str_eq-cases a.id j) [
        | inl (_, e) ↦
            let same : a ≡ x = ground (arith, sym get-both_a ∙ ap (λ i. get i both) e ∙ gx) in
            subst (λ y. Pair both j y) same (subst (λ i. Pair both i a) e Pair-a)
        | inr (_, na) ↦
            let q = h j x (sym (get-both_old j na nb) ∙ gx) nx in
            record {
              sibling = q.sibling;
              found = old_key x.sibling_id q.sibling q.found;
              back = q.back;
              apart = q.apart;
              named = q.named;
              one_cancels = q.one_cancels;
            }
      ]
    ]

    pub both-HasEntriesBut :
        (e : String) → a.entry_id ≡ e → b.entry_id ≡ e → HasEntries m → HasEntriesBut e both
    both-HasEntriesBut e ea eb h c x gx px = elim (str_eq-cases b.id c) [
      | inl (_, u) ↦
          let same : b ≡ x = ground (arith, sym get-both_b ∙ ap (λ i. get i both) u ∙ gx) in
          inl (ap (λ (y : Order). y.entry_id) (sym same) ∙ eb)
      | inr (_, nb) ↦ elim (str_eq-cases a.id c) [
        | inl (_, u) ↦
            let same : a ≡ x = ground (arith, sym get-both_a ∙ ap (λ i. get i both) u ∙ gx) in
            inl (ap (λ (y : Order). y.entry_id) (sym same) ∙ ea)
        | inr (_, na) ↦
            let y = h c x (sym (get-both_old c na nb) ∙ gx) px in
            inr (record {
              order = y.order;
              found = old_key x.entry_id y.order y.found;
              no_leg = y.no_leg;
            })
      ]
    ]
