-- ===== src/Storage/Seeds.antt =====
-- What LoadAllInstrumentState of internal/storage/order_store.go reads for one token, and the orders
-- that restore makes of it.
use optionx_assignment.Common.{
  String, [], ◌∷◌, ◌++◌, Option, none, some, Dict, get, put, get-put, get-put_self, get-put_ne,
  IsUnique, get-no_key, ◌≡◌, refl, sym, ◌∙◌, ap, inl, inr, arith, ◌==◌, str_eq_iff, str_eq_refl,
  str_eq-cases, if◌then◌else◌,
}
use mathlib.Core.List.{append_assoc, append-nil}
use optionx_assignment.Float.{Float64}
use optionx_assignment.Order.{Order}
use optionx_assignment.Ledger.{Position}
use optionx_assignment.Actor.Messages.{InitialState}
use optionx_assignment.Actor.State.{put_orders}
use optionx_assignment.Registry.{seed_at}
use optionx_assignment.Storage.{OrderRow, to_order, seed_positions, seed_orders, orders_for_token}
use optionx_assignment.Storage.Positions.{ArePlaced}

module _ ⦃fl : Float64⦄ where
  seed_at-put :
      (token k : String) (st : InitialState) (out : Dict InitialState)
      → seed_at token (put k st out) ≡ (if k == token then st else seed_at token out)
  seed_at-put token k st out = ground (arith, get-put k token st out)

  -- The loop over the orders leaves the positions, and appends the token's orders.
  pub seed_at-seed_orders :
      (token : String) (rows : Dict OrderRow) (out : Dict InitialState)
      → ((seed_at token (seed_orders rows out)).position ≡ (seed_at token out).position)
        × ((seed_at token (seed_orders rows out)).orders
            ≡ (seed_at token out).orders ++ orders_for_token token rows)
  unfolding seed_orders orders_for_token
  seed_at-seed_orders token [] out = (refl, sym (append-nil (seed_at token out).orders))
  seed_at-seed_orders token ((id, r) ∷ rows) out =
      let A = (seed_at r.token out).orders in
      let st : InitialState = record (seed_at r.token out) { orders = A ++ to_order r ∷ [] } in
      let ih = seed_at-seed_orders token rows (put r.token st out) in
      let rest = orders_for_token token rows in
      elim (str_eq-cases r.token token) [
        | inl (h, e) ↦
            let here : seed_at token (put r.token st out) ≡ st =
              seed_at-put token r.token st out ∙ ap (λ b. if b then st else seed_at token out) h in
            rw h (
              ih.0 ∙ ap (λ x. x.position) here ∙ ap (λ k. (seed_at k out).position) e,
              ih.1
                  ∙ ap (λ x. x.orders ++ rest) here
                  ∙ append_assoc A (to_order r ∷ []) rest
                  ∙ ap (λ k. (seed_at k out).orders ++ to_order r ∷ rest) e,
            )
        | inr (h, ne) ↦
            let other : seed_at token (put r.token st out) ≡ seed_at token out =
              seed_at-put token r.token st out ∙ ap (λ b. if b then st else seed_at token out) h in
            rw h (ih.0 ∙ ap (λ x. x.position) other, ih.1 ∙ ap (λ x. x.orders ++ rest) other)
      ]

  -- The state that a row of the positions table gives an instrument.
  abbrev pub with_row : InitialState → Option Position → InitialState
  with_row st none = st
  with_row st (some p) = record st { position = p }

  tail-ArePlaced :
      (k : String) (p : Position) (rows : Dict Position)
      → IsUnique ((k, p) ∷ rows)
      → ArePlaced ((k, p) ∷ rows)
      → ArePlaced rows
  unfolding get
  tail-ArePlaced k p rows (n, u) h j q g = elim (str_eq-cases k j) [
    | inl (c, e) ↦ cc (g, get-no_key k rows n, e)
    | inr (c, ne) ↦ h j q (rw c g)
  ]

  -- The loop over the positions finds the token's row.
  pub seed_at-seed_positions :
      (token : String) (rows : Dict Position) (out : Dict InitialState)
      → IsUnique rows
      → ArePlaced rows
      → seed_at token (seed_positions rows out) ≡ with_row (seed_at token out) (get token rows)
  unfolding seed_positions get
  seed_at-seed_positions token [] out u h = refl
  seed_at-seed_positions token ((k, p) ∷ rows) out u h =
      let st : InitialState = record (seed_at p.token out) { position = p } in
      let placed : p.token ≡ k = h k p (rw (str_eq_refl k) refl) in
      let ih =
        seed_at-seed_positions token rows (put p.token st out) u.1 (tail-ArePlaced k p rows u h) in
      elim (str_eq-cases k token) [
        | inl (c, e) ↦ rw c (
            ih
            ∙ ap (with_row (seed_at token (put p.token st out)))
                (ap (λ j. get j rows) (sym e) ∙ get-no_key k rows u.0)
            ∙ seed_at-put token p.token st out
            ∙ ap (λ b. if b then st else seed_at token out)
                ((str_eq_iff p.token token).1 (placed ∙ e))
            ∙ ap (λ j. with_row (seed_at j out) (some p)) (placed ∙ e))
        | inr (c, ne) ↦ rw c (
            ih
            ∙ ap (λ x. with_row x (get token rows))
                (seed_at-put token p.token st out
                  ∙ ap (λ b. if b then st else seed_at token out)
                      (ap (λ j. j == token) placed ∙ c)))
      ]

  -- What the rows of one instrument are.
  abbrev pub AreRowsOf : String → Dict OrderRow → Type 0
  AreRowsOf token rows =
      (k : String) (r : OrderRow) → get k rows ≡ some r → (r.id ≡ k) × (r.token ≡ token)

  abbrev pub read_row : Option OrderRow → Option Order → Option Order
  read_row none old = old
  read_row (some r) old = some (to_order r)

  tail-AreRowsOf :
      (token k : String) (r : OrderRow) (rows : Dict OrderRow)
      → IsUnique ((k, r) ∷ rows)
      → AreRowsOf token ((k, r) ∷ rows)
      → AreRowsOf token rows
  unfolding get
  tail-AreRowsOf token k r rows (n, u) h j q g = elim (str_eq-cases k j) [
    | inl (c, e) ↦ absurd (cc (g, get-no_key k rows n, e))
    | inr (c, ne) ↦ h j q (rw c g)
  ]

  pub get-put_orders :
      (token id : String) (rows : Dict OrderRow) (m : Dict Order)
      → IsUnique rows
      → AreRowsOf token rows
      → get id (put_orders (orders_for_token token rows) m) ≡ read_row (get id rows) (get id m)
  unfolding get orders_for_token put_orders to_order
  get-put_orders token id [] m u h = refl
  get-put_orders token id ((k, r) ∷ rows) m u h =
      let (key, own) = h k r (rw (str_eq_refl k) refl) in
      let ih =
        get-put_orders token id rows (put r.id (to_order r) m) u.1
          (tail-AreRowsOf token k r rows u h) in
      rw ((str_eq_iff r.token token).1 own) (
        ih ∙ elim (str_eq-cases k id) [
          | inl (c, e) ↦ rw c (
              ap (λ o. read_row o (get id (put r.id (to_order r) m)))
                (ap (λ j. get j rows) (sym e) ∙ get-no_key k rows u.0)
              ∙ ap (λ j. get j (put r.id (to_order r) m)) (sym (key ∙ e))
              ∙ get-put_self r.id (to_order r) m)
          | inr (c, ne) ↦ rw c (
              ap (read_row (get id rows))
                (get-put_ne r.id id (to_order r) m (λ z. ne (sym key ∙ z))))
        ])
  -- What the tables and the actor are to each other.
