-- ===== src/Ledger/Exact.antt =====
-- An arithmetic without rounding, as laws, and what follows from them. float64 does not have them; the
-- whole numbers of Ledger/Whole do, and it is for those that they are used.
use optionx_assignment.Common.{ℤ, pos, ◌+ℤ◌, ◌≡◌, sym, ◌∙◌, ap}
use optionx_assignment.Float.{Float64, Price}

module _ ⦃fl : Float64⦄ where
  abbrev pub zero : Price
  zero = fl.of_int (pos 0)

  pub record ExactLaws : Type 0 where
    pub add_assoc : (a b c : Price) → fl.add (fl.add a b) c ≡ fl.add a (fl.add b c)
    pub add_comm : (a b : Price) → fl.add a b ≡ fl.add b a
    pub add-zero : (a : Price) → fl.add a zero ≡ a
    pub sub-add : (a b : Price) → fl.add (fl.sub a b) b ≡ a
    pub add-sub : (a b : Price) → fl.sub (fl.add a b) b ≡ a
    pub mul-sub : (a b c : Price) → fl.mul a (fl.sub b c) ≡ fl.sub (fl.mul a b) (fl.mul a c)
    pub mul-add : (a b c : Price) → fl.mul (fl.add a b) c ≡ fl.add (fl.mul a c) (fl.mul b c)
    pub of_int-add : (m n : ℤ) → fl.of_int (m +ℤ n) ≡ fl.add (fl.of_int m) (fl.of_int n)

  module _ (laws : ExactLaws) where
    open laws use {add_assoc, add_comm, add-zero, mul-sub, mul-add, of_int-add}

    add_cancel : (a b c : Price) → fl.add a c ≡ fl.add b c → a ≡ b
    add_cancel a b c h = sym (laws.add-sub a c) ∙ ap (λ s. fl.sub s c) h ∙ laws.add-sub b c

    pub zero-add : (a : Price) → fl.add zero a ≡ a
    zero-add a = add_comm zero a ∙ add-zero a

    pub add_interchange :
        (a b c d : Price) → fl.add (fl.add a b) (fl.add c d) ≡ fl.add (fl.add a c) (fl.add b d)
    add_interchange a b c d =
        add_assoc a b (fl.add c d)
        ∙ ap (fl.add a)
            (sym (add_assoc b c d) ∙ ap (λ s. fl.add s d) (add_comm b c) ∙ add_assoc c b d)
        ∙ sym (add_assoc a c (fl.add b d))

    sub_add_add :
        (a b c d : Price) → fl.sub (fl.add a b) (fl.add c d) ≡ fl.add (fl.sub a c) (fl.sub b d)
    sub_add_add a b c d = add_cancel _ _ (fl.add c d) (
        laws.sub-add (fl.add a b) (fl.add c d)
        ∙ sym (
            add_interchange (fl.sub a c) (fl.sub b d) c d
            ∙ ap (λ s. fl.add s (fl.add (fl.sub b d) d)) (laws.sub-add a c)
            ∙ ap (fl.add a) (laws.sub-add b d)))

    sub_self : (a : Price) → fl.sub a a ≡ zero
    sub_self a = add_cancel _ _ a (laws.sub-add a a ∙ sym (zero-add a))

    sub-telescope : (a b c : Price) → fl.add (fl.sub a b) (fl.sub b c) ≡ fl.sub a c
    sub-telescope a b c = add_cancel _ _ c (
        add_assoc (fl.sub a b) (fl.sub b c) c
        ∙ ap (fl.add (fl.sub a b)) (laws.sub-add b c)
        ∙ laws.sub-add a b
        ∙ sym (laws.sub-add a c))

    -- From one price to the next, and from there to a third.
    pub mul-telescope :
        (q x y z : Price)
        → fl.add (fl.mul q (fl.sub x y)) (fl.mul q (fl.sub y z)) ≡ fl.mul q (fl.sub x z)
    mul-telescope q x y z =
        ap (λ s. fl.add s (fl.mul q (fl.sub y z))) (mul-sub q x y)
        ∙ ap (fl.add (fl.sub (fl.mul q x) (fl.mul q y))) (mul-sub q y z)
        ∙ sub-telescope (fl.mul q x) (fl.mul q y) (fl.mul q z)
        ∙ sym (mul-sub q x z)

    pub zero-mul : (a : Price) → fl.mul zero a ≡ zero
    zero-mul a = add_cancel _ _ (fl.mul zero a) (
        sym (mul-add zero zero a)
        ∙ ap (λ s. fl.mul s a) (add-zero zero)
        ∙ sym (zero-add (fl.mul zero a)))

    -- Quantities with opposite signs.
    pub opposite_mul :
        (m n : ℤ) (a : Price)
        → m +ℤ n ≡ pos 0
        → fl.add (fl.mul (fl.of_int m) a) (fl.mul (fl.of_int n) a) ≡ zero
    opposite_mul m n a h =
        sym (mul-add (fl.of_int m) (fl.of_int n) a)
        ∙ ap (λ s. fl.mul s a) (sym (of_int-add m n) ∙ ap fl.of_int h)
        ∙ zero-mul a

    pub split_mul :
        (m n : ℤ) (a : Price)
        → fl.mul (fl.of_int (m +ℤ n)) a ≡ fl.add (fl.mul (fl.of_int m) a) (fl.mul (fl.of_int n) a)
    split_mul m n a = ap (λ s. fl.mul s a) (of_int-add m n) ∙ mul-add (fl.of_int m) (fl.of_int n) a

    pub undo_add :
        (r u v w k : Price)
        → fl.add u k ≡ zero
        → fl.add (fl.add r u) (fl.add w (fl.add v k)) ≡ fl.add (fl.add r w) v
    undo_add r u v w k h =
        add_interchange r u w (fl.add v k)
        ∙ ap (fl.add (fl.add r w)) (
            ap (fl.add u) (add_comm v k)
            ∙ sym (add_assoc u k v)
            ∙ ap (λ s. fl.add s v) h
            ∙ zero-add v)

    pub add_past :
        (r u s v w : Price)
        → fl.add s u ≡ w
        → fl.add (fl.add r u) (fl.add s v) ≡ fl.add (fl.add r w) v
    add_past r u s v w h =
        sym (add_assoc (fl.add r u) s v)
        ∙ ap (λ a. fl.add a v) (add_assoc r u s ∙ ap (fl.add r) (add_comm u s ∙ h))

    pub add_aside :
        (r u w t v : Price)
        → fl.add t u ≡ v
        → fl.add (fl.add r u) (fl.add w t) ≡ fl.add (fl.add r w) v
    add_aside r u w t v h = add_interchange r u w t ∙ ap (fl.add (fl.add r w)) (add_comm u t ∙ h)

    pub add_last : (w k v : Price) → fl.add (fl.add w k) v ≡ fl.add w (fl.add v k)
    add_last w k v = add_assoc w k v ∙ ap (fl.add w) (add_comm k v)

    -- What holds of quantities holds of their opposites.
    pub mul_opposite :
        (m n t m' n' : ℤ) (a y z : Price)
        → m' +ℤ m ≡ pos 0
        → n' +ℤ n ≡ pos 0
        → (m' +ℤ n') +ℤ t ≡ pos 0
        → fl.mul (fl.of_int t) a ≡ fl.add (fl.mul (fl.of_int m) y) (fl.mul (fl.of_int n) z)
        → fl.mul (fl.of_int (m' +ℤ n')) a
          ≡ fl.add (fl.mul (fl.of_int m') y) (fl.mul (fl.of_int n') z)
    mul_opposite m n t m' n' a y z hm hn ht h =
        let my' = fl.mul (fl.of_int m') y in
        let nz' = fl.mul (fl.of_int n') z in
        add_cancel _ _ (fl.mul (fl.of_int t) a) (
          opposite_mul (m' +ℤ n') t a ht
          ∙ sym (
              ap (fl.add (fl.add my' nz')) h
              ∙ add_interchange my' nz' (fl.mul (fl.of_int m) y) (fl.mul (fl.of_int n) z)
              ∙ ap (λ s. fl.add s (fl.add nz' (fl.mul (fl.of_int n) z))) (opposite_mul m' m y hm)
              ∙ ap (fl.add zero) (opposite_mul n' n z hn)
              ∙ add-zero zero))

    -- The profit at a price `x` when the cost of both quantities is the cost of their sum.
    pub mul-sub_sum :
        (m n : ℤ) (x avg y z : Price)
        → fl.mul (fl.of_int (m +ℤ n)) avg ≡ fl.add (fl.mul (fl.of_int m) y) (fl.mul (fl.of_int n) z)
        → fl.mul (fl.of_int (m +ℤ n)) (fl.sub x avg)
          ≡ fl.add (fl.mul (fl.of_int m) (fl.sub x y)) (fl.mul (fl.of_int n) (fl.sub x z))
    mul-sub_sum m n x avg y z h =
        let q = fl.of_int m in
        let d = fl.of_int n in
        mul-sub (fl.of_int (m +ℤ n)) x avg
        ∙ ap (λ s. fl.sub s (fl.mul (fl.of_int (m +ℤ n)) avg)) (split_mul m n x)
        ∙ ap (fl.sub (fl.add (fl.mul q x) (fl.mul d x))) h
        ∙ sub_add_add (fl.mul q x) (fl.mul d x) (fl.mul q y) (fl.mul d z)
        ∙ ap (λ s. fl.add s (fl.sub (fl.mul d x) (fl.mul d z))) (sym (mul-sub q x y))
        ∙ ap (fl.add (fl.mul q (fl.sub x y))) (sym (mul-sub d x z))
