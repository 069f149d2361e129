-- ===== src/Tickgen/Sequence.antt =====
-- The sequence numbers of the stream of tickgen, instrument by instrument.
use optionx_assignment.Common.{
  ℕ, zero, suc, ◌+◌, ◌<◌, half64, eqb, List, [], ◌∷◌, length, set, ℤ, pos, add64, add64_next, ◌≡◌,
  refl, sym, ◌∙◌, ap, arith, if◌then◌else◌, Bool-cases, inl, inr, subst,
}
use optionx_assignment.Float.{Float64}
use optionx_assignment.Tickgen.{
  Libraries, Instrument, Walk, zeros, at_or, start_walk, walk_round, build_instruments, build_all,
  build_strikes, build_one,
}

module _ ⦃fl : Float64⦄ where
  length-set {ℓ} : {A : Type ℓ} (xs : List A) (i : ℕ) (v : A) → length (set xs i v) ≡ length xs
  length-set [] i v = refl
  length-set (x ∷ xs) zero v = refl
  length-set (x ∷ xs) (suc i) v = omega (arith, length-set xs i v)

  module _ (lib : Libraries) where
    at_or-set :
        (xs : List ℤ) (i j : ℕ) (v : ℤ)
        → i < length xs
        → at_or lib (pos 0) (set xs i v) j ≡ (if eqb i j then v else at_or lib (pos 0) xs j)
    at_or-set [] i j v h = absurd (omega arith)
    at_or-set (x ∷ xs) zero zero v h = refl
    at_or-set (x ∷ xs) zero (suc j) v h = ground arith
    at_or-set (x ∷ xs) (suc i) zero v h = ground arith
    at_or-set (x ∷ xs) (suc i) (suc j) v h = ground (arith, at_or-set xs i j v (omega arith))

    -- As many numbers as instruments, and at least one instrument.
    pub record IsFilled (w : Walk lib) : Type 0 where
      pub some_instrument : 0 < length w.instruments
      pub same_length : length w.seqs ≡ length w.instruments

    pub walk_round-IsFilled : (w : Walk lib) → IsFilled w → IsFilled (walk_round lib w).walk
    unfolding walk_round
    walk_round-IsFilled w h = record {
      some_instrument = omega (arith, h.some_instrument, length-set {0} w.instruments);
      same_length =
          omega (arith, h.same_length, length-set {0} w.instruments, length-set {0} w.seqs);
    }

    index-lt : (w : Walk lib) → IsFilled w → (walk_round lib w).index < length w.seqs
    unfolding walk_round
    index-lt w f =
        subst (λ m. (lib.intn (length w.instruments) w.rng).0 < m) (sym f.same_length)
          (lib.intn_lt (length w.instruments) w.rng f.some_instrument)

    seq-walk_round :
        (w : Walk lib)
        → (walk_round lib w).event.seq
          ≡ add64 (at_or lib (pos 0) w.seqs (walk_round lib w).index) (pos 1)
    unfolding walk_round
    seq-walk_round w = refl

    seqs-walk_round :
        (w : Walk lib) (i : ℕ)
        → IsFilled w
        → at_or lib (pos 0) (walk_round lib w).walk.seqs i ≡ (
            if eqb (walk_round lib w).index i
            then (walk_round lib w).event.seq
            else at_or lib (pos 0) w.seqs i)
    unfolding walk_round
    seqs-walk_round w i f =
        at_or-set w.seqs (walk_round lib w).index i (walk_round lib w).event.seq (index-lt w f)

    -- The numbers that so many rounds give to the instrument at an index, in order.
    unfoldable pub seqs_at : ℕ → ℕ → Walk lib → List ℤ
    seqs_at i zero w = []
    seqs_at i (suc n) w =
        let r = walk_round lib w in
        let rest = seqs_at i n r.walk in if eqb r.index i then r.event.seq ∷ rest else rest

    -- s + 1, s + 2, and so on.
    abbrev pub count_up : ℕ → ℕ → List ℤ
    count_up s zero = []
    count_up s (suc n) = pos (suc s) ∷ count_up (suc s) n

    seqs_at-count_up :
        (i n s : ℕ) (w : Walk lib)
        → IsFilled w
        → at_or lib (pos 0) w.seqs i ≡ pos s
        → s + n < half64
        → seqs_at i n w ≡ count_up s (length (seqs_at i n w))
    unfolding seqs_at
    seqs_at-count_up i zero s w f a h = refl
    seqs_at-count_up i (suc n) s w f a h =
        let r = walk_round lib w in
        let f' = walk_round-IsFilled w f in
        elim (Bool-cases (eqb r.index i)) [
          | inl c ↦
              let same : r.index ≡ i = ground arith in
              let seq : r.event.seq ≡ pos (suc s) =
                seq-walk_round w
                ∙ ap (λ k. add64 (at_or lib (pos 0) w.seqs k) (pos 1)) same
                ∙ ap (λ x. add64 x (pos 1)) a
                ∙ add64_next s (omega arith) in
              let a' : at_or lib (pos 0) r.walk.seqs i ≡ pos (suc s) =
                seqs-walk_round w i f
                ∙ ap (λ b. if b then r.event.seq else at_or lib (pos 0) w.seqs i) c
                ∙ seq in
              rw c (
                ap (λ x. x ∷ seqs_at i n r.walk) seq
                ∙ ap (λ xs. pos (suc s) ∷ xs)
                    (seqs_at-count_up i n (suc s) r.walk f' a' (omega arith)))
          | inr c ↦ rw c (
              seqs_at-count_up i n s r.walk f'
                (seqs-walk_round w i f
                  ∙ ap (λ b. if b then r.event.seq else at_or lib (pos 0) w.seqs i) c
                  ∙ a)
                (omega arith))
        ]

    pub start_walk-IsFilled : (seed : ℤ) → IsFilled (start_walk lib seed)
    unfolding start_walk build_instruments build_all build_strikes build_one
    start_walk-IsFilled seed = record { some_instrument = omega arith; same_length = refl }

    zeros-at : (xs : List Instrument) (i : ℕ) → at_or lib (pos 0) (zeros lib xs) i ≡ pos 0
    zeros-at [] i = refl
    zeros-at (x ∷ xs) zero = refl
    zeros-at (x ∷ xs) (suc i) = zeros-at xs i

    start_walk-at : (seed : ℤ) (i : ℕ) → at_or lib (pos 0) (start_walk lib seed).seqs i ≡ pos 0
    unfolding start_walk
    start_walk-at seed i = zeros-at (build_instruments lib (lib.seeded seed)).0 i

    -- In the first n rounds of a stream, fewer than 2^63, the instrument at any index gets the sequence
    -- numbers 1, 2, 3 and so on, in this order and with none left out.
    pub seqs_at_lem :
        (i n : ℕ) (seed : ℤ)
        → n < half64
        → seqs_at i n (start_walk lib seed)
          ≡ count_up 0 (length (seqs_at i n (start_walk lib seed)))
    seqs_at_lem i n seed h =
        seqs_at-count_up i n 0 (start_walk lib seed) (start_walk-IsFilled seed)
          (start_walk-at seed i) (omega arith)
