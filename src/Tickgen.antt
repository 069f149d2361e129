-- ===== src/Tickgen.antt =====
-- tickgen/main.go: the generator of the test feed. The pseudo-random generator, rounding and the
-- printing of numbers are the standard library's, so they are a parameter.
pub mod Replay
pub mod Sequence
pub mod Pace
pub mod Session
pub mod Served
pub mod Named
pub mod Received
use optionx_assignment.Common.{
  ℕ, zero, suc, ◌+◌, ◌-◌, ◌*◌, ◌<◌, Bool, true, false, String, List, [], ◌∷◌, ◌++◌, Option, none,
  some, ℤ, pos, le_ℤ, add64, eqb, concat, get_elem?, set, length, ◌≡◌, if◌then◌else◌,
}
use optionx_assignment.Float.{Float64, Price}

module _ ⦃fl : Float64⦄ where
  -- What is used of math/rand, math and fmt. `ratio a b` is the constant a/b. `intn_lt` is the
  -- documented range of Intn.
  pub record Libraries : Type 1 where
    pub Rand : Type 0
    pub seeded : ℤ → Rand
    pub float : Rand → Price × Rand
    pub intn : ℕ → Rand → ℕ × Rand
    pub intn_lt : (n : ℕ) (r : Rand) → 0 < n → (intn n r).0 < n
    pub round : Price → Price
    pub ratio : ℕ → ℕ → Price
    pub show_int : ℕ → String

  pub record Instrument : Type 0 where
    pub token : String
    pub price : Price

  pub record Underlying : Type 0 where
    pub name : String
    pub strike : ℕ
    pub step : ℕ
    pub base : ℕ

  pub record Event : Type 0 where
    pub seq : ℤ
    pub token : String
    pub ltp : Price

  abbrev pub underlyings : List Underlying
  underlyings =
      record { name = "NIFTY26AUG"; strike = 24500; step = 100; base = 180 }
      ∷ record { name = "BANKNIFTY26AUG"; strike = 55000; step = 500; base = 420 }
      ∷ []

  module _ (lib : Libraries) where
    open lib use {Rand, seeded, float, intn, round, ratio, show_int}

    abbrev pub tick_size : Price
    tick_size = ratio 5 100

    abbrev pub lt_price : Price → Price → Bool
    lt_price a b = if fl.le b a then false else fl.le a b

    unfoldable pub round_tick : Price → Price
    round_tick p =
        let q = fl.mul (round (fl.div p tick_size)) tick_size in
        let floored = if lt_price q tick_size then tick_size else q in
        fl.div (round (fl.mul floored (fl.of_int (pos 100)))) (fl.of_int (pos 100))

    -- One option: `u.base * (0.4 + 1.2*rng.Float64())`, rounded to a tick.
    unfoldable pub build_one : Underlying → ℕ → String → Rand → Instrument × Rand
    build_one u strike side r =
        let (x, r') = float r in
        let start =
          fl.mul (fl.of_int (pos u.base)) (fl.add (ratio 4 10) (fl.mul (ratio 12 10) x)) in
        (
          record {
            token = concat u.name (concat (show_int strike) side);
            price = round_tick start;
          },
          r',
        )

    unfoldable pub build_strikes : Underlying → ℕ → ℕ → Rand → List Instrument × Rand
    build_strikes u i zero r = ([], r)
    build_strikes u i (suc n) r =
        let strike = u.strike + i * u.step in
        let (call, r₁) = build_one u strike "CE" r in
        let (put, r₂) = build_one u strike "PE" r₁ in
        let (rest, r₃) = build_strikes u (i + 1) n r₂ in (call ∷ put ∷ rest, r₃)

    unfoldable pub build_all : List Underlying → Rand → List Instrument × Rand
    build_all [] r = ([], r)
    build_all (u ∷ us) r =
        let (some_of, r₁) = build_strikes u 0 5 r in
        let (rest, r₂) = build_all us r₁ in (some_of ++ rest, r₂)

    unfoldable pub build_instruments : Rand → List Instrument × Rand
    build_instruments r = build_all underlyings r

    -- The variables of stream: its generator, the instruments and their sequence numbers.
    pub record Walk : Type 0 where
      pub rng : Rand
      pub instruments : List Instrument
      pub seqs : List ℤ

    abbrev pub zeros : List Instrument → List ℤ
    zeros [] = []
    zeros (x ∷ xs) = pos 0 ∷ zeros xs

    unfoldable pub start_walk : ℤ → Walk
    start_walk seed =
        let (instruments, r) = build_instruments (seeded seed) in
        record { rng = r; instruments = instruments; seqs = zeros instruments }

    abbrev pub at_or {ℓ} : {A : Type ℓ} → A → List A → ℕ → A
    at_or d xs i = elim (get_elem? xs i) [ none ↦ d | some x ↦ x ]

    abbrev pub no_instrument : Instrument
    no_instrument = record { token = ""; price = fl.of_int (pos 0) }

    -- The move of one round: small, and in one case of fifty a jump.
    unfoldable pub draw_move : Rand → Price × Rand
    draw_move r =
        let (x, r₁) = float r in
        let (y, r₂) = float r₁ in
        let move =
          fl.mul (fl.mul (fl.mul (fl.sub x (ratio 5 10)) (fl.of_int (pos 2))) tick_size)
            (fl.of_int (pos 3)) in
        (if lt_price y (ratio 2 100) then fl.mul move (fl.of_int (pos 8)) else move, r₂)

    -- One round of the loop of stream: the index that it draws, the event, and the variables after.
    pub record Round : Type 0 where
      pub index : ℕ
      pub event : Event
      pub walk : Walk

    unfoldable pub walk_round : Walk → Round
    walk_round w =
        let (i, r₁) = intn (length w.instruments) w.rng in
        let (move, r₂) = draw_move r₁ in
        let ins = at_or no_instrument w.instruments i in
        let price = round_tick (fl.add ins.price move) in
        let seq = add64 (at_or (pos 0) w.seqs i) (pos 1) in
        record {
          index = i;
          event = record { seq = seq; token = ins.token; ltp = price };
          walk = record {
            rng = r₂;
            instruments = set w.instruments i (record ins { price = price });
            seqs = set w.seqs i seq;
          };
        }

    -- stream from the global index `idx` on, for so many rounds; it goes on for ever, until `emit` says
    -- no. The result is emit's state, and whether emit said no.
    unfoldable pub stream_rounds {ℓ} :
        {S : Type ℓ} → ℕ → ℤ → (ℤ → Event → S → S × Bool) → ℤ → Walk → S → S × Bool
    stream_rounds zero from emit idx w s = (s, false)
    stream_rounds (suc n) from emit idx w s =
        let round = walk_round w in
        let skipped = stream_rounds n from emit (add64 idx (pos 1)) round.walk s in
        let (s', more) = emit idx round.event s in
        let went_on = stream_rounds n from emit (add64 idx (pos 1)) round.walk s' in
        if le_ℤ from idx then (if more then went_on else (s', true)) else skipped

    unfoldable pub stream {ℓ} : {S : Type ℓ} → ℕ → ℤ → ℤ → (ℤ → Event → S → S × Bool) → S → S × Bool
    stream n seed from emit s = stream_rounds n from emit (pos 0) (start_walk seed) s

    -- The delays between ticks, in milliseconds.
    pub record Pacer : Type 0 where
      pub rng : Rand
      pub remaining : ℕ
      pub delay : ℕ

    -- The start of a phase: a burst, in three cases of ten, or a calm one.
    unfoldable pub new_phase : Rand → Pacer
    new_phase r =
        let (x, r₁) = float r in
        let (long, r₂) = intn 500 r₁ in
        let (short, r₃) = intn 90 r₁ in
        let (slow, r₄) = intn 30 r₃ in
        if lt_price x (ratio 3 10)
        then record { rng = r₂; remaining = 500 + long; delay = 2 }
        else record { rng = r₄; remaining = 60 + short; delay = 20 + slow }

    unfoldable pub pacer_next : Pacer → Pacer × ℕ
    unfolding new_phase
    pacer_next p =
        let q = if eqb p.remaining 0 then new_phase p.rng else p in
        (record q { remaining = q.remaining - 1 }, q.delay)
