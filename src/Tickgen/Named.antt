-- ===== src/Tickgen/Named.antt =====
-- The instruments of tickgen/main.go have names, and so have the events of its stream.
use text.Mathlib.TextLemmas.{append-ne-nil_of_right_ne-nil}
use optionx_assignment.Common.{
  ℕ, zero, suc, ◌+◌, ◌*◌, ◌<◌, false, String, List, [], ◌∷◌, ◌++◌, length, set, concat, ◌≡◌, ◌≢◌,
  refl, arith, ◌==◌, str_eq_iff, ℤ,
}
use optionx_assignment.Float.{Float64}
use optionx_assignment.Tickgen.{
  Libraries, Instrument, Underlying, underlyings, Walk, at_or, no_instrument, start_walk,
  walk_round, build_instruments, build_all, build_strikes, build_one, Event,
}
use optionx_assignment.Tickgen.Replay.{trace}
use optionx_assignment.Tickgen.Sequence.{IsFilled, walk_round-IsFilled, start_walk-IsFilled}

concat-ne : (a b : String) → b ≢ "" → concat a b ≢ ""
concat-ne a b h = append-ne-nil_of_right_ne-nil a h

module _ ⦃fl : Float64⦄ where
  abbrev AreNamed : List Instrument → Type 0
  AreNamed [] = Unit
  AreNamed (x ∷ xs) = (x.token ≢ "") × AreNamed xs

  abbrev pub AllEvents : (Event → Type 0) → List Event → Type 0
  AllEvents P [] = Unit
  AllEvents P (e ∷ es) = P e × AllEvents P es

  abbrev pub IsNamedEvent : Event → Type 0
  IsNamedEvent e = e.token ≢ ""

  abbrev pub AreNamedEvents : List Event → Type 0
  AreNamedEvents = AllEvents IsNamedEvent

  append-AreNamed : (xs ys : List Instrument) → AreNamed xs → AreNamed ys → AreNamed (xs ++ ys)
  append-AreNamed [] ys h g = g
  append-AreNamed (x ∷ xs) ys (h, t) g = (h, append-AreNamed xs ys t g)

  set-AreNamed :
      (xs : List Instrument) (i : ℕ) (x : Instrument)
      → AreNamed xs
      → x.token ≢ ""
      → AreNamed (set xs i x)
  set-AreNamed [] i x h n = tt
  set-AreNamed (y ∷ ys) zero x (h, t) n = (n, t)
  set-AreNamed (y ∷ ys) (suc i) x (h, t) n = (h, set-AreNamed ys i x t n)

  module _ (lib : Libraries) where
    at_or-named :
        (xs : List Instrument) (i : ℕ)
        → AreNamed xs
        → i < length xs
        → (at_or lib (no_instrument lib) xs i).token ≢ ""
    at_or-named [] i h l = absurd (omega arith)
    at_or-named (x ∷ xs) zero (h, t) l = h
    at_or-named (x ∷ xs) (suc i) (h, t) l = at_or-named xs i t (omega arith)

    build_strikes-AreNamed :
        (u : Underlying) (i n : ℕ) (r : lib.Rand) → AreNamed (build_strikes lib u i n r).0
    unfolding build_strikes build_one ◌==◌
    build_strikes-AreNamed u i zero r = tt
    build_strikes-AreNamed u i (suc n) r = (
      concat-ne u.name _ (concat-ne (lib.show_int (u.strike + i * u.step)) "CE" ce),
      (
        concat-ne u.name _ (concat-ne (lib.show_int (u.strike + i * u.step)) "PE" pe),
        build_strikes-AreNamed u (i + 1) n _,
      ),
    )
      where
        side : (s : String) → (s == "") ≡ false → s ≢ ""
        side s e h = cc (e, (str_eq_iff s "").1 h)

        ce : ◌≢◌ {A = String} "CE" ""
        ce = side "CE" refl

        pe : ◌≢◌ {A = String} "PE" ""
        pe = side "PE" refl

    build_all-AreNamed : (us : List Underlying) (r : lib.Rand) → AreNamed (build_all lib us r).0
    unfolding build_all
    build_all-AreNamed [] r = tt
    build_all-AreNamed (u ∷ us) r =
        let (some_of, r₁) = build_strikes lib u 0 5 r in
        append-AreNamed some_of (build_all lib us r₁).0 (build_strikes-AreNamed u 0 5 r)
          (build_all-AreNamed us r₁)

    -- A walk over instruments with names.
    record IsNamedWalk (w : Walk lib) : Type 0 where
      filled : IsFilled lib w
      named : AreNamed w.instruments

    walk_round-named : (w : Walk lib) → IsNamedWalk w → (walk_round lib w).event.token ≢ ""
    unfolding walk_round
    walk_round-named w h =
        at_or-named w.instruments (lib.intn (length w.instruments) w.rng).0 h.named
          (lib.intn_lt (length w.instruments) w.rng h.filled.some_instrument)

    walk_round-AreNamed :
        (w : Walk lib) → IsNamedWalk w → AreNamed (walk_round lib w).walk.instruments
    unfolding walk_round
    walk_round-AreNamed w h =
        set-AreNamed w.instruments (walk_round lib w).index _ h.named (walk_round-named w h)

    trace-AreNamedEvents : (n : ℕ) (w : Walk lib) → IsNamedWalk w → AreNamedEvents (trace lib n w)
    unfolding trace
    trace-AreNamedEvents zero w h = tt
    trace-AreNamedEvents (suc n) w h = (
      walk_round-named w h,
      trace-AreNamedEvents n (walk_round lib w).walk
          (record { filled = walk_round-IsFilled lib w h.filled; named = walk_round-AreNamed w h }),
    )

    start_walk-AreNamed : (seed : ℤ) → AreNamed (start_walk lib seed).instruments
    unfolding start_walk build_instruments
    start_walk-AreNamed seed = build_all-AreNamed underlyings (lib.seeded seed)

    pub stream-AreNamedEvents :
        (n : ℕ) (seed : ℤ) → AreNamedEvents (trace lib n (start_walk lib seed))
    stream-AreNamedEvents n seed =
        trace-AreNamedEvents n (start_walk lib seed)
          (record { filled = start_walk-IsFilled lib seed; named = start_walk-AreNamed seed })
