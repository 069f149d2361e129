-- ===== src/Tickgen/Pace.antt =====
-- The pacer of tickgen: its delays and the length of its phases.
use optionx_assignment.Common.{◌+◌, ◌<◌, ◌≤◌, eqb, ◌≡◌, arith, Bool-cases, inl, inr, ◌⊎◌}
use optionx_assignment.Float.{Float64}
use optionx_assignment.Tickgen.{Libraries, Pacer, new_phase, pacer_next, lt_price}

module _ ⦃fl : Float64⦄ (lib : Libraries) where
  -- A phase of at most 1000 ticks, each 2 to 49 milliseconds apart; or none yet.
  pub record IsPaced (p : Pacer lib) : Type 0 where
    pub short : p.remaining < 1000
    pub timed : (p.remaining ≡ 0) ⊎ (2 ≤ p.delay) × (p.delay < 50)

  pub record IsPhase (p : Pacer lib) : Type 0 where
    pub some_left : 0 < p.remaining
    pub length : p.remaining < 1000
    pub slow : 2 ≤ p.delay
    pub fast : p.delay < 50

  new_phase-IsPhase : (r : lib.Rand) → IsPhase (new_phase lib r)
  unfolding new_phase
  new_phase-IsPhase r =
      let a = lib.float r in
      elim (Bool-cases (lt_price lib a.0 (lib.ratio 3 10))) [
        | inl h ↦ rw h (burst a.1)
        | inr h ↦ rw h (calm a.1)
      ]
    where
      burst :
          (r₁ : lib.Rand)
          → IsPhase (record {
            rng = (lib.intn 500 r₁).1;
            remaining = 500 + (lib.intn 500 r₁).0;
            delay = 2;
          })
      burst r₁ = record {
        some_left = omega arith;
        length = omega (arith, lib.intn_lt 500 r₁ (omega arith));
        slow = omega arith;
        fast = omega arith;
      }

      calm :
          (r₁ : lib.Rand)
          → IsPhase (record {
            rng = (lib.intn 30 (lib.intn 90 r₁).1).1;
            remaining = 60 + (lib.intn 90 r₁).0;
            delay = 20 + (lib.intn 30 (lib.intn 90 r₁).1).0;
          })
      calm r₁ = record {
        some_left = omega arith;
        length = omega (arith, lib.intn_lt 90 r₁ (omega arith));
        slow = omega arith;
        fast = omega (arith, lib.intn_lt 30 (lib.intn 90 r₁).1 (omega arith));
      }

  -- If a pacer's phase has fewer than 1000 ticks left, and is over or has a delay of 2 to 49
  -- milliseconds, then the next delay is 2 to 49 milliseconds, and the same holds of the pacer after.
  pub pacer_next-IsPaced :
      (p : Pacer lib)
      → IsPaced p
      → (2 ≤ (pacer_next lib p).1) × ((pacer_next lib p).1 < 50) × IsPaced (pacer_next lib p).0
  unfolding pacer_next
  pacer_next-IsPaced p h = elim (Bool-cases (eqb p.remaining 0)) [
    | inl z ↦
        let n = new_phase-IsPhase p.rng in
        rw z (n.slow, n.fast, record { short = omega arith; timed = inr (n.slow, n.fast) })
    | inr z ↦
        let some_left : 0 < p.remaining = ground arith in
        elim h.timed [
          | inl over ↦ absurd (omega arith)
          | inr (slow, fast) ↦
              rw z (slow, fast, record { short = omega arith; timed = inr (slow, fast) })
        ]
  ]
