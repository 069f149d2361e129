-- ===== src/Examples/Candles.antt =====
-- A stream of ticks of one instrument through the candle aggregator, over three minutes.
use optionx_assignment.Common.{
  get, List, [], ◌∷◌, ℤ, pos, ◌≡◌, refl, inl, inr, arith, le_ℤ, true, false, some, none, ◌==◌,
  if◌then◌else◌,
}
use optionx_assignment.Candle.{Tick, state_at, apply_all}
use optionx_assignment.Candle.Bounds.{
  OrderLaws, AllResultsAreBars, AllOpenAreBars, results, results-IsBar,
}
use optionx_assignment.Candle.Bars.{unseen, to_state, follow_all, ticks_of, state_at-apply_all}
use optionx_assignment.Candle.Replay.{replay_unchanged}
use optionx_assignment.Feed.{Decoder, Connection, run_consumer}
use optionx_assignment.Feed.Delivery.{Promise, run_consumer-Promise}
use optionx_assignment.Examples.{cents, max_ℤ, min_ℤ}

abbrev tick_of : ℤ → ℤ → ℤ → Tick
tick_of seq ltp ts = record { seq = seq; token = "T"; ltp = ltp; ts = ts }

abbrev pub first_tick : Tick
first_tick = tick_of (pos 1) (pos 100) (pos 60500)

abbrev pub second_tick : Tick
second_tick = tick_of (pos 2) (pos 103) (pos 61500)

abbrev pub third_tick : Tick
third_tick = tick_of (pos 3) (pos 99) (pos 120500)

abbrev three_ticks : List Tick
three_ticks = first_tick ∷ second_tick ∷ third_tick ∷ []

state_at-apply_all_example :
    state_at "T" (apply_all [] three_ticks)
    ≡ to_state (follow_all unseen (ticks_of "T" three_ticks))
unfolding get
state_at-apply_all_example = state_at-apply_all [] "T" three_ticks unseen refl

replay_unchanged_example :
    apply_all (apply_all [] three_ticks) (second_tick ∷ first_tick ∷ []) ≡ apply_all [] three_ticks
replay_unchanged_example =
    replay_unchanged [] three_ticks (second_tick ∷ first_tick ∷ []) (inr (inl refl), (inl refl, tt))

pub le_ℤ_trans : (a b c : ℤ) → le_ℤ a b ≡ true → le_ℤ b c ≡ true → le_ℤ a c ≡ true
le_ℤ_trans a b c h k = ground arith

pub max_ℤ_left : (a b : ℤ) → le_ℤ a (max_ℤ a b) ≡ true
max_ℤ_left a b = ground arith

pub max_ℤ_right : (a b : ℤ) → le_ℤ b (max_ℤ a b) ≡ true
max_ℤ_right a b = ground arith

pub min_ℤ_left : (a b : ℤ) → le_ℤ (min_ℤ a b) a ≡ true
min_ℤ_left a b = ground arith

pub min_ℤ_right : (a b : ℤ) → le_ℤ (min_ℤ a b) b ≡ true
min_ℤ_right a b = ground arith

pub le_ℤ_refl : (a : ℤ) → le_ℤ a a ≡ true
le_ℤ_refl a = ground arith

-- Whole cents have no NaN.
abbrev pub cents_laws : OrderLaws
cents_laws = record {
  IsNumber = λ a. Unit;
  le_refl = λ a n. le_ℤ_refl a;
  le_trans = le_ℤ_trans;
  larger-IsNumber = λ a b m n. tt;
  larger_left = λ a b m n. max_ℤ_left a b;
  larger_right = λ a b m n. max_ℤ_right a b;
  smaller-IsNumber = λ a b m n. tt;
  smaller_left = λ a b m n. min_ℤ_left a b;
  smaller_right = λ a b m n. min_ℤ_right a b;
}

results-IsBar_example :
    AllResultsAreBars cents_laws (results cents_laws [] three_ticks)
    × AllOpenAreBars cents_laws (apply_all [] three_ticks)
results-IsBar_example = results-IsBar cents_laws three_ticks (tt, (tt, (tt, tt)))

-- Knows the lines of two ticks.
abbrev decode_two : Decoder
decode_two line =
    if line == "one" then some first_tick else if line == "two" then some second_tick else none

abbrev connection : Connection
connection = record {
  readings =
      record { line = "one"; taken = true }
      ∷ record { line = "noise"; taken = true }
      ∷ record { line = "two"; taken = false }
      ∷ [];
  broken = false;
  context_done = true;
}

run_consumer-Promise_example :
    Promise decode_two (some connection) (run_consumer decode_two (some connection))
run_consumer-Promise_example = run_consumer-Promise decode_two (some connection)
