-- ===== src/Examples/Session.antt =====
-- A client of the generator that asks for the stream from the second event on, and leaves while the third
-- is sent.
use optionx_assignment.Common.{
  ◌+◌, none, some, ℤ, pos, true, not, eq_ℤ, refl, ◌≡◌, ◌==◌, add64, wrap64, ◌+ℤ◌, ◌*ℤ◌, ◌-ℤ◌,
  if◌then◌else◌, arith, drop,
}
use optionx_assignment.Candle.{Tick}
use optionx_assignment.Feed.{Decoder}
use optionx_assignment.Tickgen.{
  start_walk, walk_round, build_instruments, build_all, build_strikes, build_one, round_tick,
  draw_move,
}
use optionx_assignment.Tickgen.Replay.{trace}
use optionx_assignment.Tickgen.Session.{Attempt, Printer, new_session, serve_client}
use optionx_assignment.Tickgen.Served.{IsServed, serve_client-IsServed}
use optionx_assignment.Tickgen.Received.{IsReceived, IsReadable, serve_client-IsReceived}
use optionx_assignment.Tickgen.Named.{AllEvents}
use optionx_assignment.Examples.{cents}
use optionx_assignment.Examples.Generator.{counting}

abbrev attempts : ℤ → Attempt
attempts i = record { now = pos 1000; wrote = true; flushed = not (eq_ℤ i (pos 2)) }

abbrev print_seq : Printer
print_seq seq token ltp now =
    if eq_ℤ seq (pos 1) then "one" else if eq_ℤ seq (pos 2) then "two" else "three"

abbrev tick_at_price : ℤ → ℤ → Tick
tick_at_price seq price = record { seq = seq; token = "NIFTY26AUGCE"; ltp = price; ts = pos 1000 }

abbrev decode_seq : Decoder
decode_seq line =
    if line == "one"
    then some (tick_at_price (pos 1) (pos 1200))
    else if line == "two"
    then some (tick_at_price (pos 2) (pos 1770))
    else if line == "three"
    then some (tick_at_price (pos 3) (pos 2430))
    else none

decode_nothing : decode_seq "" ≡ none
unfolding ◌==◌
decode_nothing = refl

all_read_back :
    AllEvents
      (IsReadable decode_seq print_seq attempts)
      (trace counting (1 + 2) (start_walk counting (pos 42)))
unfolding trace start_walk walk_round build_instruments build_all build_strikes build_one round_tick
    draw_move ◌==◌ add64 wrap64 ◌+ℤ◌ ◌*ℤ◌ ◌-ℤ◌
all_read_back = (λ i. refl, (λ i. refl, (λ i. refl, tt)))

serve_client-IsServed_example :
    IsServed counting print_seq attempts 1
      (drop 1 (trace counting (1 + 2) (start_walk counting (pos 42))))
      (new_session counting (pos 42))
      (serve_client counting print_seq attempts (1 + 2) (pos 42) (pos 1))
serve_client-IsServed_example =
    serve_client-IsServed counting print_seq attempts 1 2 (pos 42) (omega arith)

serve_client-IsReceived_example :
    IsReceived decode_seq attempts 1
      (drop 1 (trace counting (1 + 2) (start_walk counting (pos 42))))
      (serve_client counting print_seq attempts (1 + 2) (pos 42) (pos 1)).0.lines
      (serve_client counting print_seq attempts (1 + 2) (pos 42) (pos 1)).1
serve_client-IsReceived_example =
    serve_client-IsReceived counting decode_seq print_seq attempts 1 2 (pos 42) (omega arith)
      decode_nothing all_read_back
