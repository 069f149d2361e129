-- ===== src/Tickgen/Session.antt =====
-- The session of tickgen/main.go with one client: the function that main hands to stream. The clock, the
-- connection and the printing of a line are parameters.
use optionx_assignment.Common.{
  ℕ, Bool, true, false, not, String, List, [], ◌∷◌, ◌++◌, ℤ, pos, add64, if◌then◌else◌,
}
use optionx_assignment.Float.{Float64, Price}
use optionx_assignment.Tickgen.{Libraries, Event, Pacer, pacer_next, stream}

-- What one call of emit meets: the time, and whether the write and the flush go through.
pub record Attempt : Type 0 where
  pub now : ℤ
  pub wrote : Bool
  pub flushed : Bool

module _ ⦃fl : Float64⦄ where
  -- `fmt.Sprintf` with the format of a line, on the number, the token, the price and the time. The line
  -- is given without its end.
  abbrev pub Printer : Type 0
  Printer = ℤ → String → Price → ℤ → String

  module _ (lib : Libraries) where
    -- What the client was sent, and the delays slept, the last one first.
    pub record Session : Type 0 where
      pub pacer : Pacer lib
      pub lines : List String
      pub pauses : List ℕ

    -- The emit of main; the number under which it is called chooses its attempt.
    unfoldable pub emit_line : Printer → (ℤ → Attempt) → ℤ → Event → Session → Session × Bool
    emit_line print attempt i ev s =
        let a = attempt i in
        let line = print ev.seq ev.token ev.ltp a.now in
        let (p, delay) = pacer_next lib s.pacer in
        if not a.wrote
        then (s, false)
        else if not a.flushed
        then (s, false)
        else (record { pacer = p; lines = s.lines ++ (line ∷ []); pauses = delay ∷ s.pauses }, true)

    unfoldable pub new_session : ℤ → Session
    new_session seed = record {
      pacer = record { rng = lib.seeded (add64 seed (pos 1)); remaining = 0; delay = 0 };
      lines = [];
      pauses = [];
    }

    -- The goroutine of one connection, for so many rounds of the stream, and whether the client is gone.
    unfoldable pub serve_client : Printer → (ℤ → Attempt) → ℕ → ℤ → ℤ → Session × Bool
    serve_client print attempt n seed from =
        stream lib n seed from (emit_line print attempt) (new_session seed)
