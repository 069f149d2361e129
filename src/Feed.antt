-- ===== src/Feed.antt =====
-- internal/feed: ParseLine and the read loop of Consumer.Run. The JSON decoder is a parameter.
pub mod Delivery
use optionx_assignment.Common.{Bool, String, List, [], ◌∷◌, Option, none, some, ◌==◌, if◌then◌else◌}
use optionx_assignment.Float.{Float64}
use optionx_assignment.Candle.{Tick}

module _ ⦃fl : Float64⦄ where
  pub data ParseError : Type 0 where
    malformed missing_token : String → ParseError

  pub data Parsed : Type 0 where
    parsed : Tick → Parsed
    refused : ParseError → Parsed

  -- `json.Unmarshal` into a Tick, on the text of a line.
  abbrev pub Decoder : Type 0
  Decoder = String → Option Tick

  unfoldable pub parse_line : Decoder → String → Parsed
  parse_line decode line = elim (decode line) [
    | none ↦ refused (malformed line)
    | some t ↦ if t.token == "" then refused (missing_token line) else parsed t
  ]

  -- A line that the scanner returns, and whether the tick's send goes through: if not, the context ends
  -- first.
  pub record Reading : Type 0 where
    pub line : String
    pub taken : Bool

  -- A connection: its lines, whether it then ends with an error, and whether the context is done by
  -- then.
  pub record Connection : Type 0 where
    pub readings : List Reading
    pub broken : Bool
    pub context_done : Bool

  -- What Run returns, which is always an error.
  pub data RunError : Type 0 where
    no_dial done read_failed closed_by_peer : RunError

  abbrev pub ending : Connection → RunError
  ending c =
      if c.broken
      then (if c.context_done then done else read_failed)
      else (if c.context_done then done else closed_by_peer)

  -- The loop of Run over the lines: the ticks that it sends, in order, and the error that it ends in.
  unfoldable pub consume : Decoder → List Reading → RunError → List Tick × RunError
  consume decode [] e = ([], e)
  consume decode (r ∷ rs) e =
      let rest = consume decode rs e in
      if r.line == "" then rest else elim (parse_line decode r.line) [
        | refused x ↦ rest
        | parsed t ↦ if r.taken then (t ∷ rest.0, rest.1) else ([], done)
      ]

  -- Consumer.Run: `none` is a dial that fails.
  unfoldable pub run_consumer : Decoder → Option Connection → List Tick × RunError
  run_consumer decode none = ([], no_dial)
  run_consumer decode (some c) = consume decode c.readings (ending c)
