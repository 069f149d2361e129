-- ===== src/Feed/Delivery.antt =====
-- Consumer.Run of internal/feed/consumer.go: which ticks it hands on, and why it ends.
use optionx_assignment.Common.{
  false, String, List, [], ◌∷◌, ◌++◌, Option, none, some, ◌≡◌, ◌≢◌, ◌⊎◌, refl, sym, ◌∙◌, ap, inl,
  inr, subst, str_eq-cases, ◌==◌, str_eq_iff, Bool-cases, Option-cases, if◌then◌else◌,
}
use optionx_assignment.Float.{Float64}
use optionx_assignment.Candle.{Tick}
use optionx_assignment.Feed.{
  Decoder, parsed, refused, ParseError, malformed, missing_token, parse_line, Reading, Connection,
  RunError, no_dial, done, ending, consume, run_consumer,
}

module _ ⦃fl : Float64⦄ where
  -- The ticks that lines stand for, described by the decoder: a line that is not empty and decodes to
  -- a tick with a token.
  pub data Stands (decode : Decoder) : List Reading → List Tick → Type 0 where
    none_left : Stands decode [] []
    useless :
        {r : Reading} {rs : List Reading} {ts : List Tick}
        → ((t : Tick) → decode r.line ≡ some t → r.line ≢ "" → t.token ≡ "")
        → Stands decode rs ts
        → Stands decode (r ∷ rs) ts
    useful :
        {r : Reading} {rs : List Reading} {t : Tick} {ts : List Tick}
        → r.line ≢ ""
        → decode r.line ≡ some t
        → t.token ≢ ""
        → Stands decode rs ts
        → Stands decode (r ∷ rs) (t ∷ ts)

  -- The first of the other lines is one whose send the context's end prevented.
  abbrev pub Prevented : List Reading → Type 0
  Prevented [] = ⊥
  Prevented (r ∷ rs) = r.taken ≡ false

  -- The ticks sent are those of the first lines; of all, unless the context ended.
  pub record Delivered (decode : Decoder) (rs : List Reading) (e : RunError)
      (out : List Tick × RunError) : Type 0 where
    pub before : List Reading
    pub after : List Reading
    pub split : rs ≡ before ++ after
    pub sent : Stands decode before out.0
    pub finished : Prevented after × (out.1 ≡ done) ⊎ (after ≡ []) × (out.1 ≡ e)

  Delivered-useless :
      (decode : Decoder) (r : Reading) (rs : List Reading) (e : RunError)
      (out : List Tick × RunError)
      → ((t : Tick) → decode r.line ≡ some t → r.line ≢ "" → t.token ≡ "")
      → Delivered decode rs e out
      → Delivered decode (r ∷ rs) e out
  Delivered-useless decode r rs e out u d = record {
    before = r ∷ d.before;
    after = d.after;
    split = ap (λ xs. r ∷ xs) d.split;
    sent = useless u d.sent;
    finished = d.finished;
  }

  Delivered-useful :
      (decode : Decoder) (r : Reading) (rs : List Reading) (e : RunError) (t : Tick)
      (out : List Tick × RunError)
      → r.line ≢ ""
      → decode r.line ≡ some t
      → t.token ≢ ""
      → Delivered decode rs e out
      → Delivered decode (r ∷ rs) e (if r.taken then (t ∷ out.0, out.1) else ([], done))
  Delivered-useful decode r rs e t out ne g tok d = elim (Bool-cases r.taken) [
    | inl h ↦
        subst (λ b. Delivered decode (r ∷ rs) e (if b then (t ∷ out.0, out.1) else ([], done)))
          (sym h)
          (record {
            before = r ∷ d.before;
            after = d.after;
            split = ap (λ xs. r ∷ xs) d.split;
            sent = useful ne g tok d.sent;
            finished = d.finished;
          })
    | inr h ↦
        subst (λ b. Delivered decode (r ∷ rs) e (if b then (t ∷ out.0, out.1) else ([], done)))
          (sym h)
          (record {
            before = [];
            after = r ∷ rs;
            split = refl;
            sent = none_left;
            finished = inl (h, refl);
          })
  ]

  not_empty : (s : String) → (s == "") ≡ false → s ≢ ""
  not_empty s h e = cc (h, (str_eq_iff s "").1 e)

  -- The three things that ParseLine can come to.
  parse_line_cases :
      (decode : Decoder) (line : String)
      → ((x : ParseError) × (parse_line decode line ≡ refused x)
          × ((t : Tick) → decode line ≡ some t → t.token ≡ ""))
        ⊎ ((t : Tick) × (parse_line decode line ≡ parsed t)
            × (decode line ≡ some t)
            × (t.token ≢ ""))
  unfolding parse_line
  parse_line_cases decode line = elim (Option-cases (decode line)) [
    | inl g ↦ rw (parse_line, g) (inl (malformed line, refl, λ t e. cc))
    | inr (t, g) ↦ elim (str_eq-cases t.token "") [
      | inl (h, e) ↦
          rw (parse_line, g, h)
            (inl (
              missing_token line,
              refl,
              λ u f. (let same : t ≡ u = cc in sym (ap (λ (x : Tick). x.token) same) ∙ e),
            ))
      | inr (h, ne) ↦ rw (parse_line, g, h) (inr (t, refl, refl, ne))
    ]
  ]

  consume-Delivered :
      (decode : Decoder) (rs : List Reading) (e : RunError)
      → Delivered decode rs e (consume decode rs e)
  unfolding consume
  consume-Delivered decode [] e = record {
    before = [];
    after = [];
    split = refl;
    sent = none_left;
    finished = inr (refl, refl);
  }
  consume-Delivered decode (r ∷ rs) e =
      let rest = consume-Delivered decode rs e in
      let out = consume decode rs e in
      elim (Bool-cases (r.line == "")) [
        | inl h ↦ rw h (
            Delivered-useless decode r rs e out (λ t g ne. absurd (ne ((str_eq_iff r.line "").0 h)))
              rest)
        | inr h ↦ elim (parse_line_cases decode r.line) [
          | inl (x, p, u) ↦ rw (h, p) (Delivered-useless decode r rs e out (λ t g ne. u t g) rest)
          | inr (t, p, g, tok) ↦
              rw (h, p) (Delivered-useful decode r rs e t out (not_empty r.line h) g tok rest)
        ]
      ]

  -- How a run of the consumer ends, and what it has sent by then.
  abbrev pub Promise : Decoder → Option Connection → List Tick × RunError → Type 0
  Promise decode none out = out ≡ ([], no_dial)
  Promise decode (some c) out = Delivered decode c.readings (ending c) out

  -- A run of the feed consumer sends the ticks of a first part of the lines, in order: of each line that
  -- is not empty and decodes to a tick with a token, and of no other. That part is all of them, and
  -- the error says how the connection ended; or the next line's send was prevented by the end of the
  -- context, and the error is the context's. With no connection it sends nothing and says so.
  pub run_consumer-Promise :
      (decode : Decoder) (conn : Option Connection) → Promise decode conn (run_consumer decode conn)
  unfolding run_consumer
  run_consumer-Promise decode none = refl
  run_consumer-Promise decode (some c) = consume-Delivered decode c.readings (ending c)
