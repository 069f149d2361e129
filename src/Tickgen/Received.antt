-- ===== src/Tickgen/Received.antt =====
-- tickgen/main.go and internal/feed over one connection: what the consumer makes of the lines that the
-- generator sends.
use optionx_assignment.Common.{
  ℕ, zero, suc, ◌+◌, ◌<◌, half64, length, Bool, true, String, List, [], ◌∷◌, ◌++◌, drop, none, some,
  ℤ, pos, ◌≡◌, refl, ◌∙◌, ap, subst, str_eq-cases, inl, inr,
}
use optionx_assignment.Float.{Float64}
use optionx_assignment.Candle.{Tick}
use optionx_assignment.Feed.{Decoder, parse_line, parsed, Reading, RunError, consume}
use optionx_assignment.Tickgen.{Libraries, Event, start_walk}
use optionx_assignment.Tickgen.Replay.{trace}
use optionx_assignment.Tickgen.Session.{Attempt, Printer, new_session, serve_client}
use optionx_assignment.Tickgen.Served.{lines_of, IsOver, serve_client-IsServed}
use optionx_assignment.Tickgen.Named.{AllEvents, IsNamedEvent, stream-AreNamedEvents}

module _ ⦃fl : Float64⦄ where
  AllEvents-drop :
      (P : Event → Type 0) (k : ℕ) (es : List Event) → AllEvents P es → AllEvents P (drop k es)
  AllEvents-drop P zero es h = h
  AllEvents-drop P (suc k) [] h = tt
  AllEvents-drop P (suc k) (e ∷ es) (h, t) = AllEvents-drop P k es t

  AllEvents-before :
      (P : Event → Type 0) (xs ys : List Event) → AllEvents P (xs ++ ys) → AllEvents P xs
  AllEvents-before P [] ys h = tt
  AllEvents-before P (x ∷ xs) ys (h, t) = (h, AllEvents-before P xs ys t)

  -- The tick that an event is, at a time.
  abbrev pub tick_of : Event → ℤ → Tick
  tick_of e now = record { seq = e.seq; token = e.token; ltp = e.ltp; ts = now }

  abbrev pub ticks_of : (ℤ → Attempt) → ℕ → List Event → List Tick
  ticks_of attempt j [] = []
  ticks_of attempt j (e ∷ es) = tick_of e (attempt (pos j)).now ∷ ticks_of attempt (suc j) es

  -- Every line reaches the scanner, and every tick is taken.
  abbrev pub readings_of : List String → List Reading
  readings_of [] = []
  readings_of (l ∷ ls) = record { line = l; taken = true } ∷ readings_of ls

  -- The decoder reads the event back from its line, at whichever of the times.
  abbrev pub IsReadable : Decoder → Printer → (ℤ → Attempt) → Event → Type 0
  IsReadable decode print attempt e =
      (i : ℤ)
      → decode (print e.seq e.token e.ltp (attempt i).now) ≡ some (tick_of e (attempt i).now)

  parse_line-print :
      (decode : Decoder) (print : Printer) (e : Event) (now : ℤ)
      → decode (print e.seq e.token e.ltp now) ≡ some (tick_of e now)
      → IsNamedEvent e
      → parse_line decode (print e.seq e.token e.ltp now) ≡ parsed (tick_of e now)
  unfolding parse_line
  parse_line-print decode print e now h n = elim (str_eq-cases e.token "") [
    | inl (t, same) ↦ absurd (n same)
    | inr (t, ne) ↦ rw (h, parse_line, t) refl
  ]

  consume-lines_of :
      (decode : Decoder) (print : Printer) (attempt : ℤ → Attempt) (j : ℕ) (es : List Event)
      (err : RunError)
      → decode "" ≡ none
      → AllEvents (IsReadable decode print attempt) es
      → AllEvents IsNamedEvent es
      → consume decode (readings_of (lines_of print attempt j es)) err
        ≡ (ticks_of attempt j es, err)
  unfolding consume
  consume-lines_of decode print attempt j [] err z h n = refl
  consume-lines_of decode print attempt j (e ∷ es) err z (h, hs) (n, ns) =
      let now = (attempt (pos j)).now in
      let line = print e.seq e.token e.ltp now in
      elim (str_eq-cases line "") [
        | inl (t, same) ↦ absurd (cc (h (pos j), ap decode same, z))
        | inr (t, ne) ↦
            rw
              (
                t,
                parse_line-print decode print e now (h (pos j)) n,
                consume-lines_of decode print attempt (suc j) es err z hs ns,
              )
              refl
      ]

  -- What the consumer gets of the events under the numbers from `j` on.
  pub record IsReceived (decode : Decoder) (attempt : ℤ → Attempt) (j : ℕ) (es : List Event)
      (lines : List String) (gone : Bool) : Type 0 where
    pub before : List Event
    pub after : List Event
    pub split : es ≡ before ++ after
    pub received :
        (err : RunError) → consume decode (readings_of lines) err ≡ (ticks_of attempt j before, err)
    pub over : IsOver attempt (j + length before) after gone

  -- Let the decoder refuse the empty text and read every event of the stream back from its printed line.
  -- Then for k + n rounds, fewer than 2^63, with -from k, a consumer that reads the lines of the session
  -- and whose ticks are all taken gets the ticks of a first part of the events from the k-th on, in
  -- order, each with the time of its call, and with whatever error the connection ends; that part is all
  -- of them, or the write or the flush of the next line failed.
  pub serve_client-IsReceived :
      (lib : Libraries) (decode : Decoder) (print : Printer) (attempt : ℤ → Attempt) (k n : ℕ)
      (seed : ℤ)
      → k + n < half64
      → decode "" ≡ none
      → AllEvents (IsReadable decode print attempt) (trace lib (k + n) (start_walk lib seed))
      → IsReceived decode attempt k
          (drop k (trace lib (k + n) (start_walk lib seed)))
          (serve_client lib print attempt (k + n) seed (pos k)).0.lines
          (serve_client lib print attempt (k + n) seed (pos k)).1
  unfolding new_session
  serve_client-IsReceived lib decode print attempt k n seed b z readable =
      let es = trace lib (k + n) (start_walk lib seed) in
      let i = serve_client-IsServed lib print attempt k n seed b in
      let part : (P : Event → Type 0) → AllEvents P es → AllEvents P i.before = λ P h.
        AllEvents-before P i.before i.after
          (subst (AllEvents P) i.split (AllEvents-drop P k es h)) in
      record {
        before = i.before;
        after = i.after;
        split = i.split;
        received = λ err.
            ap (λ ls. consume decode (readings_of ls) err) i.sent
            ∙ consume-lines_of decode print attempt k i.before err z
                (part (IsReadable decode print attempt) readable)
                (part IsNamedEvent (stream-AreNamedEvents lib (k + n) seed));
        over = i.over;
      }
