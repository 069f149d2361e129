-- ===== src/Tickgen/Served.antt =====
-- What a client of tickgen (tickgen/main.go) is sent: a first part of the stream, paced.
use optionx_assignment.Common.{
  ℕ, suc, ◌+◌, ◌<◌, ◌≤◌, half64, Bool, true, false, String, List, [], ◌∷◌, ◌++◌, append_assoc,
  append-nil, length, drop, ℤ, pos, ◌≡◌, ◌⊎◌, refl, sym, ◌∙◌, ap, subst, inl, inr, Bool-cases,
  arith,
}
use optionx_assignment.Float.{Float64}
use optionx_assignment.Tickgen.{Libraries, Event, start_walk, pacer_next}
use optionx_assignment.Tickgen.Replay.{trace, emit_all, stream-from}
use optionx_assignment.Tickgen.Pace.{IsPaced, pacer_next-IsPaced}
use optionx_assignment.Tickgen.Session.{
  Attempt, Printer, Session, emit_line, new_session, serve_client,
}

-- From 2 to 49 milliseconds each.
abbrev pub ArePauses : List ℕ → Type 0
ArePauses [] = Unit
ArePauses (d ∷ ds) = (2 ≤ d) × (d < 50) × ArePauses ds

module _ ⦃fl : Float64⦄ where
  -- The lines of events, the first under the index `j`.
  abbrev pub lines_of : Printer → (ℤ → Attempt) → ℕ → List Event → List String
  lines_of print attempt j [] = []
  lines_of print attempt j (e ∷ es) =
      print e.seq e.token e.ltp (attempt (pos j)).now ∷ lines_of print attempt (suc j) es

  -- The write or the flush of the call under this index fails.
  abbrev pub Fails : (ℤ → Attempt) → ℕ → Type 0
  Fails attempt j = ((attempt (pos j)).wrote ≡ false) ⊎ ((attempt (pos j)).flushed ≡ false)

  -- Why no more events were sent: there were no more rounds, or the client is gone.
  abbrev pub IsOver : (ℤ → Attempt) → ℕ → List Event → Bool → Type 0
  IsOver attempt j [] gone = gone ≡ false
  IsOver attempt j (e ∷ es) gone = (gone ≡ true) × Fails attempt j

  module _ (lib : Libraries) (print : Printer) (attempt : ℤ → Attempt) where
    pub record IsServed (j : ℕ) (es : List Event) (s : Session lib) (out : Session lib × Bool)
        : Type 0 where
      pub before : List Event
      pub after : List Event
      pub split : es ≡ before ++ after
      pub sent : out.0.lines ≡ s.lines ++ lines_of print attempt j before
      pub slept : length out.0.pauses ≡ length s.pauses + length before
      pub paced : IsPaced lib out.0.pacer × ArePauses out.0.pauses
      pub over : IsOver attempt (j + length before) after out.1

    -- A session whose pauses and pacer are in range.
    abbrev InRange : Session lib → Type 0
    InRange s = IsPaced lib s.pacer × ArePauses s.pauses

    stopped-IsServed :
        (j : ℕ) (e : Event) (es : List Event) (s : Session lib)
        → InRange s
        → Fails attempt j
        → IsServed j (e ∷ es) s (s, true)
    stopped-IsServed j e es s r f = record {
      before = [];
      after = e ∷ es;
      split = refl;
      sent = sym (append-nil s.lines);
      slept = omega arith;
      paced = r;
      over = (refl, subst (Fails attempt) (omega arith) f);
    }

    next-IsServed :
        (j : ℕ) (e : Event) (es : List Event) (s s' : Session lib) (out : Session lib × Bool)
        → s'.lines ≡ s.lines ++ (print e.seq e.token e.ltp (attempt (pos j)).now ∷ [])
        → length s'.pauses ≡ suc (length s.pauses)
        → IsServed (suc j) es s' out
        → IsServed j (e ∷ es) s out
    next-IsServed j e es s s' out grown longer i =
        let line = print e.seq e.token e.ltp (attempt (pos j)).now in
        let rest = lines_of print attempt (suc j) i.before in
        let shift : suc j + length i.before ≡ j + suc (length i.before) = omega arith in
        record {
          before = e ∷ i.before;
          after = i.after;
          split = ap (λ xs. e ∷ xs) i.split;
          sent = i.sent ∙ ap (λ xs. xs ++ rest) grown ∙ append_assoc s.lines (line ∷ []) rest;
          slept = omega (arith, i.slept, longer);
          paced = i.paced;
          over = subst (λ k. IsOver attempt k i.after out.1) shift i.over;
        }

    -- The session behind a line that went out.
    abbrev sent_one : ℕ → Event → Session lib → Session lib
    sent_one j e s =
        let line = print e.seq e.token e.ltp (attempt (pos j)).now in
        let (p, delay) = pacer_next lib s.pacer in
        record { pacer = p; lines = s.lines ++ (line ∷ []); pauses = delay ∷ s.pauses }

    sent_one-InRange : (j : ℕ) (e : Event) (s : Session lib) → InRange s → InRange (sent_one j e s)
    sent_one-InRange j e s (p, ds) =
        let (slow, fast, next) = pacer_next-IsPaced lib s.pacer p in (next, (slow, fast, ds))

    emit_all-IsServed :
        (es : List Event) (j : ℕ) (s : Session lib)
        → InRange s
        → IsServed j es s (emit_all lib (emit_line lib print attempt) j es s)
    unfolding emit_all emit_line
    emit_all-IsServed [] j s r = record {
      before = [];
      after = [];
      split = refl;
      sent = sym (append-nil s.lines);
      slept = omega arith;
      paced = r;
      over = refl;
    }
    emit_all-IsServed (e ∷ es) j s r = elim (Bool-cases (attempt (pos j)).wrote) [
      | inr h ↦ rw h (stopped-IsServed j e es s r (inl h))
      | inl h ↦ elim (Bool-cases (attempt (pos j)).flushed) [
        | inr f ↦ rw (h, f) (stopped-IsServed j e es s r (inr f))
        | inl f ↦
            rw (h, f)
              (next-IsServed j e es s (sent_one j e s)
                (emit_all lib (emit_line lib print attempt) (suc j) es (sent_one j e s)) refl refl
                (emit_all-IsServed es (suc j) (sent_one j e s) (sent_one-InRange j e s r)))
      ]
    ]

    -- With -from k, for k + n rounds, fewer than 2^63: the client is sent the lines of a first part of the
    -- events from the k-th on, in order, each printed with the time of its call. That part is all of
    -- them, and the stream goes on; or the write or the flush of the next line fails, and the client is
    -- gone. After each line that was sent the session sleeps once, for 2 to 49 milliseconds.
    pub serve_client-IsServed :
        (k n : ℕ) (seed : ℤ)
        → k + n < half64
        → IsServed k
            (drop k (trace lib (k + n) (start_walk lib seed)))
            (new_session lib seed)
            (serve_client lib print attempt (k + n) seed (pos k))
    unfolding serve_client new_session
    serve_client-IsServed k n seed b =
        let s = new_session lib seed in
        let es = drop k (trace lib (k + n) (start_walk lib seed)) in
        subst (IsServed k es s) (sym (stream-from lib k n seed (emit_line lib print attempt) s b))
          (emit_all-IsServed es k s (record { short = omega arith; timed = inl refl }, tt))
