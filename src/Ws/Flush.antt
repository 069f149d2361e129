-- ===== src/Ws/Flush.antt =====
-- What one flush of a client of internal/ws writes to its connection.
use optionx_assignment.Common.{
  ℕ, zero, suc, ◌≤◌, true, false, String, List, [], ◌∷◌, ◌++◌, length, some, Dict, get, InList, ◌≡◌,
  refl, sym, ◌∙◌, ap, inl, inr, ◌⊎◌, arith, Option-cases,
}
use optionx_assignment.Float.{Float64}
use optionx_assignment.Ledger.{Update}
use optionx_assignment.Ws.{Client, Connection, is_empty, passes, pending_updates, write_all, flush}
use optionx_assignment.Ws.Coalesce.{receive_all, newest, buf-receive_all}

module _ ⦃fl : Float64⦄ where
  abbrev pub InUpdates : Update → List Update → Type 0
  InUpdates u [] = ⊥
  InUpdates u (v ∷ vs) = (u ≡ v) ⊎ InUpdates u vs

  -- A map range visits every key.
  abbrev pub VisitsBuffer : (Dict Update → List String) → Type 0
  VisitsBuffer order =
      (buf : Dict Update) (t : String) (u : Update) → get t buf ≡ some u → InList t (order buf)

  length-pending_updates :
      (ts : List String) (buf : Dict Update) → length (pending_updates ts buf) ≤ length ts
  unfolding pending_updates
  length-pending_updates [] buf = omega arith
  length-pending_updates (t ∷ ts) buf = ground (arith, length-pending_updates ts buf)

  pending_updates-In :
      (ts : List String) (buf : Dict Update) (t : String) (u : Update)
      → InList t ts
      → get t buf ≡ some u
      → InUpdates u (pending_updates ts buf)
  unfolding pending_updates
  pending_updates-In [] buf t u m g = absurd m
  pending_updates-In (x ∷ ts) buf t u (inl e) g =
      rw (InUpdates, sym (ap (λ k. get k buf) e) ∙ g) (inl refl)
  pending_updates-In (x ∷ ts) buf t u (inr m) g = elim (Option-cases (get x buf)) [
    | inl h ↦ rw (InUpdates, h) (pending_updates-In ts buf t u m g)
    | inr (v, h) ↦ rw (InUpdates, h) (inr (pending_updates-In ts buf t u m g))
  ]

  write_all-room : (room : ℕ) (us : List Update) → length us ≤ room → write_all room us ≡ (us, true)
  unfolding write_all
  write_all-room room [] h = refl
  write_all-room zero (u ∷ us) h = absurd (omega arith)
  write_all-room (suc room) (u ∷ us) h = rw (write_all-room room us (omega arith)) refl

  In-append : (u : Update) (us vs : List Update) → InUpdates u vs → InUpdates u (us ++ vs)
  In-append u [] vs m = m
  In-append u (w ∷ us) vs m = inr (In-append u us vs m)

  is_empty-get :
      (buf : Dict Update) (t : String) (u : Update) → get t buf ≡ some u → is_empty buf ≡ false
  unfolding get
  is_empty-get [] t u g = cc
  is_empty-get (x ∷ buf) t u g = refl

  flush-sends :
      (order : Dict Update → List String) (conn : Connection) (c : Client) (t : String) (u : Update)
      → VisitsBuffer order
      → conn.deadline_set ≡ true
      → length (order c.buf) ≤ conn.room
      → get t c.buf ≡ some u
      → ((flush order conn c).1 ≡ true) × InUpdates u (flush order conn c).0.sent
  unfolding flush
  flush-sends order conn c t u vis d room g =
      rw
        (
          is_empty-get c.buf t u g,
          d,
          write_all-room conn.room (pending_updates (order c.buf) c.buf) enough,
        )
        (
          refl,
          In-append u c.sent _ (pending_updates-In (order c.buf) c.buf t u (vis c.buf t u g) g),
        )
    where
      enough : length (pending_updates (order c.buf) c.buf) ≤ conn.room
      enough = omega (arith, length-pending_updates (order c.buf) c.buf)

  -- Whatever was published to a client since its last flush, for a token that its filter lets through
  -- and that some update was published for or was pending, the newest update is written by the next
  -- flush, and that flush succeeds: the connection's deadline can be set, it takes as many writes as
  -- there are keys to visit, and the map range visits every key of the buffer.
  pub newest_is_sent :
      (order : Dict Update → List String) (conn : Connection) (c : Client) (us : List Update)
      (t : String) (u : Update)
      → VisitsBuffer order
      → conn.deadline_set ≡ true
      → length (order (receive_all c us).buf) ≤ conn.room
      → passes c.subs t ≡ true
      → newest t (get t c.buf) us ≡ some u
      → ((flush order conn (receive_all c us)).1 ≡ true)
        × InUpdates u (flush order conn (receive_all c us)).0.sent
  newest_is_sent order conn c us t u vis d room p n =
      flush-sends order conn (receive_all c us) t u vis d room
        (rw (buf-receive_all c us t, p, n) refl)
