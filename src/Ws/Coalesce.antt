-- ===== src/Ws/Coalesce.antt =====
-- What a client of internal/ws has pending between two flushes, and what a flush writes.
use optionx_assignment.Common.{
  String, List, [], ◌∷◌, Option, some, get, get-put, ◌≡◌, inl, inr, arith, ◌==◌, str_eq-cases,
  if◌then◌else◌,
}
use optionx_assignment.Float.{Float64}
use optionx_assignment.Ledger.{Update}
use optionx_assignment.Ws.{Client, passes, receive}

module _ ⦃fl : Float64⦄ where
  unfoldable pub receive_all : Client → List Update → Client
  receive_all c [] = c
  receive_all c (u ∷ us) = receive_all (receive c u) us

  -- The last update of a token in a list of them, or what was pending before.
  abbrev pub newest : String → Option Update → List Update → Option Update
  newest t old [] = old
  newest t old (u ∷ us) = newest t (if u.token == t then some u else old) us

  subs-receive : (c : Client) (u : Update) → (receive c u).subs ≡ c.subs
  unfolding receive
  subs-receive c u = ground arith

  buf-receive :
      (c : Client) (u : Update) (t : String)
      → get t (receive c u).buf
        ≡ (if passes c.subs t then newest t (get t c.buf) (u ∷ []) else get t c.buf)
  unfolding receive passes
  buf-receive c u t = elim (str_eq-cases u.token t) [
    | inl (h, e) ↦ rw h (ground (arith, get-put u.token t u c.buf, e))
    | inr (h, ne) ↦ rw h (ground (arith, get-put u.token t u c.buf))
  ]

  -- Between two flushes the buffer holds, for each token that the filter lets through, the newest
  -- update published; for the others, what it held before.
  pub buf-receive_all :
      (c : Client) (us : List Update) (t : String)
      → get t (receive_all c us).buf
        ≡ (if passes c.subs t then newest t (get t c.buf) us else get t c.buf)
  unfolding receive_all
  buf-receive_all c [] t = ground arith
  buf-receive_all c (u ∷ us) t =
      ground (arith, buf-receive_all (receive c u) us t, buf-receive c u t, subs-receive c u)
