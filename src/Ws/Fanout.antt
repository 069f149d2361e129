-- ===== src/Ws/Fanout.antt =====
-- The hub of internal/ws over any sequence of events: what one client holds depends only on what was
-- published and on what that client did itself.
use optionx_assignment.Common.{
  Bool, String, List, [], ◌∷◌, Option, none, some, Dict, get, put, get-put, get-remove, ◌≡◌, refl,
  ◌∙◌, ap, arith, ◌==◌, str_eq_iff, inl, inr, if◌then◌else◌, Option-cases,
}
use optionx_assignment.Float.{Float64}
use optionx_assignment.Ledger.{Update}
use optionx_assignment.Ws.{
  Client, Connection, Control, Hub, new_client, control, receive, flush, register, unregister,
  publish_to,
}

module _ ⦃fl : Float64⦄ where
  -- What happens to a hub: an actor publishes; a client joins, leaves, sends a control message, or
  -- its ticker fires.
  pub data HubEvent : Type 0 where
    published : Update → HubEvent
    joined : String → HubEvent
    left : String → HubEvent
    sends : String → Control → HubEvent
    ticks : String → (Dict Update → List String) → Connection → HubEvent

  abbrev pub kept : Client × Bool → Option Client
  kept (c, ok) = if ok then some c else none

  abbrev pub and_then : Option Client → (Client → Option Client) → Option Client
  and_then none f = none
  and_then (some c) f = f c

  abbrev pub put_or_leave : String → Option Client → Hub → Hub
  put_or_leave name none h = unregister h name
  put_or_leave name (some c) h = put name c h

  -- One registered client changes, or leaves the hub.
  abbrev pub alter : String → (Client → Option Client) → Hub → Hub
  alter name f h = elim (get name h) [ none ↦ h | some c ↦ put_or_leave name (f c) h ]

  unfoldable pub hub_step : Hub → HubEvent → Hub
  hub_step h (published u) = publish_to h u
  hub_step h (joined name) = register h name new_client
  hub_step h (left name) = unregister h name
  hub_step h (sends name k) = alter name (λ c. some (control c k)) h
  -- A client whose flush fails leaves the hub.
  hub_step h (ticks name order conn) = alter name (λ c. kept (flush order conn c)) h

  unfoldable pub hub_run : Hub → List HubEvent → Hub
  hub_run h [] = h
  hub_run h (e ∷ es) = hub_run (hub_step h e) es

  -- One client on its own: the events that name another client do nothing.
  unfoldable pub own_step : String → Option Client → HubEvent → Option Client
  own_step me none (published u) = none
  own_step me (some c) (published u) = some (receive c u)
  own_step me o (joined name) = if name == me then some new_client else o
  own_step me o (left name) = if name == me then none else o
  own_step me o (sends name k) = if name == me then and_then o (λ c. some (control c k)) else o
  own_step me o (ticks name order conn) =
      if name == me then and_then o (λ c. kept (flush order conn c)) else o

  unfoldable pub own_run : String → Option Client → List HubEvent → Option Client
  own_run me o [] = o
  own_run me o (e ∷ es) = own_run me (own_step me o e) es

  get-publish_to :
      (me : String) (h : Hub) (u : Update)
      → get me (publish_to h u) ≡ own_step me (get me h) (published u)
  unfolding get publish_to own_step
  get-publish_to me [] u = refl
  get-publish_to me ((n, c) ∷ h) u = ground (arith, get-publish_to me h u)

  get-put_or_leave :
      (me name : String) (o : Option Client) (h : Hub)
      → get me (put_or_leave name o h) ≡ (if name == me then o else get me h)
  unfolding unregister
  get-put_or_leave me name none h = get-remove name me h
  get-put_or_leave me name (some c) h = get-put name me c h

  get-alter :
      (me name : String) (f : Client → Option Client) (h : Hub)
      → get me (alter name f h) ≡ (if name == me then and_then (get me h) f else get me h)
  get-alter me name f h = elim (Option-cases (get name h)) [
    | inl n ↦ ground (arith, str_eq_iff name me)
    | inr (x, g) ↦ ground (arith, str_eq_iff name me, get-put_or_leave me name (f x) h)
  ]

  get-hub_step :
      (me : String) (h : Hub) (e : HubEvent) → get me (hub_step h e) ≡ own_step me (get me h) e
  unfolding hub_step own_step register unregister
  get-hub_step me h (published u) = get-publish_to me h u
  get-hub_step me h (joined name) = ground (arith, get-put name me new_client h)
  get-hub_step me h (left name) = get-remove name me h
  get-hub_step me h (sends name k) = get-alter me name (λ c. some (control c k)) h
  get-hub_step me h (ticks name order conn) = get-alter me name (λ c. kept (flush order conn c)) h

  -- However the events of a hub interleave, each client ends as it does alone: a client that is slow,
  -- stalled or gone changes nothing for the others.
  pub get-hub_run :
      (me : String) (h : Hub) (es : List HubEvent)
      → get me (hub_run h es) ≡ own_run me (get me h) es
  unfolding hub_run own_run
  get-hub_run me h [] = refl
  get-hub_run me h (e ∷ es) =
      get-hub_run me (hub_step h e) es ∙ ap (λ o. own_run me o es) (get-hub_step me h e)
