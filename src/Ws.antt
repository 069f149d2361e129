-- ===== src/Ws.antt =====
-- internal/ws: the hub's set of clients, and what each client keeps: its subscription filter and its
-- buffer of pending updates, at most one per token. The connection itself is not modelled: whether
-- each write to it succeeds is an argument of flush, and so is the order of its map range.
pub mod Coalesce
pub mod Flush
pub mod Filter
pub mod Fanout
use optionx_assignment.Common.{
  ℕ, zero, suc, Bool, true, false, not, ◌&&◌, ◌||◌, String, List, [], ◌∷◌, ◌++◌, Option, none, some,
  ◌≡◌, Dict, get, put, keys, remove, ◌==◌, if◌then◌else◌,
}
use optionx_assignment.Float.{Float64, Price}
use optionx_assignment.Ledger.{Update}

-- What readLoop makes of a control message: the two actions it knows, any other action, and a
-- message that does not decode.
pub data Control : Type 0 where
  subscribe : List String → Control
  unsubscribe : List String → Control
  unknown_action : List String → Control
  malformed : Control

-- A Go `map[string]struct{}`.
abbrev pub TokenSet : Type 0
TokenSet = Dict Unit

unfoldable pub add_all : List String → TokenSet → TokenSet
add_all [] s = s
add_all (t ∷ ts) s = add_all ts (put t tt s)

unfoldable pub remove_all : List String → TokenSet → TokenSet
remove_all [] s = s
remove_all (t ∷ ts) s = remove_all ts (remove t s)

abbrev pub is_member : String → TokenSet → Bool
is_member t s = elim (get t s) [ none ↦ false | some u ↦ true ]

abbrev pub is_empty {ℓ} : {A : Type ℓ} → List A → Bool
is_empty [] = true
is_empty (x ∷ xs) = false

-- Whether receive lets a token's updates through: an empty set of subscriptions is no filter.
unfoldable pub passes : TokenSet → String → Bool
passes subs t = is_empty subs || is_member t subs

module _ ⦃fl : Float64⦄ where
  pub record Client : Type 0 where
    pub subs : TokenSet
    pub buf : Dict Update
    pub sent : List Update

  abbrev pub new_client : Client
  new_client = record { subs = []; buf = []; sent = [] }

  -- One message of readLoop.
  unfoldable pub control : Client → Control → Client
  control c (subscribe ts) = record c { subs = add_all ts c.subs }
  control c (unsubscribe ts) = record c { subs = remove_all ts c.subs }
  control c (unknown_action ts) = c
  control c malformed = c

  unfoldable pub receive : Client → Update → Client
  receive c u =
      if not (is_empty c.subs) && not (is_member u.token c.subs)
      then c
      else record c { buf = put u.token u c.buf }

  -- The updates of a drained buffer, in the order in which the map range visits its keys.
  unfoldable pub pending_updates : List String → Dict Update → List Update
  pending_updates [] buf = []
  pending_updates (t ∷ ts) buf =
      let rest = pending_updates ts buf in elim (get t buf) [ none ↦ rest | some u ↦ u ∷ rest ]

  -- The write loop of flush: the connection takes as many updates as `room`, then a write fails.
  unfoldable pub write_all : ℕ → List Update → List Update × Bool
  write_all room [] = ([], true)
  write_all zero (u ∷ us) = ([], false)
  write_all (suc room) (u ∷ us) = let (sent, ok) = write_all room us in (u ∷ sent, ok)

  -- The connection at one flush: whether the deadline could be set, and how many writes succeed.
  pub record Connection : Type 0 where
    pub deadline_set : Bool
    pub room : ℕ

  -- The buffer is empty from the moment it is drained, whatever the writes do; `sent` is every update
  -- that was written, oldest first. The second component is flush's result.
  unfoldable pub flush : (Dict Update → List String) → Connection → Client → Client × Bool
  flush order conn c =
      let drained = record c { buf = [] } in
      let (sent, ok) = write_all conn.room (pending_updates (order c.buf) c.buf) in
      if is_empty c.buf
      then (c, true)
      else if not conn.deadline_set
      then (drained, false)
      else (record drained { sent = c.sent ++ sent }, ok)

  -- The hub's `map[*Client]struct{}`: each client is reached by its address, here a name.
  abbrev pub Hub : Type 0
  Hub = Dict Client

  unfoldable pub register : Hub → String → Client → Hub
  register h name c = put name c h

  unfoldable pub unregister : Hub → String → Hub
  unregister h name = remove name h

  unfoldable pub publish_to : Hub → Update → Hub
  publish_to [] u = []
  publish_to ((name, c) ∷ h) u = (name, receive c u) ∷ publish_to h u

  unfoldable pub client_count : Hub → ℕ
  client_count [] = 0
  client_count (c ∷ h) = suc (client_count h)
