-- ===== src/Actor/Mailbox.antt =====
-- internal/instrument/actor.go as its goroutines see it: callers send messages to a bounded inbox, the
-- run loop takes them out one by one, and every wait also ends with the actor or with the caller's
-- context. Which of the possible steps comes next is open.
use optionx_assignment.Common.{
  ℕ, ◌<◌, Bool, true, false, List, [], ◌∷◌, ◌++◌, Option, none, some, length, eqb, ◌≡◌,
  if◌then◌else◌,
}
use optionx_assignment.Float.{Float64}
use optionx_assignment.Actor.Messages.{Message, Reply, tick}
use optionx_assignment.Actor.State.{ActorState}
use optionx_assignment.Actor.Filling.{Schedule}
use optionx_assignment.Actor.Handle.{handle}

-- `make(chan message, 128)`.
abbrev pub inbox_size : ℕ
inbox_size = 128

-- errStopped, or the error of the caller's context.
pub data CallError : Type 0 where
  stopped context_done : CallError

abbrev pub update {ℓ} : {A : Type ℓ} → (ℕ → A) → ℕ → A → ℕ → A
update f c v k = if eqb k c then v else f k

module _ ⦃fl : Float64⦄ where
  -- Where one call is, by its number. The last four are how PlaceOrder, CancelOrder, PlaceBracket,
  -- Snapshot and Tick return: with the reply, at once for a tick, or with an error of `send` or of the
  -- wait for the reply.
  pub data Phase : Type 0 where
    idle : Phase
    sending : Message → Phase
    waiting : Phase
    replied : Reply → Phase
    delivered : Phase
    not_sent no_reply : CallError → Phase

  -- Tick does not wait.
  abbrev pub once_sent : Message → Phase
  once_sent (tick ltp) = delivered
  once_sent _ = waiting

  pub record Sent : Type 0 where
    pub call : ℕ
    pub message : Message

  -- A message that the run loop has handled, in the order in which it then visited the map.
  pub record Handled : Type 0 where
    pub sent : Sent
    pub schedule : Schedule

  -- The actor, its channels and its callers. `replies` is what was written to the reply channel of each
  -- call, which only that call reads, and only once. The last two fields are no code: what the inbox has
  -- accepted, and what was handled, oldest first.
  pub record System : Type 0 where
    pub actor : ActorState
    pub running : Bool
    pub inbox : List Sent
    pub replies : ℕ → Option Reply
    pub phases : ℕ → Phase
    pub accepted : List Sent
    pub handled : List Handled

  -- `m.Reply <- …`, for a handler that replies.
  abbrev pub put_reply : (ℕ → Option Reply) → ℕ → Option Reply → ℕ → Option Reply
  put_reply replies c none = replies
  put_reply replies c (some r) = update replies c (some r)

  -- The branch of the run loop that takes a message.
  unfoldable pub take_message : System → Schedule → Sent → List Sent → System
  take_message s sched x rest =
      let (a, reply) = handle sched s.actor x.message in
      record s {
        actor = a;
        inbox = rest;
        replies = put_reply s.replies x.call reply;
        handled = s.handled ++ (record { sent = x; schedule = sched } ∷ []);
      }

  abbrev pub enter : System → ℕ → Phase → System
  enter s c p = record s { phases = update s.phases c p }

  -- The branch of `send` that puts the message into the inbox.
  unfoldable pub accept_message : System → Sent → System
  accept_message s x = record s {
    inbox = s.inbox ++ (x ∷ []);
    phases = update s.phases x.call (once_sent x.message);
    accepted = s.accepted ++ (x ∷ []);
  }

  -- A step of a caller, of the run loop or of a context. A send can succeed after the loop has ended:
  -- where several branches of a select are ready, Go takes any.
  pub data Step (s : System) : System → Type 0 where
    call : (c : ℕ) (m : Message) → s.phases c ≡ idle → Step s (enter s c (sending m))
    send :
        (x : Sent)
        → s.phases x.call ≡ sending x.message
        → length s.inbox < inbox_size
        → Step s (accept_message s x)
    send_stopped :
        (c : ℕ) (m : Message)
        → s.phases c ≡ sending m
        → s.running ≡ false
        → Step s (enter s c (not_sent stopped))
    send_cancelled :
        (c : ℕ) (m : Message) → s.phases c ≡ sending m → Step s (enter s c (not_sent context_done))
    take :
        (sched : Schedule) (x : Sent) (rest : List Sent)
        → s.running ≡ true
        → s.inbox ≡ x ∷ rest
        → Step s (take_message s sched x rest)
    receive :
        (c : ℕ) (r : Reply)
        → s.phases c ≡ waiting
        → s.replies c ≡ some r
        → Step s (enter s c (replied r))
    wait_stopped :
        (c : ℕ) → s.phases c ≡ waiting → s.running ≡ false → Step s (enter s c (no_reply stopped))
    wait_cancelled : (c : ℕ) → s.phases c ≡ waiting → Step s (enter s c (no_reply context_done))
    stop : s.running ≡ true → Step s (record s { running = false })

  pub data Reach (s : System) : System → Type 0 where
    here : Reach s s
    next : {t u : System} → Reach s t → Step t u → Reach s u

  -- NewActor or NewPersistentActor, started: `a` is the state that the run loop begins with.
  unfoldable pub started : ActorState → System
  started a = record {
    actor = a;
    running = true;
    inbox = [];
    replies = λ c. none;
    phases = λ c. idle;
    accepted = [];
    handled = [];
  }
