-- ===== src/Actor/Answering.antt =====
-- The callers of internal/instrument/actor.go that wait for a reply: what the run loop still has to do
-- for one of them.
use optionx_assignment.Common.{
  ℕ, true, List, [], ◌∷◌, ◌++◌, Option, none, some, eqb, ◌≡◌, ◌⊎◌, refl, sym, subst, inl, inr,
  Bool-cases, arith,
}
use optionx_assignment.Float.{Float64}
use optionx_assignment.Actor.Messages.{
  Message, Reply, place_order, cancel_order, tick, snapshot, place_bracket, cancel_done,
}
use optionx_assignment.Actor.State.{ActorState}
use optionx_assignment.Actor.Filling.{Schedule}
use optionx_assignment.Actor.Handle.{handle}
use optionx_assignment.Actor.Steps.{IsKeyed}
use optionx_assignment.Actor.Sound.{AreSound}
use optionx_assignment.Actor.Cancelling.{handle-Answered}
use optionx_assignment.Actor.Mailbox.{
  Phase, waiting, once_sent, Sent, Handled, System, put_reply, take_message, enter, accept_message,
}
use optionx_assignment.Actor.Sequential.{same_number, sent_of, sent_of-append}

module _ ⦃fl : Float64⦄ where
  -- A message with a reply channel.
  abbrev pub IsAsking : Message → Type 0
  IsAsking (tick ltp) = ⊥
  IsAsking _ = Unit

  abbrev pub IsAskedBy : ℕ → List Sent → Type 0
  IsAskedBy c [] = ⊥
  IsAskedBy c (x ∷ xs) = ((x.call ≡ c) × IsAsking x.message) ⊎ IsAskedBy c xs

  pub record HasReply (replies : ℕ → Option Reply) (c : ℕ) : Type 0 where
    pub reply : Reply
    pub there : replies c ≡ some reply

  -- A call that waits has been accepted, and one whose message was handled has its reply.
  pub record IsAnswering (s : System) : Type 0 where
    pub waits : (c : ℕ) → s.phases c ≡ waiting → IsAskedBy c s.accepted
    pub answers : (c : ℕ) → IsAskedBy c (sent_of s.handled) → HasReply s.replies c

  IsAskedBy-left : (c : ℕ) (xs ys : List Sent) → IsAskedBy c xs → IsAskedBy c (xs ++ ys)
  IsAskedBy-left c (x ∷ xs) ys (inl h) = inl h
  IsAskedBy-left c (x ∷ xs) ys (inr m) = inr (IsAskedBy-left c xs ys m)
  IsAskedBy-left c [] ys m = absurd m

  IsAskedBy-last :
      (c : ℕ) (xs : List Sent) (x : Sent)
      → (x.call ≡ c) × IsAsking x.message
      → IsAskedBy c (xs ++ (x ∷ []))
  IsAskedBy-last c [] x h = inl h
  IsAskedBy-last c (y ∷ ys) x h = inr (IsAskedBy-last c ys x h)

  IsAskedBy-concat :
      (c : ℕ) (xs : List Sent) (x : Sent)
      → IsAskedBy c (xs ++ (x ∷ []))
      → IsAskedBy c xs ⊎ (x.call ≡ c) × IsAsking x.message
  IsAskedBy-concat c [] x (inl h) = inr h
  IsAskedBy-concat c [] x (inr m) = absurd m
  IsAskedBy-concat c (y ∷ ys) x (inl h) = inl (inl h)
  IsAskedBy-concat c (y ∷ ys) x (inr m) = elim (IsAskedBy-concat c ys x m) [
    | inl i ↦ inl (inr i)
    | inr e ↦ inr e
  ]

  once_sent-IsAsking : (m : Message) → once_sent m ≡ waiting → IsAsking m
  once_sent-IsAsking (tick ltp) h = cc h
  once_sent-IsAsking (place_order o) h = tt
  once_sent-IsAsking (cancel_order id) h = tt
  once_sent-IsAsking snapshot h = tt
  once_sent-IsAsking (place_bracket entry t p) h = tt

  -- Every message with a reply channel gets a reply.
  handle_replies :
      (sched : Schedule) (s : ActorState) (m : Message)
      → IsKeyed s.orders
      → AreSound s
      → IsAsking m
      → (r : Reply) × ((handle sched s m).1 ≡ some r)
  unfolding handle
  handle_replies sched s (place_order o) k v w = (_, refl)
  handle_replies sched s (cancel_order id) k v w =
      let h = handle-Answered sched s id k (λ j o g. (v j o g).known) in
      (cancel_done h.result, h.reply)
  handle_replies sched s (tick ltp) k v w = absurd w
  handle_replies sched s snapshot k v w = (_, refl)
  handle_replies sched s (place_bracket entry t p) k v w = (_, refl)

  pub enter-IsAnswering :
      (s : System) (c : ℕ) (p : Phase) → IsAnswering s → ¬ (p ≡ waiting) → IsAnswering (enter s c p)
  enter-IsAnswering s c p i n = record {
    waits = λ k. elim (Bool-cases (eqb k c)) [
      | inl h ↦ rw h (λ w. absurd (n w))
      | inr h ↦ rw h (i.waits k)
    ];
    answers = i.answers;
  }

  pub accept-IsAnswering :
      (s : System) (x : Sent) → IsAnswering s → IsAnswering (accept_message s x)
  unfolding accept_message
  accept-IsAnswering s x i = record {
    waits = λ k. elim (Bool-cases (eqb k x.call)) [
      | inl h ↦ rw h (λ w.
          IsAskedBy-last k s.accepted x
            (sym (same_number k x.call h), once_sent-IsAsking x.message w))
      | inr h ↦ rw h (λ w. IsAskedBy-left k s.accepted (x ∷ []) (i.waits k w))
    ];
    answers = i.answers;
  }

  -- A reply that is there stays, or gives way to another.
  put_reply-kept :
      (replies : ℕ → Option Reply) (c k : ℕ) (o : Option Reply) (r : Reply)
      → replies k ≡ some r
      → (q : Reply) × (put_reply replies c o k ≡ some q)
  put_reply-kept replies c k none r h = (r, h)
  put_reply-kept replies c k (some q) r h = elim (Bool-cases (eqb k c)) [
    | inl e ↦ rw e (q, refl)
    | inr e ↦ rw e (r, h)
  ]

  put_reply-own :
      (replies : ℕ → Option Reply) (c k : ℕ) (o : Option Reply) (r : Reply)
      → c ≡ k
      → o ≡ some r
      → put_reply replies c o k ≡ some r
  put_reply-own replies c k o r e h =
      let same : eqb k c ≡ true = ground arith in rw h (rw same refl)

  pub take-IsAnswering :
      (s : System) (sched : Schedule) (x : Sent) (rest : List Sent)
      → IsKeyed s.actor.orders
      → AreSound s.actor
      → IsAnswering s
      → IsAnswering (take_message s sched x rest)
  unfolding take_message
  take-IsAnswering s sched x rest k v i =
      let h : Handled = record { sent = x; schedule = sched } in
      let o = (handle sched s.actor x.message).1 in
      record {
        waits = i.waits;
        answers = λ c m.
            elim (IsAskedBy-concat c (sent_of s.handled) x
              (subst (IsAskedBy c) (sent_of-append s.handled (h ∷ [])) m)) [
                | inl old ↦
                    let r = i.answers c old in
                    let (q, e) = put_reply-kept s.replies x.call c o r.reply r.there in
                    record { reply = q; there = e }
                | inr (same, w) ↦
                    let (r, e) = handle_replies sched s.actor x.message k v w in
                    record { reply = r; there = put_reply-own s.replies x.call c o r same e }
              ];
      }
