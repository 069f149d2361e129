-- ===== src/Actor/Interleaving.antt =====
-- Every step of the goroutines of internal/instrument/actor.go keeps what the handled messages, taken as
-- one sequence, say of the state, the inbox and the replies.
use optionx_assignment.Common.{
  ℕ, ◌<◌, ◌≤◌, List, [], ◌∷◌, ◌++◌, append_assoc, Option, none, some, length, eqb, ◌≡◌, inl, inr,
  refl, sym, ◌∙◌, ap, subst, arith, Bool-cases,
}
use optionx_assignment.Float.{Float64}
use optionx_assignment.Actor.Messages.{
  Message, Reply, place_order, cancel_order, tick, snapshot, place_bracket,
}
use optionx_assignment.Actor.State.{ActorState}
use optionx_assignment.Actor.Filling.{Schedule}
use optionx_assignment.Actor.Handle.{handle, run}
use optionx_assignment.Actor.Mailbox.{
  inbox_size, CallError, stopped, context_done, Phase, sending, replied, not_sent, no_reply,
  once_sent, Sent, Handled, System, put_reply, take_message, enter, accept_message, Step, call,
  send, send_stopped, send_cancelled, take, receive, wait_stopped, wait_cancelled, stop, Reach,
  here, next, started,
}
use optionx_assignment.Actor.Sequential.{
  same_number, other_number, length-concat, messages_of, sent_of, IsCallOf, IsUnsent, IsReplyTo,
  IsSequential, messages_of-append, sent_of-append, run-append, IsCallOf-concat, AreOnce-concat,
  IsReplyTo-concat, enter-IsSequential,
}

module _ ⦃fl : Float64⦄ where
  once_sent-accepted : (m : Message) → ¬ IsUnsent (once_sent m)
  once_sent-accepted (tick ltp) u = u
  once_sent-accepted (place_order o) u = u
  once_sent-accepted (cancel_order id) u = u
  once_sent-accepted snapshot u = u
  once_sent-accepted (place_bracket e t p) u = u

  once_sent-not_replied : (m : Message) (r : Reply) → ¬ (once_sent m ≡ replied r)
  once_sent-not_replied (tick ltp) r e = cc e
  once_sent-not_replied (place_order o) r e = cc e
  once_sent-not_replied (cancel_order id) r e = cc e
  once_sent-not_replied snapshot r e = cc e
  once_sent-not_replied (place_bracket entry t p) r e = cc e

  -- A phase in which the call has not been accepted gives way to one that shows no reply.
  enter_unsent-IsSequential :
      (a : ActorState) (s : System) (c : ℕ) (p : Phase)
      → IsSequential a s
      → IsUnsent (s.phases c)
      → ((r : Reply) → ¬ (p ≡ replied r))
      → IsSequential a (enter s c p)
  enter_unsent-IsSequential a s c p i u v =
      enter-IsSequential a s c p i (λ w. i.unsent c u) (λ r e. absurd (v r e))

  -- A phase that is neither before the acceptance nor after a reply.
  enter_lost-IsSequential :
      (a : ActorState) (s : System) (c : ℕ) (e : CallError)
      → IsSequential a s
      → IsSequential a (enter s c (no_reply e))
  enter_lost-IsSequential a s c e i =
      enter-IsSequential a s c (no_reply e) i (λ w. absurd w) (λ r h. cc h)

  accept-unsent :
      (a : ActorState) (s : System) (x : Sent) (k : ℕ)
      → IsSequential a s
      → IsUnsent ((accept_message s x).phases k)
      → ¬ IsCallOf k (accept_message s x).accepted
  unfolding accept_message
  accept-unsent a s x k i = elim (Bool-cases (eqb k x.call)) [
    | inl h ↦ rw h (λ u m. once_sent-accepted x.message u)
    | inr h ↦ rw h (λ u m. elim (IsCallOf-concat k s.accepted x m) [
      | inl j ↦ i.unsent k u j
      | inr e ↦ other_number k x.call h e
    ])
  ]

  accept-answers :
      (a : ActorState) (s : System) (x : Sent) (k : ℕ) (r : Reply)
      → IsSequential a s
      → (accept_message s x).phases k ≡ replied r
      → IsReplyTo a s.handled k r
  unfolding accept_message
  accept-answers a s x k r i = elim (Bool-cases (eqb k x.call)) [
    | inl h ↦ rw h (λ e. absurd (once_sent-not_replied x.message r e))
    | inr h ↦ rw h (i.answers k r)
  ]

  accept-IsSequential :
      (a : ActorState) (s : System) (x : Sent)
      → IsSequential a s
      → s.phases x.call ≡ sending x.message
      → length s.inbox < inbox_size
      → IsSequential a (accept_message s x)
  unfolding accept_message
  accept-IsSequential a s x i p l = record {
    state = i.state;
    order = ap (λ xs. xs ++ (x ∷ [])) i.order ∙ append_assoc (sent_of s.handled) s.inbox (x ∷ []);
    bounded = omega (arith, length-concat s.inbox x);
    once = AreOnce-concat s.accepted x i.once (i.unsent x.call (subst IsUnsent (sym p) tt));
    unsent = λ k. accept-unsent a s x k i;
    channels = i.channels;
    answers = λ k r. accept-answers a s x k r i;
  }

  -- The reply of a message just taken.
  put_reply-channels :
      (a : ActorState) (s : System) (h : Handled) (o : Option Reply) (k : ℕ) (r : Reply)
      → IsSequential a s
      → (handle h.schedule s.actor h.sent.message).1 ≡ o
      → put_reply s.replies h.sent.call o k ≡ some r
      → IsReplyTo a (s.handled ++ (h ∷ [])) k r
  put_reply-channels a s h none k r i q = λ e. IsReplyTo-concat a s.handled k r h (i.channels k r e)
  put_reply-channels a s h (some r') k r i q = elim (Bool-cases (eqb k h.sent.call)) [
    | inl b ↦ rw b (λ e. record {
      before = s.handled;
      this = h;
      after = [];
      split = refl;
      mine = sym (same_number k h.sent.call b);
      answer = subst (λ t. (handle h.schedule t h.sent.message).1 ≡ some r) i.state (q ∙ e);
    })
    | inr b ↦ rw b (λ e. IsReplyTo-concat a s.handled k r h (i.channels k r e))
  ]

  take-IsSequential :
      (a : ActorState) (s : System) (sched : Schedule) (x : Sent) (rest : List Sent)
      → IsSequential a s
      → s.inbox ≡ x ∷ rest
      → IsSequential a (take_message s sched x rest)
  unfolding take_message run
  take-IsSequential a s sched x rest i q =
      let h : Handled = record { sent = x; schedule = sched } in
      record {
        state =
            ap (λ t. (handle sched t x.message).0) i.state
            ∙ sym (run-append a (messages_of s.handled) (messages_of (h ∷ [])))
            ∙ ap (run a) (sym (messages_of-append s.handled (h ∷ [])));
        order =
            i.order
            ∙ ap (λ xs. sent_of s.handled ++ xs) q
            ∙ sym (append_assoc (sent_of s.handled) (x ∷ []) rest)
            ∙ ap (λ xs. xs ++ rest) (sym (sent_of-append s.handled (h ∷ [])));
        bounded = omega (arith, subst (λ xs. length xs ≤ inbox_size) q i.bounded);
        once = i.once;
        unsent = i.unsent;
        channels = λ k r. put_reply-channels a s h (handle sched s.actor x.message).1 k r i refl;
        answers = λ k r e. IsReplyTo-concat a s.handled k r h (i.answers k r e);
      }

  Step-IsSequential :
      (a : ActorState) {s t : System} → Step s t → IsSequential a s → IsSequential a t
  Step-IsSequential a {s} (call c m p) i =
      enter_unsent-IsSequential a s c (sending m) i (subst IsUnsent (sym p) tt) (λ r e. cc e)
  Step-IsSequential a {s} (send x p l) i = accept-IsSequential a s x i p l
  Step-IsSequential a {s} (send_stopped c m p h) i =
      enter_unsent-IsSequential a s c (not_sent stopped) i (subst IsUnsent (sym p) tt) (λ r e. cc e)
  Step-IsSequential a {s} (send_cancelled c m p) i =
      enter_unsent-IsSequential a s c (not_sent context_done) i (subst IsUnsent (sym p) tt)
        (λ r e. cc e)
  Step-IsSequential a {s} (take sched x rest h q) i = take-IsSequential a s sched x rest i q
  Step-IsSequential a {s} (receive c r p q) i =
      enter-IsSequential a s c (replied r) i (λ w. absurd w) (λ r2 e. i.channels c r2 (cc (q, e)))
  Step-IsSequential a {s} (wait_stopped c p h) i = enter_lost-IsSequential a s c stopped i
  Step-IsSequential a {s} (wait_cancelled c p) i = enter_lost-IsSequential a s c context_done i
  Step-IsSequential a {s} (stop h) i = record {
    state = i.state;
    order = i.order;
    bounded = i.bounded;
    once = i.once;
    unsent = i.unsent;
    channels = i.channels;
    answers = i.answers;
  }

  started-IsSequential : (a : ActorState) → IsSequential a (started a)
  unfolding started run
  started-IsSequential a = record {
    state = refl;
    order = refl;
    bounded = omega arith;
    once = tt;
    unsent = λ c u m. m;
    channels = λ c r e. cc e;
    answers = λ c r e. cc e;
  }

  -- Whatever the interleaving: the state is that of one run over the messages handled, in the order of
  -- acceptance, and the inbox holds the others, 128 at most; no call is accepted twice, and none that
  -- was not sent; and every reply is the handler's, at the place of the call in that run.
  pub Reach-IsSequential : (a : ActorState) {s : System} → Reach (started a) s → IsSequential a s
  Reach-IsSequential a here = started-IsSequential a
  Reach-IsSequential a (next w z) = Step-IsSequential a z (Reach-IsSequential a w)
