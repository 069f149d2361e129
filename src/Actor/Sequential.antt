-- ===== src/Actor/Sequential.antt =====
-- The goroutines of internal/instrument/actor.go, in any interleaving, come to one sequence of
-- messages.
use optionx_assignment.Common.{
  ℕ, ◌≤◌, suc, true, false, List, [], ◌∷◌, ◌++◌, append_assoc, some, length, eqb, ◌≡◌, ◌⊎◌, inl,
  inr, refl, sym, ◌∙◌, ap, subst, arith, Bool-cases,
}
use optionx_assignment.Float.{Float64}
use optionx_assignment.Actor.Messages.{Message, Reply}
use optionx_assignment.Actor.State.{ActorState}
use optionx_assignment.Actor.Filling.{Schedule}
use optionx_assignment.Actor.Handle.{handle, run}
use optionx_assignment.Actor.Mailbox.{
  inbox_size, Phase, idle, sending, replied, not_sent, Sent, Handled, System, enter,
}

pub same_number : (k c : ℕ) → eqb k c ≡ true → k ≡ c
same_number k c h = ground arith

pub other_number : (k c : ℕ) → eqb k c ≡ false → ¬ (c ≡ k)
other_number k c h e = ground arith

pub length-concat {ℓ} :
    {A : Type ℓ} (xs : List A) (x : A) → length (xs ++ (x ∷ [])) ≡ suc (length xs)
length-concat [] x = refl
length-concat (y ∷ ys) x = omega (arith, length-concat ys x)

module _ ⦃fl : Float64⦄ where
  -- What was handled, as the messages of a run.
  abbrev pub messages_of : List Handled → List (Schedule × Message)
  messages_of [] = []
  messages_of (h ∷ hs) = (h.schedule, h.sent.message) ∷ messages_of hs

  abbrev pub sent_of : List Handled → List Sent
  sent_of [] = []
  sent_of (h ∷ hs) = h.sent ∷ sent_of hs

  abbrev pub IsCallOf : ℕ → List Sent → Type 0
  IsCallOf c [] = ⊥
  IsCallOf c (x ∷ xs) = (x.call ≡ c) ⊎ IsCallOf c xs

  -- No call twice.
  abbrev pub AreOnce : List Sent → Type 0
  AreOnce [] = Unit
  AreOnce (x ∷ xs) = (¬ IsCallOf x.call xs) × AreOnce xs

  -- The call has not been accepted, or its send failed.
  abbrev pub IsUnsent : Phase → Type 0
  IsUnsent idle = Unit
  IsUnsent (sending m) = Unit
  IsUnsent (not_sent e) = Unit
  IsUnsent _ = ⊥

  -- The reply is the handler's, to a message of the call, in the state that the messages handled before
  -- it lead to.
  pub record IsReplyTo (a : ActorState) (hs : List Handled) (c : ℕ) (r : Reply) : Type 0 where
    pub before : List Handled
    pub this : Handled
    pub after : List Handled
    pub split : hs ≡ before ++ (this ∷ after)
    pub mine : this.sent.call ≡ c
    pub answer : (handle this.schedule (run a (messages_of before)) this.sent.message).1 ≡ some r

  pub record IsSequential (a : ActorState) (s : System) : Type 0 where
    pub state : s.actor ≡ run a (messages_of s.handled)
    pub order : s.accepted ≡ sent_of s.handled ++ s.inbox
    pub bounded : length s.inbox ≤ inbox_size
    pub once : AreOnce s.accepted
    pub unsent : (c : ℕ) → IsUnsent (s.phases c) → ¬ IsCallOf c s.accepted
    pub channels : (c : ℕ) (r : Reply) → s.replies c ≡ some r → IsReplyTo a s.handled c r
    pub answers : (c : ℕ) (r : Reply) → s.phases c ≡ replied r → IsReplyTo a s.handled c r

  pub messages_of-append :
      (xs ys : List Handled) → messages_of (xs ++ ys) ≡ messages_of xs ++ messages_of ys
  messages_of-append [] ys = refl
  messages_of-append (x ∷ xs) ys =
      ap (λ zs. (x.schedule, x.sent.message) ∷ zs) (messages_of-append xs ys)

  pub sent_of-append : (xs ys : List Handled) → sent_of (xs ++ ys) ≡ sent_of xs ++ sent_of ys
  sent_of-append [] ys = refl
  sent_of-append (x ∷ xs) ys = ap (λ zs. x.sent ∷ zs) (sent_of-append xs ys)

  pub run-append :
      (a : ActorState) (xs ys : List (Schedule × Message)) → run a (xs ++ ys) ≡ run (run a xs) ys
  unfolding run
  run-append a [] ys = refl
  run-append a ((sched, m) ∷ xs) ys = run-append (handle sched a m).0 xs ys

  pub IsCallOf-concat :
      (c : ℕ) (xs : List Sent) (x : Sent)
      → IsCallOf c (xs ++ (x ∷ []))
      → IsCallOf c xs ⊎ (x.call ≡ c)
  IsCallOf-concat c [] x (inl e) = inr e
  IsCallOf-concat c [] x (inr e) = absurd e
  IsCallOf-concat c (y ∷ ys) x (inl e) = inl (inl e)
  IsCallOf-concat c (y ∷ ys) x (inr m) = elim (IsCallOf-concat c ys x m) [
    | inl i ↦ inl (inr i)
    | inr e ↦ inr e
  ]

  pub AreOnce-concat :
      (xs : List Sent) (x : Sent) → AreOnce xs → ¬ IsCallOf x.call xs → AreOnce (xs ++ (x ∷ []))
  AreOnce-concat [] x o n = (λ i. i, tt)
  AreOnce-concat (y ∷ ys) x o n = (
    λ i. elim (IsCallOf-concat y.call ys x i) [ inl j ↦ o.0 j | inr e ↦ n (inl (sym e)) ],
    AreOnce-concat ys x o.1 (λ i. n (inr i)),
  )

  pub IsReplyTo-concat :
      (a : ActorState) (hs : List Handled) (c : ℕ) (r : Reply) (h : Handled)
      → IsReplyTo a hs c r
      → IsReplyTo a (hs ++ (h ∷ [])) c r
  IsReplyTo-concat a hs c r h i = record {
    before = i.before;
    this = i.this;
    after = i.after ++ (h ∷ []);
    split = ap (λ xs. xs ++ (h ∷ [])) i.split ∙ append_assoc i.before (i.this ∷ i.after) (h ∷ []);
    mine = i.mine;
    answer = i.answer;
  }

  -- Only the phase of one call changes.
  pub enter-IsSequential :
      (a : ActorState) (s : System) (c : ℕ) (p : Phase)
      → IsSequential a s
      → (IsUnsent p → ¬ IsCallOf c s.accepted)
      → ((r : Reply) → p ≡ replied r → IsReplyTo a s.handled c r)
      → IsSequential a (enter s c p)
  enter-IsSequential a s c p i u v = record {
    state = i.state;
    order = i.order;
    bounded = i.bounded;
    once = i.once;
    unsent = λ k. elim (Bool-cases (eqb k c)) [
      | inl h ↦ rw h (λ w. subst (λ j. ¬ IsCallOf j s.accepted) (sym (same_number k c h)) (u w))
      | inr h ↦ rw h (i.unsent k)
    ];
    channels = i.channels;
    answers = λ k r. elim (Bool-cases (eqb k c)) [
      | inl h ↦ rw h (λ e. subst (λ j. IsReplyTo a s.handled j r) (sym (same_number k c h)) (v r e))
      | inr h ↦ rw h (i.answers k r)
    ];
  }
