-- ===== src/Actor/Replies.antt =====
-- The reply channels of internal/instrument/actor.go: `make(chan …, 1)`, one for each call.
use optionx_assignment.Common.{
  ℕ, List, [], ◌∷◌, ◌++◌, none, ◌≡◌, inl, inr, sym, ◌∙◌, ap, subst, Option-cases,
}
use optionx_assignment.Float.{Float64}
use optionx_assignment.Actor.Messages.{Reply}
use optionx_assignment.Actor.State.{ActorState}
use optionx_assignment.Actor.Mailbox.{Sent, Handled, System, Reach, started}
use optionx_assignment.Actor.Sequential.{sent_of, IsCallOf, AreOnce, IsReplyTo, sent_of-append}
use optionx_assignment.Actor.Interleaving.{Reach-IsSequential}

module _ ⦃fl : Float64⦄ where
  IsCallOf-append :
      (c : ℕ) (xs : List Sent) (x : Sent) (ys : List Sent)
      → x.call ≡ c
      → IsCallOf c (xs ++ (x ∷ ys))
  IsCallOf-append c [] x ys e = inl e
  IsCallOf-append c (z ∷ zs) x ys e = inr (IsCallOf-append c zs x ys e)

  AreOnce-append :
      (xs : List Sent) (x : Sent) (ys : List Sent) → AreOnce (xs ++ (x ∷ ys)) → ¬ IsCallOf x.call xs
  AreOnce-append [] x ys o m = m
  AreOnce-append (z ∷ zs) x ys o (inl e) = o.0 (IsCallOf-append z.call zs x ys (sym e))
  AreOnce-append (z ∷ zs) x ys o (inr m) = AreOnce-append zs x ys o.1 m

  IsReplyTo-IsCallOf :
      (a : ActorState) (hs : List Handled) (c : ℕ) (r : Reply)
      → IsReplyTo a hs c r
      → IsCallOf c (sent_of hs)
  IsReplyTo-IsCallOf a hs c r i =
      subst (IsCallOf c) (sym (ap sent_of i.split ∙ sent_of-append i.before (i.this ∷ i.after)))
        (IsCallOf-append c (sent_of i.before) i.this.sent (sent_of i.after) i.mine)

  -- Whatever the interleaving, the reply channel of the message that the run loop takes next has never
  -- been written to: the handler's write to it, of capacity one, does not block the actor.
  pub take-replies :
      (a : ActorState) (s : System) (x : Sent) (rest : List Sent)
      → Reach (started a) s
      → s.inbox ≡ x ∷ rest
      → s.replies x.call ≡ none
  take-replies a s x rest w q =
      let i = Reach-IsSequential a w in
      elim (Option-cases (s.replies x.call)) [
        | inl e ↦ e
        | inr (r, e) ↦ absurd (
            AreOnce-append (sent_of s.handled) x rest
              (subst AreOnce (i.order ∙ ap (λ xs. sent_of s.handled ++ xs) q) i.once)
              (IsReplyTo-IsCallOf a s.handled x.call r (i.channels x.call r e)))
      ]
