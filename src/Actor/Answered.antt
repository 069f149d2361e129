-- ===== src/Actor/Answered.antt =====
-- A caller that waits in internal/instrument/actor.go: as long as the run loop runs, it can come to its
-- reply.
use optionx_assignment.Common.{
  ℕ, true, List, [], ◌∷◌, ◌++◌, append-nil, eqb, ◌≡◌, refl, sym, ◌∙◌, ap, subst, arith,
}
use optionx_assignment.Float.{Float64}
use optionx_assignment.Actor.Messages.{Reply}
use optionx_assignment.Actor.State.{ActorState}
use optionx_assignment.Actor.Filling.{Schedule}
use optionx_assignment.Actor.Steps.{IsKeyed}
use optionx_assignment.Actor.Keyed.{Steps-IsKeyed}
use optionx_assignment.Actor.RefineHandle.{run-Steps}
use optionx_assignment.Actor.Sound.{AreSound, run-AreSound}
use optionx_assignment.Actor.Mailbox.{
  waiting, replied, Sent, System, take_message, enter, call, send, send_stopped, send_cancelled,
  take, receive, wait_stopped, wait_cancelled, stop, Reach, here, next, started,
}
use optionx_assignment.Actor.Sequential.{messages_of, sent_of}
use optionx_assignment.Actor.Interleaving.{Reach-IsSequential}
use optionx_assignment.Actor.Answering.{
  IsAskedBy, IsAnswering, enter-IsAnswering, accept-IsAnswering, take-IsAnswering,
}

module _ ⦃fl : Float64⦄ where
  module _ (a : ActorState) (k : IsKeyed a.orders) (v : AreSound a) where
    reached-IsKeyed : {s : System} → Reach (started a) s → IsKeyed s.actor.orders
    reached-IsKeyed {s} w =
        let i = Reach-IsSequential a w in
        subst (λ t. IsKeyed t.orders) (sym i.state)
          (Steps-IsKeyed (run-Steps a (messages_of s.handled) k) k)

    reached-AreSound : {s : System} → Reach (started a) s → AreSound s.actor
    reached-AreSound {s} w =
        let i = Reach-IsSequential a w in
        subst AreSound (sym i.state) (run-AreSound a (messages_of s.handled) k v)

    Reach-IsAnswering : {s : System} → Reach (started a) s → IsAnswering s
    unfolding started
    Reach-IsAnswering here = record { waits = λ c h. cc h; answers = λ c m. absurd m }
    Reach-IsAnswering (next {t} w (call c m p)) =
        enter-IsAnswering t c _ (Reach-IsAnswering w) (λ h. cc h)
    Reach-IsAnswering (next {t} w (send x p l)) = accept-IsAnswering t x (Reach-IsAnswering w)
    Reach-IsAnswering (next {t} w (send_stopped c m p h)) =
        enter-IsAnswering t c _ (Reach-IsAnswering w) (λ h. cc h)
    Reach-IsAnswering (next {t} w (send_cancelled c m p)) =
        enter-IsAnswering t c _ (Reach-IsAnswering w) (λ h. cc h)
    Reach-IsAnswering (next {t} w (take sched x rest h q)) =
        take-IsAnswering t sched x rest (reached-IsKeyed w) (reached-AreSound w)
          (Reach-IsAnswering w)
    Reach-IsAnswering (next {t} w (receive c r p q)) =
        enter-IsAnswering t c _ (Reach-IsAnswering w) (λ h. cc h)
    Reach-IsAnswering (next {t} w (wait_stopped c p h)) =
        enter-IsAnswering t c _ (Reach-IsAnswering w) (λ h. cc h)
    Reach-IsAnswering (next {t} w (wait_cancelled c p)) =
        enter-IsAnswering t c _ (Reach-IsAnswering w) (λ h. cc h)
    Reach-IsAnswering (next {t} w (stop h)) =
        let i = Reach-IsAnswering w in record { waits = i.waits; answers = i.answers }

  Reach-trans : {s t u : System} → Reach s t → Reach t u → Reach s u
  Reach-trans p here = p
  Reach-trans p (next q z) = next (Reach-trans p q) z

  -- The run loop has taken everything from the inbox, and the callers have not moved.
  record IsDrained (s : System) : Type 0 where
    after : System
    reached : Reach s after
    empty : after.inbox ≡ []
    still : after.phases ≡ s.phases

  drained :
      (sched : Schedule) (xs : List Sent) (s : System)
      → s.running ≡ true
      → s.inbox ≡ xs
      → IsDrained s
  unfolding take_message
  drained sched [] s r q = record { after = s; reached = here; empty = q; still = refl }
  drained sched (x ∷ xs) s r q =
      let d = drained sched xs (take_message s sched x xs) r refl in
      record {
        after = d.after;
        reached = Reach-trans (next here (take sched x xs r q)) d.reached;
        empty = d.empty;
        still = d.still;
      }

  -- Steps after which the call has returned with a reply.
  pub record CanReturn (s : System) (c : ℕ) : Type 0 where
    pub after : System
    pub reply : Reply
    pub reached : Reach s after
    pub returned : after.phases c ≡ replied reply

  -- Let an actor start with orders under their ids, each of its token, valid and with one of the four
  -- statuses. Then in every interleaving, a call that waits while the run loop runs can still come to a
  -- reply, in whichever order the map is visited: no step that was taken has blocked it.
  pub waiting-CanReturn :
      (a : ActorState)
      → IsKeyed a.orders
      → AreSound a
      → (sched : Schedule) (s : System) (c : ℕ) → Reach (started a) s
      → s.running ≡ true
      → s.phases c ≡ waiting
      → CanReturn s c
  waiting-CanReturn a k v sched s c w r p =
      let d = drained sched s.inbox s r refl in
      let t = d.after in
      let all = Reach-trans w d.reached in
      let i = Reach-IsSequential a all in
      let j = Reach-IsAnswering a k v all in
      let waits : t.phases c ≡ waiting = ap (λ f. f c) d.still ∙ p in
      let handled : t.accepted ≡ sent_of t.handled =
        i.order ∙ ap (λ xs. sent_of t.handled ++ xs) d.empty ∙ append-nil (sent_of t.handled) in
      let h = j.answers c (subst (IsAskedBy c) handled (j.waits c waits)) in
      record {
        after = enter t c (replied h.reply);
        reply = h.reply;
        reached = next d.reached (receive c h.reply waits h.there);
        returned = let same : eqb c c ≡ true = ground arith in rw same refl;
      }
