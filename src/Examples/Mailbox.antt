-- ===== src/Examples/Mailbox.antt =====
-- Two callers of one actor: an order is placed while a tick waits behind it in the inbox.
use optionx_assignment.Common.{get, true, ◌≡◌, refl, [], ◌∷◌, none, arith, pos, true}
use optionx_assignment.Actor.Messages.{place_order, tick}
use optionx_assignment.Actor.State.{new_actor_state}
use optionx_assignment.Actor.Mailbox.{
  waiting, Sent, System, Reach, here, next, call, send, take, started, take_message, accept_message,
  enter, sending,
}
use optionx_assignment.Actor.Sequential.{IsSequential}
use optionx_assignment.Actor.Interleaving.{Reach-IsSequential}
use optionx_assignment.Actor.Replies.{take-replies}
use optionx_assignment.Actor.Answered.{CanReturn, waiting-CanReturn}
use optionx_assignment.Actor.Steps.{IsKeyed}
use optionx_assignment.Actor.Sound.{AreSound}
use optionx_assignment.Examples.{cents, in_turn, bid}

abbrev first : Sent
first = record { call = 0; message = place_order bid }

abbrev second : Sent
second = record { call = 1; message = tick (pos 90) }

abbrev idle_actor : System
idle_actor = started (new_actor_state "T" true true)

abbrev both_sent : System
both_sent =
    accept_message
      (enter (accept_message (enter idle_actor 0 (sending (place_order bid))) first) 1
        (sending (tick (pos 90))))
      second

abbrev order_taken : System
order_taken = take_message both_sent in_turn first (second ∷ [])

both_sent-Reach : Reach idle_actor both_sent
unfolding started accept_message
both_sent-Reach =
    next
      (next (next (next here (call 0 (place_order bid) refl)) (send first refl (omega arith)))
        (call 1 (tick (pos 90)) refl))
      (send second refl (omega arith))

order_taken-Reach : Reach idle_actor order_taken
unfolding started accept_message
order_taken-Reach = next both_sent-Reach (take in_turn first (second ∷ []) refl refl)

order_taken_inbox : order_taken.inbox ≡ second ∷ []
unfolding take_message
order_taken_inbox = refl

Reach-IsSequential_example : IsSequential (new_actor_state "T" true true) order_taken
Reach-IsSequential_example = Reach-IsSequential (new_actor_state "T" true true) order_taken-Reach

take-replies_example : order_taken.replies 1 ≡ none
take-replies_example =
    take-replies (new_actor_state "T" true true) order_taken second [] order_taken-Reach
      order_taken_inbox

empty-IsKeyed : IsKeyed (new_actor_state "T" true true).orders
unfolding new_actor_state get
empty-IsKeyed k o g = cc g

empty-AreSound : AreSound (new_actor_state "T" true true)
unfolding new_actor_state get
empty-AreSound k o g = cc g

both_sent_waits : both_sent.phases 0 ≡ waiting
unfolding started accept_message
both_sent_waits = refl

both_sent_runs : both_sent.running ≡ true
unfolding started accept_message
both_sent_runs = refl

waiting-CanReturn_example : CanReturn both_sent 0
waiting-CanReturn_example =
    waiting-CanReturn (new_actor_state "T" true true) empty-IsKeyed empty-AreSound in_turn both_sent
      0 both_sent-Reach both_sent_runs both_sent_waits
