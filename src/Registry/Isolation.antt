-- ===== src/Registry/Isolation.antt =====
-- The actors of one registry (internal/instrument) under calls for different tokens, in any
-- interleaving.
use optionx_assignment.Common.{
  String, List, [], ◌∷◌, Option, none, some, ◌≡◌, refl, ◌∙◌, ap, inl, inr, ◌==◌, str_eq-cases,
  if◌then◌else◌, subst,
}
use optionx_assignment.Float.{Float64}
use optionx_assignment.Actor.Messages.{Message, Reply}
use optionx_assignment.Actor.State.{ActorState}
use optionx_assignment.Registry.{Registry, peek, Exchange, exchange}
use optionx_assignment.Registry.Exchanged.{
  attend, new_actor, actor_at, actor_at-known, SameSetup, Exchanged, exchange-Exchanged,
}

module _ ⦃fl : Float64⦄ where
  -- A call of an actor's method: its token, the message, and how the exchange ends.
  pub record Call : Type 0 where
    pub token : String
    pub message : Message
    pub how : Exchange

  -- The calls one after another, with what each caller gets.
  unfoldable pub exchanges : Registry → List Call → Registry × List (String × Option Reply)
  exchanges r [] = (r, [])
  exchanges r (c ∷ cs) =
      let (r', reply) = exchange r c.token c.message c.how in
      let (after, replies) = exchanges r' cs in (after, (c.token, reply) ∷ replies)

  unfoldable pub calls_of : String → List Call → List (Message × Exchange)
  calls_of token [] = []
  calls_of token (c ∷ cs) =
      let rest = calls_of token cs in if c.token == token then (c.message, c.how) ∷ rest else rest

  unfoldable pub replies_of : String → List (String × Option Reply) → List (Option Reply)
  replies_of token [] = []
  replies_of token ((k, reply) ∷ rs) =
      let rest = replies_of token rs in if k == token then reply ∷ rest else rest

  unfoldable pub attend_all :
      ActorState → List (Message × Exchange) → ActorState × List (Option Reply)
  attend_all a [] = (a, [])
  attend_all a ((m, how) ∷ ms) =
      let (a', reply) = attend a m how in
      let (after, replies) = attend_all a' ms in (after, reply ∷ replies)

  -- The actor of the token behind its own calls: it is made by the first.
  abbrev pub alone : Registry → String → List (Message × Exchange) → Option ActorState
  alone r token [] = peek r token
  alone r token (m ∷ ms) = some (attend_all (actor_at r token) (m ∷ ms)).0

  new_actor-same :
      (r s : Registry) (token : String) → SameSetup r s → new_actor s token ≡ new_actor r token
  new_actor-same r s token e = rw (e.stores, e.seeds, e.publishers) refl

  actor_at-same :
      (r s : Registry) (token : String)
      → SameSetup r s
      → peek s token ≡ peek r token
      → actor_at s token ≡ actor_at r token
  unfolding actor_at
  actor_at-same r s token e g =
      ap (λ o. elim o [ none ↦ new_actor s token | some a ↦ a ]) g
      ∙ ap (λ x. elim (peek r token) [ none ↦ x | some a ↦ a ]) (new_actor-same r s token e)

  alone-same :
      (r s : Registry) (token : String) (ms : List (Message × Exchange))
      → SameSetup r s
      → peek s token ≡ peek r token
      → alone s token ms ≡ alone r token ms
  alone-same r s token [] e g = g
  alone-same r s token (m ∷ ms) e g =
      ap (λ a. some (attend_all a (m ∷ ms)).0) (actor_at-same r s token e g)

  alone-known :
      (r : Registry) (token : String) (a : ActorState) (ms : List (Message × Exchange))
      → peek r token ≡ some a
      → alone r token ms ≡ some (attend_all a ms).0
  unfolding attend_all
  alone-known r token a [] g = g
  alone-known r token a (m ∷ ms) g =
      ap (λ x. some (attend_all x (m ∷ ms)).0) (actor_at-known r token a g)

  -- However the calls of different instruments interleave, the actor of each instrument, and the
  -- replies of the calls for it, are what its own calls alone bring about, in their order.
  pub peek-exchanges :
      (r : Registry) (token : String) (cs : List Call)
      → (peek (exchanges r cs).0 token ≡ alone r token (calls_of token cs))
        × (replies_of token (exchanges r cs).1
            ≡ (attend_all (actor_at r token) (calls_of token cs)).1)
  unfolding exchanges calls_of replies_of attend_all
  peek-exchanges r token [] = (refl, refl)
  peek-exchanges r token (c ∷ cs) =
      let x = exchange-Exchanged r c.token c.message c.how in
      let s = (exchange r c.token c.message c.how).0 in
      let rest = peek-exchanges s token cs in
      elim (str_eq-cases c.token token) [
        | inl (h, e) ↦
            let mine =
              subst (λ k. Exchanged r s k c.message c.how (exchange r c.token c.message c.how).1) e
                x in
            let a = (attend (actor_at r token) c.message c.how).0 in
            rw h (
              rest.0 ∙ alone-known s token a (calls_of token cs) mine.own,
              ap (λ reply. reply ∷ replies_of token (exchanges s cs).1) mine.answer
                  ∙ ap (λ rs. (attend (actor_at r token) c.message c.how).1 ∷ rs)
                      (rest.1
                        ∙ ap (λ b. (attend_all b (calls_of token cs)).1)
                            (actor_at-known s token a mine.own)),
            )
        | inr (h, ne) ↦ rw h (
          rest.0 ∙ alone-same r s token (calls_of token cs) x.setup (x.others token ne),
          rest.1
              ∙ ap (λ a. (attend_all a (calls_of token cs)).1)
                  (actor_at-same r s token x.setup (x.others token ne)),
        )
      ]
