-- ===== src/Registry/Exchanged.antt =====
-- What one call of an actor by way of its registry (internal/instrument) does: to the actor, to the
-- others, and to what a new actor is made of.
use optionx_assignment.Common.{
  true, false, String, Option, none, some, get, put, get-put_self, get-put_ne, ◌≡◌, ◌≢◌, refl, sym,
  ◌∙◌, ap, inl, inr, Bool-cases, Option-cases, if◌then◌else◌,
}
use optionx_assignment.Float.{Float64}
use optionx_assignment.Actor.Messages.{Message, Reply}
use optionx_assignment.Actor.State.{ActorState}
use optionx_assignment.Actor.Handle.{handle}
use optionx_assignment.Registry.{
  Registry, no_seed, seed_at, start_actor, spawn, actor, peek, Exchange, not_taken, abandoned,
  answered, exchange_at, exchange,
}

module _ ⦃fl : Float64⦄ where
  -- One actor with no registry around it.
  abbrev pub attend : ActorState → Message → Exchange → ActorState × Option Reply
  attend a m not_taken = (a, none)
  attend a m (abandoned sched) = ((handle sched a m).0, none)
  attend a m (answered sched) = handle sched a m

  -- The actor that a registry makes for a token that it has none for.
  abbrev pub new_actor : Registry → String → ActorState
  new_actor r token =
      if r.has_store
      then start_actor token true (seed_at token r.seeds) r.has_publisher
      else start_actor token false no_seed r.has_publisher

  -- The token's actor, or the one that the registry would make for it.
  unfoldable pub actor_at : Registry → String → ActorState
  actor_at r token = elim (peek r token) [ none ↦ new_actor r token | some a ↦ a ]

  -- What a registry needs for a new actor.
  pub record SameSetup (r s : Registry) : Type 0 where
    pub stores : s.has_store ≡ r.has_store
    pub seeds : s.seeds ≡ r.seeds
    pub publishers : s.has_publisher ≡ r.has_publisher

  pub record Exchanged (r s : Registry) (token : String) (m : Message) (how : Exchange)
      (reply : Option Reply) : Type 0 where
    pub setup : SameSetup r s
    pub own : peek s token ≡ some (attend (actor_at r token) m how).0
    pub answer : reply ≡ (attend (actor_at r token) m how).1
    pub others : (k : String) → token ≢ k → peek s k ≡ peek r k

  -- Registry.Actor finds or makes the actor.
  pub record Found (r s : Registry) (token : String) (a : ActorState) : Type 0 where
    pub setup : SameSetup r s
    pub is : a ≡ actor_at r token
    pub has : peek s token ≡ some a
    pub others : (k : String) → token ≢ k → peek s k ≡ peek r k

  spawn-SameSetup : (r : Registry) (token : String) → SameSetup r (spawn r token).1
  unfolding spawn
  spawn-SameSetup r token = elim (Bool-cases r.has_store) [
    | inl h ↦ rw h (record { stores = refl; seeds = refl; publishers = refl })
    | inr h ↦ rw h (record { stores = refl; seeds = refl; publishers = refl })
  ]

  spawn_lem : (r : Registry) (token : String) → (spawn r token).0 ≡ new_actor r token
  unfolding spawn
  spawn_lem r token = elim (Bool-cases r.has_store) [ inl h ↦ rw h refl | inr h ↦ rw h refl ]

  actors-spawn :
      (r : Registry) (token : String)
      → (spawn r token).1.actors ≡ put token (new_actor r token) r.actors
  unfolding spawn
  actors-spawn r token = elim (Bool-cases r.has_store) [ inl h ↦ rw h refl | inr h ↦ rw h refl ]

  actor_at-new :
      (r : Registry) (token : String) → peek r token ≡ none → actor_at r token ≡ new_actor r token
  unfolding actor_at
  actor_at-new r token g = ap (λ o. elim o [ none ↦ new_actor r token | some a ↦ a ]) g

  pub actor_at-known :
      (r : Registry) (token : String) (a : ActorState)
      → peek r token ≡ some a
      → actor_at r token ≡ a
  unfolding actor_at
  actor_at-known r token a g = ap (λ o. elim o [ none ↦ new_actor r token | some b ↦ b ]) g

  spawn-Found :
      (r : Registry) (token : String)
      → peek r token ≡ none
      → Found r (spawn r token).1 token (spawn r token).0
  unfolding peek
  spawn-Found r token g = record {
    setup = spawn-SameSetup r token;
    is = spawn_lem r token ∙ sym (actor_at-new r token g);
    has =
        ap (get token) (actors-spawn r token)
        ∙ get-put_self token (new_actor r token) r.actors
        ∙ ap some (sym (spawn_lem r token));
    others = λ k ne.
        ap (get k) (actors-spawn r token) ∙ get-put_ne token k (new_actor r token) r.actors ne;
  }

  actor-Found : (r : Registry) (token : String) → Found r (actor r token).1 token (actor r token).0
  unfolding actor peek
  actor-Found r token = elim (Option-cases (get token r.actors)) [
    | inl g ↦ rw (actor, g) (spawn-Found r token g)
    | inr (a, g) ↦
        rw (actor, g)
          (record {
            setup = record { stores = refl; seeds = refl; publishers = refl };
            is = sym (actor_at-known r token a g);
            has = g;
            others = λ k ne. refl;
          })
  ]

  -- The actor is put back as `a'`.
  put_back :
      (r s : Registry) (token : String) (a a' : ActorState) (m : Message) (how : Exchange)
      → Found r s token a
      → a' ≡ (attend a m how).0
      → Exchanged r (record s { actors = put token a' s.actors }) token m how (attend a m how).1
  unfolding peek
  put_back r s token a a' m how f e = record {
    setup = record {
      stores = f.setup.stores;
      seeds = f.setup.seeds;
      publishers = f.setup.publishers;
    };
    own = get-put_self token a' s.actors ∙ ap some e ∙ ap (λ x. some (attend x m how).0) f.is;
    answer = ap (λ x. (attend x m how).1) f.is;
    others = λ k ne. get-put_ne token k a' s.actors ne ∙ f.others k ne;
  }

  exchange_at-Exchanged :
      (r s : Registry) (token : String) (a : ActorState) (m : Message) (how : Exchange)
      → Found r s token a
      → Exchanged r (exchange_at s token a m how).0 token m how (exchange_at s token a m how).1
  exchange_at-Exchanged r s token a m not_taken f = record {
    setup = f.setup;
    own = f.has ∙ ap some f.is;
    answer = refl;
    others = f.others;
  }
  exchange_at-Exchanged r s token a m (abandoned sched) f =
      put_back r s token a (handle sched a m).0 m (abandoned sched) f refl
  exchange_at-Exchanged r s token a m (answered sched) f =
      put_back r s token a (handle sched a m).0 m (answered sched) f refl

  pub exchange-Exchanged :
      (r : Registry) (token : String) (m : Message) (how : Exchange)
      → Exchanged r (exchange r token m how).0 token m how (exchange r token m how).1
  unfolding exchange
  exchange-Exchanged r token m how =
      exchange_at-Exchanged r (actor r token).1 token (actor r token).0 m how (actor-Found r token)
