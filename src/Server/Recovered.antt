-- ===== src/Server/Recovered.antt =====
-- The actor that a new process of cmd/server makes for an instrument, from the tables that the actor of
-- an earlier process wrote.
use optionx_assignment.Common.{
  true, some, String, List, [], get, ◌≡◌, refl, sym, ◌∙◌, ap, inl, inr, subst,
}
use optionx_assignment.Float.{Float64}
use optionx_assignment.Actor.Messages.{Message}
use optionx_assignment.Actor.State.{ActorState, new_actor_state, restore}
use optionx_assignment.Actor.Filling.{Schedule}
use optionx_assignment.Actor.Handle.{run}
use optionx_assignment.Registry.{actor, spawn, start_actor, new_persistent_registry, set_publisher}
use optionx_assignment.Storage.{Tables, carry_out}
use optionx_assignment.Storage.Candles.{CandleTables}
use optionx_assignment.Storage.Recovery.{IsBackedBy, run-IsBackedBy, seed_of}
use optionx_assignment.Actor.Sound.{IsSound}
use optionx_assignment.Storage.WriteThrough.{row_option}
use optionx_assignment.Storage.Positions.{carry_out-IsWellKept}
use optionx_assignment.Server.{boot}

module _ ⦃fl : Float64⦄ where
  -- The state in which a process started from the tables has the token's actor.
  abbrev pub recovered : Tables → CandleTables → String → ActorState
  recovered tables candles token = (actor (boot tables candles).registry token).0

  -- Two actors with the same position and the same order under every id.
  pub record Agree (s t : ActorState) : Type 0 where
    pub token : s.token ≡ t.token
    pub position : s.position ≡ t.position
    pub orders : (id : String) → get id s.orders ≡ get id t.orders

  recovered-Agree :
      (db : Tables) (candles : CandleTables) (s : ActorState)
      → IsBackedBy db s
      → Agree (recovered (carry_out db s.effects) candles s.token) s
  unfolding boot actor spawn start_actor new_persistent_registry set_publisher new_actor_state
      restore get
  recovered-Agree db candles s b =
      let (position, orders) = seed_of db s b in
      record { token = refl; position = position; orders = orders }

  -- An actor that agrees with another, and has written nothing yet, is backed by the tables that the
  -- other left.
  Agree-IsBackedBy :
      (db : Tables) (s t : ActorState)
      → t.effects ≡ []
      → Agree t s
      → IsBackedBy db s
      → IsBackedBy (carry_out db s.effects) t
  unfolding carry_out
  Agree-IsBackedBy db s t silent a b = record {
    keyed = λ k o g. b.keyed k o (sym (a.orders k) ∙ g);
    sound = λ k o g.
        subst (λ token. IsSound token o) (sym a.token) (b.sound k o (sym (a.orders k) ∙ g));
    kept = carry_out-IsWellKept db s.effects b.kept;
    written =
        λ id. ap (λ x. get id x.orders) quiet ∙ b.written id ∙ ap row_option (sym (a.orders id));
    has = elim b.has [
      | inl g ↦ inl (row ∙ g ∙ ap (λ p. some p) (sym a.position))
      | inr (g, z) ↦ inr (row ∙ g, a.position ∙ z)
    ];
  }
    where
      quiet : carry_out (carry_out db s.effects) t.effects ≡ carry_out db s.effects
      quiet = ap (carry_out (carry_out db s.effects)) silent

      row :
          get t.token (carry_out (carry_out db s.effects) t.effects).positions
          ≡ get s.token (carry_out db s.effects).positions
      row =
          ap (λ x. get t.token x.positions) quiet
          ∙ ap (λ k. get k (carry_out db s.effects).positions) a.token

  no_effects :
      (tables : Tables) (candles : CandleTables) (token : String)
      → (recovered tables candles token).effects ≡ []
  unfolding boot actor spawn start_actor new_persistent_registry set_publisher new_actor_state
      restore get
  no_effects tables candles token = refl

  -- Let the tables hold what one actor with a store wrote: the rows of its orders and its position, no
  -- key twice; let its orders be of its token, valid, with one of the four statuses and under their
  -- ids. Then after any run of messages whose writes the database carries out, a process that starts
  -- from the tables has for the token an actor with the same position and the same order under every
  -- id, and the tables are to that actor what they were to the first.
  pub recovered-run :
      (db : Tables) (candles : CandleTables) (s : ActorState) (ms : List (Schedule × Message))
      → s.has_store ≡ true
      → IsBackedBy db s
      → let tables = carry_out db (run s ms).effects in
        let next = recovered tables candles (run s ms).token in
        Agree next (run s ms) × IsBackedBy tables next
  recovered-run db candles s ms h b =
      let after = run-IsBackedBy db s ms h b in
      let a = recovered-Agree db candles (run s ms) after in
      (
        a,
        Agree-IsBackedBy db (run s ms) _
            (no_effects (carry_out db (run s ms).effects) candles (run s ms).token) a after,
      )
