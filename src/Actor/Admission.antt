-- ===== src/Actor/Admission.antt =====
-- What the guards of the handlers of internal/instrument let through: new and valid orders, and three
-- orders with ids of their own.
use optionx_assignment.Common.{
  Bool, true, false, not, ◌&&◌, ◌||◌, String, [], ◌∷◌, Option, none, some, get, ◌≡◌, ◌≢◌, refl,
  arith, ◌==◌, str_eq_iff,
}
use optionx_assignment.Float.{Float64}
use optionx_assignment.Order.{Status, Order, validate, is_resting, is_pending}
use optionx_assignment.Actor.Messages.{CancelOrderResult}
use optionx_assignment.Actor.State.{ActorState}
use optionx_assignment.Actor.Handle.{validate_legs, validate_bracket, first_known, reply_of}
use optionx_assignment.Actor.Steps.{IsLive, IsNew}

module _ ⦃fl : Float64⦄ where
  -- The three ids of a bracket are distinct.
  pub record AreDistinct (entry target stop : Order) : Type 0 where
    pub entry_target : entry.id ≢ target.id
    pub entry_stop : entry.id ≢ stop.id
    pub target_stop : target.id ≢ stop.id

  pub validate_legs-AreDistinct :
      (entry target stop : Order)
      → validate_legs entry target stop ≡ none
      → AreDistinct entry target stop
  unfolding validate_legs
  validate_legs-AreDistinct entry target stop h = record {
    entry_target = λ e. ground (arith, str_eq_iff entry.id target.id);
    entry_stop = λ e. ground (arith, str_eq_iff entry.id stop.id);
    target_stop = λ e. ground (arith, str_eq_iff target.id stop.id);
  }

  pub validate_bracket-legs :
      (entry target stop : Order)
      → validate_bracket entry target stop ≡ none
      → validate_legs entry target stop ≡ none
  unfolding validate_bracket
  validate_bracket-legs entry target stop h = ground arith

  -- None of the ids is known.
  pub record AreNew (s : ActorState) (entry target stop : Order) : Type 0 where
    pub entry_new : IsNew s entry
    pub target_new : IsNew s target
    pub stop_new : IsNew s stop

  validate_bracket-all :
      (entry target stop : Order)
      → validate_bracket entry target stop ≡ none
      → (validate entry ≡ none) × (validate target ≡ none) × (validate stop ≡ none)
  unfolding validate_bracket
  validate_bracket-all entry target stop h = ground arith

  unknown_ids :
      (s : ActorState) (a b c : String)
      → first_known s (a ∷ b ∷ c ∷ []) ≡ none
      → (get a s.orders ≡ none) × (get b s.orders ≡ none) × (get c s.orders ≡ none)
  unfolding first_known
  unknown_ids s a b c h = ground arith

  -- What the check of the three tokens is about.
  abbrev pub wrong_token : ActorState → Order → Order → Order → Bool
  wrong_token s entry target stop =
      not (entry.token == s.token) || not (target.token == s.token) || not (stop.token == s.token)

  right_token :
      (s : ActorState) (entry target stop : Order)
      → wrong_token s entry target stop ≡ false
      → (entry.token ≡ s.token) × (target.token ≡ s.token) × (stop.token ≡ s.token)
  right_token s entry target stop h = ground (
    arith,
    str_eq_iff entry.token s.token,
    str_eq_iff target.token s.token,
    str_eq_iff stop.token s.token,
  )

  pub first_known-AreNew :
      (s : ActorState) (entry target stop : Order)
      → validate_bracket entry target stop ≡ none
      → wrong_token s entry target stop ≡ false
      → first_known s (entry.id ∷ target.id ∷ stop.id ∷ []) ≡ none
      → AreNew s entry target stop
  first_known-AreNew s entry target stop v t h =
      let ids = unknown_ids s entry.id target.id stop.id h in
      let ok = validate_bracket-all entry target stop v in
      let own = right_token s entry target stop t in
      record {
        entry_new = record { unknown = ids.0; owned = own.0; valid = ok.0 };
        target_new = record { unknown = ids.1; owned = own.1; valid = ok.1 };
        stop_new = record { unknown = ids.2; owned = own.2; valid = ok.2 };
      }

  pub IsLive-of_test :
      (o : Order)
      → (not (is_resting o.status) && not (is_pending o.status)) ≡ false
      → IsLive o.status
  IsLive-of_test o h = go o.status h
    where
      go : (t : Status) → (not (is_resting t) && not (is_pending t)) ≡ false → IsLive t
      go Status.pending h = tt
      go Status.resting h = tt
      go Status.filled h = cc
      go Status.cancelled h = cc
      go (Status.other x) h = cc

  abbrev pub Dead : Order → Type 0
  Dead o = (not (is_resting o.status) && not (is_pending o.status)) ≡ true

  pub Dead-of_test : (o : Order) → Dead o → ¬ IsLive o.status
  Dead-of_test o = go o.status
    where
      go : (t : Status) → (not (is_resting t) && not (is_pending t)) ≡ true → ¬ IsLive t
      go Status.pending h l = cc
      go Status.resting h l = cc
      go Status.filled h l = l
      go Status.cancelled h l = l
      go (Status.other x) h l = l

  pub first_of_reply : (r : ActorState × Option CancelOrderResult) → (reply_of r).0 ≡ r.0
  first_of_reply (s, none) = refl
  first_of_reply (s, some x) = refl
