-- ===== src/Actor/OneCancels.antt =====
-- The statuses of the two legs of a bracket (internal/instrument/bracket.go), side by side.
use optionx_assignment.Common.{◌≡◌, refl}
use optionx_assignment.Order.{Status}

-- What two legs may be at once: if one is filled, the other is cancelled.
abbrev pub OneCancels : Status → Status → Type 0
OneCancels (Status.other _) _ = ⊥
OneCancels _ (Status.other _) = ⊥
OneCancels Status.filled t = t ≡ Status.cancelled
OneCancels t Status.filled = t ≡ Status.cancelled
OneCancels _ _ = Unit

pub OneCancels-sym : (s t : Status) → OneCancels s t → OneCancels t s
OneCancels-sym Status.pending Status.pending h = h
OneCancels-sym Status.pending Status.resting h = h
OneCancels-sym Status.pending Status.filled h = h
OneCancels-sym Status.pending Status.cancelled h = h
OneCancels-sym Status.resting Status.pending h = h
OneCancels-sym Status.resting Status.resting h = h
OneCancels-sym Status.resting Status.filled h = h
OneCancels-sym Status.resting Status.cancelled h = h
OneCancels-sym Status.filled Status.pending h = h
OneCancels-sym Status.filled Status.resting h = h
OneCancels-sym Status.filled Status.filled h = cc
OneCancels-sym Status.filled Status.cancelled h = refl
OneCancels-sym Status.cancelled Status.pending h = h
OneCancels-sym Status.cancelled Status.resting h = h
OneCancels-sym Status.cancelled Status.filled h = refl
OneCancels-sym Status.cancelled Status.cancelled h = h
OneCancels-sym (Status.other x) t h = absurd h
OneCancels-sym Status.pending (Status.other x) h = h
OneCancels-sym Status.resting (Status.other x) h = h
OneCancels-sym Status.filled (Status.other x) h = h
OneCancels-sym Status.cancelled (Status.other x) h = h

-- Activation and cancellation keep a pair right.
pub OneCancels-resting : (t : Status) → OneCancels Status.pending t → OneCancels Status.resting t
OneCancels-resting Status.filled h = cc
OneCancels-resting (Status.other x) h = absurd h
OneCancels-resting Status.pending h = tt
OneCancels-resting Status.resting h = tt
OneCancels-resting Status.cancelled h = tt

pub OneCancels-cancelled : (s t : Status) → OneCancels s t → OneCancels Status.cancelled t
OneCancels-cancelled s Status.pending h = tt
OneCancels-cancelled s Status.resting h = tt
OneCancels-cancelled s Status.filled h = refl
OneCancels-cancelled s Status.cancelled h = tt
OneCancels-cancelled s (Status.other x) h = OneCancels-sym s (Status.other x) h
