-- ===== src/Actor.antt =====
-- internal/instrument: the actor that owns one instrument. Messages and replies, the state, the fill
-- machinery with its bracket rules, and the handlers; then what is proved of them, a child each.
pub mod Messages
pub mod State
pub mod Filling
pub mod OrderHandlers
pub mod Handle
pub mod Steps
pub mod Keyed
pub mod Admission
pub mod Cases
pub mod Refine
pub mod RefineHandle
pub mod Sound
pub mod Cancelling
pub mod Placing
pub mod Mailbox
pub mod Sequential
pub mod Known
pub mod Rejected
pub mod Interleaving
pub mod Replies
pub mod Answering
pub mod Answered
pub mod Lifecycle
pub mod Fills
pub mod Traded
pub mod Termination
pub mod Settled
pub mod SettledRun
pub mod OneCancels
pub mod Paired
pub mod Oco
pub mod OcoRun
pub mod NewPair
pub mod Bracket
