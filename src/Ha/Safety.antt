-- ===== src/Ha/Safety.antt =====
-- The calls that the methods of Ha make, and proofs about them.
pub mod Calls
pub mod Triple
pub mod Key
pub mod Promotion
pub mod Invoke
pub mod Mode
pub mod Lock
pub mod Remote
pub mod Demote
pub mod Follow
pub mod Election
pub mod Race
pub mod History
pub mod Sync
pub mod Master
pub mod Manual
pub mod Restart
pub mod Bootstrap
pub mod Recovery
pub mod Startup
pub mod Lead
pub mod Join
pub mod Cycle
pub mod Healthiest
pub mod Possible
pub mod Window
pub mod Belief
pub mod Guard
