-- ===== src/Ha.antt =====
-- patroni/ha.py: the class `Ha`, whose `run_cycle` decides every few seconds what this node does.
pub mod World
pub mod Program
pub mod Emits
pub mod Mode
pub mod Lock
pub mod Remote
pub mod Demote
pub mod Follow
pub mod Status
pub mod Election
pub mod Race
pub mod History
pub mod Sync
pub mod Master
pub mod Manual
pub mod Restart
pub mod Bootstrap
pub mod Recovery
pub mod Startup
pub mod Lead
pub mod Join
pub mod Cycle
pub mod Safety
