-- ===== src/Lib.antt =====
-- A model of Patroni's high-availability loop and of the parts that it works with. Patroni keeps a PostgreSQL cluster with one master:
-- every node runs a loop that reads a view of the cluster from a distributed configuration store,
-- compares it with its own PostgreSQL and promotes, demotes, follows, bootstraps or recovers. The
-- node whose name stands in the leader key may be the master.
--
-- The files and the code (paths from the repository's root):
--   * Base: names of the libraries passed on, lists, integers, Boolean tests and text operations.
--     Base/Fallible holds methods that change an object and may raise, Base/Hoare what they ensure.
--   * Json: the values of parsed JSON documents, and parse_bool of patroni/utils.py.
--   * Utils: deep_compare and patch_config (Patch), the class Retry (Retry) and polling_loop
--     (Polling) of patroni/utils.py.
--   * Watchdog: patroni/watchdog/base.py. Config is WatchdogConfig, Device the interface
--     WatchdogBase with the laws that its client relies on, Facade the class Watchdog. Linux is
--     LinuxWatchdogDevice of patroni/watchdog/linux.py over the calls to the system, LinuxLaws its
--     proof of the laws.
--   * Executor: patroni/async_executor.py. Executor has the blocks of AsyncExecutor's methods that
--     hold a lock, Executor/Task the class CriticalTask, Executor/System the steps that threads in
--     run and in cancel take. Threads, Waiting, Ending and Overlap are about their runs.
--   * Dcs, Dcs/View, Dcs/SlotName, Dcs/Slots: the immutable cluster view of
--     patroni/dcs/__init__.py, with the choice of a member to clone from, the names of replication
--     slots and the slots a node keeps. Dcs/Clone, Dcs/Names and Dcs/Kept hold proofs about them.
--     Dcs/Codec has the parsers from_node, Dcs/Store what AbstractDCS keeps and writes
--     itself; SyncLaws, StoreLaws and FailoverLaws are proofs.
--   * Postgresql: Version, Lsn and Timelines are version numbers, WAL positions and timeline
--     histories (patroni/postgresql/misc.py). Rewind is the class Rewind of
--     patroni/postgresql/rewind.py, with Position (what pg_controldata and pg_waldump tell), Wal
--     (pg_rewind and the segments that it misses) and Execute; Decision and WalLaws are proofs.
--     SlotSync is the class SlotsHandler of patroni/postgresql/slots.py, with SlotDrops and SlotOutcome
--     for the proofs about it. SyncStandby is pick_synchronous_standby of patroni/postgresql/__init__.py, with
--     SyncStandbyLaws. Cancellable is patroni/postgresql/cancellable.py, as blocks under its lock
--     that any threads take in any order, with CancelLaws.
--   * Ha: the class Ha of patroni/ha.py. Ha/World lists what Ha reaches outside itself (the store,
--     PostgreSQL, pg_rewind, the watchdog, the executor of long actions, the other members, the
--     clock) as calls with typed replies. Ha/Program holds the attributes of an Ha object and the
--     monad of its methods: state, exceptions and a trace of the calls. One file stands for each
--     group of methods: Mode (check_mode, is_leader, has_lock, load_cluster_from_dcs), Lock
--     (acquire_lock, update_lock, touch_member, _delete_leader), Remote (_get_node_to_follow,
--     get_remote_member), Demote, Follow (follow, _handle_rewind_or_reinitialize), Status
--     (_MemberStatus and the verdicts of a race), Election (_is_healthiest_node,
--     is_failover_possible), Race (is_healthiest_node, manual_failover_process_no_leader), History
--     (update_cluster_history), Sync (process_sync_replication, while_not_sync_standby), Master
--     (enforce_master_role), Manual (process_manual_failover_from_leader), Restart, Bootstrap,
--     Recovery (recover, post_recover), Startup (handle_starting_instance,
--     handle_long_action_in_progress), Lead (process_healthy_cluster, process_unhealthy_cluster),
--     Join and Cycle (_run_cycle, run_cycle, shutdown, watch).
--   * Ha/Emits: the rules that find which calls a program can make. Ha/Safety: one file of such
--     facts for each file of methods, and the proofs about promotions, races and the lock.
--   * Tests: concrete clusters, devices, threads and runs.
--
-- Ha reaches the watchdog, the executor and Rewind by calls whose answers are parameters; the
-- modules above model what answers them. The executor's critical task is also that of Rewind's
-- checkpoint.
--
-- What a call of Ha answers is a parameter of the model: a function of all calls before it, so that other
-- threads, nodes and failures may act between any two calls, and any call may raise. Nothing is
-- assumed of the answers.
--
-- Bounds: three loops take fuel. Retry's loop takes one turn more than max_tries, and polling_loop
-- one more than its timeout has begun intervals; both are then known to end. The loop around pg_rewind has
-- no bound where segments are fetched, and takes as many turns as it is given. In Ha there is no
-- fuel: the polling in while_not_sync_standby is bounded by its timeout: the
-- source polls for twice loop_wait in steps of two seconds, which is loop_wait rounds. Instants and
-- durations are whole ticks; subtractions that may be negative are written as additions on the
-- other side or as integers.
--
-- A step of the executor's threads is a block under a lock, so that blocks of different threads may
-- follow each other in any order. Texts that PostgreSQL writes have numbers of digits alone. The
-- modules json and dateutil, Python's str of a value, processes and the system are parameters.
--
-- Not modelled: logging, locks in Ha (a method runs as one sequence of calls), the drivers of the
-- stores and of PostgreSQL, the REST API, the command line and the configuration files; tags that
-- touch_member publishes beyond nosync, and the texts of connection strings.
pub mod Base
pub mod Json
pub mod Dcs
pub mod Postgresql
pub mod Ha
pub mod Watchdog
pub mod Executor
pub mod Utils
pub mod Tests
