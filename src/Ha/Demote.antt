-- ===== src/Ha/Demote.antt =====
-- patroni/ha.py: `demote`, in four modes.
use pennsignals_postgres.Base.{String, Bool, true, false, Option, none, some, []}
use pennsignals_postgres.Dcs.{Cluster}
use pennsignals_postgres.Dcs.View.{Node, the_leader}
use pennsignals_postgres.Ha.World.{
  get_cluster, sleep, set_role, latest_checkpoint_location, stop_postgres, follow_node,
  set_synchronous_standby, rewind_needed_and_possible, trigger_check_diverged_lsn,
  watchdog_is_running, follow_task,
}
use pennsignals_postgres.Ha.Program.{Program, pure, invoke, ◌>>=◌, ◌>>◌, when}
use pennsignals_postgres.Ha.Remote.{get_node_to_follow}
use pennsignals_postgres.Ha.Mode.{is_synchronous_mode, master_stop_timeout, set_is_leader}
use pennsignals_postgres.Ha.Lock.{release_leader_key_voluntarily, try_run_async}

-- The modes of `demote`, with the table that says what each does.
pub data DemoteMode : Type 0 where
  offline graceful immediate immediate_nolock : DemoteMode

pub record ModeControl : Type 0 where
  pub stop : String
  pub checkpoint : Bool
  pub release : Bool
  pub offline : Bool
  pub async_req : Bool

unfoldable pub mode_control : DemoteMode → ModeControl
mode_control offline = record {
  stop = "fast";
  checkpoint = false;
  release = false;
  offline = true;
  async_req = false;
}
mode_control graceful = record {
  stop = "fast";
  checkpoint = true;
  release = true;
  offline = false;
  async_req = false;
}
mode_control immediate = record {
  stop = "immediate";
  checkpoint = false;
  release = true;
  offline = false;
  async_req = true;
}
mode_control immediate_nolock = record {
  stop = "immediate";
  checkpoint = false;
  release = false;
  offline = false;
  async_req = true;
}

abbrev pub is_graceful : DemoteMode → Bool
is_graceful graceful = true
is_graceful _ = false

-- The first half of `demote`: stop PostgreSQL, and give up the key where the mode says so.
unfoldable pub demote_stop : DemoteMode → Program (Unit {0})
demote_stop mode = do
  invoke trigger_check_diverged_lsn
  running ← invoke watchdog_is_running
  timeout ← master_stop_timeout
  invoke (stop_postgres (mode_control mode).stop (mode_control mode).checkpoint running timeout)
  invoke (set_role "demoted")
  set_is_leader false
  when (mode_control mode).release
      (do
        location ← when (is_graceful mode) (invoke latest_checkpoint_location) (pure none)
        release_leader_key_voluntarily location
        invoke (sleep 2))
      (pure tt)

abbrev pub leader_node : Cluster → Option Node
leader_node c = elim c.leader [ none ↦ none | some l ↦ some (the_leader l) ]

-- Whom to follow after a demotion, and the leader to rewind from: nobody without the store.
unfoldable pub restart_targets : Bool → Program (Option Node × Option Node)
restart_targets is_offline =
    when is_offline (pure (none, none))
      (do c ← invoke get_cluster; node ← get_node_to_follow c; pure (node, leader_node c))

-- The second half: start again behind whoever leads now, or wait for pg_rewind.
unfoldable pub demote_restart : DemoteMode → Program (Unit {0})
demote_restart mode = do
  targets ← restart_targets (mode_control mode).offline
  when (mode_control mode).async_req
      (do try_run_async "starting after demotion" (follow_task targets.0 "replica" none); pure tt)
      (do
        sync ← is_synchronous_mode
        when sync (invoke (set_synchronous_standby [])) (pure tt)
        needed ← invoke (rewind_needed_and_possible targets.1)
        when needed (pure tt) (do invoke (follow_node targets.0 "replica" none); pure tt))

unfoldable pub demote : DemoteMode → Program (Unit {0})
demote mode = do demote_stop mode; demote_restart mode
