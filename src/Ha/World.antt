-- ===== src/Ha/World.antt =====
-- What `Ha` (patroni/ha.py) reaches outside itself, as calls with typed replies: the store
-- (patroni/dcs), PostgreSQL (patroni/postgresql), the watchdog, the executor of long actions, the
-- REST interfaces of the other members and the clock. Other threads act between two calls, so a
-- reply depends on all that was called before. Instants and durations are whole ticks of one clock.
use pennsignals_postgres.Base.{ℕ, String, Bool, Option, List}
use pennsignals_postgres.Base.Int.{ℤ}
use pennsignals_postgres.Json.{Value, Fields}
use pennsignals_postgres.Dcs.{Member, Schedule, Cluster}
use pennsignals_postgres.Dcs.View.{Node}

-- The exceptions that the methods tell apart.
pub data Exception : Type 0 where
  dcs_error : Exception
  postgres_error : Exception
  fatal_error : Exception
  -- `sys.exit(1)`
  exit_request : Exception
  other_error : Exception

pub data Outcome {ℓ} (A : Type ℓ) : Type ℓ where
  ok : A → Outcome A
  raised : Exception → Outcome A

-- A function that the executor runs in a thread of its own.
pub data Task : Type 0 where
  clone_task : Option Node → String → Task
  bootstrap_standby_leader_task : Task
  bootstrap_task : Task
  post_bootstrap_task : Task
  rewind_task : Node → Task
  reinitialize_task : Task
  follow_task : Option Node → String → Option ℕ → Task
  clean_shutdown_task : Task
  promote_task : Bool → Task
  demote_task : Task
  -- A restart with its timeout, and whether it first waits to be no synchronous standby.
  restart_task : ℕ → Bool → Task

-- The parts of a member's report to the store that `touch_member` decides about.
pub record Report : Type 0 where
  pub state : String
  pub role : String
  pub checkpoint_pending : Bool
  pub nosync : Bool
  pub pending_restart : Bool
  pub xlog_location : Option ℕ
  pub timeline : Option ℕ
  pub restart_is_scheduled : Bool
  pub pause : Bool

-- A restart request, immediate or scheduled.
pub record RestartData : Type 0 where
  pub role : Option String
  pub postgres_version : Option String
  pub restart_pending : Bool
  pub timeout : Option ℕ
  pub schedule : Option Schedule
  pub postmaster_start_time : Option String

pub record WalPosition : Type 0 where
  pub timeline : Option ℕ
  pub position : ℕ
  pub control_timeline : Option ℕ

pub data Call : Type 0 where
  -- The distributed configuration store.
  get_cluster : Call
  attempt_to_acquire_leader : Call
  update_leader : Option String → Bool → Call
  delete_leader : Option String → Call
  reset_cluster : Call
  report_member : Report → Call
  write_sync_state : String → Option (List String) → Option ℕ → Call
  delete_sync_state : Option ℕ → Call
  write_failover : Value → Value → Option Schedule → Option ℕ → Call
  initialize_key : Bool → String → Call
  set_config_value : Fields → Call
  set_history_value : List Value → Call
  take_leader : Call
  cancel_initialization_key : Call
  watch_store : Option ℕ → ℕ → Call
  set_event : Call
  -- The clock.
  now : Call
  sleep : ℕ → Call
  -- PostgreSQL.
  postgres_is_leader : Call
  postgres_is_running : Call
  postgres_is_starting : Call
  postgres_is_healthy : Call
  check_for_startup : Call
  time_in_state : Call
  get_role : Call
  set_role : String → Call
  get_state : Call
  set_state : String → Call
  is_bootstrapping : Call
  set_bootstrapping : Bool → Call
  data_directory_empty : Call
  remove_data_directory : Call
  move_data_directory : Call
  sysid : Call
  cb_called : Call
  call_nowait : String → Call
  has_pending_restart : Call
  server_version : Call
  postmaster_start_time : Call
  timeline_wal_position : Call
  received_timeline : Call
  pg_control_timeline : Call
  replica_cached_timeline : Value → Call
  last_operation : Call
  latest_checkpoint_location : Call
  cluster_state : Call
  get_master_timeline : Call
  get_history : ℕ → Call
  stop_postgres : String → Bool → Bool → Option ℕ → Call
  follow_node : Option Node → String → Option ℕ → Call
  check_recovery_conf : Option Node → Call
  set_synchronous_standby : List String → Call
  pick_synchronous_standby : ℕ → ℤ → Call
  sync_replication_slots : Call
  reset_cluster_info_state : Call
  schedule_sanity_checks_after_pause : Call
  clone_from : Option Node → Call
  can_create_replica_without_replication_connection : Call
  cancel_process : Bool → Call
  terminate_starting_postmaster : Call
  -- pg_rewind (patroni/postgresql/rewind.py).
  rewind_is_needed : Call
  rewind_executed : Call
  rewind_failed : Call
  can_rewind : Call
  can_rewind_or_reinitialize_allowed : Call
  rewind_needed_and_possible : Option Node → Call
  reset_rewind : Call
  trigger_check_diverged_lsn : Call
  ensure_checkpoint_after_promote : Call
  checkpoint_after_promote : Call
  -- The watchdog (patroni/watchdog/base.py).
  watchdog_is_running : Call
  watchdog_is_healthy : Call
  watchdog_activate : Call
  watchdog_disable : Call
  watchdog_keepalive : Call
  -- The executor and the response of its last critical task (patroni/async_executor.py).
  scheduled_action : Call
  schedule_action : String → Call
  start_task : Task → Call
  run_task : Task → Call
  cancel_action : Call
  response_result : Call
  response_reset : Call
  response_cancel : Call
  response_complete : Bool → Call
  critical_task_cancel : Call
  -- The other members, and chance.
  request_status : Member → Call
  random_pick : Call
  random_uuid : Call
  -- `Member.conn_kwargs`, which takes a connection URL apart.
  conn_kwargs : Member → Call

abbrev pub Reply : Call → Type 0
Reply get_cluster = Cluster
Reply attempt_to_acquire_leader = Bool
Reply (update_leader _ _) = Bool
Reply (report_member _) = Bool
Reply (write_sync_state _ _ _) = Bool
Reply (delete_sync_state _) = Bool
Reply (initialize_key _ _) = Bool
Reply (watch_store _ _) = Bool
Reply now = ℕ
Reply postgres_is_leader = Bool
Reply postgres_is_running = Bool
Reply postgres_is_starting = Bool
Reply postgres_is_healthy = Bool
Reply check_for_startup = Bool
Reply time_in_state = ℕ
Reply get_role = String
Reply get_state = String
Reply is_bootstrapping = Bool
Reply data_directory_empty = Bool
Reply sysid = String
Reply cb_called = Bool
Reply has_pending_restart = Bool
Reply server_version = ℕ
Reply postmaster_start_time = Option String
Reply timeline_wal_position = WalPosition
Reply received_timeline = Option ℕ
Reply pg_control_timeline = Option ℕ
Reply (replica_cached_timeline _) = Option ℕ
Reply last_operation = String
Reply latest_checkpoint_location = Option String
Reply cluster_state = String
Reply get_master_timeline = ℕ
Reply (get_history _) = List Value
Reply (follow_node _ _ _) = Option Bool
Reply (check_recovery_conf _) = Bool × Bool
Reply (pick_synchronous_standby _ _) = List String × List String
Reply (clone_from _) = Bool
Reply can_create_replica_without_replication_connection = Bool
Reply rewind_is_needed = Bool
Reply rewind_executed = Bool
Reply rewind_failed = Bool
Reply can_rewind = Bool
Reply can_rewind_or_reinitialize_allowed = Bool
Reply (rewind_needed_and_possible _) = Bool
Reply checkpoint_after_promote = Bool
Reply watchdog_is_running = Bool
Reply watchdog_is_healthy = Bool
Reply watchdog_activate = Bool
Reply scheduled_action = Option String
Reply (schedule_action _) = Option String
Reply (run_task _) = Option Bool
Reply response_result = Option Bool
Reply response_cancel = Bool
Reply critical_task_cancel = Bool
-- The body of the answer, if there was one and it is a JSON object.
Reply (request_status _) = Option Fields
Reply random_pick = ℕ
Reply random_uuid = String
Reply (conn_kwargs _) = Fields
Reply _ = Unit {0}

pub record Event : Type 0 where
  pub call : Call
  pub answer : Outcome (Reply call)

-- The node's configuration (`patroni.config`, the tags and `dcs.ttl`), fixed during a cycle.
pub record Settings : Type 0 where
  pub name : String
  pub ttl : ℕ
  pub loop_wait : ℕ
  pub retry_timeout : ℕ
  pub master_start_timeout : ℕ
  pub master_stop_timeout : ℕ
  pub maximum_lag_on_failover : ℕ
  pub maximum_lag_on_syncnode : ℤ
  pub synchronous_node_count : ℕ
  pub nofailover : Bool
  pub nosync : Bool
  pub replicatefrom : Option String
  pub has_bootstrap_section : Bool
  pub dynamic_configuration : Fields

-- The newest event of a trace stands first.
pub record World : Type 0 where
  pub settings : Settings
  pub answer : List Event → (c : Call) → Outcome (Reply c)
