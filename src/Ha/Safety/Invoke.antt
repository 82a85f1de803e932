-- ===== src/Ha/Safety/Invoke.antt =====
-- The rule for `invoke` at each call that ends a program, so that search finds the call from a goal
-- whose reply type is already computed.
use pennsignals_postgres.Base.{◌≡◌, true, Bool, ℕ, String, Option, List}
use pennsignals_postgres.Base.Int.{ℤ}
use pennsignals_postgres.Json.{Value, Fields}
use pennsignals_postgres.Dcs.{Schedule}
use pennsignals_postgres.Dcs.View.{Node}
use pennsignals_postgres.Ha.World.{
  Task, Report, Call, update_leader, delete_leader, reset_cluster, report_member, write_sync_state,
  delete_sync_state, write_failover, initialize_key, set_config_value, set_history_value,
  take_leader, cancel_initialization_key, watch_store, set_event, sleep, postgres_is_leader,
  postgres_is_running, postgres_is_starting, set_role, set_state, set_bootstrapping,
  remove_data_directory, move_data_directory, call_nowait, pg_control_timeline,
  replica_cached_timeline, latest_checkpoint_location, stop_postgres, follow_node,
  set_synchronous_standby, pick_synchronous_standby, sync_replication_slots,
  reset_cluster_info_state, schedule_sanity_checks_after_pause, cancel_process,
  terminate_starting_postmaster, rewind_is_needed, rewind_failed, can_rewind,
  can_rewind_or_reinitialize_allowed, reset_rewind, trigger_check_diverged_lsn, watchdog_activate,
  watchdog_disable, watchdog_keepalive, start_task, cancel_action, response_reset, response_cancel,
  response_complete,
}
use pennsignals_postgres.Ha.Program.{invoke}
use pennsignals_postgres.Ha.Emits.{Emits, Emits-invoke}

module _ {allowed : Call → Bool} where
  pub Emits-update_leader :
      (a : Option String) (b : Bool)
      → allowed (update_leader a b) ≡ true
      → Emits allowed (invoke (update_leader a b))
  Emits-update_leader a b = Emits-invoke (update_leader a b)

  pub Emits-delete_leader :
      (a : Option String)
      → allowed (delete_leader a) ≡ true
      → Emits allowed (invoke (delete_leader a))
  Emits-delete_leader a = Emits-invoke (delete_leader a)

  pub Emits-reset_cluster : allowed reset_cluster ≡ true → Emits allowed (invoke reset_cluster)
  Emits-reset_cluster = Emits-invoke reset_cluster

  pub Emits-report_member :
      (a : Report) → allowed (report_member a) ≡ true → Emits allowed (invoke (report_member a))
  Emits-report_member a = Emits-invoke (report_member a)

  pub Emits-write_sync_state :
      (a : String) (b : Option (List String)) (c : Option ℕ)
      → allowed (write_sync_state a b c) ≡ true
      → Emits allowed (invoke (write_sync_state a b c))
  Emits-write_sync_state a b c = Emits-invoke (write_sync_state a b c)

  pub Emits-delete_sync_state :
      (a : Option ℕ)
      → allowed (delete_sync_state a) ≡ true
      → Emits allowed (invoke (delete_sync_state a))
  Emits-delete_sync_state a = Emits-invoke (delete_sync_state a)

  pub Emits-write_failover :
      (a : Value) (b : Value) (c : Option Schedule) (d : Option ℕ)
      → allowed (write_failover a b c d) ≡ true
      → Emits allowed (invoke (write_failover a b c d))
  Emits-write_failover a b c d = Emits-invoke (write_failover a b c d)

  pub Emits-initialize_key :
      (a : Bool) (b : String)
      → allowed (initialize_key a b) ≡ true
      → Emits allowed (invoke (initialize_key a b))
  Emits-initialize_key a b = Emits-invoke (initialize_key a b)

  pub Emits-set_config_value :
      (a : Fields)
      → allowed (set_config_value a) ≡ true
      → Emits allowed (invoke (set_config_value a))
  Emits-set_config_value a = Emits-invoke (set_config_value a)

  pub Emits-set_history_value :
      (a : List Value)
      → allowed (set_history_value a) ≡ true
      → Emits allowed (invoke (set_history_value a))
  Emits-set_history_value a = Emits-invoke (set_history_value a)

  pub Emits-take_leader : allowed take_leader ≡ true → Emits allowed (invoke take_leader)
  Emits-take_leader = Emits-invoke take_leader

  pub Emits-cancel_initialization_key :
      allowed cancel_initialization_key ≡ true → Emits allowed (invoke cancel_initialization_key)
  Emits-cancel_initialization_key = Emits-invoke cancel_initialization_key

  pub Emits-watch_store :
      (a : Option ℕ) (b : ℕ)
      → allowed (watch_store a b) ≡ true
      → Emits allowed (invoke (watch_store a b))
  Emits-watch_store a b = Emits-invoke (watch_store a b)

  pub Emits-set_event : allowed set_event ≡ true → Emits allowed (invoke set_event)
  Emits-set_event = Emits-invoke set_event

  pub Emits-sleep : (a : ℕ) → allowed (sleep a) ≡ true → Emits allowed (invoke (sleep a))
  Emits-sleep a = Emits-invoke (sleep a)

  pub Emits-postgres_is_leader :
      allowed postgres_is_leader ≡ true → Emits allowed (invoke postgres_is_leader)
  Emits-postgres_is_leader = Emits-invoke postgres_is_leader

  pub Emits-postgres_is_running :
      allowed postgres_is_running ≡ true → Emits allowed (invoke postgres_is_running)
  Emits-postgres_is_running = Emits-invoke postgres_is_running

  pub Emits-postgres_is_starting :
      allowed postgres_is_starting ≡ true → Emits allowed (invoke postgres_is_starting)
  Emits-postgres_is_starting = Emits-invoke postgres_is_starting

  pub Emits-set_role :
      (a : String) → allowed (set_role a) ≡ true → Emits allowed (invoke (set_role a))
  Emits-set_role a = Emits-invoke (set_role a)

  pub Emits-set_state :
      (a : String) → allowed (set_state a) ≡ true → Emits allowed (invoke (set_state a))
  Emits-set_state a = Emits-invoke (set_state a)

  pub Emits-set_bootstrapping :
      (a : Bool)
      → allowed (set_bootstrapping a) ≡ true
      → Emits allowed (invoke (set_bootstrapping a))
  Emits-set_bootstrapping a = Emits-invoke (set_bootstrapping a)

  pub Emits-remove_data_directory :
      allowed remove_data_directory ≡ true → Emits allowed (invoke remove_data_directory)
  Emits-remove_data_directory = Emits-invoke remove_data_directory

  pub Emits-move_data_directory :
      allowed move_data_directory ≡ true → Emits allowed (invoke move_data_directory)
  Emits-move_data_directory = Emits-invoke move_data_directory

  pub Emits-call_nowait :
      (a : String) → allowed (call_nowait a) ≡ true → Emits allowed (invoke (call_nowait a))
  Emits-call_nowait a = Emits-invoke (call_nowait a)

  pub Emits-pg_control_timeline :
      allowed pg_control_timeline ≡ true → Emits allowed (invoke pg_control_timeline)
  Emits-pg_control_timeline = Emits-invoke pg_control_timeline

  pub Emits-replica_cached_timeline :
      (a : Value)
      → allowed (replica_cached_timeline a) ≡ true
      → Emits allowed (invoke (replica_cached_timeline a))
  Emits-replica_cached_timeline a = Emits-invoke (replica_cached_timeline a)

  pub Emits-latest_checkpoint_location :
      allowed latest_checkpoint_location ≡ true → Emits allowed (invoke latest_checkpoint_location)
  Emits-latest_checkpoint_location = Emits-invoke latest_checkpoint_location

  pub Emits-stop_postgres :
      (a : String) (b : Bool) (c : Bool) (d : Option ℕ)
      → allowed (stop_postgres a b c d) ≡ true
      → Emits allowed (invoke (stop_postgres a b c d))
  Emits-stop_postgres a b c d = Emits-invoke (stop_postgres a b c d)

  pub Emits-follow_node :
      (a : Option Node) (b : String) (c : Option ℕ)
      → allowed (follow_node a b c) ≡ true
      → Emits allowed (invoke (follow_node a b c))
  Emits-follow_node a b c = Emits-invoke (follow_node a b c)

  pub Emits-set_synchronous_standby :
      (a : List String)
      → allowed (set_synchronous_standby a) ≡ true
      → Emits allowed (invoke (set_synchronous_standby a))
  Emits-set_synchronous_standby a = Emits-invoke (set_synchronous_standby a)

  pub Emits-pick_synchronous_standby :
      (a : ℕ) (b : ℤ)
      → allowed (pick_synchronous_standby a b) ≡ true
      → Emits allowed (invoke (pick_synchronous_standby a b))
  Emits-pick_synchronous_standby a b = Emits-invoke (pick_synchronous_standby a b)

  pub Emits-sync_replication_slots :
      allowed sync_replication_slots ≡ true → Emits allowed (invoke sync_replication_slots)
  Emits-sync_replication_slots = Emits-invoke sync_replication_slots

  pub Emits-reset_cluster_info_state :
      allowed reset_cluster_info_state ≡ true → Emits allowed (invoke reset_cluster_info_state)
  Emits-reset_cluster_info_state = Emits-invoke reset_cluster_info_state

  pub Emits-schedule_sanity_checks_after_pause :
      allowed schedule_sanity_checks_after_pause ≡ true
      → Emits allowed (invoke schedule_sanity_checks_after_pause)
  Emits-schedule_sanity_checks_after_pause = Emits-invoke schedule_sanity_checks_after_pause

  pub Emits-cancel_process :
      (a : Bool) → allowed (cancel_process a) ≡ true → Emits allowed (invoke (cancel_process a))
  Emits-cancel_process a = Emits-invoke (cancel_process a)

  pub Emits-terminate_starting_postmaster :
      allowed terminate_starting_postmaster ≡ true
      → Emits allowed (invoke terminate_starting_postmaster)
  Emits-terminate_starting_postmaster = Emits-invoke terminate_starting_postmaster

  pub Emits-rewind_is_needed :
      allowed rewind_is_needed ≡ true → Emits allowed (invoke rewind_is_needed)
  Emits-rewind_is_needed = Emits-invoke rewind_is_needed

  pub Emits-rewind_failed : allowed rewind_failed ≡ true → Emits allowed (invoke rewind_failed)
  Emits-rewind_failed = Emits-invoke rewind_failed

  pub Emits-can_rewind : allowed can_rewind ≡ true → Emits allowed (invoke can_rewind)
  Emits-can_rewind = Emits-invoke can_rewind

  pub Emits-can_rewind_or_reinitialize_allowed :
      allowed can_rewind_or_reinitialize_allowed ≡ true
      → Emits allowed (invoke can_rewind_or_reinitialize_allowed)
  Emits-can_rewind_or_reinitialize_allowed = Emits-invoke can_rewind_or_reinitialize_allowed

  pub Emits-reset_rewind : allowed reset_rewind ≡ true → Emits allowed (invoke reset_rewind)
  Emits-reset_rewind = Emits-invoke reset_rewind

  pub Emits-trigger_check_diverged_lsn :
      allowed trigger_check_diverged_lsn ≡ true → Emits allowed (invoke trigger_check_diverged_lsn)
  Emits-trigger_check_diverged_lsn = Emits-invoke trigger_check_diverged_lsn

  pub Emits-watchdog_activate :
      allowed watchdog_activate ≡ true → Emits allowed (invoke watchdog_activate)
  Emits-watchdog_activate = Emits-invoke watchdog_activate

  pub Emits-watchdog_disable :
      allowed watchdog_disable ≡ true → Emits allowed (invoke watchdog_disable)
  Emits-watchdog_disable = Emits-invoke watchdog_disable

  pub Emits-watchdog_keepalive :
      allowed watchdog_keepalive ≡ true → Emits allowed (invoke watchdog_keepalive)
  Emits-watchdog_keepalive = Emits-invoke watchdog_keepalive

  pub Emits-start_task :
      (a : Task) → allowed (start_task a) ≡ true → Emits allowed (invoke (start_task a))
  Emits-start_task a = Emits-invoke (start_task a)

  pub Emits-cancel_action : allowed cancel_action ≡ true → Emits allowed (invoke cancel_action)
  Emits-cancel_action = Emits-invoke cancel_action

  pub Emits-response_reset : allowed response_reset ≡ true → Emits allowed (invoke response_reset)
  Emits-response_reset = Emits-invoke response_reset

  pub Emits-response_cancel :
      allowed response_cancel ≡ true → Emits allowed (invoke response_cancel)
  Emits-response_cancel = Emits-invoke response_cancel

  pub Emits-response_complete :
      (a : Bool)
      → allowed (response_complete a) ≡ true
      → Emits allowed (invoke (response_complete a))
  Emits-response_complete a = Emits-invoke (response_complete a)
