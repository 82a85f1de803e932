-- ===== src/Ha/Cycle.antt =====
-- patroni/ha.py: one cycle of the loop, and the shutdown.
use pennsignals_postgres.Base.{
  ℕ, String, ◌<>◌, Bool, true, false, not, ◌||◌, Option, none, some, ◌==◌, is_some, if◌then◌else◌,
}
use pennsignals_postgres.Dcs.View.{is_unlocked}
use pennsignals_postgres.Ha.World.{
  Outcome, ok, raised, Exception, dcs_error, postgres_error, fatal_error, exit_request,
  delete_leader, watch_store, set_event, postgres_is_leader, postgres_is_running,
  postgres_is_starting, postgres_is_healthy, get_state, set_state, is_bootstrapping,
  data_directory_empty, cb_called, call_nowait, latest_checkpoint_location, stop_postgres,
  sync_replication_slots, rewind_is_needed, rewind_executed, rewind_failed,
  can_rewind_or_reinitialize_allowed, trigger_check_diverged_lsn, watchdog_is_running,
  watchdog_disable, scheduled_action,
}
use pennsignals_postgres.Ha.Program.{
  Program, pure, raise, gets, modify, invoke, ◌>>=◌, ◌>>◌, when, catch, finally, given, attempt,
  cluster,
}
use pennsignals_postgres.Ha.Join.{begin_cycle, empty_directory, may_join, repair_store}
use pennsignals_postgres.Ha.Demote.{demote, offline}
use pennsignals_postgres.Ha.Lock.{drop_leader_key, touch_member}
use pennsignals_postgres.Ha.Restart.{evaluate_scheduled_restart}
use pennsignals_postgres.Ha.Startup.{handle_long_action_in_progress, handle_starting_instance}
use pennsignals_postgres.Ha.Mode.{has_lock, is_leader, is_paused, master_stop_timeout}
use pennsignals_postgres.Ha.Bootstrap.{post_bootstrap}
use pennsignals_postgres.Ha.Recovery.{post_recover, recover}
use pennsignals_postgres.Ha.Lead.{process_healthy_cluster, process_unhealthy_cluster}
use pennsignals_postgres.Ha.Sync.{while_not_sync_standby}

-- Whether a paused node leaves its stopped PostgreSQL alone.
unfoldable pub rewind_pending : Program Bool
rewind_pending = do
  failed ← invoke rewind_failed
  when failed (pure true) (do
    executed ← invoke rewind_executed
    when executed (pure false) (do
      needed ← invoke rewind_is_needed
      possible ← when needed (invoke can_rewind_or_reinitialize_allowed) (pure false)
      pure (not possible)))

unfoldable pub stopped_in_pause : Program (Option String)
stopped_in_pause = do
  invoke (set_state "stopped")
  mine ← has_lock
  when mine
      (do drop_leader_key none; pure (some "removed leader lock because postgres is not running"))
      (do leave ← rewind_pending; pure (if leave then some "postgres is not running" else none))

-- PostgreSQL does not run.
unfoldable pub unhealthy_postgres : Program String
unhealthy_postgres = do
  paused ← is_paused
  msg ← when paused stopped_in_pause (pure none)
  given msg pure (do
    state ← invoke get_state
    when (state == "running" || state == "starting") (invoke (set_state "crashed")) (pure tt)
    recover)

-- The `finally` after the leader race.
unfoldable pub after_race : Program (Unit {0})
after_race = do
  action ← invoke scheduled_action
  starting ← when (is_some action) (pure true) (invoke postgres_is_starting)
  when starting (pure tt) (do
    invoke sync_replication_slots
    called ← invoke cb_called
    when called (pure tt) (do
      leads ← invoke postgres_is_leader
      when leads (pure tt) (invoke trigger_check_diverged_lsn)
      invoke (call_nowait "on_start")))

unfoldable pub run_race : Program String
run_race = do
  c ← cluster
  when (is_unlocked c) process_unhealthy_cluster (do
    msg ← process_healthy_cluster
    restarted ← evaluate_scheduled_restart
    pure (elim restarted [ none ↦ msg | some m ↦ if m == "" then msg else m ]))

-- PostgreSQL has data: may it join, does it run, and what is its place in the cluster.
unfoldable pub run_with_data : Program String
run_with_data = do
  refusal ← may_join
  given refusal pure (do
    healthy ← invoke postgres_is_healthy
    when healthy (finally run_race after_race) unhealthy_postgres)

-- What is left of an earlier attempt to start PostgreSQL.
unfoldable pub check_recovery : Program (Option String)
check_recovery = do
  recovering ← gets (λ h. h.recovering)
  needed ← when recovering (invoke rewind_is_needed) (pure true)
  when needed (pure none) (do modify (λ h. record h { recovering = false }); post_recover)

-- No long action is in progress.
unfoldable pub run_idle : Program String
run_idle = do
  starting ← handle_starting_instance
  given starting pure (do
    bootstrapping ← invoke is_bootstrapping
    when bootstrapping post_bootstrap (do
      failed ← check_recovery
      given failed pure
          (do empty ← invoke data_directory_empty; when empty empty_directory run_with_data)))

unfoldable pub run_body : Program String
run_body = do
  begin_cycle
  repair_store
  action ← invoke scheduled_action
  when (is_some action) handle_long_action_in_progress run_idle

-- The store does not answer: a master that is not paused steps down.
unfoldable pub on_dcs_error : Program String
on_dcs_error = do
  paused ← is_paused
  running ← when paused (pure false) (invoke postgres_is_running)
  leads ← when running (invoke postgres_is_leader) (pure false)
  when leads
      (do demote offline; pure "demoted self because DCS is not accessible and i was a leader")
      (pure "DCS is not accessible")

-- The handlers of `_run_cycle` and its `finally`, which reports unless the store failed.
unfoldable pub settle : Outcome String → Program String
settle (ok msg) = do touch_member; pure msg
settle (raised dcs_error) = on_dcs_error
settle (raised postgres_error) = do
  touch_member
  pure "Error communicating with PostgreSQL. Will try again later"
settle (raised e) = do touch_member; raise e

-- `_run_cycle`
unfoldable pub run_cycle_body : Program String
run_cycle_body = do r ← attempt run_body; settle r

unfoldable pub on_exception : Exception → Program String
on_exception fatal_error = raise fatal_error
on_exception exit_request = raise exit_request
on_exception _ = pure "Unexpected exception raised, please report it as a BUG"

unfoldable pub run_cycle : Program String
run_cycle =
    catch
      (do
        info ← run_cycle_body
        paused ← is_paused
        pure ((if paused then "PAUSE: " else "") <> info))
      on_exception

-- `shutdown`: the key is deleted only once PostgreSQL is down.
unfoldable pub shutdown : Program (Unit {0})
shutdown = do
  paused ← is_paused
  aborted ← gets (λ h. h.join_aborted)
  when paused (invoke watchdog_disable) (
      when aborted (pure tt) (do
        guarded ← invoke watchdog_is_running
        while_not_sync_standby
            (do timeout ← master_stop_timeout; invoke (stop_postgres "fast" false guarded timeout))
        running ← invoke postgres_is_running
        when running (pure tt) (do
          leads ← is_leader
          when leads
              (do location ← invoke latest_checkpoint_location; invoke (delete_leader location))
              (pure tt)
          touch_member
          pure tt)))

-- `watch`: only a running replica of a known leader watches the key.
unfoldable pub watch : ℕ → Program Bool
watch timeout = do
  action ← invoke scheduled_action
  view ← gets (λ h. h.cluster)
  index ←
      given (if is_some action then none else view)
        (λ c. when (is_unlocked c) (pure none) (do
          mine ← has_lock
          pure (if mine then none else elim c.leader [ none ↦ none | some l ↦ some l.index ])))
        (pure none)
  invoke (watch_store index timeout)

unfoldable pub wakeup : Program (Unit {0})
wakeup = invoke set_event
