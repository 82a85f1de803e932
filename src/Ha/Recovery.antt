-- ===== src/Ha/Recovery.antt =====
-- patroni/ha.py: PostgreSQL is down, starting up, or busy with a long action.
use pennsignals_postgres.Base.{
  ℕ, String, Bool, true, false, not, ◌&&◌, ◌||◌, Option, none, some, ◌==◌, eqb, keep, if◌then◌else◌,
}
use pennsignals_postgres.Dcs.{matches}
use pennsignals_postgres.Dcs.View.{Node, is_unlocked}
use pennsignals_postgres.Ha.World.{
  now, postgres_is_running, get_role, set_role, cluster_state, rewind_executed, rewind_failed,
  can_rewind, reset_rewind, trigger_check_diverged_lsn, watchdog_disable, clean_shutdown_task,
  follow_task,
}
use pennsignals_postgres.Ha.Program.{
  Program, pure, gets, setting, modify, invoke, ◌>>=◌, ◌>>◌, when, given, cluster,
}
use pennsignals_postgres.Ha.Demote.{demote, immediate}
use pennsignals_postgres.Ha.Lock.{drop_leader_key, try_run_async, try_run_or, update_lock}
use pennsignals_postgres.Ha.Follow.{handle_rewind_or_reinitialize}
use pennsignals_postgres.Ha.Remote.{get_node_to_follow, get_remote_master}
use pennsignals_postgres.Ha.Mode.{
  has_lock, is_standby_cluster, is_synchronous_mode, load_cluster_from_dcs,
}
use pennsignals_postgres.Ha.Election.{is_failover_possible}

-- `master_start_timeout` of 0: the leader rather fails over, if somebody can take over.
unfoldable pub prefer_failover : Program (Option String)
prefer_failover = do
  c ← cluster
  sync_mode ← is_synchronous_mode
  possible ←
      is_failover_possible
        (if sync_mode then keep (λ m. matches c.sync m.name) c.members else c.members)
  when possible (do demote immediate; pure (some "stopped PostgreSQL to fail over after a crash"))
      (pure none)

-- The start timeout of a node that keeps its leader key, and a message if it failed over.
unfoldable pub recover_as_leader : Program (Option ℕ × Option String)
recover_as_leader = do
  mine ← has_lock
  updated ← when mine (update_lock false) (pure false)
  timeout ← setting (λ k. k.master_start_timeout)
  when updated (do msg ← when (eqb timeout 0) prefer_failover (pure none); pure (some timeout, msg))
      (pure (none, none))

abbrev pub needs_crash_recovery : String → Bool
needs_crash_recovery state =
    state == "in production" || (state == "shutting down" || state == "in crash recovery")

-- A crashed data directory is first brought to a clean shutdown, once.
unfoldable pub crash_recovery : Program (Option String)
crash_recovery = do
  state ← invoke cluster_state
  done ← gets (λ h. h.crash_recovery_executed)
  c ← cluster
  wanted ←
      when (needs_crash_recovery state && not done)
        (when (is_unlocked c) (pure true) (invoke can_rewind)) (pure false)
  when wanted
      (do
        t ← invoke now
        modify (λ h. record h { crash_recovery_executed = true; crash_recovery_started = t })
        let msg : String = "doing crash recovery in a single user mode"
        ret ← try_run_or msg clean_shutdown_task msg
        pure (some ret))
      (pure none)

-- A node to follow, a role and the message for the cycle.
pub record Plan : Type 0 where
  pub node : Option Node
  pub role : String
  pub message : String

unfoldable pub plan_start : Program Plan
plan_start = do
  mine ← has_lock
  standby ← is_standby_cluster
  c ← cluster
  when (not standby && mine)
      (pure (record {
        node = none;
        role = "replica";
        message = "starting as readonly because i had the session lock";
      }))
      (when mine
        (do
          n ← get_node_to_follow c
          pure (record {
            node = n;
            role = "standby_leader";
            message = "starting as a standby leader because i had the session lock";
          }))
        (when (standby && is_unlocked c)
          (do
            n ← get_remote_master
            pure (record {
              node = n;
              role = "replica";
              message = "trying to follow a remote master because standby cluster is unhealthy";
            }))
          (do
            n ← get_node_to_follow c
            pure (record { node = n; role = "replica"; message = "starting as a secondary" }))))

-- A node that does not start as the leader may have to rewind first.
unfoldable pub rewind_before_start : Program (Option String)
rewind_before_start = do
  standby ← is_standby_cluster
  mine ← has_lock
  when (standby || not mine)
      (do
        executed ← invoke rewind_executed
        when executed (pure tt) (invoke trigger_check_diverged_lsn)
        handle_rewind_or_reinitialize)
      (pure none)

unfoldable pub start_postgres : Option ℕ → Program String
start_postgres timeout = do
  plan ← plan_start
  ret ← try_run_async "restarting after failure" (follow_task plan.node plan.role timeout)
  given ret (λ _. pure tt) (modify (λ h. record h { recovering = true }))
  pure plan.message

unfoldable pub recover : Program String
recover = do
  invoke watchdog_disable
  leading ← recover_as_leader
  given leading.1 pure (do
    busy ← crash_recovery
    given busy pure (do
      load_cluster_from_dcs
      msg ← rewind_before_start
      given msg pure (start_postgres leading.0)))

-- `post_recover`: a message if PostgreSQL could not be started.
unfoldable pub post_recover : Program (Option String)
post_recover = do
  running ← invoke postgres_is_running
  when running
      (do
        modify (λ h. record h { crash_recovery_executed = false })
        executed ← invoke rewind_executed
        failed ← when executed (invoke rewind_failed) (pure true)
        when failed (pure tt) (invoke reset_rewind)
        pure none)
      (do
        invoke watchdog_disable
        mine ← has_lock
        when mine
            (do
              role ← invoke get_role
              when (role == "master" || role == "standby_leader") (invoke (set_role "demoted"))
                  (pure tt)
              drop_leader_key none
              pure (some "removed leader key after trying and failing to start postgres"))
            (pure (some "failed to start postgres")))
