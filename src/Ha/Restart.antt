-- ===== src/Ha/Restart.antt =====
-- patroni/ha.py: restarts, immediate and scheduled, and the reinitialisation on request.
use pennsignals_postgres.Base.{
  ℕ, String, ◌<>◌, Bool, true, false, not, ◌||◌, Option, none, some, ◌==◌, leb, is_some,
  if◌then◌else◌,
}
use pennsignals_postgres.Dcs.View.{is_unlocked}
use pennsignals_postgres.Postgresql.Version.{postgres_version_to_int}
use pennsignals_postgres.Ha.World.{
  other_error, RestartData, get_role, server_version, has_pending_restart, postmaster_start_time,
  scheduled_action, schedule_action, start_task, run_task, cancel_action, restart_task,
  reinitialize_task,
}
use pennsignals_postgres.Ha.Program.{
  Program, pure, raise, gets, setting, modify, invoke, ◌>>=◌, ◌>>◌, when, finally, given, cluster,
}
use pennsignals_postgres.Ha.Mode.{has_lock, is_synchronous_mode, load_cluster_from_dcs}
use pennsignals_postgres.Ha.Manual.{should_run_scheduled_action}
use pennsignals_postgres.Ha.Lock.{touch_member}

abbrev pub nonempty : Option String → Option String
nonempty none = none
nonempty (some s) = if s == "" then none else some s

abbrev pub other_role : Option String → String → Bool
other_role wanted role = elim (nonempty wanted) [ none ↦ false | some w ↦ not (w == role) ]

-- Whether the server already runs the version that the restart asks for.
unfoldable pub version_mismatch : Option String → Program Bool
version_mismatch wanted =
    given (nonempty wanted)
      (λ v.
        given (postgres_version_to_int v)
          (λ n. do current ← invoke server_version; pure (leb n current)) (raise other_error))
      (pure false)

-- `restart_matches`
unfoldable pub restart_matches : RestartData → Program Bool
restart_matches r = do
  role ← invoke get_role
  version ← version_mismatch r.postgres_version
  pending ← when r.restart_pending (do p ← invoke has_pending_restart; pure (not p)) (pure false)
  pure (not (other_role r.role role || (version || pending)))

-- The restart of a synchronous standby first waits to be released.
unfoldable pub waits_for_release : Program Bool
waits_for_release = do
  sync_mode ← is_synchronous_mode
  when sync_mode (do mine ← has_lock; pure (not mine)) (pure false)

unfoldable pub begin_restart : RestartData → Program ℕ
begin_restart r = do
  modify (λ h. record h { recovering = true })
  master_start_timeout ← setting (λ k. k.master_start_timeout)
  let timeout : ℕ = elim r.timeout [ none ↦ master_start_timeout | some t ↦ t ]
  modify (λ h. record h { start_timeout = some timeout })
  pure timeout

abbrev pub restart_outcome : Option Bool → Bool × String
restart_outcome none = (false, "postgres is still starting")
restart_outcome (some true) = (true, "restarted successfully")
restart_outcome (some false) = (false, "restart failed")

unfoldable pub run_restart : RestartData → Bool → Program (Bool × String)
run_restart r run_async = do
  timeout ← begin_restart r
  waits ← waits_for_release
  when run_async
      (do invoke (start_task (restart_task timeout waits)); pure (true, "restart initiated"))
      (do res ← invoke (run_task (restart_task timeout waits)); pure (restart_outcome res))

-- `restart`: whether it was done or begun, and a message.
unfoldable pub restart : RestartData → Bool → Program (Bool × String)
restart r run_async = do
  matches ← restart_matches r
  when matches
      (do
        prev ← invoke (schedule_action "restart")
        given prev (λ p. pure (false, p <> " already in progress")) (run_restart r run_async))
      (pure (false, "restart conditions are not satisfied"))

-- `schedule_future_restart`: one restart is scheduled at most.
unfoldable pub schedule_future_restart : RestartData → Program Bool
schedule_future_restart r = do
  started ← invoke postmaster_start_time
  old ← gets (λ h. h.scheduled_restart)
  given old (λ _. pure false)
      (do
        let r' = record r { postmaster_start_time = started }
        modify (λ h. record h { scheduled_restart = some r' })
        touch_member
        pure true)

unfoldable pub delete_future_restart : Program Bool
delete_future_restart = do
  old ← gets (λ h. h.scheduled_restart)
  given old (λ _. do modify (λ h. record h { scheduled_restart = none }); touch_member; pure true)
      (pure false)

-- A restart since the request makes the request obsolete.
abbrev pub obsolete : Option String → Option String → Bool
obsolete recent requested = elim (nonempty recent) [
  | none ↦ false
  | some a ↦ elim (nonempty requested) [ none ↦ false | some b ↦ not (a == b) ]
]

unfoldable pub run_scheduled_restart : RestartData → Program (Option String)
run_scheduled_restart r = do
  due ← should_run_scheduled_action r.schedule (do delete_future_restart; pure tt)
  when due
      (finally (do ret ← restart r true; pure (if ret.0 then some ret.1 else none))
        (do delete_future_restart; pure tt))
      (pure none)

unfoldable pub evaluate_scheduled_restart : Program (Option String)
evaluate_scheduled_restart = do
  action ← invoke scheduled_action
  wanted ← gets (λ h. h.scheduled_restart)
  given (if is_some action then none else wanted)
      (λ r. do
        recent ← invoke postmaster_start_time
        when (obsolete recent r.postmaster_start_time) (do delete_future_restart; pure none)
            (run_scheduled_restart r))
      (pure none)

-- `reinitialize`: a message if it is refused.
unfoldable pub reinitialize : Bool → Program (Option String)
reinitialize force = do
  load_cluster_from_dcs
  c ← cluster
  when (is_unlocked c) (pure (some "Cluster has no leader, can not reinitialize")) (do
    mine ← has_lock
    when mine (pure (some "I am the leader, can not reinitialize")) (do
      when force (invoke cancel_action) (pure tt)
      action ← invoke (schedule_action "reinitialize")
      given action (λ a. pure (some (a <> " already in progress")))
          (do invoke (start_task reinitialize_task); pure none)))
