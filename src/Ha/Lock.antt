-- ===== src/Ha/Lock.antt =====
-- patroni/ha.py: taking, keeping and giving up the leader key, and the report to the store.
use pennsignals_postgres.Base.{
  ℕ, String, Bool, true, false, not, ◌&&◌, ◌||◌, Option, none, some, ◌==◌, ltb, eqb, is_some,
  if◌then◌else◌,
}
use pennsignals_postgres.Dcs.Slots.{has_permanent_logical_slots}
use pennsignals_postgres.Ha.World.{
  WalPosition, attempt_to_acquire_leader, update_leader, delete_leader, reset_cluster,
  report_member, get_role, get_state, has_pending_restart, timeline_wal_position, received_timeline,
  pg_control_timeline, replica_cached_timeline, last_operation, checkpoint_after_promote,
  watchdog_keepalive, scheduled_action, schedule_action, start_task, Task,
}
use pennsignals_postgres.Ha.Program.{
  Program, pure, gets, setting, invoke, ◌>>=◌, ◌>>◌, when, rescue, given, cluster,
}
use pennsignals_postgres.Base.{◌<>◌}
use pennsignals_postgres.Ha.Mode.{
  is_leader, is_paused, my_name, set_is_leader, set_leader_access_is_restricted,
}

-- Access is restricted while the node has logical slots to create first.
unfoldable pub restrict_for_logical_slots : Program (Unit {0})
restrict_for_logical_slots = do
  c ← cluster
  me ← my_name
  set_leader_access_is_restricted (has_permanent_logical_slots c me)

unfoldable pub acquire_lock : Program Bool
acquire_lock = do
  restrict_for_logical_slots
  ret ← invoke attempt_to_acquire_leader
  set_is_leader ret
  pure ret

-- The last operation, or `None` if it was not asked for or cannot be read.
unfoldable pub operation_to_write : Bool → Program (Option String)
operation_to_write write_leader_optime =
    when write_leader_optime (rescue (do op ← invoke last_operation; pure (some op)) (pure none))
      (pure none)

-- Any exception but a request to exit counts as a failure to update the key.
unfoldable pub update_lock : Bool → Program Bool
update_lock write_leader_optime = do
  op ← operation_to_write write_leader_optime
  restricted ← gets (λ h. h.leader_access_is_restricted)
  ret ← rescue (invoke (update_leader op restricted)) (pure false)
  set_is_leader ret
  when ret (do invoke watchdog_keepalive; pure ret) (pure ret)

abbrev pub nonzero : Option ℕ → Option ℕ
nonzero none = none
nonzero (some n) = if eqb n 0 then none else some n

-- The timeline to report, looked for in several places until one is found.
unfoldable pub timeline_to_report : WalPosition → Program (Option ℕ)
timeline_to_report pos =
    given (nonzero pos.timeline) (λ t. pure (some t))
      do
        received ← invoke received_timeline
        given (nonzero received) (λ t. pure (some t))
            (do
              role ← invoke get_role
              when (role == "standby_leader")
                  (given (nonzero pos.control_timeline) (λ t. pure (some t))
                    (invoke pg_control_timeline))
                  (do tl ← gets (λ h. h.leader_timeline); invoke (replica_cached_timeline tl)))

-- The position and the timeline, as far as they can be read.
unfoldable pub wal_to_report : Program (Option ℕ × Option ℕ)
wal_to_report =
    rescue
      (do
        pos ← invoke timeline_wal_position
        tl ← rescue (timeline_to_report pos) (pure none)
        pure (some pos.position, nonzero tl))
      (pure (none, none))

abbrev pub reports_wal : Option String → String → Bool
reports_wal action state =
    elim action [ none ↦ true | some a ↦ a == "promote" ]
    && (state == "running" || (state == "restarting" || state == "starting"))

unfoldable pub touch_member : Program Bool
touch_member = do
  state ← invoke get_state
  role ← invoke get_role
  promoted ← when (role == "master") (do l ← is_leader; pure (not l)) (pure false)
  leads ← is_leader
  pending ← when leads (do done ← invoke checkpoint_after_promote; pure (not done)) (pure false)
  disabled ← gets (λ h. ltb 0 h.disable_sync)
  nosync ← setting (λ k. k.nosync)
  restart ← invoke has_pending_restart
  action ← invoke scheduled_action
  wal ← when (reports_wal action state) wal_to_report (pure (none, none))
  scheduled ← gets (λ h. is_some h.scheduled_restart)
  paused ← is_paused
  invoke (
      report_member (record {
        state = state;
        role = if promoted then "promoted" else role;
        checkpoint_pending = pending;
        nosync = nosync || disabled;
        pending_restart = restart;
        xlog_location = wal.0;
        timeline = wal.1;
        restart_is_scheduled = scheduled;
        pause = paused;
      }))

-- `_delete_leader`
unfoldable pub drop_leader_key : Option String → Program (Unit {0})
drop_leader_key op = do set_is_leader false; invoke (delete_leader op); invoke reset_cluster

unfoldable pub release_leader_key_voluntarily : Option String → Program (Unit {0})
release_leader_key_voluntarily op = do drop_leader_key op; touch_member; pure tt

-- `AsyncExecutor.try_run_async`: a message if another action is in progress.
unfoldable pub try_run_async : String → Task → Program (Option String)
try_run_async action task = do
  prev ← invoke (schedule_action action)
  given prev
      (λ p.
        pure (some ("Failed to run " <> (action <> (", " <> (p <> " is already in progress"))))))
      (do invoke (start_task task); pure none)

-- `try_run_async(...) or msg`
unfoldable pub try_run_or : String → Task → String → Program String
try_run_or action task msg = do ret ← try_run_async action task; given ret pure (pure msg)
