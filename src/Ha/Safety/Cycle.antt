-- ===== src/Ha/Safety/Cycle.antt =====
-- The calls of the methods in Ha/Cycle.antt.
use pennsignals_postgres.Base.{ℕ}
use pennsignals_postgres.Ha.Emits.{Emits, emits_rules}
use pennsignals_postgres.Ha.Safety.Calls.{plain, quiet, plain_of_quiet}
use pennsignals_postgres.Ha.Safety.Invoke.{
  Emits-delete_leader, Emits-watch_store, Emits-set_event, Emits-postgres_is_running,
  Emits-postgres_is_starting, Emits-call_nowait, Emits-stop_postgres,
  Emits-trigger_check_diverged_lsn, Emits-watchdog_disable,
}
use pennsignals_postgres.Ha.Cycle.{
  rewind_pending, stopped_in_pause, unhealthy_postgres, after_race, check_recovery, on_dcs_error,
  shutdown, watch, wakeup,
}
use pennsignals_postgres.Ha.Safety.Mode.{
  has_lock-Emits, is_leader-Emits, is_paused-Emits, master_stop_timeout-Emits,
}
use pennsignals_postgres.Ha.Safety.Lock.{drop_leader_key-Emits, touch_member-Emits}
use pennsignals_postgres.Ha.Safety.Demote.{demote-Emits}
use pennsignals_postgres.Ha.Safety.Sync.{while_not_sync_standby-Emits}
use pennsignals_postgres.Ha.Safety.Recovery.{post_recover-Emits, recover-Emits}

pub rewind_pending-Emits : Emits quiet rewind_pending
unfolding rewind_pending
rewind_pending-Emits = search (emits_rules) depth 60

pub stopped_in_pause-Emits : Emits plain stopped_in_pause
unfolding stopped_in_pause
stopped_in_pause-Emits =
    search
      (emits_rules, plain_of_quiet, has_lock-Emits, drop_leader_key-Emits, rewind_pending-Emits)
      depth 60

pub unhealthy_postgres-Emits : Emits plain unhealthy_postgres
unfolding unhealthy_postgres
unhealthy_postgres-Emits =
    search (emits_rules, plain_of_quiet, is_paused-Emits, recover-Emits, stopped_in_pause-Emits)
      depth 60

pub after_race-Emits : Emits quiet after_race
unfolding after_race
after_race-Emits =
    search
      (emits_rules, Emits-postgres_is_starting, Emits-trigger_check_diverged_lsn, Emits-call_nowait)
      depth 60

pub check_recovery-Emits : Emits plain check_recovery
unfolding check_recovery
check_recovery-Emits = search (emits_rules, post_recover-Emits) depth 60

pub on_dcs_error-Emits : Emits plain on_dcs_error
unfolding on_dcs_error
on_dcs_error-Emits =
    search (emits_rules, plain_of_quiet, is_paused-Emits, demote-Emits, Emits-postgres_is_running)
      depth 60

pub shutdown-Emits : Emits plain shutdown
unfolding shutdown
shutdown-Emits =
    search
      (
        emits_rules, plain_of_quiet, is_paused-Emits, master_stop_timeout-Emits, is_leader-Emits,
        touch_member-Emits, while_not_sync_standby-Emits, Emits-watchdog_disable,
        Emits-stop_postgres, Emits-delete_leader,
      )
      depth 60

pub watch-Emits : (timeout : ℕ) → Emits quiet (watch timeout)
unfolding watch
watch-Emits timeout = search (emits_rules, has_lock-Emits, Emits-watch_store) depth 60

pub wakeup-Emits : Emits quiet wakeup
unfolding wakeup
wakeup-Emits = search (emits_rules, Emits-set_event) depth 60
