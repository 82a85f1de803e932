-- ===== src/Ha/Safety/Restart.antt =====
-- The calls of the methods in Ha/Restart.antt.
use pennsignals_postgres.Base.{String, Bool, Option}
use pennsignals_postgres.Ha.World.{RestartData}
use pennsignals_postgres.Ha.Emits.{Emits, emits_rules}
use pennsignals_postgres.Ha.Safety.Calls.{quiet}
use pennsignals_postgres.Ha.Restart.{
  version_mismatch, restart_matches, waits_for_release, begin_restart, run_restart, restart,
  schedule_future_restart, delete_future_restart, run_scheduled_restart, evaluate_scheduled_restart,
  reinitialize,
}
use pennsignals_postgres.Ha.Safety.Mode.{
  cluster-Emits, has_lock-Emits, is_synchronous_mode-Emits, load_cluster_from_dcs-Emits,
}
use pennsignals_postgres.Ha.Safety.Lock.{touch_member-Emits}
use pennsignals_postgres.Ha.Safety.Manual.{should_run_scheduled_action-Emits}

pub version_mismatch-Emits : (wanted : Option String) → Emits quiet (version_mismatch wanted)
unfolding version_mismatch
version_mismatch-Emits wanted = search (emits_rules) depth 60

pub restart_matches-Emits : (r : RestartData) → Emits quiet (restart_matches r)
unfolding restart_matches
restart_matches-Emits r = search (emits_rules, version_mismatch-Emits) depth 60

pub waits_for_release-Emits : Emits quiet waits_for_release
unfolding waits_for_release
waits_for_release-Emits = search (emits_rules, is_synchronous_mode-Emits, has_lock-Emits) depth 60

pub begin_restart-Emits : (r : RestartData) → Emits quiet (begin_restart r)
unfolding begin_restart
begin_restart-Emits r = search (emits_rules) depth 60

pub run_restart-Emits : (r : RestartData) (run_async : Bool) → Emits quiet (run_restart r run_async)
unfolding run_restart
run_restart-Emits r run_async =
    search (emits_rules, waits_for_release-Emits, begin_restart-Emits) depth 60

pub restart-Emits : (r : RestartData) (run_async : Bool) → Emits quiet (restart r run_async)
unfolding restart
restart-Emits r run_async = search (emits_rules, restart_matches-Emits, run_restart-Emits) depth 60

pub schedule_future_restart-Emits : (r : RestartData) → Emits quiet (schedule_future_restart r)
unfolding schedule_future_restart
schedule_future_restart-Emits r = search (emits_rules, touch_member-Emits) depth 60

pub delete_future_restart-Emits : Emits quiet delete_future_restart
unfolding delete_future_restart
delete_future_restart-Emits = search (emits_rules, touch_member-Emits) depth 60

pub run_scheduled_restart-Emits : (r : RestartData) → Emits quiet (run_scheduled_restart r)
unfolding run_scheduled_restart
run_scheduled_restart-Emits r =
    search
      (emits_rules, should_run_scheduled_action-Emits, restart-Emits, delete_future_restart-Emits)
      depth 60

pub evaluate_scheduled_restart-Emits : Emits quiet evaluate_scheduled_restart
unfolding evaluate_scheduled_restart
evaluate_scheduled_restart-Emits =
    search (emits_rules, delete_future_restart-Emits, run_scheduled_restart-Emits) depth 60

pub reinitialize-Emits : (force : Bool) → Emits quiet (reinitialize force)
unfolding reinitialize
reinitialize-Emits force =
    search (emits_rules, has_lock-Emits, load_cluster_from_dcs-Emits, cluster-Emits) depth 60
