-- ===== src/Ha/Safety/Follow.antt =====
-- The calls of the methods in Ha/Follow.antt.
use pennsignals_postgres.Base.{String, Bool, Option}
use pennsignals_postgres.Dcs.View.{Node}
use pennsignals_postgres.Ha.Emits.{Emits, emits_rules}
use pennsignals_postgres.Ha.Safety.Calls.{plain, quiet, plain_of_quiet}
use pennsignals_postgres.Ha.Safety.Invoke.{
  Emits-set_role, Emits-call_nowait, Emits-trigger_check_diverged_lsn,
}
use pennsignals_postgres.Ha.Follow.{
  handle_rewind_or_reinitialize, follow_paused, check_leader_history, change_recovery_conf,
  follow_tail, follow, enforce_follow_remote_master,
}
use pennsignals_postgres.Ha.Safety.Mode.{
  cluster-Emits, has_lock-Emits, is_paused-Emits, is_standby_cluster-Emits,
  load_cluster_from_dcs-Emits,
}
use pennsignals_postgres.Ha.Safety.Lock.{try_run_async-Emits, try_run_or-Emits}
use pennsignals_postgres.Ha.Safety.Remote.{get_node_to_follow-Emits, get_remote_master-Emits}
use pennsignals_postgres.Ha.Safety.Demote.{demote-Emits}

pub handle_rewind_or_reinitialize-Emits : Emits quiet handle_rewind_or_reinitialize
unfolding handle_rewind_or_reinitialize
handle_rewind_or_reinitialize-Emits =
    search
      (
        emits_rules, is_standby_cluster-Emits, try_run_or-Emits, get_remote_master-Emits,
        cluster-Emits,
      )
      depth 60

pub follow_paused-Emits :
    (is_leader : Bool) (target : Option Node) → Emits quiet (follow_paused is_leader target)
unfolding follow_paused
follow_paused-Emits is_leader target = search (emits_rules, cluster-Emits, Emits-set_role) depth 60

pub check_leader_history-Emits : Emits quiet check_leader_history
unfolding check_leader_history
check_leader_history-Emits =
    search (emits_rules, is_standby_cluster-Emits, Emits-trigger_check_diverged_lsn) depth 60

pub change_recovery_conf-Emits :
    (target : Option Node) (role : String) → Emits quiet (change_recovery_conf target role)
unfolding change_recovery_conf
change_recovery_conf-Emits target role =
    search (emits_rules, try_run_async-Emits, Emits-trigger_check_diverged_lsn, Emits-call_nowait)
      depth 60

pub follow_tail-Emits :
    (target : Option Node) (follow_reason : String) → Emits quiet (follow_tail target follow_reason)
unfolding follow_tail
follow_tail-Emits target follow_reason =
    search
      (
        emits_rules, is_standby_cluster-Emits, has_lock-Emits, handle_rewind_or_reinitialize-Emits,
        check_leader_history-Emits, change_recovery_conf-Emits,
      )
      depth 60

pub follow-Emits :
    (demote_reason : String) (follow_reason : String) (refresh : Bool)
    → Emits plain (follow demote_reason follow_reason refresh)
unfolding follow
follow-Emits demote_reason follow_reason refresh =
    search
      (
        emits_rules, plain_of_quiet, is_paused-Emits, load_cluster_from_dcs-Emits,
        get_node_to_follow-Emits, demote-Emits, follow_paused-Emits, follow_tail-Emits,
        cluster-Emits,
      )
      depth 60

pub enforce_follow_remote_master-Emits :
    (message : String) → Emits plain (enforce_follow_remote_master message)
unfolding enforce_follow_remote_master
enforce_follow_remote_master-Emits message = search (emits_rules, follow-Emits) depth 60
