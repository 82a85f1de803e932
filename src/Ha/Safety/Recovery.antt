-- ===== src/Ha/Safety/Recovery.antt =====
-- The calls of the methods in Ha/Recovery.antt.
use pennsignals_postgres.Base.{ℕ, Option}
use pennsignals_postgres.Ha.Emits.{Emits, emits_rules}
use pennsignals_postgres.Ha.Safety.Calls.{plain, quiet, plain_of_quiet}
use pennsignals_postgres.Ha.Safety.Invoke.{
  Emits-can_rewind, Emits-reset_rewind, Emits-trigger_check_diverged_lsn,
}
use pennsignals_postgres.Ha.Recovery.{
  prefer_failover, recover_as_leader, crash_recovery, plan_start, rewind_before_start,
  start_postgres, recover, post_recover,
}
use pennsignals_postgres.Ha.Safety.Mode.{
  cluster-Emits, has_lock-Emits, is_standby_cluster-Emits, is_synchronous_mode-Emits,
  load_cluster_from_dcs-Emits,
}
use pennsignals_postgres.Ha.Safety.Lock.{
  drop_leader_key-Emits, try_run_async-Emits, try_run_or-Emits, update_lock-Emits,
}
use pennsignals_postgres.Ha.Safety.Remote.{get_node_to_follow-Emits, get_remote_master-Emits}
use pennsignals_postgres.Ha.Safety.Demote.{demote-Emits}
use pennsignals_postgres.Ha.Safety.Follow.{handle_rewind_or_reinitialize-Emits}
use pennsignals_postgres.Ha.Safety.Election.{is_failover_possible-Emits}

pub prefer_failover-Emits : Emits plain prefer_failover
unfolding prefer_failover
prefer_failover-Emits =
    search
      (
        emits_rules, plain_of_quiet, is_synchronous_mode-Emits, demote-Emits,
        is_failover_possible-Emits, cluster-Emits,
      )
      depth 60

pub recover_as_leader-Emits : Emits plain recover_as_leader
unfolding recover_as_leader
recover_as_leader-Emits =
    search (emits_rules, plain_of_quiet, has_lock-Emits, update_lock-Emits, prefer_failover-Emits)
      depth 60

pub crash_recovery-Emits : Emits quiet crash_recovery
unfolding crash_recovery
crash_recovery-Emits =
    search (emits_rules, try_run_or-Emits, cluster-Emits, Emits-can_rewind) depth 60

pub plan_start-Emits : Emits plain plan_start
unfolding plan_start
plan_start-Emits =
    search
      (
        emits_rules, plain_of_quiet, is_standby_cluster-Emits, has_lock-Emits,
        get_remote_master-Emits, get_node_to_follow-Emits, cluster-Emits,
      )
      depth 60

pub rewind_before_start-Emits : Emits quiet rewind_before_start
unfolding rewind_before_start
rewind_before_start-Emits =
    search
      (
        emits_rules, is_standby_cluster-Emits, has_lock-Emits, handle_rewind_or_reinitialize-Emits,
        Emits-trigger_check_diverged_lsn,
      )
      depth 60

pub start_postgres-Emits : (timeout : Option ℕ) → Emits plain (start_postgres timeout)
unfolding start_postgres
start_postgres-Emits timeout =
    search (emits_rules, plain_of_quiet, try_run_async-Emits, plan_start-Emits) depth 60

pub recover-Emits : Emits plain recover
unfolding recover
recover-Emits =
    search
      (
        emits_rules, plain_of_quiet, load_cluster_from_dcs-Emits, recover_as_leader-Emits,
        crash_recovery-Emits, rewind_before_start-Emits, start_postgres-Emits,
      )
      depth 60

pub post_recover-Emits : Emits plain post_recover
unfolding post_recover
post_recover-Emits =
    search (emits_rules, plain_of_quiet, has_lock-Emits, drop_leader_key-Emits, Emits-reset_rewind)
      depth 60
