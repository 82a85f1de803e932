-- ===== src/Ha/Safety/Startup.antt =====
-- The calls of the methods in Ha/Startup.antt.
use pennsignals_postgres.Base.{String}
use pennsignals_postgres.Ha.Emits.{Emits, emits_rules}
use pennsignals_postgres.Ha.Safety.Calls.{plain, plain_of_quiet}
use pennsignals_postgres.Ha.Safety.Invoke.{Emits-set_state, Emits-terminate_starting_postmaster}
use pennsignals_postgres.Ha.Startup.{
  starting_leader, handle_starting_instance, long_action_of_leader, stop_long_action,
  handle_long_action_in_progress,
}
use pennsignals_postgres.Ha.Safety.Mode.{cluster-Emits, has_lock-Emits, is_paused-Emits}
use pennsignals_postgres.Ha.Safety.Lock.{update_lock-Emits}
use pennsignals_postgres.Ha.Safety.Demote.{demote-Emits}
use pennsignals_postgres.Ha.Safety.Election.{is_failover_possible-Emits}
use pennsignals_postgres.Ha.Safety.Manual.{process_manual_failover_from_leader-Emits}

pub starting_leader-Emits : Emits plain starting_leader
unfolding starting_leader
starting_leader-Emits =
    search
      (
        emits_rules, plain_of_quiet, update_lock-Emits, demote-Emits, is_failover_possible-Emits,
        process_manual_failover_from_leader-Emits, cluster-Emits,
      )
      depth 60

pub handle_starting_instance-Emits : Emits plain handle_starting_instance
unfolding handle_starting_instance
handle_starting_instance-Emits =
    search
      (
        emits_rules, plain_of_quiet, is_paused-Emits, has_lock-Emits, starting_leader-Emits,
        Emits-set_state,
      )
      depth 60

pub long_action_of_leader-Emits : (action : String) → Emits plain (long_action_of_leader action)
unfolding long_action_of_leader
long_action_of_leader-Emits action =
    search (emits_rules, plain_of_quiet, demote-Emits, is_failover_possible-Emits, cluster-Emits)
      depth 60

pub stop_long_action-Emits : (action : String) → Emits plain (stop_long_action action)
unfolding stop_long_action
stop_long_action-Emits action =
    search (emits_rules, demote-Emits, Emits-terminate_starting_postmaster) depth 60

pub handle_long_action_in_progress-Emits : Emits plain handle_long_action_in_progress
unfolding handle_long_action_in_progress
handle_long_action_in_progress-Emits =
    search
      (
        emits_rules, plain_of_quiet, is_paused-Emits, has_lock-Emits, update_lock-Emits,
        long_action_of_leader-Emits, stop_long_action-Emits,
      )
      depth 60
