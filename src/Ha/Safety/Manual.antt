-- ===== src/Ha/Safety/Manual.antt =====
-- The calls of the methods in Ha/Manual.antt.
use pennsignals_postgres.Base.{Option}
use pennsignals_postgres.Dcs.{Failover, Schedule}
use pennsignals_postgres.Ha.Program.{Program}
use pennsignals_postgres.Ha.Emits.{Emits, emits_rules}
use pennsignals_postgres.Ha.Safety.Calls.{quiet}
use pennsignals_postgres.Ha.Safety.Invoke.{Emits-write_failover}
use pennsignals_postgres.Ha.Manual.{
  run_when_due, should_run_scheduled_action, clear_failover, hand_over,
  process_manual_failover_from_leader,
}
use pennsignals_postgres.Ha.Safety.Mode.{
  cluster-Emits, is_paused-Emits, is_synchronous_mode-Emits, my_name-Emits,
}
use pennsignals_postgres.Ha.Safety.Lock.{try_run_or-Emits}
use pennsignals_postgres.Ha.Safety.Election.{is_failover_possible-Emits}

pub run_when_due-Emits :
    (at : Schedule) (cleanup_fn : Program (Unit {0}))
    → Emits quiet cleanup_fn
    → Emits quiet (run_when_due at cleanup_fn)
unfolding run_when_due
run_when_due-Emits at cleanup_fn h = search (emits_rules) depth 60

pub should_run_scheduled_action-Emits :
    (at : Option Schedule) (cleanup_fn : Program (Unit {0}))
    → Emits quiet cleanup_fn
    → Emits quiet (should_run_scheduled_action at cleanup_fn)
unfolding should_run_scheduled_action
should_run_scheduled_action-Emits at cleanup_fn h =
    search (emits_rules, is_paused-Emits, run_when_due-Emits) depth 60

pub clear_failover-Emits : (f : Failover) → Emits quiet (clear_failover f)
unfolding clear_failover
clear_failover-Emits f = search (emits_rules, Emits-write_failover) depth 60

pub hand_over-Emits : (f : Failover) → Emits quiet (hand_over f)
unfolding hand_over
hand_over-Emits f =
    search
      (
        emits_rules, is_paused-Emits, is_synchronous_mode-Emits, my_name-Emits, try_run_or-Emits,
        is_failover_possible-Emits, clear_failover-Emits, cluster-Emits,
      )
      depth 60

pub process_manual_failover_from_leader-Emits : Emits quiet process_manual_failover_from_leader
unfolding process_manual_failover_from_leader
process_manual_failover_from_leader-Emits =
    search
      (
        emits_rules, is_paused-Emits, should_run_scheduled_action-Emits, clear_failover-Emits,
        hand_over-Emits, cluster-Emits,
      )
      depth 60
