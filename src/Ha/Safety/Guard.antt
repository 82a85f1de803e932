-- ===== src/Ha/Safety/Guard.antt =====
-- The methods that lead to a promotion, up to `run_cycle` (patroni/ha.py).
use pennsignals_postgres.Base.{refl, String, true, false}
use pennsignals_postgres.Ha.World.{
  postgres_is_healthy, is_bootstrapping, data_directory_empty, Exception, Outcome, ok, raised,
  dcs_error, postgres_error, fatal_error, exit_request,
}
use pennsignals_postgres.Ha.Program.{State}
use pennsignals_postgres.Ha.Emits.{Emits-invoke, emits_rules}
use pennsignals_postgres.Ha.Lead.{
  lead_after_race, lead_with_lock, process_unhealthy_cluster, process_healthy_cluster,
}
use pennsignals_postgres.Ha.Cycle.{
  run_race, run_with_data, run_idle, run_body, settle, run_cycle_body, on_exception, run_cycle,
}
use pennsignals_postgres.Ha.Safety.Calls.{plain_of_quiet, Justified}
use pennsignals_postgres.Ha.Safety.Triple.{
  Ends, Safe, Safe-plain, Safe-quiet, Safe-weaken, Safe-when, Safe-when_held, Safe-bind, Safe-pure,
  Safe-given, Safe-finally, Safe-catch, Safe-attempt,
}
use pennsignals_postgres.Ha.Safety.Key.{acquire_lock-Safe, update_lock-Safe}
use pennsignals_postgres.Ha.Safety.Promotion.{enforce_master_role-Safe}
use pennsignals_postgres.Ha.Safety.Mode.{
  cluster-Emits, has_lock-Emits, is_paused-Emits, is_standby_cluster-Emits,
  load_cluster_from_dcs-Emits,
}
use pennsignals_postgres.Ha.Safety.Lock.{touch_member-Emits}
use pennsignals_postgres.Ha.Safety.Follow.{enforce_follow_remote_master-Emits, follow-Emits}
use pennsignals_postgres.Ha.Safety.Race.{is_healthiest_node-Emits}
use pennsignals_postgres.Ha.Safety.Manual.{process_manual_failover_from_leader-Emits}
use pennsignals_postgres.Ha.Safety.Restart.{evaluate_scheduled_restart-Emits}
use pennsignals_postgres.Ha.Safety.Bootstrap.{post_bootstrap-Emits}
use pennsignals_postgres.Ha.Safety.Startup.{
  handle_long_action_in_progress-Emits, handle_starting_instance-Emits,
}
use pennsignals_postgres.Ha.Safety.Lead.{
  settle_failover-Emits, follow_after_race-Emits, lose_lock-Emits, return_lock-Emits,
  lift_restriction-Emits,
}
use pennsignals_postgres.Ha.Safety.Join.{
  begin_cycle-Emits, repair_store-Emits, empty_directory-Emits, may_join-Emits,
}
use pennsignals_postgres.Ha.Safety.Cycle.{
  unhealthy_postgres-Emits, after_race-Emits, check_recovery-Emits, on_dcs_error-Emits,
}

lead_after_race-Safe : Safe true lead_after_race (λ _. false)
unfolding lead_after_race
lead_after_race-Safe = Safe-bind _ _ (Safe-quiet true _ settle_failover-Emits) (λ u.
    Safe-bind _ _ (Safe-quiet true _ load_cluster_from_dcs-Emits) (λ v.
      Safe-bind _ _ (Safe-quiet true _ is_standby_cluster-Emits) (λ standby.
        Safe-when standby _ _ (Safe-plain true _ (enforce_follow_remote_master-Emits _))
          (enforce_master_role-Safe _ _))))

process_unhealthy_cluster-Safe : Safe false process_unhealthy_cluster (λ _. false)
unfolding process_unhealthy_cluster
process_unhealthy_cluster-Safe =
    Safe-bind _ _ (Safe-plain false _ (search (plain_of_quiet, is_healthiest_node-Emits)))
      (λ healthiest.
        Safe-when healthiest _ _
          (Safe-bind _ _ (acquire_lock-Safe false) (λ acquired.
            Safe-when_held acquired _ _ lead_after_race-Safe
              (Safe-plain false _ (follow-Emits _ _ _))))
          (Safe-plain false _ follow_after_race-Emits))

lead_with_lock-Safe : Safe true lead_with_lock (λ _. false)
unfolding lead_with_lock
lead_with_lock-Safe =
    Safe-bind _ _ (Safe-quiet true _ process_manual_failover_from_leader-Emits) (λ msg.
      Safe-given msg _ _ (λ m. Safe-weaken true _ (Safe-pure (λ _. false) m))
        (Safe-bind _ _ (Safe-quiet true _ (search (emits_rules))) (λ u.
          Safe-bind _ _ (Safe-quiet true _ is_standby_cluster-Emits) (λ standby.
            Safe-when standby _ _
              (Safe-plain true _
                (search (emits_rules, plain_of_quiet, enforce_follow_remote_master-Emits)))
              (enforce_master_role-Safe _ _)))))

process_healthy_cluster-Safe : Safe false process_healthy_cluster (λ _. false)
unfolding process_healthy_cluster
process_healthy_cluster-Safe = Safe-bind _ _ (Safe-quiet false _ has_lock-Emits) (λ mine.
    Safe-when mine _ _
      (Safe-bind _ _ (Safe-quiet false _ is_paused-Emits) (λ paused.
        Safe-bind _ _ (Safe-plain false _ (search (emits_rules))) (λ idle.
          Safe-when idle _ _ (Safe-plain false _ return_lock-Emits) (
            Safe-bind _ _ (Safe-plain false _ (search (plain_of_quiet, lift_restriction-Emits)))
              (λ u. Safe-bind _ _ (update_lock-Safe false true) (λ updated.
                Safe-when_held updated _ _ lead_with_lock-Safe
                  (Safe-plain false _ lose_lock-Emits)))))))
      (Safe-plain false _
        (search (emits_rules, plain_of_quiet, is_standby_cluster-Emits, follow-Emits))))

run_race-Safe : Safe false run_race (λ _. false)
unfolding run_race
run_race-Safe = Safe-bind _ _ (Safe-quiet false _ cluster-Emits) (λ c.
    Safe-when _ _ _ process_unhealthy_cluster-Safe (
      Safe-bind _ _ process_healthy_cluster-Safe (λ msg.
        Safe-plain false _
          (search (emits_rules, plain_of_quiet, evaluate_scheduled_restart-Emits)))))

run_with_data-Safe : Safe false run_with_data (λ _. false)
unfolding run_with_data
run_with_data-Safe = Safe-bind _ _ (Safe-plain false _ may_join-Emits) (λ refusal.
    Safe-given refusal _ _ (λ m. Safe-pure (λ _. false) m)
      (Safe-bind _ _ (Safe-plain false _ (Emits-invoke postgres_is_healthy refl)) (λ healthy.
        Safe-when healthy _ _ (Safe-finally _ _ run_race-Safe (plain_of_quiet _ after_race-Emits))
          (Safe-plain false _ unhealthy_postgres-Emits))))

run_idle-Safe : Safe false run_idle (λ _. false)
unfolding run_idle
run_idle-Safe = Safe-bind _ _ (Safe-plain false _ handle_starting_instance-Emits) (λ starting.
    Safe-given starting _ _ (λ m. Safe-pure (λ _. false) m)
      (Safe-bind _ _ (Safe-plain false _ (Emits-invoke is_bootstrapping refl)) (λ bootstrapping.
        Safe-when bootstrapping _ _ (Safe-plain false _ post_bootstrap-Emits) (
          Safe-bind _ _ (Safe-plain false _ check_recovery-Emits) (λ failed.
            Safe-given failed _ _ (λ m. Safe-pure (λ _. false) m)
              (Safe-bind _ _ (Safe-plain false _ (Emits-invoke data_directory_empty refl)) (λ empty.
                Safe-when empty _ _ (Safe-plain false _ empty_directory-Emits)
                  run_with_data-Safe)))))))

run_body-Safe : Safe false run_body (λ _. false)
unfolding run_body
run_body-Safe = Safe-bind _ _ (Safe-plain false _ begin_cycle-Emits) (λ u.
    Safe-bind _ _ (Safe-plain false _ (search (plain_of_quiet, repair_store-Emits))) (λ v.
      Safe-bind _ _ (Safe-plain false _ (search (emits_rules))) (λ action.
        Safe-when _ _ _ (Safe-plain false _ handle_long_action_in_progress-Emits) run_idle-Safe)))

settle-Safe : (r : Outcome String) → Safe false (settle r) (λ _. false)
unfolding settle
settle-Safe (ok msg) = Safe-plain false _ (search (emits_rules, plain_of_quiet, touch_member-Emits))
settle-Safe (raised dcs_error) = Safe-plain false _ on_dcs_error-Emits
settle-Safe (raised postgres_error) =
    Safe-plain false _ (search (emits_rules, plain_of_quiet, touch_member-Emits))
settle-Safe (raised e) =
    Safe-plain false _ (search (emits_rules, plain_of_quiet, touch_member-Emits))

run_cycle_body-Safe : Safe false run_cycle_body (λ _. false)
unfolding run_cycle_body
run_cycle_body-Safe = Safe-bind _ _ (Safe-attempt _ run_body-Safe) settle-Safe

on_exception-Safe : (e : Exception) → Safe false (on_exception e) (λ _. false)
unfolding on_exception
on_exception-Safe fatal_error = Safe-plain false _ (search (emits_rules))
on_exception-Safe exit_request = Safe-plain false _ (search (emits_rules))
on_exception-Safe _ = Safe-plain false _ (search (emits_rules))

run_cycle-Safe : Safe false run_cycle (λ _. false)
unfolding run_cycle
run_cycle-Safe =
    Safe-catch _ _
      (Safe-bind _ _ run_cycle_body-Safe
        (λ info. Safe-plain false _ (search (emits_rules, plain_of_quiet, is_paused-Emits))))
      on_exception-Safe

-- One cycle, whatever the store, PostgreSQL and the other members answer and whatever fails, keeps
-- this: before each request for a promotion in the trace, and in the same cycle, the store has granted a
-- request of this node to acquire or renew the leader key, and since then the node has neither asked for
-- the key again in vain nor given it up. What a view of the cluster that is loaded in between says of
-- the leader is not considered.
pub run_cycle-Justified : (s : State) → Justified s.trace → Justified (run_cycle s).1.trace
run_cycle-Justified s j =
    trace_of (run_cycle s).0 (run_cycle s).1 (run_cycle-Safe.at s (j, λ p. cc))
  where
    trace_of : (r : Outcome String) (t : State) → Ends (λ _. false) (r, t) → Justified t.trace
    trace_of (ok a) t l = l.0
    trace_of (raised e) t j = j
