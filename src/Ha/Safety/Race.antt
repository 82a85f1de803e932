-- ===== src/Ha/Safety/Race.antt =====
-- The calls of the methods in Ha/Race.antt.
use pennsignals_postgres.Dcs.{Failover}
use pennsignals_postgres.Ha.Emits.{Emits, emits_rules}
use pennsignals_postgres.Ha.Safety.Calls.{quiet}
use pennsignals_postgres.Ha.Safety.Invoke.{Emits-postgres_is_leader}
use pennsignals_postgres.Ha.Race.{
  failover_among_all, candidate_is_healthy, paused_candidate, manual_failover_process_no_leader,
  race, master_is_healthiest, replica_is_healthiest, paused_failover, is_healthiest_node,
}
use pennsignals_postgres.Ha.Safety.Mode.{
  cluster-Emits, is_paused-Emits, is_synchronous_mode-Emits, my_name-Emits,
}
use pennsignals_postgres.Ha.Safety.Election.{
  fetch_node_status-Emits, is_failover_possible-Emits, is_healthiest_among-Emits,
}

pub failover_among_all-Emits : (f : Failover) → Emits quiet (failover_among_all f)
unfolding failover_among_all
failover_among_all-Emits f =
    search
      (
        emits_rules, my_name-Emits, is_healthiest_among-Emits, is_failover_possible-Emits,
        cluster-Emits,
      )
      depth 60

pub candidate_is_healthy-Emits : (f : Failover) → Emits quiet (candidate_is_healthy f)
unfolding candidate_is_healthy
candidate_is_healthy-Emits f = search (emits_rules, fetch_node_status-Emits, cluster-Emits) depth 60

pub paused_candidate-Emits : (f : Failover) → Emits quiet (paused_candidate f)
unfolding paused_candidate
paused_candidate-Emits f = search (emits_rules, cluster-Emits, Emits-postgres_is_leader) depth 60

pub manual_failover_process_no_leader-Emits :
    (f : Failover) → Emits quiet (manual_failover_process_no_leader f)
unfolding manual_failover_process_no_leader
manual_failover_process_no_leader-Emits f =
    search
      (
        emits_rules, is_paused-Emits, my_name-Emits, failover_among_all-Emits,
        candidate_is_healthy-Emits, paused_candidate-Emits,
      )
      depth 60

pub race-Emits : Emits quiet race
unfolding race
race-Emits =
    search
      (
        emits_rules, is_synchronous_mode-Emits, my_name-Emits, is_healthiest_among-Emits,
        cluster-Emits,
      )
      depth 60

pub master_is_healthiest-Emits : Emits quiet master_is_healthiest
unfolding master_is_healthiest
master_is_healthiest-Emits = search (emits_rules, is_paused-Emits, cluster-Emits) depth 60

pub replica_is_healthiest-Emits : Emits quiet replica_is_healthiest
unfolding replica_is_healthiest
replica_is_healthiest-Emits =
    search
      (
        emits_rules, is_paused-Emits, manual_failover_process_no_leader-Emits, race-Emits,
        cluster-Emits,
      )
      depth 60

pub paused_failover-Emits : Emits quiet paused_failover
unfolding paused_failover
paused_failover-Emits =
    search (emits_rules, is_paused-Emits, manual_failover_process_no_leader-Emits, cluster-Emits)
      depth 60

pub is_healthiest_node-Emits : Emits quiet is_healthiest_node
unfolding is_healthiest_node
is_healthiest_node-Emits =
    search
      (emits_rules, master_is_healthiest-Emits, replica_is_healthiest-Emits, paused_failover-Emits)
      depth 60
