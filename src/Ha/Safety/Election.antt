-- ===== src/Ha/Safety/Election.antt =====
-- The calls of the methods in Ha/Election.antt.
use pennsignals_postgres.Base.{ℕ, Bool, List, [], ◌∷◌}
use pennsignals_postgres.Dcs.{Member, Cluster}
use pennsignals_postgres.Ha.Emits.{Emits, emits_rules, Emits-bind, Emits-pure}
use pennsignals_postgres.Ha.Safety.Calls.{quiet}
use pennsignals_postgres.Ha.Election.{
  fetch_node_status, fetch_nodes_statuses, timeline_is_behind, beats_members, is_healthiest_among,
  is_failover_possible,
}
use pennsignals_postgres.Ha.Safety.Mode.{
  check_timeline-Emits, cluster-Emits, is_standby_cluster-Emits, is_synchronous_mode-Emits,
  my_name-Emits,
}

pub fetch_node_status-Emits : (m : Member) → Emits quiet (fetch_node_status m)
unfolding fetch_node_status
fetch_node_status-Emits m = search (emits_rules) depth 60

pub fetch_nodes_statuses-Emits : (ms : List Member) → Emits quiet (fetch_nodes_statuses ms)
unfolding fetch_nodes_statuses
fetch_nodes_statuses-Emits [] = search (emits_rules) depth 60
fetch_nodes_statuses-Emits (m ∷ ms) =
    Emits-bind _ _ (fetch_node_status-Emits m)
      (λ st. Emits-bind _ _ (fetch_nodes_statuses-Emits ms) (λ sts. Emits-pure (st ∷ sts)))

pub timeline_is_behind-Emits : (c : Cluster) → Emits quiet (timeline_is_behind c)
unfolding timeline_is_behind
timeline_is_behind-Emits c = search (emits_rules) depth 60

pub beats_members-Emits :
    (my_wal_position : ℕ) (members : List Member)
    → Emits quiet (beats_members my_wal_position members)
unfolding beats_members
beats_members-Emits my_wal_position members =
    search
      (
        emits_rules, is_synchronous_mode-Emits, my_name-Emits, fetch_nodes_statuses-Emits,
        cluster-Emits,
      )
      depth 60

pub is_healthiest_among-Emits :
    (members : List Member) (check_replication_lag : Bool)
    → Emits quiet (is_healthiest_among members check_replication_lag)
unfolding is_healthiest_among
is_healthiest_among-Emits members check_replication_lag =
    search
      (
        emits_rules, check_timeline-Emits, is_standby_cluster-Emits, timeline_is_behind-Emits,
        beats_members-Emits, cluster-Emits,
      )
      depth 60

pub is_failover_possible-Emits :
    (members : List Member) → Emits quiet (is_failover_possible members)
unfolding is_failover_possible
is_failover_possible-Emits members =
    search
      (emits_rules, check_timeline-Emits, my_name-Emits, fetch_nodes_statuses-Emits, cluster-Emits)
      depth 60
