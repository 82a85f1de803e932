-- ===== src/Ha/Election.antt =====
-- patroni/ha.py: is this node the healthiest, and is there anyone to fail over to.
use pennsignals_postgres.Base.{ℕ, Bool, false, not, ◌&&◌, List, [], ◌∷◌}
use pennsignals_postgres.Base.Int.{pos, ltb_ℤ}
use pennsignals_postgres.Json.{num}
use pennsignals_postgres.Dcs.{Member, Cluster}
use pennsignals_postgres.Dcs.View
use pennsignals_postgres.Dcs.View.{get_member}
use pennsignals_postgres.Ha.World.{
  other_error, request_status, timeline_wal_position, replica_cached_timeline,
}
use pennsignals_postgres.Ha.Program.{
  Program, pure, raise, setting, invoke, ◌>>=◌, when, given, cluster,
}
use pennsignals_postgres.Ha.Status.{
  MemberStatus, status_of, is_lagging, to_ask, wins_against, any_candidate,
}
use pennsignals_postgres.Ha.Mode.{check_timeline, is_standby_cluster, is_synchronous_mode, my_name}

unfoldable pub fetch_node_status : Member → Program MemberStatus
fetch_node_status m = do body ← invoke (request_status m); pure (status_of m body)

unfoldable pub fetch_nodes_statuses : List Member → Program (List MemberStatus)
fetch_nodes_statuses [] = pure []
fetch_nodes_statuses (m ∷ ms) = do
  st ← fetch_node_status m
  sts ← fetch_nodes_statuses ms
  pure (st ∷ sts)

-- The comparison of this node's timeline with the cluster's; an unknown one is a `TypeError`.
unfoldable pub timeline_is_behind : Cluster → Program Bool
timeline_is_behind c = do
  mine ← invoke (replica_cached_timeline (num (View.timeline c)))
  given mine (λ t. pure (ltb_ℤ (pos t) (View.timeline c))) (raise other_error)

-- The last part of `_is_healthiest_node`: ask the others.
unfoldable pub beats_members : ℕ → List Member → Program Bool
beats_members my_wal_position members = do
  c ← cluster
  me ← my_name
  sync_mode ← is_synchronous_mode
  statuses ← fetch_nodes_statuses (to_ask me members)
  pure (wins_against my_wal_position sync_mode c.sync statuses)

-- `_is_healthiest_node`
unfoldable pub is_healthiest_among : List Member → Bool → Program Bool
is_healthiest_among members check_replication_lag = do
  mine ← invoke timeline_wal_position
  c ← cluster
  maximum_lag ← setting (λ k. k.maximum_lag_on_failover)
  when (check_replication_lag && is_lagging c maximum_lag mine.position) (pure false) (do
    standby ← is_standby_cluster
    checks ← check_timeline
    behind ← when (not standby && checks) (timeline_is_behind c) (pure false)
    when behind (pure false) (beats_members mine.position members))

unfoldable pub is_failover_possible : List Member → Program Bool
is_failover_possible members = do
  c ← cluster
  me ← my_name
  maximum_lag ← setting (λ k. k.maximum_lag_on_failover)
  checks ← check_timeline
  statuses ← fetch_nodes_statuses (to_ask me members)
  pure (any_candidate c maximum_lag checks false statuses)
