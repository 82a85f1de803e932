-- ===== src/Ha/Lead.antt =====
-- patroni/ha.py: `process_unhealthy_cluster` and `process_healthy_cluster`.
use pennsignals_postgres.Base.{
  String, Bool, true, false, not, ◌&&◌, ◌||◌, none, some, ◌==◌, is_some, if◌then◌else◌,
}
use pennsignals_postgres.Json.{str, truthy}
use pennsignals_postgres.Dcs.{is_name, requested}
use pennsignals_postgres.Ha.World.{
  write_failover, sleep, postgres_is_leader, get_role, call_nowait, sync_replication_slots,
  trigger_check_diverged_lsn, ensure_checkpoint_after_promote,
}
use pennsignals_postgres.Ha.Program.{
  Program, pure, gets, setting, invoke, ◌>>=◌, ◌>>◌, when, given, cluster,
}
use pennsignals_postgres.Ha.Lock.{acquire_lock, drop_leader_key, update_lock}
use pennsignals_postgres.Ha.Demote.{demote, immediate_nolock}
use pennsignals_postgres.Ha.Follow.{enforce_follow_remote_master, follow}
use pennsignals_postgres.Ha.Master.{enforce_master_role}
use pennsignals_postgres.Ha.Mode.{
  has_lock, is_paused, is_standby_cluster, load_cluster_from_dcs, my_name,
  set_leader_access_is_restricted,
}
use pennsignals_postgres.Ha.Race.{is_healthiest_node}
use pennsignals_postgres.Ha.Manual.{process_manual_failover_from_leader}

-- A failover request is used up by taking the lock, or kept for its candidate in pause.
unfoldable pub settle_failover : Program (Unit {0})
settle_failover = do
  c ← cluster
  paused ← is_paused
  given (requested c.failover)
      (λ f.
        when (paused && (truthy f.leader && truthy f.candidate))
          (invoke (write_failover (str "") f.candidate f.scheduled_at (some f.index)))
          (invoke (write_failover (str "") (str "") none none)))
      (pure tt)

-- The winner of the race, with the lock acquired.
unfoldable pub lead_after_race : Program String
lead_after_race = do
  settle_failover
  load_cluster_from_dcs
  standby ← is_standby_cluster
  when standby
      (enforce_follow_remote_master "promoted self to a standby leader by acquiring session lock")
      (enforce_master_role "acquired session lock as a leader"
        "promoted self to leader by acquiring session lock")

-- A node that does not take part in the race, or would lose it.
unfoldable pub follow_after_race : Program String
follow_after_race = do
  c ← cluster
  nofailover ← setting (λ k. k.nofailover)
  when (is_some (requested c.failover) || nofailover)
      (do invoke trigger_check_diverged_lsn; invoke (sleep 2)) (pure tt)
  when nofailover
      (follow "demoting self because I am not allowed to become master"
        "following a different leader because I am not allowed to promote" true)
      (follow "demoting self because i am not the healthiest node"
        "following a different leader because i am not the healthiest node" true)

unfoldable pub process_unhealthy_cluster : Program String
process_unhealthy_cluster = do
  healthiest ← is_healthiest_node
  when healthiest
      (do
        acquired ← acquire_lock
        when acquired lead_after_race (
            follow "demoted self after trying and failing to obtain lock"
              "following new leader after trying and failing to obtain lock" true))
      follow_after_race

-- The leader, after its key was updated.
unfoldable pub lead_with_lock : Program String
lead_with_lock = do
  msg ← process_manual_failover_from_leader
  given msg pure (do
    invoke ensure_checkpoint_after_promote
    standby ← is_standby_cluster
    when standby
        (do
          role ← invoke get_role
          enforce_follow_remote_master (
              if role == "standby_leader"
              then "no action.  i am the standby leader with the lock"
              else "promoted self to a standby leader because i had the session lock"))
        (enforce_master_role "no action.  i am the leader with the lock"
          "promoted self to leader because i had the session lock"))

-- The key could not be updated: there is no connection, or somebody else has it.
unfoldable pub lose_lock : Program String
lose_lock = do
  leads ← invoke postgres_is_leader
  when leads
      (do
        paused ← is_paused
        when paused (pure "continue to run as master after failing to update leader lock in DCS")
            (do
              demote immediate_nolock
              pure "demoted self because failed to update leader lock in DCS"))
      (pure "not promoting because failed to update leader lock in DCS")

-- A paused node whose PostgreSQL is no master gives the key back.
unfoldable pub return_lock : Program String
return_lock = do
  c ← cluster
  me ← my_name
  let mine : Bool = elim (requested c.failover) [ none ↦ false | some f ↦ is_name f.candidate me ]
  when mine (pure "waiting to become master after promote...") (do
    drop_leader_key none
    pure "removed leader lock because postgres is not running as master")

-- Access is no longer restricted once the logical slots are there.
unfoldable pub lift_restriction : Program (Unit {0})
lift_restriction = do
  leads ← invoke postgres_is_leader
  restricted ← gets (λ h. h.leader_access_is_restricted)
  when (leads && restricted)
      (do
        invoke sync_replication_slots
        invoke (call_nowait "on_role_change")
        set_leader_access_is_restricted false)
      (pure tt)

unfoldable pub process_healthy_cluster : Program String
process_healthy_cluster = do
  mine ← has_lock
  when mine
      (do
        paused ← is_paused
        idle ← when paused (do l ← invoke postgres_is_leader; pure (not l)) (pure false)
        when idle return_lock (do
          lift_restriction
          updated ← update_lock true
          when updated lead_with_lock lose_lock))
      (do
        standby ← is_standby_cluster
        when standby
            (follow "cannot be a real master in standby cluster"
              "no action.  i am a secondary and i am following a standby leader" false)
            (follow "demoting self because i do not have the lock and i was a leader"
              "no action.  i am a secondary and i am following a leader" false))
