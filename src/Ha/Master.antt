-- ===== src/Ha/Master.antt =====
-- patroni/ha.py: `enforce_master_role`, the only place where a promotion is requested, and the
-- manual failover of a leader.
use pennsignals_postgres.Base.{
  String, Bool, true, false, Option, none, some, [], ◌∷◌, ◌==◌, if◌then◌else◌,
}
use pennsignals_postgres.Ha.World.{
  write_sync_state, now, postgres_is_leader, get_role, set_role, set_synchronous_standby,
  watchdog_is_running, watchdog_activate, response_result, response_reset, promote_task,
}
use pennsignals_postgres.Ha.Program.{
  Program, pure, gets, modify, invoke, ◌>>=◌, ◌>>◌, when, given, cluster,
}
use pennsignals_postgres.Ha.Demote.{demote, immediate}
use pennsignals_postgres.Ha.Mode.{
  is_paused, is_synchronous_mode, is_synchronous_mode_strict, my_name,
}
use pennsignals_postgres.Ha.Sync.{process_sync_replication}
use pennsignals_postgres.Ha.Lock.{
  release_leader_key_voluntarily, restrict_for_logical_slots, try_run_async,
}
use pennsignals_postgres.Ha.History.{update_cluster_history}

-- The watchdog has to run before a promotion; a message ends the cycle.
unfoldable pub require_watchdog : Program (Option String)
require_watchdog = do
  running ← invoke watchdog_is_running
  safe ← when running (pure true) (invoke watchdog_activate)
  when safe (pure none) (do
    leads ← invoke postgres_is_leader
    when leads
        (do demote immediate; pure (some "Demoting self because watchdog could not be activated"))
        (do
          release_leader_key_voluntarily none
          pure (some "Not promoting self because watchdog could not be activated")))

-- A failed pre-promote script costs the leader key.
unfoldable pub require_pre_promote : Program (Option String)
require_pre_promote = do
  result ← invoke response_result
  when (elim result [ some false ↦ true | _ ↦ false ])
      (do
        t ← invoke now
        modify (λ h. record h { released_leader_key_timestamp = t })
        release_leader_key_voluntarily none
        invoke response_reset
        pure (some "Promotion cancelled because the pre-promote script failed"))
      (pure none)

-- Become the authority on synchronous replication; `false` if somebody else wrote first.
unfoldable pub claim_sync_state : Program Bool
claim_sync_state = do
  sync_mode ← is_synchronous_mode
  c ← cluster
  me ← my_name
  when sync_mode
      (do
        written ← invoke (write_sync_state me none c.sync.index)
        when written
            (do
              strict ← is_synchronous_mode_strict
              invoke (set_synchronous_standby (if strict then "*" ∷ [] else []))
              pure true)
            (pure false))
      (pure true)

-- The request itself, while the node is still a replica.
unfoldable pub request_promotion : Program (Unit {0})
request_promotion = do
  role ← invoke get_role
  when (role == "master") (pure tt) (do
    restrict_for_logical_slots
    invoke response_reset
    restricted ← gets (λ h. h.leader_access_is_restricted)
    try_run_async "promote" (promote_task restricted)
    pure tt)

-- The role of the node that owns the key: known to be the master, or to become it.
unfoldable pub take_master_role : String → String → Program String
take_master_role message promote_message = do
  leads ← invoke postgres_is_leader
  when leads
      (do
        invoke (set_role "master")
        process_sync_replication
        update_cluster_history
        pure message)
      (do
        role ← invoke get_role
        when (role == "master") (do process_sync_replication; pure message)
            (do
              ours ← claim_sync_state
              when ours (do request_promotion; pure promote_message)
                  (pure
                    "Postponing promotion because synchronous replication state was updated by somebody else")))

unfoldable pub enforce_master_role : String → String → Program String
enforce_master_role message promote_message = do
  paused ← is_paused
  stop ←
      when paused (pure none)
        (do unsafe ← require_watchdog; given unsafe (λ m. pure (some m)) require_pre_promote)
  given stop pure (take_master_role message promote_message)
