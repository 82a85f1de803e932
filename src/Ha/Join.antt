-- ===== src/Ha/Join.antt =====
-- patroni/ha.py: the start of a cycle, and whether the data directory may join the cluster.
use pennsignals_postgres.Base.{
  String, Bool, true, false, not, ◌&&◌, if◌then◌else◌, ◌||◌, Option, none, some, ◌==◌, leb, is_some,
}
use pennsignals_postgres.Base.Text.{count, every, is_digit}
use pennsignals_postgres.Json.{truthy, obj}
use pennsignals_postgres.Dcs.{Cluster}
use pennsignals_postgres.Dcs.View.{is_unlocked, has_member}
use pennsignals_postgres.Ha.World.{
  exit_request, get_cluster, initialize_key, set_config_value, postgres_is_leader,
  postgres_is_running, set_role, sysid, cb_called, stop_postgres, reset_cluster_info_state,
  schedule_sanity_checks_after_pause, watchdog_disable,
}
use pennsignals_postgres.Ha.Program.{
  Program, pure, raise, gets, setting, modify, invoke, ◌>>=◌, ◌>>◌, when, given, cluster,
}
use pennsignals_postgres.Ha.Bootstrap.{bootstrap}
use pennsignals_postgres.Ha.Mode.{has_lock, is_paused, load_cluster_from_dcs, my_name}
use pennsignals_postgres.Ha.Lock.{release_leader_key_voluntarily, touch_member}

-- `sysid_valid`
unfoldable pub sysid_valid : String → Bool
sysid_valid id = leb 10 (count id) && every is_digit id

abbrev pub key_valid : Option String → Bool
key_valid none = false
key_valid (some id) = leb 10 (count id) && every is_digit id

-- The start of a cycle: load the view, and note whether the cluster is paused.
unfoldable pub begin_cycle : Program (Unit {0})
begin_cycle = do
  invoke reset_cluster_info_state
  load_cluster_from_dcs
  paused ← is_paused
  when paused (do invoke watchdog_disable; modify (λ h. record h { was_paused = true }))
      (do
        was_paused ← gets (λ h. h.was_paused)
        when was_paused (invoke schedule_sanity_checks_after_pause) (pure tt)
        modify (λ h. record h { was_paused = false }))
  c ← cluster
  me ← my_name
  when (has_member c me) (pure tt) (do touch_member; pure tt)

abbrev pub has_config : Cluster → Bool
has_config c = elim c.config [ none ↦ false | some cfg ↦ truthy (obj cfg.payload) ]

-- The leader restores the keys that the store lacks.
unfoldable pub repair_store : Program (Unit {0})
repair_store = do
  c ← cluster
  mine ← has_lock
  when (not (is_unlocked c || key_valid c.initialize) && mine)
      (do id ← invoke sysid; invoke (initialize_key (not (is_some c.initialize)) id); pure tt)
      (pure tt)
  when (not (is_unlocked c || has_config c) && mine)
      (do
        dynamic ← setting (λ k. k.dynamic_configuration)
        invoke (set_config_value dynamic)
        fresh ← invoke get_cluster
        modify (λ h. record h { cluster = some fresh }))
      (pure tt)

-- An empty data directory.
unfoldable pub empty_directory : Program String
empty_directory = do
  invoke (set_role "uninitialized")
  timeout ← setting (λ k. k.retry_timeout)
  invoke (stop_postgres "immediate" false false (some timeout))
  invoke watchdog_disable
  mine ← has_lock
  when mine
      (do
        release_leader_key_voluntarily none
        pure "released leader key voluntarily as data dir empty and currently leader")
      (do paused ← is_paused; when paused (pure "running with empty data directory") bootstrap)

-- Another cluster's data directory: in pause the key is given up, else Patroni exits.
unfoldable pub wrong_sysid : Program (Option String)
wrong_sysid = do
  paused ← is_paused
  when paused
      (do
        mine ← has_lock
        when mine
            (do
              release_leader_key_voluntarily none
              pure (some "released leader key voluntarily due to the system ID mismatch"))
            (pure none))
      (raise exit_request)

-- A running replica cannot found a cluster; any other node with data writes the initialize key.
unfoldable pub found_cluster : String → Program (Option String)
found_cluster id = do
  c ← cluster
  called ← invoke cb_called
  running ← when called (pure false) (invoke postgres_is_running)
  replica ← when running (do l ← invoke postgres_is_leader; pure (not l)) (pure false)
  when replica (do modify (λ h. record h { join_aborted = true }); raise exit_request)
      (do invoke (initialize_key (not (is_some c.initialize)) id); pure none)

-- The initialize key, if it is a valid identifier.
unfoldable pub known_sysid : Cluster → Option String
unfolding sysid_valid
known_sysid c = elim c.initialize [
  | none ↦ none
  | some key ↦ if sysid_valid key then some key else none
]

-- May a node with data join: a message if not.
unfoldable pub may_join : Program (Option String)
may_join = do
  id ← invoke sysid
  when (not (sysid_valid id))
      (pure (
        some
          "data dir for the cluster is not empty, but system ID is invalid; consider doing reinitialize"))
      (do
        c ← cluster
        paused ← is_paused
        given (known_sysid c) (λ key. when (key == id) (pure none) wrong_sysid)
            (when (is_unlocked c && not paused) (found_cluster id) (pure none)))
