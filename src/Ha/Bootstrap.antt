-- ===== src/Ha/Bootstrap.antt =====
-- patroni/ha.py: a node with an empty data directory.
use pennsignals_postgres.Base.{
  String, ◌<>◌, Bool, true, false, not, ◌&&◌, ◌||◌, Option, none, some, is_some, if◌then◌else◌,
}
use pennsignals_postgres.Dcs.{Cluster}
use pennsignals_postgres.Dcs.View.{
  Node, the_leader, a_remote, node_name, is_unlocked, get_clone_member,
}
use pennsignals_postgres.Ha.World.{
  fatal_error, other_error, get_cluster, initialize_key, set_config_value, take_leader,
  cancel_initialization_key, postgres_is_leader, postgres_is_running, set_role, set_bootstrapping,
  remove_data_directory, move_data_directory, sysid, call_nowait, stop_postgres, follow_node,
  sync_replication_slots, clone_from, can_create_replica_without_replication_connection,
  reset_rewind, watchdog_activate, response_result, response_reset, response_complete, random_pick,
  clone_task, bootstrap_task, bootstrap_standby_leader_task, post_bootstrap_task,
}
use pennsignals_postgres.Ha.Program.{
  Program, pure, raise, setting, invoke, ◌>>=◌, ◌>>◌, when, given, cluster,
}
use pennsignals_postgres.Ha.Remote.{
  allowed, get_node_to_follow, get_remote_master, get_remote_member,
}
use pennsignals_postgres.Ha.Mode.{is_standby_cluster, load_cluster_from_dcs, my_name, set_is_leader}
use pennsignals_postgres.Ha.Lock.{try_run_or}

abbrev pub is_remote_node : Option Node → Bool
is_remote_node (some (a_remote m)) = true
is_remote_node _ = false

-- `clone`: whether the copy was made and PostgreSQL started on it.
unfoldable pub clone : Option Node → Program (Option Bool)
clone clone_member = do
  standby ← is_standby_cluster
  source ←
      when (standby && not (is_remote_node clone_member)) (get_remote_member clone_member)
        (pure clone_member)
  invoke reset_rewind
  cloned ← invoke (clone_from source)
  when cloned
      (do
        c ← invoke get_cluster
        node ← get_node_to_follow c
        invoke (follow_node node "replica" none))
      (do invoke remove_data_directory; pure none)

abbrev pub clone_role : Option Node → String
clone_role (some (the_leader l)) = "leader"
clone_role _ = "replica"

-- With a leader: copy from a member, or else from the leader.
unfoldable pub bootstrap_from_member : Cluster → Program String
bootstrap_from_member c = do
  me ← my_name
  number ← invoke random_pick
  let source = get_clone_member c me number
  given source
      (λ n. do
        let msg : String = "from " <> (clone_role source <> (" '" <> (node_name n <> "'")))
        try_run_or ("bootstrap " <> msg) (clone_task source msg) ("trying to bootstrap " <> msg))
      (raise other_error)

-- The race for a new cluster.
unfoldable pub bootstrap_new : Program String
bootstrap_new = do
  won ← invoke (initialize_key true "")
  when won
      (do
        invoke (set_bootstrapping true)
        invoke response_reset
        standby ← is_standby_cluster
        when standby
            (try_run_or "bootstrap_standby_leader" bootstrap_standby_leader_task
              "trying to bootstrap a new standby leader")
            (try_run_or "bootstrap" bootstrap_task "trying to bootstrap a new cluster"))
      (pure "failed to acquire initialize lock")

unfoldable pub bootstrap_without_leader : Program String
bootstrap_without_leader = do
  standby ← is_standby_cluster
  possible ← invoke can_create_replica_without_replication_connection
  when possible
      (try_run_or "bootstrap (without leader)" (clone_task none "(without leader)")
        "trying to bootstrap (without leader)")
      (pure ("waiting for " <> ((if standby then "standby_" else "") <> "leader to bootstrap")))

unfoldable pub bootstrap : Program String
bootstrap = do
  c ← cluster
  nofailover ← setting (λ k. k.nofailover)
  allowed ← setting (λ k. k.has_bootstrap_section)
  when (not (is_unlocked c)) (bootstrap_from_member c) (
      when (not (is_some c.initialize) && (not nofailover && allowed)) bootstrap_new
        bootstrap_without_leader)

-- The task that takes the base backup of a standby leader.
unfoldable pub bootstrap_standby_leader : Program (Option Bool)
bootstrap_standby_leader = do
  source ← get_remote_master
  result ← clone source
  given result (λ b. invoke (response_complete b)) (pure tt)
  when (elim result [ some true ↦ true | _ ↦ false ])
      (do invoke (set_role "standby_leader"); pure result) (pure result)

-- `_do_reinitialize`: the task behind `reinitialize`.
unfoldable pub do_reinitialize : Program (Option Bool)
do_reinitialize = do
  timeout ← setting (λ k. k.retry_timeout)
  invoke (stop_postgres "immediate" false false (some timeout))
  c ← cluster
  me ← my_name
  number ← invoke random_pick
  clone (get_clone_member c me number)

unfoldable pub cancel_initialization : {A : Type 0} → Program A
cancel_initialization = do
  invoke cancel_initialization_key
  timeout ← setting (λ k. k.retry_timeout)
  invoke (stop_postgres "immediate" false false (some timeout))
  invoke move_data_directory
  raise fatal_error

-- The bootstrap script has run: wait for the promotion, and run what comes after it.
unfoldable pub start_post_bootstrap : Program String
start_post_bootstrap = do
  leads ← invoke postgres_is_leader
  when leads
      (do
        invoke (set_role "master")
        try_run_or "post_bootstrap" post_bootstrap_task "running post_bootstrap")
      (pure "waiting for end of recovery after bootstrap")

-- Everything has run: publish the new cluster and take the leader key.
-- The new cluster's identifier and configuration go to the store.
unfoldable pub announce_cluster : Program (Unit {0})
announce_cluster = do
  invoke (set_bootstrapping false)
  safe ← invoke watchdog_activate
  when safe (pure tt) cancel_initialization
  c ← cluster
  id ← invoke sysid
  invoke (initialize_key (not (is_some c.initialize)) id)
  dynamic ← setting (λ k. k.dynamic_configuration)
  invoke (set_config_value dynamic)
  invoke sync_replication_slots

unfoldable pub finish_bootstrap : Program String
finish_bootstrap = do
  announce_cluster
  invoke take_leader
  set_is_leader true
  invoke (call_nowait "on_start")
  load_cluster_from_dcs
  pure "initialized a new cluster"

unfoldable pub post_bootstrap : Program String
post_bootstrap = do
  result ← invoke response_result
  running ← invoke postgres_is_running
  when (not running || elim result [ some false ↦ true | _ ↦ false ]) cancel_initialization
      (given result (λ _. finish_bootstrap) start_post_bootstrap)
