-- ===== src/Tests/Data.antt =====
-- A cluster of two nodes, and one of them: it has the leader key and is still a replica.
use pennsignals_postgres.Base.{String, true, false, none, some, List, [], ◌∷◌}
use pennsignals_postgres.Base.Int.{pos}
use pennsignals_postgres.Json.{null, num, str, bool, obj, end, field}
use pennsignals_postgres.Dcs.{Member, Leader, Cluster}
use pennsignals_postgres.Ha.World
use pennsignals_postgres.Ha.World.{
  Outcome, ok, raised, other_error, Call, Reply, Event, Settings, World,
}
use pennsignals_postgres.Ha.Program.{State}
use pennsignals_postgres.Ha.World.{dcs_error}

abbrev pub member : String → Member
member name = record {
  index = 1;
  name = name;
  session = null;
  payload = field "conn_url" (str "postgres://host/postgres") (
      field "api_url" (str "http://host:8008") (
        field "state" (str "running")
          (field "tags" (obj (field "clonefrom" (bool true) end)) end)));
}

abbrev pub leader : Leader
leader = record { index = 2; session = null; member = member "a" }

abbrev pub two_nodes : Cluster
two_nodes = record {
  initialize = some "6907236589641234567";
  config = some (record { index = 1; payload = field "ttl" (num (pos 30)) end; modify_index = 1 });
  leader = some leader;
  last_leader_operation = 100;
  members = member "a" ∷ member "b" ∷ [];
  failover = none;
  sync = record { index = none; leader = null; sync_standby = null };
  history = none;
}

abbrev pub settings : Settings
settings = record {
  name = "a";
  ttl = 30;
  loop_wait = 10;
  retry_timeout = 10;
  master_start_timeout = 300;
  master_stop_timeout = 0;
  maximum_lag_on_failover = 1048576;
  maximum_lag_on_syncnode = pos 0;
  synchronous_node_count = 1;
  nofailover = false;
  nosync = false;
  replicatefrom = none;
  has_bootstrap_section = true;
  dynamic_configuration = end;
}

-- The store renews the key, and PostgreSQL runs as a replica.
abbrev pub replies : List Event → (c : Call) → Outcome (Reply c)
replies t World.get_cluster = ok two_nodes
replies t (World.update_leader op restricted) = ok true
replies t World.reset_cluster_info_state = ok tt
replies t (World.report_member r) = ok true
replies t World.now = ok 1000
replies t World.postgres_is_leader = ok false
replies t World.postgres_is_running = ok true
replies t World.postgres_is_starting = ok false
replies t World.postgres_is_healthy = ok true
replies t World.check_for_startup = ok false
replies t World.get_role = ok "replica"
replies t World.get_state = ok "running"
replies t World.is_bootstrapping = ok false
replies t World.data_directory_empty = ok false
replies t World.sysid = ok "6907236589641234567"
replies t World.cb_called = ok true
replies t World.has_pending_restart = ok false
replies t World.last_operation = ok "100"
replies t World.rewind_is_needed = ok false
replies t World.watchdog_is_running = ok true
replies t World.watchdog_keepalive = ok tt
replies t World.scheduled_action = ok none
replies t (World.schedule_action a) = ok none
replies t (World.start_task a) = ok tt
replies t World.response_result = ok none
replies t World.response_reset = ok tt
replies t World.ensure_checkpoint_after_promote = ok tt
replies t World.sync_replication_slots = ok tt
replies t _ = raised other_error

abbrev pub start : State
start = record {
  world = record { settings = settings; answer = replies };
  ha = record {
    cluster = none;
    old_cluster = none;
    is_leader_until = 0;
    leader_access_is_restricted = false;
    was_paused = false;
    leader_timeline = null;
    recovering = false;
    crash_recovery_executed = false;
    crash_recovery_started = 0;
    start_timeout = none;
    disable_sync = 0;
    join_aborted = false;
    released_leader_key_timestamp = 0;
    scheduled_restart = none;
  };
  trace = [];
}
