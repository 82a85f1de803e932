-- ===== src/Ha/Remote.antt =====
-- patroni/ha.py: whom to follow.
use pennsignals_postgres.Base.{
  String, ◌<>◌, Bool, true, false, not, ◌&&◌, ◌||◌, Option, none, some, ◌==◌, if◌then◌else◌,
}
use pennsignals_postgres.Json.{
  Value, null, bool, obj, Fields, end, field, get, has_key, truthy, fields, put, remove,
}
use pennsignals_postgres.Dcs.{Member, Cluster}
use pennsignals_postgres.Dcs.View.{
  Node, a_member, the_leader, a_remote, node_member, node_name, is_unlocked, get_member,
}
use pennsignals_postgres.Ha.World.{random_uuid, conn_kwargs}
use pennsignals_postgres.Ha.Program.{Program, pure, setting, invoke, ◌>>=◌, when, given, cluster}
use pennsignals_postgres.Ha.Mode.{
  describes_standby_cluster, get_standby_cluster_config, my_name, owns_lock,
}

-- `RemoteMember.allowed_keys`
abbrev pub is_allowed_key : String → Bool
is_allowed_key k =
    k == "primary_slot_name"
    || (k == "create_replica_methods"
        || (k == "restore_command"
            || (k == "archive_cleanup_command"
                || (k == "recovery_min_apply_delay" || k == "no_replication_slot"))))

unfoldable pub allowed : Fields → Fields
allowed end = end
allowed (field k v d) = let rest = allowed d in if is_allowed_key k then field k v rest else rest

unfoldable pub pick_key : String → Fields → Fields → Fields
pick_key k from onto = if has_key k from then field k (get k from) onto else onto

unfoldable pub remote_member : String → Fields → Fields → Node
remote_member name params kwargs =
    let base =
      put "no_replication_slot" (bool (not (has_key "primary_slot_name" params)))
        (allowed params) in
    a_remote (record {
      index = 0;
      name = name;
      session = null;
      payload = if truthy (obj kwargs) then put "conn_kwargs" (obj kwargs) base else base;
    })

-- `get_remote_member`; the configuration is a dictionary where it is set.
unfoldable pub get_remote_member : Option Node → Program (Option Node)
get_remote_member member = do
  config ← get_standby_cluster_config
  when (truthy config)
      (given member
        (λ m. do
          kwargs ← invoke (conn_kwargs (node_member m))
          pure (some (remote_member (node_name m) (fields config) kwargs)))
        (do
          id ← invoke random_uuid
          pure (
              some (
                remote_member ("remote_master:" <> id) (fields config)
                  (pick_key "host" (fields config) (pick_key "port" (fields config) end))))))
      (pure none)

unfoldable pub get_remote_master : Program (Option Node)
get_remote_master = get_remote_member none

abbrev pub is_remote : Node → Bool
is_remote (a_remote m) = true
is_remote (a_member m) = false
is_remote (the_leader l) = false

abbrev pub with_payload : (Fields → Fields) → Member → Member
with_payload f m = record m { payload = f m.payload }

unfoldable pub put_set : String → Value → Fields → Fields
put_set k v d = if truthy v then put k v d else d

-- The recovery parameters come from the standby cluster's configuration alone.
unfoldable pub recovery_parameters : Bool → Fields → Fields → Fields
recovery_parameters standby params d =
    let clean = remove "archive_cleanup_command" (remove "restore_command" d) in
    if standby
    then put_set "archive_cleanup_command" (get "archive_cleanup_command" params)
        (put_set "restore_command" (get "restore_command" params) clean)
    else clean

unfoldable pub prepare_node : Bool → Fields → Node → Node
prepare_node standby params (a_member m) =
    a_member (with_payload (recovery_parameters standby params) m)
prepare_node standby params (the_leader l) =
    the_leader (record l { member = with_payload (recovery_parameters standby params) l.member })
prepare_node standby params (a_remote m) = a_remote m

-- Nobody follows itself.
unfoldable pub not_me : String → Option Node → Option Node
not_me me none = none
not_me me (some n) = if node_name n == me then none else some n

-- `cluster.leader if cluster.leader and cluster.leader.name else None`
abbrev pub named_leader : Cluster → Option Node
named_leader c = elim c.leader [
  | none ↦ none
  | some l ↦ if l.member.name == "" then none else some (the_leader l)
]

-- The member that the `replicatefrom` tag or the leader key names.
unfoldable pub source_in_cluster : Option String → String → Cluster → Option Node
source_in_cluster none me c = named_leader c
source_in_cluster (some source) me c =
    if source == "" || source == me then named_leader c else get_member c source true

-- `_get_node_to_follow`
unfoldable pub get_node_to_follow : Cluster → Program (Option Node)
get_node_to_follow c = do
  config ← get_standby_cluster_config
  own ← cluster
  me ← my_name
  source ← setting (λ k. k.replicatefrom)
  node ←
      when (describes_standby_cluster config && (is_unlocked own || owns_lock own me))
        get_remote_master (pure (source_in_cluster source me c))
  given (not_me me node)
      (λ n. pure (some (prepare_node (describes_standby_cluster config) (fields config) n)))
      (pure none)
