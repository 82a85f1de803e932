-- ===== src/Ha/Safety/Remote.antt =====
-- The calls of the methods in Ha/Remote.antt.
use pennsignals_postgres.Base.{Option}
use pennsignals_postgres.Dcs.{Cluster}
use pennsignals_postgres.Dcs.View.{Node}
use pennsignals_postgres.Ha.Emits.{Emits, emits_rules}
use pennsignals_postgres.Ha.Safety.Calls.{quiet}
use pennsignals_postgres.Ha.Remote.{get_remote_member, get_remote_master, get_node_to_follow}
use pennsignals_postgres.Ha.Safety.Mode.{
  cluster-Emits, get_standby_cluster_config-Emits, my_name-Emits,
}

pub get_remote_member-Emits : (member : Option Node) → Emits quiet (get_remote_member member)
unfolding get_remote_member
get_remote_member-Emits member = search (emits_rules, get_standby_cluster_config-Emits) depth 60

pub get_remote_master-Emits : Emits quiet get_remote_master
unfolding get_remote_master
get_remote_master-Emits = search (emits_rules, get_remote_member-Emits) depth 60

pub get_node_to_follow-Emits : (c : Cluster) → Emits quiet (get_node_to_follow c)
unfolding get_node_to_follow
get_node_to_follow-Emits c =
    search
      (
        emits_rules, get_standby_cluster_config-Emits, my_name-Emits, get_remote_master-Emits,
        cluster-Emits,
      )
      depth 60
