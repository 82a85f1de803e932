-- ===== src/Ha/Safety/Bootstrap.antt =====
-- The calls of the methods in Ha/Bootstrap.antt.
use pennsignals_postgres.Base.{Option}
use pennsignals_postgres.Dcs.{Cluster}
use pennsignals_postgres.Dcs.View.{Node}
use pennsignals_postgres.Ha.Emits.{Emits, emits_rules}
use pennsignals_postgres.Ha.Safety.Calls.{plain, quiet, plain_of_quiet}
use pennsignals_postgres.Ha.Safety.Invoke.{
  Emits-take_leader, Emits-follow_node, Emits-sync_replication_slots, Emits-response_complete,
}
use pennsignals_postgres.Ha.Bootstrap.{
  clone, bootstrap_from_member, bootstrap_new, bootstrap_without_leader, bootstrap,
  bootstrap_standby_leader, do_reinitialize, cancel_initialization, start_post_bootstrap,
  announce_cluster, finish_bootstrap, post_bootstrap,
}
use pennsignals_postgres.Ha.Safety.Mode.{
  cluster-Emits, is_standby_cluster-Emits, load_cluster_from_dcs-Emits, my_name-Emits,
  set_is_leader-Emits,
}
use pennsignals_postgres.Ha.Safety.Lock.{try_run_or-Emits}
use pennsignals_postgres.Ha.Safety.Remote.{
  get_node_to_follow-Emits, get_remote_master-Emits, get_remote_member-Emits,
}

pub clone-Emits : (clone_member : Option Node) → Emits quiet (clone clone_member)
unfolding clone
clone-Emits clone_member =
    search
      (
        emits_rules, is_standby_cluster-Emits, get_remote_member-Emits, get_node_to_follow-Emits,
        Emits-follow_node,
      )
      depth 60

pub bootstrap_from_member-Emits : (c : Cluster) → Emits quiet (bootstrap_from_member c)
unfolding bootstrap_from_member
bootstrap_from_member-Emits c = search (emits_rules, my_name-Emits, try_run_or-Emits) depth 60

pub bootstrap_new-Emits : Emits quiet bootstrap_new
unfolding bootstrap_new
bootstrap_new-Emits = search (emits_rules, is_standby_cluster-Emits, try_run_or-Emits) depth 60

pub bootstrap_without_leader-Emits : Emits quiet bootstrap_without_leader
unfolding bootstrap_without_leader
bootstrap_without_leader-Emits =
    search (emits_rules, is_standby_cluster-Emits, try_run_or-Emits) depth 60

pub bootstrap-Emits : Emits quiet bootstrap
unfolding bootstrap
bootstrap-Emits =
    search
      (
        emits_rules, bootstrap_from_member-Emits, bootstrap_new-Emits,
        bootstrap_without_leader-Emits, cluster-Emits,
      )
      depth 60

pub bootstrap_standby_leader-Emits : Emits quiet bootstrap_standby_leader
unfolding bootstrap_standby_leader
bootstrap_standby_leader-Emits =
    search (emits_rules, get_remote_master-Emits, clone-Emits, Emits-response_complete) depth 60

pub do_reinitialize-Emits : Emits quiet do_reinitialize
unfolding do_reinitialize
do_reinitialize-Emits = search (emits_rules, my_name-Emits, clone-Emits, cluster-Emits) depth 60

pub cancel_initialization-Emits : {A : Type 0} → Emits quiet (cancel_initialization {A = A})
unfolding cancel_initialization
cancel_initialization-Emits = search (emits_rules) depth 60

pub start_post_bootstrap-Emits : Emits quiet start_post_bootstrap
unfolding start_post_bootstrap
start_post_bootstrap-Emits = search (emits_rules, try_run_or-Emits) depth 60

pub announce_cluster-Emits : Emits quiet announce_cluster
unfolding announce_cluster
announce_cluster-Emits =
    search (emits_rules, cancel_initialization-Emits, cluster-Emits, Emits-sync_replication_slots)
      depth 60

pub finish_bootstrap-Emits : Emits plain finish_bootstrap
unfolding finish_bootstrap
finish_bootstrap-Emits =
    search
      (
        emits_rules, plain_of_quiet, set_is_leader-Emits, load_cluster_from_dcs-Emits,
        announce_cluster-Emits, Emits-take_leader,
      )
      depth 60

pub post_bootstrap-Emits : Emits plain post_bootstrap
unfolding post_bootstrap
post_bootstrap-Emits =
    search
      (
        emits_rules, plain_of_quiet, cancel_initialization-Emits, start_post_bootstrap-Emits,
        finish_bootstrap-Emits,
      )
      depth 60
