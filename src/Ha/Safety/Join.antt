-- ===== src/Ha/Safety/Join.antt =====
-- The calls of the methods in Ha/Join.antt.
use pennsignals_postgres.Base.{String}
use pennsignals_postgres.Ha.Emits.{Emits, emits_rules}
use pennsignals_postgres.Ha.Safety.Calls.{plain, quiet, plain_of_quiet}
use pennsignals_postgres.Ha.Safety.Invoke.{
  Emits-postgres_is_running, Emits-reset_cluster_info_state,
}
use pennsignals_postgres.Ha.Join.{
  begin_cycle, repair_store, empty_directory, wrong_sysid, found_cluster, may_join,
}
use pennsignals_postgres.Ha.Safety.Mode.{
  cluster-Emits, has_lock-Emits, is_paused-Emits, load_cluster_from_dcs-Emits, my_name-Emits,
}
use pennsignals_postgres.Ha.Safety.Lock.{release_leader_key_voluntarily-Emits, touch_member-Emits}
use pennsignals_postgres.Ha.Safety.Bootstrap.{bootstrap-Emits}

pub begin_cycle-Emits : Emits plain begin_cycle
unfolding begin_cycle
begin_cycle-Emits =
    search
      (
        emits_rules, plain_of_quiet, is_paused-Emits, my_name-Emits, load_cluster_from_dcs-Emits,
        touch_member-Emits, cluster-Emits, Emits-reset_cluster_info_state,
      )
      depth 60

pub repair_store-Emits : Emits quiet repair_store
unfolding repair_store
repair_store-Emits = search (emits_rules, has_lock-Emits, cluster-Emits) depth 60

pub empty_directory-Emits : Emits plain empty_directory
unfolding empty_directory
empty_directory-Emits =
    search
      (
        emits_rules, plain_of_quiet, is_paused-Emits, has_lock-Emits,
        release_leader_key_voluntarily-Emits, bootstrap-Emits,
      )
      depth 60

pub wrong_sysid-Emits : Emits plain wrong_sysid
unfolding wrong_sysid
wrong_sysid-Emits =
    search
      (
        emits_rules, plain_of_quiet, is_paused-Emits, has_lock-Emits,
        release_leader_key_voluntarily-Emits,
      )
      depth 60

pub found_cluster-Emits : (id : String) → Emits quiet (found_cluster id)
unfolding found_cluster
found_cluster-Emits id = search (emits_rules, cluster-Emits, Emits-postgres_is_running) depth 60

pub may_join-Emits : Emits plain may_join
unfolding may_join
may_join-Emits =
    search
      (
        emits_rules, plain_of_quiet, is_paused-Emits, wrong_sysid-Emits, found_cluster-Emits,
        cluster-Emits,
      )
      depth 60
