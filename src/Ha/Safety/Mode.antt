-- ===== src/Ha/Safety/Mode.antt =====
-- The calls of the methods in Ha/Mode.antt.
use pennsignals_postgres.Base.{String, Bool}
use pennsignals_postgres.Ha.Program.{cluster}
use pennsignals_postgres.Ha.Emits.{Emits, emits_rules}
use pennsignals_postgres.Ha.Safety.Calls.{quiet}
use pennsignals_postgres.Ha.Mode.{
  check_mode, is_paused, check_timeline, is_synchronous_mode, is_synchronous_mode_strict,
  get_standby_cluster_config, is_standby_cluster, master_stop_timeout, my_name, is_leader,
  set_is_leader, set_leader_access_is_restricted, has_lock, load_cluster_from_dcs,
}

pub cluster-Emits : Emits quiet cluster
unfolding cluster
cluster-Emits = search (emits_rules) depth 60

pub check_mode-Emits : (mode : String) → Emits quiet (check_mode mode)
unfolding check_mode
check_mode-Emits mode = search (emits_rules) depth 60

pub is_paused-Emits : Emits quiet is_paused
unfolding is_paused
is_paused-Emits = search (emits_rules, check_mode-Emits) depth 60

pub check_timeline-Emits : Emits quiet check_timeline
unfolding check_timeline
check_timeline-Emits = search (emits_rules, check_mode-Emits) depth 60

pub is_synchronous_mode-Emits : Emits quiet is_synchronous_mode
unfolding is_synchronous_mode
is_synchronous_mode-Emits = search (emits_rules, check_mode-Emits) depth 60

pub is_synchronous_mode_strict-Emits : Emits quiet is_synchronous_mode_strict
unfolding is_synchronous_mode_strict
is_synchronous_mode_strict-Emits = search (emits_rules, check_mode-Emits) depth 60

pub get_standby_cluster_config-Emits : Emits quiet get_standby_cluster_config
unfolding get_standby_cluster_config
get_standby_cluster_config-Emits = search (emits_rules) depth 60

pub is_standby_cluster-Emits : Emits quiet is_standby_cluster
unfolding is_standby_cluster
is_standby_cluster-Emits = search (emits_rules, get_standby_cluster_config-Emits) depth 60

pub master_stop_timeout-Emits : Emits quiet master_stop_timeout
unfolding master_stop_timeout
master_stop_timeout-Emits = search (emits_rules, is_synchronous_mode-Emits) depth 60

pub my_name-Emits : Emits quiet my_name
unfolding my_name
my_name-Emits = search (emits_rules) depth 60

pub is_leader-Emits : Emits quiet is_leader
unfolding is_leader
is_leader-Emits = search (emits_rules) depth 60

pub set_is_leader-Emits : (value : Bool) → Emits quiet (set_is_leader value)
unfolding set_is_leader
set_is_leader-Emits value = search (emits_rules) depth 60

pub set_leader_access_is_restricted-Emits :
    (value : Bool) → Emits quiet (set_leader_access_is_restricted value)
unfolding set_leader_access_is_restricted
set_leader_access_is_restricted-Emits value = search (emits_rules) depth 60

pub has_lock-Emits : Emits quiet has_lock
unfolding has_lock
has_lock-Emits = search (emits_rules, my_name-Emits, cluster-Emits) depth 60

pub load_cluster_from_dcs-Emits : Emits quiet load_cluster_from_dcs
unfolding load_cluster_from_dcs
load_cluster_from_dcs-Emits = search (emits_rules, set_is_leader-Emits, has_lock-Emits) depth 60
