-- ===== src/Ha/Safety/History.antt =====
-- The calls of the methods in Ha/History.antt.
use pennsignals_postgres.Ha.Emits.{Emits, emits_rules}
use pennsignals_postgres.Ha.Safety.Calls.{quiet}
use pennsignals_postgres.Ha.Safety.Invoke.{Emits-set_history_value}
use pennsignals_postgres.Ha.History.{update_cluster_history}
use pennsignals_postgres.Ha.Safety.Mode.{cluster-Emits}

pub update_cluster_history-Emits : Emits quiet update_cluster_history
unfolding update_cluster_history
update_cluster_history-Emits = search (emits_rules, cluster-Emits, Emits-set_history_value) depth 60
