-- ===== src/Ha/Safety/Demote.antt =====
-- The calls of the methods in Ha/Demote.antt.
use pennsignals_postgres.Base.{Bool}
use pennsignals_postgres.Ha.Emits.{Emits, emits_rules}
use pennsignals_postgres.Ha.Safety.Calls.{plain, quiet, plain_of_quiet}
use pennsignals_postgres.Ha.Safety.Invoke.{Emits-sleep}
use pennsignals_postgres.Ha.Demote.{DemoteMode}
use pennsignals_postgres.Ha.Demote.{demote_stop, restart_targets, demote_restart, demote}
use pennsignals_postgres.Ha.Safety.Mode.{
  is_synchronous_mode-Emits, master_stop_timeout-Emits, set_is_leader-Emits,
}
use pennsignals_postgres.Ha.Safety.Lock.{release_leader_key_voluntarily-Emits, try_run_async-Emits}
use pennsignals_postgres.Ha.Safety.Remote.{get_node_to_follow-Emits}

pub demote_stop-Emits : (mode : DemoteMode) → Emits plain (demote_stop mode)
unfolding demote_stop
demote_stop-Emits mode =
    search
      (
        emits_rules, plain_of_quiet, master_stop_timeout-Emits, set_is_leader-Emits,
        release_leader_key_voluntarily-Emits, Emits-sleep,
      )
      depth 60

pub restart_targets-Emits : (is_offline : Bool) → Emits quiet (restart_targets is_offline)
unfolding restart_targets
restart_targets-Emits is_offline = search (emits_rules, get_node_to_follow-Emits) depth 60

pub demote_restart-Emits : (mode : DemoteMode) → Emits quiet (demote_restart mode)
unfolding demote_restart
demote_restart-Emits mode =
    search (emits_rules, is_synchronous_mode-Emits, try_run_async-Emits, restart_targets-Emits)
      depth 60

pub demote-Emits : (mode : DemoteMode) → Emits plain (demote mode)
unfolding demote
demote-Emits mode =
    search (emits_rules, plain_of_quiet, demote_stop-Emits, demote_restart-Emits) depth 60
