-- ===== src/Ha/Safety/Master.antt =====
-- The calls of the methods in Ha/Master.antt.
use pennsignals_postgres.Ha.Emits.{Emits, emits_rules}
use pennsignals_postgres.Ha.Safety.Calls.{plain, quiet}
use pennsignals_postgres.Ha.Safety.Invoke.{Emits-watchdog_activate}
use pennsignals_postgres.Ha.Master.{require_watchdog, require_pre_promote, claim_sync_state}
use pennsignals_postgres.Ha.Safety.Mode.{
  cluster-Emits, is_synchronous_mode-Emits, is_synchronous_mode_strict-Emits, my_name-Emits,
}
use pennsignals_postgres.Ha.Safety.Lock.{release_leader_key_voluntarily-Emits}
use pennsignals_postgres.Ha.Safety.Demote.{demote-Emits}

pub require_watchdog-Emits : Emits plain require_watchdog
unfolding require_watchdog
require_watchdog-Emits =
    search
      (emits_rules, release_leader_key_voluntarily-Emits, demote-Emits, Emits-watchdog_activate)
      depth 60

pub require_pre_promote-Emits : Emits plain require_pre_promote
unfolding require_pre_promote
require_pre_promote-Emits = search (emits_rules, release_leader_key_voluntarily-Emits) depth 60

pub claim_sync_state-Emits : Emits quiet claim_sync_state
unfolding claim_sync_state
claim_sync_state-Emits =
    search
      (
        emits_rules, is_synchronous_mode-Emits, is_synchronous_mode_strict-Emits, my_name-Emits,
        cluster-Emits,
      )
      depth 60
