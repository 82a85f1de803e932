-- ===== src/Ha/Safety/Lead.antt =====
-- The calls of the methods in Ha/Lead.antt.
use pennsignals_postgres.Ha.Emits.{Emits, emits_rules}
use pennsignals_postgres.Ha.Safety.Calls.{plain, quiet, plain_of_quiet}
use pennsignals_postgres.Ha.Safety.Invoke.{Emits-write_failover}
use pennsignals_postgres.Ha.Lead.{
  settle_failover, follow_after_race, lose_lock, return_lock, lift_restriction,
}
use pennsignals_postgres.Ha.Safety.Mode.{
  cluster-Emits, is_paused-Emits, my_name-Emits, set_leader_access_is_restricted-Emits,
}
use pennsignals_postgres.Ha.Safety.Lock.{drop_leader_key-Emits}
use pennsignals_postgres.Ha.Safety.Demote.{demote-Emits}
use pennsignals_postgres.Ha.Safety.Follow.{follow-Emits}

pub settle_failover-Emits : Emits quiet settle_failover
unfolding settle_failover
settle_failover-Emits =
    search (emits_rules, is_paused-Emits, cluster-Emits, Emits-write_failover) depth 60

pub follow_after_race-Emits : Emits plain follow_after_race
unfolding follow_after_race
follow_after_race-Emits = search (emits_rules, plain_of_quiet, follow-Emits, cluster-Emits) depth 60

pub lose_lock-Emits : Emits plain lose_lock
unfolding lose_lock
lose_lock-Emits = search (emits_rules, plain_of_quiet, is_paused-Emits, demote-Emits) depth 60

pub return_lock-Emits : Emits plain return_lock
unfolding return_lock
return_lock-Emits =
    search (emits_rules, plain_of_quiet, my_name-Emits, drop_leader_key-Emits, cluster-Emits) depth
      60

pub lift_restriction-Emits : Emits quiet lift_restriction
unfolding lift_restriction
lift_restriction-Emits = search (emits_rules, set_leader_access_is_restricted-Emits) depth 60
