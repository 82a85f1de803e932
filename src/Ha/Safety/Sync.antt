-- ===== src/Ha/Safety/Sync.antt =====
-- The calls of the methods in Ha/Sync.antt.
use pennsignals_postgres.Base.{ℕ, zero, suc, String, List, refl}
use pennsignals_postgres.Ha.World.{Exception, dcs_error}
use pennsignals_postgres.Ha.Program.{Program}
use pennsignals_postgres.Ha.Emits.{
  Emits, emits_rules, Emits-raise, Emits-bind, Emits-pure, Emits-when,
}
use pennsignals_postgres.Ha.Safety.Calls.{plain, quiet, plain_of_quiet}
use pennsignals_postgres.Ha.Safety.Invoke.{
  Emits-write_sync_state, Emits-sleep, Emits-set_synchronous_standby,
  Emits-pick_synchronous_standby,
}
use pennsignals_postgres.Ha.Sync.{
  pick, only_dcs, publish, assign, shrink, process_sync_replication, wait_for_release,
  while_not_sync_standby,
}
use pennsignals_postgres.Ha.Safety.Mode.{
  cluster-Emits, is_synchronous_mode-Emits, is_synchronous_mode_strict-Emits, my_name-Emits,
}
use pennsignals_postgres.Ha.Safety.Lock.{touch_member-Emits}

pub pick-Emits : Emits quiet pick
unfolding pick
pick-Emits = search (emits_rules, Emits-pick_synchronous_standby) depth 60

pub only_dcs-Emits :
    {A : Type 0} (m : Program A) → Emits quiet m → (e : Exception) → Emits quiet (only_dcs m e)
unfolding only_dcs
only_dcs-Emits m em dcs_error = em
only_dcs-Emits m em e = Emits-raise e

pub publish-Emits : (allow_promote : List String) → Emits quiet (publish allow_promote)
unfolding publish
publish-Emits allow_promote = search (emits_rules, my_name-Emits, only_dcs-Emits) depth 60

pub assign-Emits :
    (picked : List String) (allow_promote : List String) (sync_common : List String)
    → Emits quiet (assign picked allow_promote sync_common)
unfolding assign
assign-Emits picked allow_promote sync_common =
    search (emits_rules, is_synchronous_mode_strict-Emits, pick-Emits, publish-Emits) depth 60

pub shrink-Emits :
    (current : List String) (sync_common : List String) → Emits quiet (shrink current sync_common)
unfolding shrink
shrink-Emits current sync_common =
    search (emits_rules, my_name-Emits, cluster-Emits, Emits-write_sync_state) depth 60

pub process_sync_replication-Emits : Emits quiet process_sync_replication
unfolding process_sync_replication
process_sync_replication-Emits =
    search
      (
        emits_rules, is_synchronous_mode-Emits, pick-Emits, assign-Emits, shrink-Emits,
        cluster-Emits, Emits-set_synchronous_standby,
      )
      depth 60

pub wait_for_release-Emits : (rounds : ℕ) → Emits quiet (wait_for_release rounds)
unfolding wait_for_release
wait_for_release-Emits zero = search (emits_rules) depth 60
wait_for_release-Emits (suc rounds) =
    let rest = wait_for_release-Emits rounds in
    Emits-bind _ _ my_name-Emits (λ me.
      Emits-bind _ _ (search (emits_rules, only_dcs-Emits) depth 60) (λ again.
        Emits-when again _ _ (Emits-bind _ _ (Emits-sleep 2 refl) (λ u. rest)) (Emits-pure tt)))

pub while_not_sync_standby-Emits :
    {A : Type 0} (func : Program A) → Emits plain func → Emits plain (while_not_sync_standby func)
unfolding while_not_sync_standby
while_not_sync_standby-Emits func h =
    search
      (
        emits_rules, plain_of_quiet, is_synchronous_mode-Emits, touch_member-Emits,
        wait_for_release-Emits,
      )
      depth 60
