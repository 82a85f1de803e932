-- ===== src/Ha/Manual.antt =====
-- patroni/ha.py: scheduled actions, and the manual failover that a leader carries out.
use pennsignals_postgres.Base.{
  ◌+◌, ◌-◌, ◌*◌, ◌/◌, String, Bool, true, false, not, ◌&&◌, ◌||◌, Option, none, some, List, [], ltb,
  keep, if◌then◌else◌,
}
use pennsignals_postgres.Json.{str, truthy}
use pennsignals_postgres.Dcs.{Member, Cluster, Failover, Schedule, is_name, requested, matches}
use pennsignals_postgres.Ha.World.{write_failover, now, sleep, postgres_is_leader, demote_task}
use pennsignals_postgres.Ha.Program.{
  Program, pure, setting, invoke, ◌>>=◌, ◌>>◌, when, given, cluster,
}
use pennsignals_postgres.Ha.Election.{is_failover_possible}
use pennsignals_postgres.Ha.Mode.{is_paused, is_synchronous_mode, my_name}
use pennsignals_postgres.Ha.Lock.{try_run_or}

-- `should_run_scheduled_action`: now, later, or never, in which case the request is cleaned up.
unfoldable pub run_when_due : Schedule → Program (Unit {0}) → Program Bool
run_when_due s cleanup_fn = do
  t ← invoke now
  loop_wait ← setting (λ k. k.loop_wait)
  when (not s.aware) (do cleanup_fn; pure false)
      (when (ltb (t + loop_wait) s.instant) (pure false) (
        when (ltb (s.instant + loop_wait * 3 / 2) t) (do cleanup_fn; pure false)
          (do invoke (sleep (s.instant - t)); pure true)))

unfoldable pub should_run_scheduled_action : Option Schedule → Program (Unit {0}) → Program Bool
should_run_scheduled_action scheduled_at cleanup_fn = do
  paused ← is_paused
  given (if paused then none else scheduled_at) (λ s. run_when_due s cleanup_fn) (pure false)

unfoldable pub clear_failover : Failover → Program (Unit {0})
clear_failover f = invoke (write_failover (str "") (str "") none (some f.index))

-- The members that a leader may hand over to.
unfoldable pub successors : Bool → Cluster → Failover → List Member
successors sync_mode c f =
    if sync_mode
    then (if truthy f.candidate && not (matches_value c f)
        then []
        else keep (λ m. matches c.sync m.name) c.members)
    else keep (λ m. not (truthy f.candidate) || is_name f.candidate m.name) c.members
  where
    matches_value : Cluster → Failover → Bool
    matches_value k g = elim g.candidate [ str name ↦ matches k.sync name | _ ↦ false ]

-- Whether the request is for another member, and possible in the present mode.
unfoldable pub concerns_other : String → Bool → Failover → Bool
concerns_other me paused f =
    (not (truthy f.leader) || is_name f.leader me)
    && ((not (truthy f.candidate) || not (is_name f.candidate me))
        && not (not (truthy f.candidate) && paused))

-- A request that is due: hand over if somebody healthy is there, and clean the request up if not.
unfoldable pub hand_over : Failover → Program (Option String)
hand_over f = do
  c ← cluster
  me ← my_name
  paused ← is_paused
  sync_mode ← is_synchronous_mode
  possible ←
      when (concerns_other me paused f) (is_failover_possible (successors sync_mode c f))
        (pure false)
  when possible
      (do
        ret ← try_run_or "manual failover: demote" demote_task "manual failover: demoting myself"
        pure (some ret))
      (do clear_failover f; pure none)

unfoldable pub process_manual_failover_from_leader : Program (Option String)
process_manual_failover_from_leader = do
  c ← cluster
  paused ← is_paused
  given (requested c.failover)
      (λ f. do
        refused ← when paused (do l ← invoke postgres_is_leader; pure (not l)) (pure false)
        when refused (pure none) (do
          due ←
              given f.scheduled_at (λ s. should_run_scheduled_action (some s) (clear_failover f))
                (pure true)
          when due (hand_over f) (pure none)))
      (pure none)
