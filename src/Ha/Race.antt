-- ===== src/Ha/Race.antt =====
-- patroni/ha.py: `is_healthiest_node`, the entry to a leader race, and the manual failover without a leader.
use pennsignals_postgres.Base.{
  ◌+◌, Bool, true, false, not, ◌&&◌, ◌||◌, Option, none, some, List, [], ◌∷◌, ◌++◌, ◌==◌, ltb, keep,
  is_some, if◌then◌else◌,
}
use pennsignals_postgres.Json.{str, truthy}
use pennsignals_postgres.Dcs.{Member, Cluster, Failover, is_name, requested, matches}
use pennsignals_postgres.Ha.World.{
  other_error, postgres_is_leader, postgres_is_starting, write_failover, now, sysid,
  watchdog_is_healthy,
}
use pennsignals_postgres.Ha.Program.{
  Program, pure, raise, gets, setting, invoke, ◌>>=◌, ◌>>◌, when, given, cluster,
}
use pennsignals_postgres.Ha.Status.{failover_limitation}
use pennsignals_postgres.Ha.Election.{fetch_node_status, is_failover_possible, is_healthiest_among}
use pennsignals_postgres.Ha.Mode.{is_paused, is_synchronous_mode, my_name}

-- The members without those that a failover request names.
unfoldable pub without : Failover → Bool → List Member → List Member
without f candidate_too =
    keep (λ m. not (is_name f.leader m.name) && not (candidate_too && is_name f.candidate m.name))

-- The last part of `manual_failover_process_no_leader`: every member is a candidate.
unfoldable pub failover_among_all : Failover → Program Bool
failover_among_all f = do
  c ← cluster
  me ← my_name
  when (truthy f.leader && is_name f.leader me)
      (do possible ← is_failover_possible (without f true c.members); pure (not possible))
      (is_healthiest_among (without f false c.members) false)

-- The text of a name that is looked up among the members.
abbrev pub find_candidate : Cluster → Failover → Option Member
find_candidate c f = elim (keep (λ (m : Member). is_name f.candidate m.name) c.members) [
  | [] ↦ none
  | m ∷ _ ↦ some m
]

-- A request for another member: only a candidate that cannot be promoted opens the race.
unfoldable pub candidate_is_healthy : Failover → Program Bool
candidate_is_healthy f = do
  c ← cluster
  given (find_candidate c f)
      (λ m. do st ← fetch_node_status m; pure (not (is_some (failover_limitation st)))) (pure false)

-- The branch of a paused node for which somebody else is wanted.
unfoldable pub paused_candidate : Failover → Program (Option Bool)
paused_candidate f = do
  c ← cluster
  leads ← when (is_some (find_candidate c f)) (pure false) (invoke postgres_is_leader)
  when leads (do invoke (write_failover (str "") (str "") none (some f.index)); pure none)
      (pure (some false))

-- `None` means that a stale request was removed.
unfoldable pub manual_failover_process_no_leader : Failover → Program (Option Bool)
manual_failover_process_no_leader f = do
  me ← my_name
  paused ← is_paused
  when (truthy f.candidate)
      (when (is_name f.candidate me) (pure (some true)) (
        when paused (paused_candidate f) (do
          healthy ← candidate_is_healthy f
          when healthy (pure (some false)) (do ret ← failover_among_all f; pure (some ret)))))
      (when paused (pure (some false)) (do ret ← failover_among_all f; pure (some ret)))

-- `{m.name: m for m in members}.values()`
unfoldable pub set_member : Member → List Member → List Member
set_member m [] = m ∷ []
set_member m (o ∷ os) = if o.name == m.name then m ∷ os else o ∷ set_member m os

unfoldable pub by_name : List Member → List Member → List Member
by_name seen [] = seen
by_name seen (m ∷ ms) = by_name (set_member m seen) ms

-- The members to beat: in synchronous mode only those that are known to be in sync.
unfoldable pub rivals : Bool → Cluster → Cluster → List Member
rivals synchronous c old = by_name [] (
    if synchronous
    then keep (λ m. matches c.sync m.name) (c.members ++ old.members)
    else c.members ++ old.members)

-- The race among the members that may be promoted.
unfoldable pub race : Program Bool
race = do
  c ← cluster
  me ← my_name
  found ← gets (λ h. h.old_cluster)
  old ← given found pure (raise other_error)
  sync_mode ← is_synchronous_mode
  let synchronous = sync_mode && truthy c.sync.leader
  when (synchronous && not (matches c.sync me)) (pure false)
      (is_healthiest_among (rivals synchronous c old) true)

-- A paused master is the healthiest only if its system identifier fits.
unfoldable pub master_is_healthiest : Program Bool
master_is_healthiest = do
  paused ← is_paused
  c ← cluster
  when (not paused) (pure true) (
      given c.initialize
        (λ key. when (key == "") (pure true) (do id ← invoke sysid; pure (id == key))) (pure true))

-- The rest of `is_healthiest_node` for a node that is up and no master.
unfoldable pub replica_is_healthiest : Program Bool
replica_is_healthiest = do
  paused ← is_paused
  nofailover ← setting (λ k. k.nofailover)
  when (paused || nofailover) (pure false) (do
    c ← cluster
    given (requested c.failover)
        (λ f. do
          ret ← manual_failover_process_no_leader f
          pure (elim ret [ some true ↦ true | _ ↦ false ]))
        (do healthy ← invoke watchdog_is_healthy; when healthy race (pure false)))

abbrev pub unscheduled : Option Failover → Option Failover
unscheduled none = none
unscheduled (some f) = if is_some f.scheduled_at then none else some f

-- The manual failover of a paused node comes first; `none` goes on.
unfoldable pub paused_failover : Program (Option Bool)
paused_failover = do
  paused ← is_paused
  nofailover ← setting (λ k. k.nofailover)
  c ← cluster
  given (if paused && not nofailover then unscheduled (requested c.failover) else none)
      manual_failover_process_no_leader (pure none)

unfoldable pub is_healthiest_node : Program Bool
is_healthiest_node = do
  t ← invoke now
  released ← gets (λ h. h.released_leader_key_timestamp)
  ttl ← setting (λ k. k.ttl)
  when (ltb t (released + ttl)) (pure false) (do
    forced ← paused_failover
    given forced pure (do
      starting ← invoke postgres_is_starting
      when starting (pure false) (do
        leads ← invoke postgres_is_leader
        when leads master_is_healthiest replica_is_healthiest)))
