-- ===== src/Ha/Mode.antt =====
-- patroni/ha.py: how the configuration is read, and the time-bound belief to be the leader.
use pennsignals_postgres.Base.{
  ℕ, ◌+◌, String, Bool, true, false, not, ◌&&◌, ◌||◌, Option, none, some, ◌==◌, eqb, ltb,
  if◌then◌else◌,
}
use pennsignals_postgres.Json.{Value, null, obj, Fields, get, truthy, is_on}
use pennsignals_postgres.Dcs.{Cluster, timeline}
use pennsignals_postgres.Dcs.View.{is_unlocked}
use pennsignals_postgres.Ha.World.{Settings, now, get_cluster}
use pennsignals_postgres.Ha.Program.{
  Ha, Program, pure, gets, setting, modify, invoke, ◌>>=◌, ◌>>◌, when, cluster,
}

-- The test that precedes every read of the cluster's configuration: it guards against a store
-- that was wiped out.
unfoldable pub has_cluster_config : Option Cluster → Bool
has_cluster_config none = false
has_cluster_config (some c) = elim c.config [
  | none ↦ false
  | some cfg ↦ not (eqb cfg.modify_index 0)
]

-- The dictionary in which a mode is looked up.
unfoldable pub effective_configuration : Option Cluster → Settings → Fields
effective_configuration none cfg = cfg.dynamic_configuration
effective_configuration (some c) cfg = elim c.config [
  | none ↦ cfg.dynamic_configuration
  | some own ↦ if eqb own.modify_index 0 then cfg.dynamic_configuration else own.payload
]

unfoldable pub check_mode : String → Program Bool
check_mode mode = do
  c ← gets (λ h. h.cluster)
  cfg ← setting (λ k. k)
  pure (is_on (get mode (effective_configuration c cfg)))

unfoldable pub is_paused : Program Bool
is_paused = check_mode "pause"

unfoldable pub check_timeline : Program Bool
check_timeline = check_mode "check_timeline"

unfoldable pub is_synchronous_mode : Program Bool
is_synchronous_mode = check_mode "synchronous_mode"

unfoldable pub is_synchronous_mode_strict : Program Bool
is_synchronous_mode_strict = check_mode "synchronous_mode_strict"

unfoldable pub get_standby_cluster_config : Program Value
get_standby_cluster_config = do
  c ← gets (λ h. h.cluster)
  cfg ← setting (λ k. k)
  pure (get "standby_cluster" (effective_configuration c cfg))

-- `is_standby_cluster` of patroni/utils.py
unfoldable pub describes_standby_cluster : Value → Bool
describes_standby_cluster (obj d) =
    truthy (get "host" d) || (truthy (get "port" d) || truthy (get "restore_command" d))
describes_standby_cluster _ = false

unfoldable pub is_standby_cluster : Program Bool
is_standby_cluster = do config ← get_standby_cluster_config; pure (describes_standby_cluster config)

-- `master_stop_timeout`, where the setting is a plain number.
unfoldable pub master_stop_timeout : Program (Option ℕ)
master_stop_timeout = do
  ret ← setting (λ k. k.master_stop_timeout)
  when (eqb ret 0) (pure none) do sync ← is_synchronous_mode; pure (if sync then some ret else none)

unfoldable pub my_name : Program String
my_name = setting (λ k. k.name)

-- `is_leader`: a belief with a time limit, withheld while access is restricted.
unfoldable pub is_leader : Program Bool
is_leader = do
  until ← gets (λ h. h.is_leader_until)
  t ← invoke now
  restricted ← gets (λ h. h.leader_access_is_restricted)
  pure (ltb t until && not restricted)

unfoldable pub set_is_leader : Bool → Program (Unit {0})
set_is_leader value =
    when value
      (do
        t ← invoke now
        ttl ← setting (λ k. k.ttl)
        modify (λ h. record h { is_leader_until = t + ttl }))
      (modify (λ h. record h { is_leader_until = 0 }))

unfoldable pub set_leader_access_is_restricted : Bool → Program (Unit {0})
set_leader_access_is_restricted value =
    modify (λ h. record h { leader_access_is_restricted = value })

-- Whether the node owns the leader key of a cluster view.
unfoldable pub owns_lock : Cluster → String → Bool
owns_lock c name = elim c.leader [ none ↦ false | some l ↦ l.member.name == name ]

unfoldable pub has_lock : Program Bool
has_lock = do c ← cluster; me ← my_name; pure (owns_lock c me)

-- The timeline that the leader published, or `None` while there is no leader.
unfoldable pub leader_timeline_of : Cluster → Value
leader_timeline_of c =
    if is_unlocked c then null else elim c.leader [ none ↦ null | some l ↦ timeline l ]

unfoldable pub remember_cluster : Cluster → Ha → Ha
remember_cluster c h =
    let replace = not (is_unlocked c) || elim h.old_cluster [ none ↦ true | some _ ↦ false ] in
    record h { cluster = some c; old_cluster = if replace then some c else h.old_cluster }

unfoldable pub load_cluster_from_dcs : Program (Unit {0})
load_cluster_from_dcs = do
  c ← invoke get_cluster
  modify (remember_cluster c)
  mine ← has_lock
  when mine (pure tt) (set_is_leader false)
  modify (λ h. record h { leader_timeline = leader_timeline_of c })
