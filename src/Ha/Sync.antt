-- ===== src/Ha/Sync.antt =====
-- patroni/ha.py: synchronous replication. The standbys stand in two places, postgresql.conf and
-- the store: names are added to postgresql.conf first, and removed from the store first.
use pennsignals_postgres.Base.{
  ℕ, ◌-◌, suc, zero, String, Bool, true, false, not, ◌&&◌, ◌||◌, Option, none, some, List, [], ◌∷◌,
  ◌==◌, all, keep, contains, is_empty, if◌then◌else◌,
}
use pennsignals_postgres.Json.{truthy}
use pennsignals_postgres.Dcs.{Cluster, SyncState, is_name, sync_members}
use pennsignals_postgres.Ha.World.{
  Exception, dcs_error, get_cluster, write_sync_state, delete_sync_state, sleep,
  set_synchronous_standby, pick_synchronous_standby,
}
use pennsignals_postgres.Ha.Program.{
  Program, pure, raise, setting, modify, invoke, ◌>>=◌, ◌>>◌, when, catch, finally, given, cluster,
}
use pennsignals_postgres.Ha.Mode.{is_synchronous_mode, is_synchronous_mode_strict, my_name}
use pennsignals_postgres.Ha.Lock.{touch_member}

abbrev pub subset : List String → List String → Bool
subset xs ys = all (contains ys) xs

-- `set(xs) == set(ys)`
abbrev pub same_set : List String → List String → Bool
same_set xs ys = subset xs ys && subset ys xs

-- `self.cluster.sync.leader and self.cluster.sync.members or []`
unfoldable pub current_standbys : SyncState → List String
current_standbys s = if truthy s.leader then sync_members s else []

-- `names or None`
abbrev pub or_none : List String → Option (List String)
or_none [] = none
or_none (n ∷ ns) = some (n ∷ ns)

abbrev pub common : List String → List String → List String
common current allow_promote = keep (contains allow_promote) current

unfoldable pub pick : Program (List String × List String)
pick = do
  count ← setting (λ k. k.synchronous_node_count)
  maxlag ← setting (λ k. k.maximum_lag_on_syncnode)
  invoke (pick_synchronous_standby count maxlag)

-- Only an exception of the store is handled.
unfoldable pub only_dcs : {A : Type 0} → Program A → Exception → Program A
only_dcs m dcs_error = m
only_dcs m e = raise e

-- The last step: publish the standbys that PostgreSQL reports as synchronous.
unfoldable pub publish : List String → Program (Unit {0})
publish allow_promote = do
  me ← my_name
  view ← catch (do c ← invoke get_cluster; pure (some c)) (only_dcs (pure none))
  given view
      (λ c.
        when (truthy c.sync.leader && not (is_name c.sync.leader me)) (pure tt)
          (do invoke (write_sync_state me (some allow_promote) c.sync.index); pure tt))
      (pure tt)

abbrev pub is_star : List String → Bool
is_star [] = false
is_star (n ∷ ns) = n == "*"

-- Set the names in postgresql.conf, wait for PostgreSQL to act on them, and publish them.
unfoldable pub assign : List String → List String → List String → Program (Unit {0})
assign picked allow_promote sync_common = do
  strict ← is_synchronous_mode_strict
  let names = if strict && is_empty picked then "*" ∷ [] else picked
  invoke (set_synchronous_standby names)
  allow ←
      when
        (not (is_empty names)
          && (not (is_star names)
              && (not (same_set allow_promote names) && is_empty allow_promote)))
        (do invoke (sleep 2); again ← pick; pure again.1) (pure allow_promote)
  when (not (is_empty allow) && not (same_set allow sync_common)) (publish allow) (pure tt)

-- The names that are no longer to be promoted leave the store first; `false` gives up.
unfoldable pub shrink : List String → List String → Program Bool
shrink current sync_common = do
  c ← cluster
  me ← my_name
  when (same_set sync_common current) (pure true)
      (invoke (write_sync_state me (or_none sync_common) c.sync.index))

unfoldable pub process_sync_replication : Program (Unit {0})
process_sync_replication = do
  sync_mode ← is_synchronous_mode
  c ← cluster
  when sync_mode
      (do
        picked ← pick
        let current = current_standbys c.sync
        when (same_set picked.0 current) (pure tt) (do
          ours ← shrink current (common current picked.1)
          when ours (assign picked.0 picked.1 (common current picked.1)) (pure tt)))
      (do
        when (truthy c.sync.leader) (do invoke (delete_sync_state c.sync.index); pure tt) (pure tt)
        invoke (set_synchronous_standby []))

-- `is_sync_standby`
unfoldable pub is_sync_standby : String → Cluster → Bool
is_sync_standby me c = elim c.leader [
  | none ↦ false
  | some l ↦ is_name c.sync.leader l.member.name && contains (sync_members c.sync) me
]

-- One round of the wait to be released, for the rounds that `polling_loop` makes.
unfoldable pub wait_for_release : ℕ → Program (Unit {0})
wait_for_release zero = pure tt
wait_for_release (suc rounds) = do
  me ← my_name
  again ← catch (do c ← invoke get_cluster; pure (is_sync_standby me c)) (only_dcs (pure false))
  when again (do invoke (sleep 2); wait_for_release rounds) (pure tt)

-- `while_not_sync_standby(func)`; the rounds bound the polling of `2 * loop_wait` by 2.
unfoldable pub while_not_sync_standby : {A : Type 0} → Program A → Program A
while_not_sync_standby func = do
  sync_mode ← is_synchronous_mode
  nosync ← setting (λ k. k.nosync)
  rounds ← setting (λ k. k.loop_wait)
  when (not sync_mode || nosync) func (do
    modify (λ h. record h { disable_sync = suc h.disable_sync })
    finally (do touched ← touch_member; when touched (wait_for_release rounds) (pure tt); func)
        (modify (λ h. record h { disable_sync = h.disable_sync - 1 })))
