-- ===== src/Ha/Follow.antt =====
-- patroni/ha.py: whom to follow, demotion, and the cycle of a node that is not to be the master.
use pennsignals_postgres.Base.{
  ℕ, zero, suc, String, ◌<>◌, Bool, true, false, not, ◌&&◌, ◌||◌, Option, none, some, ◌==◌, is_some,
  is_empty, if◌then◌else◌,
}
use pennsignals_postgres.Base.Int.{pos}
use pennsignals_postgres.Json.{Value, num}
use pennsignals_postgres.Dcs.{has_conn_url}
use pennsignals_postgres.Dcs.View.{Node, the_leader, node_member, node_name, is_unlocked}
use pennsignals_postgres.Ha.World.{
  postgres_is_leader, get_role, set_role, get_history, follow_node, check_recovery_conf,
  call_nowait, can_rewind, can_rewind_or_reinitialize_allowed, rewind_is_needed,
  rewind_needed_and_possible, trigger_check_diverged_lsn, rewind_task, reinitialize_task,
  follow_task,
}
use pennsignals_postgres.Ha.Program.{
  Program, pure, raise, gets, invoke, ◌>>=◌, ◌>>◌, when, given, cluster,
}
use pennsignals_postgres.Ha.World.{other_error}
use pennsignals_postgres.Ha.Demote.{demote, immediate_nolock}
use pennsignals_postgres.Ha.Remote.{get_node_to_follow, get_remote_master, is_remote}
use pennsignals_postgres.Ha.Mode.{
  has_lock, is_leader, is_paused, is_standby_cluster, load_cluster_from_dcs,
}
use pennsignals_postgres.Ha.Lock.{try_run_async, try_run_or}

-- `_handle_rewind_or_reinitialize`: a message if a rewind or a reinitialisation was started.
unfoldable pub handle_rewind_or_reinitialize : Program (Option String)
handle_rewind_or_reinitialize = do
  standby ← is_standby_cluster
  leader ←
      when standby get_remote_master
        (do c ← cluster; pure (elim c.leader [ none ↦ none | some l ↦ some (the_leader l) ]))
  needed ← invoke (rewind_needed_and_possible leader)
  when needed
      (do
        rewind ← invoke can_rewind
        when rewind
            (given leader
              (λ n. do
                let msg : String = "running pg_rewind from " <> node_name n
                ret ← try_run_or msg (rewind_task n) msg
                pure (some ret))
              (raise other_error))
            (do
              still_standby ← is_standby_cluster
              when still_standby (pure none) (do
                let msg : String = "reinitializing due to diverged timelines"
                ret ← try_run_or msg reinitialize_task msg
                pure (some ret))))
      (pure none)

-- What a paused node does about its role; a message ends the cycle.
unfoldable pub follow_paused : Bool → Option Node → Program (Option String)
follow_paused is_leader node = do
  needed ← invoke rewind_is_needed
  possible ← when needed (invoke can_rewind_or_reinitialize_allowed) (pure false)
  c ← cluster
  when (not possible || is_unlocked c)
      (when is_leader
        (do invoke (set_role "master"); pure (some "continue to run as master without lock"))
        (do
          role ← invoke get_role
          when (role == "standby_leader") (pure tt) (invoke (set_role "replica"))
          pure (if is_some node then none else some "no action")))
      (pure none)

-- The timeline that comes next, where the leader published one.
unfoldable pub next_timeline : Value → Option ℕ
next_timeline (num (pos zero)) = none
next_timeline (num (pos (suc n))) = some (suc (suc n))
next_timeline _ = none

unfoldable pub check_leader_history : Program (Unit {0})
check_leader_history = do
  standby ← is_standby_cluster
  tl ← gets (λ h. h.leader_timeline)
  given (if standby then next_timeline tl else none)
      (λ n. do
        history ← invoke (get_history n)
        when (is_empty history) (pure tt) (invoke trigger_check_diverged_lsn))
      (pure tt)

unfoldable pub change_recovery_conf : Option Node → String → Program (Unit {0})
change_recovery_conf node role = do
  required ← invoke (check_recovery_conf node)
  when required.0
      (do
        when required.1
            (do
              try_run_async "changing primary_conninfo and restarting" (follow_task node role none)
              pure tt)
            (do invoke (follow_node node role none); pure tt)
        invoke trigger_check_diverged_lsn)
      (when (role == "standby_leader")
        (do
          current ← invoke get_role
          when (current == role) (pure tt)
              (do invoke (set_role role); invoke (call_nowait "on_role_change")))
        (pure tt))

abbrev pub can_follow : Option Node → Bool
can_follow none = false
can_follow (some n) = has_conn_url (node_member n)

unfoldable pub follow_tail : Option Node → String → Program String
follow_tail node follow_reason = do
  check_leader_history
  msg ← handle_rewind_or_reinitialize
  given msg pure do
    mine ← when (elim node [ none ↦ false | some n ↦ is_remote n ]) has_lock (pure false)
    standby ← is_standby_cluster
    when (standby && (not mine && not (can_follow node)))
        (pure "continue following the old known standby leader")
        (do
          change_recovery_conf node (if mine then "standby_leader" else "replica")
          pure follow_reason)

unfoldable pub follow : String → String → Bool → Program String
follow demote_reason follow_reason refresh = do
  when refresh load_cluster_from_dcs (pure tt)
  is_leader ← invoke postgres_is_leader
  c ← cluster
  node ← get_node_to_follow c
  paused ← is_paused
  when paused
      (do msg ← follow_paused is_leader node; given msg pure (follow_tail node follow_reason))
      (when is_leader (do demote immediate_nolock; pure demote_reason)
        (follow_tail node follow_reason))

unfoldable pub enforce_follow_remote_master : String → Program String
enforce_follow_remote_master message =
    follow "cannot be a real master in standby cluster" message true
