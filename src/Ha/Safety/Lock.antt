-- ===== src/Ha/Safety/Lock.antt =====
-- The calls of the methods in Ha/Lock.antt.
use pennsignals_postgres.Base.{String, Bool, true, Option, ◌≡◌}
use pennsignals_postgres.Ha.World.{Task, start_task, WalPosition}
use pennsignals_postgres.Ha.Emits.{Emits, emits_rules}
use pennsignals_postgres.Ha.Safety.Calls.{plain, quiet, plain_of_quiet}
use pennsignals_postgres.Ha.Safety.Invoke.{
  Emits-update_leader, Emits-reset_cluster, Emits-report_member, Emits-pg_control_timeline,
  Emits-replica_cached_timeline,
}
use pennsignals_postgres.Ha.Lock.{
  restrict_for_logical_slots, acquire_lock, operation_to_write, update_lock, timeline_to_report,
  wal_to_report, touch_member, drop_leader_key, release_leader_key_voluntarily, try_run_async,
  try_run_or,
}
use pennsignals_postgres.Ha.Safety.Mode.{
  cluster-Emits, is_leader-Emits, is_paused-Emits, my_name-Emits, set_is_leader-Emits,
  set_leader_access_is_restricted-Emits,
}

pub restrict_for_logical_slots-Emits : Emits quiet restrict_for_logical_slots
unfolding restrict_for_logical_slots
restrict_for_logical_slots-Emits =
    search (emits_rules, my_name-Emits, set_leader_access_is_restricted-Emits, cluster-Emits) depth
      60

pub acquire_lock-Emits : Emits plain acquire_lock
unfolding acquire_lock
acquire_lock-Emits =
    search (emits_rules, plain_of_quiet, set_is_leader-Emits, restrict_for_logical_slots-Emits)
      depth 60

pub operation_to_write-Emits :
    (write_leader_optime : Bool) → Emits quiet (operation_to_write write_leader_optime)
unfolding operation_to_write
operation_to_write-Emits write_leader_optime = search (emits_rules) depth 60

pub update_lock-Emits : (write_leader_optime : Bool) → Emits plain (update_lock write_leader_optime)
unfolding update_lock
update_lock-Emits write_leader_optime =
    search
      (
        emits_rules, plain_of_quiet, set_is_leader-Emits, operation_to_write-Emits,
        Emits-update_leader,
      )
      depth 60

pub timeline_to_report-Emits : (pos : WalPosition) → Emits quiet (timeline_to_report pos)
unfolding timeline_to_report
timeline_to_report-Emits pos =
    search (emits_rules, Emits-pg_control_timeline, Emits-replica_cached_timeline) depth 60

pub wal_to_report-Emits : Emits quiet wal_to_report
unfolding wal_to_report
wal_to_report-Emits = search (emits_rules, timeline_to_report-Emits) depth 60

pub touch_member-Emits : Emits quiet touch_member
unfolding touch_member
touch_member-Emits =
    search (emits_rules, is_paused-Emits, is_leader-Emits, wal_to_report-Emits, Emits-report_member)
      depth 60

pub drop_leader_key-Emits : (op : Option String) → Emits plain (drop_leader_key op)
unfolding drop_leader_key
drop_leader_key-Emits op =
    search (emits_rules, plain_of_quiet, set_is_leader-Emits, Emits-reset_cluster) depth 60

pub release_leader_key_voluntarily-Emits :
    (op : Option String) → Emits plain (release_leader_key_voluntarily op)
unfolding release_leader_key_voluntarily
release_leader_key_voluntarily-Emits op =
    search (emits_rules, plain_of_quiet, touch_member-Emits, drop_leader_key-Emits) depth 60

pub try_run_async-Emits :
    (action : String) (task : Task)
    → quiet (start_task task) ≡ true
    → Emits quiet (try_run_async action task)
unfolding try_run_async
try_run_async-Emits action task h = search (emits_rules) depth 60

pub try_run_or-Emits :
    (action : String) (task : Task) (msg : String)
    → quiet (start_task task) ≡ true
    → Emits quiet (try_run_or action task msg)
unfolding try_run_or
try_run_or-Emits action task msg h = search (emits_rules, try_run_async-Emits) depth 60
