-- ===== src/Tests.antt =====
-- Concrete runs and inputs, and the theorems at these.
mod Data
mod Guarding
mod Threading
mod Tools
mod Rewinding
mod Storing
mod Standbys
mod Cancelling
mod Candidates
use pennsignals_postgres.Base.{not}
use pennsignals_postgres.Ha.Status.{disqualifies}
use pennsignals_postgres.Ha.Lock.{touch_member}
use pennsignals_postgres.Ha.Mode.{is_leader}
use pennsignals_postgres.Ha.Cycle.{on_exception}
use pennsignals_postgres.Ha.Cycle.{
  run_cycle_body, run_body, run_idle, run_with_data, run_race, check_recovery, settle, after_race,
}
use pennsignals_postgres.Ha.Join.{begin_cycle, repair_store, may_join, known_sysid, sysid_valid}
use pennsignals_postgres.Ha.Lead.{process_healthy_cluster, lead_with_lock, lift_restriction}
use pennsignals_postgres.Ha.Master.{
  enforce_master_role, take_master_role, request_promotion, require_watchdog, require_pre_promote,
  claim_sync_state,
}
use pennsignals_postgres.Ha.Manual.{process_manual_failover_from_leader}
use pennsignals_postgres.Ha.Startup.{handle_starting_instance}
use pennsignals_postgres.Ha.Mode.{
  has_lock, is_standby_cluster, get_standby_cluster_config, is_synchronous_mode, remember_cluster,
  leader_timeline_of, describes_standby_cluster,
}
use pennsignals_postgres.Ha.Lock.{try_run_async}
use pennsignals_postgres.Ha.Restart.{evaluate_scheduled_restart}
use pennsignals_postgres.Dcs.View.{is_unlocked, leader_name, has_member}
use pennsignals_postgres.Dcs.{requested, timeline}
use pennsignals_postgres.Dcs.Slots.{has_permanent_logical_slots}
use pennsignals_postgres.Ha.Program.{finally, attempt, raise}
use pennsignals_postgres.Json.{truthy}
use pennsignals_postgres.Ha.Safety.Calls.{is_promotion}
use pennsignals_postgres.Base.{
  String, true, false, none, some, List, [], ◌∷◌, ◌≡◌, refl, All, any, contains,
}
use mathlib.Core.List.{Memᴰ}
use pennsignals_postgres.Base.Int.{pos}
use pennsignals_postgres.Json.{null, num, str, bool, obj, end, field}
use pennsignals_postgres.Dcs.{Member, Leader, Cluster, clonefrom, is_running}
use pennsignals_postgres.Dcs.View.{a_member, get_clone_member}
use pennsignals_postgres.Dcs.Slots.{Slots, get_replication_slots, physical}
use pennsignals_postgres.Dcs.SlotName.{slot_name_from_member_name}
use pennsignals_postgres.Dcs.Clone.{IsChosen, get_clone_member-IsChosen}
use pennsignals_postgres.Dcs.Kept.{HasPhysical, get_replication_slots-HasPhysical}
use pennsignals_postgres.Ha.World
use pennsignals_postgres.Ha.World.{
  Outcome, ok, raised, other_error, Call, Reply, Event, Settings, World,
}
use pennsignals_postgres.Ha.Program.{
  Program, State, pure, gets, setting, modify, invoke, ◌>>=◌, when, catch, given, cluster, is_exit,
}
use pennsignals_postgres.Ha.Status.{MemberStatus, wins_against, is_candidate, any_candidate}
use pennsignals_postgres.Ha.Cycle.{run_cycle}
use pennsignals_postgres.Ha.Mode.{
  owns_lock, load_cluster_from_dcs, set_is_leader, set_leader_access_is_restricted, my_name,
  is_paused, check_mode, effective_configuration,
}
use pennsignals_postgres.Ha.Lock.{
  acquire_lock, update_lock, operation_to_write, restrict_for_logical_slots,
}
use pennsignals_postgres.Ha.Manual.{should_run_scheduled_action, run_when_due}
use pennsignals_postgres.Ha.Safety.Belief.{acquire_lock-is_leader_until, update_lock-refused}
use pennsignals_postgres.Ha.Safety.Window.{Due, should_run_scheduled_action-Due}
use pennsignals_postgres.Dcs.Names.{slot_name_from_member_name-matches}
use pennsignals_postgres.Dcs.{Schedule}
use pennsignals_postgres.Json.{is_on, get}
use pennsignals_postgres.Dcs.SlotName.{slot_name_matches}
use pennsignals_postgres.Ha.World.{dcs_error}
use pennsignals_postgres.Ha.Safety.Calls.{Justified}
use pennsignals_postgres.Ha.Safety.Guard.{run_cycle-Justified}
use pennsignals_postgres.Ha.Safety.Healthiest.{Beaten, wins_against-Beaten}
use pennsignals_postgres.Tests.Data.{member, leader, two_nodes, settings, replies, start}

run_cycle-Justified_example : Justified (run_cycle start).1.trace
run_cycle-Justified_example = run_cycle-Justified start tt

-- This cycle renews the key and requests a promotion.
promotes : any (λ (e : Event). is_promotion e.call) (run_cycle start).1.trace ≡ true
unfolding touch_member is_leader on_exception run_cycle run_cycle_body run_body run_idle
    run_with_data run_race check_recovery settle after_race begin_cycle repair_store may_join
    known_sysid sysid_valid process_healthy_cluster lead_with_lock lift_restriction
    enforce_master_role take_master_role request_promotion require_watchdog require_pre_promote
    claim_sync_state process_manual_failover_from_leader handle_starting_instance has_lock
    is_standby_cluster get_standby_cluster_config is_synchronous_mode remember_cluster
    leader_timeline_of describes_standby_cluster try_run_async evaluate_scheduled_restart
    is_unlocked leader_name has_member requested timeline has_permanent_logical_slots finally
    attempt raise truthy is_promotion acquire_lock update_lock operation_to_write
    restrict_for_logical_slots set_is_leader set_leader_access_is_restricted cluster my_name
    is_paused check_mode effective_configuration owns_lock load_cluster_from_dcs when given gets
    setting pure modify invoke catch is_on get ◌>>=◌
promotes = refl

abbrev behind : MemberStatus
behind = record {
  member = member "b";
  reachable = true;
  in_recovery = true;
  timeline = pos 1;
  wal_position = 90;
  tags = end;
  watchdog_failed = false;
}

wins : wins_against 100 false two_nodes.sync (behind ∷ []) ≡ true
unfolding wins_against
wins = refl

wins_against-Beaten_example : All (Beaten 100 false two_nodes.sync) (behind ∷ [])
wins_against-Beaten_example = wins_against-Beaten 100 false two_nodes.sync (behind ∷ []) wins

picked : get_clone_member two_nodes "c" 0 ≡ some (a_member (member "b"))
unfolding get_clone_member
picked = refl

abbrev slots_of_a : Slots
slots_of_a = ("b", physical) ∷ []

kept : get_replication_slots two_nodes "a" "master" ≡ some slots_of_a
unfolding get_replication_slots slot_name_from_member_name
kept = refl

get_replication_slots-HasPhysical_example :
    HasPhysical (slot_name_from_member_name (member "b").name) slots_of_a
unfolding get_replication_slots
get_replication_slots-HasPhysical_example =
    get_replication_slots-HasPhysical two_nodes "a" "master" (member "b") slots_of_a refl refl
      (Memᴰ.tail (Memᴰ.head refl)) refl kept

-- The same node as a follower: the leader key names another.
abbrev follower : State
follower = record start {
  world = record { settings = record settings { name = "b" }; answer = replies };
  ha = record start.ha { is_leader_until = 1030 };
}

-- The store gives the key to another, and fails to renew it.
abbrev refusals : List Event → (c : Call) → Outcome (Reply c)
refusals t World.attempt_to_acquire_leader = ok false
refusals t World.now = ok 1000
refusals t _ = raised dcs_error

abbrev refused : State
refused = record start {
  world = record { settings = settings; answer = refusals };
  ha = record start.ha { cluster = some two_nodes; is_leader_until = 1030 };
}

not_acquired : (acquire_lock refused).0 ≡ ok false
unfolding acquire_lock restrict_for_logical_slots set_is_leader set_leader_access_is_restricted
    cluster my_name when given gets setting pure modify invoke ◌>>=◌
not_acquired = refl

acquire_lock-is_leader_until_example : (acquire_lock refused).1.ha.is_leader_until ≡ 0
acquire_lock-is_leader_until_example = acquire_lock-is_leader_until refused not_acquired

abbrev soon : Schedule
soon = record { instant = 1004; aware = true }

abbrev nothing : Program (Unit {0})
nothing s = (ok tt, s)

abbrev patient : State
patient = record start { world = record { settings = settings; answer = clock } }
  where
    clock : List Event → (c : Call) → Outcome (Reply c)
    clock t World.now = ok 1000
    clock t (World.sleep n) = ok tt
    clock t _ = raised dcs_error

runs : (should_run_scheduled_action (some soon) nothing patient).0 ≡ ok true
unfolding should_run_scheduled_action run_when_due is_paused check_mode effective_configuration when
    given gets setting pure invoke is_on get ◌>>=◌
runs = refl

should_run_scheduled_action-Due_example : Due soon 1000 10
should_run_scheduled_action-Due_example =
    should_run_scheduled_action-Due soon nothing patient 1000 refl runs

slot_name_from_member_name-matches_example :
    slot_name_matches (slot_name_from_member_name "Node-1.eu") ≡ true
slot_name_from_member_name-matches_example =
    slot_name_from_member_name-matches "Node-1.eu" (λ h. cc)

test_dashes : slot_name_from_member_name "Node-1.eu" ≡ "node_1_eu"
unfolding slot_name_from_member_name
test_dashes = refl

test_codes : slot_name_from_member_name "a b" ≡ "au0032b"
unfolding slot_name_from_member_name
test_codes = refl

get_clone_member-IsChosen_example : IsChosen two_nodes "c" leader (a_member (member "b"))
get_clone_member-IsChosen_example =
    get_clone_member-IsChosen two_nodes "c" 0 leader (a_member (member "b")) refl picked

-- The position cannot be read, and the store cannot be reached.
update_lock-refused_example :
    ((update_lock true refused).0 ≡ ok false)
    × ((update_lock true refused).1.ha.is_leader_until ≡ 0)
unfolding is_exit
update_lock-refused_example = update_lock-refused true refused refl (λ t op restricted. refl)
