-- ===== src/Tests/Standbys.antt =====
-- The choice of standbys and the dropping of slots at concrete inputs.
use pennsignals_postgres.Base.{◌≡◌, true, some, List, [], ◌∷◌, ◌≤◌, All, refl, length}
use pennsignals_postgres.Base.Int.{pos}
use pennsignals_postgres.Json.{Fields, str, end, field}
use pennsignals_postgres.Dcs.Slots.{Slots, physical}
use pennsignals_postgres.Postgresql.SyncStandby.{Row, pick_synchronous_standby}
use pennsignals_postgres.Postgresql.SyncStandbyLaws.{
  IsEligible, length-pick_synchronous_standby, pick_synchronous_standby-IsEligible,
}
use pennsignals_postgres.Postgresql.SlotSync.{
  Server, Handler, load_replication_slots, sync_replication_slots,
}
use pennsignals_postgres.Postgresql.SlotDrops.{IsJustified, sync_replication_slots-IsJustified}
use pennsignals_postgres.Base.Fallible.{done}
use pennsignals_postgres.Postgresql.SlotOutcome.{IsSettled, sync_replication_slots-IsSettled}
use pennsignals_postgres.Tests.Data.{two_nodes}

abbrev streaming : List Row
streaming =
    record { application_name = "b"; sync_state = "sync"; lsn = 90 }
    ∷ record { application_name = "a"; sync_state = "async"; lsn = 100 }
    ∷ []

length-pick_synchronous_standby_example :
    length (pick_synchronous_standby 130000 two_nodes.members streaming 100 2 (pos 20)).0 ≤ 2
length-pick_synchronous_standby_example =
    length-pick_synchronous_standby 130000 two_nodes.members streaming 100 2 (pos 20)

pick_synchronous_standby-IsEligible_example :
    All
      (IsEligible two_nodes.members)
      (pick_synchronous_standby 130000 two_nodes.members streaming 100 2 (pos 20)).0
pick_synchronous_standby-IsEligible_example =
    pick_synchronous_standby-IsEligible 130000 two_nodes.members streaming 100 2 (pos 20)

abbrev logical_slot : Fields
logical_slot = field "type" (str "logical") end

-- A server with a slot that nobody wants and one of another type than is wanted.
abbrev server : Server
server = record {
  load = some (("old", physical) ∷ ("b", logical_slot) ∷ []);
  drop = λ n. some true;
  create_physical = λ n. true;
  connect = λ n. true;
  create_logical = λ n. true;
}

abbrev slots_of_a : Slots
slots_of_a = ("b", physical) ∷ []

abbrev unloaded : Handler
unloaded = record { known = []; scheduled = true; logical = []; requests = [] }

sync_replication_slots-IsJustified_example :
    All
      (IsJustified server slots_of_a [] (load_replication_slots server unloaded).1.known)
      (sync_replication_slots server (some slots_of_a) [] unloaded).1.requests
sync_replication_slots-IsJustified_example =
    sync_replication_slots-IsJustified server (some slots_of_a) [] unloaded refl

sync_replication_slots-IsSettled_example :
    ((sync_replication_slots server (some slots_of_a) [] unloaded).0 ≡ done tt)
    × IsSettled server
        (some slots_of_a)
        (sync_replication_slots server (some slots_of_a) [] unloaded).1
sync_replication_slots-IsSettled_example =
    sync_replication_slots-IsSettled server (some slots_of_a) [] unloaded refl
