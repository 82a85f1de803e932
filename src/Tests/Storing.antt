-- ===== src/Tests/Storing.antt =====
-- The values and the memory of a store at concrete inputs.
use pennsignals_postgres.Base.{
  ap, sym, String, Option, true, none, some, [], ◌∷◌, ◌==◌, ◌||◌, contains, ◌≡◌, ◌<◌, ◌+◌, refl,
}
use pennsignals_postgres.Json.{Value, null, str, obj, Fields, field, end, truthy}
use pennsignals_postgres.Dcs.{matches, Schedule}
use pennsignals_postgres.Dcs.Codec.{Codec, sync_from_node, made, failover_from_node}
use pennsignals_postgres.Dcs.FailoverLaws.{
  text_of, schedule_of, or_none, failover_from_node-failover_value,
}
use pennsignals_postgres.Dcs.Store.{
  Store, failover_value, sync_state, get_cluster, cluster, sorted, insert,
}
use pennsignals_postgres.Dcs.SyncLaws.{matches-sync_state}
use pennsignals_postgres.Dcs.StoreLaws.{cluster-get_cluster}
use pennsignals_postgres.Tests.Data.{two_nodes}

abbrev standbys : Value
standbys = obj (sync_state (str "node1") ("node3" ∷ "node2" ∷ []))

-- A reader of one document.
abbrev one_document : Codec
one_document = record {
  loads = λ s. some standbys;
  dumps = λ v. "document";
  parse_date = λ v. none;
}

matches-sync_state_example :
    matches (sync_from_node one_document none (str (one_document.dumps standbys))) "node3"
    ≡ ("node1" == "node3" || contains ("node3" ∷ "node2" ∷ []) "node3")
matches-sync_state_example =
    matches-sync_state one_document none "node1" "node3" ("node3" ∷ "node2" ∷ []) refl refl refl
      refl

test_sorted : sorted ("node3" ∷ "node2" ∷ []) ≡ "node2" ∷ "node3" ∷ []
unfolding sorted insert
test_sorted = refl

abbrev unloaded : Store
unloaded = record { cached = none; valid_till = 0; last_leader_operation = "" }

fresh_view : cluster 1029 (get_cluster (some two_nodes) 1000 30 unloaded).1 ≡ some two_nodes
unfolding cluster get_cluster
fresh_view = refl

cluster-get_cluster_example : (some two_nodes ≡ some two_nodes) × (1029 < 1000 + 30)
cluster-get_cluster_example =
    cluster-get_cluster (some two_nodes) 1000 30 1029 unloaded two_nodes fresh_view

abbrev tomorrow : Option (String × Schedule)
tomorrow = some ("2026-11-27T00:00:00+00:00", record { instant = 1764201600; aware = true })

abbrev request : Fields
request = field "leader" (str "node1") (field "scheduled_at" (str "2026-11-27T00:00:00+00:00") end)

-- A reader of a request and of its date.
abbrev one_request : Codec
one_request = record {
  loads = λ s. some (obj request);
  dumps = λ v. "document";
  parse_date = λ v. some (record { instant = 1764201600; aware = true });
}

request_written : failover_value (str "node1") null (text_of tomorrow) ≡ request
unfolding failover_value truthy
request_written = refl

failover_from_node-failover_value_example :
    failover_from_node one_request 7
      (str (one_request.dumps (obj (failover_value (str "node1") null (text_of tomorrow)))))
    ≡ made (record {
      index = 7;
      leader = or_none (str "node1");
      candidate = or_none null;
      scheduled_at = schedule_of tomorrow;
    })
failover_from_node-failover_value_example =
    failover_from_node-failover_value one_request 7 (str "node1") null tomorrow (refl, refl)
      (ap (λ d. some (obj d)) (sym request_written)) refl
