-- ===== src/Tests/Candidates.antt =====
-- A failover from a node to the one other member.
use pennsignals_postgres.Base.{true, some, List, ◌≡◌, refl}
use pennsignals_postgres.Base.Int.{pos}
use pennsignals_postgres.Json.{Fields, num, str, obj, end, field, get, is_on}
use pennsignals_postgres.Ha.World.{
  Outcome, ok, raised, other_error, Call, Reply, Event, request_status,
}
use pennsignals_postgres.Ha.Program.{State, ◌>>=◌, cluster, setting, invoke}
use pennsignals_postgres.Ha.Mode.{effective_configuration, my_name, check_timeline, check_mode}
use pennsignals_postgres.Ha.Election.{is_failover_possible, fetch_nodes_statuses, fetch_node_status}
use pennsignals_postgres.Ha.Status.{to_ask, any_candidate, status_of}
use pennsignals_postgres.Ha.Safety.Possible.{HasFitSince, is_failover_possible-HasFit}
use pennsignals_postgres.Tests.Data.{two_nodes, settings, start}

abbrev replica_status : Fields
replica_status = field "role" (str "replica") (
    field "timeline" (num (pos 1))
      (field "xlog" (obj (field "received_location" (num (pos 90)) end)) end))

abbrev answers : List Event → (c : Call) → Outcome (Reply c)
answers t (request_status m) = ok (some replica_status)
answers t _ = raised other_error

abbrev leading : State
leading = record start {
  world = record { settings = settings; answer = answers };
  ha = record start.ha { cluster = some two_nodes };
}

possible :
    is_failover_possible two_nodes.members leading
    ≡ (ok true, (is_failover_possible two_nodes.members leading).1)
unfolding is_failover_possible ◌>>=◌ cluster my_name setting check_timeline check_mode
    fetch_nodes_statuses to_ask fetch_node_status invoke any_candidate status_of is_on
    effective_configuration
possible = refl

is_failover_possible-HasFit_example :
    HasFitSince two_nodes.members "a" two_nodes 1048576
      (is_on (get "check_timeline" (effective_configuration (some two_nodes) settings)))
      leading.trace
      (is_failover_possible two_nodes.members leading).1.trace
is_failover_possible-HasFit_example =
    is_failover_possible-HasFit two_nodes.members two_nodes leading
      (is_failover_possible two_nodes.members leading).1 refl possible
