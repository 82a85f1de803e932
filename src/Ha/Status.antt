-- ===== src/Ha/Status.antt =====
-- patroni/ha.py: `_MemberStatus`, and what one status says about a leader race.
use pennsignals_postgres.Base.{
  ℕ, ◌+◌, max, String, Bool, true, false, not, ◌&&◌, ◌||◌, Option, none, some, List, [], ◌∷◌, ◌==◌,
  ltb, keep, if◌then◌else◌,
}
use pennsignals_postgres.Base.Int.{ℤ, pos, ltb_ℤ}
use pennsignals_postgres.Json.{Value, num, Fields, end, get, has_key, truthy, fields}
use pennsignals_postgres.Dcs.{Member, SyncState, Cluster, is_name, nofailover, api_url}
use pennsignals_postgres.Dcs.View

pub record MemberStatus : Type 0 where
  pub member : Member
  pub reachable : Bool
  pub in_recovery : Bool
  pub timeline : ℤ
  pub wal_position : ℕ
  pub tags : Fields
  pub watchdog_failed : Bool

abbrev as_position : Value → ℕ
as_position (num (pos n)) = n
as_position _ = 0

abbrev as_timeline : Value → ℤ
as_timeline (num n) = n
as_timeline _ = pos 0

unfoldable pub unknown : Member → MemberStatus
unknown m = record {
  member = m;
  reachable = false;
  in_recovery = false;
  timeline = pos 0;
  wal_position = 0;
  tags = end;
  watchdog_failed = false;
}

known_status : Member → Fields → Bool → ℕ → MemberStatus
unfolding get truthy fields
known_status m json is_master wal = record {
  member = m;
  reachable = true;
  in_recovery = not is_master;
  timeline = as_timeline (get "timeline" json);
  wal_position = wal;
  tags = fields (get "tags" json);
  watchdog_failed = truthy (get "watchdog_failed" json);
}

-- A body without the keys that are read outright makes the member unknown.
unfoldable pub from_api_response : Member → Fields → MemberStatus
unfolding known_status unknown is_name has_key get fields
from_api_response m json =
    if has_key "role" json
    then (if is_name (get "role" json) "master"
        then known_status m json true 0
        else if has_key "xlog" json
        then (let xlog = fields (get "xlog" json) in
            known_status m json false (
              max (as_position (get "received_location" xlog))
                (as_position (get "replayed_location" xlog))))
        else unknown m)
    else unknown m

-- The status by the body of the answer, if one came.
unfoldable pub status_of : Member → Option Fields → MemberStatus
unfolding from_api_response
status_of m none = unknown m
status_of m (some json) = from_api_response m json

-- Why this node cannot be promoted, or `None`.
unfoldable pub failover_limitation : MemberStatus → Option String
unfolding get truthy
failover_limitation st =
    if not st.reachable
    then some "not reachable"
    else if truthy (get "nofailover" st.tags)
    then some "not allowed to promote"
    else if st.watchdog_failed
    then some "not watchdog capable"
    else none

-- `lag > maximum_lag_on_failover`, with the subtraction moved to the other side.
unfoldable pub is_lagging : Cluster → ℕ → ℕ → Bool
is_lagging c maximum_lag wal_position = ltb (wal_position + maximum_lag) c.last_leader_operation

-- The members that are asked for their status.
unfoldable pub to_ask : String → List Member → List Member
unfolding nofailover api_url truthy
to_ask me = keep (λ m. not (m.name == me) && (not (nofailover m) && truthy (api_url m)))

-- Whether a status takes this node out of the race: a living master, or a better position.
unfoldable pub disqualifies : ℕ → Bool → SyncState → MemberStatus → Bool
unfolding failover_limitation is_name
disqualifies my_wal_position sync_mode sync st = elim (failover_limitation st) [
  | some reason ↦ false
  | none ↦
      if not st.in_recovery
      then true
      else if ltb my_wal_position st.wal_position
      then not sync_mode || not (is_name sync.leader st.member.name)
      else false
]

-- The loop of `_is_healthiest_node`.
unfoldable pub wins_against : ℕ → Bool → SyncState → List MemberStatus → Bool
unfolding disqualifies
wins_against my_wal_position sync_mode sync [] = true
wins_against my_wal_position sync_mode sync (st ∷ sts) =
    if disqualifies my_wal_position sync_mode sync st
    then false
    else wins_against my_wal_position sync_mode sync sts

-- Whether a status is one to fail over to.
unfoldable pub is_candidate : Cluster → ℕ → Bool → MemberStatus → Bool
unfolding failover_limitation is_lagging View.timeline
is_candidate c maximum_lag checks_timeline st = elim (failover_limitation st) [
  | some reason ↦ false
  | none ↦
      if is_lagging c maximum_lag st.wal_position
      then false
      else not (
          checks_timeline
          && (not (truthy (num st.timeline)) || ltb_ℤ st.timeline (View.timeline c)))
]

-- The loop of `is_failover_possible`.
unfoldable pub any_candidate : Cluster → ℕ → Bool → Bool → List MemberStatus → Bool
unfolding is_candidate
any_candidate c maximum_lag checks_timeline ret [] = ret
any_candidate c maximum_lag checks_timeline ret (st ∷ sts) =
    any_candidate c maximum_lag checks_timeline
      (if is_candidate c maximum_lag checks_timeline st then true else ret) sts
