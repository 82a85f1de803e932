-- ===== src/Dcs.antt =====
-- patroni/dcs/__init__.py: the immutable records that a cluster view is made of. A value of a
-- parsed JSON document stays a `Value`; indices are the store's modification indices.
pub mod View
pub mod SlotName
pub mod Slots
pub mod Clone
pub mod Names
pub mod Kept
pub mod Codec
pub mod Store
pub mod SyncLaws
pub mod StoreLaws
pub mod FailoverLaws
use pennsignals_postgres.Base.{
  ℕ, String, Bool, true, false, not, ◌&&◌, ◌||◌, Option, none, some, List, [], ◌∷◌, ◌==◌, contains,
  if◌then◌else◌,
}
use pennsignals_postgres.Base.Text.{split_at}
use pennsignals_postgres.Json.{Value, str, Fields, get, truthy, fields}

pub record Member : Type 0 where
  pub index : ℕ
  pub name : String
  pub session : Value
  pub payload : Fields

pub record Leader : Type 0 where
  pub index : ℕ
  pub session : Value
  pub member : Member

-- A `scheduled_at`: an instant, and whether it carries a time zone.
pub record Schedule : Type 0 where
  pub instant : ℕ
  pub aware : Bool

pub record Failover : Type 0 where
  pub index : ℕ
  pub leader : Value
  pub candidate : Value
  pub scheduled_at : Option Schedule

pub record ClusterConfig : Type 0 where
  pub index : ℕ
  pub payload : Fields
  pub modify_index : ℕ

pub record SyncState : Type 0 where
  pub index : Option ℕ
  pub leader : Value
  pub sync_standby : Value

pub record TimelineHistory : Type 0 where
  pub index : ℕ
  pub value : Value
  pub lines : List Value

pub record Cluster : Type 0 where
  pub initialize : Option String
  pub config : Option ClusterConfig
  pub leader : Option Leader
  pub last_leader_operation : ℕ
  pub members : List Member
  pub failover : Option Failover
  pub sync : SyncState
  pub history : Option TimelineHistory

-- `value == name` for a text.
unfoldable pub is_name : Value → String → Bool
is_name (str s) name = s == name
is_name _ name = false

unfoldable pub tags : Member → Fields
unfolding get fields
tags m = fields (get "tags" m.payload)

unfoldable pub nofailover : Member → Bool
unfolding tags truthy
nofailover m = truthy (get "nofailover" (tags m))

unfoldable pub replicatefrom : Member → Value
unfolding tags
replicatefrom m = get "replicatefrom" (tags m)

unfoldable pub api_url : Member → Value
unfolding get
api_url m = get "api_url" m.payload

-- Whether `conn_url` is set: it is read, or built from `conn_kwargs` and then never empty.
unfoldable pub has_conn_url : Member → Bool
unfolding get truthy
has_conn_url m = truthy (get "conn_url" m.payload) || truthy (get "conn_kwargs" m.payload)

unfoldable pub clonefrom : Member → Bool
unfolding has_conn_url tags
clonefrom m = truthy (get "clonefrom" (tags m)) && has_conn_url m

unfoldable pub is_running : Member → Bool
unfolding get is_name
is_running m = is_name (get "state" m.payload) "running"

unfoldable pub timeline : Leader → Value
unfolding get
timeline l = get "timeline" l.member.payload

-- `bool(failover)` goes by `__len__`: a key that names nobody counts as absent.
unfoldable pub names_someone : Failover → Bool
unfolding truthy
names_someone f = truthy f.leader || truthy f.candidate

unfoldable pub requested : Option Failover → Option Failover
unfolding names_someone
requested none = none
requested (some f) = if names_someone f then some f else none

abbrev pub read_standbys : Value → List String
read_standbys (str text) = if text == "" then [] else split_at b',' text
read_standbys _ = []

-- `SyncState.members`; `sync_standby` is a text or nothing.
unfoldable pub sync_members : SyncState → List String
sync_members s = read_standbys s.sync_standby

-- `SyncState.matches`
unfoldable pub matches : SyncState → String → Bool
unfolding sync_members is_name
matches s name = is_name s.leader name || contains (sync_members s) name
