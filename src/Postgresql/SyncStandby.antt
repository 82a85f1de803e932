-- ===== src/Postgresql/SyncStandby.antt =====
-- patroni/postgresql/__init__.py: `pick_synchronous_standby`. The rows of pg_stat_replication that
-- stream are an argument, in the order of the query: the synchronous ones first, then by position.
use pennsignals_postgres.Base.{
  ℕ, zero, suc, ◌+◌, max, String, Bool, true, Option, none, some, List, [], ◌∷◌, ◌==◌, ltb, leb,
  if◌then◌else◌,
}
use pennsignals_postgres.Base.Int.{ℤ, pos, negsuc}
use pennsignals_postgres.Json.{get, truthy, lower, codes, same_codes}
use pennsignals_postgres.Dcs.{Member, tags}

pub record Row : Type 0 where
  pub application_name : String
  pub sync_state : String
  pub lsn : ℕ

abbrev pub later_or : Option Member → Bool → Member → Option Member
later_or (some n) here m = some n
later_or none here m = if here then some m else none

-- `members.get(app_name)`: of members whose names differ in case alone, the last.
unfoldable pub find_member : String → List Member → Option Member
find_member name [] = none
find_member name (m ∷ ms) =
    later_or (find_member name ms) (same_codes (lower (codes m.name)) (codes name)) m

-- A replica that may be a synchronous standby.
pub record Replica : Type 0 where
  pub name : String
  pub is_sync : Bool
  pub position : ℕ

abbrev pub replica_of : Option Member → Row → List Replica → List Replica
replica_of none r rest = rest
replica_of (some m) r rest =
    if truthy (get "nosync" (tags m))
    then rest
    else record { name = m.name; is_sync = r.sync_state == "sync"; position = r.lsn } ∷ rest

unfoldable pub replica_list : List Member → List Row → List Replica
replica_list ms [] = []
replica_list ms (r ∷ rows) = replica_of (find_member r.application_name ms) r (replica_list ms rows)

abbrev highest : List Replica → ℕ
highest [] = 0
highest (r ∷ rs) = max r.position (highest rs)

abbrev pub max_lsn : List Replica → ℕ → ℕ
max_lsn (a ∷ b ∷ rs) last = highest (a ∷ b ∷ rs)
max_lsn _ last = last

-- The test of the lag, which a `sync_node_maxlag` of at most 0 switches off.
unfoldable pub is_near : ℤ → ℕ → Replica → Bool
is_near (pos zero) top r = true
is_near (pos (suc n)) top r = leb top (suc n + r.position)
is_near (negsuc n) top r = true

abbrev pub add_sync : Replica → List String → List String
add_sync r names = if r.is_sync then r.name ∷ names else names

-- `found` is the number of candidates so far.
unfoldable pub collect : ℕ → (Replica → Bool) → ℕ → List Replica → List String × List String
collect count near found [] = ([], [])
collect count near found (r ∷ rs) =
    let more = collect count near (suc found) rs in
    let same = collect count near found rs in
    if near r
    then if leb count (suc found)
      then (r.name ∷ [], add_sync r [])
      else (r.name ∷ more.0, add_sync r more.1)
    else if leb count found
    then ([], [])
    else same

-- The candidates, and those of them that are synchronous already.
unfoldable pub pick_synchronous_standby :
    ℕ → List Member → List Row → ℕ → ℕ → ℤ → List String × List String
pick_synchronous_standby major_version ms rows last_operation count maxlag =
    let replicas = replica_list ms rows in
    collect (if ltb major_version 90600 then 1 else count)
      (is_near maxlag (max_lsn replicas last_operation)) 0 replicas
