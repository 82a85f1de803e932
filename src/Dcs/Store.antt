-- ===== src/Dcs/Store.antt =====
-- patroni/dcs/__init__.py: the class `AbstractDCS`, apart from what each store implements.
use Prim.Native.Char.{code}
use Prim.Native.Nat.{Ordering}
use Prim.Native.String.{compare}
use pennsignals_postgres.Base.{
  eqb, ℕ, ◌+◌, String, ◌<>◌, Bool, true, false, Option, none, some, List, [], ◌∷◌, ◌==◌, ltb,
  if◌then◌else◌,
}
use pennsignals_postgres.Base.Text.{join}
use pennsignals_postgres.Json.{Value, null, str, Fields, end, field, truthy}
use pennsignals_postgres.Dcs.{Cluster}

-- The attributes that change. The position of the leader is a text here.
pub record Store : Type 0 where
  pub cached : Option Cluster
  pub valid_till : ℕ
  pub last_leader_operation : String

-- `lstrip('/')`
drop_slashes : String → String
drop_slashes String.[] = ""
drop_slashes (String.◌∷◌ c s) =
    let rest = drop_slashes s in if eqb (code c) b'/' then rest else String.◌∷◌ c s

unfoldable pub client_path : String → String → String
unfolding drop_slashes
client_path base path = base <> ("/" <> drop_slashes path)

unfoldable pub member_path : String → String → String
member_path base name = client_path base ("members/" <> name)

unfoldable pub leader_optime_path : String → String
leader_optime_path base = client_path base "optime/leader"

unfoldable pub reset_cluster : Store → Store
reset_cluster s = record s { cached = none; valid_till = 0 }

-- The view that was loaded at an instant, or `none`, which is an exception.
unfoldable pub get_cluster : Option Cluster → ℕ → ℕ → Store → Option Cluster × Store
get_cluster none now ttl s = (none, reset_cluster s)
get_cluster (some c) now ttl s = (some c, record s { cached = some c; valid_till = now + ttl })

unfoldable pub cluster : ℕ → Store → Option Cluster
cluster now s = if ltb now s.valid_till then s.cached else none

-- Whether the store was asked to write, and the state after; `written` is the store's answer.
unfoldable pub write_leader_optime : String → Bool → Store → Bool × Store
write_leader_optime op written s =
    if s.last_leader_operation == op
    then (false, s)
    else (true, if written then record s { last_leader_operation = op } else s)

abbrev written_if : Bool → Option String → Bool → Store → Bool × Store
written_if true (some op) written s =
    if op == "" then (false, s) else write_leader_optime op written s
written_if _ _ written s = (false, s)

-- Whether the key was renewed, whether the position was written, and the state after.
unfoldable pub update_leader : Bool → Option String → Bool → Store → Bool × (Bool × Store)
update_leader renewed op written s = (renewed, written_if renewed op written s)

unfoldable pub delete_leader : Option String → Bool → Store → Bool × Store
delete_leader op written s = written_if true op written s

abbrev pub field_if : String → Value → Fields → Fields
field_if key v rest = if truthy v then field key v rest else rest

-- The value that `manual_failover` writes; the date is a text already.
unfoldable pub failover_value : Value → Value → Value → Fields
failover_value leader candidate scheduled_at =
    field_if "leader" leader
      (field_if "member" candidate (field_if "scheduled_at" scheduled_at end))

-- `sorted(names)`, by the order of their characters.
abbrev pub before : String → String → Bool
before a b = elim (compare a b) [ Ordering.gt ↦ false | _ ↦ true ]

unfoldable pub insert : String → List String → List String
insert x [] = x ∷ []
insert x (y ∷ ys) = let rest = insert x ys in if before x y then x ∷ y ∷ ys else y ∷ rest

unfoldable pub sorted : List String → List String
sorted [] = []
sorted (x ∷ xs) = insert x (sorted xs)

abbrev pub text_or_none : String → Value
text_or_none s = if s == "" then null else str s

unfoldable pub sync_state : Value → List String → Fields
sync_state leader sync_standby =
    field "leader" leader (field "sync_standby" (text_or_none (join "," (sorted sync_standby))) end)
