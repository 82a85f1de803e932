-- ===== src/Postgresql/SlotSync.antt =====
-- patroni/postgresql/slots.py: the class `SlotsHandler`, which makes the replication slots of the server
-- those that the cluster wants. What the server answers is a parameter; `none` is an exception.
use mathlib.Core.List.{reverse}
use pennsignals_postgres.Base.{
  String, Bool, true, false, not, ◌&&◌, ◌||◌, Option, none, some, List, [], ◌∷◌, ◌==◌, any,
  contains, is_some, if◌then◌else◌,
}
use pennsignals_postgres.Base.Fallible.{
  Method, give, throw, read, change, branch, guarded, ◌>>=◌, ◌>>◌,
}
use pennsignals_postgres.Json.{Value, null, str, Fields, get, truthy, same_value}
use pennsignals_postgres.Dcs.{is_name}
use pennsignals_postgres.Dcs.Slots.{Slots, find_slot}

unfoldable pub compare_slots : Fields → Fields → Bool
compare_slots a b =
    same_value (get "type" a) (get "type" b)
    && (is_name (get "type" a) "physical"
        || same_value (get "database" a) (get "database" b)
          && same_value (get "plugin" a) (get "plugin" b))

abbrev is_absent : Value → Bool
is_absent null = true
is_absent _ = false

abbrev agrees : String → Fields → Fields → Bool
agrees key matcher slot =
    not (truthy (get key matcher)) || same_value (get key matcher) (get key slot)

abbrev is_ignored_by : String → Fields → Fields → Bool
is_ignored_by name slot matcher =
    (is_absent (get "name" matcher) || is_name (get "name" matcher) name)
    && (agrees "database" matcher slot
        && (agrees "plugin" matcher slot && agrees "type" matcher slot))

unfoldable pub ignore_replication_slot : List Fields → String → Fields → Bool
ignore_replication_slot matchers name slot = any (is_ignored_by name slot) matchers

pub data Request : Type 0 where
  drop_slot : String → Request
  create_physical_slot : String → Request
  create_logical_slot : String → Request

pub record Server : Type 0 where
  -- The slots that are there.
  pub load : Option Slots
  -- Whether the slot was dropped.
  pub drop : String → Option Bool
  pub create_physical : String → Bool
  pub connect : String → Bool
  pub create_logical : String → Bool

-- `known` is `_replication_slots`, `scheduled` is `_schedule_load_slots`. The requests and the logical
-- slots stand in reverse order.
pub record Handler : Type 0 where
  pub known : Slots
  pub scheduled : Bool
  pub logical : Slots
  pub requests : List Request

abbrev pub Work : Type 0
Work = Method Handler (Unit {0}) (Unit {0})

unfoldable pub remove_slot : String → Slots → Slots
remove_slot name [] = []
remove_slot name ((k, v) ∷ slots) =
    let rest = remove_slot name slots in if k == name then rest else (k, v) ∷ rest

abbrev pub note : Request → Handler → Handler
note r h = record h { requests = r ∷ h.requests }

abbrev pub reschedule : Work
reschedule = change (λ h. record h { scheduled = true })

module _ (server : Server) where
  abbrev pub answer : {A : Type 0} → Option A → Method Handler (Unit {0}) A
  answer none = throw tt
  answer (some a) = give a

  unfoldable pub drop_replication_slot : String → Method Handler (Unit {0}) Bool
  drop_replication_slot name = do change (note (drop_slot name)); answer (server.drop name)

  abbrev ask : Request → Bool → Work
  ask r works = do change (note r); branch works (give tt) reschedule

  abbrev pub set_known : Slots → Work
  set_known slots = change (λ h. record h { known = slots; scheduled = false })

  unfoldable pub load_replication_slots : Work
  load_replication_slots = do
    scheduled ← read (λ h. h.scheduled)
    branch scheduled (do slots ← answer server.load; set_known slots) (give tt)

  -- A slot of the server that the cluster does not want.
  abbrev pub drop_unwanted : Slots → List Fields → Slots → Work
  drop_unwanted wanted matchers [] = give tt
  drop_unwanted wanted matchers ((name, slot) ∷ slots) = do
    branch (is_some (find_slot name wanted) || ignore_replication_slot matchers name slot) (give tt)
        (do dropped ← drop_replication_slot name; branch dropped (give tt) reschedule)
    drop_unwanted wanted matchers slots

  abbrev pub create : String → Fields → Work
  create name slot =
      branch (is_name (get "type" slot) "physical")
        (ask (create_physical_slot name) (server.create_physical name))
        (branch (is_name (get "type" slot) "logical")
          (change (λ h. record h { logical = (name, slot) ∷ h.logical })) (give tt))

  -- A slot whose value changes is dropped first.
  abbrev pub sync_present : String → Fields → Option Fields → Work
  sync_present name slot none = create name slot
  sync_present name slot (some old) = branch (compare_slots slot old) (give tt) (do
    dropped ← drop_replication_slot name
    branch dropped
        (do change (λ h. record h { known = remove_slot name h.known }); create name slot)
        reschedule)

  abbrev pub sync_slot : String → Fields → Work
  sync_slot name slot = do found ← read (λ h. find_slot name h.known); sync_present name slot found

  abbrev pub sync_wanted : Slots → Work
  sync_wanted [] = give tt
  sync_wanted ((name, slot) ∷ slots) = do sync_slot name slot; sync_wanted slots

  abbrev database_of : Fields → String
  database_of slot = elim (get "database" slot) [ str d ↦ d | _ ↦ "" ]

  -- The databases of slots in reverse order, each where it comes first, again in reverse order.
  abbrev pub databases : Slots → List String
  databases [] = []
  databases ((name, slot) ∷ slots) =
      let rest = databases slots in
      if contains rest (database_of slot) then rest else database_of slot ∷ rest

  abbrev pub create_in : String → Slots → Work
  create_in database [] = give tt
  create_in database ((name, slot) ∷ slots) = do
    branch (database_of slot == database)
        (ask (create_logical_slot name) (server.create_logical name)) (give tt)
    create_in database slots

  -- One connection for each database.
  abbrev pub create_logical_slots : List String → Slots → Work
  create_logical_slots [] slots = give tt
  create_logical_slots (database ∷ rest) slots = do
    branch (server.connect database) (create_in database slots) (throw tt)
    create_logical_slots rest slots

  -- What follows the loading of the slots.
  unfoldable pub sync_loaded : Slots → List Fields → Work
  sync_loaded wanted matchers = do
    present ← read (λ h. h.known)
    drop_unwanted wanted matchers present
    change (λ h. record h { logical = [] })
    sync_wanted wanted
    logical ← read (λ h. h.logical)
    create_logical_slots (reverse (databases logical)) (reverse logical)
    change (λ h. record h { known = wanted })

  unfoldable pub sync_all : Option Slots → List Fields → Work
  sync_all wanted matchers = do
    load_replication_slots
    slots ← answer wanted
    sync_loaded slots matchers

  -- `wanted` is what `get_replication_slots` gives, for a server of version 9.4 at least.
  unfoldable pub sync_replication_slots : Option Slots → List Fields → Work
  sync_replication_slots wanted matchers = guarded (sync_all wanted matchers) (λ e. reschedule)
