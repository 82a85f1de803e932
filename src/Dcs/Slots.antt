-- ===== src/Dcs/Slots.antt =====
-- `Cluster.get_replication_slots` and `has_permanent_logical_slots` of patroni/dcs/__init__.py.
use pennsignals_postgres.Base.{
  String, Bool, true, false, not, ◌&&◌, ◌||◌, Option, none, some, List, [], ◌∷◌, ◌==◌, any, keep,
  if◌then◌else◌,
}
use pennsignals_postgres.Json.{
  Value, null, str, obj, Fields, end, field, get, has_key, truthy, fields, put,
}
use pennsignals_postgres.Dcs.{Member, Cluster, is_name, replicatefrom}
use pennsignals_postgres.Dcs.SlotName.{slot_name_from_member_name, slot_name_matches}

-- The slots by name, in the order in which they were first set.
abbrev pub Slots : Type 0
Slots = List (String × Fields)

unfoldable pub find_slot : String → Slots → Option Fields
find_slot name [] = none
find_slot name ((k, v) ∷ slots) = if k == name then some v else find_slot name slots

unfoldable pub set_slot : String → Fields → Slots → Slots
set_slot name v [] = (name, v) ∷ []
set_slot name v ((k, w) ∷ slots) =
    if k == name then (k, v) ∷ slots else (k, w) ∷ set_slot name v slots

abbrev pub physical : Fields
physical = field "type" (str "physical") end

unfoldable pub slot_is : String → Fields → Bool
unfolding get is_name
slot_is kind slot = is_name (get "type" slot) kind

unfoldable pub use_slots : Cluster → Bool
unfolding get has_key truthy fields
use_slots c = elim c.config [
  | none ↦ false
  | some cfg ↦
      let pg = fields (get "postgresql" cfg.payload) in
      if has_key "use_slots" pg then truthy (get "use_slots" pg) else true
]

abbrev is_null : Value → Bool
is_null null = true
is_null _ = false

-- Whether a member has its slot on the master that is asked.
unfoldable pub follows_master : Cluster → String → Member → Bool
unfolding replicatefrom is_name
follows_master c me m =
    not (m.name == me)
    && (is_null (replicatefrom m)
        || (is_name (replicatefrom m) me
            || not (any (λ (o : Member). is_name (replicatefrom m) o.name) c.members)))

unfoldable pub member_slots : List Member → Slots → Slots
unfolding set_slot
member_slots [] slots = slots
member_slots (m ∷ ms) slots =
    member_slots ms (set_slot (slot_name_from_member_name m.name) physical slots)

unfoldable pub permanent_slots : Cluster → Fields
unfolding get truthy fields
permanent_slots c = elim c.config [
  | none ↦ end
  | some cfg ↦
      let a = get "permanent_replication_slots" cfg.payload in
      let b = get "permanent_slots" cfg.payload in
      fields (if truthy a then a else if truthy b then b else get "slots" cfg.payload)
]

-- A value with its `type` filled in.
unfoldable pub with_type : Fields → Fields
unfolding has_key put get truthy
with_type v =
    if has_key "type" v
    then v
    else put "type"
        (str
          (if truthy (get "database" v) && truthy (get "plugin" v) then "logical" else "physical"))
        v

unfoldable pub add_typed : String → String → Fields → Slots → Slots
unfolding set_slot find_slot slot_is get truthy
add_typed me name v slots =
    if slot_is "physical" v
    then (if name == slot_name_from_member_name me then slots else set_slot name v slots)
    else if slot_is "logical" v && (truthy (get "database" v) && truthy (get "plugin" v))
    then elim (find_slot name slots) [ some _ ↦ slots | none ↦ set_slot name v slots ]
    else slots

-- One round of the loop over the permanent slots: a bad name or value is skipped.
unfoldable pub add_permanent : String → String → Value → Slots → Slots
unfolding add_typed with_type
add_permanent me name value slots =
    if slot_name_matches name
    then (if truthy value
        then elim value [ obj v ↦ add_typed me name (with_type v) slots | _ ↦ slots ]
        else add_typed me name (with_type physical) slots)
    else slots

unfoldable pub add_permanents : String → Fields → Slots → Slots
unfolding add_permanent
add_permanents me end slots = slots
add_permanents me (field name value d) slots =
    add_permanents me d (add_permanent me name value slots)

abbrev pub is_master_role : String → Bool
is_master_role role = role == "master" || role == "standby_leader"

-- The members that replicate from a replica; `none` is the exception where no leader is known.
unfoldable pub replica_members : Cluster → String → Option (List Member)
unfolding use_slots replicatefrom is_name
replica_members c me =
    let mine = keep (λ m. use_slots c && is_name (replicatefrom m) me) c.members in
    elim mine [
      | [] ↦ some []
      | m ∷ ms ↦ elim c.leader [
        | none ↦ none
        | some l ↦ some (keep (λ (o : Member). not (o.name == l.member.name)) (m ∷ ms))
      ]
    ]

-- The slots that a node in the given role keeps.
unfoldable pub get_replication_slots : Cluster → String → String → Option Slots
unfolding member_slots add_permanents permanent_slots follows_master replica_members use_slots
get_replication_slots c me role =
    if is_master_role role
    then some (
        add_permanents me (permanent_slots c)
          (member_slots (keep (λ m. use_slots c && follows_master c me m) c.members) []))
    else elim (replica_members c me) [ none ↦ none | some ms ↦ some (member_slots ms []) ]

unfoldable pub has_permanent_logical_slots : Cluster → String → Bool
unfolding get_replication_slots slot_is
has_permanent_logical_slots c name = elim (get_replication_slots c name "master") [
  | none ↦ false
  | some slots ↦ any (λ (_, v). slot_is "logical" v) slots
]
