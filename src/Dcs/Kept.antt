-- ===== src/Dcs/Kept.antt =====
-- The slots of the members that stream from a master (patroni/dcs/__init__.py:
-- `get_replication_slots`).
use pennsignals_postgres.Base.{
  choose, String, Bool, true, false, ◌&&◌, Option, none, some, List, [], ◌∷◌, ◌≡◌, refl, sym, ap,
  subst, ◌∙◌, ◌==◌, eq_iff, keep, if◌then◌else◌, arith, inl, inr, Bool-cases,
}
use mathlib.Core.List.{Memᴰ}
use pennsignals_postgres.Json.{Value, null, bool, num, str, arr, obj, Fields, end, field, truthy}
use pennsignals_postgres.Dcs.{Member, Cluster}
use pennsignals_postgres.Dcs.SlotName.{slot_name_from_member_name, slot_name_matches}
use pennsignals_postgres.Dcs.Slots.{
  Slots, find_slot, set_slot, physical, slot_is, follows_master, member_slots, with_type, add_typed,
  add_permanent, add_permanents, is_master_role, permanent_slots, use_slots, get_replication_slots,
}

-- There is a slot of that name, and it is a physical one.
abbrev pub HasPhysical : String → Slots → Type 0
HasPhysical name slots =
    (v : Fields) × ((find_slot name slots ≡ some v) × (slot_is "physical" v ≡ true))

name_differs : (k other name : String) → (k == other) ≡ false → k ≡ name → (other == name) ≡ false
name_differs k other name h e = elim (Bool-cases (other == name)) [
  | inl g ↦ let d = (eq_iff other name).0 g in let b = (eq_iff k other).1 (e ∙ sym d) in cc
  | inr g ↦ g
]

find_slot-set_slot :
    (name other : String) (v : Fields) (slots : Slots)
    → find_slot name (set_slot other v slots)
      ≡ (if other == name then some v else find_slot name slots)
unfolding find_slot set_slot
find_slot-set_slot name other v [] = refl
find_slot-set_slot name other v ((k, w) ∷ slots) =
    let i = find_slot-set_slot name other v slots in
    elim (Bool-cases (k == other)) [
      | inl h ↦ let e = (eq_iff k other).0 h in grind arith
      | inr h ↦ elim (Bool-cases (k == name)) [
        | inl g ↦
            let e = (eq_iff k name).0 g in let d = name_differs k other name h e in ground arith
        | inr g ↦ ground arith
      ]
    ]

set_slot-HasPhysical :
    (name other : String) (v : Fields) (slots : Slots)
    → slot_is "physical" v ≡ true
    → HasPhysical name slots
    → HasPhysical name (set_slot other v slots)
set_slot-HasPhysical name other v slots p (w, (f, q)) =
    let i = find_slot-set_slot name other v slots in
    elim (Bool-cases (other == name)) [
      | inl h ↦ (v, (ground arith, p))
      | inr h ↦ (w, (ground arith, q))
    ]

set_slot_same-HasPhysical :
    (name other : String) (v : Fields) (slots : Slots)
    → name ≡ other
    → slot_is "physical" v ≡ true
    → HasPhysical name (set_slot other v slots)
set_slot_same-HasPhysical name other v slots d p =
    let i = find_slot-set_slot name other v slots in
    let e = (eq_iff other name).1 (sym d) in (v, (ground arith, p))

physical-slot_is : slot_is "physical" physical ≡ true
unfolding slot_is
physical-slot_is = refl

member_slots_keep-HasPhysical :
    (name : String) (ms : List Member) (slots : Slots)
    → HasPhysical name slots
    → HasPhysical name (member_slots ms slots)
unfolding member_slots
member_slots_keep-HasPhysical name [] slots h = h
member_slots_keep-HasPhysical name (m ∷ ms) slots h = member_slots_keep-HasPhysical name ms _ (
    set_slot-HasPhysical name (slot_name_from_member_name m.name) physical slots physical-slot_is h)

member_slots-HasPhysical :
    (m : Member) (ms : List Member) (slots : Slots)
    → Memᴰ m ms
    → HasPhysical (slot_name_from_member_name m.name) (member_slots ms slots)
unfolding member_slots
member_slots-HasPhysical m [] slots q = elim q [ ]
member_slots-HasPhysical m (x ∷ ms) slots (Memᴰ.head e) = member_slots_keep-HasPhysical _ ms _ (
    set_slot_same-HasPhysical _ _ physical slots
      (ap (λ (y : Member). slot_name_from_member_name y.name) e) physical-slot_is)
member_slots-HasPhysical m (x ∷ ms) slots (Memᴰ.tail q) = member_slots-HasPhysical m ms _ q

keep-Memᴰ :
    (p : Member → Bool) (m : Member) (ms : List Member)
    → p m ≡ true
    → Memᴰ m ms
    → Memᴰ m (keep p ms)
keep-Memᴰ p m [] h q = elim q [ ]
keep-Memᴰ p m (x ∷ ms) h (Memᴰ.head e) =
    choose (Memᴰ m) (p x) _ _ (λ _. Memᴰ.head e) (λ f. let k = ap p e in cc)
keep-Memᴰ p m (x ∷ ms) h (Memᴰ.tail q) =
    let i = keep-Memᴰ p m ms h q in choose (Memᴰ m) (p x) _ _ (λ _. Memᴰ.tail i) (λ _. i)

-- A slot set only where there is none of that name leaves the others as they are.
unless_there :
    (name other : String) (v : Fields) (slots : Slots) (o : Option Fields)
    → find_slot other slots ≡ o
    → HasPhysical name slots
    → HasPhysical name (elim o [ some _ ↦ slots | none ↦ set_slot other v slots ])
unless_there name other v slots (some w) e h = h
unless_there name other v slots none e (w, (f, q)) =
    let i = find_slot-set_slot name other v slots in
    elim (Bool-cases (other == name)) [
      | inl g ↦ let d = ap (λ n. find_slot n slots) ((eq_iff other name).0 g) in cc
      | inr g ↦ (w, (ground arith, q))
    ]

add_typed-HasPhysical :
    (me name other : String) (v : Fields) (slots : Slots)
    → HasPhysical name slots
    → HasPhysical name (add_typed me other v slots)
unfolding add_typed
add_typed-HasPhysical me name other v slots h =
    choose (HasPhysical name) (slot_is "physical" v) _ _
      (λ p.
        choose (HasPhysical name) (other == slot_name_from_member_name me) _ _ (λ _. h)
          (λ _. set_slot-HasPhysical name other v slots p h))
      (λ _.
        choose (HasPhysical name) _ _ _
          (λ _. unless_there name other v slots (find_slot other slots) refl h) (λ _. h))

add_permanent-HasPhysical :
    (me name other : String) (value : Value) (slots : Slots)
    → HasPhysical name slots
    → HasPhysical name (add_permanent me other value slots)
unfolding add_permanent
add_permanent-HasPhysical me name other value slots h =
    choose (HasPhysical name) (slot_name_matches other) _ _
      (λ _.
        choose (HasPhysical name) (truthy value) _ _ (λ _. of_value value)
          (λ _. add_typed-HasPhysical me name other (with_type physical) slots h))
      (λ _. h)
  where
    of_value :
        (v : Value)
        → HasPhysical name (elim v [ obj d ↦ add_typed me other (with_type d) slots | _ ↦ slots ])
    of_value (obj d) = add_typed-HasPhysical me name other (with_type d) slots h
    of_value null = h
    of_value (bool b) = h
    of_value (num n) = h
    of_value (str s) = h
    of_value (arr vs) = h

add_permanents-HasPhysical :
    (me name : String) (d : Fields) (slots : Slots)
    → HasPhysical name slots
    → HasPhysical name (add_permanents me d slots)
unfolding add_permanents
add_permanents-HasPhysical me name end slots h = h
add_permanents-HasPhysical me name (field other value d) slots h =
    add_permanents-HasPhysical me name d _ (add_permanent-HasPhysical me name other value slots h)

-- Where slots are in use, a master or standby leader keeps a physical slot for each member that
-- streams from it, whatever permanent slots are configured.
pub get_replication_slots-HasPhysical :
    (c : Cluster) (me role : String) (m : Member) (slots : Slots)
    → is_master_role role ≡ true
    → use_slots c ≡ true
    → Memᴰ m c.members
    → follows_master c me m ≡ true
    → get_replication_slots c me role ≡ some slots
    → HasPhysical (slot_name_from_member_name m.name) slots
unfolding get_replication_slots
get_replication_slots-HasPhysical c me role m slots r u q f g =
    let p = λ (x : Member). use_slots c && follows_master c me x in
    let k = keep-Memᴰ p m c.members (ground arith) q in
    let h =
      add_permanents-HasPhysical me _ (permanent_slots c) _ (member_slots-HasPhysical m _ [] k) in
    subst (HasPhysical (slot_name_from_member_name m.name))
      (of_master (is_master_role role) r _ _ g) h
  where
    of_master :
        (b : Bool)
        → b ≡ true
        → (x : Slots) (y : Option Slots) → (if b then some x else y) ≡ some slots
        → x ≡ slots
    of_master true e x y q = cc
    of_master false e x y q = cc
