-- ===== src/Dcs/FailoverLaws.antt =====
-- A failover request as it is written and read again (patroni/dcs/__init__.py: `manual_failover`,
-- `Failover.from_node`).
use pennsignals_postgres.Base.{
  eq_iff, ℕ, String, false, Option, none, some, ◌==◌, ◌≡◌, refl, choose, if◌then◌else◌, ◌∙◌,
}
use pennsignals_postgres.Json.{Value, null, str, obj, Fields, end, get, truthy}
use pennsignals_postgres.Dcs.{Schedule}
use pennsignals_postgres.Dcs.Codec.{Codec, made, from_data, failover_from_node}
use pennsignals_postgres.Dcs.Store.{field_if, failover_value}

-- A value that is not true is not written, and read as none.
abbrev pub or_none : Value → Value
or_none v = if truthy v then v else null

get-field_if :
    (key : String) (v : Value) (rest : Fields)
    → get key rest ≡ null
    → get key (field_if key v rest) ≡ or_none v
unfolding get
get-field_if key v rest e =
    choose (λ x. get key (field_if key v rest) ≡ x) (truthy v) v null
      (λ t. rw (t, (eq_iff key key).1 refl) refl) (λ t. rw t e)

other_field :
    (key name : String) (v : Value) (rest : Fields)
    → (name == key) ≡ false
    → get key (field_if name v rest) ≡ get key rest
unfolding get
other_field key name v rest e =
    choose (λ x. get key x ≡ get key rest) (truthy v) _ _ (λ t. rw e refl) (λ t. refl)

-- A request as it is read, if its date was written as `date` and reads as `when`.
abbrev pub text_of : Option (String × Schedule) → Value
text_of none = null
text_of (some (t, s)) = str t

abbrev pub schedule_of : Option (String × Schedule) → Option Schedule
schedule_of none = none
schedule_of (some (t, s)) = some s

-- The text of the date is not empty, and `dateutil` reads it.
abbrev pub ReadsDate : Codec → Option (String × Schedule) → Type 0
ReadsDate j none = Unit {0}
ReadsDate j (some (t, s)) = ((t == "") ≡ false) × (j.parse_date (str t) ≡ some s)

get-leader : (l c d : Value) → get "leader" (failover_value l c d) ≡ or_none l
unfolding failover_value get
get-leader l c d =
    get-field_if "leader" l _
      (other_field "leader" "member" c _ refl ∙ other_field "leader" "scheduled_at" d end refl)

get-member : (l c d : Value) → get "member" (failover_value l c d) ≡ or_none c
unfolding failover_value get
get-member l c d =
    other_field "member" "leader" l _ refl
    ∙ get-field_if "member" c _ (other_field "member" "scheduled_at" d end refl)

get-scheduled_at : (l c d : Value) → get "scheduled_at" (failover_value l c d) ≡ or_none d
unfolding failover_value get
get-scheduled_at l c d =
    other_field "scheduled_at" "leader" l _ refl
    ∙ (other_field "scheduled_at" "member" c _ refl ∙ get-field_if "scheduled_at" d end refl)

from_data-failover_value :
    (j : Codec) (index : ℕ) (leader candidate : Value) (date : Option (String × Schedule))
    → ReadsDate j date
    → from_data j index (failover_value leader candidate (text_of date))
      ≡ made (record {
        index = index;
        leader = or_none leader;
        candidate = or_none candidate;
        scheduled_at = schedule_of date;
      })
unfolding truthy
from_data-failover_value j index l c none h =
    rw (get-scheduled_at l c null, get-leader l c null, get-member l c null) refl
from_data-failover_value j index l c (some (t, s)) h =
    rw (get-scheduled_at l c (str t), h.0, h.0, h.1)
      (rw (get-leader l c (str t), get-member l c (str t)) refl)

-- A failover request is read as it was written, with or without a date: a leader or candidate that is
-- not true as none. The date's text is not empty and `dateutil` reads it, and the module `json` reads
-- what it wrote, which is not empty.
pub failover_from_node-failover_value :
    (j : Codec) (index : ℕ) (leader candidate : Value) (date : Option (String × Schedule))
    → ReadsDate j date
    → j.loads (j.dumps (obj (failover_value leader candidate (text_of date))))
      ≡ some (obj (failover_value leader candidate (text_of date)))
    → (j.dumps (obj (failover_value leader candidate (text_of date))) == "") ≡ false
    → failover_from_node j index
        (str (j.dumps (obj (failover_value leader candidate (text_of date)))))
      ≡ made (record {
        index = index;
        leader = or_none leader;
        candidate = or_none candidate;
        scheduled_at = schedule_of date;
      })
unfolding failover_from_node
failover_from_node-failover_value j index l c date h round not_empty =
    rw (not_empty, round) (from_data-failover_value j index l c date h)
