-- ===== src/Dcs/View.antt =====
-- The methods of `Cluster` in patroni/dcs/__init__.py, but for the replication slots.
use pennsignals_postgres.Base.{
  ℕ, suc, ◌+◌, String, Bool, true, false, not, ◌&&◌, Option, none, some, List, [], ◌∷◌, ◌==◌, keep,
  any, head?, get_last?, contains, is_empty, if◌then◌else◌,
}
use pennsignals_postgres.Base.Int.{ℤ, pos, negsuc}
use pennsignals_postgres.Base.Text.{int_of_text}
use pennsignals_postgres.Json.{Value, null, bool, num, str, arr, obj, cons, get, is_on}
use pennsignals_postgres.Dcs.{Member, Leader, Cluster, is_name, clonefrom, is_running}

-- What a member of a cluster may stand for: `get_member` falls back to the leader.
pub data Node : Type 0 where
  a_member : Member → Node
  the_leader : Leader → Node
  -- A `RemoteMember`: the master that a standby cluster streams from.
  a_remote : Member → Node

unfoldable pub node_member : Node → Member
node_member (a_member m) = m
node_member (the_leader l) = l.member
node_member (a_remote m) = m

unfoldable pub node_name : Node → String
unfolding node_member
node_name n = (node_member n).name

-- `leader and leader.name`, where the name is not empty.
unfoldable pub leader_name : Cluster → Option String
leader_name c = elim c.leader [
  | none ↦ none
  | some l ↦ if l.member.name == "" then none else some l.member.name
]

unfoldable pub is_unlocked : Cluster → Bool
unfolding leader_name
is_unlocked c = elim (leader_name c) [ none ↦ true | some name ↦ false ]

unfoldable pub has_member : Cluster → String → Bool
has_member c name = any (λ (m : Member). m.name == name) c.members

unfoldable pub get_member : Cluster → String → Bool → Option Node
get_member c name fallback_to_leader =
    elim (head? (keep (λ (m : Member). m.name == name) c.members)) [
      | some m ↦ some (a_member m)
      | none ↦
          if fallback_to_leader
          then elim c.leader [ some l ↦ some (the_leader l) | none ↦ none ]
          else none
    ]

abbrev pub nth : List Member → ℕ → Option Member
nth [] i = none
nth (m ∷ ms) ℕ.zero = some m
nth (m ∷ ms) (suc i) = nth ms i

unfoldable pub clone_candidates : Cluster → String → List Member
unfolding clonefrom is_running
clone_candidates c me =
    let exclude : List String = elim c.leader [ none ↦ [] | some l ↦ me ∷ l.member.name ∷ [] ] in
    keep (λ m. clonefrom m && is_running m && not (contains exclude m.name)) c.members

-- `get_clone_member`; the number is what `randint` returned.
unfoldable pub get_clone_member : Cluster → String → ℕ → Option Node
unfolding clone_candidates
get_clone_member c me pick =
    let candidates = clone_candidates c me in
    if is_empty candidates
    then elim c.leader [ none ↦ none | some l ↦ some (the_leader l) ]
    else elim (nth candidates pick) [ none ↦ none | some m ↦ some (a_member m) ]

unfoldable pub check_mode : Cluster → String → Bool
unfolding is_on get
check_mode c mode = elim c.config [ none ↦ false | some cfg ↦ is_on (get mode cfg.payload) ]

-- `int(value)` of a JSON value; `none` is the exception.
unfoldable pub py_int : Value → Option ℤ
unfolding int_of_text
py_int null = none
py_int (bool true) = some (pos 1)
py_int (bool false) = some (pos 0)
py_int (num n) = some n
py_int (str s) = int_of_text s
py_int (arr vs) = none
py_int (obj d) = none

abbrev successor : ℤ → ℤ
successor (pos n) = pos (n + 1)
successor (negsuc ℕ.zero) = pos 0
successor (negsuc (suc n)) = negsuc n

-- `int(line[0]) + 1`, or `none` for an exception.
after_line : Value → Option ℤ
unfolding py_int
after_line (arr (cons v vs)) = elim (py_int v) [ none ↦ none | some n ↦ some (successor n) ]
after_line _ = none

-- `Cluster.timeline`: an unreadable history counts as 0.
unfoldable pub timeline : Cluster → ℤ
unfolding after_line is_name
timeline c = elim c.history [
  | none ↦ pos 0
  | some h ↦ elim (get_last? h.lines) [
    | some line ↦ elim (after_line line) [ none ↦ pos 0 | some n ↦ n ]
    | none ↦ if is_name h.value "[]" then pos 1 else pos 0
  ]
]
