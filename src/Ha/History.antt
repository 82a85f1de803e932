-- ===== src/Ha/History.antt =====
-- patroni/ha.py: `update_cluster_history`, which publishes the timeline history.
use pennsignals_postgres.Base.{
  ℕ, zero, suc, ◌-◌, Bool, true, false, ◌&&◌, Option, none, some, List, [], ◌∷◌, map, ◌==◌, eqb,
  length, get_last?, is_empty, if◌then◌else◌,
}
use pennsignals_postgres.Base.Int.{pos, negsuc}
use pennsignals_postgres.Json.{Value, null, num, str, arr, Items, nil, cons, get}
use pennsignals_postgres.Dcs.{Cluster}
use pennsignals_postgres.Ha.World.{get_master_timeline, get_history, set_history_value}
use pennsignals_postgres.Ha.Program.{Program, pure, invoke, ◌>>=◌, when, given, cluster}

-- A line of a history is a list: timeline, switch point, reason, and perhaps a time stamp.
abbrev pub item : ℕ → Value → Value
item i (arr vs) = nth i vs
  where
    nth : ℕ → Items → Value
    nth n nil = null
    nth zero (cons v vs) = v
    nth (suc n) (cons v vs) = nth n vs
item i _ = null

abbrev pub count_items : Items → ℕ
count_items nil = 0
count_items (cons v vs) = suc (count_items vs)

abbrev pub width : Value → ℕ
width (arr vs) = count_items vs
width _ = 0

unfoldable pub append_item : Items → Value → Items
append_item nil w = cons w nil
append_item (cons v vs) w = cons v (append_item vs w)

-- `line.append(v)`
unfoldable pub with_item : Value → Value → Value
with_item (arr vs) w = arr (append_item vs w)
with_item v w = v

-- `==` of the numbers and texts that a line starts with.
abbrev pub same_scalar : Value → Value → Bool
same_scalar (num (pos a)) (num (pos b)) = eqb a b
same_scalar (num (negsuc a)) (num (negsuc b)) = eqb a b
same_scalar (str a) (str b) = a == b
same_scalar null null = true
same_scalar _ _ = false

-- `{line[0]: line for line in lines}.get(key)`: the last line of a timeline counts.
unfoldable pub line_of : Value → List Value → Option Value
line_of key [] = none
line_of key (line ∷ lines) = elim (line_of key lines) [
  | some later ↦ some later
  | none ↦ if same_scalar (item 0 line) key then some line else none
]

-- A line without a time stamp takes the one that the published history has for it.
unfoldable pub enrich : List Value → Value → Value
enrich published line =
    if eqb (width line) 3
    then elim (line_of (item 0 line) published) [
      | none ↦ line
      | some old ↦
          if eqb (width old) 4 && same_scalar (item 1 old) (item 1 line)
          then with_item line (item 3 old)
          else line
    ]
    else line

-- `history[-n:]`, which is the whole list for n = 0.
abbrev pub drop : ℕ → List Value → List Value
drop zero lines = lines
drop (suc n) [] = []
drop (suc n) (l ∷ lines) = drop n lines

unfoldable pub last_lines : ℕ → List Value → List Value
last_lines n lines = if eqb n 0 then lines else drop (length lines - n) lines

abbrev pub as_count : Value → ℕ
as_count (num (pos n)) = n
as_count _ = 0

unfoldable pub published_lines : Cluster → List Value
published_lines c = elim c.history [ none ↦ [] | some h ↦ h.lines ]

-- Whether the published history ends with the line before the timeline, time stamp included.
unfoldable pub is_current : ℕ → List Value → Bool
is_current timeline lines = elim (get_last? lines) [
  | none ↦ false
  | some line ↦ same_scalar (item 0 line) (num (pos (timeline - 1))) && eqb (width line) 4
]

unfoldable pub update_cluster_history : Program (Unit {0})
update_cluster_history = do
  timeline ← invoke get_master_timeline
  c ← cluster
  when (eqb timeline 1)
      (when (is_empty (published_lines c)) (pure tt) (invoke (set_history_value [])))
      (when (is_current timeline (published_lines c)) (pure tt) (do
        history ← invoke (get_history timeline)
        given c.config
            (λ cfg. when (is_empty history) (pure tt) (
              invoke (
                set_history_value (
                  map (enrich (published_lines c))
                    (last_lines (as_count (get "max_timelines_history" cfg.payload)) history)))))
            (pure tt)))
