-- ===== src/Postgresql/Rewind.antt =====
-- patroni/postgresql/rewind.py: the class `Rewind`, which finds out whether this node's data directory
-- went another way than the master's, and repairs it.
pub mod Position
pub mod Wal
pub mod Execute
pub mod Decision
pub mod WalLaws
use pennsignals_postgres.Base.{
  ℕ, String, Bool, true, false, not, ◌&&◌, ◌||◌, Option, none, some, List, [], ◌∷◌, ◌==◌, eqb, ltb,
  if◌then◌else◌,
}
use pennsignals_postgres.Executor.Task.{CriticalTask}
use pennsignals_postgres.Postgresql.Timelines.{Local, Switch, parse_history, need_rewind}

-- `REWIND_STATUS`
pub data Status : Type 0 where
  initial : Status
  checkpoint : Status
  check : Status
  need : Status
  not_need : Status
  success : Status
  failed : Status

abbrev pub is_need : Status → Bool
is_need need = true
is_need _ = false

abbrev pub is_check : Status → Bool
is_check check = true
is_check _ = false

abbrev pub is_initial : Status → Bool
is_initial initial = true
is_initial _ = false

pub record Rewind : Type 0 where
  pub state : Status
  pub checkpoint_task : Option (CriticalTask Bool)

unfoldable pub reset_state : Rewind → Rewind
reset_state r = record { state = initial; checkpoint_task = none }

-- `can_rewind_or_reinitialize_allowed` is an argument.
unfoldable pub trigger_check_diverged_lsn : Bool → Rewind → Rewind
trigger_check_diverged_lsn allowed r =
    if allowed && not (is_need r.state) then record r { state = check } else r

unfoldable pub is_needed : Rewind → Bool
is_needed r = is_check r.state || is_need r.state

unfoldable pub executed : Rewind → Bool
executed r = elim r.state [ success ↦ true | failed ↦ true | _ ↦ false ]

unfoldable pub has_failed : Rewind → Bool
has_failed r = elim r.state [ failed ↦ true | _ ↦ false ]

unfoldable pub checkpoint_after_promote : Rewind → Bool
checkpoint_after_promote r = elim r.state [ checkpoint ↦ true | _ ↦ false ]

-- What a member answers on a replication connection; `none` is an exception.
pub record Master : Type 0 where
  pub identify_system : Option ℕ
  pub timeline_history : ℕ → Option String

-- What a check does: nothing, a new state, or an exception, where the history has no line at all.
pub data Checked : Type 0 where
  unchanged : Checked
  becomes : Status → Checked
  crashes : Checked

abbrev pub status_for : Option Bool → Status
status_for (some true) = need
status_for _ = not_need

abbrev pub check_lines : Local → List Switch → Checked
check_lines l [] = crashes
check_lines l (s ∷ history) = becomes (status_for (need_rewind l (s ∷ history)))

abbrev pub check_history : Local → Option String → Checked
check_history l none = unchanged
check_history l (some text) = check_lines l (parse_history text)

abbrev pub check_master : Local → Master → Option ℕ → Checked
check_master l m none = unchanged
check_master l m (some master_timeline) =
    if ltb master_timeline l.timeline
    then becomes need
    else if eqb l.timeline master_timeline
    then becomes not_need
    else if ltb 1 master_timeline
    then check_history l (m.timeline_history master_timeline)
    else becomes not_need

-- `is_master` tells whether the leader counts as a master: by its role, or, in a standby cluster, as it
-- is asked; `none` is a position that is not known.
unfoldable pub check_timeline_and_lsn : Option Local → Bool → Master → Checked
check_timeline_and_lsn none is_master m = unchanged
check_timeline_and_lsn (some l) false m = unchanged
check_timeline_and_lsn (some l) true m = check_master l m m.identify_system

-- The exception leaves the state.
abbrev after_check : Rewind → Checked → Rewind
after_check r unchanged = r
after_check r crashes = r
after_check r (becomes s) = record r { state = s }

-- The leader's name, and whether it has a connection address.
pub record Target : Type 0 where
  pub name : String
  pub has_conn_url : Bool

abbrev checks : Option Target → String → Rewind → Bool
checks none name r = false
checks (some leader) name r = not (leader.name == name) && (leader.has_conn_url && is_check r.state)

abbrev possible : Option Target → Rewind → Bool
possible none r = false
possible (some leader) r = leader.has_conn_url && is_need r.state

abbrev raises : Checked → Bool
raises crashes = true
raises _ = false

-- `none` is an exception.
unfoldable pub rewind_or_reinitialize_needed_and_possible :
    Option Target → String → Option Local → Bool → Master → Rewind → Option Bool × Rewind
rewind_or_reinitialize_needed_and_possible leader name l is_master m r =
    let result = if checks leader name r then check_timeline_and_lsn l is_master m else unchanged in
    let after = after_check r result in
    (if raises result then none else some (possible leader after), after)

abbrev of_result : Option Bool → Bool × Bool
of_result none = (false, true)
of_result (some true) = (true, true)
of_result (some false) = (false, false)

abbrev after_task : Bool → Rewind → Rewind
after_task true r = record r { state = checkpoint }
after_task false r = r

abbrev by_timeline : Bool → Rewind → Rewind
by_timeline same r = if same then record r { state = checkpoint } else r

-- What a finished or running checkpoint says: the state to take, and whether to stop here.
abbrev consult : CriticalTask Bool → Bool → Rewind → Rewind
consult task same r =
    let (done, stops) = of_result task.result in
    let after = after_task done r in if stops then after else by_timeline same after

-- Whether a thread is started, and the state after. `same` tells whether the master's timeline is the
-- one in `pg_control`.
unfoldable pub ensure_checkpoint_after_promote : Bool → Bool → Rewind → Bool × Rewind
ensure_checkpoint_after_promote is_leader same r =
    if is_initial r.state && is_leader
    then elim r.checkpoint_task [
      | some task ↦ (false, consult task same r)
      | none ↦ (
        true,
        record r { checkpoint_task = some (record { is_cancelled = false; result = none }) },
      )
    ]
    else (false, r)
