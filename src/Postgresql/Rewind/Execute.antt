-- ===== src/Postgresql/Rewind/Execute.antt =====
-- patroni/postgresql/rewind.py: `execute` and `ensure_clean_shutdown`.
use pennsignals_postgres.Base.{
  ℕ, Bool, true, false, not, ◌&&◌, ◌||◌, Option, none, some, eqb, if◌then◌else◌,
}
use pennsignals_postgres.Postgresql.Rewind.{Status, initial, success, failed}

-- What the calls of `execute` answer. A question about the leader may be asked before pg_rewind and
-- after it, and the answers may differ.
pub record Answers : Type 0 where
  pub is_running : Bool
  pub stops : Bool
  -- The leader's `checkpoint_after_promote`; `none` too where it is not a `Leader`.
  pub checkpoint_status : Option Bool
  pub checkpoint_fails : Bool
  pub is_master_before : Bool
  pub pg_rewind : Bool
  pub is_master_after : Bool
  pub remove_on_rewind_failure : Bool
  pub remove_on_diverged_timelines : Bool

pub data Effect : Type 0 where
  -- pg_rewind was not run.
  postponed : Effect
  rewound : Effect
  -- The leader could not be asked any more.
  gave_up : Effect
  removed_data_directory : Effect
  gave_up_for_good : Effect

abbrev after_failure : Answers → Effect
after_failure a =
    if not a.is_master_after
    then gave_up
    else if a.remove_on_rewind_failure || a.remove_on_diverged_timelines
    then removed_data_directory
    else gave_up_for_good

abbrev run : Answers → Effect
run a = if a.pg_rewind then rewound else after_failure a

abbrev with_status : Option Bool → Answers → Effect
with_status none a = if a.checkpoint_fails then postponed else run a
with_status (some false) a = postponed
with_status (some true) a = if a.is_master_before then run a else postponed

unfoldable pub execute : Answers → Effect
execute a = if a.is_running && not a.stops then postponed else with_status a.checkpoint_status a

-- The state that `execute` leaves.
unfoldable pub status_after : Effect → Status → Status
status_after rewound s = success
status_after removed_data_directory s = initial
status_after gave_up_for_good s = failed
status_after postponed s = s
status_after gave_up s = s

-- The exit code of the single-user server; `none` stands for `None`.
unfoldable pub ensure_clean_shutdown : Option ℕ → Option Bool
ensure_clean_shutdown none = none
ensure_clean_shutdown (some code) = if eqb code 0 then some true else none
