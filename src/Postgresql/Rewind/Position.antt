-- ===== src/Postgresql/Rewind/Position.antt =====
-- patroni/postgresql/rewind.py: `configuration_allows_rewind`, `_get_local_timeline_lsn` and
-- `_get_checkpoint_end`. What pg_controldata prints is a function of its labels.
use pennsignals_postgres.Base.{
  ℕ, String, ◌<>◌, Bool, true, false, not, ◌&&◌, ◌||◌, Option, none, some, List, [], ◌∷◌, ◌==◌, eqb,
  is_some, if◌then◌else◌,
}
use pennsignals_postgres.Base.Text.{split_at, rstrip, cut, digits_only}
use pennsignals_postgres.Postgresql.Lsn.{format_lsn, parse_lsn}

abbrev pub ControlData : Type 0
ControlData = String → Option String

abbrev text_or : String → Option String → String
text_or default none = default
text_or default (some s) = s

unfoldable pub configuration_allows_rewind : ControlData → Bool
configuration_allows_rewind d =
    text_or "off" (d "wal_log_hints setting") == "on"
    || not (text_or "0" (d "Data page checksum version") == "0")

-- `can_rewind`: the setting, and what `pg_rewind --help` returned, where `none` is an `OSError`.
unfoldable pub can_rewind : Bool → Option ℕ → ControlData → Bool
can_rewind use_pg_rewind none d = false
can_rewind use_pg_rewind (some code) d =
    use_pg_rewind && (eqb code 0 && configuration_allows_rewind d)

unfoldable pub can_rewind_or_reinitialize_allowed : Bool → Bool → Bool
can_rewind_or_reinitialize_allowed remove_data_directory can = remove_data_directory || can

-- `in_recovery`, `timeline` and `lsn`, each of which may be `None`; `lsn` is still a text.
pub record Position : Type 0 where
  pub in_recovery : Option Bool
  pub timeline : Option ℕ
  pub lsn : Option String

abbrev has_state : ControlData → String → Bool
has_state d state = text_or "" (d "Database cluster state") == state

-- `int(data.get(label))`; `none` is the `TypeError` or `ValueError`.
abbrev int_at : ControlData → String → Option ℕ
int_at d label = elim (d label) [ none ↦ none | some s ↦ digits_only s ]

-- A node that was a master, or shut down as one.
unfoldable pub shut_down : ControlData → Position → Position
shut_down d p = record {
  in_recovery = some false;
  timeline = elim (int_at d "Latest checkpoint's TimeLineID") [
    | none ↦ p.timeline
    | some t ↦ some t
  ];
  lsn = d "Latest checkpoint location";
}

abbrev recovery_position : ControlData → Option ℕ → Position
recovery_position d t = record {
  in_recovery = some true;
  timeline = t;
  lsn = d "Minimum recovery ending location";
}

abbrev is_zero : Option String → ℕ → Bool
is_zero lsn t = text_or "" lsn == "0/0" || eqb t 0

-- A node that was shut down in recovery; its first `int` may fail, and zeros tell that it crashed as a
-- master.
abbrev after_recovery : ControlData → Option ℕ → Position
after_recovery d none = recovery_position d none
after_recovery d (some t) =
    let p = recovery_position d (some t) in if is_zero p.lsn t then shut_down d p else p

abbrev nothing : Position
nothing = record { in_recovery = none; timeline = none; lsn = none }

unfoldable pub position_from_controldata : ControlData → Position
position_from_controldata d =
    if has_state d "shut down in recovery"
    then after_recovery d (int_at d "Min recovery ending loc's timeline")
    else if has_state d "shut down"
    then shut_down d nothing
    else nothing

-- The result has the position as a number, or `none` where it cannot be read.
abbrev parse_position : Option String → Option ℕ
parse_position none = none
parse_position (some s) = parse_lsn s

unfoldable pub get_local_timeline_lsn_from_controldata :
    ControlData → Option Bool × (Option ℕ × Option ℕ)
get_local_timeline_lsn_from_controldata d =
    let p = position_from_controldata d in (p.in_recovery, (p.timeline, parse_position p.lsn))

abbrev or_timeline : Option ℕ → Option ℕ → Option ℕ
or_timeline none b = b
or_timeline (some t) b = if eqb t 0 then b else some t

-- What a running server tells: `received_timeline`, `get_replica_timeline` and `replayed_location`.
pub record Running : Type 0 where
  pub received_timeline : Option ℕ
  pub replica_timeline : Option ℕ
  pub replayed_location : Option ℕ

unfoldable pub get_local_timeline_lsn :
    Option Running → ControlData → Option Bool × (Option ℕ × Option ℕ)
get_local_timeline_lsn (some r) d =
    (some true, (or_timeline r.received_timeline r.replica_timeline, r.replayed_location))
get_local_timeline_lsn none d = get_local_timeline_lsn_from_controldata d

abbrev number_or_zero : Option ℕ → ℕ
number_or_zero none = 0
number_or_zero (some n) = n

abbrev end_in : Option (String × String) → ℕ
end_in none = 0
end_in (some (before, after)) = elim (cut ": wanted " after) [
  | none ↦ 0
  | some (lsn, rest) ↦ number_or_zero (parse_lsn lsn)
]

abbrev one_line : List String → List String → ℕ → ℕ
one_line (out ∷ []) (err ∷ []) lsn =
    let pattern =
      "error in WAL record at " <> (format_lsn lsn false <> ": invalid record length at ") in
    if is_some (cut (", lsn: " <> (format_lsn lsn true <> ", prev ")) out)
    then end_in (cut pattern err)
    else 0
one_line _ _ lsn = 0

-- What pg_waldump writes to its outputs for the checkpoint at a position; `none` is a failure to run
-- it. The result is the position behind the checkpoint, or 0.
unfoldable pub get_checkpoint_end : Option (String × String) → ℕ → ℕ
get_checkpoint_end none lsn = 0
get_checkpoint_end (some (out, err)) lsn =
    one_line (split_at 10 (rstrip out)) (split_at 10 (rstrip err)) lsn
