-- ===== src/Postgresql/Timelines.antt =====
-- patroni/postgresql/misc.py: `parse_history`, and what patroni/postgresql/rewind.py reads of it.
-- A timeline is digits alone.
use pennsignals_postgres.Base.{
  ℕ, String, Bool, true, not, Option, none, some, List, [], ◌∷◌, eqb, ltb, leb, if◌then◌else◌,
}
use pennsignals_postgres.Base.Text.{split_at, strip, digits_only}
use pennsignals_postgres.Postgresql.Lsn.{parse_lsn}

pub record Switch : Type 0 where
  pub parent_timeline : ℕ
  pub switchpoint : ℕ
  pub reason : String

abbrev switch_of : Option ℕ → Option ℕ → String → Option Switch
switch_of (some t) (some p) r = some (record { parent_timeline = t; switchpoint = p; reason = r })
switch_of _ _ r = none

abbrev values_of : List String → Option Switch
values_of (t ∷ p ∷ r ∷ []) = switch_of (digits_only t) (parse_lsn p) r
values_of _ = none

abbrev keep_line : Option Switch → List Switch → List Switch
keep_line none rest = rest
keep_line (some s) rest = s ∷ rest

parse_lines : List String → List Switch
parse_lines [] = []
parse_lines (line ∷ lines) = keep_line (values_of (split_at 9 (strip line))) (parse_lines lines)

-- A line that is not three values, or whose numbers cannot be read, is left out.
unfoldable pub parse_history : String → List Switch
unfolding parse_lines
parse_history content = parse_lines (split_at 10 content)

-- Where the local node is in the WAL. `checkpoint_end` is the position behind its last checkpoint.
pub record Local : Type 0 where
  pub in_recovery : Bool
  pub timeline : ℕ
  pub lsn : ℕ
  pub checkpoint_end : ℕ

-- Whether a node that was on the timeline before the switch went beyond it.
unfoldable pub is_beyond : Local → ℕ → Bool
is_beyond l switchpoint =
    if l.in_recovery
    then ltb switchpoint l.lsn
    else if leb switchpoint l.lsn
    then true
    else not (eqb switchpoint l.checkpoint_end)

-- The loop over the history; `none` is the `None` of a timeline that was not found.
unfoldable pub need_rewind : Local → List Switch → Option Bool
need_rewind l [] = none
need_rewind l (s ∷ history) =
    let rest = need_rewind l history in
    if eqb s.parent_timeline l.timeline
    then some (is_beyond l s.switchpoint)
    else if ltb l.timeline s.parent_timeline
    then none
    else rest
