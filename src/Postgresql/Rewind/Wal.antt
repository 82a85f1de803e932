-- ===== src/Postgresql/Rewind/Wal.antt =====
-- patroni/postgresql/rewind.py: `_fetch_missing_wal`, `_find_missing_wal` and the loop of `pg_rewind`.
use Prim.Native.Char.{Char, code}
use pennsignals_postgres.Base.{
  ℕ, zero, suc, String, ◌<>◌, Bool, true, false, not, ◌&&◌, Option, none, some, List, [], ◌∷◌, eqb,
  leb, is_some, if◌then◌else◌,
}
use pennsignals_postgres.Base.Text.{split_at, cut, cut_last, ends_with, count}

-- A character that follows `%`: what stands for both, or `none` where `%` stands for itself.
abbrev meaning : Char → String → String → Option String
meaning c path filename =
    if eqb (code c) b'p'
    then some path
    else if eqb (code c) b'f'
    then some filename
    else if eqb (code c) b'r'
    then some "000000010000000000000001"
    else if eqb (code c) b'%'
    then some "%"
    else none

abbrev pub is_percent : Char → Bool
is_percent c = eqb (code c) b'%'

-- `rest` and `later` are what the loop makes of the text from the next character on, and from the one
-- after it.
abbrev place : Char → String → Option String → String → String
place c rest none later = String.◌∷◌ c rest
place c rest (some t) later = t <> later

unfoldable pub expand : String → String → String → String
expand path filename String.[] = ""
expand path filename (String.◌∷◌ c String.[]) = String.◌∷◌ c ""
expand path filename (String.◌∷◌ c (String.◌∷◌ d s)) =
    let rest = expand path filename (String.◌∷◌ d s) in
    let later = expand path filename s in
    if is_percent c then place c rest (meaning d path filename) later else String.◌∷◌ c rest

-- The command of `_fetch_missing_wal`; the name of the segment follows the WAL's directory.
unfoldable pub restore_command_for : String → String → String → String
restore_command_for command wal_dir filename =
    expand (wal_dir <> ("/" <> filename)) filename command

abbrev segment_in : String → Option (String × String) → Option String
segment_in wal_name none = none
segment_in wal_name (some (waldir, filename)) =
    if ends_with ("/pg_" <> wal_name) waldir && eqb (count filename) 24 then some filename else none

abbrev path_in : String → Option (String × String) → Option String
path_in wal_name none = none
path_in wal_name (some (before, after)) = elim (cut "\": " after) [
  | none ↦ none
  | some (path, rest) ↦ segment_in wal_name (cut_last b'/' path)
]

abbrev or_later : Option String → Option String → Option String
or_later none later = later
or_later (some s) later = some s

abbrev find_in_lines : String → List String → Option String
find_in_lines wal_name [] = none
find_in_lines wal_name (line ∷ lines) =
    or_later (path_in wal_name (cut "could not open file \"" line)) (find_in_lines wal_name lines)

-- The segment that pg_rewind misses, by what it wrote.
unfoldable pub find_missing_wal : String → String → Option String
find_missing_wal wal_name output = find_in_lines wal_name (split_at 10 output)

-- One run of pg_rewind: `none` is a run that was cancelled.
pub record Run : Type 0 where
  pub code : Option ℕ
  pub stdout : String
  pub stderr : String

-- The processes, over a state `W` of the outside: pg_rewind, and the command that fetches a segment.
pub record Processes (W : Type 0) : Type 0 where
  pub run_pg_rewind : W → Run × W
  pub call : String → W → Bool × W

-- An empty restore command counts as none.
pub record Settings : Type 0 where
  pub restore_command : Option String
  pub major_version : ℕ
  pub wal_dir : String
  pub wal_name : String

module _ {W : Type 0} (p : Processes W) (s : Settings) where
  abbrev pub fetch : Option String → String → W → Bool × W
  fetch none wal w = (false, w)
  fetch (some command) wal w = p.call (restore_command_for command s.wal_dir wal) w

  abbrev pub continue : (W → Option Bool × W) → Bool × W → Option Bool × W
  continue rest (false, w) = (some false, w)
  continue rest (true, w) = rest w

  abbrev pub with_missing : (W → Option Bool × W) → Option String → W → Option Bool × W
  with_missing rest none w = (some false, w)
  with_missing rest (some wal) w = continue rest (fetch s.restore_command wal w)

  unfoldable pub may_fetch : Bool
  may_fetch = is_some s.restore_command && not (leb 130000 s.major_version)

  abbrev pub fetching : (W → Option Bool × W) → Bool → Run → W → Option Bool × W
  fetching rest false r w = (some false, w)
  fetching rest true r w =
      with_missing rest
        (or_later (find_missing_wal s.wal_name r.stderr) (find_missing_wal s.wal_name r.stdout)) w

  abbrev pub with_code : (W → Option Bool × W) → Option ℕ → Run → W → Option Bool × W
  with_code rest none r w = (some false, w)
  with_code rest (some zero) r w = (some true, w)
  with_code rest (some (suc n)) r w = fetching rest may_fetch r w

  abbrev pub judge : (W → Option Bool × W) → Run × W → Option Bool × W
  judge rest (r, w) = with_code rest r.code r w

  -- `none` is a loop that goes on after the runs that `fuel` allows.
  unfoldable pub pg_rewind : ℕ → W → Option Bool × W
  pg_rewind zero w = (none, w)
  pg_rewind (suc fuel) w = judge (pg_rewind fuel) (p.run_pg_rewind w)
