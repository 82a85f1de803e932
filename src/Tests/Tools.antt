-- ===== src/Tests/Tools.antt =====
-- Retried calls, polling, patches and WAL positions at concrete inputs.
use pennsignals_postgres.Base.{
  List, [], ◌∷◌, ℕ, suc, ◌+◌, String, true, false, none, some, ◌≡◌, refl, arith,
}
use pennsignals_postgres.Base.Int.{pos}
use pennsignals_postgres.Json.{Value, Fields, get, has_key, end, field, num}
use pennsignals_postgres.Utils.Retry.{Outside, Retry, retryable, call_retrying}
use pennsignals_postgres.Utils.RetryLaws.{IsWithin, call_retrying-IsWithin}
use pennsignals_postgres.Utils.Polling.{
  Caller, ClockLaws, Meter, IsEnded, polling_loop, polling_loop-IsEnded,
}
use pennsignals_postgres.Utils.Patch.{patch_config}
use pennsignals_postgres.Utils.PatchLaws.{IsFull, patch_config-get, patch_config-unchanged}
use pennsignals_postgres.Postgresql.Lsn.{
  parse_lsn, format_lsn, format_hex, format_hex_8, zeros, hex_onto,
}
use pennsignals_postgres.Postgresql.LsnText.{parse_lsn-format_lsn}
use pennsignals_postgres.Postgresql.Rewind.Wal.{restore_command_for, expand, Processes, Settings}
use pennsignals_postgres.Postgresql.Rewind.WalLaws.{Piece, text, path, file}

-- A store that does not answer; the state is the time.
abbrev unreachable : Outside ℕ ℕ
unreachable = record {
  call = λ w. (retryable none, w);
  time = λ w. (w, w);
  jitter = λ n w. (0, w);
  sleep = λ n w. w + n;
}

abbrev three_tries : Retry
three_tries = record {
  max_tries = pos 3;
  delay = 10;
  backoff = 2;
  max_jitter = 80;
  max_delay = 360000;
  deadline = none;
  attempts = 0;
  cur_delay = 10;
  cur_stoptime = none;
}

call_retrying-IsWithin_example :
    IsWithin unreachable 4 (call_retrying unreachable 4 three_tries 0).0
call_retrying-IsWithin_example = call_retrying-IsWithin unreachable 3 three_tries 0 refl

-- A caller that takes one second for each turn.
abbrev slow_caller : Caller (ℕ × ℕ)
slow_caller = record {
  time = λ w. w.0;
  sleep = λ i w. (w.0 + i, w.1);
  body = λ n w. (false, (suc w.0, suc w.1));
}

slow_caller_laws : ClockLaws slow_caller
slow_caller_laws = record { sleeps = λ i w. omega arith; forward = λ n w. omega arith }

-- It counts its turns in the state.
abbrev slow_meter : Meter slow_caller
slow_meter = record { count = λ w. w.1; counts = λ n w. refl; idle = λ i w. refl }

polling_loop-IsEnded_example :
    IsEnded slow_caller slow_meter 0 10 (polling_loop slow_caller 11 10 1 (100, 0))
polling_loop-IsEnded_example =
    polling_loop-IsEnded slow_caller slow_meter slow_caller_laws 10 10 1 (100, 0) (omega arith)

abbrev as_text : Value → String
as_text (Value.str s) = s
as_text _ = "30"

abbrev ttl_only : Fields
ttl_only = field "ttl" (num (pos 30)) end

patch_config-get_example :
    get "ttl" (patch_config as_text ttl_only (field "loop_wait" (num (pos 10)) end)).1
    ≡ get "ttl" ttl_only
unfolding has_key
patch_config-get_example =
    patch_config-get as_text ttl_only (field "loop_wait" (num (pos 10)) end) "ttl" refl

full : IsFull ttl_only
unfolding IsFull
full = (tt, tt)

same_patch : (patch_config as_text ttl_only (field "ttl" (num (pos 30)) end)).0 ≡ false
unfolding patch_config has_key get
same_patch = refl

patch_config-unchanged_example :
    (patch_config as_text ttl_only (field "ttl" (num (pos 30)) end)).1 ≡ ttl_only
patch_config-unchanged_example =
    patch_config-unchanged as_text ttl_only (field "ttl" (num (pos 30)) end) full same_patch

parse_lsn-format_lsn_example : parse_lsn (format_lsn 25353872 false) ≡ some 25353872
parse_lsn-format_lsn_example = parse_lsn-format_lsn 25353872 false (omega arith)

test_lsn : format_lsn 25353872 false ≡ "0/182DE90"
unfolding format_lsn format_hex hex_onto
test_lsn = refl

test_lsn_full : format_lsn 25353872 true ≡ "0/0182DE90"
unfolding format_lsn format_hex format_hex_8 zeros hex_onto
test_lsn_full = refl

abbrev copy : List Piece
copy = text "cp /a/" ∷ file ∷ text " " ∷ path ∷ []

test_restore : restore_command_for "cp /a/%f %p" "pg_wal" "0A" ≡ "cp /a/0A pg_wal/0A"
unfolding restore_command_for expand
test_restore = refl

-- pg_rewind fails for good.
abbrev failing : Processes ℕ
failing = record {
  run_pg_rewind = λ w. (record { code = some 1; stdout = ""; stderr = "fatal" }, suc w);
  call = λ c w. (true, w);
}

abbrev version_13 : Settings
version_13 = record {
  restore_command = some "cp /a/%f %p";
  major_version = 130000;
  wal_dir = "pg_wal";
  wal_name = "wal";
}
