-- ===== src/Tests/Threading.antt =====
-- The executor and its critical task at concrete runs.
use pennsignals_postgres.Base.{ℕ, ◌≤◌, ◌+◌, true, false, none, some, ◌≡◌, refl, ◌⊎◌, arith}
use pennsignals_postgres.Executor.{schedule, begin_run, begin_cancel}
use pennsignals_postgres.Executor.Task.{cancel, complete}
use pennsignals_postgres.Executor.System.{
  System, initial, start, begin, Run, any_label, not_cancelling, not_starting, finishing,
}
use pennsignals_postgres.Executor.System
use pennsignals_postgres.Executor.Threads.{threads, run-at_most_one, run-no_more_working}
use pennsignals_postgres.Executor.Waiting.{run-awaited}
use pennsignals_postgres.Executor.Ending.{IsFinished, run-IsFinished}
use pennsignals_postgres.Executor.Overlap.{run-many_working}

-- An action whose thread has begun.
abbrev restarting : System
restarting = record {
  executor = record {
    scheduled_action = some "restart";
    is_cancelled = false;
    finish_event = false;
  };
  waiting = 0;
  working = 1;
  leaving = 0;
  cancelling = 0;
}

restarted : Run not_cancelling initial restarting
unfolding schedule begin_run
restarted =
    System.next (System.next System.here refl (start initial "restart" refl)) refl
      (begin _ 0 refl refl)

run-at_most_one_example : threads restarting ≤ 1
run-at_most_one_example = run-at_most_one restarted

-- The same action, that is asked to stop.
abbrev stopping : System
stopping = record {
  executor = record {
    scheduled_action = some "restart";
    is_cancelled = true;
    finish_event = false;
  };
  waiting = 0;
  working = 1;
  leaving = 0;
  cancelling = 1;
}

stopped : Run any_label initial stopping
unfolding schedule begin_run begin_cancel
stopped =
    System.next
      (System.next (System.next System.here refl (start initial "restart" refl)) refl
        (begin _ 0 refl refl))
      refl (System.cancel _ refl)

run-awaited_example :
    (stopping.executor.finish_event ≡ true) ⊎ (1 ≤ stopping.working + stopping.leaving)
run-awaited_example = run-awaited stopped (omega arith)

abbrev returning : System
returning = record stopping { working = 0; leaving = 1 }

returned_run : Run not_starting stopping returning
returned_run = System.next System.here refl (System.returned stopping 0 refl)

run-no_more_working_example :
    (returning.executor.is_cancelled ≡ true) × (returning.working ≤ stopping.working)
run-no_more_working_example = run-no_more_working refl returned_run

run-IsFinished_example : (t : System) × (Run finishing stopping t × IsFinished t)
run-IsFinished_example = run-IsFinished stopping (omega arith)

run-many_working_example : (t : System) × (Run any_label initial t × (t.working ≡ 2))
run-many_working_example = run-many_working "restart" 1

-- A result that is `None` does not count as one.
test_complete :
    (cancel {A = ℕ} (complete none (record { is_cancelled = false; result = some 1 }))).0 ≡ true
unfolding cancel complete
test_complete = refl
