-- ===== src/Executor/Overlap.antt =====
-- Actions that are cancelled before their threads begin (patroni/async_executor.py).
use pennsignals_postgres.Base.{
  ℕ, zero, suc, ◌+◌, String, Bool, true, false, Option, none, some, ◌≡◌, refl, arith,
}
use pennsignals_postgres.Executor.{schedule, begin_run, begin_cancel, reset_scheduled_action}
use pennsignals_postgres.Executor.System.{
  System, initial, start, begin, cancel, stop, Run, here, next, any_label,
}
use pennsignals_postgres.Executor.Ending.{joined}

-- A state in which no thread is leaving or in `cancel`.
abbrev with_threads : Option String → Bool → Bool → ℕ → ℕ → System
with_threads action cancelled event waiting working = record {
  executor = record { scheduled_action = action; is_cancelled = cancelled; finish_event = event };
  waiting = waiting;
  working = working;
  leaving = 0;
  cancelling = 0;
}

-- An action is scheduled and cancelled before its thread begins.
pile_up :
    (action : String) (c e : Bool) (n : ℕ)
    → Run any_label (with_threads none c e n 0) (with_threads none true true (suc n) 0)
unfolding schedule begin_cancel reset_scheduled_action
pile_up action c e n =
    next
      (next (next here refl (start (with_threads none c e n 0) action refl)) refl (cancel _ refl))
      refl (stop _ 0 refl refl)

piled_up :
    (action : String) (n : ℕ)
    → (c : Bool) × ((e : Bool) × Run any_label initial (with_threads none c e n 0))
piled_up action zero = (false, (false, here))
piled_up action (suc n) =
    let (c, (e, r)) = piled_up action n in (true, (true, joined r (pile_up action c e n)))

all_begin :
    (action : String) (w k : ℕ) (e : Bool)
    → (t : System) × (Run any_label (with_threads (some action) false e w k) t
        × (t.working ≡ w + k))
unfolding begin_run
all_begin action zero k e = (_, (here, omega arith))
all_begin action (suc w) k e =
    let (t, (r, q)) = all_begin action w (suc k) false in
    (
      t,
      (
        joined (next here refl (begin (with_threads (some action) false e (suc w) k) w refl refl))
            r,
        omega arith,
      ),
    )

-- Any number of functions may run at once: `schedule` sets the event that `cancel` waits for, so an
-- action is taken off before its thread begins, and the next `schedule` clears the flag that would have
-- stopped that thread.
pub run-many_working :
    (action : String) (n : ℕ) → (t : System) × (Run any_label initial t × (t.working ≡ suc n))
unfolding schedule
run-many_working action n =
    let (c, (e, r)) = piled_up action n in
    let (t, (q, k)) = all_begin action (suc n) 0 true in
    (t, (joined (next r refl (start (with_threads none c e n 0) action refl)) q, omega arith))
