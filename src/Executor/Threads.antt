-- ===== src/Executor/Threads.antt =====
-- How the threads of an executor share it (patroni/async_executor.py).
use pennsignals_postgres.Base.{
  ℕ, ◌+◌, ◌≤◌, String, Bool, true, false, Option, none, some, is_some, ◌≡◌, refl, subst, arith,
}
use pennsignals_postgres.Executor.{
  Executor, place, flag_if, begin_if, schedule, begin_run, end_run, begin_cancel,
  reset_scheduled_action,
}
use pennsignals_postgres.Executor.System.{
  System, initial, Label, Step, start, begin, skip, returned, leave, cancel, stop, Run, here, next,
  not_cancelling, not_starting,
}

abbrev pub threads : System → ℕ
threads s = s.waiting + s.working + s.leaving

placed :
    (o : Option String) (action : String) (e : Executor)
    → (place o action e).0 ≡ none
    → (o ≡ none)
      × ((place o action e).1
          ≡ record { scheduled_action = some action; is_cancelled = false; finish_event = true })
placed none action e h = (refl, refl)
placed (some prev) action e h = cc

pub schedule-none :
    (action : String) (e : Executor)
    → (schedule action e).0 ≡ none
    → (e.scheduled_action ≡ none)
      × ((schedule action e).1
          ≡ record { scheduled_action = some action; is_cancelled = false; finish_event = true })
unfolding schedule
schedule-none action e h = placed e.scheduled_action action e h

begun :
    (b : Bool) (e : Executor)
    → (begin_if b e).0 ≡ true
    → (b ≡ false) × ((begin_if b e).1 ≡ record e { finish_event = false })
begun true e h = cc
begun false e h = (refl, refl)

pub begin_run-true :
    (e : Executor)
    → (begin_run e).0 ≡ true
    → (e.is_cancelled ≡ false) × ((begin_run e).1 ≡ record e { finish_event = false })
unfolding begin_run
begin_run-true e h = begun e.is_cancelled e h

skipped : (b : Bool) (e : Executor) → (begin_if b e).0 ≡ false → b ≡ true
skipped true e h = refl
skipped false e h = cc

begin_run-false : (e : Executor) → (begin_run e).0 ≡ false → e.is_cancelled ≡ true
unfolding begin_run
begin_run-false e h = skipped e.is_cancelled e h

flagged :
    (o : Option String) (e : Executor)
    → (flag_if o e).0 ≡ true
    → (is_some o ≡ true) × ((flag_if o e).1 ≡ record e { is_cancelled = true })
flagged none e h = cc
flagged (some a) e h = (refl, refl)

pub begin_cancel-true :
    (e : Executor)
    → (begin_cancel e).0 ≡ true
    → (is_some e.scheduled_action ≡ true) × ((begin_cancel e).1 ≡ record e { is_cancelled = true })
unfolding begin_cancel
begin_cancel-true e h = flagged e.scheduled_action e h

-- While nothing is cancelled: one thread runs the action that is scheduled.
abbrev IsBusyWith : Option String → ℕ → Type 0
IsBusyWith none n = n ≡ 0
IsBusyWith (some a) n = n ≡ 1

abbrev IsQuiet : System → Type 0
IsQuiet s =
    (s.cancelling ≡ 0)
    × ((s.executor.is_cancelled ≡ false) × IsBusyWith s.executor.scheduled_action (threads s))

at_most_one : (o : Option String) (n : ℕ) → IsBusyWith o n → n ≤ 1
at_most_one none n h = omega arith
at_most_one (some a) n h = omega arith

of_thread : (o : Option String) (n : ℕ) → IsBusyWith o n → 1 ≤ n → n ≡ 1
of_thread none n h k = omega arith
of_thread (some a) n h k = h

of_none : (o : Option String) (n : ℕ) → IsBusyWith o n → o ≡ none → n ≡ 0
of_none none n h k = h
of_none (some a) n h k = cc

moved : (o : Option String) (n m : ℕ) → n ≡ m → IsBusyWith o n → IsBusyWith o m
moved o n m e h = subst (IsBusyWith o) e h

step_IsQuiet :
    {l : Label} {s t : System} → not_cancelling l ≡ true → Step l s t → IsQuiet s → IsQuiet t
unfolding end_run reset_scheduled_action
step_IsQuiet p (start s action e) h =
    let (o, q) = schedule-none action s.executor e in
    rw q (h.0, (refl, omega (arith, of_none s.executor.scheduled_action (threads s) h.1.1 o)))
step_IsQuiet p (begin s n w e) h =
    let (c, q) = begin_run-true s.executor e in
    rw q (h.0, (h.1.0, moved s.executor.scheduled_action (threads s) _ (omega arith) h.1.1))
step_IsQuiet p (skip s n w e) h = let c = begin_run-false s.executor e in let d = h.1.0 in cc
step_IsQuiet p (returned s n w) h =
    (h.0, (h.1.0, moved s.executor.scheduled_action (threads s) _ (omega arith) h.1.1))
step_IsQuiet p (leave s n w) h =
    let k = of_thread s.executor.scheduled_action (threads s) h.1.1 (omega arith) in
    (h.0, (h.1.0, omega arith))
step_IsQuiet p (cancel s e) h = cc
step_IsQuiet p (stop s n w e) h = absurd (omega arith)

run_IsQuiet : {s t : System} → IsQuiet s → Run not_cancelling s t → IsQuiet t
run_IsQuiet h here = h
run_IsQuiet h (next r p st) = step_IsQuiet p st (run_IsQuiet h r)

-- Unless something is cancelled, an executor never has two threads at once, whatever is scheduled
-- and whenever the threads begin, return and leave.
pub run-at_most_one : {s : System} → Run not_cancelling initial s → threads s ≤ 1
run-at_most_one {s} r =
    at_most_one s.executor.scheduled_action (threads s) (run_IsQuiet (refl, (refl, refl)) r).1.1

step_no_more :
    {l : Label} {s t : System}
    → not_starting l ≡ true
    → Step l s t
    → s.executor.is_cancelled ≡ true
    → (t.executor.is_cancelled ≡ true) × (t.working ≤ s.working)
unfolding end_run reset_scheduled_action
step_no_more p (start s action e) h = cc
step_no_more p (begin s n w e) h = let (c, q) = begin_run-true s.executor e in cc
step_no_more p (skip s n w e) h = (h, omega arith)
step_no_more p (returned s n w) h = (h, omega arith)
step_no_more p (leave s n w) h = (h, omega arith)
step_no_more p (cancel s e) h =
    let (o, q) = begin_cancel-true s.executor e in rw q (refl, omega arith)
step_no_more p (stop s n w e) h = (h, omega arith)

-- After a request to cancel, threads that had not begun do not run their functions while nothing new
-- is scheduled: the request stands, and no further function is called.
pub run-no_more_working :
    {s t : System}
    → s.executor.is_cancelled ≡ true
    → Run not_starting s t
    → (t.executor.is_cancelled ≡ true) × (t.working ≤ s.working)
run-no_more_working c here = (c, omega arith)
run-no_more_working c (next r p st) =
    let (d, k) = run-no_more_working c r in let (d', k') = step_no_more p st d in (d', omega arith)
