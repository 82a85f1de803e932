-- ===== src/Executor/Waiting.antt =====
-- Whoever waits in `cancel` waits for a thread (patroni/async_executor.py).
use pennsignals_postgres.Base.{◌+◌, ◌≤◌, true, none, ◌≡◌, refl, ◌⊎◌, inl, inr, arith}
use pennsignals_postgres.Executor.{end_run, reset_scheduled_action}
use pennsignals_postgres.Executor.System.{
  System, initial, Label, Step, start, begin, skip, returned, leave, cancel, stop, Run, here, next,
  any_label,
}
use pennsignals_postgres.Executor.Threads.{schedule-none, begin_cancel-true}

-- The event is set, or a thread is in `run`, or nothing was scheduled yet.
abbrev IsAwake : System → Type 0
IsAwake s =
    (s.executor.finish_event ≡ true)
    ⊎ ((1 ≤ s.working + s.leaving) ⊎ ((s.cancelling ≡ 0) × (s.executor.scheduled_action ≡ none)))

step_IsAwake : {l : Label} {s t : System} → Step l s t → IsAwake s → IsAwake t
unfolding end_run reset_scheduled_action
step_IsAwake (start s action e) h = let q = (schedule-none action s.executor e).1 in rw q (inl refl)
step_IsAwake (begin s n w e) h = inr (inl (omega arith))
step_IsAwake (skip s n w e) h = inr (inl (omega arith))
step_IsAwake (returned s n w) h = inr (inl (omega arith))
step_IsAwake (leave s n w) h = inl refl
step_IsAwake (cancel s e) (inl h) = let q = (begin_cancel-true s.executor e).1 in rw q (inl h)
step_IsAwake (cancel s e) (inr (inl h)) = inr (inl h)
step_IsAwake (cancel s e) (inr (inr h)) =
    let o = (begin_cancel-true s.executor e).0 in let k = h.1 in cc
step_IsAwake (stop s n w e) h = inl e

run_IsAwake : {s t : System} → IsAwake s → Run any_label s t → IsAwake t
run_IsAwake h here = h
run_IsAwake h (next r p st) = step_IsAwake st (run_IsAwake h r)

-- Whoever waits in `cancel` for the event waits for a thread that is in `run` and will set it: in any
-- order of steps the wake-up is not lost.
pub run-awaited :
    {s : System}
    → Run any_label initial s
    → 1 ≤ s.cancelling
    → (s.executor.finish_event ≡ true) ⊎ (1 ≤ s.working + s.leaving)
run-awaited {s} r c = elim (run_IsAwake (inr (inr (refl, refl))) r) [
  | inl e ↦ inl e
  | inr (inl k) ↦ inr k
  | inr (inr k) ↦ absurd (omega (arith, k.0))
]
