-- ===== src/Executor/System.antt =====
-- The threads of an executor: how many wait to begin `run`, are in its function, are about to leave it,
-- and are in `cancel` after its first block. A step is a block of a method under a lock, by any of them.
use pennsignals_postgres.Base.{ℕ, suc, String, Bool, true, false, none, ◌≡◌}
use pennsignals_postgres.Executor.{
  Executor, new_executor, schedule, begin_run, end_run, begin_cancel, reset_scheduled_action,
}

pub record System : Type 0 where
  pub executor : Executor
  pub waiting : ℕ
  pub working : ℕ
  pub leaving : ℕ
  pub cancelling : ℕ

abbrev pub initial : System
initial = record { executor = new_executor; waiting = 0; working = 0; leaving = 0; cancelling = 0 }

pub data Label : Type 0 where
  starts : Label
  begins : Label
  skips : Label
  returns : Label
  leaves : Label
  cancels : Label
  stops : Label

abbrev started : System → Executor → System
started s e = record s { executor = e; waiting = suc s.waiting }

pub data Step : Label → System → System → Type 0 where
  -- `try_run_async`, where no other action is in progress
  start :
      (s : System) (action : String)
      → (schedule action s.executor).0 ≡ none
      → Step starts s (started s (schedule action s.executor).1)
  begin :
      (s : System) (n : ℕ)
      → s.waiting ≡ suc n
      → (begin_run s.executor).0 ≡ true
      → Step begins s
          (record s { executor = (begin_run s.executor).1; waiting = n; working = suc s.working })
  skip :
      (s : System) (n : ℕ)
      → s.waiting ≡ suc n
      → (begin_run s.executor).0 ≡ false
      → Step skips s (record s { waiting = n; leaving = suc s.leaving })
  -- The function returns or raises.
  returned :
      (s : System) (n : ℕ)
      → s.working ≡ suc n
      → Step returns s (record s { working = n; leaving = suc s.leaving })
  leave :
      (s : System) (n : ℕ)
      → s.leaving ≡ suc n
      → Step leaves s (record s { executor = end_run s.executor; leaving = n })
  cancel :
      (s : System)
      → (begin_cancel s.executor).0 ≡ true
      → Step cancels s
          (record s { executor = (begin_cancel s.executor).1; cancelling = suc s.cancelling })
  -- `_finish_event.wait()` returns.
  stop :
      (s : System) (n : ℕ)
      → s.cancelling ≡ suc n
      → s.executor.finish_event ≡ true
      → Step stops s (record s { executor = reset_scheduled_action s.executor; cancelling = n })

-- Some steps with labels that a test admits.
pub data Run (p : Label → Bool) (s : System) : System → Type 0 where
  here : Run p s s
  next : {l : Label} {t u : System} → Run p s t → p l ≡ true → Step l t u → Run p s u

abbrev pub any_label : Label → Bool
any_label l = true

abbrev pub not_cancelling : Label → Bool
not_cancelling cancels = false
not_cancelling _ = true

abbrev pub not_starting : Label → Bool
not_starting starts = false
not_starting _ = true

-- The steps of the threads in `run`.
abbrev pub finishing : Label → Bool
finishing begins = true
finishing skips = true
finishing returns = true
finishing leaves = true
finishing _ = false
